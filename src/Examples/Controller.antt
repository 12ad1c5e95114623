-- ===== src/Examples/Controller.antt =====
-- The theorems on the records of the repository, the controller and the daemon at concrete values.
use ipmigod.Base.{
  length, ℕ, ◌≡◌, ◌≤◌, ◌<◌, refl, inl, inr, Bool-cases, ◌==◌, ◌&&◌, none, some, List, [], ◌∷◌,
  replicate, ok, panic, ◌>>=◌, Returns, arith,
}
use ipmigod.Server.{ipmi_handle_msg}
use ipmigod.Wire.{Bytes, uint16_at, put_uint16}
use ipmigod.Bmc.{Sdr}
use ipmigod.Message.{Msg, new_msg}
use ipmigod.World.{World, nil, return_err, return_rsp_data}
use ipmigod.Storage.Validity.{sdrs_valid}
use ipmigod.Storage.Sdr.{add_sdr, get_sdr, clear_sdr_repository, is_sensor}
use ipmigod.Storage.Sensor.{get_sensor_reading, reading_flags}
use ipmigod.Storage.Sdr.Chain.{last, link}
use ipmigod.Storage.Sdr.Contents.{find_record}
use ipmigod.Storage.Sdr.Records.{find_record-append_last}
use ipmigod.Storage.Sdr.Refines.{Holds, Refines, add_spec, new_record, add_sdr-Refines}
use ipmigod.Storage.Sdr.Follow.{get_spec, get_sdr-get_spec, get_sensor_reading-find_record}
use ipmigod.Storage.Sdr.ReadAll.{read_all, read_all-records}
use ipmigod.Server.Boot.{boot, boot-ServerIsValid}
use ipmigod.Client.{client_ctx, add_sdr_build_msg}
use ipmigod.Client.Handshake.{Network}
use ipmigod.Controller.{Controller, Sensor, set_sensor, new_sensor}
use ipmigod.Controller.Validity.{ControllerIsValid, InSync}
use ipmigod.Controller.Ends.{Undelivered, Ends}
use ipmigod.Controller.Init.{bmc_init}
use ipmigod.Controller.Boot.{
  powered, simulated_records, bmc_init-simulated_records, bmc_init-poll_sensors,
}
use ipmigod.Controller.Poll.{poll_sensors, with_value}
use ipmigod.Controller.Poll.Sync.{poll_sensors-InSync}
use ipmigod.Controller.Poll.Empty.{clear_sdr_repository-poll_panics}
use ipmigod.Controller.Reading.{with_reading, ipmi_handle_msg-with_reading}
use ipmigod.Examples.{env0, message, sdr, two_sdrs, two_sdrs-SdrsAreLinked}

abbrev pub records : List Sdr
records = sdr 1 none ∷ sdr 2 none ∷ []

abbrev pub world2 : World
world2 = record (boot 0) { main_sdrs = two_sdrs }

pub world2-Holds : Holds world2 records
world2-Holds = record {
  cells = (0, sdr 1 (some 1)) ∷ (1, sdr 2 none) ∷ [];
  chain = link (omega arith) refl (link (omega arith) refl last);
  tail = refl;
  records = refl;
}

-- A new record of 48 bytes for the sensor 3.
abbrev add_request : Msg
add_request = message 0 (0 ∷ 0 ∷ 0x51 ∷ 1 ∷ 43 ∷ 0x20 ∷ 0 ∷ 3 ∷ replicate 56 0)

add_sdr-Refines_example :
    Refines Holds
      (add_sdr env0 add_request world2)
      (add_spec add_request (new_record add_request world2) records)
add_sdr-Refines_example = add_sdr-Refines env0 add_request records world2 world2-Holds

-- Eight bytes of the record 1.
abbrev read_request : Msg
read_request = message 0 (0 ∷ 0 ∷ 1 ∷ 0 ∷ 0 ∷ 8 ∷ [])

get_sdr-get_spec_example : get_sdr env0 read_request world2 ≡ get_spec read_request records world2
get_sdr-get_spec_example = get_sdr-get_spec env0 read_request world2 records world2-Holds

-- The sensor 2.
abbrev sensor_request : Msg
sensor_request = message 0 (2 ∷ [])

get_sensor_reading-find_record_example :
    get_sensor_reading env0 sensor_request world2 ≡ elim (find_record (is_sensor 0 2) records) [
      | none ↦ return_err sensor_request nil 0x81 world2
      | some r ↦
          return_rsp_data sensor_request nil
            (0 ∷ r.value ∷ reading_flags r ∷ put_uint16 r.event_status)
            world2
    ]
get_sensor_reading-find_record_example =
    get_sensor_reading-find_record env0 sensor_request world2 records world2-Holds

read_all-records_example : read_all (length records) 0 two_sdrs ≡ ok records
read_all-records_example =
    read_all-records two_sdrs (sdr 1 none) (sdr 2 none ∷ []) world2-Holds
      (((λ e. omega (arith, e)), tt), (tt, tt))
      ((omega arith, omega arith), ((omega arith, omega arith), tt))

-- A network that loses every request.
abbrev pub dead : Network ℕ
dead s request = (none, s)

abbrev pub now7 : ℕ → ℕ
now7 i = 7

abbrev pub draw9 : ℕ → ℕ → ℕ
draw9 lun num = 9

bmc_init-simulated_records_example :
    Ends
      (Undelivered dead 0 (simulated_records 0))
      (λ c. ControllerIsValid c (simulated_records 0))
      (bmc_init dead now7 (powered 0 client_ctx 0))
bmc_init-simulated_records_example = bmc_init-simulated_records dead now7 0 client_ctx 0

bmc_init-poll_sensors_example :
    Ends
      (Undelivered dead 0 (simulated_records 0))
      (λ c.
        Returns
          (λ c'.
            (rs : List Sdr) × ControllerIsValid c' rs
            × ((lun num : ℕ) → lun < 4 → 1 ≤ num → num < 255 → InSync c' rs lun num))
          (poll_sensors dead draw9 c))
      (bmc_init dead now7 (powered 0 client_ctx 0))
bmc_init-poll_sensors_example = bmc_init-poll_sensors dead draw9 now7 0 client_ctx 0

-- A controller with the sensor 2.
abbrev pub sensor2 : Sensor
sensor2 = new_sensor 0x20 0 2 2 1

abbrev pub controller2 : Controller ℕ
controller2 = record {
  world = world2;
  sensors = set_sensor (λ lun num. none) 0 2 sensor2;
  client_ctx = client_ctx;
  mm = 0;
}

pub controller2-listed :
    (lun num : ℕ) (s : Sensor)
    → controller2.sensors lun num ≡ some s
    → (r : Sdr) × (find_record (is_sensor lun num) records ≡ some r)
controller2-listed lun num s e = elim (Bool-cases (lun == 0 && num == 2)) [
  | inl here ↦
      find_record-append_last (is_sensor lun num) (sdr 1 none ∷ []) (sdr 2 none) (ground arith)
  | inr apart ↦ absurd (ground arith)
]

pub controller2-Valid : ControllerIsValid controller2 records
controller2-Valid = record {
  server = sdrs_valid (boot 0) (boot-ServerIsValid 0) two_sdrs two_sdrs-SdrsAreLinked;
  holds = world2-Holds;
  listed = controller2-listed;
}

poll_sensors-InSync_example :
    Returns
      (λ c.
        (rs : List Sdr) × ControllerIsValid c rs
        × ((lun num : ℕ) → lun < 4 → 1 ≤ num → num < 255 → InSync c rs lun num))
      (poll_sensors dead draw9 controller2)
poll_sensors-InSync_example = poll_sensors-InSync dead draw9 controller2 records controller2-Valid

-- A request to clear the repository.
abbrev clear_request : Msg
clear_request = message 0 (0 ∷ 0 ∷ 0x43 ∷ 0x4c ∷ 0x52 ∷ 0xaa ∷ [])

clear_sdr_repository-poll_panics_example :
    (clear_sdr_repository env0 clear_request world2 >>= λ w.
    poll_sensors dead draw9 (record controller2 { world = w }))
    ≡ panic
unfolding uint16_at
clear_sdr_repository-poll_panics_example =
    clear_sdr_repository-poll_panics dead draw9 env0 clear_request controller2 0 2 sensor2 refl refl
      refl (omega arith) (omega arith) (omega arith) refl

-- The line card's record of the sensor 2, sent with the reading 5.
abbrev record2 : Bytes
record2 = 1 ∷ 0 ∷ 0x51 ∷ 1 ∷ 0x35 ∷ 0x20 ∷ 0 ∷ 2 ∷ replicate 56 0

ipmi_handle_msg-with_reading_example :
    Refines Holds
      (ipmi_handle_msg env0
        (new_msg (with_value 5 (add_sdr_build_msg record2 client_ctx).0) 85)
        world2)
      (ok (with_reading 0 2 5 records))
ipmi_handle_msg-with_reading_example =
    ipmi_handle_msg-with_reading env0 record2 5 client_ctx records (sdr 2 none) world2 refl refl
      world2-Holds
