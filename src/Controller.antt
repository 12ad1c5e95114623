-- ===== src/Controller.antt =====
-- bmc.go and ipmi_internal_sensor.go: the management controller at its start. The client's session with the
-- MM card goes over a network, a parameter; `mm` is the state of all that is at its other end.
pub mod Init
pub mod Poll
pub mod Validity
pub mod Boot
pub mod Reading
pub mod Daemon
pub mod Ticker
pub mod Lan
pub mod Ends
pub mod Started
use ipmigod.Base.{
  ℕ, ◌+◌, ◌%◌, ◌^◌, ltb, leb, ◌==◌, if◌then◌else◌, Bool, true, ◌&&◌, Option, some, none, List, [],
  ◌∷◌, ◌++◌, length, take, drop, replicate, Outcome, ok, panic, ◌>>=◌,
}
use ipmigod.Wire.{Bytes, put_uint16, low_bits}
use ipmigod.Bmc.{Sdr, Sdrs, copy_at}
use ipmigod.World.{World}
use ipmigod.Storage.Sdr.{add_sdr_entry}
use ipmigod.Client.{ClientContext, add_sdr_build_msg, add_sdr_parse_rsp}
use ipmigod.Client.Handshake.{Network, max_retries, try_req_rsp, ◌and_then◌}

-- `sensorT`, the fields that the code sets.
pub record Sensor : Type 0 where
  pub num : ℕ
  pub lun : ℕ
  pub scanning_enabled : Bool
  pub events_enabled : Bool
  pub enabled : Bool
  pub mc : ℕ
  pub sensor_type : ℕ
  pub event_reading_code : ℕ
  pub value : ℕ
  pub event_status : ℕ

-- `mc.sensors`: no sensor stands for a nil pointer.
abbrev pub Sensors : Type 0
Sensors = ℕ → ℕ → Option Sensor

pub record Controller (S : Type 0) : Type 0 where
  pub world : World
  pub sensors : Sensors
  pub client_ctx : ClientContext
  pub mm : S

-- `mc.sensors[lun][num] = sensor`.
abbrev pub set_sensor : Sensors → ℕ → ℕ → Sensor → Sensors
set_sensor sensors lun num sensor l n = if l == lun && n == num then some sensor else sensors l n

abbrev pub new_sensor : ℕ → ℕ → ℕ → ℕ → ℕ → Sensor
new_sensor bmc lun num stype code = record {
  num = num;
  lun = lun;
  scanning_enabled = true;
  events_enabled = true;
  enabled = true;
  mc = bmc;
  sensor_type = stype;
  event_reading_code = code;
  value = 0;
  event_status = 0;
}

-- `sensorAdd`: the array has 4 rows of 255 pointers.
unfoldable pub sensor_add : {S : Type 0} → ℕ → ℕ → ℕ → ℕ → ℕ → Controller S → Outcome (Controller S)
sensor_add bmc lun num stype code c =
    if ltb lun 4 && ltb num 255
    then ok
        (record c { sensors = set_sensor c.sensors lun num (new_sensor bmc lun num stype code) })
    else panic

-- The parameters of `mainSdrAdd`.
pub record SdrArgs : Type 0 where
  pub bmc : ℕ
  pub record_id : ℕ
  pub sdr_vers : ℕ
  pub record_type : ℕ
  pub record_length : ℕ
  pub sensor_owner_id : ℕ
  pub sensor_owner_lun : ℕ
  pub sensor_num : ℕ
  pub entity_id : ℕ
  pub entity_instance : ℕ
  pub sensor_init : ℕ
  pub sensor_caps : ℕ
  pub sensor_type : ℕ
  pub event_code : ℕ
  pub ass_lthr_mask : ℕ
  pub deass_hthr_mask : ℕ
  pub dr_st_rd_mask : ℕ
  pub sensor_units1 : ℕ
  pub sensor_units2 : ℕ
  pub sensor_units3 : ℕ
  pub linear : ℕ
  pub m : ℕ
  pub m_tol : ℕ
  pub b : ℕ
  pub b_acc : ℕ
  pub acc_dir : ℕ
  pub rexp_bexp : ℕ
  pub anlog_flags : ℕ
  pub nom_reading : ℕ
  pub norm_max : ℕ
  pub norm_min : ℕ
  pub sensor_max : ℕ
  pub sensor_min : ℕ
  pub upper_nc_thr : ℕ
  pub upper_cr_thr : ℕ
  pub upper_ncr_thr : ℕ
  pub lower_nr_thr : ℕ
  pub lower_cr_thr : ℕ
  pub lower_ncr_thr : ℕ
  pub pg_thr_hyst : ℕ
  pub ng_thr_hyst : ℕ
  pub res1 : ℕ
  pub res2 : ℕ
  pub oem : ℕ
  pub id_str_lght_code : ℕ
  pub id_str : Bytes

-- The first 48 bytes of `newSdr.data`.
abbrev pub sdr_header : ℕ → SdrArgs → Bytes
sdr_header id a =
    put_uint16 id
    ++ (a.sdr_vers ∷ a.record_type ∷ a.record_length ∷ a.sensor_owner_id ∷ a.sensor_owner_lun
        ∷ a.sensor_num ∷ a.entity_id ∷ a.entity_instance ∷ a.sensor_init ∷ a.sensor_caps
        ∷ a.sensor_type ∷ a.event_code ∷ [])
    ++ put_uint16 a.ass_lthr_mask
    ++ put_uint16 a.deass_hthr_mask
    ++ put_uint16 a.dr_st_rd_mask
    ++ (a.sensor_units1 ∷ a.sensor_units2 ∷ a.sensor_units3 ∷ a.linear ∷ a.m ∷ a.m_tol ∷ a.b
        ∷ a.b_acc ∷ a.acc_dir ∷ a.rexp_bexp ∷ a.anlog_flags ∷ a.nom_reading ∷ a.norm_max
        ∷ a.norm_min ∷ a.sensor_max ∷ a.sensor_min ∷ a.upper_nc_thr ∷ a.upper_cr_thr
        ∷ a.upper_ncr_thr ∷ a.lower_nr_thr ∷ a.lower_cr_thr ∷ a.lower_ncr_thr ∷ a.pg_thr_hyst
        ∷ a.ng_thr_hyst ∷ a.res1 ∷ a.res2 ∷ a.oem ∷ a.id_str_lght_code ∷ [])

-- `newSdr`.
unfoldable pub main_sdr : ℕ → SdrArgs → Bytes → Sdr
main_sdr id a id_str = record {
  record_id = id;
  lun = a.sensor_owner_lun;
  sens_num = a.sensor_num;
  length = (48 + low_bits a.id_str_lght_code 5 + 5) % 2 ^ 8;
  enabled = true;
  events_enabled = true;
  scanning_enabled = true;
  event_status = 0;
  value = 0;
  bytes = sdr_header id a ++ copy_at (replicate 16 0) 0 id_str;
  next = none;
}

-- `idStr[0:idStrLength]`. The capacity of the slice is taken to be its length: the callers' names have the
-- length that they pass.
abbrev pub id_string : SdrArgs → Outcome Bytes
id_string a =
    let n = low_bits a.id_str_lght_code 5 in
    if leb n (length a.id_str) then ok (take n a.id_str) else panic

module _ {S : Type 0} (net : Network S) where
  -- An SDR is sent to the MM card, in three tries.
  unfoldable pub send_sdr : Sdr → Controller S → Outcome (Controller S)
  send_sdr s c =
      let request = add_sdr_build_msg s.bytes c.client_ctx in
      try_req_rsp net max_retries request.0 add_sdr_parse_rsp request.1 c.mm and_then λ ctx mm.
      ok (record c { client_ctx = ctx; mm = mm })

  -- `mainSdrAdd` from the new record on: it is linked behind the tail as in `addSdrEntry`.
  unfoldable pub link_main_sdr : ℕ → Sdr → Controller S → Outcome (Controller S)
  link_main_sdr now s c =
      let sdrs = c.world.main_sdrs in
      add_sdr_entry now s (record (c.world) {
        main_sdrs = record sdrs { next_free_entry_id = (sdrs.next_free_entry_id + 1) % 2 ^ 16 };
      })
      >>= λ w.
          let c' = record c { world = w } in
          if ltb 0 w.chassis_card_num then send_sdr s c' else ok c'

  -- `mainSdrAdd`; `now` is `uint32(time.Now().Unix())`.
  unfoldable pub main_sdr_add : ℕ → SdrArgs → Controller S → Outcome (Controller S)
  main_sdr_add now a c =
      let sdrs = c.world.main_sdrs in
      if leb sdrs.max_sdr_count sdrs.next_free_entry_id
      then ok c
      else id_string a >>= λ id_str. link_main_sdr now (main_sdr sdrs.next_free_entry_id a id_str) c
