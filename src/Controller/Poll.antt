-- ===== src/Controller/Poll.antt =====
-- `pollSensors` of ipmi_internal_sensor.go, which the controller's ticker calls.
pub mod Polled
pub mod Sync
pub mod Empty
use ipmigod.Base.{
  ℕ, zero, suc, ◌+◌, ◌%◌, ◌^◌, ltb, ◌==◌, if◌then◌else◌, Bool, true, false, ◌||◌, Option, none,
  some, modify, Outcome, ok, panic, ◌>>=◌,
}
use ipmigod.Wire.{Bytes, low_bits}
use ipmigod.Bmc.{Sdr}
use ipmigod.World.{World}
use ipmigod.Storage.Sdr.{search_sdrs, is_sensor, set_value}
use ipmigod.Client.{ClientContext, add_sdr_build_msg, add_sdr_parse_rsp}
use ipmigod.Client.Handshake.{Network, max_retries, try_req_rsp}
use ipmigod.Controller.{Controller, Sensor, set_sensor}

-- The `switch` on the sensor's number, where `drawn` is `rand.Int()`: another sensor keeps the value of the
-- sensor before it.
unfoldable pub simulated_value : ℕ → ℕ → ℕ → ℕ
simulated_value num drawn value =
    if num == 1 || (num == 17 || num == 33)
    then low_bits drawn 4 + 20
    else if num == 2 || (num == 18 || num == 34)
    then low_bits drawn 4
    else if num == 3 || (num == 19 || num == 35)
    then low_bits drawn 3
    else if num == 4 || (num == 20 || num == 36)
    then low_bits drawn 6
    else value

-- `msgData[66] = value`: the message has 85 bytes, and the byte is the oem field of the record in it.
abbrev pub with_value : ℕ → Bytes → Bytes
with_value value msg = modify msg 66 (λ _. value)

module _ {S : Type 0} (net : Network S) (draw : ℕ → ℕ → ℕ) where
  -- A line card sends the value to the MM card, in three tries; when they fail it only prints.
  unfoldable pub send_value : Sdr → ℕ → Controller S → Controller S
  send_value s value c =
      let request = add_sdr_build_msg s.bytes c.client_ctx in
      let r =
        try_req_rsp net max_retries (with_value value request.0) add_sdr_parse_rsp request.1 c.mm in
      if ltb 0 c.world.chassis_card_num then record c { client_ctx = r.0.1; mm = r.1 } else c

  -- The body of the loop for a sensor. The record that it finds is not tested for nil.
  unfoldable pub poll_sensor : ℕ → ℕ → Sensor → ℕ → Controller S → Outcome (ℕ × Controller S)
  poll_sensor lun num sensor last c =
      let value = simulated_value num (draw lun num) last in
      search_sdrs (is_sensor lun num) c.world.main_sdrs >>= λ entry. elim entry [
        | none ↦ panic
        | some (i, s) ↦ ok (
          value,
          send_value s value (record c {
            world = set_value c.world i value;
            sensors = set_sensor c.sensors lun num (record sensor { value = value });
          }),
        )
      ]

  unfoldable pub poll_slot : ℕ → ℕ → ℕ → Controller S → Outcome (ℕ × Controller S)
  poll_slot lun num last c = elim (c.sensors lun num) [
    | none ↦ ok (last, c)
    | some sensor ↦ poll_sensor lun num sensor last c
  ]

  -- The inner loop, over `n` numbers from `num` on.
  unfoldable pub poll_nums : ℕ → ℕ → ℕ → ℕ → Controller S → Outcome (ℕ × Controller S)
  poll_nums zero lun num last c = ok (last, c)
  poll_nums (suc n) lun num last c =
      poll_slot lun num last c >>= λ r. poll_nums n lun (suc num) r.0 r.1

  -- The outer loop, over `n` rows from `lun` on.
  unfoldable pub poll_luns : ℕ → ℕ → ℕ → Controller S → Outcome (ℕ × Controller S)
  poll_luns zero lun last c = ok (last, c)
  poll_luns (suc n) lun last c = poll_nums 254 lun 1 last c >>= λ r. poll_luns n (suc lun) r.0 r.1

  -- `pollSensors`, where `draw` gives the `rand.Int()` that is read for a sensor.
  unfoldable pub poll_sensors : Controller S → Outcome (Controller S)
  poll_sensors c = poll_luns 4 0 0 c >>= λ r. ok r.1
