-- ===== src/Storage/Sensor.antt =====
-- `getSensorReading` of ipmi_internal_sensor.go.
use ipmigod.Base.{ℕ, Bool, ◌&&◌, if◌then◌else◌, bit_or, none, some, ◌∷◌, ◌>>=◌}
use ipmigod.Wire.{put_uint16, shl}
use ipmigod.Bmc.{Sdr}
use ipmigod.Message.{byte}
use ipmigod.World.{Handler, nil, return_err, return_rsp_data}
use ipmigod.Storage.Sdr.{search_sdrs, is_sensor}

-- A Boolean as a bit.
abbrev pub bit : Bool → ℕ
bit b = if b then 1 else 0

-- `(sensEn << 7) | (scanEn << 6)`.
unfoldable pub reading_flags : Sdr → ℕ
reading_flags s =
    bit_or (shl 8 (bit s.events_enabled) 7) (shl 8 (bit (s.scanning_enabled && s.enabled)) 6)

-- `getSensorReading`.
unfoldable pub get_sensor_reading : Handler
get_sensor_reading env msg w =
    search_sdrs (is_sensor msg.rmcp.message.rs_lun (byte msg msg.data_start)) w.main_sdrs
    >>= λ found. elim found [
      | none ↦ return_err msg nil 0x81 w
      | some (i, s) ↦
          return_rsp_data msg nil (0 ∷ s.value ∷ reading_flags s ∷ put_uint16 s.event_status) w
    ]
