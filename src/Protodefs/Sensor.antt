-- ===== src/Protodefs/Sensor.antt =====
-- ipmi_protodefs.go: the sensor and event commands (netfn 0x04).
use Prim.Native.Nat.{ℕ}

abbrev pub set_event_receiver_cmd : ℕ
set_event_receiver_cmd = 0x00

abbrev pub get_event_receiver_cmd : ℕ
get_event_receiver_cmd = 0x01

abbrev pub platform_event_cmd : ℕ
platform_event_cmd = 0x02

abbrev pub get_pef_capabilities_cmd : ℕ
get_pef_capabilities_cmd = 0x10

abbrev pub arm_pef_postpone_timer_cmd : ℕ
arm_pef_postpone_timer_cmd = 0x11

abbrev pub set_pef_config_parms_cmd : ℕ
set_pef_config_parms_cmd = 0x12

abbrev pub get_pef_config_parms_cmd : ℕ
get_pef_config_parms_cmd = 0x13

abbrev pub set_last_processed_event_id_cmd : ℕ
set_last_processed_event_id_cmd = 0x14

abbrev pub get_last_processed_event_id_cmd : ℕ
get_last_processed_event_id_cmd = 0x15

abbrev pub alert_immediate_cmd : ℕ
alert_immediate_cmd = 0x16

abbrev pub pet_acknowledge_cmd : ℕ
pet_acknowledge_cmd = 0x17

abbrev pub get_device_sdr_info_cmd : ℕ
get_device_sdr_info_cmd = 0x20

abbrev pub get_device_sdr_cmd : ℕ
get_device_sdr_cmd = 0x21

abbrev pub reserve_device_sdr_repository_cmd : ℕ
reserve_device_sdr_repository_cmd = 0x22

abbrev pub get_sensor_reading_factors_cmd : ℕ
get_sensor_reading_factors_cmd = 0x23

abbrev pub set_sensor_hysteresis_cmd : ℕ
set_sensor_hysteresis_cmd = 0x24

abbrev pub get_sensor_hysteresis_cmd : ℕ
get_sensor_hysteresis_cmd = 0x25

abbrev pub set_sensor_threshold_cmd : ℕ
set_sensor_threshold_cmd = 0x26

abbrev pub get_sensor_threshold_cmd : ℕ
get_sensor_threshold_cmd = 0x27

abbrev pub set_sensor_event_enable_cmd : ℕ
set_sensor_event_enable_cmd = 0x28

abbrev pub get_sensor_event_enable_cmd : ℕ
get_sensor_event_enable_cmd = 0x29

abbrev pub rearm_sensor_events_cmd : ℕ
rearm_sensor_events_cmd = 0x2a

abbrev pub get_sensor_event_status_cmd : ℕ
get_sensor_event_status_cmd = 0x2b

abbrev pub get_sensor_reading_cmd : ℕ
get_sensor_reading_cmd = 0x2d

abbrev pub set_sensor_type_cmd : ℕ
set_sensor_type_cmd = 0x2e

abbrev pub get_sensor_type_cmd : ℕ
get_sensor_type_cmd = 0x2f
