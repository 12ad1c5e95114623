-- ===== src/Storage.antt =====
-- ipmi_internal_storage.go, and `getSensorReading` of ipmi_internal_sensor.go: the commands on the
-- event log and on the SDR repository.
pub mod Slices
pub mod Sel
pub mod Sdr
pub mod Sensor
pub mod Validity
pub mod Untouched
pub mod Sessions
pub mod Faults
