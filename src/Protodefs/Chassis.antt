-- ===== src/Protodefs/Chassis.antt =====
-- ipmi_protodefs.go: the chassis commands (netfn 0x00).
use Prim.Native.Nat.{ℕ}

abbrev pub get_chassis_capabilities_cmd : ℕ
get_chassis_capabilities_cmd = 0x00

abbrev pub chassis_control_cmd : ℕ
chassis_control_cmd = 0x02

abbrev pub chassis_reset_cmd : ℕ
chassis_reset_cmd = 0x03

abbrev pub chassis_identify_cmd : ℕ
chassis_identify_cmd = 0x04

abbrev pub set_chassis_capabilities_cmd : ℕ
set_chassis_capabilities_cmd = 0x05

abbrev pub set_power_restore_policy_cmd : ℕ
set_power_restore_policy_cmd = 0x06

abbrev pub get_system_restart_cause_cmd : ℕ
get_system_restart_cause_cmd = 0x07

abbrev pub set_system_boot_options_cmd : ℕ
set_system_boot_options_cmd = 0x08

abbrev pub get_system_boot_options_cmd : ℕ
get_system_boot_options_cmd = 0x09
