-- ===== src/Protodefs.antt =====
-- ipmi_protodefs.go: network functions, completion codes, authentication types and privilege
-- levels. The prefix IPMI_ of the source is left out. Each child has the commands of one network
-- function. Codes and commands that no modelled code names are left out.
pub mod Chassis
pub mod Bridge
pub mod Transport
pub mod Sensor
pub mod App
pub mod Storage
use Prim.Native.Nat.{ℕ}

abbrev pub chassis_netfn : ℕ
chassis_netfn = 0x00

abbrev pub bridge_netfn : ℕ
bridge_netfn = 0x02

abbrev pub sensor_event_netfn : ℕ
sensor_event_netfn = 0x04

abbrev pub app_netfn : ℕ
app_netfn = 0x06

abbrev pub firmware_netfn : ℕ
firmware_netfn = 0x08

abbrev pub storage_netfn : ℕ
storage_netfn = 0x0a

abbrev pub transport_netfn : ℕ
transport_netfn = 0x0c

abbrev pub group_extension_netfn : ℕ
group_extension_netfn = 0x2c

abbrev pub oem_group_netfn : ℕ
oem_group_netfn = 0x2e

abbrev pub out_of_space_cc : ℕ
out_of_space_cc = 0xC4

abbrev pub invalid_reservation_cc : ℕ
invalid_reservation_cc = 0xC5

abbrev pub request_data_length_invalid_cc : ℕ
request_data_length_invalid_cc = 0xC7

abbrev pub parameter_out_of_range_cc : ℕ
parameter_out_of_range_cc = 0xC9

abbrev pub cannot_return_req_length_cc : ℕ
cannot_return_req_length_cc = 0xCA

abbrev pub not_present_cc : ℕ
not_present_cc = 0xCB

abbrev pub invalid_data_field_cc : ℕ
invalid_data_field_cc = 0xCC

abbrev pub insufficient_privilege_cc : ℕ
insufficient_privilege_cc = 0xD4

abbrev pub unknown_err_cc : ℕ
unknown_err_cc = 0xff

abbrev pub authtype_none : ℕ
authtype_none = 0

abbrev pub authtype_md2 : ℕ
authtype_md2 = 1

abbrev pub authtype_md5 : ℕ
authtype_md5 = 2

abbrev pub authtype_straight : ℕ
authtype_straight = 4

abbrev pub authtype_oem : ℕ
authtype_oem = 5

abbrev pub authtype_rmcp_plus : ℕ
authtype_rmcp_plus = 6

abbrev pub privilege_callback : ℕ
privilege_callback = 1

abbrev pub privilege_user : ℕ
privilege_user = 2

abbrev pub privilege_operator : ℕ
privilege_operator = 3

abbrev pub privilege_admin : ℕ
privilege_admin = 4

abbrev pub privilege_oem : ℕ
privilege_oem = 5
