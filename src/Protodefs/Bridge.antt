-- ===== src/Protodefs/Bridge.antt =====
-- ipmi_protodefs.go: the bridge commands (netfn 0x02).
use Prim.Native.Nat.{ℕ}

abbrev pub get_bridge_state_cmd : ℕ
get_bridge_state_cmd = 0x00

abbrev pub set_bridge_state_cmd : ℕ
set_bridge_state_cmd = 0x01

abbrev pub get_icmb_address_cmd : ℕ
get_icmb_address_cmd = 0x02

abbrev pub set_icmb_address_cmd : ℕ
set_icmb_address_cmd = 0x03

abbrev pub set_bridge_proxy_address_cmd : ℕ
set_bridge_proxy_address_cmd = 0x04

abbrev pub get_bridge_statistics_cmd : ℕ
get_bridge_statistics_cmd = 0x05

abbrev pub get_icmb_capabilities_cmd : ℕ
get_icmb_capabilities_cmd = 0x06

abbrev pub clear_bridge_statistics_cmd : ℕ
clear_bridge_statistics_cmd = 0x08

abbrev pub get_bridge_proxy_address_cmd : ℕ
get_bridge_proxy_address_cmd = 0x09

abbrev pub get_icmb_connector_info_cmd : ℕ
get_icmb_connector_info_cmd = 0x0a

abbrev pub set_icmb_connector_info_cmd : ℕ
set_icmb_connector_info_cmd = 0x0b

abbrev pub send_icmb_connection_id_cmd : ℕ
send_icmb_connection_id_cmd = 0x0c

abbrev pub prepare_for_discovery_cmd : ℕ
prepare_for_discovery_cmd = 0x10

abbrev pub get_addresses_cmd : ℕ
get_addresses_cmd = 0x11

abbrev pub set_discovered_cmd : ℕ
set_discovered_cmd = 0x12

abbrev pub get_chassis_device_id_cmd : ℕ
get_chassis_device_id_cmd = 0x13

abbrev pub set_chassis_device_id_cmd : ℕ
set_chassis_device_id_cmd = 0x14

abbrev pub bridge_request_cmd : ℕ
bridge_request_cmd = 0x20

abbrev pub bridge_message_cmd : ℕ
bridge_message_cmd = 0x21

abbrev pub get_event_count_cmd : ℕ
get_event_count_cmd = 0x30

abbrev pub set_event_destination_cmd : ℕ
set_event_destination_cmd = 0x31

abbrev pub set_event_reception_state_cmd : ℕ
set_event_reception_state_cmd = 0x32

abbrev pub send_icmb_event_message_cmd : ℕ
send_icmb_event_message_cmd = 0x33

abbrev pub get_event_destiation_cmd : ℕ
get_event_destiation_cmd = 0x34

abbrev pub get_event_reception_state_cmd : ℕ
get_event_reception_state_cmd = 0x35

abbrev pub error_report_cmd : ℕ
error_report_cmd = 0xff
