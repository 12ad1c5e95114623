-- ===== src/Protodefs/App.antt =====
-- ipmi_protodefs.go: the application commands (netfn 0x06).
use Prim.Native.Nat.{ℕ}

abbrev pub get_device_id_cmd : ℕ
get_device_id_cmd = 0x01

abbrev pub cold_reset_cmd : ℕ
cold_reset_cmd = 0x02

abbrev pub warm_reset_cmd : ℕ
warm_reset_cmd = 0x03

abbrev pub get_self_test_results_cmd : ℕ
get_self_test_results_cmd = 0x04

abbrev pub manufacturing_test_on_cmd : ℕ
manufacturing_test_on_cmd = 0x05

abbrev pub set_acpi_power_state_cmd : ℕ
set_acpi_power_state_cmd = 0x06

abbrev pub get_acpi_power_state_cmd : ℕ
get_acpi_power_state_cmd = 0x07

abbrev pub get_device_guid_cmd : ℕ
get_device_guid_cmd = 0x08

abbrev pub reset_watchdog_timer_cmd : ℕ
reset_watchdog_timer_cmd = 0x22

abbrev pub set_watchdog_timer_cmd : ℕ
set_watchdog_timer_cmd = 0x24

abbrev pub get_watchdog_timer_cmd : ℕ
get_watchdog_timer_cmd = 0x25

abbrev pub set_bmc_global_enables_cmd : ℕ
set_bmc_global_enables_cmd = 0x2e

abbrev pub get_bmc_global_enables_cmd : ℕ
get_bmc_global_enables_cmd = 0x2f

abbrev pub clear_msg_flags_cmd : ℕ
clear_msg_flags_cmd = 0x30

abbrev pub get_msg_flags_cmd : ℕ
get_msg_flags_cmd = 0x31

abbrev pub enable_message_channel_rcv_cmd : ℕ
enable_message_channel_rcv_cmd = 0x32

abbrev pub get_msg_cmd : ℕ
get_msg_cmd = 0x33

abbrev pub send_msg_cmd : ℕ
send_msg_cmd = 0x34

abbrev pub read_event_msg_buffer_cmd : ℕ
read_event_msg_buffer_cmd = 0x35

abbrev pub get_bt_interface_capabilities_cmd : ℕ
get_bt_interface_capabilities_cmd = 0x36

abbrev pub get_system_guid_cmd : ℕ
get_system_guid_cmd = 0x37

abbrev pub get_channel_auth_capabilities_cmd : ℕ
get_channel_auth_capabilities_cmd = 0x38

abbrev pub get_session_challenge_cmd : ℕ
get_session_challenge_cmd = 0x39

abbrev pub activate_session_cmd : ℕ
activate_session_cmd = 0x3a

abbrev pub set_session_privilege_cmd : ℕ
set_session_privilege_cmd = 0x3b

abbrev pub close_session_cmd : ℕ
close_session_cmd = 0x3c

abbrev pub get_session_info_cmd : ℕ
get_session_info_cmd = 0x3d

abbrev pub get_authcode_cmd : ℕ
get_authcode_cmd = 0x3f

abbrev pub set_channel_access_cmd : ℕ
set_channel_access_cmd = 0x40

abbrev pub get_channel_access_cmd : ℕ
get_channel_access_cmd = 0x41

abbrev pub get_channel_info_cmd : ℕ
get_channel_info_cmd = 0x42

abbrev pub set_user_access_cmd : ℕ
set_user_access_cmd = 0x43

abbrev pub get_user_access_cmd : ℕ
get_user_access_cmd = 0x44

abbrev pub set_user_name_cmd : ℕ
set_user_name_cmd = 0x45

abbrev pub get_user_name_cmd : ℕ
get_user_name_cmd = 0x46

abbrev pub set_user_password_cmd : ℕ
set_user_password_cmd = 0x47

abbrev pub activate_payload_cmd : ℕ
activate_payload_cmd = 0x48

abbrev pub deactivate_payload_cmd : ℕ
deactivate_payload_cmd = 0x49

abbrev pub get_payload_activation_status_cmd : ℕ
get_payload_activation_status_cmd = 0x4a

abbrev pub get_payload_instance_info_cmd : ℕ
get_payload_instance_info_cmd = 0x4b

abbrev pub set_user_payload_access_cmd : ℕ
set_user_payload_access_cmd = 0x4c

abbrev pub get_user_payload_access_cmd : ℕ
get_user_payload_access_cmd = 0x4d

abbrev pub get_channel_payload_support_cmd : ℕ
get_channel_payload_support_cmd = 0x4e

abbrev pub get_channel_payload_version_cmd : ℕ
get_channel_payload_version_cmd = 0x4f

abbrev pub get_channel_oem_payload_info_cmd : ℕ
get_channel_oem_payload_info_cmd = 0x50

abbrev pub master_read_write_cmd : ℕ
master_read_write_cmd = 0x52

abbrev pub get_channel_cipher_suites_cmd : ℕ
get_channel_cipher_suites_cmd = 0x54

abbrev pub suspend_resume_payload_encryption_cmd : ℕ
suspend_resume_payload_encryption_cmd = 0x55

abbrev pub set_channel_security_key_cmd : ℕ
set_channel_security_key_cmd = 0x56

abbrev pub get_system_interface_capabilities_cmd : ℕ
get_system_interface_capabilities_cmd = 0x57
