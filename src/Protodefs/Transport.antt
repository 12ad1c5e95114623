-- ===== src/Protodefs/Transport.antt =====
-- ipmi_protodefs.go: the transport commands (netfn 0x0c).
use Prim.Native.Nat.{ℕ}

abbrev pub set_lan_config_parms_cmd : ℕ
set_lan_config_parms_cmd = 0x01

abbrev pub get_lan_config_parms_cmd : ℕ
get_lan_config_parms_cmd = 0x02

abbrev pub suspend_bmc_arps_cmd : ℕ
suspend_bmc_arps_cmd = 0x03

abbrev pub get_ip_udp_rmcp_stats_cmd : ℕ
get_ip_udp_rmcp_stats_cmd = 0x04

abbrev pub set_serial_modem_config_cmd : ℕ
set_serial_modem_config_cmd = 0x10

abbrev pub get_serial_modem_config_cmd : ℕ
get_serial_modem_config_cmd = 0x11

abbrev pub set_serial_modem_mux_cmd : ℕ
set_serial_modem_mux_cmd = 0x12

abbrev pub get_tap_response_codes_cmd : ℕ
get_tap_response_codes_cmd = 0x13

abbrev pub set_ppp_udp_proxy_xmit_data_cmd : ℕ
set_ppp_udp_proxy_xmit_data_cmd = 0x14

abbrev pub get_ppp_udp_proxy_xmit_data_cmd : ℕ
get_ppp_udp_proxy_xmit_data_cmd = 0x15

abbrev pub send_ppp_udp_proxy_packet_cmd : ℕ
send_ppp_udp_proxy_packet_cmd = 0x16

abbrev pub get_ppp_udp_proxy_recv_data_cmd : ℕ
get_ppp_udp_proxy_recv_data_cmd = 0x17

abbrev pub serial_modem_conn_active_cmd : ℕ
serial_modem_conn_active_cmd = 0x18

abbrev pub callback_cmd : ℕ
callback_cmd = 0x19

abbrev pub set_user_callback_options_cmd : ℕ
set_user_callback_options_cmd = 0x1a

abbrev pub get_user_callback_options_cmd : ℕ
get_user_callback_options_cmd = 0x1b

abbrev pub sol_activating_cmd : ℕ
sol_activating_cmd = 0x20

abbrev pub set_sol_configuration_parameters : ℕ
set_sol_configuration_parameters = 0x21

abbrev pub get_sol_configuration_parameters : ℕ
get_sol_configuration_parameters = 0x22
