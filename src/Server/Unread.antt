-- ===== src/Server/Unread.antt =====
-- The tables of the bridge and transport commands of ipmi_proto.go. The code never reads them: the processors of
-- these network functions only print. The commands, of ipmi_internal_bridge.go and ipmi_internal_transport.go,
-- have empty bodies.
use ipmigod.Base.{ℕ, List, [], ◌∷◌, ok}
use ipmigod.Protodefs.Bridge.{
  get_bridge_state_cmd, set_bridge_state_cmd, get_icmb_address_cmd, set_icmb_address_cmd,
  set_bridge_proxy_address_cmd, get_bridge_statistics_cmd, get_icmb_capabilities_cmd,
  clear_bridge_statistics_cmd, get_bridge_proxy_address_cmd, get_icmb_connector_info_cmd,
  set_icmb_connector_info_cmd, send_icmb_connection_id_cmd, prepare_for_discovery_cmd,
  get_addresses_cmd, set_discovered_cmd, get_chassis_device_id_cmd, set_chassis_device_id_cmd,
  bridge_request_cmd, bridge_message_cmd, get_event_count_cmd, set_event_destination_cmd,
  set_event_reception_state_cmd, send_icmb_event_message_cmd, get_event_destiation_cmd,
  get_event_reception_state_cmd, error_report_cmd,
}
use ipmigod.Protodefs.Transport.{
  set_lan_config_parms_cmd, get_lan_config_parms_cmd, suspend_bmc_arps_cmd,
  get_ip_udp_rmcp_stats_cmd, set_serial_modem_config_cmd, get_serial_modem_config_cmd,
  set_serial_modem_mux_cmd, get_tap_response_codes_cmd, set_ppp_udp_proxy_xmit_data_cmd,
  get_ppp_udp_proxy_xmit_data_cmd, send_ppp_udp_proxy_packet_cmd, get_ppp_udp_proxy_recv_data_cmd,
  serial_modem_conn_active_cmd, callback_cmd, set_user_callback_options_cmd,
  get_user_callback_options_cmd, sol_activating_cmd, set_sol_configuration_parameters,
  get_sol_configuration_parameters,
}
use ipmigod.World.{Handler}

-- `getBridgeState` to `errorReport`.
abbrev pub bridge_empty : Handler
bridge_empty env msg w = ok w

-- `setLanConfigParms` to `getSolConfigurationParameters`.
abbrev pub transport_empty : Handler
transport_empty env msg w = ok w

abbrev pub bridge_processors : List (ℕ × Handler)
bridge_processors =
    (get_bridge_state_cmd, bridge_empty)
    ∷ (set_bridge_state_cmd, bridge_empty)
    ∷ (get_icmb_address_cmd, bridge_empty)
    ∷ (set_icmb_address_cmd, bridge_empty)
    ∷ (set_bridge_proxy_address_cmd, bridge_empty)
    ∷ (get_bridge_statistics_cmd, bridge_empty)
    ∷ (get_icmb_capabilities_cmd, bridge_empty)
    ∷ (clear_bridge_statistics_cmd, bridge_empty)
    ∷ (get_bridge_proxy_address_cmd, bridge_empty)
    ∷ (get_icmb_connector_info_cmd, bridge_empty)
    ∷ (set_icmb_connector_info_cmd, bridge_empty)
    ∷ (send_icmb_connection_id_cmd, bridge_empty)
    ∷ (prepare_for_discovery_cmd, bridge_empty)
    ∷ (get_addresses_cmd, bridge_empty)
    ∷ (set_discovered_cmd, bridge_empty)
    ∷ (get_chassis_device_id_cmd, bridge_empty)
    ∷ (set_chassis_device_id_cmd, bridge_empty)
    ∷ (bridge_request_cmd, bridge_empty)
    ∷ (bridge_message_cmd, bridge_empty)
    ∷ (get_event_count_cmd, bridge_empty)
    ∷ (set_event_destination_cmd, bridge_empty)
    ∷ (set_event_reception_state_cmd, bridge_empty)
    ∷ (send_icmb_event_message_cmd, bridge_empty)
    ∷ (get_event_destiation_cmd, bridge_empty)
    ∷ (get_event_reception_state_cmd, bridge_empty)
    ∷ (error_report_cmd, bridge_empty)
    ∷ []

abbrev pub transport_processors : List (ℕ × Handler)
transport_processors =
    (set_lan_config_parms_cmd, transport_empty)
    ∷ (get_lan_config_parms_cmd, transport_empty)
    ∷ (suspend_bmc_arps_cmd, transport_empty)
    ∷ (get_ip_udp_rmcp_stats_cmd, transport_empty)
    ∷ (set_serial_modem_config_cmd, transport_empty)
    ∷ (get_serial_modem_config_cmd, transport_empty)
    ∷ (set_serial_modem_mux_cmd, transport_empty)
    ∷ (get_tap_response_codes_cmd, transport_empty)
    ∷ (set_ppp_udp_proxy_xmit_data_cmd, transport_empty)
    ∷ (get_ppp_udp_proxy_xmit_data_cmd, transport_empty)
    ∷ (send_ppp_udp_proxy_packet_cmd, transport_empty)
    ∷ (get_ppp_udp_proxy_recv_data_cmd, transport_empty)
    ∷ (serial_modem_conn_active_cmd, transport_empty)
    ∷ (callback_cmd, transport_empty)
    ∷ (set_user_callback_options_cmd, transport_empty)
    ∷ (get_user_callback_options_cmd, transport_empty)
    ∷ (sol_activating_cmd, transport_empty)
    ∷ (set_sol_configuration_parameters, transport_empty)
    ∷ (get_sol_configuration_parameters, transport_empty)
    ∷ []
