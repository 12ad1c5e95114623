-- ===== src/Server/Tables.antt =====
-- The command tables of ipmi_proto.go, and the commands that do nothing: those with an empty body, and
-- those that only print that they are not supported.
use ipmigod.Base.{ℕ, List, [], ◌∷◌, ok}
use ipmigod.Protodefs.Chassis.{
  chassis_control_cmd, chassis_identify_cmd, chassis_reset_cmd, get_chassis_capabilities_cmd,
  get_system_boot_options_cmd, get_system_restart_cause_cmd, set_chassis_capabilities_cmd,
  set_power_restore_policy_cmd, set_system_boot_options_cmd,
}
use ipmigod.Protodefs.Sensor.{
  alert_immediate_cmd, arm_pef_postpone_timer_cmd, get_device_sdr_cmd, get_device_sdr_info_cmd,
  get_event_receiver_cmd, get_last_processed_event_id_cmd, get_pef_capabilities_cmd,
  get_pef_config_parms_cmd, get_sensor_event_enable_cmd, get_sensor_event_status_cmd,
  get_sensor_hysteresis_cmd, get_sensor_reading_cmd, get_sensor_reading_factors_cmd,
  get_sensor_threshold_cmd, get_sensor_type_cmd, pet_acknowledge_cmd, platform_event_cmd,
  rearm_sensor_events_cmd, reserve_device_sdr_repository_cmd, set_event_receiver_cmd,
  set_last_processed_event_id_cmd, set_pef_config_parms_cmd, set_sensor_event_enable_cmd,
  set_sensor_hysteresis_cmd, set_sensor_threshold_cmd, set_sensor_type_cmd,
}
use ipmigod.Protodefs.App.{
  activate_payload_cmd, activate_session_cmd, clear_msg_flags_cmd, close_session_cmd,
  cold_reset_cmd, deactivate_payload_cmd, enable_message_channel_rcv_cmd, get_acpi_power_state_cmd,
  get_authcode_cmd, get_bmc_global_enables_cmd, get_bt_interface_capabilities_cmd,
  get_channel_access_cmd, get_channel_auth_capabilities_cmd, get_channel_cipher_suites_cmd,
  get_channel_info_cmd, get_channel_oem_payload_info_cmd, get_channel_payload_support_cmd,
  get_channel_payload_version_cmd, get_device_guid_cmd, get_device_id_cmd, get_msg_cmd,
  get_msg_flags_cmd, get_payload_activation_status_cmd, get_payload_instance_info_cmd,
  get_self_test_results_cmd, get_session_challenge_cmd, get_session_info_cmd, get_system_guid_cmd,
  get_system_interface_capabilities_cmd, get_user_access_cmd, get_user_name_cmd,
  get_user_payload_access_cmd, get_watchdog_timer_cmd, manufacturing_test_on_cmd,
  master_read_write_cmd, read_event_msg_buffer_cmd, reset_watchdog_timer_cmd, send_msg_cmd,
  set_acpi_power_state_cmd, set_bmc_global_enables_cmd, set_channel_access_cmd,
  set_channel_security_key_cmd, set_session_privilege_cmd, set_user_access_cmd, set_user_name_cmd,
  set_user_password_cmd, set_user_payload_access_cmd, set_watchdog_timer_cmd,
  suspend_resume_payload_encryption_cmd, warm_reset_cmd,
}
use ipmigod.Protodefs.Storage.{
  add_sdr_cmd, add_sel_entry_cmd, clear_sdr_repository_cmd, clear_sel_cmd, delete_sdr_cmd,
  delete_sel_entry_cmd, enter_sdr_repository_update_cmd, exit_sdr_repository_update_cmd,
  get_auxiliary_log_status_cmd, get_fru_inventory_area_info_cmd, get_sdr_cmd,
  get_sdr_repository_alloc_info_cmd, get_sdr_repository_info_cmd, get_sdr_repository_time_cmd,
  get_sel_allocation_info_cmd, get_sel_entry_cmd, get_sel_info_cmd, get_sel_time_cmd,
  partial_add_sdr_cmd, partial_add_sel_entry_cmd, read_fru_data_cmd, reserve_sdr_repository_cmd,
  reserve_sel_cmd, run_initialization_agent_cmd, set_auxiliary_log_status_cmd,
  set_sdr_repository_time_cmd, set_sel_time_cmd, write_fru_data_cmd,
}
use ipmigod.World.{Handler}
use ipmigod.App.Challenge.{get_channel_auth_capabilities, get_session_challenge}
use ipmigod.App.Activate.{activate_session}
use ipmigod.App.Control.{set_session_privilege, close_session}
use ipmigod.Storage.Sel.{get_sel_info, reserve_sel, get_sel_entry, add_sel_entry, clear_sel}
use ipmigod.Storage.Sdr.{
  get_sdr_repository_info, reserve_sdr_repository, get_sdr, add_sdr, clear_sdr_repository,
}
use ipmigod.Storage.Sensor.{get_sensor_reading}

-- The chassis commands have empty bodies.
abbrev pub chassis_empty : Handler
chassis_empty env msg w = ok w

-- `getDeviceId` to `getBtInterfaceCapabilties` have empty bodies; `getSystemGuid` and
-- `getChannelCipherSuites` return from a guard or at their end, with nothing done.
abbrev pub app_empty : Handler
app_empty env msg w = ok w

-- `getSessionInfo` to `masterReadWrite`, and the last three of the file, print.
abbrev pub app_unsupported : Handler
app_unsupported env msg w = ok w

-- `setEventReceiver` to `getSensorEventStatus`, `setSensorType` and `getSensorType` print.
abbrev pub sensor_unsupported : Handler
sensor_unsupported env msg w = ok w

-- The storage commands that are not modelled in Storage print.
abbrev pub storage_unsupported : Handler
storage_unsupported env msg w = ok w

abbrev pub chassis_processors : List (ℕ × Handler)
chassis_processors =
    (get_chassis_capabilities_cmd, chassis_empty)
    ∷ (chassis_control_cmd, chassis_empty)
    ∷ (chassis_reset_cmd, chassis_empty)
    ∷ (chassis_identify_cmd, chassis_empty)
    ∷ (set_chassis_capabilities_cmd, chassis_empty)
    ∷ (set_power_restore_policy_cmd, chassis_empty)
    ∷ (get_system_restart_cause_cmd, chassis_empty)
    ∷ (set_system_boot_options_cmd, chassis_empty)
    ∷ (get_system_boot_options_cmd, chassis_empty)
    ∷ []

abbrev pub sensor_processors : List (ℕ × Handler)
sensor_processors =
    (set_event_receiver_cmd, sensor_unsupported)
    ∷ (get_event_receiver_cmd, sensor_unsupported)
    ∷ (platform_event_cmd, sensor_unsupported)
    ∷ (get_pef_capabilities_cmd, sensor_unsupported)
    ∷ (arm_pef_postpone_timer_cmd, sensor_unsupported)
    ∷ (set_pef_config_parms_cmd, sensor_unsupported)
    ∷ (get_pef_config_parms_cmd, sensor_unsupported)
    ∷ (set_last_processed_event_id_cmd, sensor_unsupported)
    ∷ (get_last_processed_event_id_cmd, sensor_unsupported)
    ∷ (alert_immediate_cmd, sensor_unsupported)
    ∷ (pet_acknowledge_cmd, sensor_unsupported)
    ∷ (get_device_sdr_info_cmd, sensor_unsupported)
    ∷ (get_device_sdr_cmd, sensor_unsupported)
    ∷ (reserve_device_sdr_repository_cmd, sensor_unsupported)
    ∷ (get_sensor_reading_factors_cmd, sensor_unsupported)
    ∷ (set_sensor_hysteresis_cmd, sensor_unsupported)
    ∷ (get_sensor_hysteresis_cmd, sensor_unsupported)
    ∷ (set_sensor_threshold_cmd, sensor_unsupported)
    ∷ (get_sensor_threshold_cmd, sensor_unsupported)
    ∷ (set_sensor_event_enable_cmd, sensor_unsupported)
    ∷ (get_sensor_event_enable_cmd, sensor_unsupported)
    ∷ (rearm_sensor_events_cmd, sensor_unsupported)
    ∷ (get_sensor_event_status_cmd, sensor_unsupported)
    ∷ (get_sensor_reading_cmd, get_sensor_reading)
    ∷ (set_sensor_type_cmd, sensor_unsupported)
    ∷ (get_sensor_type_cmd, sensor_unsupported)
    ∷ []

abbrev pub app_processors : List (ℕ × Handler)
app_processors =
    (get_device_id_cmd, app_empty)
    ∷ (cold_reset_cmd, app_empty)
    ∷ (warm_reset_cmd, app_empty)
    ∷ (get_self_test_results_cmd, app_empty)
    ∷ (manufacturing_test_on_cmd, app_empty)
    ∷ (set_acpi_power_state_cmd, app_empty)
    ∷ (get_acpi_power_state_cmd, app_empty)
    ∷ (get_device_guid_cmd, app_empty)
    ∷ (reset_watchdog_timer_cmd, app_empty)
    ∷ (set_watchdog_timer_cmd, app_empty)
    ∷ (get_watchdog_timer_cmd, app_empty)
    ∷ (set_bmc_global_enables_cmd, app_empty)
    ∷ (get_bmc_global_enables_cmd, app_empty)
    ∷ (clear_msg_flags_cmd, app_empty)
    ∷ (get_msg_flags_cmd, app_empty)
    ∷ (enable_message_channel_rcv_cmd, app_empty)
    ∷ (get_msg_cmd, app_empty)
    ∷ (send_msg_cmd, app_empty)
    ∷ (read_event_msg_buffer_cmd, app_empty)
    ∷ (get_bt_interface_capabilities_cmd, app_empty)
    ∷ (get_system_guid_cmd, app_empty)
    ∷ (get_channel_auth_capabilities_cmd, get_channel_auth_capabilities)
    ∷ (get_session_challenge_cmd, get_session_challenge)
    ∷ (activate_session_cmd, activate_session)
    ∷ (set_session_privilege_cmd, set_session_privilege)
    ∷ (close_session_cmd, close_session)
    ∷ (get_session_info_cmd, app_unsupported)
    ∷ (get_authcode_cmd, app_unsupported)
    ∷ (set_channel_access_cmd, app_unsupported)
    ∷ (get_channel_access_cmd, app_unsupported)
    ∷ (get_channel_info_cmd, app_unsupported)
    ∷ (set_user_access_cmd, app_unsupported)
    ∷ (get_user_access_cmd, app_unsupported)
    ∷ (set_user_name_cmd, app_unsupported)
    ∷ (get_user_name_cmd, app_unsupported)
    ∷ (set_user_password_cmd, app_unsupported)
    ∷ (activate_payload_cmd, app_unsupported)
    ∷ (deactivate_payload_cmd, app_unsupported)
    ∷ (get_payload_activation_status_cmd, app_unsupported)
    ∷ (get_payload_instance_info_cmd, app_unsupported)
    ∷ (set_user_payload_access_cmd, app_unsupported)
    ∷ (get_user_payload_access_cmd, app_unsupported)
    ∷ (get_channel_payload_support_cmd, app_unsupported)
    ∷ (get_channel_payload_version_cmd, app_unsupported)
    ∷ (get_channel_oem_payload_info_cmd, app_unsupported)
    ∷ (master_read_write_cmd, app_unsupported)
    ∷ (get_channel_cipher_suites_cmd, app_empty)
    ∷ (suspend_resume_payload_encryption_cmd, app_unsupported)
    ∷ (set_channel_security_key_cmd, app_unsupported)
    ∷ (get_system_interface_capabilities_cmd, app_unsupported)
    ∷ []

abbrev pub storage_processors : List (ℕ × Handler)
storage_processors =
    (get_fru_inventory_area_info_cmd, storage_unsupported)
    ∷ (read_fru_data_cmd, storage_unsupported)
    ∷ (write_fru_data_cmd, storage_unsupported)
    ∷ (get_sdr_repository_info_cmd, get_sdr_repository_info)
    ∷ (get_sdr_repository_alloc_info_cmd, storage_unsupported)
    ∷ (reserve_sdr_repository_cmd, reserve_sdr_repository)
    ∷ (get_sdr_cmd, get_sdr)
    ∷ (add_sdr_cmd, add_sdr)
    ∷ (partial_add_sdr_cmd, storage_unsupported)
    ∷ (delete_sdr_cmd, storage_unsupported)
    ∷ (clear_sdr_repository_cmd, clear_sdr_repository)
    ∷ (get_sdr_repository_time_cmd, storage_unsupported)
    ∷ (set_sdr_repository_time_cmd, storage_unsupported)
    ∷ (enter_sdr_repository_update_cmd, storage_unsupported)
    ∷ (exit_sdr_repository_update_cmd, storage_unsupported)
    ∷ (run_initialization_agent_cmd, storage_unsupported)
    ∷ (get_sel_info_cmd, get_sel_info)
    ∷ (get_sel_allocation_info_cmd, storage_unsupported)
    ∷ (reserve_sel_cmd, reserve_sel)
    ∷ (get_sel_entry_cmd, get_sel_entry)
    ∷ (add_sel_entry_cmd, add_sel_entry)
    ∷ (partial_add_sel_entry_cmd, storage_unsupported)
    ∷ (delete_sel_entry_cmd, storage_unsupported)
    ∷ (clear_sel_cmd, clear_sel)
    ∷ (get_sel_time_cmd, storage_unsupported)
    ∷ (set_sel_time_cmd, storage_unsupported)
    ∷ (get_auxiliary_log_status_cmd, storage_unsupported)
    ∷ (set_auxiliary_log_status_cmd, storage_unsupported)
    ∷ []
