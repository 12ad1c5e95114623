-- ===== src/Server/Faults/Tables.antt =====
-- The command tables of ipmi_proto.go, and exactly the requests that their handlers panic on.

use ipmigod.Protodefs.{chassis_netfn, sensor_event_netfn, app_netfn, storage_netfn}
use ipmigod.App.Challenge.{get_channel_auth_capabilities, get_session_challenge}
use ipmigod.App.Activate.{activate_session}
use ipmigod.App.Control.{set_session_privilege}
use ipmigod.Storage.Sel.{get_sel_info, reserve_sel, add_sel_entry, clear_sel}
use ipmigod.Storage.Sdr.{get_sdr_repository_info, reserve_sdr_repository}
use ipmigod.Storage.Sensor.{get_sensor_reading}
use ipmigod.App.Untouched.{
  get_channel_auth_capabilities-ServerIsValid, get_session_challenge-ServerIsValid,
  activate_session-ServerIsValid, set_session_privilege-ServerIsValid,
  get_channel_auth_capabilities-SameStorage, get_session_challenge-SameStorage,
  activate_session-SameStorage, set_session_privilege-SameStorage,
}
use ipmigod.Storage.Sel.Keeps.{
  get_sel_info-keeps, reserve_sel-keeps, add_sel_entry-keeps, clear_sel-keeps,
}
use ipmigod.Storage.Sdr.Keeps.{
  get_sdr_repository_info-keeps, reserve_sdr_repository-keeps, get_sensor_reading-keeps,
}
use ipmigod.Storage.Sdr.Stock.{Registered}
use ipmigod.Storage.Untouched.{
  get_sel_info-KeepsList, reserve_sel-KeepsList, add_sel_entry-KeepsList, clear_sel-KeepsList,
  get_sdr_repository_info-KeepsList, reserve_sdr_repository-KeepsList, get_sensor_reading-KeepsList,
}
use ipmigod.Server.Tables.{
  chassis_processors, sensor_processors, app_processors, storage_processors,
}
use ipmigod.Server.Entries.{Entries, end, ◌▸◌}
use ipmigod.Server.Faults.Handlers.{
  no_faults, app_faults, storage_faults, FaultsBy, idle, never, app_never, faults_close_session,
  faults_get_sel_entry, faults_get_sdr, faults_add_sdr, faults_clear_sdr_repository,
}

module _ (registered : Registered) where
  pub chassis_Entries : Entries (FaultsBy registered chassis_netfn no_faults) chassis_processors
  chassis_Entries =
      idle registered
      ▸ idle registered
      ▸ idle registered
      ▸ idle registered
      ▸ idle registered
      ▸ idle registered
      ▸ idle registered
      ▸ idle registered
      ▸ idle registered
      ▸ end

  pub sensor_Entries : Entries (FaultsBy registered sensor_event_netfn no_faults) sensor_processors
  sensor_Entries =
      idle registered
      ▸ idle registered
      ▸ idle registered
      ▸ idle registered
      ▸ idle registered
      ▸ idle registered
      ▸ idle registered
      ▸ idle registered
      ▸ idle registered
      ▸ idle registered
      ▸ idle registered
      ▸ idle registered
      ▸ idle registered
      ▸ idle registered
      ▸ idle registered
      ▸ idle registered
      ▸ idle registered
      ▸ idle registered
      ▸ idle registered
      ▸ idle registered
      ▸ idle registered
      ▸ idle registered
      ▸ idle registered
      ▸ never registered get_sensor_reading get_sensor_reading-keeps get_sensor_reading-KeepsList
      ▸ idle registered
      ▸ idle registered
      ▸ end

  pub app_Entries : Entries (FaultsBy registered app_netfn app_faults) app_processors
  app_Entries =
      idle registered
      ▸ idle registered
      ▸ idle registered
      ▸ idle registered
      ▸ idle registered
      ▸ idle registered
      ▸ idle registered
      ▸ idle registered
      ▸ idle registered
      ▸ idle registered
      ▸ idle registered
      ▸ idle registered
      ▸ idle registered
      ▸ idle registered
      ▸ idle registered
      ▸ idle registered
      ▸ idle registered
      ▸ idle registered
      ▸ idle registered
      ▸ idle registered
      ▸ idle registered
      ▸ app_never registered get_channel_auth_capabilities
          get_channel_auth_capabilities-ServerIsValid get_channel_auth_capabilities-SameStorage
      ▸ app_never registered get_session_challenge get_session_challenge-ServerIsValid
          get_session_challenge-SameStorage
      ▸ app_never registered activate_session activate_session-ServerIsValid
          activate_session-SameStorage
      ▸ app_never registered set_session_privilege set_session_privilege-ServerIsValid
          set_session_privilege-SameStorage
      ▸ faults_close_session registered
      ▸ idle registered
      ▸ idle registered
      ▸ idle registered
      ▸ idle registered
      ▸ idle registered
      ▸ idle registered
      ▸ idle registered
      ▸ idle registered
      ▸ idle registered
      ▸ idle registered
      ▸ idle registered
      ▸ idle registered
      ▸ idle registered
      ▸ idle registered
      ▸ idle registered
      ▸ idle registered
      ▸ idle registered
      ▸ idle registered
      ▸ idle registered
      ▸ idle registered
      ▸ idle registered
      ▸ idle registered
      ▸ idle registered
      ▸ idle registered
      ▸ end

  pub storage_Entries :
      Entries (FaultsBy registered storage_netfn storage_faults) storage_processors
  storage_Entries =
      idle registered
      ▸ idle registered
      ▸ idle registered
      ▸ never registered get_sdr_repository_info get_sdr_repository_info-keeps
          get_sdr_repository_info-KeepsList
      ▸ idle registered
      ▸ never registered reserve_sdr_repository reserve_sdr_repository-keeps
          reserve_sdr_repository-KeepsList
      ▸ faults_get_sdr registered
      ▸ faults_add_sdr registered
      ▸ idle registered
      ▸ idle registered
      ▸ faults_clear_sdr_repository registered
      ▸ idle registered
      ▸ idle registered
      ▸ idle registered
      ▸ idle registered
      ▸ idle registered
      ▸ never registered get_sel_info get_sel_info-keeps get_sel_info-KeepsList
      ▸ idle registered
      ▸ never registered reserve_sel reserve_sel-keeps reserve_sel-KeepsList
      ▸ faults_get_sel_entry registered
      ▸ never registered add_sel_entry add_sel_entry-keeps add_sel_entry-KeepsList
      ▸ idle registered
      ▸ idle registered
      ▸ never registered clear_sel clear_sel-keeps clear_sel-KeepsList
      ▸ idle registered
      ▸ idle registered
      ▸ idle registered
      ▸ idle registered
      ▸ end
