-- ===== src/Server/Authorized/Tables.antt =====
-- The handlers in the command tables of ipmi_proto.go, and the sessions that they may change.
use ipmigod.Base.{ℕ, ◌≡◌, ok, Safe-Allows, Allows, allowed, Allows-map}
use ipmigod.Message.{Msg}
use ipmigod.Protodefs.{chassis_netfn, sensor_event_netfn, app_netfn, storage_netfn}
use ipmigod.World.{World, Env, Handler}
use ipmigod.App.Step.{Authorized, SameSessions-refl, SameSessions-Authorized}
use ipmigod.App.Authorized.{
  get_channel_auth_capabilities-Authorized, get_session_challenge-Authorized,
  activate_session-Authorized, set_session_privilege-Authorized, close_session-Authorized,
}
use ipmigod.Storage.Sessions.{
  KeepsSessions, get_sel_info-KeepsSessions, reserve_sel-KeepsSessions, get_sel_entry-KeepsSessions,
  add_sel_entry-KeepsSessions, clear_sel-KeepsSessions, get_sdr_repository_info-KeepsSessions,
  reserve_sdr_repository-KeepsSessions, get_sdr-KeepsSessions, add_sdr-KeepsSessions,
  clear_sdr_repository-KeepsSessions, get_sensor_reading-KeepsSessions,
}
use ipmigod.Server.Tables.{
  chassis_processors, sensor_processors, app_processors, storage_processors,
}
use ipmigod.Server.Entries.{Entries, end, ◌▸◌}

-- A handler makes steps that a message under its network function and command may make.
abbrev pub StepsBy : ℕ → ℕ → Handler → Type 0
StepsBy netfn cmd h =
    (env : Env) (msg : Msg) (w : World)
    → msg.rmcp.message.netfn ≡ netfn
    → msg.rmcp.message.cmd ≡ cmd
    → Allows (Authorized w msg) (h env msg w)

idle : {netfn cmd : ℕ} → StepsBy netfn cmd (λ env msg w. ok w)
idle env msg w n c = allowed (SameSessions-Authorized w msg w (SameSessions-refl w))

alone : {netfn cmd : ℕ} (h : Handler) → KeepsSessions h → StepsBy netfn cmd h
alone h same env msg w n c = Allows-map (SameSessions-Authorized w msg) (same env msg w)

pub chassis_Entries : Entries (StepsBy chassis_netfn) chassis_processors
chassis_Entries = idle ▸ idle ▸ idle ▸ idle ▸ idle ▸ idle ▸ idle ▸ idle ▸ idle ▸ end

pub sensor_Entries : Entries (StepsBy sensor_event_netfn) sensor_processors
sensor_Entries =
    idle
    ▸ idle
    ▸ idle
    ▸ idle
    ▸ idle
    ▸ idle
    ▸ idle
    ▸ idle
    ▸ idle
    ▸ idle
    ▸ idle
    ▸ idle
    ▸ idle
    ▸ idle
    ▸ idle
    ▸ idle
    ▸ idle
    ▸ idle
    ▸ idle
    ▸ idle
    ▸ idle
    ▸ idle
    ▸ idle
    ▸ alone _ get_sensor_reading-KeepsSessions
    ▸ idle
    ▸ idle
    ▸ end

pub app_Entries : Entries (StepsBy app_netfn) app_processors
app_Entries =
    idle
    ▸ idle
    ▸ idle
    ▸ idle
    ▸ idle
    ▸ idle
    ▸ idle
    ▸ idle
    ▸ idle
    ▸ idle
    ▸ idle
    ▸ idle
    ▸ idle
    ▸ idle
    ▸ idle
    ▸ idle
    ▸ idle
    ▸ idle
    ▸ idle
    ▸ idle
    ▸ idle
    ▸ (λ env msg w n c. Safe-Allows (get_channel_auth_capabilities-Authorized env msg w))
    ▸ (λ env msg w n c. Safe-Allows (get_session_challenge-Authorized env msg w))
    ▸ (λ env msg w n c. Safe-Allows (activate_session-Authorized env msg w (n, c)))
    ▸ (λ env msg w n c. Safe-Allows (set_session_privilege-Authorized env msg w (n, c)))
    ▸ (λ env msg w n c. Safe-Allows (close_session-Authorized env msg w (n, c)))
    ▸ idle
    ▸ idle
    ▸ idle
    ▸ idle
    ▸ idle
    ▸ idle
    ▸ idle
    ▸ idle
    ▸ idle
    ▸ idle
    ▸ idle
    ▸ idle
    ▸ idle
    ▸ idle
    ▸ idle
    ▸ idle
    ▸ idle
    ▸ idle
    ▸ idle
    ▸ idle
    ▸ idle
    ▸ idle
    ▸ idle
    ▸ idle
    ▸ end

pub storage_Entries : Entries (StepsBy storage_netfn) storage_processors
storage_Entries =
    idle
    ▸ idle
    ▸ idle
    ▸ alone _ get_sdr_repository_info-KeepsSessions
    ▸ idle
    ▸ alone _ reserve_sdr_repository-KeepsSessions
    ▸ alone _ get_sdr-KeepsSessions
    ▸ alone _ add_sdr-KeepsSessions
    ▸ idle
    ▸ idle
    ▸ alone _ clear_sdr_repository-KeepsSessions
    ▸ idle
    ▸ idle
    ▸ idle
    ▸ idle
    ▸ idle
    ▸ alone _ get_sel_info-KeepsSessions
    ▸ idle
    ▸ alone _ reserve_sel-KeepsSessions
    ▸ alone _ get_sel_entry-KeepsSessions
    ▸ alone _ add_sel_entry-KeepsSessions
    ▸ idle
    ▸ idle
    ▸ alone _ clear_sel-KeepsSessions
    ▸ idle
    ▸ idle
    ▸ idle
    ▸ idle
    ▸ end
