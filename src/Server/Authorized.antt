-- ===== src/Server/Authorized.antt =====
-- `ipmiHandleMsg` of ipmi_proto.go, and the sessions that a datagram may open, change or close.
pub mod Tables
pub mod Entitled
use ipmigod.Base.{
  ℕ, arith, ◌≡◌, refl, inl, inr, ltb, ◌==◌, List, ok, Safe, Safe-and, Allows, allowed, ended,
  if-Allows,
}
use mathlib.Core.Path.{subst}
use ipmigod.Wire.{Bytes}
use ipmigod.Lanserv.{LanServ}
use ipmigod.Message.{Msg, new_msg}
use ipmigod.Protodefs.{
  authtype_rmcp_plus, chassis_netfn, sensor_event_netfn, app_netfn, storage_netfn,
}
use ipmigod.World.{World, Env, Handler}
use ipmigod.App.Step.{
  Pointwise, SessionStep, Authorized, SameSessions-refl, SameSessions-Authorized,
}
use ipmigod.Storage.Validity.{ServerIsValid}
use ipmigod.Server.Tables.{
  chassis_processors, sensor_processors, app_processors, storage_processors,
}
use ipmigod.Server.{
  map_get, call, netfunc_processors, asf_ping, ipmi_parse_msg, dispatch, ipmi_handle_msg,
}
use ipmigod.Server.Safety.{ipmi_handle_msg-IsSafe}
use ipmigod.Server.Faults.{parsed}
use ipmigod.Server.Entries.{Entries, end, ◌▸◌, map_get-Entries}
use ipmigod.Server.Authorized.Tables.{
  StepsBy, chassis_Entries, sensor_Entries, app_Entries, storage_Entries,
}

-- The handler of a network function.
abbrev RoutesBy : ℕ → Handler → Type 0
RoutesBy netfn h =
    (env : Env) (msg : Msg) (w : World)
    → msg.rmcp.message.netfn ≡ netfn
    → Allows (Authorized w msg) (h env msg w)

processor :
    (netfn : ℕ) (m : List (ℕ × Handler))
    → Entries (StepsBy netfn) m
    → RoutesBy netfn (λ env msg w. call (map_get msg.rmcp.message.cmd m) env msg w)
processor netfn m all env msg w n =
    elim (map_get-Entries (StepsBy netfn) msg.rmcp.message.cmd m all) [
      | inl absent ↦ rw absent ended
      | inr (h, found, by) ↦ rw found (by env msg w n refl)
    ]

unsupported : {netfn : ℕ} → RoutesBy netfn (λ env msg w. ok w)
unsupported env msg w n = allowed (SameSessions-Authorized w msg w (SameSessions-refl w))

netfunc_Entries : Entries RoutesBy netfunc_processors
netfunc_Entries =
    processor chassis_netfn chassis_processors chassis_Entries
    ▸ unsupported
    ▸ processor sensor_event_netfn sensor_processors sensor_Entries
    ▸ processor app_netfn app_processors app_Entries
    ▸ unsupported
    ▸ processor storage_netfn storage_processors storage_Entries
    ▸ unsupported
    ▸ unsupported
    ▸ unsupported
    ▸ end

dispatch-Authorized :
    (env : Env) (msg : Msg) (w : World) → Allows (Authorized w msg) (dispatch env msg w)
unfolding dispatch
dispatch-Authorized env msg w =
    if-Allows (msg.authtype == authtype_rmcp_plus)
      (allowed (SameSessions-Authorized w msg w (SameSessions-refl w)))
      (elim (map_get-Entries RoutesBy msg.rmcp.message.netfn netfunc_processors netfunc_Entries) [
        | inl absent ↦ rw absent ended
        | inr (h, found, by) ↦ rw found (by env msg w refl)
      ])

ipmi_parse_msg-lan : (msg : Msg) (w : World) → (ipmi_parse_msg msg w).1.lan ≡ w.lan
unfolding ipmi_parse_msg asf_ping
ipmi_parse_msg-lan msg w = ground arith

handled :
    (env : Env) (bytes : Bytes) (n : ℕ) (w : World)
    → Allows (Authorized w (parsed bytes n w).0) (ipmi_handle_msg env (new_msg bytes n) w)
unfolding ipmi_handle_msg
handled env bytes n w =
    let p = parsed bytes n w in
    let by_lan : LanServ → World → Type 0 = λ lan u.
      (u.lan.users ≡ lan.users) × Pointwise (SessionStep lan p.0) lan.sessions u.lan.sessions in
    if-Allows (ltb n 5) (allowed (SameSessions-Authorized w p.0 w (SameSessions-refl w))) (
      subst (λ lan. Allows (by_lan lan) (dispatch env p.0 p.1)) (ipmi_parse_msg-lan _ w)
        (dispatch-Authorized env p.0 p.1))

-- On a well-formed server any datagram, unless `ipmiHandleMsg` panics, leaves the users as they are, and
-- every session but for its outbound sequence number, with three exceptions. An activation may open a
-- session that was free, for a valid user, at privilege USER and with a limit within the user's. A
-- request for a privilege may set the privilege of the session that the datagram comes in, to one within
-- the session's limit other than CALLBACK. A request to close may close an open session, if the datagram
-- comes in that session or in one of an administrator. The server stays well-formed.
pub ipmi_handle_msg-Authorized :
    (env : Env) (bytes : Bytes) (n : ℕ) (w : World)
    → ServerIsValid w
    → Safe
        (λ u. ServerIsValid u × Authorized w (parsed bytes n w).0 u)
        (ipmi_handle_msg env (new_msg bytes n) w)
ipmi_handle_msg-Authorized env bytes n w v =
    Safe-and (ipmi_handle_msg-IsSafe env (new_msg bytes n) w v) (handled env bytes n w)
