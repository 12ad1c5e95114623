-- ===== src/Server/Faults.antt =====
-- `ipmiHandleMsg` of ipmi_proto.go: exactly the datagrams that it panics on.
pub mod Handlers
pub mod Tables
use ipmigod.Base.{
  ℕ, ◌+◌, ◌≡◌, refl, sym, inl, inr, Bool, true, false, not, ◌||◌, ltb, ◌==◌, if◌then◌else◌, List,
  ok, returns, Exactly, PanicsBy, Exactly-PanicsBy, All, Bool-cases, arith,
}
use mathlib.Core.Path.{subst}
use ipmigod.Wire.{Bytes, IsByte}
use ipmigod.Bmc.{is_some}
use ipmigod.Message.{Msg, byte, new_msg, ipmi_parse_rmcp_msg, load_hdr, load_session, load_message}
use ipmigod.Protodefs.{
  authtype_rmcp_plus, chassis_netfn, sensor_event_netfn, app_netfn, storage_netfn,
}
use ipmigod.World.{World, Env, Handler}
use ipmigod.World.Frame.{IsStable}
use ipmigod.Storage.Sdr.Stock.{Registered}
use ipmigod.Storage.Validity.{ServerIsValid-IsStable}
use ipmigod.Server.Tables.{
  chassis_processors, sensor_processors, app_processors, storage_processors,
}
use ipmigod.Server.{map_get, call, netfunc_processors, ipmi_parse_msg, dispatch, ipmi_handle_msg}
use ipmigod.Server.Safety.{ipmi_parse_msg-keeps}
use ipmigod.Server.Entries.{Entries, end, ◌▸◌, map_get-Entries}
use ipmigod.Server.Faults.Handlers.{
  ServerIsReady, Spares, Faults, no_faults, app_faults, storage_faults, FaultsBy,
}
use ipmigod.Server.Faults.Tables.{chassis_Entries, sensor_Entries, app_Entries, storage_Entries}

-- The command of a message has no handler in a table, or its handler panics.
abbrev pub command_faults : Faults → List (ℕ × Handler) → Msg → World → Bool
command_faults faults m msg w =
    let cmd = msg.rmcp.message.cmd in not (is_some (map_get cmd m)) || faults cmd msg w

-- The same for a network function.
abbrev pub netfn_faults : Faults
netfn_faults netfn msg w =
    if netfn == chassis_netfn
    then command_faults no_faults chassis_processors msg w
    else if netfn == sensor_event_netfn
    then command_faults no_faults sensor_processors msg w
    else if netfn == app_netfn
    then command_faults app_faults app_processors msg w
    else if netfn == storage_netfn
    then command_faults storage_faults storage_processors msg w
    else false

-- A parsed message that the dispatch panics on.
abbrev pub msg_faults : Msg → World → Bool
msg_faults msg w =
    let netfn = msg.rmcp.message.netfn in
    if msg.authtype == authtype_rmcp_plus
    then false
    else not (is_some (map_get netfn netfunc_processors)) || netfn_faults netfn msg w

-- The message that is parsed from a datagram, with the state behind the answer to a ping.
abbrev pub parsed : Bytes → ℕ → World → Msg × World
parsed bytes n w = ipmi_parse_msg (record (new_msg bytes n) { channel = w.lan.chan_num }) w

-- A datagram that `ipmiHandleMsg` panics on.
unfoldable pub datagram_faults : Bytes → ℕ → World → Bool
datagram_faults bytes n w =
    if ltb n 5 then false else let p = parsed bytes n w in msg_faults p.0 p.1

module _ (registered : Registered) where
  ServerIsReady-IsStable : IsStable (ServerIsReady registered)
  ServerIsReady-IsStable = record {
    sends =
        λ w p r. record { server = ServerIsValid-IsStable.sends w p r.server; stocked = r.stocked };
    bumps =
        λ w i r. record { server = ServerIsValid-IsStable.bumps w i r.server; stocked = r.stocked };
  }

  -- The handler of a network function.
  abbrev RoutesBy : ℕ → Handler → Type 0
  RoutesBy netfn h =
      (env : Env) (msg : Msg) (w : World)
      → ServerIsReady registered w
      → Spares registered netfn msg.rmcp.message.cmd
      → Exactly (All IsByte msg.bytes) (netfn_faults netfn msg w) (ServerIsReady registered)
          (h env msg w)

  -- A lookup of a command.
  processor :
      (netfn : ℕ) (faults : Faults) (m : List (ℕ × Handler))
      → Entries (FaultsBy registered netfn faults) m
      → (env : Env) (msg : Msg) (w : World) → ServerIsReady registered w
      → Spares registered netfn msg.rmcp.message.cmd
      → Exactly
          (All IsByte msg.bytes)
          (command_faults faults m msg w)
          (ServerIsReady registered)
          (call (map_get msg.rmcp.message.cmd m) env msg w)
  processor netfn faults m all env msg w r k =
      elim (map_get-Entries (FaultsBy registered netfn faults) msg.rmcp.message.cmd m all) [
        | inl absent ↦ rw absent ((λ bytes e. refl), λ e. cc)
        | inr (h, found, by) ↦ rw found (by env msg w r k)
      ]

  idle :
      (env : Env) (msg : Msg) (w : World)
      → ServerIsReady registered w
      → Exactly (All IsByte msg.bytes) false (ServerIsReady registered) (ok w)
  idle env msg w r = ((λ g e. cc), λ e. returns r)

  netfunc_Entries : Entries RoutesBy netfunc_processors
  netfunc_Entries =
      processor chassis_netfn no_faults chassis_processors (chassis_Entries registered)
      ▸ (λ env msg w r k. idle env msg w r)
      ▸ processor sensor_event_netfn no_faults sensor_processors (sensor_Entries registered)
      ▸ processor app_netfn app_faults app_processors (app_Entries registered)
      ▸ (λ env msg w r k. idle env msg w r)
      ▸ processor storage_netfn storage_faults storage_processors (storage_Entries registered)
      ▸ (λ env msg w r k. idle env msg w r)
      ▸ (λ env msg w r k. idle env msg w r)
      ▸ (λ env msg w r k. idle env msg w r)
      ▸ end

  dispatch-Exactly :
      (env : Env) (msg : Msg) (w : World)
      → ServerIsReady registered w
      → Spares registered msg.rmcp.message.netfn msg.rmcp.message.cmd
      → Exactly
          (All IsByte msg.bytes)
          (msg_faults msg w)
          (ServerIsReady registered)
          (dispatch env msg w)
  unfolding dispatch
  dispatch-Exactly env msg w r k = elim (Bool-cases (msg.authtype == authtype_rmcp_plus)) [
    | inl plus ↦ rw plus (idle env msg w r)
    | inr lan ↦
        elim (map_get-Entries RoutesBy msg.rmcp.message.netfn netfunc_processors netfunc_Entries) [
          | inl absent ↦ rw (lan, absent) ((λ bytes e. refl), λ e. cc)
          | inr (h, found, by) ↦ rw (lan, found) (by env msg w r k)
        ]
  ]

if-bytes :
    (b : Bool) (x y : Msg × World) (bytes : Bytes)
    → x.0.bytes ≡ bytes
    → y.0.bytes ≡ bytes
    → (let r = if b then x else y in r.0.bytes) ≡ bytes
if-bytes true x y bytes h k = h
if-bytes false x y bytes h k = k

load-bytes : (msg : Msg) → (ipmi_parse_rmcp_msg msg).bytes ≡ msg.bytes
unfolding ipmi_parse_rmcp_msg load_hdr load_session load_message
load-bytes msg = ground arith

-- Parsing reads the datagram, and does not change it.
parsed-bytes : (bytes : Bytes) (n : ℕ) (w : World) → (parsed bytes n w).0.bytes ≡ bytes
unfolding ipmi_parse_msg
parsed-bytes bytes n w =
    let msg = record (new_msg bytes n) { channel = w.lan.chan_num } in
    if-bytes (byte msg (msg.data_start + 3) == 6) _ _ bytes refl (
      if-bytes (byte msg (msg.data_start + 3) == 7) _ _ bytes
        (if-bytes (byte msg (msg.data_start + 4) == authtype_rmcp_plus) _ _ bytes refl
          (load-bytes msg))
        refl)

module _ (registered : Registered) (env : Env) (bytes : Bytes) (n : ℕ) (w : World) where
  handled :
      ServerIsReady registered w
      → (let msg = (parsed bytes n w).0 in
          Spares registered msg.rmcp.message.netfn msg.rmcp.message.cmd)
      → Exactly
          (All IsByte bytes)
          (datagram_faults bytes n w)
          (ServerIsReady registered)
          (ipmi_handle_msg env (new_msg bytes n) w)
  unfolding ipmi_handle_msg datagram_faults
  handled r k = elim (Bool-cases (ltb n 5)) [
    | inl short ↦ rw short ((λ g e. cc), λ e. returns r)
    | inr long ↦
        let p = parsed bytes n w in
        let (panics_at, returns_at) =
          dispatch-Exactly registered env p.0 p.1
            (ipmi_parse_msg-keeps (ServerIsReady registered) (ServerIsReady-IsStable registered) _ w
              r)
            k in
        rw long (
          (λ are_bytes. panics_at (subst (All IsByte) (sym (parsed-bytes bytes n w)) are_bytes)),
          returns_at,
        )
  ]

  -- `ipmiHandleMsg`, on a well-formed server with a record of each registered sensor and on a datagram that
  -- does not clear the repository while a sensor is registered, panics where `datagram_faults` is true; where
  -- it is false it returns, the server stays well-formed, and each registered sensor keeps a record. The test
  -- is true when a network function or a command has no handler, when a session is to be closed under the id
  -- of none, when offset and count of a read within a record or an event wrap, and when a record that is added
  -- for a sensor that has none does not fit.
  pub ipmi_handle_msg-PanicsBy :
      ServerIsReady registered w
      → All IsByte bytes
      → (let msg = (parsed bytes n w).0 in
          Spares registered msg.rmcp.message.netfn msg.rmcp.message.cmd)
      → PanicsBy
          (datagram_faults bytes n w)
          (ServerIsReady registered)
          (ipmi_handle_msg env (new_msg bytes n) w)
  ipmi_handle_msg-PanicsBy r are_bytes k = Exactly-PanicsBy _ _ (handled r k) are_bytes
