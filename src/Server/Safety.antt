-- ===== src/Server/Safety.antt =====
-- `ipmiHandleMsg` of ipmi_proto.go on any datagram.
use ipmigod.Base.{
  ℕ, ◌≤◌, not, ◌+◌, ◌≡◌, refl, ◌⊎◌, inl, inr, Bool, true, false, ◌==◌, ltb, some, if◌then◌else◌,
  List, [], ◌∷◌, Safe, returned, if-Safe, if-Returns, Returns, returns, >>=-Safe,
}
use ipmigod.Wire.{Bytes, uint32_at}
use ipmigod.Protodefs.{
  authtype_rmcp_plus, chassis_netfn, sensor_event_netfn, app_netfn, storage_netfn,
}
use ipmigod.Message.{Msg, byte, new_msg}
use ipmigod.World.{World, Env, Handler}
use ipmigod.World.Frame.{IsStable}
use ipmigod.Storage.Validity.{ServerIsValid, ServerIsValid-IsStable}
use ipmigod.Server.Tables.{
  chassis_processors, sensor_processors, app_processors, storage_processors,
}
use ipmigod.Server.{
  map_get, call, netfunc_processors, chassis_netfn_processor, sensor_event_netfn_processor,
  app_netfn_processor, storage_netfn_processor, asf_ping, asf_iana, pong, ipmi_parse_msg, dispatch,
  ipmi_handle_msg, serve,
}
use ipmigod.Server.Handlers.{
  IsSafe, idle, AllSafe, ◌▸◌, ◌▹◌, end, IsAnswered, call-IsSafe, call-IsTotal, app_exempt,
  storage_exempt, no_exempt, chassis_AllSafe, sensor_AllSafe, app_AllSafe, storage_AllSafe,
}

netfunc_AllSafe : AllSafe (λ n. true) netfunc_processors
netfunc_AllSafe =
    (
      refl,
      λ env msg.
          call-IsSafe no_exempt msg.rmcp.message.cmd chassis_processors chassis_AllSafe env msg,
    )
    ▹ idle
    ▸ (
      refl,
      λ env msg.
          call-IsSafe no_exempt msg.rmcp.message.cmd sensor_processors sensor_AllSafe env msg,
    )
    ▹ (
      refl,
      λ env msg. call-IsSafe app_exempt msg.rmcp.message.cmd app_processors app_AllSafe env msg,
    )
    ▹ idle
    ▸ (
      refl,
      λ env msg.
          call-IsSafe storage_exempt msg.rmcp.message.cmd storage_processors storage_AllSafe env
            msg,
    )
    ▹ idle
    ▸ idle
    ▸ idle
    ▸ end

pub dispatch-IsSafe : IsSafe dispatch
unfolding dispatch
dispatch-IsSafe env msg w v =
    if-Safe (msg.authtype == authtype_rmcp_plus) (λ _. returned v)
      λ _. call-IsSafe _ msg.rmcp.message.netfn netfunc_processors netfunc_AllSafe env msg w v

-- The network function and the command have a handler, which is not one of those that can panic.
abbrev IsHandled : Msg → Type 0
IsHandled msg =
    let netfn = msg.rmcp.message.netfn in
    let cmd = msg.rmcp.message.cmd in
    (netfn ≡ chassis_netfn) × IsAnswered no_exempt cmd chassis_processors
    ⊎ (netfn ≡ sensor_event_netfn) × IsAnswered no_exempt cmd sensor_processors
    ⊎ (netfn ≡ app_netfn) × IsAnswered app_exempt cmd app_processors
    ⊎ (netfn ≡ storage_netfn) × IsAnswered storage_exempt cmd storage_processors

-- The processor of a network function, called on a command it answers.
routed :
    (netfn key : ℕ) (processor : Handler)
    → map_get key netfunc_processors ≡ some processor
    → netfn ≡ key
    → (env : Env) (msg : Msg) (w : World) → Returns ServerIsValid (processor env msg w)
    → Returns ServerIsValid (call (map_get netfn netfunc_processors) env msg w)
routed netfn key processor route e env msg w answer = rw (e, route) answer

chassis_route : map_get chassis_netfn netfunc_processors ≡ some chassis_netfn_processor
unfolding map_get
chassis_route = refl

sensor_route : map_get sensor_event_netfn netfunc_processors ≡ some sensor_event_netfn_processor
unfolding map_get
sensor_route = refl

app_route : map_get app_netfn netfunc_processors ≡ some app_netfn_processor
unfolding map_get
app_route = refl

storage_route : map_get storage_netfn netfunc_processors ≡ some storage_netfn_processor
unfolding map_get
storage_route = refl

dispatch-Returns :
    (env : Env) (msg : Msg) (w : World)
    → ServerIsValid w
    → IsHandled msg
    → Returns ServerIsValid (dispatch env msg w)
unfolding dispatch
dispatch-Returns env msg w v h =
    let cmd = msg.rmcp.message.cmd in
    if-Returns (msg.authtype == authtype_rmcp_plus) (λ _. returns v)
      λ _. elim h [
        | inl (e, a) ↦
            routed _ _ _ chassis_route e env msg w
              (call-IsTotal no_exempt cmd chassis_processors chassis_AllSafe a env msg w v)
        | inr (inl (e, a)) ↦
            routed _ _ _ sensor_route e env msg w
              (call-IsTotal no_exempt cmd sensor_processors sensor_AllSafe a env msg w v)
        | inr (inr (inl (e, a))) ↦
            routed _ _ _ app_route e env msg w
              (call-IsTotal app_exempt cmd app_processors app_AllSafe a env msg w v)
        | inr (inr (inr (e, a))) ↦
            routed _ _ _ storage_route e env msg w
              (call-IsTotal storage_exempt cmd storage_processors storage_AllSafe a env msg w v)
      ]

if-holds : {A : Type 0} (P : A → Type 0) (b : Bool) (x y : A) → P x → P y → P (if b then x else y)
if-holds P true x y h k = h
if-holds P false x y h k = k

-- What no reply breaks, parsing with its answer to a ping does not break.
module _ (P : World → Type 0) (stable : IsStable P) (msg : Msg) (w : World) (h : P w) where
  asf_ping-keeps : P (asf_ping msg w)
  unfolding asf_ping
  asf_ping-keeps = if-holds P (ltb msg.data_len 12) _ _ h (
      if-holds P (not (uint32_at msg.bytes (msg.data_start + 4) == asf_iana)) _ _ h (
        if-holds P (not (byte msg (msg.data_start + 8) == 0x80)) _ _ h
          (stable.sends w (pong (byte msg (msg.data_start + 9))) h)))

  pub ipmi_parse_msg-keeps : P (ipmi_parse_msg msg w).1
  unfolding ipmi_parse_msg
  ipmi_parse_msg-keeps =
      let Q : Msg × World → Type 0 = λ r. P r.1 in
      if-holds Q (byte msg (msg.data_start + 3) == 6) _ _ asf_ping-keeps (
        if-holds Q (byte msg (msg.data_start + 3) == 7) _ _
          (if-holds Q (byte msg (msg.data_start + 4) == authtype_rmcp_plus) _ _ h h) h)

parse-ServerIsValid :
    (msg : Msg) (w : World) → ServerIsValid w → ServerIsValid (ipmi_parse_msg msg w).1
parse-ServerIsValid msg w v = ipmi_parse_msg-keeps ServerIsValid ServerIsValid-IsStable msg w v

pub ipmi_handle_msg-IsSafe : IsSafe ipmi_handle_msg
unfolding ipmi_handle_msg
ipmi_handle_msg-IsSafe env msg w v =
    if-Safe (ltb msg.data_len 5) (λ _. returned v)
      λ _.
        let parsed = ipmi_parse_msg (record msg { channel = w.lan.chan_num }) w in
        dispatch-IsSafe env parsed.0 parsed.1 (parse-ServerIsValid _ w v)

-- `ipmiHandleMsg`, on a well-formed server and a datagram of five bytes or more from which a handled
-- command is parsed, does not panic, and leaves the server well-formed.
ipmi_handle_msg-Returns :
    (env : Env) (msg : Msg) (w : World)
    → ServerIsValid w
    → 5 ≤ msg.data_len
    → IsHandled (ipmi_parse_msg (record msg { channel = w.lan.chan_num }) w).0
    → Returns ServerIsValid (ipmi_handle_msg env msg w)
unfolding ipmi_handle_msg
ipmi_handle_msg-Returns env msg w v long h =
    if-Returns (ltb msg.data_len 5) (λ _. returns v)
      λ _. dispatch-Returns env _ _ (parse-ServerIsValid _ w v) h

pub serve-Safe :
    (input : List (Env × Bytes × ℕ)) (w : World)
    → ServerIsValid w
    → Safe ServerIsValid (serve input w)
unfolding serve
serve-Safe [] w v = returned v
serve-Safe ((env, bytes, n) ∷ rest) w v =
    >>=-Safe ServerIsValid (ipmi_handle_msg-IsSafe env (new_msg bytes n) w v) (serve-Safe rest)
