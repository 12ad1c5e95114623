-- ===== src/Server/Replies/Once.antt =====
-- A datagram in `ipmiHandleMsg` of ipmi_proto.go: how often it is answered.
use ipmigod.Base.{
  Safe-and, Allows, allowed, ended, if-Allows, ℕ, ◌+◌, ◌≡◌, refl, inl, inr, Bool, true, false, ◌==◌,
  ltb, not, Option, some, if◌then◌else◌, List, [], ◌∷◌, ok, Safe,
}
use ipmigod.Wire.{Bytes, uint32_at}
use ipmigod.Protodefs.{authtype_rmcp_plus}
use ipmigod.Message.{Msg, byte, new_msg}
use ipmigod.World.{World, Env, Handler}
use ipmigod.Server.Tables.{
  chassis_processors, sensor_processors, app_processors, storage_processors,
}
use ipmigod.Server.{
  map_get, call, netfunc_processors, asf_ping, asf_iana, pong, ipmi_parse_msg, dispatch,
  ipmi_handle_msg,
}
use ipmigod.Storage.Validity.{ServerIsValid}
use ipmigod.Server.Safety.{ipmi_handle_msg-IsSafe}
use ipmigod.Server.Replies.{AtMostOne, RepliesOnce}
use ipmigod.Server.Replies.App.{
  get_channel_auth_capabilities-RepliesOnce, get_session_challenge-RepliesOnce,
  activate_session-RepliesOnce, set_session_privilege-RepliesOnce, close_session-RepliesOnce,
}
use ipmigod.Server.Replies.Storage.{
  get_sel_info-RepliesOnce, reserve_sel-RepliesOnce, get_sel_entry-RepliesOnce,
  add_sel_entry-RepliesOnce, clear_sel-RepliesOnce, get_sdr_repository_info-RepliesOnce,
  reserve_sdr_repository-RepliesOnce, get_sdr-RepliesOnce, add_sdr-RepliesOnce,
  clear_sdr_repository-RepliesOnce, get_sensor_reading-RepliesOnce,
}

-- Every handler of a table answers at most once.
data AllOnce : List (ℕ × Handler) → Type 0 where
  end : AllOnce []
  ◌▸◌ :
      {k : ℕ} {h : Handler} {m : List (ℕ × Handler)}
      → RepliesOnce h
      → AllOnce m
      → AllOnce ((k, h) ∷ m)

infixr 5 ◌▸◌
idle : RepliesOnce (λ env msg w. ok w)
idle env msg w = allowed (inl refl)

choose_once :
    (b : Bool) (h : Handler) (rest : Option Handler)
    → RepliesOnce h
    → RepliesOnce (call rest)
    → RepliesOnce (call (if b then some h else rest))
choose_once true h rest s ss = s
choose_once false h rest s ss = ss

call-RepliesOnce :
    (key : ℕ) (m : List (ℕ × Handler)) → AllOnce m → RepliesOnce (call (map_get key m))
unfolding map_get
call-RepliesOnce key [] end = λ env msg w. ended
call-RepliesOnce key ((k, h) ∷ m) (s ▸ ss) =
    choose_once (k == key) h (map_get key m) s (call-RepliesOnce key m ss)

chassis-AllOnce : AllOnce chassis_processors
chassis-AllOnce = idle ▸ idle ▸ idle ▸ idle ▸ idle ▸ idle ▸ idle ▸ idle ▸ idle ▸ end

sensor-AllOnce : AllOnce sensor_processors
sensor-AllOnce =
    idle ▸ idle ▸ idle ▸ idle ▸ idle ▸ idle ▸ idle ▸ idle ▸ idle ▸ idle ▸ idle ▸ idle ▸ idle ▸ idle
    ▸ idle ▸ idle ▸ idle ▸ idle ▸ idle ▸ idle ▸ idle ▸ idle ▸ idle ▸ get_sensor_reading-RepliesOnce
    ▸ idle ▸ idle ▸ end

app-AllOnce : AllOnce app_processors
app-AllOnce =
    idle ▸ idle ▸ idle ▸ idle ▸ idle ▸ idle ▸ idle ▸ idle ▸ idle ▸ idle ▸ idle ▸ idle ▸ idle ▸ idle
    ▸ idle ▸ idle ▸ idle ▸ idle ▸ idle ▸ idle ▸ idle ▸ get_channel_auth_capabilities-RepliesOnce
    ▸ get_session_challenge-RepliesOnce ▸ activate_session-RepliesOnce
    ▸ set_session_privilege-RepliesOnce ▸ close_session-RepliesOnce ▸ idle ▸ idle ▸ idle ▸ idle
    ▸ idle ▸ idle ▸ idle ▸ idle ▸ idle ▸ idle ▸ idle ▸ idle ▸ idle ▸ idle ▸ idle ▸ idle ▸ idle
    ▸ idle ▸ idle ▸ idle ▸ idle ▸ idle ▸ idle ▸ idle ▸ end

storage-AllOnce : AllOnce storage_processors
storage-AllOnce =
    idle ▸ idle ▸ idle ▸ get_sdr_repository_info-RepliesOnce ▸ idle
    ▸ reserve_sdr_repository-RepliesOnce ▸ get_sdr-RepliesOnce ▸ add_sdr-RepliesOnce ▸ idle ▸ idle
    ▸ clear_sdr_repository-RepliesOnce ▸ idle ▸ idle ▸ idle ▸ idle ▸ idle ▸ get_sel_info-RepliesOnce
    ▸ idle ▸ reserve_sel-RepliesOnce ▸ get_sel_entry-RepliesOnce ▸ add_sel_entry-RepliesOnce ▸ idle
    ▸ idle ▸ clear_sel-RepliesOnce ▸ idle ▸ idle ▸ idle ▸ idle ▸ end

processor :
    (m : List (ℕ × Handler))
    → AllOnce m
    → RepliesOnce (λ env msg w. call (map_get msg.rmcp.message.cmd m) env msg w)
processor m all env msg w = call-RepliesOnce msg.rmcp.message.cmd m all env msg w

netfunc-AllOnce : AllOnce netfunc_processors
netfunc-AllOnce =
    processor chassis_processors chassis-AllOnce
    ▸ idle
    ▸ processor sensor_processors sensor-AllOnce
    ▸ processor app_processors app-AllOnce
    ▸ idle
    ▸ processor storage_processors storage-AllOnce
    ▸ idle
    ▸ idle
    ▸ idle
    ▸ end

dispatch-RepliesOnce : RepliesOnce dispatch
unfolding dispatch
dispatch-RepliesOnce env msg w =
    if-Allows (msg.authtype == authtype_rmcp_plus) (allowed (inl refl))
      (call-RepliesOnce msg.rmcp.message.netfn netfunc_processors netfunc-AllOnce env msg w)

if-AtMostOne :
    (b : Bool) (w x y : World) → AtMostOne w x → AtMostOne w y → AtMostOne w (if b then x else y)
if-AtMostOne true w x y h k = h
if-AtMostOne false w x y h k = k

asf_ping-AtMostOne : (msg : Msg) (w : World) → AtMostOne w (asf_ping msg w)
unfolding asf_ping
asf_ping-AtMostOne msg w = if-AtMostOne (ltb msg.data_len 12) w _ _ (inl refl) (
    if-AtMostOne (not (uint32_at msg.bytes (msg.data_start + 4) == asf_iana)) w _ _ (inl refl) (
      if-AtMostOne (not (byte msg (msg.data_start + 8) == 0x80)) w _ _ (inl refl)
        (inr (pong (byte msg (msg.data_start + 9)), refl))))

-- Behind a ping the dispatch goes on, to an empty handler.
dispatch-new_msg :
    (env : Env) (bytes : Bytes) (n channel : ℕ) (w : World)
    → dispatch env (record (new_msg bytes n) { channel = channel }) w ≡ ok w
unfolding dispatch map_get
dispatch-new_msg env bytes n channel w = refl

if-dispatch :
    (env : Env) (w : World) (b : Bool) (x y : Msg × World)
    → Allows (AtMostOne w) (dispatch env x.0 x.1)
    → Allows (AtMostOne w) (dispatch env y.0 y.1)
    → Allows (AtMostOne w) (let r = if b then x else y in dispatch env r.0 r.1)
if-dispatch env w true x y h k = h
if-dispatch env w false x y h k = k

answered_once :
    (env : Env) (bytes : Bytes) (n : ℕ) (w : World)
    → Allows (AtMostOne w) (ipmi_handle_msg env (new_msg bytes n) w)
unfolding ipmi_handle_msg ipmi_parse_msg
answered_once env bytes n w =
    let msg = record (new_msg bytes n) { channel = w.lan.chan_num } in
    let class = byte msg (msg.data_start + 3) in
    if-Allows (ltb n 5) (allowed (inl refl)) (
      if-dispatch env w (class == 6) _ _
        (rw (dispatch-new_msg env bytes n w.lan.chan_num (asf_ping msg w))
          (allowed (asf_ping-AtMostOne msg w)))
        (if-dispatch env w (class == 7) _ _
          (if-dispatch env w (byte msg (msg.data_start + 4) == authtype_rmcp_plus) _ _
            (dispatch-RepliesOnce env msg w) (dispatch-RepliesOnce env _ w))
          (dispatch-RepliesOnce env msg w)))

-- On a well-formed server any datagram, unless its handling panics, is answered by one datagram at most, the
-- answer to a ping included, and the server stays well-formed.
pub ipmi_handle_msg-AtMostOne :
    (env : Env) (bytes : Bytes) (n : ℕ) (w : World)
    → ServerIsValid w
    → Safe (λ w'. ServerIsValid w' × AtMostOne w w') (ipmi_handle_msg env (new_msg bytes n) w)
ipmi_handle_msg-AtMostOne env bytes n w v =
    Safe-and (ipmi_handle_msg-IsSafe env (new_msg bytes n) w v) (answered_once env bytes n w)
