-- ===== src/App/Activate.antt =====
-- `activateSession` of ipmi_internal_app.go.
pub mod Opened
pub mod Grants
use ipmigod.Base.{
  ℕ, ◌+◌, ◌-◌, ◌*◌, ◌/◌, ◌%◌, ◌^◌, ltb, leb, ◌==◌, if◌then◌else◌, Bool, true, false, not, ◌&&◌,
  ◌||◌, bit_and, bit_or, Option, none, some, [], ◌∷◌, ◌++◌, get_elem?, modify, Outcome, ok, panic,
  ◌>>=◌, or_panic,
}
use ipmigod.Protodefs.{
  authtype_none, privilege_callback, privilege_user, privilege_admin, invalid_data_field_cc,
  out_of_space_cc, request_data_length_invalid_cc, insufficient_privilege_cc,
}
use ipmigod.Wire.{Bytes, put_uint32, uint32_at, shr, shl, low_bits}
use ipmigod.Lanserv.{
  User, Session, LanServ, zero_session, max_users, max_sessions, session_bits_req, user_bits_req,
  find_user, sid_to_session, find_free_session,
}
use ipmigod.Message.{Msg, byte, slice}
use ipmigod.World.{
  World, Env, Handler, SessionRef, nil, local, slot, to_ref, return_err, return_rsp_data,
}
use ipmigod.App.Guards.{refuses_no_session, lacks_auth}

-- The reply to an activation: completion code, type, id, sequence number and privilege limit.
abbrev pub activation_data : Session → Bytes
activation_data s =
    0 ∷ s.authtype ∷ (put_uint32 s.sid ++ (put_uint32 s.recv_seq ++ (s.max_priv ∷ [])))

-- `session.sid = uint32((lanserv.sidSeq << (SESSION_BITS_REQ + 1)) | (session.handle << 1))`.
unfoldable pub session_sid : ℕ → ℕ → ℕ
session_sid sid_seq handle = bit_or (shl 32 sid_seq (session_bits_req + 1)) (shl 32 handle 1)

-- `seqData & 0xFFFFFFFE`, or 2 in place of 0.
abbrev pub first_recv_seq : ℕ → ℕ
first_recv_seq seq_data = let even = seq_data % 2 ^ 32 / 2 * 2 in if even == 0 then 2 else even

-- `if lanserv.sidSeq == 0 { lanserv.sidSeq++ }`.
abbrev pub usable_sid_seq : ℕ → ℕ
usable_sid_seq sid_seq = if sid_seq == 0 then sid_seq + 1 else sid_seq

-- The fields that `activateSession` gives a free session.
unfoldable pub opened : Env → LanServ → User → ℕ → ℕ → ℕ → Session → Session
opened env lan user auth xmit_seq max_priv s = record s {
  active = true;
  rmcpplus = false;
  authtype = auth;
  recv_seq = first_recv_seq env.rand_uint32;
  xmit_seq = xmit_seq;
  max_priv = max_priv;
  priv = privilege_user;
  userid = user.idx;
  time_left = lan.default_session_timeout;
  sid = session_sid (usable_sid_seq lan.sid_seq) s.handle;
}

-- The tables behind the activation of the session at index `i`.
unfoldable pub open_slot : LanServ → ℕ → (Session → Session) → LanServ
open_slot lan i f = record lan {
  sessions = modify lan.sessions i f;
  active_sessions = (lan.active_sessions + 1) % 2 ^ 8;
  sid_seq = (usable_sid_seq lan.sid_seq + 1) % 2 ^ 32;
}

-- The part of `activateSession` behind the search for a free session.
unfoldable pub open_session : Env → Msg → SessionRef → User → ℕ → ℕ → ℕ → ℕ → World → Outcome World
open_session env msg dummy user auth xmit_seq max_priv i w = do
  s ← or_panic (get_elem? w.lan.sessions i)
  return_rsp_data msg dummy (activation_data (opened env w.lan user auth xmit_seq max_priv s))
      (record w { lan = open_slot w.lan i (opened env w.lan user auth xmit_seq max_priv) })

-- `dummySession`, under which the activation is answered.
abbrev pub temporary_session : Msg → ℕ → Session
temporary_session msg xmit_seq = record zero_session {
  active = true;
  authtype = msg.authtype;
  xmit_seq = xmit_seq;
  sid = msg.sid;
}

-- The part of `activateSession` behind the checks of the user.
unfoldable pub activate_user : Env → Msg → User → ℕ → World → Outcome World
activate_user env msg user auth w =
    let xmit_seq = uint32_at msg.bytes (msg.data_start + 18) in
    let max_priv = low_bits (byte msg (msg.data_start + 1)) 4 in
    let dummy = local (temporary_session msg xmit_seq) in
    if leb max_sessions w.lan.active_sessions
    then ok w
    else if xmit_seq == 0
    then return_err msg dummy 0x85 w
    else if user.privilege == 0xf || ltb user.max_priv max_priv
    then return_err msg dummy 0x86 w
    else elim (find_free_session w.lan) [
      | none ↦ return_err msg dummy 0x81 w
      | some i ↦ open_session env msg dummy user auth xmit_seq max_priv i w
    ]

-- `activateSession` under a temporary id.
unfoldable pub activate_new : Env → Msg → World → Outcome World
activate_new env msg w =
    let user_idx = low_bits (shr msg.sid 1) 6 in
    let auth = low_bits (byte msg msg.data_start) 4 in
    if ltb max_users user_idx || user_idx == 0
    then ok w
    else or_panic (get_elem? w.lan.users user_idx) >>= λ user.
        if not user.valid || (lacks_auth user auth || lacks_auth user msg.authtype)
        then ok w
        else activate_user env msg user auth w

-- `activateSession` under the id of a session: only the outbound sequence number is taken, from
-- the bytes 18 to 21 of the datagram.
unfoldable pub activate_again : Msg → World → Outcome World
activate_again msg w = elim (sid_to_session w.lan msg.sid) [
  | none ↦ ok w
  | some (i, s) ↦
      let xmit_seq = uint32_at msg.bytes 18 in
      return_rsp_data msg (slot i) (activation_data s) (record w {
        lan = record (w.lan) {
          sessions = modify w.lan.sessions i (λ t. record t { xmit_seq = xmit_seq });
        };
      })
]

-- `activateSession`.
unfoldable pub activate_session : Handler
activate_session env msg w =
    if ltb msg.data_len 22
    then ok w
    else if low_bits msg.rmcp.session.sid 1 == 1
    then activate_new env msg w
    else activate_again msg w
