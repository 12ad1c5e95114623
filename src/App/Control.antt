-- ===== src/App/Control.antt =====
-- `setSessionPrivilege` and `closeSession` of ipmi_internal_app.go.
pub mod Privilege
pub mod Close
use ipmigod.Base.{
  ℕ, ◌+◌, ◌-◌, ◌*◌, ◌/◌, ◌%◌, ◌^◌, ltb, leb, ◌==◌, if◌then◌else◌, Bool, true, false, not, ◌&&◌,
  ◌||◌, bit_and, bit_or, Option, none, some, [], ◌∷◌, ◌++◌, get_elem?, modify, Outcome, ok, panic,
  ◌>>=◌, or_panic,
}
use ipmigod.Protodefs.{
  authtype_none, privilege_callback, privilege_user, privilege_admin, invalid_data_field_cc,
  out_of_space_cc, request_data_length_invalid_cc, insufficient_privilege_cc,
}
use ipmigod.Wire.{Bytes, put_uint32, uint32_at, shr, shl, low_bits}
use ipmigod.Lanserv.{
  User, Session, LanServ, zero_session, max_users, max_sessions, session_bits_req, user_bits_req,
  find_user, sid_to_session, find_free_session,
}
use ipmigod.Message.{Msg, byte, slice}
use ipmigod.World.{
  World, Env, Handler, SessionRef, nil, local, slot, to_ref, return_err, return_rsp_data,
}

-- The write of `setSessionPrivilege`, and its two refusals.
unfoldable pub change_privilege : Msg → ℕ → Session → ℕ → World → Outcome World
change_privilege msg i s priv w =
    if priv == privilege_callback
    then return_err msg (slot i) 0x80 w
    else if ltb s.max_priv priv
    then return_err msg (slot i) 0x81 w
    else return_rsp_data msg (slot i) (0 ∷ priv ∷ []) (record w {
      lan = record (w.lan) { sessions = modify w.lan.sessions i (λ t. record t { priv = priv }) };
    })

-- `setSessionPrivilege`: a requested level of 0 asks for the present one.
unfoldable pub set_session_privilege : Handler
set_session_privilege env msg w =
    if ltb msg.data_len 1
    then return_err msg nil request_data_length_invalid_cc w
    else elim (sid_to_session w.lan msg.sid) [
      | none ↦ ok w
      | some (i, s) ↦
          let asked = low_bits (byte msg msg.data_start) 4 in
          change_privilege msg i s (if asked == 0 then s.priv else asked) w
    ]

-- The session at index `j` is closed: `targetSess.active = false; lanserv.activeSessions--`.
unfoldable pub close_slot : LanServ → ℕ → LanServ
close_slot lan j = record lan {
  sessions = modify lan.sessions j (λ t. record t { active = false });
  active_sessions = (lan.active_sessions + 2 ^ 8 - 1) % 2 ^ 8;
}

-- The acknowledgement on the session at index `i`, then the cleanup of the target.
unfoldable pub close_target : Msg → ℕ → ℕ → World → Outcome World
close_target msg i j w =
    return_err msg (slot i) 0 w >>= λ w'. ok (record w' { lan = close_slot w'.lan j })

-- `closeSession` in the session at index `i`.
unfoldable pub close_from : Msg → ℕ → Session → ℕ → World → Outcome World
close_from msg i s sid w =
    if sid == s.sid
    then close_target msg i i w
    else if not (s.priv == privilege_admin)
    then return_err msg (slot i) insufficient_privilege_cc w
    else elim (sid_to_session w.lan sid) [
      | none ↦ return_err msg (slot i) 0x87 w
      | some (j, t) ↦ close_target msg i j w
    ]

-- `closeSession`: `session.sid` is read through a nil pointer where the message's id names no
-- session.
unfoldable pub close_session : Handler
close_session env msg w =
    let session = sid_to_session w.lan msg.sid in
    if ltb msg.data_len 4
    then return_err msg (to_ref session) request_data_length_invalid_cc w
    else or_panic session >>= λ found.
        close_from msg found.0 found.1 (uint32_at msg.bytes msg.data_start) w
