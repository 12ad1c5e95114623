-- ===== src/App/Challenge.antt =====
-- `getChannelAuthCapabilties` and `getSessionChallenge` of ipmi_internal_app.go.
pub mod Sids
use ipmigod.Base.{
  ℕ, ◌+◌, ◌-◌, ◌*◌, ◌/◌, ◌%◌, ◌^◌, ltb, leb, ◌==◌, if◌then◌else◌, Bool, true, false, not, ◌&&◌,
  ◌||◌, bit_and, bit_or, Option, none, some, [], ◌∷◌, ◌++◌, get_elem?, modify, Outcome, ok, panic,
  ◌>>=◌, or_panic,
}
use ipmigod.Protodefs.{
  authtype_none, privilege_callback, privilege_user, privilege_admin, invalid_data_field_cc,
  out_of_space_cc, request_data_length_invalid_cc, insufficient_privilege_cc,
}
use ipmigod.Wire.{Bytes, put_uint32, uint32_at, shr, shl, low_bits}
use ipmigod.Lanserv.{
  User, Session, LanServ, zero_session, max_users, max_sessions, session_bits_req, user_bits_req,
  find_user, sid_to_session, find_free_session,
}
use ipmigod.Message.{Msg, byte, slice}
use ipmigod.World.{
  World, Env, Handler, SessionRef, nil, local, slot, to_ref, return_err, return_rsp_data,
}
use ipmigod.App.Guards.{refuses_no_session, lacks_auth}

-- The tail of `getChannelAuthCapabilties`: the checks of channel and privilege.
unfoldable pub channel_auth_reply : Msg → ℕ → ℕ → World → Outcome World
channel_auth_reply msg channel priv w =
    if not (channel == w.lan.chan_num)
    then return_err msg nil invalid_data_field_cc w
    else if ltb w.lan.chan_priv_limit priv
    then return_err msg nil invalid_data_field_cc w
    else return_rsp_data msg nil (0 ∷ channel ∷ 0x17 ∷ 0x6 ∷ 0 ∷ 0 ∷ 0 ∷ 0 ∷ 0 ∷ []) w

-- `getChannelAuthCapabilties`.
unfoldable pub get_channel_auth_capabilities : Handler
get_channel_auth_capabilities env msg w =
    let channel = low_bits (byte msg msg.data_start) 4 in
    let priv = low_bits (byte msg (msg.data_start + 1)) 4 in
    if refuses_no_session msg
    then ok w
    else if ltb 0 (low_bits (shr (byte msg msg.data_start) 7) 1)
    then ok w
    else channel_auth_reply msg (if channel == 0xe then w.lan.chan_num else channel) priv w

-- `isAuthvalNull`.
unfoldable pub is_authval_null : Bytes → Bool
is_authval_null [] = true
is_authval_null (b ∷ bs) = if not (b == 0) then false else is_authval_null bs

-- `sid = (lanserv.nextChallSeq << (USER_BITS_REQ + 1)) | (uint32(user.idx) << 1) | 1`.
unfoldable pub challenge_sid : ℕ → ℕ → ℕ
challenge_sid next_chall_seq idx =
    bit_or (bit_or (shl 32 next_chall_seq (user_bits_req + 1)) (shl 32 idx 1)) 1

-- `testChall`.
abbrev pub test_chall : Bytes
test_chall =
    0x00 ∷ 0x01 ∷ 0x02 ∷ 0x03 ∷ 0x04 ∷ 0x05 ∷ 0x06 ∷ 0x07 ∷ 0x08 ∷ 0x09 ∷ 0x0a ∷ 0x0b ∷ 0x0c ∷ 0x0d
    ∷ 0x0e ∷ 0x0f ∷ []

-- The part of `getSessionChallenge` behind the search for the user.
unfoldable pub challenge_user : Msg → User → ℕ → World → Outcome World
challenge_user msg user authtype w =
    if lacks_auth user authtype
    then return_err msg nil invalid_data_field_cc w
    else if leb max_sessions w.lan.active_sessions
    then return_err msg nil out_of_space_cc w
    else return_rsp_data msg nil
        (0 ∷ (put_uint32 (challenge_sid w.lan.next_chall_seq user.idx) ++ test_chall))
        (record w { lan = record (w.lan) { next_chall_seq = (w.lan.next_chall_seq + 1) % 2 ^ 32 } })

-- `getSessionChallenge`.
unfoldable pub get_session_challenge : Handler
get_session_challenge env msg w =
    let authtype = low_bits (byte msg msg.data_start) 4 in
    let username = slice msg.bytes (msg.data_start + 1) 16 in
    if refuses_no_session msg then ok w else elim (find_user w.lan username true authtype) [
      | none ↦
          if is_authval_null username then return_err msg nil 0x82 w else return_err msg nil 0x81 w
      | some user ↦ challenge_user msg user authtype w
    ]
