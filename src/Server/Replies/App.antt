-- ===== src/Server/Replies/App.antt =====
-- The session commands of ipmi_internal_app.go: how often they answer.
use ipmigod.Base.{
  Allows, allowed, and-Allows, if-Allows, option-Allows, >>=-Allows, ℕ, ◌+◌, ◌==◌, ltb, leb, not,
  true, ◌||◌, refl, inl, or_panic, get_elem?,
}
use ipmigod.Protodefs.{privilege_admin}
use ipmigod.Wire.{low_bits, uint32_at}
use ipmigod.Lanserv.{User, Session, max_sessions, find_user, sid_to_session, find_free_session}
use ipmigod.Message.{Msg, byte, slice}
use ipmigod.World.{World, Env, SessionRef, nil, local, slot}
use ipmigod.App.Challenge.{
  get_channel_auth_capabilities, channel_auth_reply, get_session_challenge, challenge_user,
  is_authval_null,
}
use ipmigod.App.Guards.{refuses_no_session}
use ipmigod.App.Activate.{
  open_session, activate_user, activate_new, activate_again, activate_session, temporary_session,
}
use ipmigod.App.Control.{
  change_privilege, set_session_privilege, close_target, close_from, close_session,
}
use ipmigod.Server.Replies.{AtMostOne, RepliesOnce, return_err-AtMostOne, return_rsp_data-AtMostOne}

unsent : (w : World) → AtMostOne w w
unsent w = inl refl

ruleset rules = (
  if-Allows, option-Allows, >>=-Allows, return_err-AtMostOne, return_rsp_data-AtMostOne, allowed,
  unsent, refl,
)

pub get_channel_auth_capabilities-RepliesOnce : RepliesOnce get_channel_auth_capabilities
unfolding get_channel_auth_capabilities channel_auth_reply
get_channel_auth_capabilities-RepliesOnce env msg w = search rules depth 12

challenge_user-AtMostOne :
    (msg : Msg) (user : User) (authtype : ℕ) (w : World)
    → Allows (AtMostOne w) (challenge_user msg user authtype w)
unfolding challenge_user
challenge_user-AtMostOne msg user authtype w = search rules depth 12

pub get_session_challenge-RepliesOnce : RepliesOnce get_session_challenge
unfolding get_session_challenge
get_session_challenge-RepliesOnce env msg w =
    let username = slice msg.bytes (msg.data_start + 1) 16 in
    let authtype = low_bits (byte msg msg.data_start) 4 in
    if-Allows (refuses_no_session msg) (allowed (unsent w)) (
      option-Allows (find_user w.lan username true authtype)
        (λ _.
          if-Allows (is_authval_null username) (return_err-AtMostOne w w msg nil refl _)
            (return_err-AtMostOne w w msg nil refl _))
        (λ user _. challenge_user-AtMostOne msg user authtype w))

module _ (env : Env) (msg : Msg) (w : World) where
  open_session-AtMostOne :
      (dummy : SessionRef) (user : User) (auth xmit_seq max_priv i : ℕ)
      → Allows (AtMostOne w) (open_session env msg dummy user auth xmit_seq max_priv i w)
  unfolding open_session
  open_session-AtMostOne dummy user auth xmit_seq max_priv i =
      >>=-Allows (or_panic (get_elem? w.lan.sessions i))
        (λ s. return_rsp_data-AtMostOne w _ msg dummy refl _)

  activate_user-AtMostOne :
      (user : User) (auth : ℕ) → Allows (AtMostOne w) (activate_user env msg user auth w)
  unfolding activate_user
  activate_user-AtMostOne user auth =
      let xmit_seq = uint32_at msg.bytes (msg.data_start + 18) in
      let max_priv = low_bits (byte msg (msg.data_start + 1)) 4 in
      let dummy = local (temporary_session msg xmit_seq) in
      if-Allows (leb max_sessions w.lan.active_sessions) (allowed (unsent w)) (
        if-Allows (xmit_seq == 0) (return_err-AtMostOne w w msg dummy refl _) (
          if-Allows (user.privilege == 0xf || ltb user.max_priv max_priv)
            (return_err-AtMostOne w w msg dummy refl _)
            (option-Allows (find_free_session w.lan)
              (λ _. return_err-AtMostOne w w msg dummy refl _)
              (λ i _. open_session-AtMostOne dummy user auth xmit_seq max_priv i))))

  activate_new-AtMostOne : Allows (AtMostOne w) (activate_new env msg w)
  unfolding activate_new
  activate_new-AtMostOne = search (rules, activate_user-AtMostOne) depth 12

  activate_again-AtMostOne : Allows (AtMostOne w) (activate_again msg w)
  unfolding activate_again
  activate_again-AtMostOne =
      option-Allows (sid_to_session w.lan msg.sid) (λ _. allowed (unsent w))
        (λ x _. return_rsp_data-AtMostOne w _ msg (slot x.0) refl _)

  change_privilege-AtMostOne :
      (i : ℕ) (s : Session) (priv : ℕ) → Allows (AtMostOne w) (change_privilege msg i s priv w)
  unfolding change_privilege
  change_privilege-AtMostOne i s priv = search rules depth 12

  close_target-AtMostOne : (i j : ℕ) → Allows (AtMostOne w) (close_target msg i j w)
  unfolding close_target
  close_target-AtMostOne i j = and-Allows (return_err-AtMostOne w w msg _ refl 0) (λ u h. allowed h)

  close_from-AtMostOne : (i sid : ℕ) (s : Session) → Allows (AtMostOne w) (close_from msg i s sid w)
  unfolding close_from
  close_from-AtMostOne i sid s = if-Allows (sid == s.sid) (close_target-AtMostOne i i) (
      if-Allows (not (s.priv == privilege_admin)) (return_err-AtMostOne w w msg (slot i) refl _) (
        option-Allows (sid_to_session w.lan sid) (λ _. return_err-AtMostOne w w msg (slot i) refl _)
          (λ x _. close_target-AtMostOne i x.0)))

pub activate_session-RepliesOnce : RepliesOnce activate_session
unfolding activate_session
activate_session-RepliesOnce env msg w =
    search (rules, activate_new-AtMostOne, activate_again-AtMostOne)

pub set_session_privilege-RepliesOnce : RepliesOnce set_session_privilege
unfolding set_session_privilege
set_session_privilege-RepliesOnce env msg w =
    if-Allows (ltb msg.data_len 1) (return_err-AtMostOne w w msg nil refl _) (
      option-Allows (sid_to_session w.lan msg.sid) (λ _. allowed (unsent w))
        (λ x _. change_privilege-AtMostOne env msg w x.0 x.1 _))

pub close_session-RepliesOnce : RepliesOnce close_session
unfolding close_session
close_session-RepliesOnce env msg w = search (rules, close_from-AtMostOne) depth 12
