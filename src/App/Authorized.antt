-- ===== src/App/Authorized.antt =====
-- The session commands of ipmi_internal_app.go, and the sessions that they may change.
use ipmigod.Base.{
  ℕ, ◌+◌, ◌≤◌, ◌≡◌, refl, sym, ◌∙◌, ap, ◌⊎◌, inl, inr, true, false, not, ◌||◌, ltb, leb, ◌==◌, some,
  [], ◌∷◌, get_elem?, modify, some_injective, Safe, returned, if-Safe, option-Safe, or_panic-Safe,
  >>=-Safe, Returns-Safe, or_panic-ends, arith,
}
use mathlib.Core.Path.{subst}
use ipmigod.Protodefs.{privilege_callback, privilege_admin}
use ipmigod.Protodefs.App.{activate_session_cmd, set_session_privilege_cmd, close_session_cmd}
use ipmigod.Wire.{Bytes, shr, low_bits, uint32_at}
use ipmigod.Lanserv.{User, Session, sid_to_session, find_free_session, max_sessions, max_users}
use ipmigod.Lanserv.Lookup.{sid_to_session_iff, find_free_session-inactive}
use ipmigod.Message.{Msg, byte}
use ipmigod.World.{World, Env, SessionRef, slot, return_err, return_rsp_data}
use ipmigod.World.Frame.{Fits, return_err-keeps, return_rsp_data-keeps}
use ipmigod.App.Guards.{lacks_auth}
use ipmigod.App.Challenge.{
  get_channel_auth_capabilities, channel_auth_reply, get_session_challenge, challenge_user,
}
use ipmigod.App.Activate.{
  opened, open_slot, open_session, activate_user, activate_new, activate_again, activate_session,
}
use ipmigod.App.Control.{
  change_privilege, set_session_privilege, close_slot, close_target, close_from, close_session,
}
use ipmigod.App.Step.{
  Kept, Kept-refl, Pointwise, Pointwise-refl, modify-Pointwise, SessionStep, keeps, opens, moves,
  closes, Asks, Sends, Authorized, SameSessions, SameSessions-refl, SameSessions-IsStable,
  Authorized-IsStable,
}

module _ (w u : World) (msg : Msg) (h : Authorized w msg u) where
  err_ends : (ref : SessionRef) (err : ℕ) → Safe (Authorized w msg) (return_err msg ref err u)
  err_ends ref err =
      Returns-Safe (return_err-keeps (Authorized w msg) (Authorized-IsStable w msg) u h msg ref err)

  rsp_ends :
      (ref : SessionRef) (bytes : Bytes)
      → Fits bytes
      → Safe (Authorized w msg) (return_rsp_data msg ref bytes u)
  rsp_ends ref bytes fits =
      Returns-Safe (
        return_rsp_data-keeps (Authorized w msg) (Authorized-IsStable w msg) u h msg ref bytes fits)

-- The session that a message comes in.
found-Sends :
    (w : World) (msg : Msg) (i : ℕ) (s : Session)
    → sid_to_session w.lan msg.sid ≡ some (i, s)
    → Sends w.lan msg s
found-Sends w msg i s e =
    let (_, _, at, up, named) = (sid_to_session_iff w.lan msg.sid i s).0 e in
    record { index = i; placed = at; is_open = up; named = named }

module _ (w : World) (msg : Msg) where
  same : Authorized w msg w
  same = (refl, Pointwise-refl (SessionStep w.lan msg) w.lan.sessions (λ s. keeps (Kept-refl s)))

  -- A write to one slot.
  written :
      (i : ℕ) (f : Session → Session)
      → ((s : Session) → get_elem? w.lan.sessions i ≡ some s → SessionStep w.lan msg s (f s))
      → Pointwise (SessionStep w.lan msg) w.lan.sessions (modify w.lan.sessions i f)
  written i f step =
      modify-Pointwise (λ s t. s ≡ t) (SessionStep w.lan msg) w.lan.sessions w.lan.sessions i f
        (λ s t e. keeps (s.xmit_seq, sym e))
        (λ s t at e. subst (λ t. SessionStep w.lan msg s (f t)) e (step s at))
        (Pointwise-refl _ w.lan.sessions (λ s. refl))

module _ (env : Env) (msg : Msg) (w : World) where
  pub get_channel_auth_capabilities-Authorized :
      Safe (Authorized w msg) (get_channel_auth_capabilities env msg w)
  unfolding get_channel_auth_capabilities channel_auth_reply
  get_channel_auth_capabilities-Authorized =
      search (if-Safe, option-Safe, returned, err_ends, rsp_ends, same, arith) depth 12

  pub get_session_challenge-Authorized : Safe (Authorized w msg) (get_session_challenge env msg w)
  unfolding get_session_challenge challenge_user
  get_session_challenge-Authorized =
      search (if-Safe, option-Safe, returned, err_ends, rsp_ends, same, arith) depth 12

  module _ (asks : Asks activate_session_cmd msg) where
    module _ (k : ℕ) (user : User) (known : get_elem? w.lan.users k ≡ some user)
        (valid : user.valid ≡ true) where
      open_session-Authorized :
          (dummy : SessionRef) (auth xmit_seq max_priv i : ℕ)
          → (user.privilege == 0xf || ltb user.max_priv max_priv) ≡ false
          → find_free_session w.lan ≡ some i
          → Safe (Authorized w msg) (open_session env msg dummy user auth xmit_seq max_priv i w)
      unfolding open_session open_slot opened
      open_session-Authorized dummy auth xmit_seq max_priv i allowed free =
          let (_, (t, at, idle)) = find_free_session-inactive w.lan i free in
          >>=-Safe _ (or_panic-ends (get_elem? w.lan.sessions i)) λ s _.
            rsp_ends w _ msg
              (
                refl,
                written w msg i _ λ s here. opens asks (record {
                  was_free = ap (λ s. s.active) (some_injective (sym here ∙ at)) ∙ idle;
                  index = k;
                  user = user;
                  known = known;
                  valid = valid;
                  owner = refl;
                  limit = ground arith;
                  starts = refl;
                }),
              )
              dummy _ (omega arith)

      activate_user-Authorized :
          (auth : ℕ) → Safe (Authorized w msg) (activate_user env msg user auth w)
      unfolding activate_user
      activate_user-Authorized auth =
          let xmit_seq = uint32_at msg.bytes (msg.data_start + 18) in
          let max_priv = low_bits (byte msg (msg.data_start + 1)) 4 in
          if-Safe (leb max_sessions w.lan.active_sessions) (λ _. returned (same w msg))
            λ _.
              if-Safe (xmit_seq == 0) (λ _. err_ends w w msg (same w msg) _ _)
                λ _.
                  if-Safe (user.privilege == 0xf || ltb user.max_priv max_priv)
                    (λ _. err_ends w w msg (same w msg) _ _)
                    λ allowed.
                      option-Safe (find_free_session w.lan) (λ _. err_ends w w msg (same w msg) _ _)
                        (λ i free. open_session-Authorized _ auth xmit_seq max_priv i allowed free)

    activate_new-Authorized : Safe (Authorized w msg) (activate_new env msg w)
    unfolding activate_new
    activate_new-Authorized =
        if-Safe (ltb max_users (low_bits (shr msg.sid 1) 6) || low_bits (shr msg.sid 1) 6 == 0)
          (λ _. returned (same w msg))
          λ _. or_panic-Safe (get_elem? w.lan.users (low_bits (shr msg.sid 1) 6)) λ user known.
            if-Safe
              (not user.valid
                || (lacks_auth user (low_bits (byte msg msg.data_start) 4)
                    || lacks_auth user msg.authtype))
              (λ _. returned (same w msg))
              (λ valid. activate_user-Authorized _ user known (ground arith) _)

    activate_again-Authorized : Safe (Authorized w msg) (activate_again msg w)
    unfolding activate_again
    activate_again-Authorized =
        option-Safe (sid_to_session w.lan msg.sid) (λ _. returned (same w msg))
          λ (i, s) e.
            rsp_ends w _ msg (refl, written w msg i _ (λ t at. keeps (_, refl))) (slot i) _
              (omega arith)

    pub activate_session-Authorized : Safe (Authorized w msg) (activate_session env msg w)
    unfolding activate_session
    activate_session-Authorized =
        search (if-Safe, returned, same, activate_new-Authorized, activate_again-Authorized)

  module _ (asks : Asks set_session_privilege_cmd msg) where
    change_privilege-Authorized :
        (i : ℕ) (s : Session) (priv : ℕ)
        → sid_to_session w.lan msg.sid ≡ some (i, s)
        → Safe (Authorized w msg) (change_privilege msg i s priv w)
    unfolding change_privilege
    change_privilege-Authorized i s priv e =
        let (_, _, at, up, named) = (sid_to_session_iff w.lan msg.sid i s).0 e in
        let refused = err_ends w w msg (same w msg) (slot i) in
        if-Safe (priv == privilege_callback) (λ _. refused 0x80)
          λ ne.
            if-Safe (ltb s.max_priv priv) (λ _. refused 0x81)
              λ le.
                rsp_ends w _ msg
                  (
                    refl,
                    written w msg i (λ t. record t { priv = priv })
                        λ t here.
                          let same_slot = some_injective (sym at ∙ here) in
                          moves asks (ap (λ s. s.active) (sym same_slot) ∙ up)
                            (ap (λ s. s.sid) (sym same_slot) ∙ named) priv t.xmit_seq
                            (subst (λ s. priv ≤ s.max_priv) same_slot (ground arith)) (ground arith)
                            refl,
                  )
                  (slot i) (0 ∷ priv ∷ []) (omega arith)

    pub set_session_privilege-Authorized : Safe (Authorized w msg) (set_session_privilege env msg w)
    unfolding set_session_privilege
    set_session_privilege-Authorized =
        if-Safe (ltb msg.data_len 1) (λ _. err_ends w w msg (same w msg) _ _)
          λ _.
            option-Safe (sid_to_session w.lan msg.sid) (λ _. returned (same w msg))
              (λ (i, s) e. change_privilege-Authorized i s _ e)

  module _ (asks : Asks close_session_cmd msg) where
    close_target-Authorized :
        (i j : ℕ) (t by : Session)
        → get_elem? w.lan.sessions j ≡ some t
        → t.active ≡ true
        → Sends w.lan msg by
        → (by.sid ≡ t.sid) ⊎ (by.priv ≡ privilege_admin)
        → Safe (Authorized w msg) (close_target msg i j w)
    unfolding close_target close_slot
    close_target-Authorized i j t by at up sends may =
        >>=-Safe (SameSessions w)
          (Returns-Safe (
            return_err-keeps (SameSessions w) (SameSessions-IsStable w) w (SameSessions-refl w) msg
              (slot i) 0))
          λ u (users, h). returned (
            users,
            modify-Pointwise Kept (SessionStep w.lan msg) w.lan.sessions u.lan.sessions j _
                (λ s t k. keeps k)
                (λ s t' here (x, e).
                  let same_slot = some_injective (sym at ∙ here) in
                  closes asks (ap (λ s. s.active) (sym same_slot) ∙ up) by sends
                    (subst (λ s. (by.sid ≡ s.sid) ⊎ (by.priv ≡ privilege_admin)) same_slot may) x
                    (ap {A = Session} (λ s. record s { active = false }) e))
                h,
          )

    close_from-Authorized :
        (i sid : ℕ) (s : Session)
        → sid_to_session w.lan msg.sid ≡ some (i, s)
        → Safe (Authorized w msg) (close_from msg i s sid w)
    unfolding close_from
    close_from-Authorized i sid s e =
        let (_, _, at, up, _) = (sid_to_session_iff w.lan msg.sid i s).0 e in
        let sends = found-Sends w msg i s e in
        let refused = err_ends w w msg (same w msg) (slot i) in
        if-Safe (sid == s.sid) (λ _. close_target-Authorized i i s s at up sends (inl refl))
          λ _.
            if-Safe (not (s.priv == privilege_admin)) (λ _. refused _)
              λ admin.
                option-Safe (sid_to_session w.lan sid) (λ _. refused _)
                  λ (j, t) found.
                    let (_, _, at_j, up_j, _) = (sid_to_session_iff w.lan sid j t).0 found in
                    close_target-Authorized i j t s at_j up_j sends (inr (ground arith))

    pub close_session-Authorized : Safe (Authorized w msg) (close_session env msg w)
    unfolding close_session
    close_session-Authorized =
        if-Safe (ltb msg.data_len 4) (λ _. err_ends w w msg (same w msg) _ _)
          λ _.
            or_panic-Safe (sid_to_session w.lan msg.sid) (λ (i, s) e. close_from-Authorized i _ s e)
