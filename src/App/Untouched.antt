-- ===== src/App/Untouched.antt =====
-- The commands of ipmi_internal_app.go, and the event log and the SDR repository.
use ipmigod.Base.{
  ℕ, ◌≡◌, refl, none, some, get_elem?, Outcome, Safe, returned, panicked, if-Safe, option-Safe,
  or_panic-Safe, or_panic-ends, >>=-Safe, Returns-Safe, Returns, Returns-both, Returns-map, sym,
  arith, Option-cases, inl, inr,
}
use mathlib.Core.Path.{subst}
use ipmigod.Wire.{Bytes}
use ipmigod.Lanserv.{User, Session, sid_to_session}
use ipmigod.Message.{Msg}
use ipmigod.World.{World, Env, SessionRef, nil, slot, return_err, return_rsp_data}
use ipmigod.World.Frame.{IsStable, Fits, return_err-keeps, return_rsp_data-keeps}
use ipmigod.App.Challenge.{
  get_channel_auth_capabilities, channel_auth_reply, get_session_challenge, challenge_user,
}
use ipmigod.App.Activate.{
  open_session, activate_user, activate_new, activate_again, activate_session,
}
use ipmigod.App.Control.{
  change_privilege, set_session_privilege, close_target, close_from, close_session,
}
use ipmigod.App.Invariant.{
  TablesAreValid, get_channel_auth_capabilities-keeps, get_session_challenge-keeps,
  activate_session-keeps, set_session_privilege-keeps, close_session-keeps,
}
use ipmigod.Bmc.EventLog.{EventLogIsValid}
use ipmigod.Storage.Sdr.Walk.{SdrsAreLinked}
use ipmigod.Base.{ltb}
use ipmigod.Storage.Validity.{ServerIsValid, ServerIsValid-IsStable}

-- The event log and the SDR repository are those of an earlier state.
abbrev pub SameStorage : World → World → Type 0
SameStorage w w' = (w'.sel ≡ w.sel) × (w'.main_sdrs ≡ w.main_sdrs)

SameStorage-IsStable : (w : World) → IsStable (SameStorage w)
SameStorage-IsStable w = record { sends = λ u p h. h; bumps = λ u i h. h }

module _ (w u : World) (h : SameStorage w u) where
  err_ends :
      (msg : Msg) (ref : SessionRef) (err : ℕ) → Safe (SameStorage w) (return_err msg ref err u)
  err_ends msg ref err =
      Returns-Safe (return_err-keeps (SameStorage w) (SameStorage-IsStable w) u h msg ref err)

  rsp_ends :
      (msg : Msg) (ref : SessionRef) (bytes : Bytes)
      → Fits bytes
      → Safe (SameStorage w) (return_rsp_data msg ref bytes u)
  rsp_ends msg ref bytes fits =
      Returns-Safe
        (return_rsp_data-keeps (SameStorage w) (SameStorage-IsStable w) u h msg ref bytes fits)

ruleset rules = (if-Safe, option-Safe, returned, err_ends, rsp_ends, arith)

module _ (env : Env) (msg : Msg) (w : World) where
  pub get_channel_auth_capabilities-SameStorage :
      Safe (SameStorage w) (get_channel_auth_capabilities env msg w)
  unfolding get_channel_auth_capabilities channel_auth_reply
  get_channel_auth_capabilities-SameStorage = search rules depth 12

  pub get_session_challenge-SameStorage : Safe (SameStorage w) (get_session_challenge env msg w)
  unfolding get_session_challenge challenge_user
  get_session_challenge-SameStorage = search rules depth 12

  open_session-SameStorage :
      (dummy : SessionRef) (user : User) (auth xmit_seq max_priv i : ℕ)
      → Safe (SameStorage w) (open_session env msg dummy user auth xmit_seq max_priv i w)
  unfolding open_session
  open_session-SameStorage dummy user auth xmit_seq max_priv i =
      >>=-Safe _ (or_panic-ends (get_elem? w.lan.sessions i))
        λ s _. rsp_ends w _ (refl, refl) msg dummy _ (omega arith)

  activate_user-SameStorage :
      (user : User) (auth : ℕ) → Safe (SameStorage w) (activate_user env msg user auth w)
  unfolding activate_user
  activate_user-SameStorage user auth = search (rules, open_session-SameStorage) depth 12

  activate_new-SameStorage : Safe (SameStorage w) (activate_new env msg w)
  unfolding activate_new
  activate_new-SameStorage = search (rules, or_panic-Safe, activate_user-SameStorage) depth 12

  activate_again-SameStorage : Safe (SameStorage w) (activate_again msg w)
  unfolding activate_again
  activate_again-SameStorage = search rules depth 12

  pub activate_session-SameStorage : Safe (SameStorage w) (activate_session env msg w)
  unfolding activate_session
  activate_session-SameStorage =
      search (rules, activate_new-SameStorage, activate_again-SameStorage)

  change_privilege-SameStorage :
      (i : ℕ) (s : Session) (priv : ℕ) → Safe (SameStorage w) (change_privilege msg i s priv w)
  unfolding change_privilege
  change_privilege-SameStorage i s priv = search rules depth 12

  pub set_session_privilege-SameStorage : Safe (SameStorage w) (set_session_privilege env msg w)
  unfolding set_session_privilege
  set_session_privilege-SameStorage = search (rules, change_privilege-SameStorage) depth 12

  close_target-SameStorage : (i j : ℕ) → Safe (SameStorage w) (close_target msg i j w)
  unfolding close_target
  close_target-SameStorage i j =
      >>=-Safe (SameStorage w) (err_ends w w (refl, refl) msg (slot i) 0) (λ u h. returned h)

  close_from-SameStorage :
      (i sid : ℕ) (s : Session) → Safe (SameStorage w) (close_from msg i s sid w)
  unfolding close_from
  close_from-SameStorage i sid s = search (rules, close_target-SameStorage) depth 12

  pub close_session-SameStorage : Safe (SameStorage w) (close_session env msg w)
  unfolding close_session
  close_session-SameStorage = search (rules, or_panic-Safe, close_from-SameStorage) depth 12

-- A state with the event log and the repository of a well-formed one is well-formed when its tables
-- are.
same_storage :
    (w w' : World) → ServerIsValid w → TablesAreValid w' × SameStorage w w' → ServerIsValid w'
same_storage w w' v (t, (log, repository)) = record {
  tables = t;
  log = subst EventLogIsValid (sym log) v.log;
  repository = subst SdrsAreLinked (sym repository) v.repository;
}

kept :
    (w : World) {m : Outcome World}
    → ServerIsValid w
    → Returns TablesAreValid m
    → Safe (SameStorage w) m
    → Returns ServerIsValid m
kept w v t s = Returns-map (λ u. same_storage w u v) (Returns-both t s)

module _ (env : Env) (msg : Msg) (w : World) (v : ServerIsValid w) where
  pub get_channel_auth_capabilities-ServerIsValid :
      Returns ServerIsValid (get_channel_auth_capabilities env msg w)
  get_channel_auth_capabilities-ServerIsValid =
      kept w v (get_channel_auth_capabilities-keeps env msg w v.tables)
        (get_channel_auth_capabilities-SameStorage env msg w)

  pub get_session_challenge-ServerIsValid : Returns ServerIsValid (get_session_challenge env msg w)
  get_session_challenge-ServerIsValid =
      kept w v (get_session_challenge-keeps env msg w v.tables)
        (get_session_challenge-SameStorage env msg w)

  pub activate_session-ServerIsValid : Returns ServerIsValid (activate_session env msg w)
  activate_session-ServerIsValid =
      kept w v (activate_session-keeps env msg w v.tables) (activate_session-SameStorage env msg w)

  pub set_session_privilege-ServerIsValid : Returns ServerIsValid (set_session_privilege env msg w)
  set_session_privilege-ServerIsValid =
      kept w v (set_session_privilege-keeps env msg w v.tables)
        (set_session_privilege-SameStorage env msg w)

  -- In a live session.
  pub close_session-ServerIsValid :
      (x : ℕ × Session)
      → sid_to_session w.lan msg.sid ≡ some x
      → Returns ServerIsValid (close_session env msg w)
  close_session-ServerIsValid x e =
      kept w v (close_session-keeps env msg w v.tables x e) (close_session-SameStorage env msg w)

  -- A message under an id that no session has.
  stray_close : sid_to_session w.lan msg.sid ≡ none → Safe ServerIsValid (close_session env msg w)
  unfolding close_session
  stray_close gone = rw gone (
      if-Safe (ltb msg.data_len 4)
        (λ _. Returns-Safe (return_err-keeps ServerIsValid ServerIsValid-IsStable w v msg nil _))
        (λ _. panicked))

  pub close_session-Safe : Safe ServerIsValid (close_session env msg w)
  close_session-Safe = elim (Option-cases (sid_to_session w.lan msg.sid)) [
    | inl gone ↦ stray_close gone
    | inr (x, e) ↦ Returns-Safe (close_session-ServerIsValid x e)
  ]
