-- ===== src/App/Invariant.antt =====
-- The commands of ipmi_internal_app.go and the user and session tables.
use ipmigod.Base.{
  ℕ, ◌+◌, ◌≡◌, refl, true, false, some, get_elem?, modify, length-modify, get_elem?-IsSome_of_lt,
  get_elem?-modify_self, get_elem?-modify_ne, >>=-Returns, inl, ◌∙◌, Returns, returns, if-Returns,
  option-Returns, leb, arith,
}
use ipmigod.Lanserv.{User, Session, LanServ, max_sessions, find_free_session, sid_to_session}
use ipmigod.Lanserv.Table.{
  IsValid, SlotIsValid, modify-SlotsAreValid, count_active-modify_same, count_active-modify_close,
  count_active-le-length,
}
use ipmigod.Lanserv.Lookup.{find_free_session-inactive, sid_to_session_iff}
use native.Mathlib.Decide.{ℕ_discrete}
use ipmigod.Message.{Msg}
use ipmigod.Wire.{uint32_at, Bytes, low_bits, shr}
use ipmigod.World.{World, Env, return_err, return_rsp_data, SessionRef, slot, bump_xmit_seq}
use ipmigod.World.Frame.{IsStable, Fits, return_err-keeps, return_rsp_data-keeps}
use ipmigod.App.Activate.{
  open_session, activate_user, activate_new, activate_again, activate_session,
}
use ipmigod.App.Activate.Opened.{open_slot-IsValid}
use ipmigod.App.Control.{
  change_privilege, set_session_privilege, close_slot, close_target, close_from, close_session,
}
use ipmigod.App.Challenge.{
  get_channel_auth_capabilities, channel_auth_reply, get_session_challenge, challenge_user,
}

-- The tables of the server are well-formed.
abbrev pub TablesAreValid : World → Type 0
TablesAreValid w = IsValid w.lan

-- A write to one session that leaves handle, id, kind and activity alone.
pub modify-IsValid :
    (lan : LanServ) (i : ℕ) (f : Session → Session)
    → ((s : Session) → (f s).active ≡ s.active)
    → ((j : ℕ) (s : Session) → SlotIsValid j s → SlotIsValid j (f s))
    → IsValid lan
    → IsValid (record lan { sessions = modify lan.sessions i f })
modify-IsValid lan i f same keep v = record {
  session_slots = omega (arith, length-modify lan.sessions i f);
  user_slots = v.user_slots;
  counted = omega (arith, count_active-modify_same lan.sessions i f same);
  placed = modify-SlotsAreValid lan.sessions 0 i i f (omega arith) (keep i) v.placed;
}

-- Replies keep the tables well-formed.
pub TablesAreValid-IsStable : IsStable TablesAreValid
unfolding bump_xmit_seq
TablesAreValid-IsStable = record {
  sends = λ w p v. v;
  bumps = λ w i v. modify-IsValid w.lan i bump_xmit_seq (λ s. refl) (λ j s h. h) v;
}

module _ (w : World) (v : TablesAreValid w) where
  err_keeps :
      (msg : Msg) (ref : SessionRef) (err : ℕ) → Returns TablesAreValid (return_err msg ref err w)
  err_keeps = return_err-keeps TablesAreValid TablesAreValid-IsStable w v

  rsp_keeps :
      (msg : Msg) (ref : SessionRef) (bytes : Bytes)
      → Fits bytes
      → Returns TablesAreValid (return_rsp_data msg ref bytes w)
  rsp_keeps = return_rsp_data-keeps TablesAreValid TablesAreValid-IsStable w v

ruleset rules = (if-Returns, option-Returns, returns, err_keeps, rsp_keeps, arith)

module _ (env : Env) (msg : Msg) (w : World) (v : TablesAreValid w) where
  pub get_channel_auth_capabilities-keeps :
      Returns TablesAreValid (get_channel_auth_capabilities env msg w)
  unfolding get_channel_auth_capabilities channel_auth_reply
  get_channel_auth_capabilities-keeps = search rules depth 12

  counter_IsValid : (n : ℕ) → IsValid (record (w.lan) { next_chall_seq = n })
  counter_IsValid n = record {
    session_slots = v.session_slots;
    user_slots = v.user_slots;
    counted = v.counted;
    placed = v.placed;
  }

  pub get_session_challenge-keeps : Returns TablesAreValid (get_session_challenge env msg w)
  unfolding get_session_challenge challenge_user
  get_session_challenge-keeps = search (rules, counter_IsValid) depth 12

  -- The session that the search for a free one finds is there to be opened.
  open_session-keeps :
      (dummy : SessionRef) (user : User) (auth xmit_seq max_priv i : ℕ)
      → find_free_session w.lan ≡ some i
      → leb max_sessions w.lan.active_sessions ≡ false
      → Returns TablesAreValid (open_session env msg dummy user auth xmit_seq max_priv i w)
  unfolding open_session
  open_session-keeps dummy user auth xmit_seq max_priv i free room =
      let (_, (s, at, _)) = find_free_session-inactive w.lan i free in
      rw at (
        rsp_keeps _
          (open_slot-IsValid env w.lan user auth xmit_seq max_priv i v free (ground arith)) msg
          dummy _ (omega arith))

  activate_user-keeps :
      (user : User) (auth : ℕ) → Returns TablesAreValid (activate_user env msg user auth w)
  unfolding activate_user
  activate_user-keeps user auth = search (rules, open_session-keeps) depth 12

  activate_new-keeps : Returns TablesAreValid (activate_new env msg w)
  unfolding activate_new
  activate_new-keeps =
      let (user, at) =
        get_elem?-IsSome_of_lt w.lan.users (low_bits (shr msg.sid 1) 6) (omega arith) in
      rw at (search (rules, activate_user-keeps user) depth 12)

  xmit_IsValid :
      (i x : ℕ)
      → IsValid
          (record (w.lan) { sessions = modify w.lan.sessions i (λ t. record t { xmit_seq = x }) })
  xmit_IsValid i x = modify-IsValid w.lan i _ (λ t. refl) (λ j t h. h) v

  priv_IsValid :
      (i x : ℕ)
      → IsValid (record (w.lan) { sessions = modify w.lan.sessions i (λ t. record t { priv = x }) })
  priv_IsValid i x = modify-IsValid w.lan i _ (λ t. refl) (λ j t h. h) v

  activate_again-keeps : Returns TablesAreValid (activate_again msg w)
  unfolding activate_again
  activate_again-keeps = search (rules, xmit_IsValid) depth 12

  -- `activateSession` on well-formed tables does not panic, and keeps them well-formed.
  pub activate_session-keeps : Returns TablesAreValid (activate_session env msg w)
  unfolding activate_session
  activate_session-keeps = search (rules, activate_new-keeps, activate_again-keeps)

  change_privilege-keeps :
      (i : ℕ) (s : Session) (priv : ℕ) → Returns TablesAreValid (change_privilege msg i s priv w)
  unfolding change_privilege
  change_privilege-keeps i s priv = search (rules, priv_IsValid) depth 12

  pub set_session_privilege-keeps : Returns TablesAreValid (set_session_privilege env msg w)
  unfolding set_session_privilege
  set_session_privilege-keeps = search (rules, change_privilege-keeps) depth 12

-- The session at an index is active, in well-formed tables.
abbrev pub IsOpen : ℕ → World → Type 0
IsOpen j w =
    TablesAreValid w × ((s : Session) × (get_elem? w.lan.sessions j ≡ some s) × (s.active ≡ true))

pub IsOpen-IsStable : (j : ℕ) → IsStable (IsOpen j)
unfolding bump_xmit_seq
IsOpen-IsStable j = record {
  sends = λ w p h. h;
  bumps = λ w i (v, (s, at, on)). (
    TablesAreValid-IsStable.bumps w i v,
    elim (ℕ_discrete i j) [
      | yes e ↦
          (bump_xmit_seq s, rw e (get_elem?-modify_self w.lan.sessions j bump_xmit_seq s at), on)
      | no ne ↦ (s, get_elem?-modify_ne w.lan.sessions i j bump_xmit_seq ne ∙ at, on)
    ],
  );
}

pub close_slot-IsValid : (w : World) (j : ℕ) → IsOpen j w → IsValid (close_slot w.lan j)
unfolding close_slot
close_slot-IsValid w j (v, (s, at, on)) = record {
  session_slots = omega (arith, v.session_slots, length-modify w.lan.sessions j close);
  user_slots = v.user_slots;
  counted = omega (
    arith,
    v.counted,
    v.session_slots,
    count_active-le-length w.lan.sessions,
    count_active-modify_close w.lan.sessions j close s at on refl,
  );
  placed =
      modify-SlotsAreValid w.lan.sessions 0 j j close (omega arith) (λ t h. (h.0, h.1, inl refl))
        v.placed;
}
  where
    close : Session → Session
    close t = record t { active = false }

-- Closing an active session takes one off the counter, which does not wrap.
pub close_slot_counts :
    (w : World) (j : ℕ)
    → IsOpen j w
    → (close_slot w.lan j).active_sessions + 1 ≡ w.lan.active_sessions
unfolding close_slot
close_slot_counts w j (v, (s, at, on)) =
    let close : Session → Session = λ t. record t { active = false } in
    omega (
      arith,
      v.counted,
      v.session_slots,
      count_active-le-length w.lan.sessions,
      count_active-modify_close w.lan.sessions j close s at on refl,
    )

module _ (env : Env) (msg : Msg) (w : World) (v : TablesAreValid w) where
  close_target-keeps : (i j : ℕ) → IsOpen j w → Returns TablesAreValid (close_target msg i j w)
  unfolding close_target
  close_target-keeps i j open_j =
      >>=-Returns (IsOpen j)
        (return_err-keeps (IsOpen j) (IsOpen-IsStable j) w open_j msg (slot i) 0)
        (λ w' h. returns (close_slot-IsValid w' j h))

  pub found_IsOpen : (sid : ℕ) (x : ℕ × Session) → sid_to_session w.lan sid ≡ some x → IsOpen x.0 w
  found_IsOpen sid x e = let h = (sid_to_session_iff w.lan sid x.0 x.1).0 e in (v, (x.1, h.2, h.3))

  close_other :
      (i sid : ℕ) (x : ℕ × Session)
      → sid_to_session w.lan sid ≡ some x
      → Returns TablesAreValid (close_target msg i x.0 w)
  close_other i sid x e = close_target-keeps i x.0 (found_IsOpen sid x e)

  close_from-keeps :
      (i sid : ℕ) (s : Session) → IsOpen i w → Returns TablesAreValid (close_from msg i s sid w)
  unfolding close_from
  close_from-keeps i sid s open_i =
      search (rules, close_target-keeps i i open_i, close_other i sid) depth 12

  -- `closeSession` on well-formed tables, under the id of an open session, does not panic, and keeps
  -- them well-formed.
  pub close_session-keeps :
      (x : ℕ × Session)
      → sid_to_session w.lan msg.sid ≡ some x
      → Returns TablesAreValid (close_session env msg w)
  unfolding close_session
  close_session-keeps x e = rw e (
      search
        (
          rules,
          close_from-keeps x.0 (uint32_at msg.bytes msg.data_start) x.1 (found_IsOpen msg.sid x e),
        )
        depth 12)
