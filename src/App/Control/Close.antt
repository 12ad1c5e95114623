-- ===== src/App/Control/Close.antt =====
-- Whom `closeSession` of ipmi_internal_app.go closes.
use ipmigod.Base.{
  ℕ, zero, suc, ◌+◌, ◌≤◌, ◌≡◌, ◌≢◌, refl, ap, ◌∙◌, ◌⊎◌, inl, inr, Bool, false, ltb, not, ◌==◌,
  ==_iff, none, some, Option-cases, List, [], ◌∷◌, get_elem?, modify, get_elem?-modify_self,
  Returns, returns, if-Returns, >>=-Returns, arith,
}
use mathlib.Core.Path.{subst}
use ipmigod.Protodefs.{privilege_admin}
use ipmigod.Wire.{uint32_at}
use ipmigod.Lanserv.{Session, sid_to_session}
use ipmigod.Lanserv.Table.{IsValid, Names}
use ipmigod.Lanserv.Lookup.{sid_to_session_iff}
use ipmigod.Message.{Msg}
use ipmigod.World.{World, Env, slot, bump_xmit_seq, return_err}
use ipmigod.World.Frame.{IsStable, return_err-keeps}
use ipmigod.App.Control.{close_slot, close_target, close_from, close_session}
use ipmigod.App.Invariant.{
  IsOpen, IsOpen-IsStable, close_slot-IsValid, close_slot_counts, found_IsOpen,
}

-- Which sessions are active, by index, and how many the server counts.
abbrev pub activity : List Session → List Bool
activity [] = []
activity (s ∷ ss) = s.active ∷ activity ss

abbrev pub SameActivity : World → World → Type 0
SameActivity w w' =
    (activity w'.lan.sessions ≡ activity w.lan.sessions)
    × (w'.lan.active_sessions ≡ w.lan.active_sessions)

activity-modify :
    (ss : List Session) (i : ℕ) (f : Session → Session)
    → ((s : Session) → (f s).active ≡ s.active)
    → activity (modify ss i f) ≡ activity ss
activity-modify [] i f same = refl
activity-modify (s ∷ ss) zero f same = rw (same s)
activity-modify (s ∷ ss) (suc i) f same = ap (◌∷◌ s.active) (activity-modify ss i f same)

SameActivity-IsStable : (w : World) → IsStable (SameActivity w)
unfolding bump_xmit_seq
SameActivity-IsStable w = record {
  sends = λ u p h. h;
  bumps = λ u i h. (activity-modify u.lan.sessions i bump_xmit_seq (λ s. refl) ∙ h.0, h.1);
}

-- A session that is no administrator's and asks to close another id changes no session's activity.
pub close_session-refuses :
    (env : Env) (msg : Msg) (w : World) (i : ℕ) (s : Session)
    → sid_to_session w.lan msg.sid ≡ some (i, s)
    → s.priv ≢ privilege_admin
    → uint32_at msg.bytes msg.data_start ≢ s.sid
    → Returns (SameActivity w) (close_session env msg w)
unfolding close_session close_from
close_session-refuses env msg w i s e user other = rw e (
    if-Returns (ltb msg.data_len 4) (λ _. refused _)
      λ _.
        if-Returns (uint32_at msg.bytes msg.data_start == s.sid)
          (λ p. absurd (other ((==_iff _ _).0 p)))
          λ _.
            if-Returns (not (s.priv == privilege_admin)) (λ _. refused _)
              λ p. absurd (user (ground arith)))
  where
    refused : (err : ℕ) → Returns (SameActivity w) (return_err msg (slot i) err w)
    refused err = return_err-keeps _ (SameActivity-IsStable w) w (refl, refl) msg (slot i) err

-- The id leads to no session, and one session fewer is counted.
abbrev pub IsClosed : ℕ → ℕ → World → Type 0
IsClosed sid before w =
    (sid_to_session w.lan sid ≡ none) × (w.lan.active_sessions + 1 ≡ before) × IsValid w.lan

IsClosed-close_slot :
    (w : World) (j sid before : ℕ)
    → Names sid j
    → IsOpen j w
    → w.lan.active_sessions ≡ before
    → IsClosed sid before (record w { lan = close_slot w.lan j })
unfolding close_slot
IsClosed-close_slot w j sid before names open_j count =
    let v = close_slot-IsValid w j open_j in
    (
      elim (Option-cases (sid_to_session (close_slot w.lan j) sid)) [
        | inl gone ↦ gone
        | inr (x, e) ↦
            let h = (sid_to_session_iff (close_slot w.lan j) sid x.0 x.1).0 e in
            let p : x.0 ≡ j = omega (arith, h.0, names) in
            let (_, (s, at, on)) = open_j in
            let shut =
              get_elem?-modify_self w.lan.sessions j (λ t. record t { active = false }) s at in
            let here : get_elem? (close_slot w.lan j).sessions j ≡ some x.1 =
              subst (λ k. get_elem? (close_slot w.lan j).sessions k ≡ some x.1) p h.2 in
            absurd (ground (arith, h.3, shut, here))
      ],
      rw (← count) (close_slot_counts w j open_j),
      v,
    )

module _ (msg : Msg) (w : World) (i j sid : ℕ) where
  close_target-closes :
      Names sid j
      → IsOpen j w
      → Returns (IsClosed sid w.lan.active_sessions) (close_target msg i j w)
  unfolding close_target
  close_target-closes names open_j =
      >>=-Returns Counted (return_err-keeps Counted stable w (open_j, refl) msg (slot i) 0)
        (λ u h. returns (IsClosed-close_slot u j sid w.lan.active_sessions names h.0 h.1))
    where
      Counted : World → Type 0
      Counted u = IsOpen j u × (u.lan.active_sessions ≡ w.lan.active_sessions)

      stable : IsStable Counted
      stable = record {
        sends = λ u p h. ((IsOpen-IsStable j).sends u p h.0, h.1);
        bumps = λ u k h. ((IsOpen-IsStable j).bumps u k h.0, h.1);
      }

-- `closeSession` in a session whose id is asked for, or in an administrator's session, closes the
-- session that the asked id names: the id then leads to no session, one session fewer is counted,
-- and the tables stay well-formed.
pub close_session-closes :
    (env : Env) (msg : Msg) (w : World) (x target : ℕ × Session)
    → IsValid w.lan
    → 4 ≤ msg.data_len
    → sid_to_session w.lan msg.sid ≡ some x
    → sid_to_session w.lan (uint32_at msg.bytes msg.data_start) ≡ some target
    → (uint32_at msg.bytes msg.data_start ≡ msg.sid) ⊎ (x.1.priv ≡ privilege_admin)
    → Returns
        (IsClosed (uint32_at msg.bytes msg.data_start) w.lan.active_sessions)
        (close_session env msg w)
unfolding close_session close_from
close_session-closes env msg w x target v len e f right =
    let asked = uint32_at msg.bytes msg.data_start in
    let own = (sid_to_session_iff w.lan msg.sid x.0 x.1).0 e in
    let other = (sid_to_session_iff w.lan asked target.0 target.1).0 f in
    let short : ltb msg.data_len 4 ≡ false = ground arith in
    rw (short, e)
      (if-Returns (asked == x.1.sid)
        (λ p.
          let q : asked ≡ msg.sid = (==_iff asked x.1.sid).0 p ∙ own.4 in
          close_target-closes msg w x.0 x.0 asked (rw q own.0)
            (found_IsOpen env msg w v msg.sid x e))
        λ p.
          if-Returns (not (x.1.priv == privilege_admin)) (λ q. absurd (ground (arith, own.4)))
            λ _. rw f (
              close_target-closes msg w x.0 target.0 asked other.0
                (found_IsOpen env msg w v asked target f)))
