-- ===== src/Lanserv/Lookup.antt =====
-- `findFreeSession` and `sidToSession` on a well-formed table.
use ipmigod.Base.{
  ℕ, suc, ◌≤◌, ◌<◌, ◌≡◌, ◌↔◌, refl, sym, ◌∙◌, inl, inr, true, false, some, Option-cases, List, [],
  ◌∷◌, get_elem?, drop, length, arith,
}
use mathlib.Core.Path.{subst}
use ipmigod.Lanserv.{Session, LanServ, max_sessions, sid_to_session, find_free_session}
use ipmigod.Lanserv.Table.{
  IsValid, Names, count_active, find_free_loop-inactive, find_free_loop-none,
}

get_elem?-drop_one : (ss : List Session) (j : ℕ) → get_elem? (drop 1 ss) j ≡ get_elem? ss (suc j)
get_elem?-drop_one [] j = refl
get_elem?-drop_one (s ∷ ss) j = refl

-- A session that `findFreeSession` returns is in the table, is not session 0 and is not active.
pub find_free_session-inactive :
    (lan : LanServ) (i : ℕ)
    → find_free_session lan ≡ some i
    → (0 < i) × ((s : Session) × (get_elem? lan.sessions i ≡ some s) × (s.active ≡ false))
unfolding find_free_session
find_free_session-inactive lan i e =
    let (j, s, p, q, r) = find_free_loop-inactive (drop 1 lan.sessions) 1 i e in
    let p' : i ≡ suc j = omega arith in
    let at : get_elem? lan.sessions (suc j) ≡ some s =
      sym (get_elem?-drop_one lan.sessions j) ∙ q in
    (omega arith, (s, subst (λ k. get_elem? lan.sessions k ≡ some s) (sym p') at, r))

count_active-drop_one :
    (ss : List Session)
    → (0 < length ss)
    → count_active (drop 1 ss) ≡ length (drop 1 ss)
    → length ss ≤ suc (count_active ss)
count_active-drop_one [] h e = absurd (omega arith)
count_active-drop_one (s ∷ ss) h e = ground arith

-- `findFreeSession` finds one whenever fewer than MAX_SESSIONS sessions are open.
pub find_free_session-IsSome :
    (lan : LanServ)
    → IsValid lan
    → lan.active_sessions < max_sessions
    → (i : ℕ) × (find_free_session lan ≡ some i)
find_free_session-IsSome lan v h = elim (Option-cases (find_free_session lan)) [
  | inl e ↦ absurd (
      omega (
        arith,
        count_active-drop_one lan.sessions (omega arith)
            (find_free_loop-none (drop 1 lan.sessions) 1 (unfold find_free_session in e)),
      ))
  | inr found ↦ found
]

-- `sidToSession` returns the session at an index exactly when the id names that index and the
-- session there is active under that id.
pub sid_to_session_iff :
    (lan : LanServ) (sid i : ℕ) (s : Session)
    → (sid_to_session lan sid ≡ some (i, s)) ↔ (
        Names sid i
        × (i ≤ max_sessions)
        × (get_elem? lan.sessions i ≡ some s)
        × (s.active ≡ true)
        × (s.sid ≡ sid))
unfolding sid_to_session
sid_to_session_iff lan sid i s = (λ e. ground arith, λ h. ground arith)
