-- ===== src/Lanserv/Table.antt =====
-- The well-formedness of the user and session tables of `lanserv`, and how a write to one session
-- keeps it.
use ipmigod.Base.{
  ℕ, zero, suc, ◌+◌, ◌≤◌, ◌<◌, ◌≡◌, refl, sym, ◌⊎◌, inl, inr, true, false, Bool-cases, none, some,
  List, [], ◌∷◌, get_elem?, modify, length, if◌then◌else◌, arith,
}
use mathlib.Core.Path.{subst}
use ipmigod.Wire.{shr, low_bits}
use ipmigod.Lanserv.{Session, LanServ, max_users, max_sessions, session_bits_req, find_free_loop}

-- A session id names the slot at index `i`: an even number with the index behind the lowest bit.
abbrev pub Names : ℕ → ℕ → Type 0
Names sid i = (low_bits sid 1 ≡ 0) × (low_bits (shr sid 1) session_bits_req ≡ i)

-- The session at index `i`: its handle is the index, it is no RMCP+ session, and if it is active
-- then it is not session 0 and its id names its slot.
abbrev pub SlotIsValid : ℕ → Session → Type 0
SlotIsValid i s =
    (s.handle ≡ i) × (s.rmcpplus ≡ false) × ((s.active ≡ false) ⊎ ((0 < i) × Names s.sid i))

-- Every session from index `i` on.
abbrev pub SlotsAreValid : ℕ → List Session → Type 0
SlotsAreValid i [] = Unit {0}
SlotsAreValid i (s ∷ ss) = SlotIsValid i s × SlotsAreValid (suc i) ss

abbrev pub count_active : List Session → ℕ
count_active [] = 0
count_active (s ∷ ss) = if s.active then suc (count_active ss) else count_active ss

pub record IsValid (lan : LanServ) : Type 0 where
  pub session_slots : length lan.sessions ≡ max_sessions + 1
  pub user_slots : length lan.users ≡ max_users + 1
  pub counted : lan.active_sessions ≡ count_active lan.sessions
  pub placed : SlotsAreValid 0 lan.sessions

pub SlotsAreValid-get_elem? :
    (ss : List Session) (k i : ℕ) (s : Session)
    → SlotsAreValid k ss
    → get_elem? ss i ≡ some s
    → SlotIsValid (k + i) s
SlotsAreValid-get_elem? [] k i s v e = cc
SlotsAreValid-get_elem? (x ∷ ss) k zero s v e = ground arith
SlotsAreValid-get_elem? (x ∷ ss) k (suc i) s v e =
    ground (arith, SlotsAreValid-get_elem? ss (suc k) i s v.1 e)

pub modify-SlotsAreValid :
    (ss : List Session) (k i j : ℕ) (f : Session → Session)
    → k + i ≡ j
    → ((s : Session) → SlotIsValid j s → SlotIsValid j (f s))
    → SlotsAreValid k ss
    → SlotsAreValid k (modify ss i f)
modify-SlotsAreValid [] k i j f e keep v = tt
modify-SlotsAreValid (x ∷ ss) k zero j f e keep v =
    let p : j ≡ k = omega arith in
    (subst (λ n. SlotIsValid n (f x)) p (keep x (subst (λ n. SlotIsValid n x) (sym p) v.0)), v.1)
modify-SlotsAreValid (x ∷ ss) k (suc i) j f e keep v =
    (v.0, modify-SlotsAreValid ss (suc k) i j f (omega arith) keep v.1)

-- A write that leaves `active` alone keeps the number of active sessions.
pub count_active-modify_same :
    (ss : List Session) (i : ℕ) (f : Session → Session)
    → ((s : Session) → (f s).active ≡ s.active)
    → count_active (modify ss i f) ≡ count_active ss
count_active-modify_same [] i f same = refl
count_active-modify_same (x ∷ ss) zero f same = rw (same x)
count_active-modify_same (x ∷ ss) (suc i) f same = rw (count_active-modify_same ss i f same)

pub count_active-modify_open :
    (ss : List Session) (i : ℕ) (f : Session → Session) (s : Session)
    → get_elem? ss i ≡ some s
    → s.active ≡ false
    → (f s).active ≡ true
    → count_active (modify ss i f) ≡ suc (count_active ss)
count_active-modify_open [] i f s e was now = cc
count_active-modify_open (x ∷ ss) zero f s e was now = let p : x ≡ s = cc in rw (p, now, was)
count_active-modify_open (x ∷ ss) (suc i) f s e was now =
    ground (arith, count_active-modify_open ss i f s e was now)

pub count_active-modify_close :
    (ss : List Session) (i : ℕ) (f : Session → Session) (s : Session)
    → get_elem? ss i ≡ some s
    → s.active ≡ true
    → (f s).active ≡ false
    → suc (count_active (modify ss i f)) ≡ count_active ss
count_active-modify_close [] i f s e was now = cc
count_active-modify_close (x ∷ ss) zero f s e was now = let p : x ≡ s = cc in rw (p, now, was)
count_active-modify_close (x ∷ ss) (suc i) f s e was now =
    ground (arith, count_active-modify_close ss i f s e was now)

pub count_active-le-length : (ss : List Session) → count_active ss ≤ length ss
count_active-le-length [] = omega arith
count_active-le-length (s ∷ ss) = ground (arith, count_active-le-length ss)

-- What the search for a free session returns: an index of an inactive session.
pub find_free_loop-inactive :
    (ss : List Session) (k i : ℕ)
    → find_free_loop k ss ≡ some i
    → (j : ℕ) × (s : Session) × (i ≡ k + j) × (get_elem? ss j ≡ some s) × (s.active ≡ false)
unfolding find_free_loop
find_free_loop-inactive [] k i e = cc
find_free_loop-inactive (x ∷ ss) k i e = elim (Bool-cases x.active) [
  | inl busy ↦
      let (j, s, p, q, r) = find_free_loop-inactive ss (suc k) i (ground arith) in
      (suc j, s, omega arith, q, r)
  | inr idle ↦ (0, x, ground arith, refl, idle)
]

-- The search fails only where every session is active.
pub find_free_loop-none :
    (ss : List Session) (k : ℕ) → find_free_loop k ss ≡ none → count_active ss ≡ length ss
unfolding find_free_loop
find_free_loop-none [] k e = refl
find_free_loop-none (x ∷ ss) k e = ground (arith, find_free_loop-none ss (suc k))
