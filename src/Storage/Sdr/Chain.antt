-- ===== src/Storage/Sdr/Chain.antt =====
-- The linked list of SDRs as a list of cells: the nodes that a walk from the head visits, in order.
use ipmigod.Base.{
  ℕ, zero, suc, ◌+◌, ◌≤◌, ◌<◌, ◌≡◌, refl, ◌∙◌, ap, sym, Bool, ◌==◌, if◌then◌else◌, Option, none,
  some, List, [], ◌∷◌, ◌++◌, get_elem?, modify, length, ok, get_elem?-modify_self,
  get_elem?-modify_ne, lt-length_of_get_elem?, get_elem?-append_left, arith, ==_iff, ==_of_ne,
}
use mathlib.Core.Path.{subst}
use native.Mathlib.Decide.{ℕ_discrete}
use ipmigod.Bmc.{Sdr}
use ipmigod.Storage.Sdr.{find_sdr}

-- A node with its index.
abbrev pub Cell : Type 0
Cell = ℕ × Sdr

-- From a pointer the `next` fields lead through the cells, at ascending indices from `k` on, to nil.
pub data Chain (nodes : List Sdr) : ℕ → Option ℕ → List Cell → Type 0 where
  last : {k : ℕ} → Chain nodes k none []
  link :
      {k i : ℕ} {s : Sdr} {xs : List Cell}
      → k ≤ i
      → get_elem? nodes i ≡ some s
      → Chain nodes (suc i) s.next xs
      → Chain nodes k (some i) ((i, s) ∷ xs)

-- The first cell whose node passes a test.
abbrev pub find_cell : (Sdr → Bool) → List Cell → Option Cell
find_cell p [] = none
find_cell p ((i, s) ∷ xs) = if p s then some (i, s) else find_cell p xs

abbrev pub last_index : List Cell → Option ℕ
last_index [] = none
last_index ((i, s) ∷ []) = some i
last_index (x ∷ y ∷ xs) = last_index (y ∷ xs)

-- A walk visits the cells.
pub find_sdr-Chain :
    (p : Sdr → Bool) (fuel : ℕ) {nodes : List Sdr} {k : ℕ} {ptr : Option ℕ} {xs : List Cell}
    → Chain nodes k ptr xs
    → length nodes ≤ k + fuel
    → find_sdr p fuel nodes ptr ≡ ok (find_cell p xs)
unfolding find_sdr
find_sdr-Chain p zero last enough = refl
find_sdr-Chain p (suc fuel) last enough = refl
find_sdr-Chain p zero {nodes} (link {i = i} {s = s} lo at rest) enough =
    absurd (omega (arith, lt-length_of_get_elem? nodes i s at))
find_sdr-Chain p (suc fuel) (link {s = s} lo at rest) enough =
    ground (arith, find_sdr-Chain p fuel rest)

-- Nodes allocated behind the others are not in the chain.
pub append-Chain :
    (new : List Sdr) {nodes : List Sdr} {k : ℕ} {ptr : Option ℕ} {xs : List Cell}
    → Chain nodes k ptr xs
    → Chain (nodes ++ new) k ptr xs
append-Chain new last = last
append-Chain new {nodes} (link {i = i} {s = s} lo at rest) =
    link lo (get_elem?-append_left nodes new i (lt-length_of_get_elem? nodes i s at) ∙ at)
      (append-Chain new rest)

-- A write to a node before the chain.
pub modify_before-Chain :
    (j : ℕ) (f : Sdr → Sdr) {nodes : List Sdr} {k : ℕ} {ptr : Option ℕ} {xs : List Cell}
    → j < k
    → Chain nodes k ptr xs
    → Chain (modify nodes j f) k ptr xs
modify_before-Chain j f h last = last
modify_before-Chain j f {nodes} h (link {i = i} lo at rest) =
    link lo (get_elem?-modify_ne nodes j i f (λ e. omega (arith, e)) ∙ at)
      (modify_before-Chain j f (omega arith) rest)

-- The node at an index is rewritten in the cells.
abbrev pub update_cell : ℕ → (Sdr → Sdr) → List Cell → List Cell
update_cell j f [] = []
update_cell j f ((i, s) ∷ xs) = (i, if i == j then f s else s) ∷ update_cell j f xs

pub update_before-Chain :
    (j : ℕ) (f : Sdr → Sdr) {nodes : List Sdr} {k : ℕ} {ptr : Option ℕ} {xs : List Cell}
    → j < k
    → Chain nodes k ptr xs
    → update_cell j f xs ≡ xs
update_before-Chain j f h last = refl
update_before-Chain j f {nodes} h (link {i = i} {s = s} {xs = xs} lo at rest) =
    rw (==_of_ne i j (λ e. omega (arith, e)))
      (ap (λ ys. (i, s) ∷ ys) (update_before-Chain j f (omega arith) rest))

-- A write to a node that leaves its link.
pub modify-Chain :
    (j : ℕ) (f : Sdr → Sdr) {nodes : List Sdr} {k : ℕ} {ptr : Option ℕ} {xs : List Cell}
    → ((s : Sdr) → (f s).next ≡ s.next)
    → Chain nodes k ptr xs
    → Chain (modify nodes j f) k ptr (update_cell j f xs)
modify-Chain j f same last = last
modify-Chain j f {nodes} same (link {i = i} {s = s} {xs = xs} lo at rest) =
    let rest' = modify-Chain j f same rest in
    elim (ℕ_discrete i j) [
      | yes e ↦ rw ((==_iff i j).1 e) (
          link lo
            (subst (λ j. get_elem? (modify nodes j f) i ≡ some (f s)) e
              (get_elem?-modify_self nodes i f s at))
            (subst (λ ptr. Chain (modify nodes j f) (suc i) ptr (update_cell j f xs)) (sym (same s))
              rest'))
      | no n ↦
          rw (==_of_ne i j n)
            (link lo (get_elem?-modify_ne nodes j i f (λ e. n (sym e)) ∙ at) rest')
    ]

last_index-Chain :
    {nodes : List Sdr} {k t : ℕ} {ptr : Option ℕ} (xs : List Cell)
    → Chain nodes k ptr xs
    → last_index xs ≡ some t
    → k ≤ t
last_index-Chain [] c e = cc
last_index-Chain (x ∷ []) (link lo at rest) e = ground arith
last_index-Chain (x ∷ y ∷ xs) (link lo at rest) e =
    omega (arith, last_index-Chain (y ∷ xs) rest e, lo)

abbrev pub set_next : ℕ → Sdr → Sdr
set_next n s = record s { next = some n }

-- The new last node `n` behind the tail `t`.
pub grow-Chain :
    {nodes : List Sdr} {k t n : ℕ} {new : Sdr} {ptr : Option ℕ} (xs : List Cell)
    → Chain nodes k ptr xs
    → last_index xs ≡ some t
    → t < n
    → get_elem? nodes n ≡ some new
    → new.next ≡ none
    → Chain (modify nodes t (set_next n)) k ptr (update_cell t (set_next n) xs ++ (n, new) ∷ [])
grow-Chain [] c e before new_at end = cc
grow-Chain {nodes} {t = t} {n} {new} ((i, s) ∷ []) (link lo at rest) e before new_at end =
    let here : i ≡ t = ground arith in
    rw ((==_iff i t).1 here) (
      link lo
        (subst (λ t. get_elem? (modify nodes t (set_next n)) i ≡ some (set_next n s)) here
          (get_elem?-modify_self nodes i (set_next n) s at))
        (link (omega arith)
          (get_elem?-modify_ne nodes t n (set_next n) (λ e. omega (arith, e)) ∙ new_at)
          (subst (λ ptr. Chain (modify nodes t (set_next n)) (suc n) ptr []) (sym end) last)))
grow-Chain {nodes} {t = t} {n} {new} ((i, s) ∷ y ∷ xs) (link lo at rest) e before new_at end =
    let later : suc i ≤ t = last_index-Chain (y ∷ xs) rest e in
    rw (==_of_ne i t (λ e. omega (arith, e))) (
      link lo (get_elem?-modify_ne nodes t i (set_next n) (λ e. omega (arith, e)) ∙ at)
        (grow-Chain (y ∷ xs) rest e before new_at end))

pub last_index-append : (xs : List Cell) (i : ℕ) (s : Sdr) → last_index (xs ++ (i, s) ∷ []) ≡ some i
last_index-append [] i s = refl
last_index-append (x ∷ []) i s = refl
last_index-append (x ∷ y ∷ xs) i s = last_index-append (y ∷ xs) i s

pub last_index-update_cell :
    (j : ℕ) (f : Sdr → Sdr) (xs : List Cell) → last_index (update_cell j f xs) ≡ last_index xs
last_index-update_cell j f [] = refl
last_index-update_cell j f ((i, s) ∷ []) = refl
last_index-update_cell j f ((i, s) ∷ (i', s') ∷ xs) = last_index-update_cell j f ((i', s') ∷ xs)
