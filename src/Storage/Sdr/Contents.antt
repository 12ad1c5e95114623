-- ===== src/Storage/Sdr/Contents.antt =====
-- The repository as the sequence of its records, without pointers: the operations of
-- ipmi_internal_storage.go and ipmi_internal_sensor.go on the linked list.
use ipmigod.Base.{
  ℕ, suc, ◌≤◌, ◌<◌, ◌≡◌, refl, ◌∙◌, ap, sym, Bool, Bool-cases, inl, inr, if◌then◌else◌, Option,
  none, some, List, [], ◌∷◌, ◌++◌, modify, length, ok, ◌>>=◌, arith, ==_iff, ==_of_ne, Returns,
  returns, option-Returns, get_elem?-append_last, lt-length_of_get_elem?,
}
use mathlib.Core.Path.{subst}
use native.Mathlib.Decide.{ℕ_discrete}
use ipmigod.Bmc.{Sdr, Sdrs}
use ipmigod.Storage.Sdr.{search_sdrs, link_sdr}
use ipmigod.Storage.Sdr.Chain.{
  Cell, Chain, last, link, find_cell, last_index, update_cell, update_before-Chain, set_next,
  find_sdr-Chain, append-Chain, modify-Chain, grow-Chain, last_index-append, last_index-update_cell,
}

-- A record without its pointer.
abbrev pub strip : Sdr → Sdr
strip s = record s { next = none }

abbrev pub contents : List Cell → List Sdr
contents [] = []
contents ((i, s) ∷ xs) = strip s ∷ contents xs

-- The repository holds the records `rs`, in this order.
pub record Represents (sdrs : Sdrs) (rs : List Sdr) : Type 0 where
  pub cells : List Cell
  pub chain : Chain sdrs.nodes 0 sdrs.sdrs cells
  pub tail : sdrs.tail_sdr ≡ last_index cells
  pub records : contents cells ≡ rs

-- The first record that passes a test.
abbrev pub find_record : (Sdr → Bool) → List Sdr → Option Sdr
find_record p [] = none
find_record p (r ∷ rs) = if p r then some r else find_record p rs

-- The first record that passes a test is rewritten.
abbrev pub update_first : (Sdr → Bool) → (Sdr → Sdr) → List Sdr → List Sdr
update_first p f [] = []
update_first p f (r ∷ rs) = if p r then f r ∷ rs else r ∷ update_first p f rs

abbrev pub record_of : Option Cell → Option Sdr
record_of none = none
record_of (some (i, s)) = some (strip s)

module _ (p : Sdr → Bool) (same : (s : Sdr) → p s ≡ p (strip s)) where
  record_of-find_cell : (xs : List Cell) → record_of (find_cell p xs) ≡ find_record p (contents xs)
  record_of-find_cell [] = refl
  record_of-find_cell ((i, s) ∷ xs) = ground (arith, same s, record_of-find_cell xs)

  -- A loop over the list returns, and its result is the first record that passes the test.
  pub search_sdrs-find_record :
      (sdrs : Sdrs) (rs : List Sdr)
      → Represents sdrs rs
      → (search_sdrs p sdrs >>= λ found. ok (record_of found)) ≡ ok (find_record p rs)
  search_sdrs-find_record sdrs rs r =
      rw (find_sdr-Chain p (length sdrs.nodes) r.chain (omega arith))
        (ap ok (record_of-find_cell r.cells ∙ ap (find_record p) r.records))

  pub find_record-cells :
      {sdrs : Sdrs} {rs : List Sdr} (r : Represents sdrs rs)
      → find_record p rs ≡ record_of (find_cell p r.cells)
  find_record-cells r = sym (record_of-find_cell r.cells ∙ ap (find_record p) r.records)

  find_cell-Chain :
      {nodes : List Sdr} {k i : ℕ} {s : Sdr} {ptr : Option ℕ} (xs : List Cell)
      → Chain nodes k ptr xs
      → find_cell p xs ≡ some (i, s)
      → k ≤ i
  find_cell-Chain [] c e = cc
  find_cell-Chain {i = i} {s = t} (x ∷ xs) (link {s = s} lo at rest) e = elim (Bool-cases (p s)) [
    | inl here ↦ ground arith
    | inr later ↦
        let found : find_cell p xs ≡ some (i, t) = ground arith in
        omega (arith, find_cell-Chain xs rest found, lo)
  ]

  -- The node that a search finds, rewritten.
  update_cell-update_first :
      (f : Sdr → Sdr) (commutes : (s : Sdr) → strip (f s) ≡ f (strip s)) {nodes : List Sdr}
      {k i : ℕ} {s : Sdr} {ptr : Option ℕ} (xs : List Cell)
      → Chain nodes k ptr xs
      → find_cell p xs ≡ some (i, s)
      → contents (update_cell i f xs) ≡ update_first p f (contents xs)
  update_cell-update_first f commutes [] c e = cc
  update_cell-update_first f commutes {i = i} {s = t} ((j, s) ∷ xs) (link lo at rest) e =
      elim (Bool-cases (p s)) [
        | inl here ↦
            let head : j ≡ i = ground arith in
            rw
              (
                (==_iff j i).1 head,
                ← same s,
                here,
                commutes s,
                update_before-Chain i f (omega (arith, head)) rest,
              )
              refl
        | inr later ↦
            let found : find_cell p xs ≡ some (i, t) = ground arith in
            let beyond : suc j ≤ i = find_cell-Chain xs rest found in
            rw (==_of_ne j i (λ e. omega (arith, e)), ← same s, later)
              (ap (λ rs. strip s ∷ rs) (update_cell-update_first f commutes xs rest found))
      ]

same_contents : (j n : ℕ) (xs : List Cell) → contents (update_cell j (set_next n) xs) ≡ contents xs
same_contents j n [] = refl
same_contents j n ((i, s) ∷ xs) = elim (ℕ_discrete i j) [
  | yes e ↦ rw ((==_iff i j).1 e) (ap (λ rs. strip s ∷ rs) (same_contents j n xs))
  | no d ↦ rw (==_of_ne i j d) (ap (λ rs. strip s ∷ rs) (same_contents j n xs))
]

contents-append :
    (xs : List Cell) (i : ℕ) (s : Sdr) → contents (xs ++ (i, s) ∷ []) ≡ contents xs ++ strip s ∷ []
contents-append [] i s = refl
contents-append ((j, t) ∷ xs) i s = ap (λ rs. strip t ∷ rs) (contents-append xs i s)

no_cells : {nodes : List Sdr} {k : ℕ} {xs : List Cell} → Chain nodes k none xs → xs ≡ []
no_cells last = refl

has_last :
    {nodes : List Sdr} {k : ℕ} {ptr : Option ℕ} (x : Cell) (xs : List Cell)
    → Chain nodes k ptr (x ∷ xs)
    → (t : ℕ) × (last_index (x ∷ xs) ≡ some t) × (t < length nodes)
has_last {nodes} x [] (link {i = i} {s = s} lo at rest) =
    (i, refl, lt-length_of_get_elem? nodes i s at)
has_last x (y ∷ xs) (link lo at rest) = has_last y xs rest

from_head :
    {nodes : List Sdr} {k i : ℕ} (xs : List Cell)
    → Chain nodes k (some i) xs
    → (t : ℕ) × (last_index xs ≡ some t) × (t < length nodes)
from_head [] c = elim c [ ]
from_head (x ∷ xs) c = has_last x xs c

-- A node that a search finds is rewritten, and keeps its link: so is the first record that passes the
-- test.
pub set-Represents :
    (p : Sdr → Bool) (f : Sdr → Sdr) (sdrs : Sdrs) (rs : List Sdr) (r : Represents sdrs rs) (i : ℕ)
    (s : Sdr)
    → ((s : Sdr) → p s ≡ p (strip s))
    → ((s : Sdr) → strip (f s) ≡ f (strip s))
    → ((s : Sdr) → (f s).next ≡ s.next)
    → find_cell p r.cells ≡ some (i, s)
    → Represents (record sdrs { nodes = modify sdrs.nodes i f }) (update_first p f rs)
set-Represents p f sdrs rs r i s same commutes links found = record {
  cells = update_cell i f r.cells;
  chain = modify-Chain i f links r.chain;
  tail = r.tail ∙ sym (last_index-update_cell i f r.cells);
  records =
      update_cell-update_first p same f commutes r.cells r.chain found
      ∙ ap (update_first p f) r.records;
}

strip_last : (s : Sdr) → s.next ≡ none → strip s ≡ s
strip_last s end = ap (λ ptr. record s { next = ptr }) (sym end)

pub update_first-none :
    (p : Sdr → Bool) (f : Sdr → Sdr) (rs : List Sdr)
    → find_record p rs ≡ none
    → update_first p f rs ≡ rs
update_first-none p f [] e = refl
update_first-none p f (r ∷ rs) e = ground (arith, update_first-none p f rs)

-- `addSdrEntry` links a new record behind the others, and does not panic.
pub link_sdr-Represents :
    (sdrs : Sdrs) (rs : List Sdr) (s : Sdr)
    → s.next ≡ none
    → Represents sdrs rs
    → Returns
        (λ linked. Represents linked (rs ++ s ∷ []))
        (link_sdr (record sdrs { nodes = sdrs.nodes ++ (s ∷ []) }) (length sdrs.nodes))
unfolding link_sdr
link_sdr-Represents sdrs rs s end r =
    let n = length sdrs.nodes in
    let at = get_elem?-append_last sdrs.nodes s in
    let more = append-Chain (s ∷ []) r.chain in
    option-Returns sdrs.sdrs
      (λ empty.
        let nil : rs ≡ [] =
          sym r.records
          ∙ ap contents (no_cells (subst (λ ptr. Chain sdrs.nodes 0 ptr r.cells) empty r.chain)) in
        returns (record {
          cells = (n, s) ∷ [];
          chain =
              link (omega arith) at
                (subst (λ ptr. Chain (sdrs.nodes ++ s ∷ []) (suc n) ptr []) (sym end) last);
          tail = refl;
          records = rw nil (ap (λ x. x ∷ []) (strip_last s end));
        }))
      λ head nonempty.
        let (t, last_t, before) =
          from_head r.cells (subst (λ ptr. Chain sdrs.nodes 0 ptr r.cells) nonempty r.chain) in
        rw (r.tail ∙ last_t) (
          returns (record {
            cells = update_cell t (set_next n) r.cells ++ (n, s) ∷ [];
            chain = grow-Chain r.cells more last_t before at end;
            tail = sym (last_index-append (update_cell t (set_next n) r.cells) n s);
            records =
                contents-append (update_cell t (set_next n) r.cells) n s
                ∙ rw (same_contents t n r.cells, r.records, strip_last s end);
          }))
