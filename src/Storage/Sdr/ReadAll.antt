-- ===== src/Storage/Sdr/ReadAll.antt =====
-- A reader of the repository who follows the ids in the replies of `getSdr` of ipmi_internal_storage.go.
use ipmigod.Base.{
  ℕ, zero, suc, ◌^◌, ◌≤◌, ◌<◌, ◌≡◌, ◌≢◌, refl, sym, ap, ◌==◌, if◌then◌else◌, Option, none, some,
  List, [], ◌∷◌, All, length, Outcome, ok, stuck, ◌>>=◌, ==_of_ne, ==_iff, arith, Returns,
}
use mathlib.Core.Path.{subst}
use ipmigod.Wire.{put_uint16, uint16_at}
use ipmigod.Bmc.{Sdr, Sdrs}
use ipmigod.Storage.Sdr.{select_sdr, next_id}
use ipmigod.Storage.Sdr.Contents.{strip, Represents}
use ipmigod.Storage.Sdr.Follow.{
  next_of, suffix_from, select_spec, Selects, select_sdr-Selects, >>=-same,
}

-- The records from the one on that an id names: the id 0 asks for the first, and the id 0xffff in a reply
-- ends the walk.
abbrev pub read_all : ℕ → ℕ → Sdrs → Outcome (List Sdr)
read_all zero id sdrs = stuck
read_all (suc fuel) id sdrs = select_sdr sdrs id >>= λ found. elim found [
  | none ↦ ok []
  | some (i, s) ↦ next_id sdrs s.next >>= λ next.
      let rest = read_all fuel (uint16_at next 0) sdrs in
      (if uint16_at next 0 == 0xffff then ok [] else rest) >>= λ rs. ok (strip s ∷ rs)
]

-- The ids are distinct, and none of them is 0 or 0xffff.
abbrev pub IdsAreDistinct : List Sdr → Type 0
IdsAreDistinct [] = Unit {0}
IdsAreDistinct (r ∷ rs) = All (λ s. r.record_id ≢ s.record_id) rs × IdsAreDistinct rs

abbrev pub IdsAreInner : List Sdr → Type 0
IdsAreInner rs = All (λ s. (1 ≤ s.record_id) × (s.record_id < 0xffff)) rs

data Suffix (t : List Sdr) : List Sdr → Type 0 where
  here : Suffix t t
  there : {x : Sdr} {xs : List Sdr} → Suffix t xs → Suffix t (x ∷ xs)

All-Suffix : (P : Sdr → Type 0) {r : Sdr} {t rs : List Sdr} → Suffix (r ∷ t) rs → All P rs → P r
All-Suffix P here all = all.0
All-Suffix P (there s) all = All-Suffix P s all.1

Suffix-step : {r r' : Sdr} {t rs : List Sdr} → Suffix (r ∷ r' ∷ t) rs → Suffix (r' ∷ t) rs
Suffix-step here = there here
Suffix-step (there s) = there (Suffix-step s)

suffix_from-Suffix :
    {r : Sdr} {t rs : List Sdr}
    → Suffix (r ∷ t) rs
    → IdsAreDistinct rs
    → suffix_from (λ s. s.record_id == r.record_id) rs ≡ r ∷ t
suffix_from-Suffix {r} here distinct = rw ((==_iff r.record_id r.record_id).1 refl)
suffix_from-Suffix {r} (there {x = x} s) distinct =
    rw (==_of_ne x.record_id r.record_id (All-Suffix _ s distinct.0))
      (suffix_from-Suffix s distinct.1)

select_spec-Suffix :
    {r : Sdr} {t rs : List Sdr}
    → Suffix (r ∷ t) rs
    → IdsAreDistinct rs
    → IdsAreInner rs
    → select_spec r.record_id rs ≡ r ∷ t
select_spec-Suffix {r} s distinct inner =
    let (low, high) = All-Suffix _ s inner in
    rw
      (
        ==_of_ne r.record_id 0 (λ e. omega (arith, e, low)),
        ==_of_ne r.record_id 0xffff (λ e. omega (arith, e, high)),
      )
      (suffix_from-Suffix s distinct)

uint16_at-put_uint16 : (id : ℕ) → id < 2 ^ 16 → uint16_at (put_uint16 id) 0 ≡ id
unfolding uint16_at
uint16_at-put_uint16 id h = omega arith

no_next : uint16_at (0xff ∷ 0xff ∷ []) 0 ≡ 0xffff
unfolding uint16_at
no_next = refl

tail_of : List Sdr → List Sdr
tail_of [] = []
tail_of (r ∷ rs) = rs

module _ (sdrs : Sdrs) where
  -- The walk behind a record, of which the rest of the sequence is given.
  abbrev read_rest : ℕ → List Sdr → Outcome (List Sdr)
  read_rest fuel t =
      let rest = read_all fuel (uint16_at (next_of t) 0) sdrs in
      if uint16_at (next_of t) 0 == 0xffff then ok [] else rest

  read_all-step :
      (fuel id : ℕ) (s : Sdr) (t rs : List Sdr)
      → Represents sdrs rs
      → select_spec id rs ≡ s ∷ t
      → read_rest fuel t ≡ ok t
      → read_all (suc fuel) id sdrs ≡ ok (s ∷ t)
  unfolding tail_of
  read_all-step fuel id s t rs r e done =
      >>=-same
        (subst (λ suffix. Returns (λ o. Selects sdrs o suffix) (select_sdr sdrs id)) e
          (select_sdr-Selects sdrs rs id r))
        go
    where
      go :
          (found : Option (ℕ × Sdr)) (selected : Selects sdrs found (s ∷ t))
          → elim found [
            | none ↦ ok []
            | some (i, x) ↦ next_id sdrs x.next >>= λ next.
                let rest = read_all fuel (uint16_at next 0) sdrs in
                (if uint16_at next 0 == 0xffff then ok [] else rest) >>= λ rs. ok (strip x ∷ rs)
          ]
            ≡ ok (s ∷ t)
      go none selected = cc
      go (some (i, x)) (rest, same, next) =
          rw (next, subst (λ t. read_rest fuel t ≡ ok t) (ap tail_of same) done) (ap ok (sym same))

module _ (sdrs : Sdrs) (rs : List Sdr) (r : Represents sdrs rs) (distinct : IdsAreDistinct rs)
    (inner : IdsAreInner rs) where
  read_all-suffix :
      (fuel id : ℕ) (s : Sdr) (t : List Sdr)
      → Suffix (s ∷ t) rs
      → select_spec id rs ≡ s ∷ t
      → length t < fuel
      → read_all fuel id sdrs ≡ ok (s ∷ t)
  read_all-suffix zero id s t suffix e enough = absurd (omega arith)
  read_all-suffix (suc fuel) id s [] suffix e enough =
      read_all-step sdrs fuel id s [] rs r e (rw no_next)
  read_all-suffix (suc fuel) id s (s' ∷ t) suffix e enough =
      let (low, high) = All-Suffix _ (Suffix-step suffix) inner in
      read_all-step sdrs fuel id s (s' ∷ t) rs r e (
        rw
          (
            uint16_at-put_uint16 s'.record_id (omega arith),
            ==_of_ne s'.record_id 0xffff (λ e. omega (arith, e, high)),
          )
          (read_all-suffix fuel s'.record_id s' t (Suffix-step suffix)
            (select_spec-Suffix (Suffix-step suffix) distinct inner) (omega arith)))

-- A reader who starts at id 0 and follows the ids in the replies gets the records that the repository holds, each
-- once and in their order, when there is one, the ids are distinct, and none is 0 or 0xffff.
pub read_all-records :
    (sdrs : Sdrs) (s : Sdr) (t : List Sdr)
    → Represents sdrs (s ∷ t)
    → IdsAreDistinct (s ∷ t)
    → IdsAreInner (s ∷ t)
    → read_all (length (s ∷ t)) 0 sdrs ≡ ok (s ∷ t)
read_all-records sdrs s t r distinct inner =
    read_all-suffix sdrs (s ∷ t) r distinct inner (length (s ∷ t)) 0 s t here refl (omega arith)
