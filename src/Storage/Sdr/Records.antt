-- ===== src/Storage/Sdr/Records.antt =====
-- Searches in a sequence of records after a record is rewritten or added.
use ipmigod.Base.{
  ℕ, ◌≡◌, refl, ap, Bool, true, false, Bool-cases, inl, inr, some, List, [], ◌∷◌, ◌++◌, arith,
}
use ipmigod.Bmc.{Sdr}
use ipmigod.Storage.Sdr.{is_sensor}
use ipmigod.Storage.Sdr.Contents.{find_record, update_first}

module _ (f : Sdr → Sdr) where
  -- The record that passes the test is rewritten, and still passes it.
  pub find_record-update_self :
      (p : Sdr → Bool) (rs : List Sdr) (r : Sdr)
      → ((s : Sdr) → p (f s) ≡ p s)
      → find_record p rs ≡ some r
      → find_record p (update_first p f rs) ≡ some (f r)
  find_record-update_self p [] r same e = cc
  find_record-update_self p (x ∷ rs) r same e = elim (Bool-cases (p x)) [
    | inl here ↦
        let head : x ≡ r = ground arith in rw (here, same x, here) (ap (λ y. some (f y)) head)
    | inr later ↦
        let found : find_record p rs ≡ some r = ground arith in
        rw (later, later) (find_record-update_self p rs r same found)
  ]

  -- A record of another test.
  pub find_record-update_other :
      (p q : Sdr → Bool) (rs : List Sdr)
      → ((s : Sdr) → q (f s) ≡ q s)
      → ((s : Sdr) → p s ≡ true → q s ≡ false)
      → find_record q (update_first p f rs) ≡ find_record q rs
  find_record-update_other p q [] same apart = refl
  find_record-update_other p q (x ∷ rs) same apart = elim (Bool-cases (p x)) [
    | inl here ↦ rw (here, same x, apart x here)
    | inr later ↦ rw (later, find_record-update_other p q rs same apart)
  ]

-- A record added at the end does not hide one that is found.
pub find_record-append :
    (p : Sdr → Bool) (rs : List Sdr) (s r : Sdr)
    → find_record p rs ≡ some r
    → find_record p (rs ++ s ∷ []) ≡ some r
find_record-append p [] s r e = cc
find_record-append p (x ∷ rs) s r e = ground (arith, find_record-append p rs s r)

pub find_record-append_last :
    (p : Sdr → Bool) (rs : List Sdr) (s : Sdr)
    → p s ≡ true
    → (r : Sdr) × (find_record p (rs ++ s ∷ []) ≡ some r)
find_record-append_last p [] s e = (s, rw e)
find_record-append_last p (x ∷ rs) s e = elim (Bool-cases (p x)) [
  | inl here ↦ (x, rw here)
  | inr later ↦ rw later (find_record-append_last p rs s e)
]

-- A node is of one sensor only.
pub sensors_apart :
    (l n l' n' : ℕ) (s : Sdr)
    → ((l ≡ l') × (n ≡ n') → ⊥)
    → is_sensor l n s ≡ true
    → is_sensor l' n' s ≡ false
sensors_apart l n l' n' s differ e = ground arith
