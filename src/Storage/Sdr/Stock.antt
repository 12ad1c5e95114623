-- ===== src/Storage/Sdr/Stock.antt =====
-- The records of the sensors, over the commands of ipmi_internal_storage.go: which requests leave each sensor
-- its record.
use ipmigod.Base.{
  Returns-some, if-Returns, ℕ, ◌+◌, ◌%◌, ◌^◌, ◌≤◌, ◌≡◌, refl, ◌∙◌, Bool, true, false, slot_cases,
  Bool-cases, inl, inr, leb, ◌==◌, ◌&&◌, if◌then◌else◌, none, some, Option-cases, Outcome, ok, List,
  [], Returns, returns, Allows, if-Allows, arith,
}
use ipmigod.Bmc.{Sdr}
use ipmigod.Message.{Msg, byte}
use ipmigod.World.{World, Env, nil}
use ipmigod.World.Frame.{IsStable, return_err-Allows, return_rsp_data-Allows}
use ipmigod.Storage.Slices.{stale_reservation, lacks_clr, bad_clear_op}
use ipmigod.Storage.Sdr.{is_sensor, new_sdr_entry, fill_sdr, add_sdr, clear_sdr_repository}
use ipmigod.Storage.Sdr.Chain.{last}
use ipmigod.Storage.Sdr.Contents.{find_record}
use ipmigod.Storage.Sdr.Records.{
  find_record-append, find_record-update_self, find_record-update_other, sensors_apart,
}
use ipmigod.Storage.Sdr.Refines.{
  Refines, both_return, both_panic, Holds, add_spec, new_record, add_sdr-Refines,
}

-- The sensors that must have a record.
abbrev pub Registered : Type 1
Registered = ℕ → ℕ → Type 0

-- Each of them has one in the sequence.
abbrev pub Lists : Registered → List Sdr → Type 0
Lists registered rs =
    (lun num : ℕ) → registered lun num → (r : Sdr) × (find_record (is_sensor lun num) rs ≡ some r)

-- Each of them has one in the repository.
abbrev pub Stocked : Registered → World → Type 0
Stocked registered w = (rs : List Sdr) × Holds w rs × Lists registered rs

-- The linked list is as before.
abbrev pub SameList : World → World → Type 0
SameList w w' =
    (w'.main_sdrs.nodes ≡ w.main_sdrs.nodes)
    × (w'.main_sdrs.sdrs ≡ w.main_sdrs.sdrs)
    × (w'.main_sdrs.tail_sdr ≡ w.main_sdrs.tail_sdr)

pub SameList-IsStable : (w : World) → IsStable (SameList w)
SameList-IsStable w = record { sends = λ u p h. h; bumps = λ u i h. h }

pub Stocked-SameList :
    (registered : Registered) (w w' : World)
    → Stocked registered w
    → SameList w w'
    → Stocked registered w'
Stocked-SameList registered w w' (rs, h, listed) same = (
  rs,
  record {
    cells = h.cells;
    chain = rw (same.0, same.1) h.chain;
    tail = same.2 ∙ h.tail;
    records = h.records;
  },
  listed,
)

fits : (hi : ℕ) → 2 ≤ hi → hi ≤ 64 → (leb 2 hi && leb hi 64) ≡ false → ⊥
fits hi lo up e = ground arith

fill_sdr-Returns : (msg : Msg) (s : Sdr) → s.length ≤ 62 → Returns (λ _. Unit {0}) (fill_sdr msg s)
unfolding fill_sdr
fill_sdr-Returns msg s short =
    let hi = (2 + s.length) % 2 ^ 8 in
    if-Returns (leb 2 hi && leb hi 64) (λ _. returns tt)
      (λ e. absurd (fits hi (omega arith) (omega arith) e))

-- A record with a length of at most 57 fits into its entry.
new_record-ok :
    (msg : Msg) (w : World)
    → byte msg (msg.data_start + 4) ≤ 57
    → (s : Sdr) × (new_record msg w ≡ ok s)
unfolding new_sdr_entry
new_record-ok msg w short =
    let (s, e, _) = Returns-some (fill_sdr-Returns msg _ (omega arith)) in (s, e)

-- An add request loses no record.
pub add_spec-Lists :
    (registered : Registered) (msg : Msg) (new : Outcome Sdr) (rs : List Sdr)
    → ((byte msg (msg.data_start + 46) == 0) ≡ true
        → find_record (is_sensor (byte msg (msg.data_start + 6)) (byte msg (msg.data_start + 7))) rs
          ≡ none
        → (s : Sdr) × (new ≡ ok s))
    → Lists registered rs
    → Returns (Lists registered) (add_spec msg new rs)
add_spec-Lists registered msg new rs made listed =
    let value = byte msg (msg.data_start + 46) in
    let lun = byte msg (msg.data_start + 6) in
    let num = byte msg (msg.data_start + 7) in
    let sensor = is_sensor lun num in
    let f : Sdr → Sdr = λ s. record s { value = value } in
    elim (Bool-cases (value == 0)) [
      | inl adds ↦ elim (Option-cases (find_record sensor rs)) [
        | inl absent ↦
            let (s, e) = made adds absent in
            rw (adds, absent, e)
              (returns (λ l n reg.
                let (r, found) = listed l n reg in
                (r, find_record-append (is_sensor l n) rs s r found)))
        | inr (r, found) ↦ rw (adds, found) (returns listed)
      ]
      | inr sets ↦ rw sets (
          returns (λ l n reg.
            let (r, found) = listed l n reg in
            elim (slot_cases lun num l n) [
              | inl (a, b) ↦
                  rw (a, b) (f r, find_record-update_self f (is_sensor l n) rs r (λ s. refl) found)
              | inr differ ↦ (
                r,
                find_record-update_other f sensor (is_sensor l n) rs (λ s. refl)
                      (λ s. sensors_apart lun num l n s differ)
                    ∙ found,
              )
            ]))
    ]

pub Refines-Returns :
    {A B : Type 0} {R : A → B → Type 0} {P : B → Type 0} {m : Outcome A} {n : Outcome B}
    → Refines R m n
    → Returns P n
    → Returns (λ a. (b : B) × R a b × P b) m
Refines-Returns (both_return {b = b} r) (returns p) = returns (b, r, p)
Refines-Returns both_panic p = elim p [ ]

-- An add request with a record that fits leaves each registered sensor its record, and does not panic.
pub add_sdr-Stocked :
    (registered : Registered) (env : Env) (msg : Msg) (w : World)
    → byte msg (msg.data_start + 4) ≤ 57
    → Stocked registered w
    → Returns (Stocked registered) (add_sdr env msg w)
add_sdr-Stocked registered env msg w short (rs, h, listed) =
    Refines-Returns (add_sdr-Refines env msg rs w h)
      (add_spec-Lists registered msg _ rs (λ _ _. new_record-ok msg w short) listed)

-- So does a clear request when no sensor is registered.
pub clear_sdr_repository-Stocked :
    (registered : Registered) (env : Env) (msg : Msg) (w : World)
    → ((lun num : ℕ) → registered lun num → ⊥)
    → Stocked registered w
    → Allows (Stocked registered) (clear_sdr_repository env msg w)
unfolding clear_sdr_repository
clear_sdr_repository-Stocked registered env msg w nothing h =
    let stable : IsStable (Stocked registered) = record {
      sends = λ u p h. h;
      bumps = λ u i h. h;
    } in
    if-Allows (stale_reservation msg w.main_sdrs.reservation)
      (return_err-Allows _ stable w h msg nil _)
      (if-Allows (lacks_clr msg) (return_err-Allows _ stable w h msg nil _) (
        if-Allows (bad_clear_op msg) (return_err-Allows _ stable w h msg nil _) (
          return_rsp_data-Allows _ stable _ (emptied (byte msg (msg.data_start + 5) == 0xaa)) msg
            nil _)))
  where
    emptied :
        (b : Bool)
        → Stocked registered (
            if b
            then record w {
              main_sdrs = record (w.main_sdrs) {
                sdrs = none;
                tail_sdr = none;
                last_erase_time = env.now;
              };
            }
            else w)
    emptied true = (
      [],
      record { cells = []; chain = last; tail = refl; records = refl },
      λ l n reg. absurd (nothing l n reg),
    )
    emptied false = h
