-- ===== src/Storage/Sdr/Full.antt =====
-- Which requests `addSdr` of ipmi_internal_storage.go panics on.
use ipmigod.Base.{
  All, ℕ, ◌+◌, ◌%◌, ◌^◌, ◌≡◌, refl, Bool, true, false, not, ◌&&◌, leb, ◌==◌, Option, none, some,
  length, Outcome, ok, panic, stuck, Returns, returns, Returns-some, if-Returns, Exactly,
  Returns-both, Returns-map, arith,
}
use ipmigod.Wire.{IsByte}
use ipmigod.Bmc.{Sdr}
use ipmigod.Message.{Msg, byte}
use ipmigod.World.{World, Env}
use ipmigod.Storage.Validity.{ServerIsValid}
use ipmigod.Storage.Sdr.{search_sdrs, is_sensor, new_sdr_entry, fill_sdr, add_sdr}
use ipmigod.Storage.Sdr.Keeps.{add_sdr-keeps}
use ipmigod.Storage.Sdr.Chain.{find_sdr-Chain, find_cell}
use ipmigod.Storage.Sdr.Contents.{find_record, find_record-cells, record_of}
use ipmigod.Storage.Sdr.Refines.{
  Refines, both_return, both_panic, add_spec, new_record, add_sdr-Refines,
}
use ipmigod.Storage.Sdr.Stock.{Registered, Stocked, add_spec-Lists, Refines-Returns}

-- The bounds `2:2+entry.length` of the copy in `addSdr` are within the entry.
abbrev pub fits_entry : Msg → Bool
fits_entry msg =
    let hi = (2 + (byte msg (msg.data_start + 4) + 5) % 2 ^ 8) % 2 ^ 8 in leb 2 hi && leb hi 64

-- A search that found nothing.
abbrev pub is_absent : Outcome (Option (ℕ × Sdr)) → Bool
is_absent (ok none) = true
is_absent (ok (some x)) = false
is_absent panic = false
is_absent stuck = false

-- The record of a sensor that has none does not fit.
abbrev pub add_sdr_faults : Msg → World → Bool
add_sdr_faults msg w =
    let sensor = is_sensor (byte msg (msg.data_start + 6)) (byte msg (msg.data_start + 7)) in
    (byte msg (msg.data_start + 46) == 0)
    && (is_absent (search_sdrs sensor w.main_sdrs) && not (fits_entry msg))

new_record-panics : (msg : Msg) (w : World) → fits_entry msg ≡ false → new_record msg w ≡ panic
unfolding fill_sdr new_sdr_entry
new_record-panics msg w e = rw e

contrary : {A : Type 0} (b : Bool) → b ≡ true → b ≡ false → A
contrary b p q = cc

new_record-made :
    (msg : Msg) (w : World) → fits_entry msg ≡ true → (s : Sdr) × (new_record msg w ≡ ok s)
unfolding fill_sdr new_sdr_entry
new_record-made msg w fits =
    let made : Returns (λ _. Unit {0}) (new_record msg w) =
      if-Returns (fits_entry msg) (λ _. returns tt) (contrary (fits_entry msg) fits) in
    let (s, e, _) = Returns-some made in (s, e)

Refines-panic :
    {A B : Type 0} {R : A → B → Type 0} {m : Outcome A} {n : Outcome B}
    → Refines R m n
    → n ≡ panic
    → m ≡ panic
Refines-panic (both_return r) e = cc
Refines-panic both_panic e = refl

is_absent-none : (o : Option (ℕ × Sdr)) → is_absent (ok o) ≡ true → record_of o ≡ none
is_absent-none none e = refl
is_absent-none (some x) e = cc

none-is_absent : (o : Option (ℕ × Sdr)) → record_of o ≡ none → is_absent (ok o) ≡ true
none-is_absent none e = refl
none-is_absent (some x) e = cc

module _ (registered : Registered) (env : Env) (msg : Msg) (w : World) (v : ServerIsValid w)
    (h : Stocked registered w) where
  -- The search of the code, and that in the sequence.
  absent_iff :
      let sensor = is_sensor (byte msg (msg.data_start + 6)) (byte msg (msg.data_start + 7)) in
      (is_absent (search_sdrs sensor w.main_sdrs) ≡ true → find_record sensor h.0 ≡ none)
      × (find_record sensor h.0 ≡ none → is_absent (search_sdrs sensor w.main_sdrs) ≡ true)
  absent_iff =
      let sensor = is_sensor (byte msg (msg.data_start + 6)) (byte msg (msg.data_start + 7)) in
      let found = find_sdr-Chain sensor (length w.main_sdrs.nodes) h.1.chain (omega arith) in
      let same = find_record-cells sensor (λ s. refl) h.1 in
      rw (found, same)
        (is_absent-none (find_cell sensor h.1.cells), none-is_absent (find_cell sensor h.1.cells))

  add_spec-panics : add_sdr_faults msg w ≡ true → add_spec msg (new_record msg w) h.0 ≡ panic
  add_spec-panics fault =
      let adds : (byte msg (msg.data_start + 46) == 0) ≡ true = ground arith in
      let absent = absent_iff.0 (ground arith) in
      rw (adds, absent, new_record-panics msg w (ground arith))

  -- `addSdr` panics exactly where it is to add a record that does not fit; elsewhere the server stays
  -- well-formed, and each registered sensor keeps a record.
  pub add_sdr-Exactly :
      Exactly
        (All IsByte msg.bytes)
        (add_sdr_faults msg w)
        (λ w'. ServerIsValid w' × Stocked registered w')
        (add_sdr env msg w)
  add_sdr-Exactly = (
    λ bytes fault. Refines-panic (add_sdr-Refines env msg h.0 w h.1) (add_spec-panics fault),
    λ quiet.
        let fits : (byte msg (msg.data_start + 46) == 0) ≡ true
            → find_record
                (is_sensor (byte msg (msg.data_start + 6)) (byte msg (msg.data_start + 7))) h.0
              ≡ none
            → (s : Sdr) × (new_record msg w ≡ ok s) =
          λ adds absent. new_record-made msg w (ground (arith, absent_iff.1 absent)) in
        Returns-map (λ w' p. (p.1, p.0))
          (Returns-both
            (Refines-Returns (add_sdr-Refines env msg h.0 w h.1)
              (add_spec-Lists registered msg _ h.0 fits h.2))
            (add_sdr-keeps env msg w v)),
  )
