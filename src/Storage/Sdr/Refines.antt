-- ===== src/Storage/Sdr/Refines.antt =====
-- `addSdr` and `clearSdrRepository` of ipmi_internal_storage.go on the sequence of the records.
use ipmigod.Base.{
  ℕ, ◌+◌, ◌≡◌, refl, Bool-cases, Option-cases, inl, inr, ◌==◌, if◌then◌else◌, none, some, List, [],
  ◌∷◌, ◌++◌, length, Outcome, ok, panic, ◌>>=◌, arith, Returns, returns, Safe, returned, panicked,
  >>=-Returns,
}
use ipmigod.Bmc.{Sdr}
use ipmigod.Message.{Msg, byte}
use ipmigod.World.{World, Env, nil}
use ipmigod.World.Frame.{IsStable, return_rsp_data-keeps}
use ipmigod.Storage.Sdr.{
  is_sensor, new_sdr_entry, fill_sdr, add_sdr_entry, add_new_sdr, add_sdr, set_value, reply_id,
}
use ipmigod.Storage.Sdr.Keeps.{new_sdr_entry-size, fill_sdr-last}
use ipmigod.Storage.Sdr.Chain.{find_sdr-Chain, find_cell}
use ipmigod.Storage.Sdr.Contents.{
  Represents, find_record, find_record-cells, update_first-none, update_first, set-Represents,
  link_sdr-Represents,
}

-- The two return related results, or both panic.
pub data Refines {A B : Type 0} (R : A → B → Type 0) : Outcome A → Outcome B → Type 0 where
  both_return : {a : A} {b : B} → R a b → Refines R (ok a) (ok b)
  both_panic : Refines R panic panic

-- The repository of a server holds the records.
abbrev pub Holds : World → List Sdr → Type 0
Holds w rs = Represents w.main_sdrs rs

-- What an add request does to the sequence: with a sensor value in the value field the first record of the
-- sensor gets the value, otherwise a sensor that has no record gets a new one at the end.
abbrev pub add_spec : Msg → Outcome Sdr → List Sdr → Outcome (List Sdr)
add_spec msg new rs =
    let sensor = is_sensor (byte msg (msg.data_start + 6)) (byte msg (msg.data_start + 7)) in
    let value = byte msg (msg.data_start + 46) in
    if value == 0
    then elim (find_record sensor rs) [ none ↦ new >>= λ s. ok (rs ++ s ∷ []) | some r ↦ ok rs ]
    else ok (update_first sensor (λ s. record s { value = value }) rs)

Holds-IsStable : (rs : List Sdr) → IsStable (λ w. Holds w rs)
Holds-IsStable rs = record { sends = λ w p h. h; bumps = λ w i h. h }

Returns-Refines :
    {A B : Type 0} {R : A → B → Type 0} {m : Outcome A} {b : B}
    → Returns (λ a. R a b) m
    → Refines R m (ok b)
Returns-Refines (returns h) = both_return h

>>=-Refines :
    {A B C : Type 0} {R : A → B → Type 0} {P : C → Type 0} {m : Outcome C} {f : C → Outcome A}
    {g : C → Outcome B}
    → Safe P m
    → ((c : C) → P c → Refines R (f c) (g c))
    → Refines R (m >>= f) (m >>= g)
>>=-Refines (returned {a = c} h) k = k c h
>>=-Refines panicked k = both_panic

-- `addSdrEntry` adds the record at the end.
pub add_sdr_entry-Holds :
    (now : ℕ) (s : Sdr) (w : World) (rs : List Sdr)
    → s.next ≡ none
    → Holds w rs
    → Returns (λ w'. Holds w' (rs ++ s ∷ [])) (add_sdr_entry now s w)
unfolding add_sdr_entry
add_sdr_entry-Holds now s w rs end h =
    >>=-Returns _ (link_sdr-Represents w.main_sdrs rs s end h) λ linked l.
      returns (record { cells = l.cells; chain = l.chain; tail = l.tail; records = l.records })

module _ (msg : Msg) (rs : List Sdr) where
  reply_id-Holds :
      (id : ℕ) (w : World) → Holds w rs → Returns (λ w'. Holds w' rs) (reply_id msg id w)
  reply_id-Holds id w h =
      return_rsp_data-keeps (λ w. Holds w rs) (Holds-IsStable rs) w h msg nil _ (omega arith)

-- The record that `newSdrEntry` and the copy in `addSdr` make of the request.
abbrev pub new_record : Msg → World → Outcome Sdr
new_record msg w =
    fill_sdr msg (new_sdr_entry w.chassis_card_num w.main_sdrs (byte msg (msg.data_start + 4)))

module _ (env : Env) (msg : Msg) (rs : List Sdr) (w : World) (h : Holds w rs) where
  add_new_sdr-Refines :
      Refines Holds (add_new_sdr env msg w) (new_record msg w >>= λ s. ok (rs ++ s ∷ []))
  unfolding add_new_sdr new_sdr_entry
  add_new_sdr-Refines =
      >>=-Refines
        (fill_sdr-last msg _ refl
          (new_sdr_entry-size w.chassis_card_num w.main_sdrs (byte msg (msg.data_start + 4)))
          (omega arith))
        λ s (end, size). Returns-Refines (
          >>=-Returns _
            (add_sdr_entry-Holds env.now s _ rs end
              (record { cells = h.cells; chain = h.chain; tail = h.tail; records = h.records }))
            λ w' h'. reply_id-Holds msg (rs ++ s ∷ []) s.record_id w' h')

  -- `addSdr` does to the linked list what `add_spec` does to the sequence of the records: on a server whose
  -- repository holds the records `rs`, either the handler returns a server whose repository holds the records
  -- of the specification, or both panic, where the copy of the new record panics.
  pub add_sdr-Refines : Refines Holds (add_sdr env msg w) (add_spec msg (new_record msg w) rs)
  unfolding add_sdr
  add_sdr-Refines =
      let sensor = is_sensor (byte msg (msg.data_start + 6)) (byte msg (msg.data_start + 7)) in
      let value = byte msg (msg.data_start + 46) in
      let find = find_record-cells sensor (λ s. refl) h in
      rw (find_sdr-Chain sensor (length w.main_sdrs.nodes) h.chain (omega arith))
        (elim (Bool-cases (value == 0)) [
          | inl added ↦ elim (Option-cases (find_cell sensor h.cells)) [
            | inl absent ↦ rw (added, absent, find, absent) add_new_sdr-Refines
            | inr (x, found) ↦
                rw (added, found, find, found)
                  (Returns-Refines (reply_id-Holds msg rs x.1.record_id w h))
          ]
          | inr set ↦ elim (Option-cases (find_cell sensor h.cells)) [
            | inl absent ↦
                rw (set, absent, update_first-none sensor _ rs (rw (find, absent))) (both_return h)
            | inr (x, found) ↦
                rw (set, found)
                  (Returns-Refines (
                    reply_id-Holds msg (update_first sensor (λ s. record s { value = value }) rs)
                      x.1.record_id (set_value w x.0 value)
                      (set-Represents sensor (λ s. record s { value = value }) w.main_sdrs rs h x.0
                        x.1 (λ s. refl) (λ s. refl) (λ s. refl) found)))
          ]
        ])
