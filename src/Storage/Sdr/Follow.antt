-- ===== src/Storage/Sdr/Follow.antt =====
-- `getSdr` of ipmi_internal_storage.go and `getSensorReading` of ipmi_internal_sensor.go on the sequence of
-- the records.
use ipmigod.Base.{
  ℕ, ◌+◌, ◌-◌, ◌%◌, ◌^◌, ◌≡◌, refl, sym, Bool, Bool-cases, Option-cases, inl, inr, ltb, leb, ◌==◌,
  if◌then◌else◌, Option, none, some, List, [], ◌∷◌, ◌++◌, length, Outcome, ok, ◌>>=◌, arith,
  Returns, returns,
}
use mathlib.Core.Path.{subst}
use ipmigod.Protodefs.{invalid_reservation_cc, not_present_cc, parameter_out_of_range_cc}
use ipmigod.Wire.{Bytes, put_uint16, uint16_at}
use ipmigod.Bmc.{Sdr, Sdrs}
use ipmigod.Message.{Msg, byte, slice}
use ipmigod.World.{World, Env, nil, return_err, return_rsp_data}
use ipmigod.Storage.Slices.{array_slice, stale_reservation}
use ipmigod.Storage.Sdr.{node_at, select_sdr, next_id, reply_sdr, get_sdr, is_sensor}
use ipmigod.Storage.Sensor.{get_sensor_reading, reading_flags}
use ipmigod.Storage.Sdr.Chain.{Cell, Chain, last, link, last_index, find_sdr-Chain, find_cell}
use ipmigod.Storage.Sdr.Contents.{strip, contents, Represents, find_record, find_record-cells}
use ipmigod.Storage.Sdr.Refines.{Holds}

-- The id of the record that the rest of the sequence begins with.
abbrev pub next_of : List Sdr → Bytes
next_of [] = 0xff ∷ 0xff ∷ []
next_of (r ∷ rs) = put_uint16 r.record_id

-- The sequence from the first record on that passes a test, and from its last record on.
abbrev pub suffix_from : (Sdr → Bool) → List Sdr → List Sdr
suffix_from p [] = []
suffix_from p (r ∷ rs) = if p r then r ∷ rs else suffix_from p rs

abbrev pub last_suffix : List Sdr → List Sdr
last_suffix [] = []
last_suffix (r ∷ []) = r ∷ []
last_suffix (r ∷ r' ∷ rs) = last_suffix (r' ∷ rs)

-- The sequence from the record on that a request names: 0 is the first one, 0xffff the last one.
abbrev pub select_spec : ℕ → List Sdr → List Sdr
select_spec record_id rs =
    if record_id == 0
    then rs
    else if record_id == 0xffff
    then last_suffix rs
    else suffix_from (λ r. r.record_id == record_id) rs

-- The reply to a request for a record, of which the sequence from this record on is given.
abbrev pub read_spec : Msg → List Sdr → ℕ → ℕ → World → Outcome World
read_spec msg [] offset count w = return_err msg nil not_present_cc w
read_spec msg (r ∷ rest) offset count w =
    let count' = if ltb r.length ((offset + count) % 2 ^ 8) then r.length - offset else count in
    if leb r.length offset
    then return_err msg nil parameter_out_of_range_cc w
    else array_slice r.bytes offset ((offset + count') % 2 ^ 8) >>= λ part.
        return_rsp_data msg nil (slice (0 ∷ (next_of rest ++ part)) 0 ((count' + 3) % 2 ^ 8)) w

abbrev pub get_spec : Msg → List Sdr → World → Outcome World
get_spec msg rs w =
    if stale_reservation msg w.main_sdrs.reservation
    then return_err msg nil invalid_reservation_cc w
    else read_spec msg (select_spec (uint16_at msg.bytes (msg.data_start + 2)) rs)
        (byte msg (msg.data_start + 4)) (byte msg (msg.data_start + 5)) w

module _ (sdrs : Sdrs) where
  -- A node and the sequence from it on.
  abbrev pub Selects : Option Cell → List Sdr → Type 0
  Selects none rs = rs ≡ []
  Selects (some (i, s)) rs =
      (rest : List Sdr) × (rs ≡ strip s ∷ rest) × (next_id sdrs s.next ≡ ok (next_of rest))

  next_id-Chain :
      {k : ℕ} {ptr : Option ℕ} {xs : List Cell}
      → Chain sdrs.nodes k ptr xs
      → next_id sdrs ptr ≡ ok (next_of (contents xs))
  unfolding next_id
  next_id-Chain last = refl
  next_id-Chain (link lo at rest) = rw at

  node_at-Selects :
      {k : ℕ} {ptr : Option ℕ} {xs : List Cell}
      → Chain sdrs.nodes k ptr xs
      → Returns (λ o. Selects o (contents xs)) (node_at sdrs ptr)
  node_at-Selects last = returns refl
  node_at-Selects (link {xs = xs} lo at rest) =
      rw at (returns (contents xs, refl, next_id-Chain rest))

  last_index-Selects :
      {k : ℕ} {ptr : Option ℕ} (xs : List Cell)
      → Chain sdrs.nodes k ptr xs
      → Returns (λ o. Selects o (last_suffix (contents xs))) (node_at sdrs (last_index xs))
  last_index-Selects [] c = returns refl
  last_index-Selects (x ∷ []) (link lo at rest) = rw at (returns ([], refl, next_id-Chain rest))
  last_index-Selects (x ∷ y ∷ xs) (link lo at rest) = last_index-Selects (y ∷ xs) rest

  find_cell-Selects :
      (p : Sdr → Bool) (same : (s : Sdr) → p s ≡ p (strip s)) {k : ℕ} {ptr : Option ℕ}
      (xs : List Cell)
      → Chain sdrs.nodes k ptr xs
      → Selects (find_cell p xs) (suffix_from p (contents xs))
  find_cell-Selects p same [] c = refl
  find_cell-Selects p same (x ∷ xs) (link {s = s} lo at rest) = elim (Bool-cases (p s)) [
    | inl here ↦ rw (← same s, here) (contents xs, refl, next_id-Chain rest)
    | inr later ↦ rw (← same s, later) (find_cell-Selects p same xs rest)
  ]

  pub select_sdr-Selects :
      (rs : List Sdr) (id : ℕ)
      → Represents sdrs rs
      → Returns (λ o. Selects o (select_spec id rs)) (select_sdr sdrs id)
  unfolding select_sdr
  select_sdr-Selects rs id r =
      subst (λ rs. Returns (λ o. Selects o (select_spec id rs)) (select_sdr sdrs id)) r.records
        (elim (Bool-cases (id == 0)) [
          | inl first ↦ rw first (node_at-Selects r.chain)
          | inr other ↦ elim (Bool-cases (id == 0xffff)) [
            | inl final ↦
                rw (other, final)
                  (subst
                    (λ ptr.
                      Returns (λ o. Selects o (last_suffix (contents r.cells))) (node_at sdrs ptr))
                    (sym r.tail) (last_index-Selects r.cells r.chain))
            | inr inner ↦
                rw
                  (
                    other,
                    inner,
                    find_sdr-Chain (λ s. s.record_id == id) (length sdrs.nodes) r.chain
                        (omega arith),
                  )
                  (returns (find_cell-Selects (λ s. s.record_id == id) (λ s. refl) r.cells r.chain))
          ]
        ])

pub >>=-same :
    {A B : Type 0} {P : A → Type 0} {m : Outcome A} {f : A → Outcome B} {y : Outcome B}
    → Returns P m
    → ((a : A) → P a → f a ≡ y)
    → (m >>= f) ≡ y
>>=-same (returns {a = a} h) k = k a h

module _ (env : Env) (msg : Msg) (w : World) (rs : List Sdr) (h : Holds w rs) where
  read_spec-Selects :
      (found : Option Cell) (suffix : List Sdr) (offset count : ℕ)
      → Selects w.main_sdrs found suffix
      → elim found [
        | none ↦ return_err msg nil not_present_cc w
        | some (i, s) ↦ reply_sdr msg s offset count w
      ]
        ≡ read_spec msg suffix offset count w
  unfolding reply_sdr
  read_spec-Selects none suffix offset count e = rw e
  read_spec-Selects (some (i, s)) suffix offset count (rest, e, next) = rw (e, next)

  -- `getSdr` depends on the records alone: on a server whose repository holds the records `rs` it does what
  -- `get_spec` does with this sequence, errors and panics included.
  pub get_sdr-get_spec : get_sdr env msg w ≡ get_spec msg rs w
  unfolding get_sdr
  get_sdr-get_spec =
      let id = uint16_at msg.bytes (msg.data_start + 2) in
      elim (Bool-cases (stale_reservation msg w.main_sdrs.reservation)) [
        | inl stale ↦ rw stale
        | inr fresh ↦ rw fresh (
            >>=-same (select_sdr-Selects w.main_sdrs rs id h) λ found selected.
              read_spec-Selects found (select_spec id rs) (byte msg (msg.data_start + 4))
                (byte msg (msg.data_start + 5)) selected)
      ]

  -- So does `getSensorReading`: it replies with the value of the first record of the sensor.
  pub get_sensor_reading-find_record :
      get_sensor_reading env msg w
      ≡ elim (find_record (is_sensor msg.rmcp.message.rs_lun (byte msg msg.data_start)) rs) [
        | none ↦ return_err msg nil 0x81 w
        | some r ↦
            return_rsp_data msg nil (0 ∷ r.value ∷ reading_flags r ∷ put_uint16 r.event_status) w
      ]
  unfolding get_sensor_reading reading_flags
  get_sensor_reading-find_record =
      let sensor = is_sensor msg.rmcp.message.rs_lun (byte msg msg.data_start) in
      rw
        (
          find_record-cells sensor (λ s. refl) h,
          find_sdr-Chain sensor (length w.main_sdrs.nodes) h.chain (omega arith),
        )
        (elim (Option-cases (find_cell sensor h.cells)) [ inl e ↦ rw e | inr (x, e) ↦ rw e ])
