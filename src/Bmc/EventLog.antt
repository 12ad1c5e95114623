-- ===== src/Bmc/EventLog.antt =====
-- `addToSel` of bmc.go: its loop, and the well-formedness of the log.
use ipmigod.Base.{
  ℕ, zero, suc, ◌+◌, ◌-◌, ◌%◌, ◌^◌, ◌≤◌, ◌<◌, ◌≡◌, ◌≢◌, refl, ◌∙◌, ◌⊎◌, inl, inr, false, Bool-cases,
  leb, none, some, List, [], ◌∷◌, ◌++◌, length, length-append, All, All-append, All-map, ok, bit_or,
  arith,
}
use mathlib.Core.Path.{ap₂}
use ipmigod.Bmc.Sized.{IsFull, length-sel_event}
use ipmigod.Protodefs.{out_of_space_cc}
use ipmigod.Wire.{Bytes}
use ipmigod.Bmc.{
  Sel, SelEntry, find_sel_event_by_recid, IdSearch, id_search, found, wrapped, out_of_fuel,
  id_search_fuel, sel_event, append_event, store_event, Added, add_to_sel_with, add_to_sel,
}

-- How far the loop is from the id that it started from.
abbrev distance : ℕ → ℕ → ℕ
distance next_entry start = (start + 2 ^ 16 - next_entry) % 2 ^ 16

id_search_ends :
    (fuel : ℕ) (entries : List SelEntry) (start record_id next_entry : ℕ)
    → start < 2 ^ 16
    → next_entry < 2 ^ 16
    → distance next_entry start < fuel
    → id_search fuel entries start record_id next_entry ≢ out_of_fuel
unfolding id_search
id_search_ends zero entries start record_id next_entry hs hn h = absurd (omega arith)
id_search_ends (suc fuel) entries start record_id next_entry hs hn h =
    ground (arith, id_search_ends fuel entries start next_entry ((next_entry + 1) % 2 ^ 16))

store_event-total :
    (sel : Sel) (now record_type : ℕ) (bytes : Bytes) (r : IdSearch)
    → r ≢ out_of_fuel
    → (a : Added) × (store_event sel now record_type bytes r ≡ ok a)
unfolding store_event
store_event-total sel now record_type bytes (found id next) h = (_, refl)
store_event-total sel now record_type bytes (wrapped next) h = (_, refl)
store_event-total sel now record_type bytes out_of_fuel h = absurd (h refl)

add_to_sel_with-total :
    (fuel : ℕ) (sel : Sel) (now record_type : ℕ) (bytes : Bytes)
    → 2 ^ 16 ≤ fuel
    → sel.next_entry < 2 ^ 16
    → (a : Added) × (add_to_sel_with fuel sel now record_type bytes ≡ ok a)
unfolding add_to_sel_with
add_to_sel_with-total fuel sel now record_type bytes enough h =
    elim (Bool-cases (leb sel.max_count sel.count)) [
      | inl full ↦ (
        record {
          err = out_of_space_cc;
          record_id = 0;
          sel = record sel { flags = bit_or sel.flags 0x80 };
        },
        rw full,
      )
      | inr room ↦
          let start = sel.next_entry in
          let (a, e) =
            store_event-total sel now record_type bytes
              (id_search fuel sel.entries start start ((start + 1) % 2 ^ 16))
              (id_search_ends fuel sel.entries start start ((start + 1) % 2 ^ 16) h (omega arith)
                (omega arith)) in
          (a, rw room e)
    ]

-- `addToSel` returns from every log whose id counter is a uint16: its loop ends.
pub add_to_sel-total :
    (sel : Sel) (now record_type : ℕ) (bytes : Bytes)
    → sel.next_entry < 2 ^ 16
    → (a : Added) × (add_to_sel sel now record_type bytes ≡ ok a)
unfolding add_to_sel
add_to_sel-total sel now record_type bytes h =
    add_to_sel_with-total id_search_fuel sel now record_type bytes (omega arith) h

-- No two entries share an id, except the id 0 of a blank entry.
abbrev pub IdsAreDistinct : List SelEntry → Type 0
IdsAreDistinct [] = Unit {0}
IdsAreDistinct (e ∷ es) =
    ((e.record_id ≡ 0) ⊎ (find_sel_event_by_recid e.record_id es ≡ none)) × IdsAreDistinct es

-- The next id is one above the number of events ever added, which every id in use is at most.
-- Every entry holds the 16 bytes of an event.
pub record EventLogIsValid (sel : Sel) : Type 0 where
  pub next : sel.next_entry ≡ sel.count + 1
  pub bounded : sel.count ≤ sel.max_count
  pub small : sel.max_count + 1 < 2 ^ 16
  pub stored : sel.count ≤ length sel.entries
  pub below : All (λ e. e.record_id ≤ sel.count) sel.entries
  pub distinct : IdsAreDistinct sel.entries
  pub full : All IsFull sel.entries

find-none_above :
    (es : List SelEntry) (n id : ℕ)
    → All (λ e. e.record_id ≤ n) es
    → n < id
    → find_sel_event_by_recid id es ≡ none
unfolding find_sel_event_by_recid
find-none_above [] n id h lt = refl
find-none_above (e ∷ es) n id h lt = ground (arith, find-none_above es n id h.1 lt)

pub find-append_last :
    (es : List SelEntry) (e : SelEntry)
    → find_sel_event_by_recid e.record_id es ≡ none
    → find_sel_event_by_recid e.record_id (es ++ e ∷ []) ≡ some e
unfolding find_sel_event_by_recid
find-append_last [] e h = ground arith
find-append_last (x ∷ es) e h = ground (arith, find-append_last es e)

find-append_none :
    (es : List SelEntry) (e : SelEntry) (id : ℕ)
    → find_sel_event_by_recid id es ≡ none
    → e.record_id ≢ id
    → find_sel_event_by_recid id (es ++ e ∷ []) ≡ none
unfolding find_sel_event_by_recid
find-append_none [] e id h ne = ground arith
find-append_none (x ∷ es) e id h ne = ground (arith, find-append_none es e id)

append-IdsAreDistinct :
    (es : List SelEntry) (e : SelEntry) (n : ℕ)
    → All (λ x. x.record_id ≤ n) es
    → n < e.record_id
    → IdsAreDistinct es
    → IdsAreDistinct (es ++ e ∷ [])
unfolding find_sel_event_by_recid
append-IdsAreDistinct [] e n h lt d = (inr refl, tt)
append-IdsAreDistinct (x ∷ es) e n h lt d =
    (ground (arith, find-append_none es e x.record_id), append-IdsAreDistinct es e n h.1 lt d.1)

-- The log behind an event that was stored.
abbrev pub with_event : Sel → ℕ → ℕ → Bytes → Sel
with_event sel now record_type bytes =
    append_event sel now record_type (sel.count + 1) bytes (sel.count + 2)

with_event-EventLogIsValid :
    (sel : Sel) (now record_type : ℕ) (bytes : Bytes)
    → EventLogIsValid sel
    → sel.count < sel.max_count
    → EventLogIsValid (with_event sel now record_type bytes)
unfolding append_event
with_event-EventLogIsValid sel now record_type bytes v room =
    let e : SelEntry = record {
      record_id = sel.count + 1;
      bytes = sel_event (sel.count + 1) record_type now bytes;
    } in
    record {
      next = omega (arith, v.bounded, v.small);
      bounded = omega (arith, v.bounded, v.small);
      small = v.small;
      stored = omega (arith, v.stored, length-append sel.entries (e ∷ []));
      below =
          All-append _ sel.entries (e ∷ [])
            (All-map _ _ sel.entries (λ x h. omega (arith, v.bounded, v.small)) v.below)
            (omega (arith, v.bounded, v.small), tt);
      distinct = append-IdsAreDistinct sel.entries e sel.count v.below (omega arith) v.distinct;
      full =
          All-append _ sel.entries (e ∷ []) v.full
            (length-sel_event (sel.count + 1) record_type now bytes, tt);
    }

id_search-fresh :
    (fuel : ℕ) (entries : List SelEntry) (start id next : ℕ)
    → next ≢ 0
    → find_sel_event_by_recid id entries ≡ none
    → id_search (suc fuel) entries start id next ≡ found id next
unfolding id_search
id_search-fresh fuel entries start id next h e = ground arith

-- On a well-formed log with room `addToSel` stores the event under the next id, finds it there, and
-- leaves the log well-formed.
pub add_to_sel-stores :
    (sel : Sel) (now record_type : ℕ) (bytes : Bytes)
    → EventLogIsValid sel
    → sel.count < sel.max_count
    → let sel' = with_event sel now record_type bytes in
      (add_to_sel sel now record_type bytes
        ≡ ok (record { err = 0; record_id = sel.count + 1; sel = sel' }))
      × EventLogIsValid sel'
      × (find_sel_event_by_recid (sel.count + 1) sel.entries ≡ none)
      × (find_sel_event_by_recid (sel.count + 1) sel'.entries
          ≡ some (record {
            record_id = sel.count + 1;
            bytes = sel_event (sel.count + 1) record_type now bytes;
          }))
unfolding add_to_sel add_to_sel_with store_event
add_to_sel-stores sel now record_type bytes v room =
    let full : leb sel.max_count sel.count ≡ false = ground arith in
    let new = find-none_above sel.entries sel.count (sel.count + 1) v.below (omega arith) in
    let new' : find_sel_event_by_recid sel.next_entry sel.entries ≡ none = rw v.next new in
    let run : id_search id_search_fuel sel.entries sel.next_entry sel.next_entry
          ((sel.next_entry + 1) % 2 ^ 16)
        ≡ found (sel.count + 1) (sel.count + 2) =
      id_search-fresh (2 ^ 16) sel.entries sel.next_entry sel.next_entry _
        (omega (arith, v.next, v.bounded, v.small)) new'
      ∙ ap₂ found v.next (omega (arith, v.next, v.bounded, v.small)) in
    (
      rw (full, run),
      with_event-EventLogIsValid sel now record_type bytes v room,
      new,
      unfold append_event in
          find-append_last sel.entries
            (record {
              record_id = sel.count + 1;
              bytes = sel_event (sel.count + 1) record_type now bytes;
            })
            new,
    )

-- A full log refuses the event, and only its overflow flag changes.
pub add_to_sel-full :
    (sel : Sel) (now record_type : ℕ) (bytes : Bytes)
    → sel.max_count ≤ sel.count
    → add_to_sel sel now record_type bytes
      ≡ ok (record {
        err = out_of_space_cc;
        record_id = 0;
        sel = record sel { flags = bit_or sel.flags 0x80 };
      })
unfolding add_to_sel add_to_sel_with
add_to_sel-full sel now record_type bytes full = ground arith
