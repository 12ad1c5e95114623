-- ===== src/Storage/Sel/ReadAll.antt =====
-- A reader of the event log who follows the ids in the replies of `getSelEntry` of ipmi_internal_storage.go.
use ipmigod.Base.{
  ℕ, zero, suc, ◌+◌, ◌-◌, ◌%◌, ◌^◌, ◌≤◌, ◌<◌, ◌≡◌, ◌≢◌, refl, ◌∙◌, sym, ap, true, false, ltb, leb,
  ◌==◌, ==_of_ne, if◌then◌else◌, some, List, [], ◌∷◌, ◌++◌, length, drop, get_elem?,
  get_elem?-IsSome_of_lt, Outcome, ok, stuck, ◌>>=◌, Returns, returns, Returns-map, arith,
}
use mathlib.Core.List.{append_assoc, append-nil}
use mathlib.Core.Path.{subst}
use ipmigod.Wire.{Bytes}
use ipmigod.Bmc.{SelEntry, Sel, add_to_sel, append_event, sel_event}
use ipmigod.Bmc.EventLog.{EventLogIsValid, add_to_sel-stores}
use ipmigod.Server.Boot.{init_sel, boot, boot-ServerIsValid}
use ipmigod.Storage.Sel.{select_by_id, select_entry}

-- The entries from the one on that an id names: the id 0 asks for the first, and the id 0xffff in a reply ends
-- the walk.
abbrev pub read_log : ℕ → ℕ → Sel → Outcome (List SelEntry)
read_log zero id sel = stuck
read_log (suc fuel) id sel = select_entry sel id >>= λ found.
    let rest = read_log fuel found.1 sel in
    (if found.1 == 0xffff then ok [] else rest) >>= λ es. ok (found.0 ∷ es)

-- The entries have the ids from `k` on.
abbrev pub Numbered : ℕ → List SelEntry → Type 0
Numbered k [] = Unit {0}
Numbered k (e ∷ es) = (e.record_id ≡ k) × Numbered (suc k) es

-- A log that was never cleared: it holds its events in the order of their ids.
pub record IsInOrder (sel : Sel) : Type 0 where
  pub numbered : Numbered 1 sel.entries
  pub counted : length sel.entries ≡ sel.count

-- The id that follows the entry at an index.
abbrev next_after : ℕ → ℕ → ℕ
next_after count i = if leb count (i + 1) then 0xffff else (i + 2) % 2 ^ 16

-- In a numbered list the id leads to the index.
select_by_id-Numbered :
    (es : List SelEntry) (k i j count : ℕ) (e : SelEntry)
    → Numbered k es
    → get_elem? es j ≡ some e
    → select_by_id (k + j) count i es ≡ (e, next_after count (i + j))
unfolding select_by_id
select_by_id-Numbered [] k i j count e h at = cc
select_by_id-Numbered (x ∷ es) k i zero count e h at =
    let here : (x.record_id == k + 0) ≡ true = ground (arith, h.0) in
    let same : x ≡ e = ground arith in
    rw (here, same) (ap (λ n. (e, next_after count n)) (omega arith))
select_by_id-Numbered (x ∷ es) k i (suc j) count e h at =
    let later : (x.record_id == k + suc j) ≡ false =
      ==_of_ne x.record_id (k + suc j) (λ p. omega (arith, p, h.0)) in
    rw later (
      ap (λ id. select_by_id id count (suc i) es) (omega arith)
      ∙ select_by_id-Numbered es (suc k) (suc i) j count e h.1 at
      ∙ ap (λ n. (e, next_after count n)) (omega arith))

drop-get_elem? :
    (es : List SelEntry) (j : ℕ) (e : SelEntry)
    → get_elem? es j ≡ some e
    → drop j es ≡ e ∷ drop (suc j) es
drop-get_elem? [] j e at = cc
drop-get_elem? (x ∷ es) zero e at = ground arith
drop-get_elem? (x ∷ es) (suc j) e at = drop-get_elem? es j e at

drop-length : (es : List SelEntry) (j : ℕ) → length es ≤ j → drop j es ≡ []
drop-length [] zero h = refl
drop-length [] (suc j) h = refl
drop-length (x ∷ es) zero h = absurd (omega arith)
drop-length (x ∷ es) (suc j) h = drop-length es j (omega arith)

-- The last step of a walk, and one before.
walk_end :
    (fuel id : ℕ) (sel : Sel) (e : SelEntry)
    → select_entry sel id ≡ ok (e, 0xffff)
    → read_log (suc fuel) id sel ≡ ok (e ∷ [])
walk_end fuel id sel e at = rw at

walk_next :
    (fuel id next : ℕ) (sel : Sel) (e : SelEntry) (es : List SelEntry)
    → select_entry sel id ≡ ok (e, next)
    → next ≢ 0xffff
    → read_log fuel next sel ≡ ok es
    → read_log (suc fuel) id sel ≡ ok (e ∷ es)
walk_next fuel id next sel e es at inner rest = rw (at, ==_of_ne next 0xffff inner, rest)

next_after-end : (count i : ℕ) → count ≤ i + 1 → next_after count i ≡ 0xffff
next_after-end count i h = ground arith

next_after-inner : (count i : ℕ) → i + 1 < count → count < 0xfffe → next_after count i ≡ suc (suc i)
next_after-inner count i h small = ground arith

first_next :
    (count : ℕ) → count < 0xfffe → (if ltb 0 (count - 1) then 2 else 0xffff) ≡ next_after count 0
first_next count small = ground arith

module _ (sel : Sel) (v : IsInOrder sel) (small : sel.count < 0xfffe) where
  select_entry-Numbered :
      (j : ℕ) (e : SelEntry)
      → j < sel.count
      → get_elem? sel.entries j ≡ some e
      → select_entry sel (suc j) ≡ ok (e, next_after sel.count j)
  unfolding select_entry
  select_entry-Numbered j e low at =
      let first : (suc j == 0) ≡ false = ground arith in
      let last : (suc j == 0xffff) ≡ false = ground arith in
      rw (first, last)
        (ap ok (
          ap (λ id. select_by_id id sel.count 0 sel.entries) (omega arith)
          ∙ select_by_id-Numbered sel.entries 1 0 j sel.count e v.numbered at
          ∙ ap (λ n. (e, next_after sel.count n)) (omega arith)))

  -- The walk from an index on.
  read_log-drop :
      (n j : ℕ) → j + suc n ≡ sel.count → read_log (suc n) (suc j) sel ≡ ok (drop j sel.entries)
  read_log-drop zero j end =
      let (e, at) = get_elem?-IsSome_of_lt sel.entries j (omega (arith, v.counted, end)) in
      walk_end 0 (suc j) sel e (
        select_entry-Numbered j e (omega (arith, end)) at
        ∙ ap (λ next. ok (e, next)) (next_after-end sel.count j (omega (arith, end))))
      ∙ ap ok (
          sym (
            drop-get_elem? sel.entries j e at
            ∙ ap (λ es. e ∷ es) (drop-length sel.entries (suc j) (omega (arith, v.counted, end)))))
  read_log-drop (suc n) j end =
      let (e, at) = get_elem?-IsSome_of_lt sel.entries j (omega (arith, v.counted, end)) in
      walk_next (suc n) (suc j) (suc (suc j)) sel e (drop (suc j) sel.entries)
        (select_entry-Numbered j e (omega (arith, end)) at
          ∙ ap (λ next. ok (e, next)) (next_after-inner sel.count j (omega (arith, end)) small))
        (λ p. omega (arith, p, end, small)) (read_log-drop n (suc j) (omega (arith, end)))
      ∙ ap ok (sym (drop-get_elem? sel.entries j e at))

  select_entry-first :
      (e : SelEntry)
      → get_elem? sel.entries 0 ≡ some e
      → select_entry sel 0 ≡ ok (e, next_after sel.count 0)
  unfolding select_entry
  select_entry-first e at = rw at (ap (λ next. ok (e, next)) (first_next sel.count small))

  -- A reader gets each event once, in order.
  pub read_log-entries : 1 ≤ sel.count → read_log sel.count 0 sel ≡ ok sel.entries
  read_log-entries some_entry =
      let n = sel.count - 1 in
      let (e, at) = get_elem?-IsSome_of_lt sel.entries 0 (omega (arith, v.counted)) in
      let same : select_entry sel 0 ≡ select_entry sel 1 =
        select_entry-first e at ∙ sym (select_entry-Numbered 0 e some_entry at) in
      let positive : sel.count ≡ suc n = omega arith in
      ap (λ fuel. read_log fuel 0 sel) positive ∙ rw same (read_log-drop n 0 (omega arith))

-- An event to add, with the time at which it is added.
pub record LogEvent : Type 0 where
  pub now : ℕ
  pub record_type : ℕ
  pub bytes : Bytes

-- Events added one after the other, the results dropped.
abbrev pub add_all : List LogEvent → Sel → Outcome Sel
add_all [] sel = ok sel
add_all (e ∷ es) sel = add_to_sel sel e.now e.record_type e.bytes >>= λ a. add_all es a.sel

-- The entries of the events, with the ids from `k` on.
abbrev pub entries_from : ℕ → List LogEvent → List SelEntry
entries_from k [] = []
entries_from k (e ∷ es) =
    record { record_id = k; bytes = sel_event k e.record_type e.now e.bytes }
    ∷ entries_from (suc k) es

length-entries_from : (k : ℕ) (es : List LogEvent) → length (entries_from k es) ≡ length es
length-entries_from k [] = refl
length-entries_from k (e ∷ es) = ap suc (length-entries_from (suc k) es)

entries_from-Numbered : (k : ℕ) (es : List LogEvent) → Numbered k (entries_from k es)
entries_from-Numbered k [] = tt
entries_from-Numbered k (e ∷ es) = (refl, entries_from-Numbered (suc k) es)

-- What the log is behind the events.
abbrev Grown : Sel → List LogEvent → Sel → Type 0
Grown sel es sel' =
    (sel'.entries ≡ sel.entries ++ entries_from (sel.count + 1) es)
    × (sel'.count ≡ sel.count + length es)

add_all-Grown :
    (es : List LogEvent) (sel : Sel)
    → EventLogIsValid sel
    → sel.count + length es ≤ sel.max_count
    → Returns (Grown sel es) (add_all es sel)
unfolding append_event
add_all-Grown [] sel v room = returns (sym (append-nil sel.entries), omega arith)
add_all-Grown (e ∷ es) sel v room =
    let (stores, valid, _, _) = add_to_sel-stores sel e.now e.record_type e.bytes v (omega arith) in
    let count : (sel.count + 1) % 2 ^ 16 ≡ sel.count + 1 =
      omega (arith, v.bounded, v.small, room) in
    let following : (sel.count + 1) % 2 ^ 16 + 1 ≡ suc (sel.count + 1) = omega (arith, count) in
    let new : SelEntry = record {
      record_id = sel.count + 1;
      bytes = sel_event (sel.count + 1) e.record_type e.now e.bytes;
    } in
    rw stores (
      Returns-map
        (λ sel' (entries, counted). (
          entries
              ∙ append_assoc sel.entries (new ∷ []) _
              ∙ ap (λ k. sel.entries ++ (new ∷ entries_from k es)) following,
          omega (arith, counted, count),
        ))
        (add_all-Grown es _ valid (omega (arith, count, room))))

init_sel-EventLogIsValid : EventLogIsValid init_sel
unfolding boot
init_sel-EventLogIsValid = (boot-ServerIsValid 0).log

-- Events added to the log as it starts, up to its size, are read back by a reader who follows the ids: each of
-- them once, in the order in which they were added.
pub read_log-add_all :
    (es : List LogEvent)
    → 1 ≤ length es
    → length es ≤ 1000
    → Returns (λ sel. read_log (length es) 0 sel ≡ ok (entries_from 1 es)) (add_all es init_sel)
read_log-add_all es some_event room =
    Returns-map
      (λ sel (entries, counted).
        let size : length es ≡ sel.count = omega (arith, counted) in
        let order : IsInOrder sel = record {
          numbered = subst (Numbered 1) (sym entries) (entries_from-Numbered 1 es);
          counted = ap length entries ∙ length-entries_from 1 es ∙ size;
        } in
        ap (λ n. read_log n 0 sel) (size)
        ∙ read_log-entries sel order (omega (arith, counted, room)) (omega (arith, counted))
        ∙ ap ok entries)
      (add_all-Grown es init_sel init_sel-EventLogIsValid (omega arith))
