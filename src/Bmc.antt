-- ===== src/Bmc.antt =====
-- bmc.go: the records of the management controller `mc`, and the operations on the event log.
-- An `*sdrT` is an index into `nodes`, the SDRs allocated so far, in order of allocation: the
-- linked list of the source is kept as a linked list. Fields that no code reads are left out.
pub mod Sized
pub mod EventLog
pub mod Keeps
use ipmigod.Base.{
  ℕ, zero, suc, ◌+◌, ◌-◌, ◌/◌, ◌%◌, ◌^◌, ltb, leb, ◌==◌, if◌then◌else◌, Bool, true, false, ◌||◌,
  Option, none, some, List, [], ◌∷◌, ◌++◌, length, take, drop, replicate, bit_or, Outcome, ok,
  stuck,
}
use ipmigod.Protodefs.{out_of_space_cc}
use ipmigod.Wire.{Bytes, put_uint16, put_uint32}

pub record Sdr : Type 0 where
  pub record_id : ℕ
  pub lun : ℕ
  pub sens_num : ℕ
  pub length : ℕ
  pub enabled : Bool
  pub events_enabled : Bool
  pub scanning_enabled : Bool
  pub event_status : ℕ
  pub value : ℕ
  pub bytes : Bytes
  pub next : Option ℕ

pub record Sdrs : Type 0 where
  pub reservation : ℕ
  pub sdr_count : ℕ
  pub max_sdr_count : ℕ
  pub last_add_time : ℕ
  pub last_erase_time : ℕ
  pub flags : ℕ
  pub next_free_entry_id : ℕ
  pub tail_sdr : Option ℕ
  pub sdrs : Option ℕ
  pub nodes : List Sdr

pub record SelEntry : Type 0 where
  pub record_id : ℕ
  pub bytes : Bytes

pub record Sel : Type 0 where
  pub entries : List SelEntry
  pub count : ℕ
  pub max_count : ℕ
  pub last_add_time : ℕ
  pub last_erase_time : ℕ
  pub flags : ℕ
  pub reservation : ℕ
  pub next_entry : ℕ

-- The zero value of `selEntryT`.
abbrev pub zero_entry : SelEntry
zero_entry = record { record_id = 0; bytes = replicate 16 0 }

-- `findSelEventByRecid`, over the entries from an index on.
unfoldable pub find_sel_event_by_recid : ℕ → List SelEntry → Option SelEntry
find_sel_event_by_recid record_id [] = none
find_sel_event_by_recid record_id (e ∷ es) =
    let rest = find_sel_event_by_recid record_id es in
    if e.record_id == record_id then some e else rest

-- `find_sel_event_by_recid … != nil`.
abbrev pub is_some {ℓ} : {A : Type ℓ} → Option A → Bool
is_some none = false
is_some (some a) = true

-- The loop of `addToSel` that looks for an unused record id. The state is the id `e.recordId` and
-- `mc.sel.nextEntry`, both uint16.
pub data IdSearch : Type 0 where
  -- The loop ended by its condition.
  found : ℕ → ℕ → IdSearch
  -- It came back to the id it started from, and `addToSel` returns.
  wrapped : ℕ → IdSearch
  -- No result of the code: the fuel ran out.
  out_of_fuel : IdSearch

unfoldable pub id_search : ℕ → List SelEntry → ℕ → ℕ → ℕ → IdSearch
id_search zero entries start record_id next_entry = out_of_fuel
id_search (suc fuel) entries start record_id next_entry =
    let next' = (next_entry + 1) % 2 ^ 16 in
    let rest = id_search fuel entries start next_entry next' in
    if next_entry == 0 || is_some (find_sel_event_by_recid record_id entries)
    then if next_entry == start then wrapped next' else rest
    else found record_id next_entry

-- The loop leaves by `wrapped` after 2 ^ 16 rounds at the latest.
abbrev pub id_search_fuel : ℕ
id_search_fuel = 2 ^ 16 + 1

-- `copy(dst[i:], src[j:])` on an array `dst`: what fits of `src` from `j` on replaces the bytes
-- from `i` on.
abbrev pub copy_at : Bytes → ℕ → Bytes → Bytes
copy_at dst i src = take i dst ++ (take (length dst - i) src ++ drop (i + length src) dst)

-- The event record that `addToSel` stores: id, type, then the time for types below 0xe0.
unfoldable pub sel_event : ℕ → ℕ → ℕ → Bytes → Bytes
sel_event record_id record_type now record_data =
    if ltb record_type 0xe0
    then put_uint16 record_id
      ++ (record_type ∷ copy_at (put_uint32 now ++ replicate 9 0) 4 (drop 7 record_data))
    else put_uint16 record_id ++ (record_type ∷ copy_at (replicate 13 0) 0 (drop 3 record_data))

-- The tail of `addToSel`: the record is stored under the id that the loop found.
unfoldable pub append_event : Sel → ℕ → ℕ → ℕ → Bytes → ℕ → Sel
append_event sel now record_type record_id record_data next_entry = record sel {
  entries =
      sel.entries
      ++ (record { record_id = record_id; bytes = sel_event record_id record_type now record_data }
          ∷ []);
  count = (sel.count + 1) % 2 ^ 16;
  last_add_time = now;
  next_entry = next_entry;
}

-- What `addToSel` returns, with the event log behind the call.
pub record Added : Type 0 where
  pub err : ℕ
  pub record_id : ℕ
  pub sel : Sel

unfoldable pub store_event : Sel → ℕ → ℕ → Bytes → IdSearch → Outcome Added
store_event sel now record_type record_data (found record_id next_entry) = ok (record {
  err = 0;
  record_id = record_id;
  sel = append_event sel now record_type record_id record_data next_entry;
})
store_event sel now record_type record_data (wrapped next_entry) =
    ok (record {
      err = out_of_space_cc;
      record_id = 0;
      sel = record sel { next_entry = next_entry };
    })
store_event sel now record_type record_data out_of_fuel = stuck

-- `addToSel`, with fuel for its loop; `now` is `uint32(time.Now().Unix())`. The slice
-- expressions `recordData[7:]` and `recordData[3:]` are in range at both callers, which pass 13
-- and 16 bytes.
unfoldable pub add_to_sel_with : ℕ → Sel → ℕ → ℕ → Bytes → Outcome Added
add_to_sel_with fuel sel now record_type record_data =
    if leb sel.max_count sel.count
    then ok (record {
      err = out_of_space_cc;
      record_id = 0;
      sel = record sel { flags = bit_or sel.flags 0x80 };
    })
    else store_event sel now record_type record_data
        (id_search fuel sel.entries sel.next_entry sel.next_entry ((sel.next_entry + 1) % 2 ^ 16))

unfoldable pub add_to_sel : Sel → ℕ → ℕ → Bytes → Outcome Added
add_to_sel = add_to_sel_with id_search_fuel
