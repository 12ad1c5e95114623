-- ===== src/Storage/Sel.antt =====
-- The event log commands of ipmi_internal_storage.go.
pub mod Clear
pub mod Keeps
pub mod Total
pub mod ReadAll
pub mod Read
use ipmigod.Base.{
  ℕ, zero, suc, ◌+◌, ◌-◌, ◌*◌, ◌%◌, ◌^◌, ltb, leb, ◌==◌, if◌then◌else◌, Bool, not, bit_and, Option,
  none, some, List, [], ◌∷◌, ◌++◌, get_elem?, length, replicate, Outcome, ok, panic, ◌>>=◌,
  or_panic,
}
use ipmigod.Protodefs.{invalid_reservation_cc, invalid_data_field_cc, not_present_cc}
use ipmigod.Wire.{Bytes, put_uint16, put_uint32, uint16_at}
use ipmigod.Bmc.{SelEntry, Sel, zero_entry, copy_at, Added, add_to_sel}
use ipmigod.Message.{Msg, byte, slice}
use ipmigod.World.{World, Env, Handler, nil, return_err, return_rsp_data}
use ipmigod.Storage.Slices.{array_slice, stale_reservation, lacks_clr, bad_clear_op}

-- `getSelInfo`.
unfoldable pub get_sel_info : Handler
get_sel_info env msg w =
    return_rsp_data msg nil
      (0
        ∷ 0x51
        ∷ (put_uint16 w.sel.count
            ++ (put_uint16 ((w.sel.max_count + 2 ^ 16 - w.sel.count) % 2 ^ 16 * 16 % 2 ^ 16)
                ++ (put_uint32 w.sel.last_add_time
                    ++ (put_uint32 w.sel.last_erase_time ++ (w.sel.flags ∷ []))))))
      w

-- `reservation++`, where 0 is skipped.
unfoldable pub next_reservation : ℕ → ℕ
next_reservation r = let next = (r + 1) % 2 ^ 16 in if next == 0 then (next + 1) % 2 ^ 16 else next

-- `reserveSel`.
unfoldable pub reserve_sel : Handler
reserve_sel env msg w =
    let r = next_reservation w.sel.reservation in
    return_rsp_data msg nil (0 ∷ put_uint16 r)
      (record w { sel = record (w.sel) { reservation = r } })

-- The loop of `getSelEntry` over the entries from index `i` on: the entry and the id that the reply
-- calls the next. The zero values are left where no entry has the id.
unfoldable pub select_by_id : ℕ → ℕ → ℕ → List SelEntry → SelEntry × ℕ
select_by_id record_id count i [] = (zero_entry, 0)
select_by_id record_id count i (e ∷ es) =
    let rest = select_by_id record_id count (suc i) es in
    if e.record_id == record_id
    then (e, if leb count (i + 1) then 0xffff else (i + 2) % 2 ^ 16)
    else rest

-- The choice of `getSelEntry`: id 0 is the first entry, 0xffff the last.
unfoldable pub select_entry : Sel → ℕ → Outcome (SelEntry × ℕ)
select_entry sel record_id =
    if record_id == 0
    then (or_panic (get_elem? sel.entries 0) >>= λ e.
        ok (e, if ltb 0 (sel.count - 1) then 2 else 0xffff))
    else if record_id == 0xffff
    then (or_panic (get_elem? sel.entries (sel.count - 1)) >>= λ e. ok (e, 0xffff))
    else ok (select_by_id record_id sel.count 0 sel.entries)

-- `if (offset + count) > 16 { count = 16 - offset }`, on uint8.
abbrev pub clip : ℕ → ℕ → ℕ
clip offset count = if ltb 16 ((offset + count) % 2 ^ 8) then 16 - offset else count

-- The reply of `getSelEntry`: the bytes of the event from `offset` on.
unfoldable pub entry_reply : SelEntry → ℕ → ℕ → ℕ → Outcome Bytes
entry_reply e next offset count = array_slice e.bytes offset ((offset + count) % 2 ^ 8) >>= λ part.
    array_slice (copy_at (0 ∷ (put_uint16 next ++ replicate 16 0)) 3 part) 0 ((count + 3) % 2 ^ 8)

unfoldable pub reply_entry : Msg → SelEntry × ℕ → ℕ → ℕ → World → Outcome World
reply_entry msg (e, next) offset count w =
    if e.record_id == 0
    then return_err msg nil not_present_cc w
    else entry_reply e next offset (clip offset count) >>= λ bytes. return_rsp_data msg nil bytes w

-- `getSelEntry`.
unfoldable pub get_sel_entry : Handler
get_sel_entry env msg w =
    let record_id = uint16_at msg.bytes (msg.data_start + 2) in
    let offset = byte msg (msg.data_start + 4) in
    let count = byte msg (msg.data_start + 5) in
    if stale_reservation msg w.sel.reservation
    then return_err msg nil invalid_reservation_cc w
    else if leb 16 offset
    then return_err msg nil invalid_data_field_cc w
    else if w.sel.count == 0
    then return_err msg nil not_present_cc w
    else select_entry w.sel record_id >>= λ found. reply_entry msg found offset count w

-- `addSelEntry`: the type is byte 2 of the request's record, and the data passed on starts at
-- byte 3.
unfoldable pub add_sel_entry : Handler
add_sel_entry env msg w =
    add_to_sel w.sel env.now (byte msg (msg.data_start + 2))
      (slice msg.bytes (msg.data_start + 3) 13)
    >>= λ added.
        let w' = record w { sel = added.sel } in
        if not (added.err == 0)
        then return_err msg nil (added.err % 2 ^ 8) w'
        else return_rsp_data msg nil (0 ∷ put_uint16 added.record_id) w'

-- What `clearSel` does to the log for the operation 0xaa.
unfoldable pub erase_sel : Sel → ℕ → Sel
erase_sel sel now = record sel {
  entries = replicate sel.max_count zero_entry;
  last_erase_time = now;
  flags = bit_and sel.flags 0x7f;
}

-- `clearSel`.
unfoldable pub clear_sel : Handler
clear_sel env msg w =
    if stale_reservation msg w.sel.reservation
    then return_err msg nil invalid_reservation_cc w
    else if lacks_clr msg
    then return_err msg nil invalid_data_field_cc w
    else if bad_clear_op msg
    then return_err msg nil invalid_data_field_cc w
    else return_rsp_data msg nil (0 ∷ 1 ∷ []) (
        if byte msg (msg.data_start + 5) == 0xaa
        then record w { sel = erase_sel w.sel env.now }
        else w)
