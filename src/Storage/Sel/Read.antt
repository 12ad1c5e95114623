-- ===== src/Storage/Sel/Read.antt =====
-- `getSelEntry` of ipmi_internal_storage.go: the entry it selects, and its offset and count.
use ipmigod.Base.{
  ℕ, suc, ◌+◌, ◌^◌, ◌≤◌, ◌<◌, ◌≡◌, ◌≢◌, false, some, List, [], ◌∷◌, ok, panic, arith,
}
use ipmigod.Wire.{Bytes, uint16_at}
use ipmigod.Bmc.{SelEntry, Sel, Added, add_to_sel, sel_event, find_sel_event_by_recid}
use ipmigod.Bmc.EventLog.{EventLogIsValid, add_to_sel-stores}
use ipmigod.Message.{Msg, byte}
use ipmigod.World.{World, Env}
use ipmigod.Storage.Slices.{stale_reservation}
use ipmigod.Storage.Sel.{entry_reply, select_entry, select_by_id, reply_entry, get_sel_entry}

-- The entry that the loop of `getSelEntry` selects is the one `findSelEventByRecid` finds.
pub select_by_id-finds :
    (es : List SelEntry) (id count i : ℕ) (e : SelEntry)
    → find_sel_event_by_recid id es ≡ some e
    → (select_by_id id count i es).0 ≡ e
unfolding select_by_id find_sel_event_by_recid
select_by_id-finds [] id count i e h = cc
select_by_id-finds (x ∷ es) id count i e h =
    ground (arith, select_by_id-finds es id count (suc i) e)

-- `getSelEntry` panics where `offset+count` wraps: on uint8 the sum is then below the offset, and the
-- clipping to 16 bytes does not see it.
pub get_sel_entry-panics :
    (env : Env) (msg : Msg) (w : World) (e : SelEntry) (next : ℕ)
    → stale_reservation msg w.sel.reservation ≡ false
    → byte msg (msg.data_start + 4) < 16
    → byte msg (msg.data_start + 5) < 2 ^ 8
    → 2 ^ 8 ≤ byte msg (msg.data_start + 4) + byte msg (msg.data_start + 5)
    → w.sel.count ≢ 0
    → select_entry w.sel (uint16_at msg.bytes (msg.data_start + 2)) ≡ ok (e, next)
    → e.record_id ≢ 0
    → get_sel_entry env msg w ≡ panic
unfolding get_sel_entry reply_entry entry_reply
get_sel_entry-panics env msg w e next fresh low byte_count wraps some_entry at known = ground arith

select_entry-finds :
    (sel : Sel) (id : ℕ) (e : SelEntry)
    → find_sel_event_by_recid id sel.entries ≡ some e
    → id ≢ 0
    → id ≢ 0xffff
    → (next : ℕ) × (select_entry sel id ≡ ok (e, next))
unfolding select_entry
select_entry-finds sel id e at first last =
    let found = select_by_id id sel.count 0 sel.entries in
    let p : found.0 ≡ e = select_by_id-finds sel.entries id sel.count 0 e at in
    (found.1, ground arith)

-- An event that `addToSel` takes into a log with room is the one that `getSelEntry` selects under
-- the id that `addToSel` returns, as long as that id is not 0xffff.
pub select_entry-add_to_sel :
    (sel : Sel) (now record_type : ℕ) (bytes : Bytes)
    → EventLogIsValid sel
    → sel.count < sel.max_count
    → sel.count + 1 ≢ 0xffff
    → (a : Added) × (next : ℕ) × (add_to_sel sel now record_type bytes ≡ ok a)
      × (select_entry a.sel a.record_id
          ≡ ok (
            record { record_id = a.record_id; bytes = sel_event a.record_id record_type now bytes },
            next,
          ))
select_entry-add_to_sel sel now record_type bytes v room last =
    let (e, valid, fresh, stored) = add_to_sel-stores sel now record_type bytes v room in
    let (next, at) = select_entry-finds _ (sel.count + 1) _ stored (ground arith) last in
    (_, next, e, at)
