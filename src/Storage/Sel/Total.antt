-- ===== src/Storage/Sel/Total.antt =====
-- `getSelEntry` of ipmi_internal_storage.go where it does not panic.
use ipmigod.Base.{
  >>=-Returns_eq, ℕ, suc, ◌+◌, ◌-◌, ◌%◌, ◌^◌, ◌≤◌, ◌<◌, ◌≡◌, ◌≢◌, true, false, Bool-cases, inl, inr,
  leb, ◌==◌, ◌&&◌, ok, List, [], ◌∷◌, ◌++◌, length, drop, replicate, get_elem?-IsSome_of_lt,
  length-take-le, All, All-get_elem?, Returns, returns, Returns-map, if-Returns, >>=-Returns, arith,
}
use ipmigod.Wire.{Bytes, uint16_at, put_uint16}
use ipmigod.Bmc.{Sel, SelEntry, copy_at}
use ipmigod.Bmc.Sized.{IsFull, length-copy_at}
use ipmigod.Bmc.EventLog.{EventLogIsValid}
use ipmigod.Message.{Msg, byte}
use ipmigod.World.{World, Env, nil}
use ipmigod.World.Frame.{Fits}
use ipmigod.Storage.Slices.{array_slice, stale_reservation}
use ipmigod.Storage.Validity.{ServerIsValid, err_keeps, rsp_keeps}
use ipmigod.Storage.Sel.{clip, select_by_id, select_entry, entry_reply, reply_entry, get_sel_entry}

-- A slice within the array.
pub array_slice-Returns :
    (a : Bytes) (lo hi : ℕ)
    → lo ≤ hi
    → hi ≤ length a
    → Returns (λ part. length part ≤ hi - lo) (array_slice a lo hi)
array_slice-Returns a lo hi h k =
    let inside : (leb lo hi && leb hi (length a)) ≡ true = ground arith in
    rw inside (returns (length-take-le (hi - lo) (drop lo a)))

select_by_id-IsFull :
    (id count i : ℕ) (es : List SelEntry) → All IsFull es → IsFull (select_by_id id count i es).0
unfolding select_by_id
select_by_id-IsFull id count i [] h = omega arith
select_by_id-IsFull id count i (e ∷ es) h = elim (Bool-cases (e.record_id == id)) [
  | inl here ↦ rw here h.0
  | inr later ↦ rw later (select_by_id-IsFull id count (suc i) es h.1)
]

-- A log that is not empty has an entry to choose.
pub select_entry-Returns :
    (sel : Sel) (id : ℕ)
    → EventLogIsValid sel
    → sel.count ≢ 0
    → Returns (λ found. IsFull found.0) (select_entry sel id)
unfolding select_entry
select_entry-Returns sel id v some_entry =
    let (first, at_first) = get_elem?-IsSome_of_lt sel.entries 0 (omega (arith, v.stored)) in
    let (last, at_last) =
      get_elem?-IsSome_of_lt sel.entries (sel.count - 1) (omega (arith, v.stored)) in
    if-Returns (id == 0)
      (λ _. rw at_first (returns (All-get_elem? _ sel.entries 0 first v.full at_first)))
      λ _.
        if-Returns (id == 0xffff)
          (λ _. rw at_last (returns (All-get_elem? _ sel.entries _ last v.full at_last)))
          (λ _. returns (select_by_id-IsFull id sel.count 0 sel.entries v.full))

-- What `clip` leaves of a range that does not wrap is within the entry.
clip_bounds :
    (offset count : ℕ)
    → offset < 16
    → offset + count < 2 ^ 8
    → (offset ≤ (offset + clip offset count) % 2 ^ 8)
      × ((offset + clip offset count) % 2 ^ 8 ≤ 16)
      × (clip offset count ≤ 16)
clip_bounds offset count low short = ground arith

entry_reply-Returns :
    (e : SelEntry) (next offset count : ℕ)
    → IsFull e
    → offset < 16
    → offset + count < 2 ^ 8
    → Returns Fits (entry_reply e next offset (clip offset count))
unfolding entry_reply
entry_reply-Returns e next offset count full low short =
    let (lo, hi, few) = clip_bounds offset count low short in
    let reply = 0 ∷ (put_uint16 next ++ replicate 16 0) in
    >>=-Returns _ (array_slice-Returns e.bytes offset _ lo (omega (arith, full, hi))) λ part _.
      let size = length-copy_at reply 3 part (omega arith) in
      Returns-map (λ b h. omega arith)
        (array_slice-Returns (copy_at reply 3 part) 0 ((clip offset count + 3) % 2 ^ 8)
          (omega arith) (omega (arith, size, few)))

-- `getSelEntry` on a well-formed server, where offset and count of a request that gets to them do not wrap.
pub get_sel_entry-Returns :
    (env : Env) (msg : Msg) (w : World)
    → ServerIsValid w
    → ((found : SelEntry × ℕ)
        → stale_reservation msg w.sel.reservation ≡ false
        → leb 16 (byte msg (msg.data_start + 4)) ≡ false
        → (w.sel.count == 0) ≡ false
        → select_entry w.sel (uint16_at msg.bytes (msg.data_start + 2)) ≡ ok found
        → (found.0.record_id == 0) ≡ false
        → byte msg (msg.data_start + 4) + byte msg (msg.data_start + 5) < 2 ^ 8)
    → Returns ServerIsValid (get_sel_entry env msg w)
unfolding get_sel_entry reply_entry
get_sel_entry-Returns env msg w v short =
    let offset = byte msg (msg.data_start + 4) in
    let count = byte msg (msg.data_start + 5) in
    if-Returns (stale_reservation msg w.sel.reservation) (λ _. err_keeps w v msg nil _)
      λ fresh.
        if-Returns (leb 16 offset) (λ _. err_keeps w v msg nil _)
          λ low.
            if-Returns (w.sel.count == 0) (λ _. err_keeps w v msg nil _)
              λ some_entry.
                >>=-Returns_eq _
                  (select_entry-Returns w.sel (uint16_at msg.bytes (msg.data_start + 2)) v.log
                    (ground arith))
                  λ (e, next) at full.
                    if-Returns (e.record_id == 0) (λ _. err_keeps w v msg nil _)
                      λ known.
                        >>=-Returns Fits
                          (entry_reply-Returns e next offset count full (ground arith)
                            (short (e, next) fresh low some_entry at known))
                          (λ bytes fits. rsp_keeps w v msg nil bytes fits)
