-- ===== src/Storage/Sel/Clear.antt =====
-- `clearSel` of ipmi_internal_storage.go and the well-formedness of the log.
use ipmigod.Base.{
  ℕ, zero, suc, ◌≡◌, refl, inl, inr, ltb, Bool-cases, ok, replicate, length-replicate,
  All-replicate, arith,
}
use ipmigod.Wire.{Bytes}
use ipmigod.Bmc.{Sel, Added, zero_entry, append_event, add_to_sel}
use ipmigod.Bmc.EventLog.{EventLogIsValid, IdsAreDistinct, add_to_sel-stores, add_to_sel-full}
use ipmigod.Storage.Sel.{erase_sel}

blank-IdsAreDistinct : (n : ℕ) → IdsAreDistinct (replicate n zero_entry)
blank-IdsAreDistinct zero = tt
blank-IdsAreDistinct (suc n) = (inl refl, blank-IdsAreDistinct n)

-- An erased log is well-formed: its blank entries are as many as it may hold.
pub erase_sel-EventLogIsValid :
    (sel : Sel) (now : ℕ) → EventLogIsValid sel → EventLogIsValid (erase_sel sel now)
unfolding erase_sel
erase_sel-EventLogIsValid sel now v = record {
  next = v.next;
  bounded = v.bounded;
  small = v.small;
  stored = omega (arith, v.bounded, length-replicate sel.max_count zero_entry);
  below = All-replicate _ sel.max_count zero_entry (omega arith);
  distinct = blank-IdsAreDistinct sel.max_count;
  full = All-replicate _ sel.max_count zero_entry (omega arith);
}

-- Clearing a well-formed log makes no room: `addToSel` answers the next event with the error and the
-- id that it would have answered with before, and the count of events is the same.
pub add_to_sel-erase_sel :
    (sel : Sel) (erased now record_type : ℕ) (bytes : Bytes)
    → EventLogIsValid sel
    → (a : Added) × (b : Added) × (add_to_sel sel now record_type bytes ≡ ok a)
      × (add_to_sel (erase_sel sel erased) now record_type bytes ≡ ok b)
      × (b.err ≡ a.err)
      × (b.record_id ≡ a.record_id)
      × (b.sel.count ≡ a.sel.count)
unfolding erase_sel append_event
add_to_sel-erase_sel sel erased now record_type bytes v =
    let v' = erase_sel-EventLogIsValid sel erased v in
    elim (Bool-cases (ltb sel.count sel.max_count)) [
      | inl room ↦
          let stored = add_to_sel-stores sel now record_type bytes v (ground arith) in
          let stored' =
            add_to_sel-stores (erase_sel sel erased) now record_type bytes v' (ground arith) in
          (_, _, stored.0, stored'.0, refl, refl, refl)
      | inr full ↦ (
        _,
        _,
        add_to_sel-full sel now record_type bytes (ground arith),
        add_to_sel-full (erase_sel sel erased) now record_type bytes (ground arith),
        refl,
        refl,
        refl,
      )
    ]
