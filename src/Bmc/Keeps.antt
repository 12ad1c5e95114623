-- ===== src/Bmc/Keeps.antt =====
-- `addToSel` of bmc.go on a well-formed event log.
use ipmigod.Base.{ℕ, leb, Bool-cases, inl, inr, Returns, returns, arith}
use ipmigod.Wire.{Bytes}
use ipmigod.Bmc.{Sel, add_to_sel}
use ipmigod.Bmc.EventLog.{EventLogIsValid, add_to_sel-stores, add_to_sel-full}

overflow_valid :
    (sel : Sel) (f : ℕ) → EventLogIsValid sel → EventLogIsValid (record sel { flags = f })
overflow_valid sel f l = record {
  next = l.next;
  bounded = l.bounded;
  small = l.small;
  stored = l.stored;
  below = l.below;
  distinct = l.distinct;
  full = l.full;
}

pub add_to_sel-EventLogIsValid :
    (sel : Sel) (now record_type : ℕ) (bytes : Bytes)
    → EventLogIsValid sel
    → Returns (λ a. EventLogIsValid a.sel) (add_to_sel sel now record_type bytes)
add_to_sel-EventLogIsValid sel now record_type bytes l =
    elim (Bool-cases (leb sel.max_count sel.count)) [
      | inl full ↦
          rw (add_to_sel-full sel now record_type bytes (ground arith))
            (returns (overflow_valid sel _ l))
      | inr room ↦
          let (e, valid, _, _) = add_to_sel-stores sel now record_type bytes l (ground arith) in
          rw e (returns valid)
    ]
