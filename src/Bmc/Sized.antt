-- ===== src/Bmc/Sized.antt =====
-- The arrays of bmc.go keep their size when bytes are copied into them.
use ipmigod.Base.{
  ℕ, ◌+◌, ◌≤◌, ◌≡◌, inl, inr, ltb, Bool-cases, ◌++◌, length, length-append, length-take,
  length-drop, replicate, take, drop, ◌-◌, arith,
}
use ipmigod.Wire.{Bytes, put_uint32}
use ipmigod.Bmc.{Sdr, SelEntry, copy_at, sel_event}

pub length-copy_at :
    (dst : Bytes) (i : ℕ) (src : Bytes) → i ≤ length dst → length (copy_at dst i src) ≡ length dst
length-copy_at dst i src h =
    let middle = take (length dst - i) src in
    let end = drop (i + length src) dst in
    omega (
      arith,
      length-append (take i dst) (middle ++ end),
      length-append middle end,
      length-take i dst,
      length-take (length dst - i) src,
      length-drop (i + length src) dst,
    )

-- `selEntryT.data` is an array of 16 bytes.
abbrev pub IsFull : SelEntry → Type 0
IsFull e = length e.bytes ≡ 16

-- `sdrT.data` is an array of 64 bytes, and the record in it is not longer.
abbrev pub IsSized : Sdr → Type 0
IsSized s = (length s.bytes ≡ 64) × (s.length ≤ 64)

pub length-sel_event :
    (record_id record_type now : ℕ) (bytes : Bytes)
    → length (sel_event record_id record_type now bytes) ≡ 16
unfolding sel_event
length-sel_event record_id record_type now bytes = elim (Bool-cases (ltb record_type 0xe0)) [
  | inl timed ↦ rw timed (
      omega
        (arith, length-copy_at (put_uint32 now ++ replicate 9 0) 4 (drop 7 bytes) (omega arith)))
  | inr plain ↦
      rw plain (omega (arith, length-copy_at (replicate 13 0) 0 (drop 3 bytes) (omega arith)))
]
