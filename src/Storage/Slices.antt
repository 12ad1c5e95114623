-- ===== src/Storage/Slices.antt =====
-- Slice expressions and guards that the storage commands share.
use ipmigod.Base.{
  ℕ, ◌+◌, ◌-◌, leb, ◌==◌, if◌then◌else◌, Bool, not, ◌&&◌, ◌||◌, length, take, drop, Outcome, ok,
  panic, ◌≤◌, Safe, returned, panicked, if-Safe, length-take-le, arith,
}
use ipmigod.Wire.{Bytes, uint16_at}
use ipmigod.Message.{Msg, byte}

-- `a[lo:hi]` on an array `a`, which panics out of range.
abbrev pub array_slice : Bytes → ℕ → ℕ → Outcome Bytes
array_slice a lo hi =
    if leb lo hi && leb hi (length a) then ok (take (hi - lo) (drop lo a)) else panic

-- `(reservation != 0) && (reservation != current)`, of the reservation in the request.
abbrev pub stale_reservation : Msg → ℕ → Bool
stale_reservation msg current =
    not (uint16_at msg.bytes msg.data_start == 0)
    && not (uint16_at msg.bytes msg.data_start == current)

-- The bytes "CLR" of a clear request, and its operation.
abbrev pub lacks_clr : Msg → Bool
lacks_clr msg =
    not (byte msg (msg.data_start + 2) == b'C')
    || (not (byte msg (msg.data_start + 3) == b'L') || not (byte msg (msg.data_start + 4) == b'R'))

abbrev pub bad_clear_op : Msg → Bool
bad_clear_op msg =
    not (byte msg (msg.data_start + 5) == 0) && not (byte msg (msg.data_start + 5) == 0xaa)

pub array_slice-Safe :
    (a : Bytes) (lo hi : ℕ) → Safe (λ part. length part ≤ hi) (array_slice a lo hi)
array_slice-Safe a lo hi =
    if-Safe (leb lo hi && leb hi (length a))
      (λ _. returned (omega (arith, length-take-le (hi - lo) (drop lo a)))) (λ _. panicked)
