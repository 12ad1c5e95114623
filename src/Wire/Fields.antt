-- ===== src/Wire/Fields.antt =====
-- The layout that session ids and temporary ids share: a sequence number above seven bits, and an
-- index of six bits above the lowest.
use ipmigod.Base.{ℕ, ◌+◌, ◌*◌, ◌%◌, ◌^◌, ◌<◌, ◌≡◌, ◌∙◌, bit_or, arith}
use ipmigod.Base.Bits.{bit_or-shift}
use mathlib.Core.Path.{ap₂}
use ipmigod.Wire.{shl}

pub two_fields :
    (n i : ℕ) → i < 64 → bit_or (shl 32 n 7) (shl 32 i 1) ≡ (n % 2 ^ 25 * 2 ^ 6 + i) * 2 ^ 1
two_fields n i h =
    ap₂ bit_or high low ∙ bit_or-shift 7 (n % 2 ^ 25) (i * 2) (omega arith) ∙ omega arith
  where
    high : shl 32 n 7 ≡ n % 2 ^ 25 * 2 ^ 7
    high = omega arith

    low : shl 32 i 1 ≡ i * 2
    low = omega arith
