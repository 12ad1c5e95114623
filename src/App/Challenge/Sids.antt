-- ===== src/App/Challenge/Sids.antt =====
-- The temporary session id of `getSessionChallenge`, as arithmetic.
use ipmigod.Base.{
  ℕ, ◌+◌, ◌*◌, ◌/◌, ◌%◌, ◌^◌, ◌<◌, ◌≤◌, ◌≡◌, refl, ap, ◌∙◌, bit_or, ◌==◌, ==_iff, if◌then◌else◌,
  Bool-cases, inl, inr, arith,
}
use mathlib.Core.Path.{ap₂}
use ipmigod.Lanserv.{max_users}
use ipmigod.Base.Bits.{bit_or-shift, bit_or-shift_both, bit_or_step, bit_or-zero}
use ipmigod.Wire.{shl, shr, low_bits}
use ipmigod.Wire.Fields.{two_fields}
use ipmigod.App.Challenge.{challenge_sid}

challenge_sid_fields :
    (n idx : ℕ) → idx < 64 → challenge_sid n idx ≡ (n % 2 ^ 25 * 2 ^ 6 + idx) * 2 ^ 1 + 1
unfolding challenge_sid
challenge_sid_fields n idx h =
    ap (λ t. bit_or t 1) (two_fields n idx h)
    ∙ bit_or-shift 1 (n % 2 ^ 25 * 2 ^ 6 + idx) 1 (omega arith)

-- For the user 64 the index does not fit into its bits, and runs into the sequence number.
challenge_sid-last_user : (n : ℕ) → challenge_sid n 64 ≡ bit_or (n % 2 ^ 25) 1 * 2 ^ 7 + 1
unfolding challenge_sid
challenge_sid-last_user n =
    ap (λ t. bit_or t 1) (ap₂ bit_or high low ∙ bit_or-shift_both 7 (n % 2 ^ 25) 1)
    ∙ bit_or-shift 7 (bit_or (n % 2 ^ 25) 1) 1 (omega arith)
  where
    high : shl 32 n 7 ≡ n % 2 ^ 25 * 2 ^ 7
    high = omega arith

    low : shl 32 64 1 ≡ 1 * 2 ^ 7
    low = refl

-- The temporary id that a challenge for the user at index `idx`, 64 at most, hands out is a 32-bit odd number,
-- and the index that `activateSession` reads from it is `idx`, but for the user 64, for whom it is 0.
pub challenge_sid-names_user :
    (n idx : ℕ)
    → idx ≤ max_users
    → (challenge_sid n idx < 2 ^ 32)
      × (low_bits (challenge_sid n idx) 1 ≡ 1)
      × (low_bits (shr (challenge_sid n idx) 1) 6 ≡ (if idx == 64 then 0 else idx))
challenge_sid-names_user n idx h = elim (Bool-cases (idx == 64)) [
  | inl last ↦ rw ((==_iff idx 64).0 last) (
      omega (
        arith,
        challenge_sid-last_user n,
        bit_or_step (n % 2 ^ 25) 1,
        bit_or-zero (n % 2 ^ 25 / 2),
      ))
  | inr below ↦
      let small : idx < 64 = ground arith in
      rw below (omega (arith, challenge_sid_fields n idx small))
]
