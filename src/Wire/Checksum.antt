-- ===== src/Wire/Checksum.antt =====
-- What `ipmiChecksum` of ipmi_internal_proto.go computes.
use ipmigod.Base.{ℕ, ◌+◌, ◌%◌, ◌≡◌, [], ◌∷◌, ◌++◌, arith}
use ipmigod.Wire.{Bytes, sum, neg8, checksum_loop, ipmi_checksum}

checksum_loop-sum : (bs : Bytes) (c : ℕ) → checksum_loop bs c % 256 ≡ (c + sum bs) % 256
unfolding checksum_loop
checksum_loop-sum [] c = omega arith
checksum_loop-sum (b ∷ bs) c = omega (arith, checksum_loop-sum bs ((c + b) % 256))

-- The bytes, the start value and the checksum together sum to 0 modulo 256.
pub checksum-zero_sum :
    (bs : Bytes) (start : ℕ) → ((start + sum bs + ipmi_checksum bs start) % 256 ≡ 0)
unfolding ipmi_checksum
checksum-zero_sum bs start = omega (arith, checksum_loop-sum bs start)

pub sum-append : (xs ys : Bytes) → sum (xs ++ ys) ≡ sum xs + sum ys
sum-append [] ys = omega arith
sum-append (x ∷ xs) ys = omega (arith, sum-append xs ys)

-- The second checksum of a packet: the code sums the three header bytes, negates the result and
-- goes on over the data. The two runs are one checksum over both.
pub checksum_two_runs :
    (head body : Bytes)
    → (sum head + sum body + ipmi_checksum body (neg8 (ipmi_checksum head 0))) % 256 ≡ 0
unfolding ipmi_checksum
checksum_two_runs head body =
    omega
      (arith, checksum_loop-sum head 0, checksum_loop-sum body (neg8 (neg8 (checksum_loop head 0))))
