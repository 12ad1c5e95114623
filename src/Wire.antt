-- ===== src/Wire.antt =====
-- Bytes on the wire: the little-endian codecs of encoding/binary that every handler uses, shifts of
-- machine words, and `ipmiChecksum` of ipmi_internal_proto.go.
-- A uint8 is a number below 2 ^ 8, and an int8 is the bit pattern of one.
pub mod Checksum
pub mod Endian
pub mod Fields
use ipmigod.Base.{ℕ, ◌+◌, ◌-◌, ◌*◌, ◌/◌, ◌%◌, ◌^◌, ◌<◌, List, [], ◌∷◌, get_or, All}

abbrev pub Bytes : Type 0
Bytes = List ℕ

abbrev pub IsByte : ℕ → Type 0
IsByte b = b < 256

-- `x >> k`, and `x << k` on a word of `w` bits.
abbrev pub shr : ℕ → ℕ → ℕ
shr x k = x / 2 ^ k

abbrev pub shl : ℕ → ℕ → ℕ → ℕ
shl w x k = x * 2 ^ k % 2 ^ w

-- `x & (2 ^ k - 1)`.
abbrev pub low_bits : ℕ → ℕ → ℕ
low_bits x k = x % 2 ^ k

-- binary.LittleEndian.PutUint16 and PutUint32, as the bytes written.
abbrev pub put_uint16 : ℕ → Bytes
put_uint16 v = (v % 256) ∷ (v / 256 % 256) ∷ []

abbrev pub put_uint32 : ℕ → Bytes
put_uint32 v = (v % 256) ∷ (v / 256 % 256) ∷ (v / 65536 % 256) ∷ (v / 16777216 % 256) ∷ []

-- binary.LittleEndian.Uint16 and Uint32, of the bytes at an offset.
unfoldable pub uint16_at : Bytes → ℕ → ℕ
uint16_at bs i = get_or bs i 0 + 256 * get_or bs (i + 1) 0

unfoldable pub uint32_at : Bytes → ℕ → ℕ
uint32_at bs i =
    get_or bs i 0
    + 256 * get_or bs (i + 1) 0
    + 65536 * get_or bs (i + 2) 0
    + 16777216 * get_or bs (i + 3) 0

abbrev pub sum : Bytes → ℕ
sum [] = 0
sum (b ∷ bs) = b + sum bs

-- The negation of an int8, on its bit pattern.
abbrev pub neg8 : ℕ → ℕ
neg8 x = (256 - x % 256) % 256

-- The loop `csum += int8(data[dataIdx])`.
unfoldable pub checksum_loop : Bytes → ℕ → ℕ
checksum_loop [] csum = csum
checksum_loop (b ∷ bs) csum = checksum_loop bs ((csum + b) % 256)

-- `size` is the length of `data` at every call.
unfoldable pub ipmi_checksum : Bytes → ℕ → ℕ
unfolding checksum_loop
ipmi_checksum bs start = neg8 (checksum_loop bs start)
