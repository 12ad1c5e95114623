-- ===== src/World/Reply.antt =====
-- The packet that `returnRsp` sends, as its receiver sees it.
use ipmigod.Base.{
  ℕ, ◌+◌, ◌%◌, ◌^◌, ◌<◌, ◌≡◌, refl, ap, ◌∙◌, ◌==◌, if◌then◌else◌, List, [], ◌∷◌, ◌++◌, length,
  length-append, take, drop, arith,
}
use ipmigod.Protodefs.{authtype_none}
use ipmigod.Wire.{Bytes, sum, ipmi_checksum, neg8}
use ipmigod.Wire.Checksum.{checksum-zero_sum, checksum_two_runs, sum-append}
use ipmigod.Lanserv.{Session}
use ipmigod.Message.{Msg}
use ipmigod.World.{Rsp, session_header, message_layer, return_packet, rq_bytes, rs_bytes}

-- The bytes in front of the length byte.
abbrev pub header_length : Session → ℕ
header_length s = if s.authtype == authtype_none then 13 else 29

-- A receiver accepts a message layer: the first three bytes sum to 0 modulo 256, and so do the rest.
abbrev pub Verifies : Bytes → Type 0
Verifies layer = (sum (take 3 layer) % 256 ≡ 0) × (sum (drop 3 layer) % 256 ≡ 0)

pub message_layer-Verifies : (msg : Msg) (rsp : Rsp) → Verifies (message_layer msg rsp)
unfolding message_layer
message_layer-Verifies msg rsp = (
  omega (arith, checksum-zero_sum (rq_bytes msg rsp) 0),
  omega (
    arith,
    checksum_two_runs (rs_bytes msg rsp) rsp.bytes,
    sum-append rsp.bytes (ipmi_checksum rsp.bytes (neg8 (ipmi_checksum (rs_bytes msg rsp) 0)) ∷ []),
  ),
)

pub length-message_layer :
    (msg : Msg) (rsp : Rsp) → length (message_layer msg rsp) ≡ length rsp.bytes + 7
unfolding message_layer
length-message_layer msg rsp = omega (
  arith,
  length-append rsp.bytes
      (ipmi_checksum rsp.bytes (neg8 (ipmi_checksum (rs_bytes msg rsp) 0)) ∷ []),
)

pub length-session_header : (s : Session) → length (session_header s) ≡ header_length s
unfolding session_header
length-session_header s = ground arith

drop-append {ℓ} : {A : Type ℓ} (xs ys : List A) → drop (length xs) (xs ++ ys) ≡ ys
drop-append [] ys = refl
drop-append (x ∷ xs) ys = drop-append xs ys

-- The length byte: `uint8(rsp.dataLen + 7)`.
abbrev pub length_byte : Rsp → ℕ
length_byte rsp = (length rsp.bytes + 7) % 2 ^ 16 % 2 ^ 8

return_packet_lem :
    (msg : Msg) (s : Session) (rsp : Rsp)
    → return_packet msg s rsp ≡ session_header s ++ (length_byte rsp ∷ message_layer msg rsp)
unfolding return_packet
return_packet_lem msg s rsp = refl

pub length-return_packet :
    (msg : Msg) (s : Session) (rsp : Rsp)
    → length (return_packet msg s rsp) ≡ header_length s + length rsp.bytes + 8
length-return_packet msg s rsp = rw (return_packet_lem msg s rsp) (
    omega (
      arith,
      length-append (session_header s) (length_byte rsp ∷ message_layer msg rsp),
      length-session_header s,
      length-message_layer msg rsp,
    ))

-- A reply carries its message layer behind the header and the length byte.
pub drop-return_packet :
    (msg : Msg) (s : Session) (rsp : Rsp)
    → drop (header_length s) (return_packet msg s rsp) ≡ length_byte rsp ∷ message_layer msg rsp
drop-return_packet msg s rsp =
    rw (return_packet_lem msg s rsp, ← length-session_header s)
      (drop-append (session_header s) (length_byte rsp ∷ message_layer msg rsp))

-- Every packet that `returnRsp` builds is its headers, the length byte and a message layer whose
-- two checksums verify; the length byte is the layer's length modulo 256.
pub return_packet-Verifies :
    (msg : Msg) (s : Session) (rsp : Rsp)
    → length rsp.bytes + 7 < 2 ^ 16
    → (layer : Bytes) × (drop (header_length s) (return_packet msg s rsp)
        ≡ (length layer % 256) ∷ layer)
      × Verifies layer
return_packet-Verifies msg s rsp h = (
  message_layer msg rsp,
  drop-return_packet msg s rsp
      ∙ ap (λ n. n ∷ message_layer msg rsp) (omega (arith, length-message_layer msg rsp)),
  message_layer-Verifies msg rsp,
)
