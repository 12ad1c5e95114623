-- ===== src/Client/RoundTrip.antt =====
-- `clientBuildMsg` of ipmi_client.go against `ipmiParseMsg` of ipmi_proto.go.
use ipmigod.Base.{
  ℕ, zero, suc, get_or, length-append, ◌+◌, ◌%◌, ◌^◌, ◌≤◌, ◌<◌, ◌≡◌, refl, [], ◌∷◌, ◌++◌, length,
  take, bit_or, ◌∙◌, ap, ◌*◌, arith,
}
use ipmigod.Base.Bits.{bit_or-shift}
use ipmigod.Wire.{Bytes, put_uint32, uint32_at, shl, neg8, ipmi_checksum}
use ipmigod.Message.{Msg, new_msg, slice, load_hdr, load_session, load_message, ipmi_parse_rmcp_msg}
use ipmigod.World.{World}
use ipmigod.Server.{ipmi_parse_msg}
use ipmigod.Client.{client_msg, client_build_msg, rs_part, rq_part}

-- A byte packed from six bits and two.
packed : (h l : ℕ) → h < 64 → l < 4 → bit_or (shl 8 h 2) l ≡ h * 4 + l
packed h l hh hl = ap (λ x. bit_or x l) high ∙ bit_or-shift 2 h l (omega arith) ∙ omega arith
  where
    high : shl 8 h 2 ≡ h * 2 ^ 2
    high = omega arith

-- What stands before the payload of a request.
abbrev pub head : ℕ → ℕ → ℕ → ℕ → ℕ → ℕ → ℕ → ℕ → Bytes
head req_len sseq sid rs_lun net_fn rq_lun rq_seq cmd =
    (6 ∷ 0 ∷ 0xff ∷ 7 ∷ 0 ∷ [])
    ++ (put_uint32 sseq
        ++ (put_uint32 sid
            ++ (req_len
                ∷ (rs_part rs_lun net_fn
                    ++ (ipmi_checksum (rs_part rs_lun net_fn) 0 ∷ rq_part rq_lun rq_seq cmd)))))

slice-cons : (b : ℕ) (bs : Bytes) (i n : ℕ) → slice (b ∷ bs) (suc i) n ≡ slice bs i n
slice-cons b bs i zero = refl
slice-cons b bs i (suc n) = ap (◌∷◌ (get_or bs i 0)) (slice-cons b bs (suc i) n)

slice-append : (xs ys : Bytes) (n : ℕ) → slice (xs ++ ys) (length xs) n ≡ slice ys 0 n
slice-append [] ys n = refl
slice-append (x ∷ xs) ys n = slice-cons x (xs ++ ys) (length xs) n ∙ slice-append xs ys n

slice-front : (xs ys : Bytes) → slice (xs ++ ys) 0 (length xs) ≡ xs
slice-front [] ys = refl
slice-front (x ∷ xs) ys = ap (◌∷◌ x) (slice-cons x (xs ++ ys) 0 (length xs) ∙ slice-front xs ys)

take-length : (xs : Bytes) → take (length xs) xs ≡ xs
take-length [] = refl
take-length (x ∷ xs) = ap (◌∷◌ x) (take-length xs)

length-client_msg :
    (cmd_data : Bytes) (req_len sseq sid rs_lun net_fn rq_lun rq_seq cmd : ℕ)
    → length (client_msg cmd_data req_len sseq sid rs_lun net_fn rq_lun rq_seq cmd)
      ≡ length cmd_data + 21
unfolding client_msg
length-client_msg cmd_data req_len sseq sid rs_lun net_fn rq_lun rq_seq cmd = omega (
  arith,
  length-append cmd_data
      (ipmi_checksum cmd_data (neg8 (ipmi_checksum (rq_part rq_lun rq_seq cmd) 0)) ∷ []),
)

-- The length of a request of up to 234 payload bytes fits a byte: nothing of it is cut off.
pub client_build_msg-whole :
    (cmd_data : Bytes) (req_len sseq sid rs_lun net_fn rq_lun rq_seq cmd : ℕ)
    → length cmd_data ≤ 234
    → client_build_msg cmd_data req_len sseq sid rs_lun net_fn rq_lun rq_seq cmd
      ≡ client_msg cmd_data req_len sseq sid rs_lun net_fn rq_lun rq_seq cmd
unfolding client_build_msg
client_build_msg-whole cmd_data req_len sseq sid rs_lun net_fn rq_lun rq_seq cmd h =
    let msg = client_msg cmd_data req_len sseq sid rs_lun net_fn rq_lun rq_seq cmd in
    let short : length msg % 2 ^ 8 ≡ length msg =
      omega (arith, length-client_msg cmd_data req_len sseq sid rs_lun net_fn rq_lun rq_seq cmd) in
    rw short (take-length msg)

-- A parsed request: no authentication, the fields given, and the payload behind byte 20.
pub record IsRequest (sid rs_lun net_fn rq_lun rq_seq cmd : ℕ) (cmd_data : Bytes) (msg : Msg)
    : Type 0 where
  pub plain : msg.authtype ≡ 0
  pub session : msg.sid ≡ sid
  pub function : msg.rmcp.message.netfn ≡ net_fn
  pub to_lun : msg.rmcp.message.rs_lun ≡ rs_lun
  pub sequence : msg.rmcp.message.rq_seq ≡ rq_seq
  pub from_lun : msg.rmcp.message.rq_lun ≡ rq_lun
  pub command : msg.rmcp.message.cmd ≡ cmd
  pub start : msg.data_start ≡ 20
  pub payload : slice msg.bytes 20 (length cmd_data) ≡ cmd_data

client_msg-parse :
    (cmd_data : Bytes) (req_len sseq sid rs_lun net_fn rq_lun rq_seq cmd n : ℕ) (w : World)
    → sid < 2 ^ 32
    → rs_lun < 4
    → net_fn < 64
    → rq_lun < 4
    → rq_seq < 64
    → IsRequest sid rs_lun net_fn rq_lun rq_seq cmd cmd_data
        (ipmi_parse_msg
          (new_msg (client_msg cmd_data req_len sseq sid rs_lun net_fn rq_lun rq_seq cmd) n)
          w).0
unfolding client_msg ipmi_parse_msg ipmi_parse_rmcp_msg load_hdr load_session load_message uint32_at
client_msg-parse cmd_data req_len sseq sid rs_lun net_fn rq_lun rq_seq cmd n w hs h1 h2 h3 h4 =
    let first = packed net_fn rs_lun h2 h1 in
    let second = packed rq_seq rq_lun h4 h3 in
    record {
      plain = refl;
      session = omega arith;
      function = omega (arith, first);
      to_lun = omega (arith, first);
      sequence = omega (arith, second);
      from_lun = omega (arith, second);
      command = refl;
      start = refl;
      payload =
          slice-append (head req_len sseq sid rs_lun net_fn rq_lun rq_seq cmd) (cmd_data ++ _)
            (length cmd_data)
          ∙ slice-front cmd_data _;
    }

-- `clientBuildMsg` and `ipmiParseMsg` agree: the request that is built from fields in range, with up
-- to 234 bytes of payload, is parsed to these fields, and has the payload behind byte 20.
pub client_build_msg-parse :
    (cmd_data : Bytes) (req_len sseq sid rs_lun net_fn rq_lun rq_seq cmd n : ℕ) (w : World)
    → length cmd_data ≤ 234
    → sid < 2 ^ 32
    → rs_lun < 4
    → net_fn < 64
    → rq_lun < 4
    → rq_seq < 64
    → IsRequest sid rs_lun net_fn rq_lun rq_seq cmd cmd_data
        (ipmi_parse_msg
          (new_msg (client_build_msg cmd_data req_len sseq sid rs_lun net_fn rq_lun rq_seq cmd) n)
          w).0
client_build_msg-parse cmd_data req_len sseq sid rs_lun net_fn rq_lun rq_seq cmd n w h hs h1 h2 h3
      h4 =
    rw (client_build_msg-whole cmd_data req_len sseq sid rs_lun net_fn rq_lun rq_seq cmd h) (
      client_msg-parse cmd_data req_len sseq sid rs_lun net_fn rq_lun rq_seq cmd n w hs h1 h2 h3 h4)
