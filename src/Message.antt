-- ===== src/Message.antt =====
-- `msgT` of ipmi_internal_proto.go, and the parsing of a datagram in ipmi_proto.go
-- (`ipmiParseRmcpMsg`; `ipmiParseMsg` and the ping stand in Server).
-- `bytes` is the datagram: the array `data [4000]uint8` is zero behind it, so a read past the end
-- of the list gives 0. The fields `reserved`, `rmcpp`, `srcAddr`, `oemData` and `iana` are unused.
-- The connection and the remote address, which only the reply is sent through, are left out.
use ipmigod.Base.{
  ℕ, zero, suc, ◌+◌, ◌==◌, if◌then◌else◌, not, [], ◌∷◌, get_or, replicate, length, ◌≡◌, refl, ap,
}
use ipmigod.Protodefs.{authtype_none}
use ipmigod.Wire.{Bytes, uint32_at, shr, low_bits}

pub record RmcpHdr : Type 0 where
  pub version : ℕ
  pub rmcp_seq : ℕ
  pub class : ℕ

pub record RmcpSession : Type 0 where
  pub auth_type : ℕ
  pub seq : ℕ
  pub sid : ℕ
  pub auth_code : Bytes
  pub payload_lgth : ℕ

pub record RmcpMessage : Type 0 where
  pub rs_addr : ℕ
  pub netfn : ℕ
  pub rs_lun : ℕ
  pub rq_addr : ℕ
  pub rq_seq : ℕ
  pub rq_lun : ℕ
  pub cmd : ℕ

pub record Rmcp : Type 0 where
  pub hdr : RmcpHdr
  pub session : RmcpSession
  pub message : RmcpMessage

pub record Msg : Type 0 where
  pub channel : ℕ
  pub sid : ℕ
  pub authtype : ℕ
  pub rmcp : Rmcp
  pub bytes : Bytes
  pub data_start : ℕ
  pub data_len : ℕ

-- `msg.data[i]`.
abbrev pub byte : Msg → ℕ → ℕ
byte msg i = get_or msg.bytes i 0

-- The `n` bytes from `i` on of an array whose tail is zero.
abbrev pub slice : Bytes → ℕ → ℕ → Bytes
slice bs i zero = []
slice bs i (suc n) = get_or bs i 0 ∷ slice bs (suc i) n

pub length-slice : (bs : Bytes) (i n : ℕ) → length (slice bs i n) ≡ n
length-slice bs i zero = refl
length-slice bs i (suc n) = ap suc (length-slice bs (suc i) n)

-- What the receive loop hands over: a new `msgT` with the datagram and its length.
abbrev pub new_msg : Bytes → ℕ → Msg
new_msg bytes n = record {
  channel = 0;
  sid = 0;
  authtype = 0;
  rmcp = record {
    hdr = record { version = 0; rmcp_seq = 0; class = 0 };
    session = record {
      auth_type = 0;
      seq = 0;
      sid = 0;
      auth_code = replicate 16 0;
      payload_lgth = 0;
    };
    message = record {
      rs_addr = 0;
      netfn = 0;
      rs_lun = 0;
      rq_addr = 0;
      rq_seq = 0;
      rq_lun = 0;
      cmd = 0;
    };
  };
  bytes = bytes;
  data_start = 0;
  data_len = n;
}

-- The RMCP header: `dataStart` moves on by 4.
unfoldable pub load_hdr : Msg → Msg
load_hdr msg = record msg {
  rmcp = record (msg.rmcp) {
    hdr = record {
      version = byte msg msg.data_start;
      rmcp_seq = byte msg (msg.data_start + 2);
      class = byte msg (msg.data_start + 3);
    };
  };
  data_start = msg.data_start + 4;
}

-- The IPMI session fields, with an authentication code unless the type is none.
unfoldable pub load_session : Msg → Msg
load_session msg =
    let ds = msg.data_start in
    let auth_type = byte msg ds in
    let seq = uint32_at msg.bytes (ds + 1) in
    let sid = uint32_at msg.bytes (ds + 5) in
    if not (auth_type == authtype_none)
    then record msg {
      authtype = auth_type;
      sid = sid;
      rmcp = record (msg.rmcp) {
        session = record {
          auth_type = auth_type;
          seq = seq;
          sid = sid;
          auth_code = slice msg.bytes (ds + 9) 16;
          payload_lgth = byte msg (ds + 25);
        };
      };
      data_start = ds + 26;
    }
    else record msg {
      authtype = auth_type;
      sid = sid;
      rmcp = record (msg.rmcp) {
        session = record (msg.rmcp.session) { auth_type = auth_type; seq = seq; sid = sid };
      };
      data_start = ds + 10;
    }

-- The IPMI message fields.
unfoldable pub load_message : Msg → Msg
load_message msg =
    let ds = msg.data_start in
    record msg {
      rmcp = record (msg.rmcp) {
        message = record {
          rs_addr = byte msg ds;
          netfn = shr (byte msg (ds + 1)) 2;
          rs_lun = low_bits (byte msg (ds + 1)) 2;
          rq_addr = byte msg (ds + 3);
          rq_seq = shr (byte msg (ds + 4)) 2;
          rq_lun = low_bits (byte msg (ds + 4)) 2;
          cmd = byte msg (ds + 5);
        };
      };
      data_start = ds + 6;
    }

-- `ipmiParseRmcpMsg`: a sequence number other than 0xff ends the parse behind the header.
unfoldable pub ipmi_parse_rmcp_msg : Msg → Msg
unfolding load_hdr load_session load_message
ipmi_parse_rmcp_msg msg =
    let headed = load_hdr msg in
    if not (headed.rmcp.hdr.rmcp_seq == 0xff) then headed else load_message (load_session headed)
