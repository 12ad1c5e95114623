-- ===== src/World.antt =====
-- ipmi_proto.go: the state of the server and the reply path (`returnRsp`, `returnErr`,
-- `returnRspData`). The globals `lanserv`, `mc` and `chassisCardNum` are the fields of `World`;
-- `sent` holds the packets written to the UDP socket, the latest first. The card's own data in `mc`
-- (`bmcIpmb` to `productId`), which is only ever initialised, is left out, and so is logging.
pub mod Reply
pub mod Frame
use ipmigod.Base.{
  ℕ, zero, suc, ◌+◌, ◌*◌, ◌/◌, ◌%◌, ◌^◌, leb, ◌==◌, if◌then◌else◌, Bool, true, false, not, bit_or,
  Option, none, some, List, [], ◌∷◌, ◌++◌, length, get_elem?, modify, replicate, Outcome, ok, panic,
}
use ipmigod.Protodefs.{authtype_none}
use ipmigod.Wire.{Bytes, put_uint32, shl, ipmi_checksum, neg8}
use ipmigod.Lanserv.{Session, LanServ, zero_session, sid_to_session}
use ipmigod.Bmc.{Sel, Sdrs}
use ipmigod.Message.{Msg}

pub record World : Type 0 where
  pub lan : LanServ
  pub sel : Sel
  pub main_sdrs : Sdrs
  pub chassis_card_num : ℕ
  pub sent : List Bytes

-- What a handler takes from outside the program: `uint32(time.Now().Unix())`, and the first
-- `Uint32` of the generator `rand.New(rand.NewSource(99))`.
pub record Env : Type 0 where
  pub now : ℕ
  pub rand_uint32 : ℕ

abbrev pub Handler : Type 0
Handler = Env → Msg → World → Outcome World

abbrev pub max_msg_return_data : ℕ
max_msg_return_data = 1000

-- `rspMsgDataT`: `dataLen` is the length of `bytes`.
pub record Rsp : Type 0 where
  pub netfn : ℕ
  pub cmd : ℕ
  pub bytes : Bytes

-- A `*sessionT`: nil, a local variable of the caller, or an entry of the session table.
pub data SessionRef : Type 0 where
  nil : SessionRef
  local : Session → SessionRef
  slot : ℕ → SessionRef

-- The session that the pointer leads to.
abbrev pub deref : LanServ → SessionRef → Option Session
deref lan nil = none
deref lan (local s) = some s
deref lan (slot i) = get_elem? lan.sessions i

abbrev pub to_ref : Option (ℕ × Session) → SessionRef
to_ref none = nil
to_ref (some (i, s)) = slot i

-- `if session == nil { session = sidToSession(msg.sid) }`.
unfoldable pub resolve : LanServ → ℕ → SessionRef → SessionRef
resolve lan sid nil = to_ref (sid_to_session lan sid)
resolve lan sid (local s) = local s
resolve lan sid (slot i) = slot i

-- The session that a message with session id 0 is answered under.
abbrev pub dummy_session : Session
dummy_session = record zero_session { active = true; authtype = authtype_none }

-- The guards of `returnRsp`: `none` where it returns without a reply.
unfoldable pub reply_session : LanServ → ℕ → SessionRef → Option (SessionRef × Session)
reply_session lan sid session =
    let ref = resolve lan sid session in
    elim (deref lan ref) [
      | none ↦ if sid == 0 then some (local dummy_session, dummy_session) else none
      | some s ↦
          if s.rmcpplus
          then none
          else if sid == 0
          then some (local dummy_session, dummy_session)
          else some (ref, s)
    ]

-- The RMCP and session headers, with 16 zero bytes for an authentication code unless the type is
-- none.
unfoldable pub session_header : Session → Bytes
session_header s =
    (6 ∷ 0 ∷ 0xff ∷ 7 ∷ s.authtype ∷ [])
    ++ (put_uint32 s.xmit_seq
        ++ (put_uint32 s.sid ++ (if s.authtype == authtype_none then [] else replicate 16 0)))

-- The bytes that the first checksum covers, and those at the front of the second's.
abbrev pub rq_bytes : Msg → Rsp → Bytes
rq_bytes msg rsp =
    msg.rmcp.message.rq_addr ∷ (bit_or (shl 8 rsp.netfn 2) msg.rmcp.message.rq_lun) ∷ []

abbrev pub rs_bytes : Msg → Rsp → Bytes
rs_bytes msg rsp =
    msg.rmcp.message.rs_addr
    ∷ (bit_or (shl 8 msg.rmcp.message.rq_seq 2) msg.rmcp.message.rs_lun)
    ∷ rsp.cmd
    ∷ []

-- The IPMI message layer with its two checksums.
unfoldable pub message_layer : Msg → Rsp → Bytes
message_layer msg rsp =
    rq_bytes msg rsp
    ++ (ipmi_checksum (rq_bytes msg rsp) 0
        ∷ (rs_bytes msg rsp
            ++ (rsp.bytes
                ++ (ipmi_checksum rsp.bytes (neg8 (ipmi_checksum (rs_bytes msg rsp) 0)) ∷ []))))

-- The whole return packet. The length byte is `uint8(rsp.dataLen + 7)`.
unfoldable pub return_packet : Msg → Session → Rsp → Bytes
return_packet msg s rsp =
    session_header s ++ (((length rsp.bytes + 7) % 2 ^ 16 % 2 ^ 8) ∷ message_layer msg rsp)

-- `session.xmitSeq++`, where 0 is skipped.
unfoldable pub bump_xmit_seq : Session → Session
bump_xmit_seq s =
    let next = (s.xmit_seq + 1) % 2 ^ 32 in
    record s { xmit_seq = if next == 0 then next + 1 else next }

-- A write through a session pointer. The local session of a caller is not read again.
unfoldable pub update_ref : LanServ → SessionRef → (Session → Session) → LanServ
update_ref lan nil f = lan
update_ref lan (local s) f = lan
update_ref lan (slot i) f = record lan { sessions = modify lan.sessions i f }

-- The packet is built in an array of MAX_MSG_RETURN_DATA bytes, and a longer one is an index out
-- of range.
unfoldable pub send_packet : World → SessionRef × Session → Msg → Rsp → Outcome World
send_packet w (ref, s) msg rsp =
    let packet = return_packet msg s rsp in
    if leb (length packet) max_msg_return_data
    then ok (record w { lan = update_ref w.lan ref bump_xmit_seq; sent = packet ∷ w.sent })
    else panic

-- `returnRsp`.
unfoldable pub return_rsp : Msg → SessionRef → Rsp → World → Outcome World
return_rsp msg session rsp w = elim (reply_session w.lan msg.sid session) [
  | none ↦ ok w
  | some r ↦ send_packet w r msg rsp
]

-- `returnErr`.
unfoldable pub return_err : Msg → SessionRef → ℕ → World → Outcome World
return_err msg session err w =
    return_rsp msg session
      (record {
        netfn = bit_or msg.rmcp.message.netfn 1;
        cmd = msg.rmcp.message.cmd;
        bytes = err ∷ [];
      })
      w

-- `returnRspData`, on the bytes `data[0:dataLength]`.
unfoldable pub return_rsp_data : Msg → SessionRef → Bytes → World → Outcome World
return_rsp_data msg session bytes w =
    return_rsp msg session
      (record {
        netfn = bit_or msg.rmcp.message.netfn 1;
        cmd = msg.rmcp.message.cmd;
        bytes = bytes;
      })
      w
