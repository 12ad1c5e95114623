-- ===== src/Client.antt =====
-- ipmi_client.go: the messages that a client builds, and what it takes from the replies.
-- The connection, the retries and the waits of `ipmiEstablishSession` and `ipmiReqRsp` are left out.
pub mod RoundTrip
pub mod Handshake
pub mod Run
use ipmigod.Base.{
  ℕ, ◌+◌, ◌%◌, ◌^◌, Bool, true, false, ◌&&◌, ◌==◌, if◌then◌else◌, List, [], ◌∷◌, ◌++◌, get_or,
  length, take, replicate, bit_or,
}
use ipmigod.Protodefs.{app_netfn, storage_netfn}
use ipmigod.Protodefs.App.{
  get_channel_auth_capabilities_cmd, get_session_challenge_cmd, activate_session_cmd,
  set_session_privilege_cmd,
}
use ipmigod.Protodefs.Storage.{add_sdr_cmd}
use ipmigod.Wire.{Bytes, put_uint32, uint32_at, shl, neg8, ipmi_checksum}
use ipmigod.Lanserv.Init.{ipmiusr}
use ipmigod.Message.{slice}

abbrev pub client_rsaddr : ℕ
client_rsaddr = 0x20

abbrev pub client_rqaddr : ℕ
client_rqaddr = 0x81

abbrev pub initial_outbound_seq : ℕ
initial_outbound_seq = 0x3c2fb505

-- `clientContextT`.
pub record ClientContext : Type 0 where
  pub rq_seq : ℕ
  pub challenge_str : Bytes
  pub temp_session_id : ℕ
  pub session_seq : ℕ
  pub session_id : ℕ
  pub max_priv_level : ℕ
  pub priv_level : ℕ

-- `clientCtx`.
abbrev pub client_ctx : ClientContext
client_ctx = record {
  rq_seq = 1;
  challenge_str = replicate 16 0;
  temp_session_id = 0;
  session_seq = 0;
  session_id = 0;
  max_priv_level = 0;
  priv_level = 0;
}

-- What the two checksums of a request cover, before the payload.
abbrev pub rs_part : ℕ → ℕ → Bytes
rs_part rs_lun net_fn = client_rsaddr ∷ (bit_or (shl 8 net_fn 2) rs_lun) ∷ []

abbrev pub rq_part : ℕ → ℕ → ℕ → Bytes
rq_part rq_lun rq_seq cmd = client_rqaddr ∷ (bit_or (shl 8 rq_seq 2) rq_lun) ∷ cmd ∷ []

-- The message that `clientBuildMsg` lays out in its array; `cmdLen` is the length of `cmd_data` at
-- every call.
unfoldable pub client_msg : Bytes → ℕ → ℕ → ℕ → ℕ → ℕ → ℕ → ℕ → ℕ → Bytes
client_msg cmd_data req_len sseq sid rs_lun net_fn rq_lun rq_seq cmd =
    (6 ∷ 0 ∷ 0xff ∷ 7 ∷ 0 ∷ [])
    ++ (put_uint32 sseq
        ++ (put_uint32 sid
            ++ (req_len
                ∷ (rs_part rs_lun net_fn
                    ++ (ipmi_checksum (rs_part rs_lun net_fn) 0
                        ∷ (rq_part rq_lun rq_seq cmd
                            ++ (cmd_data
                                ++ (ipmi_checksum cmd_data
                                      (neg8 (ipmi_checksum (rq_part rq_lun rq_seq cmd) 0))
                                    ∷ []))))))))

-- `clientBuildMsg`, which returns `data[:uint8(dcur)]`.
unfoldable pub client_build_msg : Bytes → ℕ → ℕ → ℕ → ℕ → ℕ → ℕ → ℕ → ℕ → Bytes
client_build_msg cmd_data req_len sseq sid rs_lun net_fn rq_lun rq_seq cmd =
    let msg = client_msg cmd_data req_len sseq sid rs_lun net_fn rq_lun rq_seq cmd in
    take (length msg % 2 ^ 8) msg

-- `clientBasicMsgCheck`.
unfoldable pub client_basic_msg_check : Bytes → Bool
client_basic_msg_check bytes =
    get_or bytes 0 0 == 6 && (get_or bytes 2 0 == 0xff && get_or bytes 3 0 == 7)

-- `clientCtx.rqSeq++`.
abbrev pub next_rq_seq : ClientContext → ClientContext
next_rq_seq ctx = record ctx { rq_seq = (ctx.rq_seq + 1) % 2 ^ 8 }

abbrev pub next_session_seq : ClientContext → ClientContext
next_session_seq ctx = record ctx { session_seq = (ctx.session_seq + 1) % 2 ^ 32 }

-- `gcacBuildMsg`.
unfoldable pub gcac_build_msg : ℕ → ClientContext → Bytes × ClientContext
gcac_build_msg req_len ctx = (
  client_build_msg (0xe ∷ 3 ∷ []) req_len 0 0 0 app_netfn 0 ctx.rq_seq
      get_channel_auth_capabilities_cmd,
  next_rq_seq ctx,
)

-- `gscBuildMsg`.
unfoldable pub gsc_build_msg : ℕ → ClientContext → Bytes × ClientContext
gsc_build_msg req_len ctx = (
  client_build_msg (0 ∷ (ipmiusr ++ replicate 9 0)) req_len 0 0 0 app_netfn 0 ctx.rq_seq
      get_session_challenge_cmd,
  next_rq_seq ctx,
)

-- `asBuildMsg`.
unfoldable pub as_build_msg : ℕ → ClientContext → Bytes × ClientContext
as_build_msg req_len ctx = (
  client_build_msg (0 ∷ 3 ∷ (ctx.challenge_str ++ put_uint32 initial_outbound_seq)) req_len 0
      ctx.temp_session_id 0 app_netfn 0 ctx.rq_seq activate_session_cmd,
  next_rq_seq ctx,
)

-- `sspBuildMsg`.
unfoldable pub ssp_build_msg : ℕ → ClientContext → Bytes × ClientContext
ssp_build_msg req_len ctx = (
  client_build_msg (ctx.max_priv_level ∷ []) req_len ctx.session_seq ctx.session_id 0 app_netfn 0
      ctx.rq_seq set_session_privilege_cmd,
  next_session_seq (next_rq_seq ctx),
)

-- `addSdrBuildMsg`, on the bytes of an SDR.
unfoldable pub add_sdr_build_msg : Bytes → ClientContext → Bytes × ClientContext
add_sdr_build_msg bytes ctx = (
  client_build_msg bytes 70 ctx.session_seq ctx.session_id 0 storage_netfn 0 ctx.rq_seq add_sdr_cmd,
  next_session_seq (next_rq_seq ctx),
)

-- The test that the parsers share: the length byte, the command and the completion code.
unfoldable pub is_good_rsp : ℕ → ℕ → Bytes → Bool
is_good_rsp len cmd bytes =
    client_basic_msg_check bytes
    && (get_or bytes 13 0 == len && (get_or bytes 19 0 == cmd && get_or bytes 20 0 == 0))

-- `gcacParseRsp`.
unfoldable pub gcac_parse_rsp : Bytes → ClientContext → Bool × ClientContext
gcac_parse_rsp bytes ctx = (is_good_rsp 0x10 get_channel_auth_capabilities_cmd bytes, ctx)

-- `gscParseRsp`.
unfoldable pub gsc_parse_rsp : Bytes → ClientContext → Bool × ClientContext
gsc_parse_rsp bytes ctx =
    if is_good_rsp 0x1c get_session_challenge_cmd bytes
    then (
      true,
      record ctx { temp_session_id = uint32_at bytes 21; challenge_str = slice bytes 25 16 },
    )
    else (false, ctx)

-- `asParseRsp`.
unfoldable pub as_parse_rsp : Bytes → ClientContext → Bool × ClientContext
as_parse_rsp bytes ctx =
    if is_good_rsp 0x12 activate_session_cmd bytes
    then (
      true,
      record ctx {
        session_id = uint32_at bytes 22;
        session_seq = uint32_at bytes 26;
        max_priv_level = get_or bytes 30 0;
      },
    )
    else (false, ctx)

-- `sspParseRsp`.
unfoldable pub ssp_parse_rsp : Bytes → ClientContext → Bool × ClientContext
ssp_parse_rsp bytes ctx =
    if is_good_rsp 9 set_session_privilege_cmd bytes
    then (true, record ctx { priv_level = get_or bytes 21 0 })
    else (false, ctx)

-- `addSdrParseRsp`.
unfoldable pub add_sdr_parse_rsp : Bytes → ClientContext → Bool × ClientContext
add_sdr_parse_rsp bytes ctx = (is_good_rsp 0xa add_sdr_cmd bytes, ctx)
