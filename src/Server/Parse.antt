-- ===== src/Server/Parse.antt =====
-- `ipmiParseMsg` of ipmi_proto.go, and the dispatch behind it.
use ipmigod.Base.{ℕ, ◌≢◌, ◌≤◌, arith, ◌≡◌, ◌==◌, false, refl, none, ltb, panic, ==_of_ne}
use ipmigod.Protodefs.{authtype_rmcp_plus, authtype_none}
use ipmigod.Wire.{Bytes}
use ipmigod.Message.{Msg, new_msg, load_hdr, load_session, load_message, ipmi_parse_rmcp_msg}
use ipmigod.World.{World, Env}
use ipmigod.Server.{map_get, netfunc_processors, ipmi_parse_msg, dispatch, ipmi_handle_msg}

-- A message that has no authentication type yet is not parsed to the one of RMCP+.
pub ipmi_parse_msg-is_not_rmcp_plus :
    (msg : Msg) (w : World)
    → msg.authtype ≡ authtype_none
    → (ipmi_parse_msg msg w).0.authtype ≢ authtype_rmcp_plus
unfolding ipmi_parse_msg ipmi_parse_rmcp_msg load_hdr load_session load_message
ipmi_parse_msg-is_not_rmcp_plus msg w plain = ground arith

-- `ipmiHandleMsg` panics on every datagram of five bytes or more from which a network function without
-- an entry in `netfuncProcessors` is parsed.
ipmi_handle_msg-panics :
    (env : Env) (bytes : Bytes) (n : ℕ) (w : World)
    → 5 ≤ n
    → map_get
        (ipmi_parse_msg
          (record (new_msg bytes n) { channel = w.lan.chan_num })
          w).0.rmcp.message.netfn
        netfunc_processors
      ≡ none
    → ipmi_handle_msg env (new_msg bytes n) w ≡ panic
unfolding ipmi_handle_msg dispatch
ipmi_handle_msg-panics env bytes n w long missing =
    let msg = record (new_msg bytes n) { channel = w.lan.chan_num } in
    let short : ltb n 5 ≡ false = ground arith in
    let plain : ((ipmi_parse_msg msg w).0.authtype == authtype_rmcp_plus) ≡ false =
      ==_of_ne _ _ (ipmi_parse_msg-is_not_rmcp_plus msg w refl) in
    rw (short, plain, missing)
