-- ===== src/Examples/Wire.antt =====
-- The theorems on bytes, identifiers and messages at concrete values.
use ipmigod.Base.{
  refl, ℕ, Bool, ◌||◌, ◌==◌, ◌%◌, ◌^◌, ◌≤◌, ◌<◌, ◌≡◌, ◌≢◌, ◌↔◌, true, some, [], ◌∷◌, get_elem?,
  length, drop, ok, ◌>>=◌, arith,
}
use ipmigod.Protodefs.{authtype_rmcp_plus}
use ipmigod.Wire.{Bytes, shr, low_bits}
use ipmigod.Lanserv.{max_sessions, sid_to_session}
use ipmigod.Lanserv.Table.{Names}
use ipmigod.Lanserv.Lookup.{sid_to_session_iff}
use ipmigod.Message.{new_msg}
use ipmigod.World.{Rsp, return_packet}
use ipmigod.World.Reply.{header_length, Verifies, return_packet-Verifies}
use ipmigod.App.Challenge.{challenge_sid}
use ipmigod.App.Challenge.Sids.{challenge_sid-names_user}
use ipmigod.App.Activate.{session_sid}
use ipmigod.App.Activate.Opened.{session_sid-Names}
use ipmigod.Server.{ipmi_parse_msg}
use ipmigod.Server.Parse.{ipmi_parse_msg-is_not_rmcp_plus}
use ipmigod.Server.Boot.{init_sel, init_sdrs}
use ipmigod.Client.{client_ctx, client_build_msg}
use ipmigod.Client.RoundTrip.{IsRequest, client_build_msg-parse}
use ipmigod.Client.Handshake.{server, state_table, ipmi_establish_session}
use ipmigod.Client.Handshake.Retries.{refusing, NeverThrice}
use ipmigod.Client.Run.{
  result, booted, ipmi_establish_session-boot, ipmi_establish_session-refusing_boot,
}
use ipmigod.Examples.{env0, session1, world1, closing}

abbrev ack : Rsp
ack = record { netfn = 7; cmd = 0x3c; bytes = 0 ∷ [] }

return_packet-Verifies_example :
    (layer : Bytes) × (drop (header_length session1) (return_packet closing session1 ack)
      ≡ (length layer % 256) ∷ layer)
    × Verifies layer
return_packet-Verifies_example = return_packet-Verifies closing session1 ack (omega arith)

sid_to_session_iff_example : (sid_to_session world1.lan 130 ≡ some (1, session1)) ↔ (
    Names 130 1
    × (1 ≤ max_sessions)
    × (get_elem? world1.lan.sessions 1 ≡ some session1)
    × (session1.active ≡ true)
    × (session1.sid ≡ 130))
sid_to_session_iff_example = sid_to_session_iff world1.lan 130 1 session1

-- The user 64.
challenge_sid-names_user_example :
    (challenge_sid 3 64 < 2 ^ 32)
    × (low_bits (challenge_sid 3 64) 1 ≡ 1)
    × (low_bits (shr (challenge_sid 3 64) 1) 6 ≡ 0)
challenge_sid-names_user_example = challenge_sid-names_user 3 64 (omega arith)

session_sid-Names_example : Names (session_sid 1 1) 1
session_sid-Names_example = session_sid-Names 1 1 (omega arith)

ipmi_parse_msg-is_not_rmcp_plus_example :
    (ipmi_parse_msg (new_msg (6 ∷ 0 ∷ 0xff ∷ 7 ∷ 6 ∷ []) 5) world1).0.authtype ≢ authtype_rmcp_plus
ipmi_parse_msg-is_not_rmcp_plus_example =
    ipmi_parse_msg-is_not_rmcp_plus (new_msg (6 ∷ 0 ∷ 0xff ∷ 7 ∷ 6 ∷ []) 5) world1 refl

client_build_msg-parse_example :
    IsRequest 130 0 6 0 1 0x3b
      (3 ∷ [])
      (ipmi_parse_msg (new_msg (client_build_msg (3 ∷ []) 8 5 130 0 6 0 1 0x3b) 22) world1).0
client_build_msg-parse_example =
    client_build_msg-parse (3 ∷ []) 8 5 130 0 6 0 1 0x3b 22 world1 (omega arith) (omega arith)
      (omega arith) (omega arith) (omega arith) (omega arith)

ipmi_establish_session-boot_example :
    (ipmi_establish_session (server env0) state_table client_ctx (booted 2 init_sel init_sdrs)
      >>= λ r. ok (result r))
    ≡ ok (3, some 3)
ipmi_establish_session-boot_example =
    ipmi_establish_session-boot env0 client_ctx 2 init_sel init_sdrs

-- The requests 1 and 2 are lost: the client sends the first request once, and the second one three times.
abbrev refuses12 : ℕ → Bool
refuses12 n = (n == 1) || (n == 2)

refuses12-NeverThrice : NeverThrice refuses12
refuses12-NeverThrice n = ground arith

ipmi_establish_session-refusing_boot_example :
    (ipmi_establish_session
        (refusing refuses12 (server env0))
        state_table
        client_ctx
        (0, booted 2 init_sel init_sdrs)
      >>= λ r. ok (result (r.0, r.1.1)))
    ≡ ok (3, some 3)
ipmi_establish_session-refusing_boot_example =
    ipmi_establish_session-refusing_boot env0 client_ctx 2 init_sel init_sdrs refuses12
      refuses12-NeverThrice
