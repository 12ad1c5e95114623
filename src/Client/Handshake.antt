-- ===== src/Client/Handshake.antt =====
-- `ipmiReqRsp` and `ipmiEstablishSession` of ipmi_client.go over a network, which is a parameter. The
-- waits between two tries are left out.
pub mod Retries
use ipmigod.Base.{
  ℕ, zero, suc, Bool, true, false, Option, none, some, List, [], ◌∷◌, length, if◌then◌else◌,
  Outcome, ok, panic, stuck,
}
use ipmigod.Wire.{Bytes}
use ipmigod.Message.{new_msg}
use ipmigod.World.{World, Env}
use ipmigod.Server.{ipmi_handle_msg}
use ipmigod.Client.{
  ClientContext, gcac_build_msg, gcac_parse_rsp, gsc_build_msg, gsc_parse_rsp, as_build_msg,
  as_parse_rsp, ssp_build_msg, ssp_parse_rsp,
}

-- An exchange over the connection, up to its end: what the read brings back for a request that is written, and
-- the state behind it of all that is at the other end. Nothing stands for a write or a read that returns an
-- error. The read has no deadline, so that without a reply and without an error the code waits for ever: such
-- an exchange has no end, and no network stands for it.
abbrev pub Network : Type 0 → Type 0
Network S = S → Bytes → Option Bytes × S

-- `csParseRsp`.
abbrev pub Parser : Type 0
Parser = Bytes → ClientContext → Bool × ClientContext

-- `clientState`.
pub record ClientState : Type 0 where
  pub buildmsg : ℕ → ClientContext → Bytes × ClientContext
  pub parsersp : Parser
  pub req_len : ℕ

-- `stateTable`.
abbrev pub state_table : List ClientState
state_table =
    record { buildmsg = gcac_build_msg; parsersp = gcac_parse_rsp; req_len = 0x09 }
    ∷ record { buildmsg = gsc_build_msg; parsersp = gsc_parse_rsp; req_len = 0x18 }
    ∷ record { buildmsg = as_build_msg; parsersp = as_parse_rsp; req_len = 0x1d }
    ∷ record { buildmsg = ssp_build_msg; parsersp = ssp_parse_rsp; req_len = 0x08 }
    ∷ []

-- `if ipmiReqRsp(…) { break }`: what follows is for an exchange that failed.
infixl 5 ◌or_else◌
abbrev pub ◌or_else◌ :
    {S : Type 0}
    → (Bool × ClientContext) × S
    → (ClientContext → S → (Bool × ClientContext) × S)
    → (Bool × ClientContext) × S
((true, ctx), s) or_else next = ((true, ctx), s)
((false, ctx), s) or_else next = next ctx s

-- `if try >= MAX_RETRIES { panic(…) }`: what follows is for an exchange that succeeded.
infixl 5 ◌and_then◌
abbrev pub ◌and_then◌ :
    {S T : Type 0} → (Bool × ClientContext) × S → (ClientContext → S → Outcome T) → Outcome T
((true, ctx), s) and_then next = next ctx s
((false, ctx), s) and_then next = panic

-- The parse of what came back.
abbrev pub received :
    {S : Type 0} → Parser → ClientContext → Option Bytes × S → (Bool × ClientContext) × S
received parsersp ctx (none, s) = ((false, ctx), s)
received parsersp ctx (some rsp, s) = (parsersp rsp ctx, s)

abbrev pub max_retries : ℕ
max_retries = 3

module _ {S : Type 0} (net : Network S) where
  -- `ipmiReqRsp`, where the exchange ends: it fails when the write or the read returns an error, or the parse does
  -- not accept the reply.
  unfoldable pub ipmi_req_rsp : Bytes → Parser → ClientContext → S → (Bool × ClientContext) × S
  ipmi_req_rsp request parsersp ctx s = received parsersp ctx (net s request)

  -- The loop over the tries: whether one of them succeeded.
  unfoldable pub try_req_rsp : ℕ → Bytes → Parser → ClientContext → S → (Bool × ClientContext) × S
  try_req_rsp zero request parsersp ctx s = ((false, ctx), s)
  try_req_rsp (suc tries) request parsersp ctx s =
      ipmi_req_rsp request parsersp ctx s or_else λ ctx' s'.
      try_req_rsp tries request parsersp ctx' s'

  -- `ipmiEstablishSession`, over the states of a table.
  unfoldable pub ipmi_establish_session :
      List ClientState → ClientContext → S → Outcome (ClientContext × S)
  ipmi_establish_session [] ctx s = ok (ctx, s)
  ipmi_establish_session (st ∷ states) ctx s =
      let request = st.buildmsg st.req_len ctx in
      try_req_rsp max_retries request.0 st.parsersp request.1 s and_then λ ctx' s'.
      ipmi_establish_session states ctx' s'

-- The last packet that was sent is read. A server that sends none leaves the client waiting for ever: the far end is
-- `stuck` from then on, which marks that what follows is no result of the code.
abbrev pub reply_in : List Bytes → World → Option Bytes × Outcome World
reply_in [] w = (none, stuck)
reply_in (packet ∷ sent) w = (some packet, ok w)

-- A server at the other end: once its program has ended, the port is closed and a read returns an error.
abbrev pub answer : Outcome World → Option Bytes × Outcome World
answer (ok w) = reply_in w.sent w
answer panic = (none, panic)
answer stuck = (none, stuck)

unfoldable pub server : Env → Network (Outcome World)
server env (ok w) request =
    answer (ipmi_handle_msg env (new_msg request (length request)) (record w { sent = [] }))
server env panic request = (none, panic)
server env stuck request = (none, stuck)
