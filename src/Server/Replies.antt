-- ===== src/Server/Replies.antt =====
-- The datagrams that a handler sends: `returnRsp` of ipmi_proto.go and its callers.
pub mod App
pub mod Storage
pub mod Once
use ipmigod.Base.{
  Allows, allowed, ended, if-Allows, option-Allows, ℕ, ◌≡◌, ap, refl, ◌⊎◌, inl, inr, Bool, true,
  false, Option, none, some, ◌∷◌, Outcome, ok, panic, stuck, ◌>>=◌, if◌then◌else◌, leb, length,
}
use ipmigod.Wire.{Bytes}
use ipmigod.Lanserv.{Session}
use ipmigod.Message.{Msg}
use ipmigod.World.{
  World, Env, Handler, Rsp, SessionRef, max_msg_return_data, return_packet, reply_session,
  send_packet, return_rsp, return_err, return_rsp_data,
}

-- The state has one more datagram sent, or none.
abbrev pub AtMostOne : World → World → Type 0
AtMostOne w w' = (w'.sent ≡ w.sent) ⊎ ((packet : Bytes) × (w'.sent ≡ packet ∷ w.sent))

-- A handler that answers at most once.
abbrev pub RepliesOnce : Handler → Type 0
RepliesOnce h = (env : Env) (msg : Msg) (w : World) → Allows (AtMostOne w) (h env msg w)

module _ (w u : World) (msg : Msg) (ref : SessionRef) (same : u.sent ≡ w.sent) where
  return_rsp-AtMostOne : (rsp : Rsp) → Allows (AtMostOne w) (return_rsp msg ref rsp u)
  unfolding return_rsp send_packet
  return_rsp-AtMostOne rsp =
      option-Allows (reply_session u.lan msg.sid ref) (λ _. allowed (inl same))
        λ r _.
          if-Allows (leb (length (return_packet msg r.1 rsp)) max_msg_return_data)
            (allowed
              (inr (return_packet msg r.1 rsp, ap (λ sent. return_packet msg r.1 rsp ∷ sent) same)))
            ended

  pub return_err-AtMostOne : (err : ℕ) → Allows (AtMostOne w) (return_err msg ref err u)
  unfolding return_err
  return_err-AtMostOne err = return_rsp-AtMostOne _

  pub return_rsp_data-AtMostOne :
      (bytes : Bytes) → Allows (AtMostOne w) (return_rsp_data msg ref bytes u)
  unfolding return_rsp_data
  return_rsp_data-AtMostOne bytes = return_rsp-AtMostOne _
