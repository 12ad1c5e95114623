-- ===== src/World/Frame.antt =====
-- `returnRsp` of ipmi_proto.go and the state of the server.
use ipmigod.Base.{
  Allows, allowed, ended, if-Allows, option-Allows, ℕ, ◌≤◌, ◌≡◌, ◌≢◌, true, false, leb, ◌∷◌, length,
  modify, ok, Returns, returns, option-Returns, arith,
}
use ipmigod.Wire.{Bytes}
use ipmigod.Lanserv.{Session}
use ipmigod.Message.{Msg}
use ipmigod.World.{
  World, Rsp, SessionRef, nil, local, slot, bump_xmit_seq, update_ref, reply_session, send_packet,
  resolve, return_packet, max_msg_return_data, return_rsp, return_err, return_rsp_data,
}
use ipmigod.World.Reply.{length-return_packet}

abbrev pub send : World → Bytes → World
send w packet = record w { sent = packet ∷ w.sent }

-- The sequence number of the session at an index is stepped.
abbrev pub bump_slot : World → ℕ → World
bump_slot w i = record w {
  lan = record (w.lan) { sessions = modify w.lan.sessions i bump_xmit_seq };
}

-- A property that no reply breaks.
pub record IsStable (P : World → Type 0) : Type 0 where
  pub sends : (w : World) (packet : Bytes) → P w → P (send w packet)
  pub bumps : (w : World) (i : ℕ) → P w → P (bump_slot w i)

-- A payload that fits the reply's array under any header.
abbrev pub Fits : Bytes → Type 0
Fits bytes = length bytes ≤ 900

module _ (P : World → Type 0) (w : World) where
  pub send_packet-Returns :
      (ref : SessionRef) (s : Session) (msg : Msg) (rsp : Rsp)
      → Fits rsp.bytes
      → ((packet : Bytes) → P (send w packet))
      → ((packet : Bytes) (i : ℕ) → P (bump_slot (send w packet) i))
      → Returns P (send_packet w (ref, s) msg rsp)
  unfolding send_packet
  send_packet-Returns ref s msg rsp fits sent bumped =
      let short : leb (length (return_packet msg s rsp)) max_msg_return_data ≡ true =
        ground (arith, length-return_packet msg s rsp) in
      rw short (returns (updated ref))
    where
      updated :
          (r : SessionRef)
          → P (record w {
            lan = update_ref w.lan r bump_xmit_seq;
            sent = return_packet msg s rsp ∷ w.sent;
          })
      updated nil = unfold update_ref in sent (return_packet msg s rsp)
      updated (local t) = unfold update_ref in sent (return_packet msg s rsp)
      updated (slot i) = unfold update_ref in bumped (return_packet msg s rsp) i

  -- `returnRsp` does not panic on a payload that fits, and leaves the world as it is, up to a packet
  -- and a sequence number.
  pub return_rsp-Returns :
      (msg : Msg) (ref : SessionRef) (rsp : Rsp)
      → Fits rsp.bytes
      → P w
      → ((packet : Bytes) → P (send w packet))
      → ((packet : Bytes) (i : ℕ) → P (bump_slot (send w packet) i))
      → Returns P (return_rsp msg ref rsp w)
  unfolding return_rsp
  return_rsp-Returns msg ref rsp fits same sent bumped =
      option-Returns (reply_session w.lan msg.sid ref) (λ _. returns same)
        (λ (r, s) _. send_packet-Returns r s msg rsp fits sent bumped)

  pub return_err-Returns :
      (msg : Msg) (ref : SessionRef) (err : ℕ)
      → P w
      → ((packet : Bytes) → P (send w packet))
      → ((packet : Bytes) (i : ℕ) → P (bump_slot (send w packet) i))
      → Returns P (return_err msg ref err w)
  unfolding return_err
  return_err-Returns msg ref err = return_rsp-Returns msg ref _ (omega arith)

  pub return_rsp_data-Returns :
      (msg : Msg) (ref : SessionRef) (bytes : Bytes)
      → Fits bytes
      → P w
      → ((packet : Bytes) → P (send w packet))
      → ((packet : Bytes) (i : ℕ) → P (bump_slot (send w packet) i))
      → Returns P (return_rsp_data msg ref bytes w)
  unfolding return_rsp_data
  return_rsp_data-Returns msg ref bytes fits = return_rsp-Returns msg ref _ fits

-- A reply through a caller's local session, on a message whose id is not 0, is one packet.
pub return_rsp-local :
    (w : World) (msg : Msg) (s : Session) (rsp : Rsp)
    → msg.sid ≢ 0
    → s.rmcpplus ≡ false
    → Fits rsp.bytes
    → return_rsp msg (local s) rsp w ≡ ok (send w (return_packet msg s rsp))
unfolding return_rsp reply_session resolve send_packet update_ref
return_rsp-local w msg s rsp h plain fits = ground (arith, length-return_packet msg s rsp)

-- The same for a property that no reply breaks.
module _ (P : World → Type 0) (stable : IsStable P) (w : World) (holds : P w) where
  bumped_packet : (packet : Bytes) (i : ℕ) → P (bump_slot (send w packet) i)
  bumped_packet packet i = stable.bumps (send w packet) i (stable.sends w packet holds)

  pub return_err-keeps :
      (msg : Msg) (ref : SessionRef) (err : ℕ) → Returns P (return_err msg ref err w)
  return_err-keeps msg ref err =
      return_err-Returns P w msg ref err holds (λ p. stable.sends w p holds) bumped_packet

  pub return_rsp_data-keeps :
      (msg : Msg) (ref : SessionRef) (bytes : Bytes)
      → Fits bytes
      → Returns P (return_rsp_data msg ref bytes w)
  return_rsp_data-keeps msg ref bytes fits =
      return_rsp_data-Returns P w msg ref bytes fits holds (λ p. stable.sends w p holds)
        bumped_packet

  -- Whatever the payload.
  return_rsp-Allows :
      (msg : Msg) (ref : SessionRef) (rsp : Rsp) → Allows P (return_rsp msg ref rsp w)
  unfolding return_rsp send_packet
  return_rsp-Allows msg ref rsp =
      option-Allows (reply_session w.lan msg.sid ref) (λ _. allowed holds)
        λ (r, s) _.
          if-Allows (leb (length (return_packet msg s rsp)) max_msg_return_data) (updated r s) ended
    where
      updated :
          (r : SessionRef) (s : Session)
          → Allows P (
              ok (record w {
                lan = update_ref w.lan r bump_xmit_seq;
                sent = return_packet msg s rsp ∷ w.sent;
              }))
      updated nil s = unfold update_ref in allowed (stable.sends w (return_packet msg s rsp) holds)
      updated (local t) s =
          unfold update_ref in allowed (stable.sends w (return_packet msg s rsp) holds)
      updated (slot i) s = unfold update_ref in allowed (bumped_packet (return_packet msg s rsp) i)

  pub return_err-Allows :
      (msg : Msg) (ref : SessionRef) (err : ℕ) → Allows P (return_err msg ref err w)
  unfolding return_err
  return_err-Allows msg ref err = return_rsp-Allows msg ref _

  pub return_rsp_data-Allows :
      (msg : Msg) (ref : SessionRef) (bytes : Bytes) → Allows P (return_rsp_data msg ref bytes w)
  unfolding return_rsp_data
  return_rsp_data-Allows msg ref bytes = return_rsp-Allows msg ref _
