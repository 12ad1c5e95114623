-- ===== src/Controller/Daemon.antt =====
-- `Ipmigod` of ipmi_proto.go up to its loops: the connection to the MM card.
pub mod Session
use ipmigod.Base.{ℕ, ltb, if◌then◌else◌, Bool, Outcome, ok, panic}
use ipmigod.Client.{ClientContext}
use ipmigod.Client.Handshake.{Network, state_table, ipmi_establish_session}

module _ {S : Type 0} (net : Network S) where
  -- `ipmiMMConnect`, where `dialed` is whether `net.Dial` succeeds, and the panic of its caller.
  unfoldable pub ipmi_mm_connect : Bool → ClientContext → S → Outcome (ClientContext × S)
  ipmi_mm_connect dialed ctx mm =
      if dialed then ipmi_establish_session net state_table ctx mm else panic

  -- The connection that `bmcInit` uses. In MM card mode there is none, and with a card number above 0 the first
  -- `mainSdrAdd` calls a method of the nil connection.
  unfoldable pub connect : Bool → Bool → ℕ → ClientContext → S → Outcome (ClientContext × S)
  connect mm_card_mode dialed card ctx mm =
      if mm_card_mode
      then if ltb 0 card then panic else ok (ctx, mm)
      else ipmi_mm_connect dialed ctx mm
