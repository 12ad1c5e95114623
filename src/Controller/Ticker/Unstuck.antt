-- ===== src/Controller/Ticker/Unstuck.antt =====
-- `Ipmigod` of ipmi_proto.go with the ticker of bmc.go, over any sequence of turns.
use ipmigod.Base.{ℕ, ◌%◌, ◌^◌, Bool, List, [], ◌∷◌, Safe, returned, >>=-Safe, Safe-map, Safe-and}
use ipmigod.Lanserv.{User}
use ipmigod.Storage.Validity.{ServerIsValid}
use ipmigod.Server.Boot.{boot}
use ipmigod.Server.Authorized.Entitled.{
  HasEntitled, boot-HasEntitled, same_lan-HasEntitled, ipmi_handle_msg-HasEntitled,
}
use ipmigod.Client.{ClientContext}
use ipmigod.Client.Handshake.{Network}
use ipmigod.Controller.{Controller}
use ipmigod.Controller.Lan.{bmc_init-SameLan, poll_slot-SameLan}
use ipmigod.Controller.Boot.{powered, bmc_init-simulated_records}
use ipmigod.Controller.Daemon.Session.{Ends-Safe, connect-ends, poll_slot-Safe}
use ipmigod.Controller.Ticker.{
  Ticker, waiting, polling, System, Turn, datagram, tick, visit, visit_slot, take_turn, take_turns,
  daemon_turns,
}

module _ {S : Type 0} (net : Network S) (users : List User) where
  -- The daemon's server is well-formed, and its sessions are entitled by the users of the start.
  abbrev pub KeepsEntitled : System S → Type 0
  KeepsEntitled s = HasEntitled users s.controller.world

  visit_slot-Safe :
      (draw : ℕ → ℕ → ℕ) (t : Ticker) (c : Controller S)
      → HasEntitled users c.world
      → Safe KeepsEntitled (visit_slot net draw t c)
  unfolding visit_slot
  visit_slot-Safe draw waiting c h = returned h
  visit_slot-Safe draw (polling lun num last) c h =
      >>=-Safe _
        (Safe-and (poll_slot-Safe net draw lun num last c h.server)
          (poll_slot-SameLan net draw lun num last c))
        (λ r p. returned (same_lan-HasEntitled users c.world r.1.world h p))

  take_turn-Safe :
      (turn : Turn) (s : System S) → KeepsEntitled s → Safe KeepsEntitled (take_turn net turn s)
  unfolding take_turn
  take_turn-Safe (datagram env bytes n) s h =
      >>=-Safe _ (ipmi_handle_msg-HasEntitled users env bytes n s.controller.world h)
        (λ w h'. returned h')
  take_turn-Safe tick s h = returned h
  take_turn-Safe (visit draw) s h = visit_slot-Safe draw s.ticker s.controller h

  take_turns-Safe :
      (turns : List Turn) (s : System S)
      → KeepsEntitled s
      → Safe KeepsEntitled (take_turns net turns s)
  unfolding take_turns
  take_turns-Safe [] s h = returned h
  take_turns-Safe (turn ∷ turns) s h = >>=-Safe _ (take_turn-Safe turn s h) (take_turns-Safe turns)

module _ {S : Type 0} (net : Network S) (mm_card_mode dialed : Bool) (card_num : ℕ) (now : ℕ → ℕ)
    (ctx : ClientContext) (mm : S) (turns : List Turn) where
  -- The daemon, on any card and in any mode, over any network, whatever the datagrams and however the turns of
  -- the receive loop and of the ticker's goroutine follow one another, is ended by a run-time panic, or ends in
  -- a well-formed state with the users of the start: no loop runs out of its fuel. Each open session then has a
  -- valid user who owns it, a limit within the user's, and a privilege that is within this limit or USER.
  pub daemon_turns-HasEntitled :
      Safe
        (KeepsEntitled net (boot (card_num % 2 ^ 8)).lan.users)
        (daemon_turns net mm_card_mode dialed card_num now ctx mm turns)
  unfolding daemon_turns
  daemon_turns-HasEntitled =
      let card = card_num % 2 ^ 8 in
      let users = (boot card).lan.users in
      >>=-Safe _ (connect-ends net mm_card_mode dialed card ctx mm) λ r _.
        >>=-Safe _
          (Safe-and (Ends-Safe (bmc_init-simulated_records net now card r.0 r.1))
            (bmc_init-SameLan net now (powered card r.0 r.1)))
          λ c (v, e).
            take_turns-Safe net users turns _
              (same_lan-HasEntitled users (boot card) c.world (boot-HasEntitled card) (v.server, e))

  -- The state at the end is well-formed.
  daemon_turns-HasValidServer :
      Safe
        (λ s. ServerIsValid s.controller.world)
        (daemon_turns net mm_card_mode dialed card_num now ctx mm turns)
  daemon_turns-HasValidServer = Safe-map (λ s h. h.server) daemon_turns-HasEntitled
