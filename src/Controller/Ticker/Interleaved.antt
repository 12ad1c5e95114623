-- ===== src/Controller/Ticker/Interleaved.antt =====
-- Datagrams between the visits of the ticker to the sensors.
use ipmigod.Base.{
  PanicsBy-Returns, All, false, >>=-Returns_eq, ℕ, ◌≡◌, List, [], ◌∷◌, some, ok, Returns, returns,
  >>=-Returns,
}
use ipmigod.Wire.{IsByte}
use ipmigod.Bmc.{Sdr}
use ipmigod.World.{World}
use ipmigod.Storage.Sdr.Stock.{Registered}
use ipmigod.Server.Faults.{parsed, datagram_faults, ipmi_handle_msg-PanicsBy}
use ipmigod.Server.Faults.Handlers.{ServerIsReady, Spares}
use ipmigod.Client.{ClientContext}
use ipmigod.Client.Handshake.{Network}
use ipmigod.Controller.{Controller, Sensor, Sensors}
use ipmigod.Controller.Ends.{Undelivered, Ends, Ends-map}
use ipmigod.Controller.Init.{bmc_init}
use ipmigod.Controller.Boot.{powered, simulated_records, bmc_init-simulated_records}
use ipmigod.Controller.Validity.{ControllerIsValid}
use ipmigod.Controller.Poll.Polled.{poll_slot-Polled}
use ipmigod.Controller.Ticker.{
  Ticker, waiting, polling, System, Turn, datagram, tick, visit, visit_slot, take_turn, take_turns,
}

-- The sensors that are registered.
abbrev pub registered_in : Sensors → Registered
registered_in sensors lun num = (s : Sensor) × (sensors lun num ≡ some s)

-- The server is well-formed, and each registered sensor has a record.
abbrev pub IsStocked : {S : Type 0} → Controller S → Type 0
IsStocked c = (rs : List Sdr) × ControllerIsValid c rs

module _ {S : Type 0} (net : Network S) where
  -- A datagram is made of bytes, the server does not panic on it in its state, and it does not clear the
  -- repository while a sensor is registered.
  abbrev pub IsAdmitted : Turn → System S → Type 0
  IsAdmitted (datagram env bytes n) s =
      let w = s.controller.world in
      let message = (parsed bytes n w).0.rmcp.message in
      All IsByte bytes
      × (datagram_faults bytes n w ≡ false)
      × Spares (registered_in s.controller.sensors) message.netfn message.cmd
  IsAdmitted tick s = Unit {0}
  IsAdmitted (visit draw) s = Unit {0}

  -- So is each datagram of a sequence of turns, in the state that it comes to.
  abbrev pub AreAdmitted : List Turn → System S → Type 0
  AreAdmitted [] s = Unit {0}
  AreAdmitted (turn ∷ turns) s =
      IsAdmitted turn s × ((s' : System S) → take_turn net turn s ≡ ok s' → AreAdmitted turns s')

  received :
      (c : Controller S) (w : World)
      → ServerIsReady (registered_in c.sensors) w
      → IsStocked (record c { world = w })
  received c w r =
      let (rs, holds, listed) = r.stocked in
      (
        rs,
        record { server = r.server; holds = holds; listed = λ lun num s e. listed lun num (s, e) },
      )

  ready : (c : Controller S) → IsStocked c → ServerIsReady (registered_in c.sensors) c.world
  ready c (rs, v) = record {
    server = v.server;
    stocked = (rs, v.holds, λ lun num (s, e). v.listed lun num s e);
  }

  visit_slot-IsStocked :
      (draw : ℕ → ℕ → ℕ) (t : Ticker) (c : Controller S)
      → IsStocked c
      → Returns (λ s. IsStocked s.controller) (visit_slot net draw t c)
  unfolding visit_slot
  visit_slot-IsStocked draw waiting c h = returns h
  visit_slot-IsStocked draw (polling lun num last) c (rs, v) =
      >>=-Returns _ (poll_slot-Polled net draw lun num last c rs v)
        (λ r (rs', p). returns (rs', p.valid))

  pub take_turn-IsStocked :
      (turn : Turn) (s : System S)
      → IsStocked s.controller
      → IsAdmitted turn s
      → Returns (λ s'. IsStocked s'.controller) (take_turn net turn s)
  unfolding take_turn
  take_turn-IsStocked (datagram env bytes n) s h (are_bytes, quiet, spares) =
      let handled =
        ipmi_handle_msg-PanicsBy (registered_in s.controller.sensors) env bytes n s.controller.world
          (ready s.controller h) are_bytes spares in
      >>=-Returns _ (PanicsBy-Returns handled quiet) (λ w r. returns (received s.controller w r))
  take_turn-IsStocked tick s h served = returns h
  take_turn-IsStocked (visit draw) s h served = visit_slot-IsStocked draw s.ticker s.controller h

  -- Whatever the turns of the receive loop and of the ticker, no turn panics while the datagrams are admitted:
  -- the server stays well-formed, and each registered sensor keeps a record.
  pub take_turns-IsStocked :
      (turns : List Turn) (s : System S)
      → IsStocked s.controller
      → AreAdmitted turns s
      → Returns (λ s'. IsStocked s'.controller) (take_turns net turns s)
  unfolding take_turns
  take_turns-IsStocked [] s h admitted = returns h
  take_turns-IsStocked (turn ∷ turns) s h admitted =
      >>=-Returns_eq _ (take_turn-IsStocked turn s h admitted.0)
        (λ s' e h'. take_turns-IsStocked turns s' h' (admitted.1 s' e))

  -- From the start of the controller with simulated sensors on: once `bmcInit` has returned, no turn of the
  -- receive loop or of the ticker panics, in whatever order they come, as long as the datagrams are admitted; the
  -- server stays well-formed, and each registered sensor keeps a record. `bmcInit` panics only on a line card, and
  -- only if the network fails all three tries of an exchange with the record of a simulated sensor, in some state.
  pub bmc_init-take_turns :
      (now : ℕ → ℕ) (card : ℕ) (ctx : ClientContext) (mm : S) (turns : List Turn)
      → ((c : Controller S)
          → bmc_init net now (powered card ctx mm) ≡ ok c
          → AreAdmitted turns (record { controller = c; ticker = waiting }))
      → Ends
          (Undelivered net card (simulated_records card))
          (λ c.
            Returns
              (λ s. IsStocked s.controller)
              (take_turns net turns (record { controller = c; ticker = waiting })))
          (bmc_init net now (powered card ctx mm))
  bmc_init-take_turns now card ctx mm turns admitted =
      Ends-map (bmc_init-simulated_records net now card ctx mm)
        (λ c e v. take_turns-IsStocked turns _ (_, v) (admitted c e))
