-- ===== src/Controller/Ticker.antt =====
-- The two goroutines of the daemon that use its state: the receive loop of `Ipmigod` in ipmi_proto.go, and the
-- ticker of `bmcInit` in bmc.go with the loops of `pollSensors` in ipmi_internal_sensor.go, which take turns
-- without a lock. A turn of the one is a datagram, a turn of the other the body of the inner loop for a slot.
pub mod Interleaved
pub mod Unstuck
use ipmigod.Base.{◌%◌, ◌^◌, Bool, ℕ, ◌+◌, ltb, if◌then◌else◌, List, [], ◌∷◌, Outcome, ok, ◌>>=◌}
use ipmigod.Wire.{Bytes}
use ipmigod.Message.{new_msg}
use ipmigod.World.{Env}
use ipmigod.Server.{ipmi_handle_msg}
use ipmigod.Client.{ClientContext}
use ipmigod.Client.Handshake.{Network}
use ipmigod.Controller.{Controller}
use ipmigod.Controller.Init.{bmc_init}
use ipmigod.Controller.Boot.{powered}
use ipmigod.Controller.Daemon.{connect}
use ipmigod.Controller.Poll.{poll_slot}

-- Where the ticker's goroutine is: it waits for the ticker, or it comes to a slot of the sensors, with the
-- value that the last sensor got.
pub data Ticker : Type 0 where
  waiting : Ticker
  polling : ℕ → ℕ → ℕ → Ticker

pub record System (S : Type 0) : Type 0 where
  pub controller : Controller S
  pub ticker : Ticker

-- Whose turn it is: a datagram with the number of its bytes and what its handler takes from outside, the
-- ticker, or the loops, with the random numbers.
pub data Turn : Type 0 where
  datagram : Env → Bytes → ℕ → Turn
  tick : Turn
  visit : (ℕ → ℕ → ℕ) → Turn

-- A tick while the loops run waits for them to end, and is left out here.
unfoldable pub begin : Ticker → Ticker
begin waiting = polling 0 1 0
begin (polling lun num last) = polling lun num last

-- `sensNum++`, `lun++` and the tests of the two loops.
unfoldable pub advance : ℕ → ℕ → ℕ → Ticker
advance lun num last =
    if ltb (num + 1) 255
    then polling lun (num + 1) last
    else if ltb (lun + 1) 4
    then polling (lun + 1) 1 last
    else waiting

module _ {S : Type 0} (net : Network S) where
  -- The body of the inner loop, and the way to the next slot.
  unfoldable pub visit_slot : (ℕ → ℕ → ℕ) → Ticker → Controller S → Outcome (System S)
  visit_slot draw waiting c = ok (record { controller = c; ticker = waiting })
  visit_slot draw (polling lun num last) c = poll_slot net draw lun num last c >>= λ r.
      ok (record { controller = r.1; ticker = advance lun num r.0 })

  unfoldable pub take_turn : Turn → System S → Outcome (System S)
  take_turn (datagram env bytes n) s =
      ipmi_handle_msg env (new_msg bytes n) s.controller.world >>= λ w.
      ok (record s { controller = record (s.controller) { world = w } })
  take_turn tick s = ok (record s { ticker = begin s.ticker })
  take_turn (visit draw) s = visit_slot draw s.ticker s.controller

  unfoldable pub take_turns : List Turn → System S → Outcome (System S)
  take_turns [] s = ok s
  take_turns (turn ∷ turns) s = take_turn turn s >>= take_turns turns

  -- `Ipmigod`, up to a sequence of turns of its receive loop and of the ticker that `bmcInit` starts.
  unfoldable pub daemon_turns :
      Bool → Bool → ℕ → (ℕ → ℕ) → ClientContext → S → List Turn → Outcome (System S)
  daemon_turns mm_card_mode dialed card_num now ctx mm turns =
      let card = card_num % 2 ^ 8 in
      connect net mm_card_mode dialed card ctx mm >>= λ r.
      bmc_init net now (powered card r.0 r.1) >>= λ c.
      take_turns turns (record { controller = c; ticker = waiting })
