-- ===== src/Examples/Turns.antt =====
-- The theorems on served datagrams and on the turns of the daemon's goroutines at concrete values.
use ipmigod.Base.{PanicsBy, ℕ, ◌≡◌, Bool, true, false, ◌&&◌, List, [], ◌∷◌, Safe, Returns, arith}
use ipmigod.Wire.{Bytes}
use ipmigod.Message.{new_msg, ipmi_parse_rmcp_msg, load_hdr, load_session, load_message}
use ipmigod.World.{World}
use ipmigod.Storage.Sdr.Stock.{Registered}
use ipmigod.Server.{map_get, ipmi_parse_msg, ipmi_handle_msg}
use ipmigod.Server.Boot.{boot}
use ipmigod.Server.Faults.{parsed, datagram_faults, ipmi_handle_msg-PanicsBy}
use ipmigod.Server.Faults.Handlers.{ServerIsReady, Spares}
use ipmigod.Client.{client_ctx}
use ipmigod.Controller.Ends.{Undelivered, Ends}
use ipmigod.Controller.Init.{bmc_init}
use ipmigod.Controller.Boot.{powered, simulated_records}
use ipmigod.Controller.Ticker.{
  System, Turn, waiting, tick, visit, datagram, take_turns, daemon_turns,
}
use ipmigod.Controller.Ticker.Unstuck.{KeepsEntitled, daemon_turns-HasEntitled}
use ipmigod.Controller.Ticker.Interleaved.{
  AreAdmitted, IsStocked, registered_in, bmc_init-take_turns,
}
use ipmigod.Examples.{env0}
use ipmigod.Examples.Controller.{
  records, world2, world2-Holds, controller2, controller2-listed, controller2-Valid, dead, now7,
  draw9,
}

-- A request for eight bytes of the first record.
abbrev read : Bytes
read =
    6 ∷ 0 ∷ 0xff ∷ 7 ∷ 0 ∷ 0 ∷ 0 ∷ 0 ∷ 0 ∷ 0 ∷ 0 ∷ 0 ∷ 0 ∷ 13 ∷ 0x20 ∷ 40 ∷ 0 ∷ 0x81 ∷ 4 ∷ 0x23 ∷ 0
    ∷ 0 ∷ 0 ∷ 0 ∷ 0 ∷ 8 ∷ 0 ∷ []

unwrapped : (a b : Bool) → (a && (b && false)) ≡ false
unwrapped a b = ground arith

read-quiet : (w : World) → datagram_faults read 27 w ≡ false
unfolding datagram_faults ipmi_parse_msg ipmi_parse_rmcp_msg load_hdr load_session load_message
    map_get
read-quiet w = unwrapped _ _

read-Spares :
    (registered : Registered) (w : World)
    → let message = (parsed read 27 w).0.rmcp.message in Spares registered message.netfn message.cmd
unfolding ipmi_parse_msg ipmi_parse_rmcp_msg load_hdr load_session load_message
read-Spares registered w n c = absurd (omega arith)

-- A controller with the sensor 2, which has a record.
abbrev has_sensor2 : Registered
has_sensor2 = registered_in controller2.sensors

world2-ServerIsReady : ServerIsReady has_sensor2 world2
world2-ServerIsReady = record {
  server = controller2-Valid.server;
  stocked = (records, world2-Holds, λ lun num (s, e). controller2-listed lun num s e);
}

ipmi_handle_msg-PanicsBy_example :
    PanicsBy
      (datagram_faults read 27 world2)
      (ServerIsReady has_sensor2)
      (ipmi_handle_msg env0 (new_msg read 27) world2)
ipmi_handle_msg-PanicsBy_example =
    ipmi_handle_msg-PanicsBy has_sensor2 env0 read 27 world2 world2-ServerIsReady (omega arith)
      (read-Spares has_sensor2 world2)

-- The request comes between the visits to the sensors 1 and 2.
abbrev turns : List Turn
turns = tick ∷ visit draw9 ∷ datagram env0 read 27 ∷ visit draw9 ∷ []

turns-AreAdmitted : (s : System ℕ) → AreAdmitted dead turns s
turns-AreAdmitted s = (
  tt,
  λ s1 e1. (
    tt,
    λ s2 e2. (
      (
        (omega arith),
        read-quiet s2.controller.world,
        read-Spares (registered_in s2.controller.sensors) s2.controller.world,
      ),
      λ s3 e3. (tt, λ s4 e4. tt),
    ),
  ),
)

bmc_init-take_turns_example :
    Ends
      (Undelivered dead 0 (simulated_records 0))
      (λ c.
        Returns
          (λ s. IsStocked s.controller)
          (take_turns dead turns (record { controller = c; ticker = waiting })))
      (bmc_init dead now7 (powered 0 client_ctx 0))
bmc_init-take_turns_example =
    bmc_init-take_turns dead now7 0 client_ctx 0 turns (λ c e. turns-AreAdmitted _)

daemon_turns-HasEntitled_example :
    Safe
      (KeepsEntitled dead (boot 0).lan.users)
      (daemon_turns dead true false 0 now7 client_ctx 0 turns)
daemon_turns-HasEntitled_example =
    daemon_turns-HasEntitled dead true false 0 now7 client_ctx 0 turns
