-- ===== src/Examples.antt =====
-- Concrete servers and messages.
mod Controller
mod Sessions
mod Storage
mod Turns
mod Wire
use ipmigod.Base.{
  ℕ, [], ◌∷◌, ◌++◌, replicate, List, Option, none, some, true, refl, inl, inr, arith,
}
use ipmigod.Bmc.{Sdr, Sdrs}
use ipmigod.Storage.Sdr.Walk.{SdrsAreLinked, LinksAscend}
use ipmigod.Wire.{Bytes, put_uint32}
use ipmigod.Lanserv.{User, Session, LanServ, zero_user, zero_session}
use ipmigod.Lanserv.Init.{zero_lanserv, second_user, ipmi_lan_init}
use ipmigod.App.Activate.{opened, open_slot}
use ipmigod.Message.{Msg, new_msg}
use ipmigod.Server.Boot.{boot, init_sdrs}
use ipmigod.World.{World, Env}

abbrev pub env0 : Env
env0 = record { now = 7; rand_uint32 = 9 }

abbrev pub ipmiusr_user : User
ipmiusr_user = second_user zero_user

-- The tables at the start, and with one session open.
abbrev pub lan0 : LanServ
lan0 = ipmi_lan_init zero_lanserv

abbrev pub open1 : Session → Session
open1 = opened env0 lan0 ipmiusr_user 0 5 3

abbrev pub session1 : Session
session1 = open1 (record zero_session { handle = 1 })

abbrev pub world1 : World
world1 = record (boot 0) { lan = open_slot lan0 1 open1 }

-- A message under a session id, with its data at the front of the datagram.
abbrev pub message : ℕ → Bytes → Msg
message sid bytes =
    let msg = new_msg bytes 60 in
    record msg {
      sid = sid;
      rmcp = record (msg.rmcp) { session = record (msg.rmcp.session) { sid = sid } };
    }

-- An activation for the user at index 2.
abbrev pub activation : Msg
activation = message 5 (0 ∷ 3 ∷ (replicate 16 0 ++ put_uint32 5))

-- A request to close the session with the id 130.
abbrev pub closing : Msg
closing = message 130 (130 ∷ 0 ∷ 0 ∷ 0 ∷ [])

-- Two linked records.
abbrev pub sdr : ℕ → Option ℕ → Sdr
sdr id next = record {
  record_id = id;
  lun = 0;
  sens_num = id;
  length = 62;
  enabled = true;
  events_enabled = true;
  scanning_enabled = true;
  event_status = 0;
  value = 0;
  bytes = replicate 64 0;
  next = next;
}

abbrev pub two_nodes : List Sdr
two_nodes = sdr 1 (some 1) ∷ sdr 2 none ∷ []

pub two_nodes-LinksAscend : LinksAscend 2 0 two_nodes
two_nodes-LinksAscend = (inr (1, refl, omega arith, omega arith), (inl refl, tt))

abbrev pub two_sdrs : Sdrs
two_sdrs = record init_sdrs { nodes = two_nodes; sdrs = some 0; tail_sdr = some 1; sdr_count = 2 }

pub two_sdrs-SdrsAreLinked : SdrsAreLinked two_sdrs
two_sdrs-SdrsAreLinked = record {
  head = inr (0, refl, omega arith, omega arith);
  tail = inr (1, refl, omega arith, omega arith);
  links = two_nodes-LinksAscend;
  sized = omega arith;
}
