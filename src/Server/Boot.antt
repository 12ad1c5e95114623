-- ===== src/Server/Boot.antt =====
-- The server as it starts: `ipmiLanInit` of ipmi_proto.go and the event log and repository that
-- `bmcInit` of bmc.go leaves when it adds no simulated sensor.
use ipmigod.Base.{ℕ, zero, suc, refl, inl, none, List, [], replicate, Safe, arith}
use ipmigod.Wire.{Bytes}
use ipmigod.Lanserv.{zero_session, max_sessions}
use ipmigod.Lanserv.Init.{zero_lanserv, number_sessions, number_from_one, ipmi_lan_init}
use ipmigod.Lanserv.Table.{SlotsAreValid, IsValid}
use ipmigod.Bmc.{Sdrs, Sel}
use ipmigod.Storage.Validity.{ServerIsValid}
use ipmigod.World.{World, Env}
use ipmigod.Server.{serve}
use ipmigod.Server.Safety.{serve-Safe}

-- `mc.mainSdrs` as `bmcInit` sets it up.
abbrev pub init_sdrs : Sdrs
init_sdrs = record {
  reservation = 0;
  sdr_count = 0;
  max_sdr_count = 2000;
  last_add_time = 0;
  last_erase_time = 0;
  flags = 2;
  next_free_entry_id = 1;
  tail_sdr = none;
  sdrs = none;
  nodes = [];
}

-- `mc.sel` as `bmcInit` sets it up.
abbrev pub init_sel : Sel
init_sel = record {
  entries = [];
  count = 0;
  max_count = 1000;
  last_add_time = 0;
  last_erase_time = 0;
  flags = 0;
  reservation = 0;
  next_entry = 1;
}

-- The program's state when it starts to serve.
unfoldable pub boot : ℕ → World
boot card = record {
  lan = ipmi_lan_init zero_lanserv;
  sel = init_sel;
  main_sdrs = init_sdrs;
  chassis_card_num = card;
  sent = [];
}

numbered : (n i : ℕ) → SlotsAreValid i (number_sessions i (replicate n zero_session))
unfolding number_sessions
numbered zero i = tt
numbered (suc n) i = ((refl, refl, inl refl), numbered n (suc i))

pub ipmi_lan_init-IsValid : IsValid (ipmi_lan_init zero_lanserv)
unfolding ipmi_lan_init number_from_one number_sessions
ipmi_lan_init-IsValid = record {
  session_slots = refl;
  user_slots = refl;
  counted = refl;
  placed = ((refl, refl, inl refl), numbered max_sessions 1);
}

pub boot-ServerIsValid : (card : ℕ) → ServerIsValid (boot card)
unfolding boot
boot-ServerIsValid card = record {
  tables = ipmi_lan_init-IsValid;
  log = record {
    next = refl;
    bounded = omega arith;
    small = omega arith;
    stored = omega arith;
    below = tt;
    distinct = tt;
    full = tt;
  };
  repository = record { head = inl refl; tail = inl refl; links = tt; sized = tt };
}

-- From its start without simulated sensors, on any datagrams, the server ends in a well-formed state or is
-- ended by a run-time panic: no loop runs out of its fuel.
serve-boot :
    (card : ℕ) (input : List (Env × Bytes × ℕ)) → Safe ServerIsValid (serve input (boot card))
serve-boot card input = serve-Safe input (boot card) (boot-ServerIsValid card)
