-- ===== src/Controller/Init.antt =====
-- `bmcInit` of bmc.go. What the code only sets and never reads, of the card's own data, is left out, and so
-- is the ticker, which calls `pollSensors`.
pub mod Sensors
use ipmigod.Base.{ℕ, [], ◌∷◌, Outcome, ok, ◌>>=◌}
use ipmigod.Wire.{Bytes}
use ipmigod.Bmc.{add_to_sel}
use ipmigod.World.{World}
use ipmigod.Client.Handshake.{Network}
use ipmigod.Controller.{Controller, SdrArgs, sensor_add, main_sdr_add}
use ipmigod.Controller.Init.Sensors.{sensor_number, temp_args, voltage_args, current_args, fan_args}

-- What `bmcInit` sets up first.
abbrev pub bmc_setup : World → World
bmc_setup w = record w {
  main_sdrs = record (w.main_sdrs) { flags = 2; max_sdr_count = 2000; next_free_entry_id = 1 };
  sel = record (w.sel) { max_count = 1000; next_entry = 1 };
}

-- `selRecord`, with its byte 12.
abbrev pub sel_record : ℕ → Bytes
sel_record event = 1 ∷ 0 ∷ 2 ∷ 0 ∷ 0 ∷ 0 ∷ 0 ∷ 0x20 ∷ 0 ∷ 4 ∷ 1 ∷ 0x11 ∷ event ∷ 0 ∷ 0 ∷ 0 ∷ []

module _ {S : Type 0} (net : Network S) where
  -- A simulated sensor `k` of a type, with its record.
  abbrev pub add_simulated : ℕ → ℕ → SdrArgs → Controller S → Outcome (Controller S)
  add_simulated now k args c =
      sensor_add 0x20 0 (sensor_number c.world.chassis_card_num k) k 1 c
      >>= main_sdr_add net now args

  -- `addToSel(2, selRecord)`, its results dropped.
  abbrev pub add_event : ℕ → ℕ → Controller S → Outcome (Controller S)
  add_event now event c = add_to_sel c.world.sel now 2 (sel_record event) >>= λ added.
      ok (record c { world = record (c.world) { sel = added.sel } })

  -- `bmcInit`, where `simulate` is true. `now` is the time at each of the seven reads of the clock.
  unfoldable pub bmc_init : (ℕ → ℕ) → Controller S → Outcome (Controller S)
  bmc_init now c =
      let card = c.world.chassis_card_num in
      add_simulated (now 0) 1 (temp_args card) (record c { world = bmc_setup c.world })
      >>= add_simulated (now 1) 2 (voltage_args card)
      >>= add_simulated (now 2) 3 (current_args card)
      >>= add_simulated (now 3) 4 (fan_args card)
      >>= add_event (now 4) 1
      >>= add_event (now 5) 2
      >>= add_event (now 6) 3
