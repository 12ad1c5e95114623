-- ===== src/Controller/Boot.antt =====
-- `bmcInit` of bmc.go from the program's start on: the globals are zero but for what `ipmiLanInit` set up.
use ipmigod.Base.{ℕ, ◌<◌, ◌≤◌, refl, none, List, [], ◌∷◌, Returns, returns, >>=-Returns, arith}
use ipmigod.Bmc.{Sdr, Sdrs, Sel}
use ipmigod.Bmc.Keeps.{add_to_sel-EventLogIsValid}
use ipmigod.Storage.Validity.{log_valid}
use ipmigod.Storage.Sdr.Chain.{last}
use ipmigod.Server.Boot.{boot, boot-ServerIsValid}
use ipmigod.Client.{ClientContext}
use ipmigod.Client.Handshake.{Network}
use ipmigod.Controller.{Controller, main_sdr}
use ipmigod.Controller.Init.{sel_record, add_event, bmc_init, bmc_setup}
use ipmigod.Controller.Init.Sensors.{sensor_number, temp_args, voltage_args, current_args, fan_args}
use ipmigod.Controller.Validity.{ControllerIsValid, InSync}
use ipmigod.Controller.Poll.{poll_sensors}
use ipmigod.Controller.Poll.Sync.{poll_sensors-InSync}
use ipmigod.Controller.Ends.{Undelivered, Ends, Ends-map, >>=-Ends, Returns-Ends}
use ipmigod.Controller.Started.{Started, add_simulated-Started}

-- `mc.mainSdrs` and `mc.sel` before `bmcInit`.
abbrev pub zero_sdrs : Sdrs
zero_sdrs = record {
  reservation = 0;
  sdr_count = 0;
  max_sdr_count = 0;
  last_add_time = 0;
  last_erase_time = 0;
  flags = 0;
  next_free_entry_id = 0;
  tail_sdr = none;
  sdrs = none;
  nodes = [];
}

abbrev pub zero_sel : Sel
zero_sel = record {
  entries = [];
  count = 0;
  max_count = 0;
  last_add_time = 0;
  last_erase_time = 0;
  flags = 0;
  reservation = 0;
  next_entry = 0;
}

-- The controller before `bmcInit`, with the client's session as the handshake left it.
abbrev pub powered : {S : Type 0} → ℕ → ClientContext → S → Controller S
powered card ctx mm = record {
  world = record (boot card) { main_sdrs = zero_sdrs; sel = zero_sel };
  sensors = λ lun num. none;
  client_ctx = ctx;
  mm = mm;
}

-- The records of the four simulated sensors, in their order.
abbrev pub simulated_records : ℕ → List Sdr
simulated_records card =
    main_sdr 1 (temp_args card) (temp_args card).id_str
    ∷ main_sdr 2 (voltage_args card) (voltage_args card).id_str
    ∷ main_sdr 3 (current_args card) (current_args card).id_str
    ∷ main_sdr 4 (fan_args card) (fan_args card).id_str
    ∷ []

low_number : (card j : ℕ) → j < 15 → sensor_number card j < 255
low_number card j h = omega arith

module _ {S : Type 0} (net : Network S) where
  add_event-Valid :
      (now event : ℕ) (c : Controller S) (rs : List Sdr)
      → ControllerIsValid c rs
      → Returns (λ c'. ControllerIsValid c' rs) (add_event net now event c)
  add_event-Valid now event c rs v =
      >>=-Returns _ (add_to_sel-EventLogIsValid c.world.sel now 2 (sel_record event) v.server.log)
        λ a l. returns (record {
          server = log_valid c.world v.server a.sel l;
          holds = v.holds;
          listed = v.listed;
        })

  setup-Started :
      (card : ℕ) (ctx : ClientContext) (mm : S)
      → Started net card 1
          (record (powered card ctx mm) { world = bmc_setup (powered card ctx mm).world })
          []
  unfolding boot
  setup-Started card ctx mm = record {
    valid = record {
      server = boot-ServerIsValid card;
      holds = record { cells = []; chain = last; tail = refl; records = refl };
      listed = λ l n s e. cc;
    };
    next = refl;
    room = refl;
    card_num = refl;
  }

  -- `bmcInit` with simulated sensors, from the start of the program on: the controller that it leaves is
  -- well-formed, its repository holds the records of the four sensors in their order, with the ids from 1 on,
  -- and each registered sensor has its record. It panics only on a line card, and only if the network fails
  -- all three tries of an exchange with one of these records, in some state.
  pub bmc_init-simulated_records :
      (now : ℕ → ℕ) (card : ℕ) (ctx : ClientContext) (mm : S)
      → Ends
          (Undelivered net card (simulated_records card))
          (λ c. ControllerIsValid c (simulated_records card))
          (bmc_init net now (powered card ctx mm))
  unfolding bmc_init boot
  bmc_init-simulated_records now card ctx mm =
      let F = Undelivered net card (simulated_records card) in
      let add = add_simulated-Started net F card in
      let log : (t event : ℕ) (c : Controller S)
          → ControllerIsValid c (simulated_records card)
          → Ends (Undelivered net card (simulated_records card))
              (λ c'. ControllerIsValid c' (simulated_records card)) (add_event net t event c) =
        λ t event c v. Returns-Ends (add_event-Valid t event c (simulated_records card) v) in
      let temp =
        add 1 1 (now 0) (temp_args card) (temp_args card).id_str _ []
          (λ line f. (line, 0, _, refl, f)) (setup-Started card ctx mm) (omega arith) refl refl refl
          (low_number card 1 (omega arith)) (omega arith) in
      let voltage = >>=-Ends temp λ c st.
        add 2 2 (now 1) (voltage_args card) (voltage_args card).id_str c _
          (λ line f. (line, 1, _, refl, f)) st (omega arith) refl refl refl
          (low_number card 2 (omega arith)) (omega arith) in
      let current = >>=-Ends voltage λ c st.
        add 3 3 (now 2) (current_args card) (current_args card).id_str c _
          (λ line f. (line, 2, _, refl, f)) st (omega arith) refl refl refl
          (low_number card 3 (omega arith)) (omega arith) in
      let fan = >>=-Ends current λ c st.
        add 4 4 (now 3) (fan_args card) (fan_args card).id_str c _ (λ line f. (line, 3, _, refl, f))
          st (omega arith) refl refl refl (low_number card 4 (omega arith)) (omega arith) in
      >>=-Ends (>>=-Ends (>>=-Ends fan (λ c st. log (now 4) 1 c st.valid)) (log (now 5) 2))
        (log (now 6) 3)

  -- The first tick after a `bmcInit` that did not panic, over a network whose exchanges end: `pollSensors` returns,
  -- the controller is well-formed behind it, and the record of each registered sensor in the slots that the loops
  -- visit has the value of the sensor. `bmcInit` panics only on a line card, and only if the network fails all
  -- three tries of an exchange with the record of a simulated sensor, in some state.
  pub bmc_init-poll_sensors :
      (draw : ℕ → ℕ → ℕ) (now : ℕ → ℕ) (card : ℕ) (ctx : ClientContext) (mm : S)
      → Ends
          (Undelivered net card (simulated_records card))
          (λ c.
            Returns
              (λ c'.
                (rs : List Sdr) × ControllerIsValid c' rs
                × ((lun num : ℕ) → lun < 4 → 1 ≤ num → num < 255 → InSync c' rs lun num))
              (poll_sensors net draw c))
          (bmc_init net now (powered card ctx mm))
  bmc_init-poll_sensors draw now card ctx mm =
      Ends-map (bmc_init-simulated_records now card ctx mm)
        (λ c e v. poll_sensors-InSync net draw c (simulated_records card) v)
