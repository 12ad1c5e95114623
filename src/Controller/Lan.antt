-- ===== src/Controller/Lan.antt =====
-- The start of the controller (bmc.go) and the sensor poll (ipmi_internal_sensor.go) leave `lanserv`
-- alone.
use ipmigod.Base.{
  ℕ, ◌≡◌, refl, ◌∙◌, Bool, true, false, ltb, leb, ◌&&◌, Outcome, ◌>>=◌, if-Allows, option-Allows,
  >>=-Allows, and-Allows, Allows, Allows-map, allowed, ended, inl, inr, Bool-cases,
}
use ipmigod.Bmc.{Sdr, add_to_sel}
use ipmigod.Storage.Sdr.{search_sdrs, is_sensor}
use ipmigod.Storage.Sessions.{add_sdr_entry-lan}
use ipmigod.Client.{ClientContext}
use ipmigod.Client.Handshake.{Network, ◌and_then◌, try_req_rsp, max_retries}
use ipmigod.Controller.{
  Controller, Sensor, SdrArgs, sensor_add, add_sdr_build_msg, add_sdr_parse_rsp, send_sdr,
  link_main_sdr, main_sdr_add, id_string,
}
use ipmigod.Controller.Init.{add_simulated, add_event, sel_record, bmc_init}
use ipmigod.Controller.Poll.{send_value, poll_sensor, poll_slot}

-- The users and the sessions are those of an earlier state.
abbrev pub SameLan : {S : Type 0} → Controller S → Controller S → Type 0
SameLan c c' = c'.world.lan ≡ c.world.lan

and_then-Allows :
    {S T : Type 0} {P : T → Type 0} (r : (Bool × ClientContext) × S)
    (f : ClientContext → S → Outcome T)
    → ((ctx : ClientContext) (s : S) → Allows P (f ctx s))
    → Allows P (r and_then f)
and_then-Allows ((true, ctx), s) f h = h ctx s
and_then-Allows ((false, ctx), s) f h = ended

-- One step after another.
then_same :
    {S : Type 0} (c : Controller S) {m : Outcome (Controller S)}
    (f : Controller S → Outcome (Controller S))
    → Allows (SameLan c) m
    → ((d : Controller S) → Allows (SameLan d) (f d))
    → Allows (SameLan c) (m >>= f)
then_same c f first step = and-Allows first (λ d e. Allows-map (λ d' e'. e' ∙ e) (step d))

module _ {S : Type 0} (net : Network S) where
  send_sdr-SameLan : (s : Sdr) (c : Controller S) → Allows (SameLan c) (send_sdr net s c)
  unfolding send_sdr
  send_sdr-SameLan s c =
      let request = add_sdr_build_msg s.bytes c.client_ctx in
      and_then-Allows (try_req_rsp net max_retries request.0 add_sdr_parse_rsp request.1 c.mm) _
        (λ ctx mm. allowed refl)

  link_main_sdr-SameLan :
      (now : ℕ) (s : Sdr) (c : Controller S) → Allows (SameLan c) (link_main_sdr net now s c)
  unfolding link_main_sdr
  link_main_sdr-SameLan now s c = and-Allows (add_sdr_entry-lan now s _) λ w e.
      if-Allows (ltb 0 w.chassis_card_num)
        (Allows-map (λ d e'. e' ∙ e) (send_sdr-SameLan s (record c { world = w }))) (allowed e)

  main_sdr_add-SameLan :
      (now : ℕ) (a : SdrArgs) (c : Controller S) → Allows (SameLan c) (main_sdr_add net now a c)
  unfolding main_sdr_add
  main_sdr_add-SameLan now a c =
      if-Allows (leb c.world.main_sdrs.max_sdr_count c.world.main_sdrs.next_free_entry_id)
        (allowed refl) (>>=-Allows (id_string a) (λ id_str. link_main_sdr-SameLan now _ c))

  sensor_add-SameLan :
      (bmc lun num stype code : ℕ) (c : Controller S)
      → Allows (SameLan c) (sensor_add bmc lun num stype code c)
  unfolding sensor_add
  sensor_add-SameLan bmc lun num stype code c =
      if-Allows (ltb lun 4 && ltb num 255) (allowed refl) ended

  add_simulated-SameLan :
      (now k : ℕ) (a : SdrArgs) (c : Controller S)
      → Allows (SameLan c) (add_simulated net now k a c)
  add_simulated-SameLan now k a c =
      then_same c _ (sensor_add-SameLan 0x20 0 _ k 1 c) (main_sdr_add-SameLan now a)

  add_event-SameLan :
      (now event : ℕ) (c : Controller S) → Allows (SameLan c) (add_event net now event c)
  add_event-SameLan now event c =
      >>=-Allows (add_to_sel c.world.sel now 2 (sel_record event)) (λ added. allowed refl)

  pub bmc_init-SameLan : (now : ℕ → ℕ) (c : Controller S) → Allows (SameLan c) (bmc_init net now c)
  unfolding bmc_init
  bmc_init-SameLan now c =
      then_same c _
        (then_same c _
          (then_same c _
            (then_same c _
              (then_same c _
                (then_same c _ (add_simulated-SameLan (now 0) 1 _ _)
                  (add_simulated-SameLan (now 1) 2 _))
                (add_simulated-SameLan (now 2) 3 _))
              (add_simulated-SameLan (now 3) 4 _))
            (add_event-SameLan (now 4) 1))
          (add_event-SameLan (now 5) 2))
        (add_event-SameLan (now 6) 3)

  module _ (draw : ℕ → ℕ → ℕ) where
    send_value-SameLan :
        (s : Sdr) (value : ℕ) (c : Controller S) → SameLan c (send_value net draw s value c)
    unfolding send_value
    send_value-SameLan s value c = elim (Bool-cases (ltb 0 c.world.chassis_card_num)) [
      | inl line ↦ rw line refl
      | inr mm ↦ rw mm refl
    ]

    poll_sensor-SameLan :
        (lun num last : ℕ) (sensor : Sensor) (c : Controller S)
        → Allows (λ r. SameLan c r.1) (poll_sensor net draw lun num sensor last c)
    unfolding poll_sensor
    poll_sensor-SameLan lun num last sensor c =
        >>=-Allows (search_sdrs (is_sensor lun num) c.world.main_sdrs)
          λ entry. option-Allows entry (λ _. ended) (λ x _. allowed (send_value-SameLan x.1 _ _))

    pub poll_slot-SameLan :
        (lun num last : ℕ) (c : Controller S)
        → Allows (λ r. SameLan c r.1) (poll_slot net draw lun num last c)
    unfolding poll_slot
    poll_slot-SameLan lun num last c =
        option-Allows (c.sensors lun num) (λ _. allowed refl)
          (λ s _. poll_sensor-SameLan lun num last s c)
