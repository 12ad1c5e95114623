-- ===== src/Controller/Daemon/Session.antt =====
-- The connection and the visits of the sensor poll (ipmi_proto.go, ipmi_client.go, ipmi_internal_sensor.go) end, and
-- leave the server well-formed.
use ipmigod.Base.{
  ℕ, refl, Bool, true, false, ltb, List, [], ◌∷◌, Outcome, Safe, returned, panicked, if-Safe,
  option-Safe, >>=-Safe, Returns-Safe, length, inl, inr, Bool-cases, arith,
}
use ipmigod.Bmc.{Sdr}
use ipmigod.Storage.Validity.{ServerIsValid, sdrs_valid}
use ipmigod.Storage.Sdr.{is_sensor}
use ipmigod.Storage.Sdr.Walk.{find_sdr-FoundBy, set-SdrsAreLinked}
use ipmigod.Client.{ClientContext}
use ipmigod.Client.Handshake.{
  Network, ◌and_then◌, ClientState, max_retries, try_req_rsp, ipmi_establish_session, state_table,
}
use ipmigod.Controller.{Controller, Sensor}
use ipmigod.Controller.Ends.{Ends, ends, fails}
use ipmigod.Controller.Poll.{send_value, poll_sensor, poll_slot}
use ipmigod.Controller.Daemon.{ipmi_mm_connect, connect}

pub Ends-Safe : {A : Type 0} {F : Type 0} {P : A → Type 0} {m : Outcome A} → Ends F P m → Safe P m
Ends-Safe (ends h) = returned h
Ends-Safe (fails e) = panicked

and_then-Safe :
    {S T : Type 0} {P : T → Type 0} (r : (Bool × ClientContext) × S)
    (f : ClientContext → S → Outcome T)
    → ((ctx : ClientContext) (s : S) → Safe P (f ctx s))
    → Safe P (r and_then f)
and_then-Safe ((true, ctx), s) f h = h ctx s
and_then-Safe ((false, ctx), s) f h = panicked

module _ {S : Type 0} (net : Network S) where
  establish-ends :
      (states : List ClientState) (ctx : ClientContext) (s : S)
      → Safe (λ r. Unit {0}) (ipmi_establish_session net states ctx s)
  unfolding ipmi_establish_session
  establish-ends [] ctx s = returned tt
  establish-ends (st ∷ states) ctx s =
      let request = st.buildmsg st.req_len ctx in
      and_then-Safe (try_req_rsp net max_retries request.0 st.parsersp request.1 s) _
        (establish-ends states)

  pub connect-ends :
      (mm_card_mode dialed : Bool) (card : ℕ) (ctx : ClientContext) (mm : S)
      → Safe (λ r. Unit {0}) (connect net mm_card_mode dialed card ctx mm)
  unfolding connect ipmi_mm_connect
  connect-ends mm_card_mode dialed card ctx mm =
      if-Safe mm_card_mode (λ _. if-Safe (ltb 0 card) (λ _. panicked) (λ _. returned tt))
        (λ _. if-Safe dialed (λ _. establish-ends state_table ctx mm) (λ _. panicked))

  abbrev pub ServerOf : ℕ × Controller S → Type 0
  ServerOf r = ServerIsValid r.1.world

  module _ (draw : ℕ → ℕ → ℕ) where
    send_value-ServerIsValid :
        (s : Sdr) (value : ℕ) (c : Controller S)
        → ServerIsValid c.world
        → ServerIsValid (send_value net draw s value c).world
    unfolding send_value
    send_value-ServerIsValid s value c v = elim (Bool-cases (ltb 0 c.world.chassis_card_num)) [
      | inl line ↦ rw line v
      | inr mm ↦ rw mm v
    ]

    poll_sensor-Safe :
        (lun num last : ℕ) (sensor : Sensor) (c : Controller S)
        → ServerIsValid c.world
        → Safe ServerOf (poll_sensor net draw lun num sensor last c)
    unfolding poll_sensor
    poll_sensor-Safe lun num last sensor c v =
        let l = v.repository in
        >>=-Safe _
          (Returns-Safe (
            find_sdr-FoundBy (is_sensor lun num) c.world.main_sdrs.nodes l.links
              (length c.world.main_sdrs.nodes) 0 c.world.main_sdrs.sdrs l.head (omega arith)))
          λ entry _.
            option-Safe entry (λ _. panicked)
              λ x _. returned (
                send_value-ServerIsValid x.1 _ _ (
                  sdrs_valid c.world v _ (
                    set-SdrsAreLinked c.world.main_sdrs x.0 _ (λ s. refl) (λ s h. h) v.repository)))

    pub poll_slot-Safe :
        (lun num last : ℕ) (c : Controller S)
        → ServerIsValid c.world
        → Safe ServerOf (poll_slot net draw lun num last c)
    unfolding poll_slot
    poll_slot-Safe lun num last c v =
        option-Safe (c.sensors lun num) (λ _. returned v)
          (λ s _. poll_sensor-Safe lun num last s c v)
