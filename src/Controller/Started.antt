-- ===== src/Controller/Started.antt =====
-- `bmcInit` of bmc.go: the sensors, their records and the event log that it leaves.
use ipmigod.Base.{
  true, ℕ, ◌+◌, ◌%◌, ◌^◌, ◌<◌, ◌≤◌, length-append, replicate, ◌≡◌, refl, ◌∙◌, ap, sym, inl, inr,
  false, Bool-cases, ◌==◌, ◌&&◌, ltb, leb, if◌then◌else◌, none, some, List, [], ◌∷◌, ◌++◌, ok,
  Returns, Returns-both, Returns-map, Safe, returned, option-Safe, or_panic-Safe, >>=-Safe, arith,
}
use mathlib.Core.Path.{subst}
use ipmigod.Wire.{Bytes, low_bits}
use ipmigod.Bmc.{Sdr, copy_at}
use ipmigod.Bmc.Sized.{IsSized, length-copy_at}
use ipmigod.World.{World}
use ipmigod.Storage.Validity.{ServerIsValid, sdrs_valid}
use ipmigod.Storage.Sdr.{is_sensor, link_sdr, add_sdr_entry}
use ipmigod.Storage.Sdr.Keeps.{add_sdr_entry-keeps}
use ipmigod.Storage.Sdr.Refines.{Holds, add_sdr_entry-Holds}
use ipmigod.Storage.Sdr.Contents.{find_record}
use ipmigod.Storage.Sdr.Records.{find_record-append, find_record-append_last}
use ipmigod.Client.{add_sdr_build_msg, add_sdr_parse_rsp}
use ipmigod.Client.Handshake.{Network, max_retries, try_req_rsp}
use ipmigod.Controller.{
  Controller, Sensor, Sensors, SdrArgs, set_sensor, new_sensor, sensor_add, sdr_header, main_sdr,
  id_string, send_sdr, link_main_sdr, main_sdr_add,
}
use ipmigod.Controller.Init.{add_simulated}
use ipmigod.Controller.Init.Sensors.{sensor_number}
use ipmigod.Controller.Ends.{Fails, Ends, ends, Returns->>=-Ends, and_then-Ends}
use ipmigod.Controller.Validity.{ControllerIsValid}

not_leb : (a b : ℕ) → b < a → leb a b ≡ false
not_leb a b h = ground arith

-- What stays as it is when a record is added.
abbrev SameHeader : World → World → Type 0
SameHeader w w' =
    (w'.main_sdrs.next_free_entry_id ≡ w.main_sdrs.next_free_entry_id)
    × (w'.main_sdrs.max_sdr_count ≡ w.main_sdrs.max_sdr_count)
    × (w'.chassis_card_num ≡ w.chassis_card_num)

add_sdr_entry-SameHeader :
    (now : ℕ) (s : Sdr) (w : World) → Safe (SameHeader w) (add_sdr_entry now s w)
unfolding add_sdr_entry link_sdr
add_sdr_entry-SameHeader now s w =
    >>=-Safe
      (λ l.
        (l.next_free_entry_id ≡ w.main_sdrs.next_free_entry_id)
        × (l.max_sdr_count ≡ w.main_sdrs.max_sdr_count))
      (option-Safe w.main_sdrs.sdrs (λ _. returned (refl, refl))
        (λ head _. or_panic-Safe w.main_sdrs.tail_sdr (λ t _. returned (refl, refl))))
      (λ l h. returned (h.0, h.1, refl))

add_sdr_entry-Added :
    (now : ℕ) (s : Sdr) (w : World) (rs : List Sdr)
    → s.next ≡ none
    → IsSized s
    → ServerIsValid w
    → Holds w rs
    → Returns
        (λ w'. Holds w' (rs ++ s ∷ []) × ServerIsValid w' × SameHeader w w')
        (add_sdr_entry now s w)
add_sdr_entry-Added now s w rs end size v h =
    Returns-map (λ w' p. (p.0.0, p.0.1, p.1))
      (Returns-both
        (Returns-both (add_sdr_entry-Holds now s w rs end h)
          (add_sdr_entry-keeps w v now s end size))
        (add_sdr_entry-SameHeader now s w))

-- The record of an identifier that is not too long for it.
main_sdr-IsSized :
    (id : ℕ) (args : SdrArgs) (name : Bytes)
    → low_bits args.id_str_lght_code 5 ≤ 11
    → IsSized (main_sdr id args name)
unfolding main_sdr
main_sdr-IsSized id args name short = (
  omega (
    arith,
    length-append (sdr_header id args) (copy_at (replicate 16 0) 0 name),
    length-copy_at (replicate 16 0) 0 name (omega arith),
  ),
  omega arith,
)

module _ {S : Type 0} (net : Network S) where
  -- The state of the controller in the middle of `bmcInit`: the next record gets the id `k`.
  pub record Started (card k : ℕ) (c : Controller S) (rs : List Sdr) : Type 0 where
    pub valid : ControllerIsValid c rs
    pub next : c.world.main_sdrs.next_free_entry_id ≡ k
    pub room : c.world.main_sdrs.max_sdr_count ≡ 2000
    pub card_num : c.world.chassis_card_num ≡ card

  -- Sending a record to the MM card changes nothing here but the client's session, and only fails on a line
  -- card.
  send_sdr-Started :
      (F : Type 0) (card k : ℕ) (s : Sdr) (c : Controller S) (rs : List Sdr)
      → (ltb 0 card ≡ true → Fails net s → F)
      → Started card k c rs
      → Ends F
          (λ c'. Started card k c' rs)
          (if ltb 0 c.world.chassis_card_num then send_sdr net s c else ok c)
  unfolding send_sdr
  send_sdr-Started F card k s c rs why st =
      let request = add_sdr_build_msg s.bytes c.client_ctx in
      elim (Bool-cases (ltb 0 c.world.chassis_card_num)) [
        | inl line ↦ rw line (
            and_then-Ends (try_req_rsp net max_retries request.0 add_sdr_parse_rsp request.1 c.mm) _
              (λ failed. why (ap (ltb 0) (sym st.card_num) ∙ line) (c.client_ctx, c.mm, failed))
              λ ctx mm. ends (record {
                valid = record {
                  server = st.valid.server;
                  holds = st.valid.holds;
                  listed = st.valid.listed;
                };
                next = st.next;
                room = st.room;
                card_num = st.card_num;
              }))
        | inr mm ↦ rw mm (ends st)
      ]

  link_main_sdr-Started :
      (F : Type 0) (card k now : ℕ) (s : Sdr) (c : Controller S) (rs : List Sdr)
      → (ltb 0 card ≡ true → Fails net s → F)
      → ServerIsValid c.world
      → Holds c.world rs
      → c.world.main_sdrs.next_free_entry_id ≡ k
      → c.world.main_sdrs.max_sdr_count ≡ 2000
      → c.world.chassis_card_num ≡ card
      → k < 2000
      → s.next ≡ none
      → IsSized s
      → ((lun num : ℕ) (sensor : Sensor)
          → c.sensors lun num ≡ some sensor
          → (r : Sdr) × (find_record (is_sensor lun num) (rs ++ s ∷ []) ≡ some r))
      → Ends F (λ c'. Started card (k + 1) c' (rs ++ s ∷ [])) (link_main_sdr net now s c)
  unfolding link_main_sdr
  link_main_sdr-Started F card k now s c rs why v h next room card_num low end size listed =
      let sdrs = c.world.main_sdrs in
      let w = record (c.world) {
        main_sdrs = record sdrs { next_free_entry_id = (sdrs.next_free_entry_id + 1) % 2 ^ 16 };
      } in
      let l = v.repository in
      let v' : ServerIsValid w =
        sdrs_valid c.world v _
          (record { head = l.head; tail = l.tail; links = l.links; sized = l.sized }) in
      let h' : Holds w rs = record {
        cells = h.cells;
        chain = h.chain;
        tail = h.tail;
        records = h.records;
      } in
      Returns->>=-Ends (add_sdr_entry-Added now s w rs end size v' h') λ w' (holds, server, same).
        send_sdr-Started F card (k + 1) s (record c { world = w' }) (rs ++ s ∷ []) why
          (record {
            valid = record { server = server; holds = holds; listed = listed };
            next = same.0 ∙ omega (arith, next, low);
            room = same.1 ∙ room;
            card_num = same.2 ∙ card_num;
          })

  sensor_add-ok :
      (bmc num stype code : ℕ) (c : Controller S)
      → num < 255
      → sensor_add bmc 0 num stype code c
        ≡ ok (record c { sensors = set_sensor c.sensors 0 num (new_sensor bmc 0 num stype code) })
  unfolding sensor_add
  sensor_add-ok bmc num stype code c low = ground arith

  main_sdr_add-room :
      (now : ℕ) (args : SdrArgs) (name : Bytes) (c : Controller S)
      → c.world.main_sdrs.next_free_entry_id < c.world.main_sdrs.max_sdr_count
      → id_string args ≡ ok name
      → main_sdr_add net now args c
        ≡ link_main_sdr net now (main_sdr c.world.main_sdrs.next_free_entry_id args name) c
  unfolding main_sdr_add
  main_sdr_add-room now args name c room named =
      rw (not_leb c.world.main_sdrs.max_sdr_count c.world.main_sdrs.next_free_entry_id room, named)

  -- A registered sensor has a record when the new one is of its slot.
  listed_after :
      (sensors : Sensors) (rs : List Sdr) (new : Sensor) (num : ℕ) (s : Sdr)
      → ((l n : ℕ) (sensor : Sensor)
          → sensors l n ≡ some sensor
          → (r : Sdr) × (find_record (is_sensor l n) rs ≡ some r))
      → s.lun ≡ 0
      → s.sens_num ≡ num
      → (l n : ℕ) (sensor : Sensor) → set_sensor sensors 0 num new l n ≡ some sensor
      → (r : Sdr) × (find_record (is_sensor l n) (rs ++ s ∷ []) ≡ some r)
  listed_after sensors rs new num s listed lun sens_num l n sensor e =
      elim (Bool-cases (l == 0 && n == num)) [
        | inl here ↦ find_record-append_last (is_sensor l n) rs s (ground arith)
        | inr apart ↦
            let (r, found) = listed l n sensor (ground arith) in
            (r, find_record-append (is_sensor l n) rs s r found)
      ]

  pub add_simulated-Started :
      (F : Type 0) (card k j now : ℕ) (args : SdrArgs) (name : Bytes) (c : Controller S)
      (rs : List Sdr)
      → (ltb 0 card ≡ true → Fails net (main_sdr k args name) → F)
      → Started card k c rs
      → k < 2000
      → id_string args ≡ ok name
      → args.sensor_owner_lun ≡ 0
      → args.sensor_num ≡ sensor_number card j
      → sensor_number card j < 255
      → low_bits args.id_str_lght_code 5 ≤ 11
      → Ends F
          (λ c'. Started card (k + 1) c' (rs ++ main_sdr k args name ∷ []))
          (add_simulated net now j args c)
  unfolding main_sdr
  add_simulated-Started F card k j now args name c rs why st low named lun num small short =
      let n = sensor_number c.world.chassis_card_num j in
      let same : n ≡ sensor_number card j = ap (λ card. sensor_number card j) st.card_num in
      let c' : Controller S = record c {
        sensors = set_sensor c.sensors 0 n (new_sensor 0x20 0 n j 1);
      } in
      let id = c.world.main_sdrs.next_free_entry_id in
      rw
        (
          sensor_add-ok 0x20 n j 1 c (omega (arith, same, small)),
          main_sdr_add-room now args name c' (omega (arith, st.next, st.room, low)) named,
        )
        (subst
          (λ k.
            Ends F (λ c'. Started card (k + 1) c' (rs ++ main_sdr k args name ∷ []))
              (link_main_sdr net now (main_sdr id args name) c'))
          st.next
          (link_main_sdr-Started F card id now (main_sdr id args name) c' rs
            (subst (λ k. ltb 0 card ≡ true → Fails net (main_sdr k args name) → F) (sym st.next)
              why)
            st.valid.server st.valid.holds refl st.room st.card_num (omega (arith, st.next, low))
            refl (main_sdr-IsSized id args name short)
            (listed_after c.sensors rs (new_sensor 0x20 0 n j 1) n (main_sdr id args name)
              st.valid.listed lun (num ∙ sym same))))
