-- ===== src/Controller/Poll/Polled.antt =====
-- A slot of the array in `pollSensors` of ipmi_internal_sensor.go: what the body of the loops does to the sensor,
-- its record, and the others.
use ipmigod.Base.{
  slot_cases, ℕ, ◌≡◌, refl, ◌∙◌, ap, sym, inl, inr, Bool-cases, ltb, Option, none, some, List,
  Returns, returns, option-Returns, length, arith,
}
use ipmigod.Bmc.{Sdr}
use ipmigod.World.{World}
use ipmigod.Storage.Validity.{ServerIsValid, sdrs_valid}
use ipmigod.Storage.Sdr.{is_sensor, set_value}
use ipmigod.Storage.Sdr.Walk.{set-SdrsAreLinked}
use ipmigod.Storage.Sdr.Chain.{find_cell, find_sdr-Chain}
use ipmigod.Storage.Sdr.Contents.{
  find_record, find_record-cells, record_of, update_first, set-Represents,
}
use ipmigod.Storage.Sdr.Records.{find_record-update_self, find_record-update_other, sensors_apart}
use ipmigod.Client.Handshake.{Network}
use ipmigod.Controller.{Controller, Sensor, Sensors, set_sensor}
use ipmigod.Controller.Validity.{ControllerIsValid, InSync}
use ipmigod.Controller.Poll.{simulated_value, send_value, poll_sensor, poll_slot}

abbrev valued : ℕ → Sdr → Sdr
valued value r = record r { value = value }

set_value-ServerIsValid :
    (w : World) (i value : ℕ) → ServerIsValid w → ServerIsValid (set_value w i value)
set_value-ServerIsValid w i value v =
    sdrs_valid w v _
      (set-SdrsAreLinked w.main_sdrs i (valued value) (λ s. refl) (λ s h. h) v.repository)

-- A search for a record, where there is one.
some_cell : (o : Option (ℕ × Sdr)) (r : Sdr) → record_of o ≡ some r → (x : ℕ × Sdr) × (o ≡ some x)
some_cell none r e = cc
some_cell (some x) r e = (x, refl)

none-some : {A : Type 0} {a : A} → (none ≡ some a) → ⊥
none-some e = cc

abbrev value_or : ℕ → Option Sensor → ℕ
value_or value none = value
value_or value (some s) = s.value

set_sensor_self : (sensors : Sensors) (l n : ℕ) (s : Sensor) → set_sensor sensors l n s l n ≡ some s
set_sensor_self sensors l n s = ground arith

set_sensor_other :
    (sensors : Sensors) (l n l' n' : ℕ) (s : Sensor)
    → ((l ≡ l') × (n ≡ n') → ⊥)
    → set_sensor sensors l n s l' n' ≡ sensors l' n'
set_sensor_other sensors l n l' n' s differ = ground arith

module _ {S : Type 0} (net : Network S) (draw : ℕ → ℕ → ℕ) where
  -- A step for the slot keeps the others: their sensors and the records of these.
  pub record Polled (lun num : ℕ) (c : Controller S) (rs : List Sdr) (c' : Controller S)
      (rs' : List Sdr) : Type 0 where
    pub valid : ControllerIsValid c' rs'
    pub synced : InSync c' rs' lun num
    pub others :
        (l n : ℕ)
        → ((lun ≡ l) × (num ≡ n) → ⊥)
        → (c'.sensors l n ≡ c.sensors l n)
          × (find_record (is_sensor l n) rs' ≡ find_record (is_sensor l n) rs)

  -- The message to the MM card changes nothing here.
  send_value-Polled :
      (s : Sdr) (value lun num : ℕ) (c c' : Controller S) (rs rs' : List Sdr)
      → Polled lun num c rs c' rs'
      → Polled lun num c rs (send_value net draw s value c') rs'
  unfolding send_value
  send_value-Polled s value lun num c c' rs rs' p =
      elim (Bool-cases (ltb 0 c'.world.chassis_card_num)) [
        | inl lc ↦ rw lc (record {
          valid = record {
            server = p.valid.server;
            holds = p.valid.holds;
            listed = p.valid.listed;
          };
          synced = p.synced;
          others = p.others;
        })
        | inr mm ↦ rw mm p
      ]

  -- The sensor and its record get the value.
  valued-Polled :
      (lun num value : ℕ) (sensor : Sensor) (c : Controller S) (rs : List Sdr)
      (v : ControllerIsValid c rs) (x : ℕ × Sdr) (r : Sdr)
      → find_cell (is_sensor lun num) v.holds.cells ≡ some x
      → find_record (is_sensor lun num) rs ≡ some r
      → Polled lun num c rs
          (record c {
            world = set_value c.world x.0 value;
            sensors = set_sensor c.sensors lun num (record sensor { value = value });
          })
          (update_first (is_sensor lun num) (valued value) rs)
  valued-Polled lun num value sensor c rs v x r here found =
      let p = is_sensor lun num in
      let f = valued value in
      let self : find_record p (update_first p f rs) ≡ some (f r) =
        find_record-update_self f p rs r (λ s. refl) found in
      let other : (l n : ℕ)
          → ((lun ≡ l) × (num ≡ n) → ⊥)
          → find_record (is_sensor l n) (update_first p f rs) ≡ find_record (is_sensor l n) rs =
        λ l n differ.
          find_record-update_other f p (is_sensor l n) rs (λ s. refl)
            (λ s. sensors_apart lun num l n s differ) in
      record {
        valid = record {
          server = set_value-ServerIsValid c.world x.0 value v.server;
          holds =
              set-Represents p f c.world.main_sdrs rs v.holds x.0 x.1 (λ s. refl) (λ s. refl)
                (λ s. refl) here;
          listed = λ l n s e. elim (slot_cases lun num l n) [
            | inl (a, b) ↦ rw (← a, ← b) (f r, self)
            | inr differ ↦
                let (r', found') = v.listed l n s (
                  sym (
                    set_sensor_other c.sensors lun num l n (record sensor { value = value }) differ)
                  ∙ e) in
                (r', other l n differ ∙ found')
          ];
        };
        synced = λ s e. (
          f r,
          self,
          ap (value_or value)
              (sym (set_sensor_self c.sensors lun num (record sensor { value = value })) ∙ e),
        );
        others = λ l n differ. (
          set_sensor_other c.sensors lun num l n (record sensor { value = value }) differ,
          other l n differ,
        );
      }

  poll_sensor-Polled :
      (lun num last : ℕ) (sensor : Sensor) (c : Controller S) (rs : List Sdr)
      → c.sensors lun num ≡ some sensor
      → ControllerIsValid c rs
      → Returns
          (λ r. (rs' : List Sdr) × Polled lun num c rs r.1 rs')
          (poll_sensor net draw lun num sensor last c)
  unfolding poll_sensor
  poll_sensor-Polled lun num last sensor c rs at v =
      let p = is_sensor lun num in
      let value = simulated_value num (draw lun num) last in
      let (r, found) = v.listed lun num sensor at in
      let (x, here) =
        some_cell (find_cell p v.holds.cells) r
          (sym (find_record-cells p (λ s. refl) v.holds) ∙ found) in
      rw (find_sdr-Chain p (length c.world.main_sdrs.nodes) v.holds.chain (omega arith), here)
        (returns (
          update_first p (valued value) rs,
          send_value-Polled x.1 value lun num c _ rs _
              (valued-Polled lun num value sensor c rs v x r here found),
        ))

  -- A slot without a sensor is in sync.
  pub poll_slot-Polled :
      (lun num last : ℕ) (c : Controller S) (rs : List Sdr)
      → ControllerIsValid c rs
      → Returns
          (λ r. (rs' : List Sdr) × Polled lun num c rs r.1 rs')
          (poll_slot net draw lun num last c)
  unfolding poll_slot
  poll_slot-Polled lun num last c rs v =
      option-Returns (c.sensors lun num)
        (λ e. returns (
          rs,
          record {
            valid = v;
            synced = λ s e'. absurd (none-some (sym e ∙ e'));
            others = λ l n differ. (refl, refl);
          },
        ))
        (λ sensor e. poll_sensor-Polled lun num last sensor c rs e v)
