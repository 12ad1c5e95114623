-- ===== src/Controller/Validity.antt =====
-- The controller of bmc.go and the server that it is a part of.
use ipmigod.Base.{ℕ, ◌≡◌, some, List}
use ipmigod.Bmc.{Sdr}
use ipmigod.Storage.Sdr.{is_sensor}
use ipmigod.Storage.Sdr.Contents.{find_record}
use ipmigod.Storage.Sdr.Refines.{Holds}
use ipmigod.Storage.Validity.{ServerIsValid}
use ipmigod.Controller.{Controller, Sensor}

-- The server is well-formed, its repository holds the records, and each registered sensor has one.
pub record ControllerIsValid {S : Type 0} (c : Controller S) (rs : List Sdr) : Type 0 where
  pub server : ServerIsValid c.world
  pub holds : Holds c.world rs
  pub listed :
      (lun num : ℕ) (s : Sensor)
      → c.sensors lun num ≡ some s
      → (r : Sdr) × (find_record (is_sensor lun num) rs ≡ some r)

-- The record of the sensor that is registered in a slot has the sensor's value.
abbrev pub InSync : {S : Type 0} → Controller S → List Sdr → ℕ → ℕ → Type 0
InSync c rs lun num =
    (s : Sensor)
    → c.sensors lun num ≡ some s
    → (r : Sdr) × (find_record (is_sensor lun num) rs ≡ some r) × (r.value ≡ s.value)
