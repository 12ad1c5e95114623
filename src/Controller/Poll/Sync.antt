-- ===== src/Controller/Poll/Sync.antt =====
-- The loops of `pollSensors` of ipmi_internal_sensor.go on the sensors and the records of the repository.
use ipmigod.Base.{
  slot_cases, ℕ, zero, suc, ◌+◌, ◌≤◌, ◌<◌, ◌≡◌, refl, ◌∙◌, sym, ◌⊎◌, inl, inr, List, Returns,
  returns, >>=-Returns, arith,
}
use mathlib.Core.Path.{subst}
use ipmigod.Bmc.{Sdr}
use ipmigod.Client.Handshake.{Network}
use ipmigod.Controller.{Controller}
use ipmigod.Controller.Validity.{ControllerIsValid, InSync}
use ipmigod.Controller.Poll.{poll_nums, poll_luns, poll_sensors}
use ipmigod.Controller.Poll.Polled.{Polled, poll_slot-Polled}

module _ {S : Type 0} (net : Network S) (draw : ℕ → ℕ → ℕ) where
  -- The slots that the loops have been through, when they come to a slot.
  abbrev Before : ℕ → ℕ → ℕ → ℕ → Type 0
  Before lun num l n = (1 ≤ n) × (n < 255) × ((l < lun) ⊎ ((l ≡ lun) × (n < num)))

  abbrev SyncedBefore : ℕ → ℕ → Controller S → Type 0
  SyncedBefore lun num c =
      (rs : List Sdr) × ControllerIsValid c rs × ((l n : ℕ) → Before lun num l n → InSync c rs l n)

  earlier :
      (lun num l n : ℕ)
      → (l < lun) ⊎ ((l ≡ lun) × (n < suc num))
      → ((lun ≡ l) × (num ≡ n) → ⊥)
      → (l < lun) ⊎ ((l ≡ lun) × (n < num))
  earlier lun num l n before differ = ground arith

  step-SyncedBefore :
      (lun num : ℕ) (c c' : Controller S) (h : SyncedBefore lun num c) (rs' : List Sdr)
      → Polled net draw lun num c h.0 c' rs'
      → SyncedBefore lun (suc num) c'
  step-SyncedBefore lun num c c' h rs' p = (
    rs',
    p.valid,
    λ l n before. elim (slot_cases lun num l n) [
      | inl (a, b) ↦ subst (λ n. InSync c' rs' l n) b (subst (λ l. InSync c' rs' l num) a p.synced)
      | inr differ ↦ λ s e.
          let same = p.others l n differ in
          let (r, found, value) =
            h.2 l n (before.0, before.1, earlier lun num l n before.2 differ) s (sym same.0 ∙ e) in
          (r, same.1 ∙ found, value)
    ],
  )

  weaken :
      (lun num lun' num' : ℕ) (c : Controller S)
      → ((l n : ℕ) → Before lun' num' l n → Before lun num l n)
      → SyncedBefore lun num c
      → SyncedBefore lun' num' c
  weaken lun num lun' num' c f h = (h.0, h.1, λ l n before. h.2 l n (f l n before))

  poll_nums-SyncedBefore :
      (k lun num m last : ℕ) (c : Controller S)
      → num + k ≡ m
      → SyncedBefore lun num c
      → Returns (λ r. SyncedBefore lun m r.1) (poll_nums net draw k lun num last c)
  unfolding poll_nums
  poll_nums-SyncedBefore zero lun num m last c e h =
      returns (weaken lun num lun m c (λ l n before. (before.0, before.1, ground arith)) h)
  poll_nums-SyncedBefore (suc k) lun num m last c e h =
      >>=-Returns _ (poll_slot-Polled net draw lun num last c h.0 h.1) λ r polled.
        poll_nums-SyncedBefore k lun (suc num) m r.0 r.1 (omega arith)
          (step-SyncedBefore lun num c r.1 h polled.0 polled.1)

  poll_luns-SyncedBefore :
      (k lun m last : ℕ) (c : Controller S)
      → lun + k ≡ m
      → SyncedBefore lun 1 c
      → Returns (λ r. SyncedBefore m 1 r.1) (poll_luns net draw k lun last c)
  unfolding poll_luns
  poll_luns-SyncedBefore zero lun m last c e h =
      returns (weaken lun 1 m 1 c (λ l n before. (before.0, before.1, ground arith)) h)
  poll_luns-SyncedBefore (suc k) lun m last c e h =
      >>=-Returns _ (poll_nums-SyncedBefore 254 lun 1 255 last c refl h) λ r row.
        poll_luns-SyncedBefore k (suc lun) m r.0 r.1 (omega arith)
          (weaken lun 255 (suc lun) 1 r.1 (λ l n before. (before.0, before.1, ground arith)) row)

  -- A tick of the sensor poll, on a controller whose registered sensors all have a record in the repository:
  -- `pollSensors` returns, without a panic, whatever the network to the MM card does; the controller is
  -- well-formed behind it, every registered sensor still has a record, and the record of each sensor in the
  -- slots that the loops visit has the value of the sensor.
  pub poll_sensors-InSync :
      (c : Controller S) (rs : List Sdr)
      → ControllerIsValid c rs
      → Returns
          (λ c'.
            (rs' : List Sdr) × ControllerIsValid c' rs'
            × ((lun num : ℕ) → lun < 4 → 1 ≤ num → num < 255 → InSync c' rs' lun num))
          (poll_sensors net draw c)
  unfolding poll_sensors
  poll_sensors-InSync c rs v =
      >>=-Returns _
        (poll_luns-SyncedBefore 4 0 4 0 c refl (rs, v, λ l n before. absurd (ground arith)))
        λ r h. returns (h.0, h.1, λ l n low first below. h.2 l n (first, below, inl low))
