-- ===== src/Controller/Poll/Empty.antt =====
-- `pollSensors` of ipmi_internal_sensor.go on an empty repository.
use ipmigod.Base.{
  ℕ, zero, suc, ◌+◌, ◌≤◌, ◌<◌, ◌≡◌, refl, ◌∙◌, ap, ◌⊎◌, inl, inr, false, Option-cases, none, some,
  Outcome, ok, panic, ◌>>=◌, Returns, returns, arith,
}
use native.Mathlib.Decide.{ℕ_discrete}
use ipmigod.Message.{Msg, byte}
use ipmigod.World.{World, Env}
use ipmigod.World.Frame.{IsStable, return_rsp_data-keeps}
use ipmigod.Storage.Slices.{stale_reservation, lacks_clr}
use ipmigod.Storage.Sdr.{find_sdr, clear_sdr_repository}
use ipmigod.Client.Handshake.{Network}
use ipmigod.Controller.{Controller, Sensor}
use ipmigod.Controller.Poll.{poll_sensor, poll_slot, poll_nums, poll_luns, poll_sensors}

module _ {S : Type 0} (net : Network S) (draw : ℕ → ℕ → ℕ) (c : Controller S)
    (empty : c.world.main_sdrs.sdrs ≡ none) where
  poll_slot-panics :
      (lun num last : ℕ) (s : Sensor)
      → c.sensors lun num ≡ some s
      → poll_slot net draw lun num last c ≡ panic
  unfolding poll_slot poll_sensor find_sdr
  poll_slot-panics lun num last s at = rw (at, poll_slot, poll_sensor, empty)

  -- A loop that does not panic changes nothing.
  abbrev Idle : Outcome (ℕ × Controller S) → ℕ → Type 0
  Idle m last = (m ≡ panic) ⊎ (m ≡ ok (last, c))

  poll_slot-Idle : (lun num last : ℕ) → Idle (poll_slot net draw lun num last c) last
  unfolding poll_slot
  poll_slot-Idle lun num last = elim (Option-cases (c.sensors lun num)) [
    | inl absent ↦ inr (rw (absent, poll_slot))
    | inr (s, at) ↦ inl (poll_slot-panics lun num last s at)
  ]

  poll_nums-Idle : (k lun num last : ℕ) → Idle (poll_nums net draw k lun num last c) last
  unfolding poll_nums
  poll_nums-Idle zero lun num last = inr refl
  poll_nums-Idle (suc k) lun num last = elim (poll_slot-Idle lun num last) [
    | inl e ↦ inl (rw e)
    | inr e ↦ rw e (poll_nums-Idle k lun (suc num) last)
  ]

  poll_nums-panics :
      (k lun num last target : ℕ) (s : Sensor)
      → num ≤ target
      → target < num + k
      → c.sensors lun target ≡ some s
      → poll_nums net draw k lun num last c ≡ panic
  unfolding poll_nums
  poll_nums-panics zero lun num last target s lo hi at = absurd (omega arith)
  poll_nums-panics (suc k) lun num last target s lo hi at = elim (poll_slot-Idle lun num last) [
    | inl e ↦ rw e
    | inr e ↦ elim (ℕ_discrete num target) [
      | yes here ↦ rw (poll_slot-panics lun num last s (ap (c.sensors lun) here ∙ at))
      | no later ↦
          rw e
            (poll_nums-panics k lun (suc num) last target s (omega (arith, later)) (omega arith) at)
    ]
  ]

  poll_luns-panics :
      (k lun last row target : ℕ) (s : Sensor)
      → lun ≤ row
      → row < lun + k
      → 1 ≤ target
      → target < 255
      → c.sensors row target ≡ some s
      → poll_luns net draw k lun last c ≡ panic
  unfolding poll_luns
  poll_luns-panics zero lun last row target s lo hi first below at = absurd (omega arith)
  poll_luns-panics (suc k) lun last row target s lo hi first below at =
      elim (poll_nums-Idle 254 lun 1 last) [
        | inl e ↦ rw e
        | inr e ↦ elim (ℕ_discrete lun row) [
          | yes here ↦ rw (
              poll_nums-panics 254 lun 1 last target s first (omega arith)
                (ap (λ l. c.sensors l target) here ∙ at))
          | no later ↦ rw e (
              poll_luns-panics k (suc lun) last row target s (omega (arith, later)) (omega arith)
                first below at)
        ]
      ]

  pub poll_sensors-panics :
      (row target : ℕ) (s : Sensor)
      → row < 4
      → 1 ≤ target
      → target < 255
      → c.sensors row target ≡ some s
      → poll_sensors net draw c ≡ panic
  unfolding poll_sensors
  poll_sensors-panics row target s low first below at =
      rw (poll_luns-panics 4 0 0 row target s (omega arith) (omega arith) first below at)

-- An accepted clear request leaves an empty list.
cleared-IsStable : IsStable (λ w. w.main_sdrs.sdrs ≡ none)
cleared-IsStable = record { sends = λ w p h. h; bumps = λ w i h. h }

clear_sdr_repository-empties :
    (env : Env) (msg : Msg) (w : World)
    → stale_reservation msg w.main_sdrs.reservation ≡ false
    → lacks_clr msg ≡ false
    → byte msg (msg.data_start + 5) ≡ 0xaa
    → Returns (λ w'. w'.main_sdrs.sdrs ≡ none) (clear_sdr_repository env msg w)
unfolding clear_sdr_repository
clear_sdr_repository-empties env msg w fresh clr erase =
    rw (fresh, clr, erase)
      (return_rsp_data-keeps (λ w. w.main_sdrs.sdrs ≡ none) cleared-IsStable _ refl msg _ _
        (omega arith))

bind_panics :
    {A B : Type 0} {P : A → Type 0} {m : Outcome A} {f : A → Outcome B}
    → Returns P m
    → ((a : A) → P a → f a ≡ panic)
    → (m >>= f) ≡ panic
bind_panics (returns {a = a} h) k = k a h

module _ {S : Type 0} (net : Network S) (draw : ℕ → ℕ → ℕ) (env : Env) (msg : Msg)
    (c : Controller S) where
  -- The tick after an accepted request to clear the SDR repository ends the program by a nil pointer read, when
  -- a sensor is registered in a slot that the loops of `pollSensors` visit.
  pub clear_sdr_repository-poll_panics :
      (lun num : ℕ) (s : Sensor)
      → stale_reservation msg c.world.main_sdrs.reservation ≡ false
      → lacks_clr msg ≡ false
      → byte msg (msg.data_start + 5) ≡ 0xaa
      → lun < 4
      → 1 ≤ num
      → num < 255
      → c.sensors lun num ≡ some s
      → (clear_sdr_repository env msg c.world >>= λ w.
          poll_sensors net draw (record c { world = w }))
        ≡ panic
  clear_sdr_repository-poll_panics lun num s fresh clr erase low first below at =
      bind_panics (clear_sdr_repository-empties env msg c.world fresh clr erase) λ w empty.
        poll_sensors-panics net draw (record c { world = w }) empty lun num s low first below at
