-- ===== src/Server/Entries.antt =====
-- The tables of commands of ipmi_proto.go, entry by entry.
use ipmigod.Base.{ℕ, ◌≡◌, refl, ◌⊎◌, inl, inr, ◌==◌, ==_iff, Bool-cases, none, some, List, [], ◌∷◌}
use mathlib.Core.Path.{subst}
use ipmigod.World.{Handler}
use ipmigod.Server.{map_get}

-- Each handler of a table has a property, which may depend on the key that it is registered under.
pub data Entries (R : ℕ → Handler → Type 0) : List (ℕ × Handler) → Type 0 where
  end : Entries R []
  ◌▸◌ :
      {k : ℕ} {h : Handler} {m : List (ℕ × Handler)} → R k h → Entries R m → Entries R ((k, h) ∷ m)

infixr 5 ◌▸◌
-- A handler that a read of the table finds has the property at the key read.
pub map_get-Entries :
    (R : ℕ → Handler → Type 0) (key : ℕ) (m : List (ℕ × Handler))
    → Entries R m
    → (map_get key m ≡ none) ⊎ ((h : Handler) × (map_get key m ≡ some h) × R key h)
unfolding map_get
map_get-Entries R key [] end = inl refl
map_get-Entries R key ((k, h) ∷ m) (r ▸ rs) = elim (Bool-cases (k == key)) [
  | inl here ↦ inr (h, rw here, subst (λ k. R k h) ((==_iff k key).0 here) r)
  | inr later ↦ rw later (map_get-Entries R key m rs)
]
