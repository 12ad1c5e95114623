-- ===== src/Base/Outcomes.antt =====
-- What a Go function does: it returns, or it ends the program by a run-time panic.
use mathlib.Core.Path.{◌≡◌, refl, sym, subst}
use ipmigod.Base.Tests.{if◌then◌else◌}
use mathlib.Core.Bool.{Bool, true, false}
use mathlib.Core.Option.{Option, none, some}

pub data Outcome {ℓ} (A : Type ℓ) : Type ℓ where
  ok : A → Outcome A
  -- An index out of range, a nil pointer read or a nil function called.
  panic : Outcome A
  -- No result of the code: the fuel that the model gives a loop ran out.
  stuck : Outcome A

infixl 5 ◌>>=◌
abbrev pub ◌>>=◌ {ℓ κ} : {A : Type ℓ} {B : Type κ} → Outcome A → (A → Outcome B) → Outcome B
ok a >>= f = f a
panic >>= f = panic
stuck >>= f = stuck

-- A read through a pointer or an index that may be absent.
abbrev pub or_panic {ℓ} : {A : Type ℓ} → Option A → Outcome A
or_panic none = panic
or_panic (some a) = ok a

-- The outcome is no panic, and what it returns satisfies `P`.
pub data Returns {ℓ} {A : Type ℓ} (P : A → Type 0) : Outcome A → Type ℓ where
  returns : {a : A} → P a → Returns P (ok a)

-- Case analysis on the tests of a function that branches, one rule to a test.
module _ {ℓ} {A : Type ℓ} {P : A → Type 0} where
  pub Returns-ok : {a : A} → Returns P (ok a) → P a
  Returns-ok (returns h) = h

  pub if-Returns :
      (b : Bool) {x y : Outcome A}
      → (b ≡ true → Returns P x)
      → (b ≡ false → Returns P y)
      → Returns P (if b then x else y)
  if-Returns true h k = h refl
  if-Returns false h k = k refl

  pub option-Returns {κ} :
      {B : Type κ} (o : Option B) {x : Outcome A} {f : B → Outcome A}
      → (o ≡ none → Returns P x)
      → ((b : B) → o ≡ some b → Returns P (f b))
      → Returns P (elim o [ none ↦ x | some b ↦ f b ])
  option-Returns none h k = h refl
  option-Returns (some b) h k = k b refl

  -- With the first result at hand.
  pub >>=-Returns_eq {κ} :
      {B : Type κ} (Q : B → Type 0) {m : Outcome B} {f : B → Outcome A}
      → Returns Q m
      → ((b : B) → m ≡ ok b → Q b → Returns P (f b))
      → Returns P (m >>= f)
  >>=-Returns_eq Q (returns {a = b} h) k = k b refl h

  pub >>=-Returns {κ} :
      {B : Type κ} (Q : B → Type 0) {m : Outcome B} {f : B → Outcome A}
      → Returns Q m
      → ((b : B) → Q b → Returns P (f b))
      → Returns P (m >>= f)
  >>=-Returns Q (returns {a = b} h) k = k b h

-- The function returns with `P`, or it panics: it does not run out of fuel.
pub data Safe {ℓ} {A : Type ℓ} (P : A → Type 0) : Outcome A → Type ℓ where
  returned : {a : A} → P a → Safe P (ok a)
  panicked : Safe P panic

module _ {ℓ} {A : Type ℓ} {P : A → Type 0} where
  pub Returns-Safe : {m : Outcome A} → Returns P m → Safe P m
  Returns-Safe (returns h) = returned h

  pub Safe-map : {Q : A → Type 0} {m : Outcome A} → ((a : A) → P a → Q a) → Safe P m → Safe Q m
  Safe-map f (returned {a = a} h) = returned (f a h)
  Safe-map f panicked = panicked

  pub if-Safe :
      (b : Bool) {x y : Outcome A}
      → (b ≡ true → Safe P x)
      → (b ≡ false → Safe P y)
      → Safe P (if b then x else y)
  if-Safe true h k = h refl
  if-Safe false h k = k refl

  pub option-Safe {κ} :
      {B : Type κ} (o : Option B) {x : Outcome A} {f : B → Outcome A}
      → (o ≡ none → Safe P x)
      → ((b : B) → o ≡ some b → Safe P (f b))
      → Safe P (elim o [ none ↦ x | some b ↦ f b ])
  option-Safe none h k = h refl
  option-Safe (some b) h k = k b refl

  pub or_panic-Safe {κ} :
      {B : Type κ} (o : Option B) {f : B → Outcome A}
      → ((b : B) → o ≡ some b → Safe P (f b))
      → Safe P (or_panic o >>= f)
  or_panic-Safe none k = panicked
  or_panic-Safe (some b) k = k b refl

  pub >>=-Safe {κ} :
      {B : Type κ} (Q : B → Type 0) {m : Outcome B} {f : B → Outcome A}
      → Safe Q m
      → ((b : B) → Q b → Safe P (f b))
      → Safe P (m >>= f)
  >>=-Safe Q (returned {a = b} h) k = k b h
  >>=-Safe Q panicked k = panicked

pub or_panic-ends {ℓ} : {A : Type ℓ} (o : Option A) → Safe (λ _. Unit {0}) (or_panic o)
or_panic-ends none = panicked
or_panic-ends (some a) = returned tt

module _ {ℓ} {A : Type ℓ} {P Q : A → Type 0} where
  pub Returns-map : {m : Outcome A} → ((a : A) → P a → Q a) → Returns P m → Returns Q m
  Returns-map f (returns {a = a} h) = returns (f a h)

  pub Returns-both : {m : Outcome A} → Returns P m → Safe Q m → Returns (λ a. P a × Q a) m
  Returns-both (returns h) k = returns (h, Safe-ok k)
    where
      Safe-ok : {R : A → Type 0} {a : A} → Safe R (ok a) → R a
      Safe-ok (returned r) = r

-- Whatever is returned satisfies `P`.
pub data Allows {ℓ} {A : Type ℓ} (P : A → Type 0) : Outcome A → Type ℓ where
  allowed : {a : A} → P a → Allows P (ok a)
  ended : Allows P panic
  no_fuel : Allows P stuck

module _ {ℓ} {A : Type ℓ} {P : A → Type 0} where
  pub if-Allows :
      (b : Bool) {x y : Outcome A} → Allows P x → Allows P y → Allows P (if b then x else y)
  if-Allows true h k = h
  if-Allows false h k = k

  pub option-Allows {κ} :
      {B : Type κ} (o : Option B) {x : Outcome A} {f : B → Outcome A}
      → (o ≡ none → Allows P x)
      → ((b : B) → o ≡ some b → Allows P (f b))
      → Allows P (elim o [ none ↦ x | some b ↦ f b ])
  option-Allows none h k = h refl
  option-Allows (some b) h k = k b refl

  pub >>=-Allows :
      {B : Type ℓ} (m : Outcome B) {f : B → Outcome A}
      → ((b : B) → Allows P (f b))
      → Allows P (m >>= f)
  >>=-Allows (ok b) k = k b
  >>=-Allows panic k = ended
  >>=-Allows stuck k = no_fuel

  pub and-Allows :
      {B : Type ℓ} {Q : B → Type 0} {m : Outcome B} {f : B → Outcome A}
      → Allows Q m
      → ((b : B) → Q b → Allows P (f b))
      → Allows P (m >>= f)
  and-Allows (allowed {a = b} q) k = k b q
  and-Allows ended k = ended
  and-Allows no_fuel k = no_fuel

  pub Allows-map :
      {Q : A → Type 0} {m : Outcome A} → ((a : A) → P a → Q a) → Allows P m → Allows Q m
  Allows-map f (allowed {a = a} h) = allowed (f a h)
  Allows-map f ended = ended
  Allows-map f no_fuel = no_fuel

  pub Safe-Allows : {m : Outcome A} → Safe P m → Allows P m
  Safe-Allows (returned h) = allowed h
  Safe-Allows panicked = ended

module _ {ℓ} {A : Type ℓ} {P Q : A → Type 0} where
  pub Returns-and : {m : Outcome A} → Returns P m → Allows Q m → Returns (λ a. P a × Q a) m
  Returns-and (returns h) (allowed k) = returns (h, k)

  pub Safe-and : {m : Outcome A} → Safe P m → Allows Q m → Safe (λ a. P a × Q a) m
  Safe-and (returned h) (allowed k) = returned (h, k)
  Safe-and panicked k = panicked

pub Returns-some {ℓ} :
    {A : Type ℓ} {P : A → Type 0} {m : Outcome A} → Returns P m → (a : A) × (m ≡ ok a) × P a
Returns-some (returns {a = a} h) = (a, refl, h)

-- The test says exactly where the code panics, for an input of the kind `G`: elsewhere it returns, with `P`.
abbrev pub Exactly : {A : Type 0} → Type 0 → Bool → (A → Type 0) → Outcome A → Type 0
Exactly G fault P m = (G → fault ≡ true → m ≡ panic) × (fault ≡ false → Returns P m)

-- The outcome is a panic where the test is true; where it is false the code returns, with `P`.
pub data PanicsBy {A : Type 0} (fault : Bool) (P : A → Type 0) : Outcome A → Type 0 where
  panics : fault ≡ true → PanicsBy fault P panic
  serves : {a : A} → fault ≡ false → P a → PanicsBy fault P (ok a)

module _ {A : Type 0} {P : A → Type 0} where
  Returns-PanicsBy :
      {fault : Bool} {m : Outcome A} → fault ≡ false → Returns P m → PanicsBy fault P m
  Returns-PanicsBy e (returns h) = serves e h

  pub Exactly-PanicsBy :
      {G : Type 0} (fault : Bool) (m : Outcome A) → Exactly G fault P m → G → PanicsBy fault P m
  Exactly-PanicsBy true m (panics_at, _) g =
      subst (PanicsBy true P) (sym (panics_at g refl)) (panics refl)
  Exactly-PanicsBy false m (_, returns_at) g = Returns-PanicsBy refl (returns_at refl)

  pub PanicsBy-Returns :
      {fault : Bool} {m : Outcome A} → PanicsBy fault P m → fault ≡ false → Returns P m
  PanicsBy-Returns (panics e) quiet = cc
  PanicsBy-Returns (serves e h) quiet = returns h
