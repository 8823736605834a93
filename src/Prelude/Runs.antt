-- ===== src/Prelude/Runs.antt =====
-- How a call of the program ends, with the rules for calls that end well.
use mathlib.Core.Path.{◌≡◌, refl, sym, subst}
use mathlib.Core.Bool.{Bool, true, false}
use mathlib.Core.Option.{Option, none, some}
use mathlib.Core.List.{List, [], ◌∷◌}
use linux_learning.Prelude.Tests.{if◌then◌else◌}

-- A value; an exception; undefined behaviour, such as an access out of bounds or through a dangling
-- pointer; or the model's fuel running out.
pub data Run {ℓ} (A : Type ℓ) : Type ℓ where
  ok : A → Run A
  thrown fault out_of_fuel : Run A

infixl 5 ◌>>=◌ ◌>>◌
abbrev pub ◌>>=◌ {ℓ κ} : {A : Type ℓ} {B : Type κ} → Run A → (A → Run B) → Run B
ok a >>= f = f a
thrown >>= f = thrown
fault >>= f = fault
out_of_fuel >>= f = out_of_fuel

abbrev pub ◌>>◌ {ℓ} : {B : Type ℓ} → Run (Unit {0}) → Run B → Run B
m >> k = m >>= λ _. k

-- The call comes back with a value for which `P` holds: no exception, no fault, enough fuel.
pub data Yields {ℓ κ} {A : Type ℓ} (P : A → Type κ) : Run A → Type (ℓ ⊔ κ) where
  yields : {a : A} → P a → Yields P (ok a)

module _ {ℓ κ} {A : Type ℓ} {P : A → Type κ} where
  -- Sequencing: what the first call guarantees is what the second may assume.
  pub Yields-bind {ℓ' κ'} :
      {B : Type ℓ'} {Q : B → Type κ'} {r : Run A} {f : A → Run B}
      → Yields P r
      → ((a : A) → P a → Yields Q (f a))
      → Yields Q (r >>= f)
  Yields-bind (yields {a} p) k = k a p

  pub Yields-weaken {κ'} :
      {Q : A → Type κ'} {r : Run A} → Yields P r → ((a : A) → P a → Q a) → Yields Q r
  Yields-weaken (yields {a} p) k = yields (k a p)

  pub Yields-known : {r : Run A} → Yields P r → Yields (λ a. P a × (r ≡ ok a)) r
  Yields-known (yields p) = yields (p, refl)

  -- When the outcome is known, of the call or of the first one in it.
  pub Yields-from : {r : Run A} (a : A) → r ≡ ok a → P a → Yields P r
  Yields-from a e p = subst (Yields P) (sym e) (yields p)

  pub Yields-ok {ℓ'} :
      {B : Type ℓ'} {r : Run B} {b : B} (f : B → Run A)
      → r ≡ ok b
      → Yields P (f b)
      → Yields P (r >>= f)
  Yields-ok f e y = subst (λ x. Yields P (x >>= f)) (sym e) y

  pub Yields-if :
      {x y : Run A} (test : Bool)
      → (test ≡ true → Yields P x)
      → (test ≡ false → Yields P y)
      → Yields P (if test then x else y)
  Yields-if true then_part else_part = then_part refl
  Yields-if false then_part else_part = else_part refl

  pub Yields-value : {r : Run A} → Yields P r → (a : A) × (r ≡ ok a) × P a
  Yields-value (yields {a} p) = (a, refl, p)

pub bind-ext {ℓ κ} :
    {A : Type ℓ} {B : Type κ} (r : Run A) (f g : A → Run B)
    → ((a : A) → f a ≡ g a)
    → r >>= f ≡ r >>= g
bind-ext (ok a) f g e = e a
bind-ext thrown f g e = refl
bind-ext fault f g e = refl
bind-ext out_of_fuel f g e = refl

pub bind_assoc {ℓ κ μ} :
    {A : Type ℓ} {B : Type κ} {C : Type μ} (r : Run A) (f : A → Run B) (g : B → Run C)
    → (r >>= f) >>= g ≡ r >>= λ a. f a >>= g
bind_assoc (ok a) f g = refl
bind_assoc thrown f g = refl
bind_assoc fault f g = refl
bind_assoc out_of_fuel f g = refl

-- The call comes to an end, with enough fuel, and a value that it returns satisfies `P`; it may also
-- throw or be undefined.
pub data Halts {ℓ κ} {A : Type ℓ} (P : A → Type κ) : Run A → Type (ℓ ⊔ κ) where
  returns : {a : A} → P a → Halts P (ok a)
  throws : Halts P thrown
  faults : Halts P fault

module _ {ℓ κ} {A : Type ℓ} {P : A → Type κ} where
  pub Halts-bind {ℓ' κ'} :
      {B : Type ℓ'} {Q : B → Type κ'} {r : Run A} {f : A → Run B}
      → Halts P r
      → ((a : A) → P a → Halts Q (f a))
      → Halts Q (r >>= f)
  Halts-bind (returns {a} p) k = k a p
  Halts-bind throws k = throws
  Halts-bind faults k = faults

  pub Halts-option {ℓ'} :
      {B : Type ℓ'} {x : Run A} {f : B → Run A} (o : Option B)
      → Halts P x
      → ((b : B) → Halts P (f b))
      → Halts P (elim o [ none ↦ x | some b ↦ f b ])
  Halts-option none h k = h
  Halts-option (some b) h k = k b

  pub Halts-if :
      {x y : Run A} (test : Bool) → Halts P x → Halts P y → Halts P (if test then x else y)
  Halts-if true p q = p
  Halts-if false p q = q

  pub Halts-list {ℓ'} :
      {B : Type ℓ'} {x : Run A} {f : B → List B → Run A} (l : List B)
      → Halts P x
      → ((b : B) (rest : List B) → Halts P (f b rest))
      → Halts P (elim l [ [] ↦ x | b ∷ rest ↦ f b rest ])
  Halts-list [] h k = h
  Halts-list (b ∷ rest) h k = k b rest
