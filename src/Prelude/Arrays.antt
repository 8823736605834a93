-- ===== src/Prelude/Arrays.antt =====
-- C arrays as functions from the index. The bounds are checked by the operations that use them.
use Prim.Native.Nat.{ℕ, zero, suc, ◌+◌, ◌*◌, ◌<◌, ◌≤◌}
use mathlib.Core.Path.{◌≡◌, refl, sym, ap, subst}
use native.Mathlib.Omega.{arith}
use native.Mathlib.Decide.{ℕ_discrete}
use mathlib.Core.Bool.{Bool, false}
use mathlib.Core.Logic.{inl, inr}
use linux_learning.Prelude.Tests.{◌==◌, if◌then◌else◌, Bool-cases}

module _ {ℓ} {A : Type ℓ} where
  abbrev pub update : (ℕ → A) → ℕ → A → ℕ → A
  update a i v j = if i == j then v else a j

  -- The sum of the weights of the first `n` entries.
  abbrev pub total : (A → ℕ) → ℕ → (ℕ → A) → ℕ
  total w zero a = 0
  total w (suc n) a = total w n a + w (a n)

  pub total-update_out :
      (w : A → ℕ) (n i : ℕ) (a : ℕ → A) (v : A) → n ≤ i → total w n (update a i v) ≡ total w n a
  total-update_out w zero i a v h = refl
  total-update_out w (suc n) i a v h = ground (arith, total-update_out w n i a v)

  pub total-update :
      (w : A → ℕ) (n i : ℕ) (a : ℕ → A) (v : A)
      → i < n
      → total w n (update a i v) + w (a i) ≡ total w n a + w v
  total-update w zero i a v h = absurd (omega arith)
  total-update w (suc n) i a v h = elim (ℕ_discrete i n) [
    | yes e ↦ ground (arith, total-update_out w n i a v, ap a e)
    | no e ↦ ground (arith, total-update w n i a v)
  ]

  pub total-ge : (w : A → ℕ) (n i : ℕ) (a : ℕ → A) → i < n → w (a i) ≤ total w n a
  total-ge w zero i a h = absurd (omega arith)
  total-ge w (suc n) i a h = elim (ℕ_discrete i n) [
    | yes e ↦ ground (arith, ap a e)
    | no e ↦ ground (arith, total-ge w n i a)
  ]

  pub total-eq_zero : (w : A → ℕ) (n : ℕ) (a : ℕ → A) → ((i : ℕ) → w (a i) ≡ 0) → total w n a ≡ 0
  total-eq_zero w zero a h = refl
  total-eq_zero w (suc n) a h = omega (arith, h n, total-eq_zero w n a h)

  pub update_at : (a : ℕ → A) (i : ℕ) (v : A) → update a i v i ≡ v
  update_at a i v = ground arith

  pub update_away : (a : ℕ → A) (i : ℕ) (v : A) (j : ℕ) → (j == i) ≡ false → update a i v j ≡ a j
  update_away a i v j apart = ground arith

  -- To show something of every entry: of the new one, and of the others.
  pub by_index {κ} :
      (a : ℕ → A) (i : ℕ) (v : A) (P : ℕ → A → Type κ)
      → P i v
      → ((j : ℕ) → (j == i) ≡ false → P j (a j))
      → (j : ℕ) → P j (update a i v j)
  by_index a i v P here others j = elim (Bool-cases (j == i)) [
    | inl at ↦
        let e : j ≡ i = ground arith in
        subst (λ k. P k (update a i v k)) (sym e) (subst (P i) (sym (update_at a i v)) here)
    | inr away ↦ subst (P j) (sym (update_away a i v j away)) (others j away)
  ]

  pub total-ext :
      (w : A → ℕ) (n : ℕ) (a b : ℕ → A) → ((i : ℕ) → a i ≡ b i) → total w n a ≡ total w n b
  total-ext w zero a b e = refl
  total-ext w (suc n) a b e = omega (arith, total-ext w n a b e, ap w (e n))

  -- Two arrays that differ in one entry.
  pub total-flip :
      (w : A → ℕ) (n i : ℕ) (a b : ℕ → A)
      → i < n
      → ((j : ℕ) → (j == i) ≡ false → b j ≡ a j)
      → total w n b + w (a i) ≡ total w n a + w (b i)
  total-flip w n i a b lt others = omega (
    arith,
    total-update w n i a (b i) lt,
    total-ext w n b (update a i (b i))
        λ j. sym (by_index a i (b i) (λ k v. v ≡ b k) refl (λ k away. sym (others k away)) j),
  )

  pub total-le : (w : A → ℕ) (n m : ℕ) (a : ℕ → A) → ((i : ℕ) → w (a i) ≤ m) → total w n a ≤ n * m
  total-le w zero m a h = omega arith
  total-le w (suc n) m a h = grind (arith, total-le w n m a h, h n)

abbrev pub one_if : Bool → ℕ
one_if b = if b then 1 else 0
