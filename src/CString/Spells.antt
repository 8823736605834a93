-- ===== src/CString/Spells.antt =====
-- The strings and the bytes that stand in a buffer.
use mathlib.Core.Path.{subst}
use linux_learning.Prelude.{
  ℕ, zero, suc, ◌+◌, ◌-◌, ◌≤◌, ◌<◌, ◌≡◌, refl, sym, ◌∙◌, All, arith, Bool, Bool-cases, inl, inr,
  if◌then◌else◌, true, false, List, [], ◌∷◌, ◌++◌, ◌==◌, length, update, update_away, ℕ_discrete,
  ok,
}
use linux_learning.CString.{Bytes, NoNul, string_in, c_str}

-- From `at` on the buffer holds these bytes and a NUL.
abbrev pub Spells : Bytes → ℕ → List ℕ → Type 0
Spells s at [] = s at ≡ 0
Spells s at (c ∷ l) = (s at ≡ c) × Spells s (at + 1) l

pub Spells-cut :
    (l more : List ℕ) (s : Bytes) (at p : ℕ)
    → p ≡ at + length l
    → Spells s at (l ++ more)
    → Spells (update s p 0) at l
Spells-cut [] more s at p e v = ground (arith, e)
Spells-cut (c ∷ l) more s at p e v =
    let away : (at == p) ≡ false = ground (arith, e) in
    (update_away s p 0 at away ∙ v.0, Spells-cut l more s (at + 1) p (omega (arith, e)) v.1)

pub Spells-join :
    (l more : List ℕ) (s s' : Bytes) (at p : ℕ)
    → p ≡ at + length l
    → Spells s at l
    → ((i : ℕ) → i < p → s' i ≡ s i)
    → Spells s' p more
    → Spells s' at (l ++ more)
Spells-join [] more s s' at p e v below more_v =
    let same : at ≡ p = omega (arith, e) in rw same more_v
Spells-join (c ∷ l) more s s' at p e v below more_v = (
  below at (omega (arith, e)) ∙ v.0,
  Spells-join l more s s' (at + 1) p (omega (arith, e)) v.1 below more_v,
)

abbrev has_no_nul : List ℕ → Bool
has_no_nul [] = true
has_no_nul (c ∷ l) = let rest = has_no_nul l in if c == 0 then false else rest

-- For literals.
pub literal-NoNul : (l : List ℕ) → has_no_nul l ≡ true → NoNul l
literal-NoNul [] h = tt
literal-NoNul (c ∷ l) h = elim (Bool-cases (c == 0)) [
  | inl nul ↦ absurd (ground (arith, nul, h))
  | inr more ↦ ((λ e. ground (arith, more, e)), literal-NoNul l (ground (arith, more, h)))
]

string_in-Spells :
    (l : List ℕ) (room : ℕ) (s : Bytes) (at : ℕ)
    → length l < room
    → NoNul l
    → Spells s at l
    → string_in room s at ≡ ok l
unfolding string_in
string_in-Spells [] zero s at lt n v = absurd (omega (arith, lt))
string_in-Spells [] (suc room) s at lt n v = rw v refl
string_in-Spells (c ∷ l) zero s at lt n v = absurd (omega (arith, lt))
string_in-Spells (c ∷ l) (suc room) s at lt n v =
    let more : (c == 0) ≡ false = ground (arith, n.0) in
    rw (v.0, more, string_in-Spells l room s (at + 1) (omega (arith, lt)) n.1 v.1) refl

-- The string at `at` of a buffer of `size` bytes.
pub c_str-Spells :
    (size : ℕ) (l : List ℕ) (s : Bytes) (at : ℕ)
    → at + length l < size
    → NoNul l
    → Spells s at l
    → c_str size s at ≡ ok l
unfolding c_str
c_str-Spells size l s at lt n v = string_in-Spells l (size - at) s at (omega (arith, lt)) n v

pub Spells-behind :
    (l more : List ℕ) (s : Bytes) (at p : ℕ)
    → p ≡ at + length l
    → Spells s at (l ++ more)
    → Spells s p more
Spells-behind [] more s at p e v = let same : p ≡ at = omega (arith, e) in rw same v
Spells-behind (c ∷ l) more s at p e v = Spells-behind l more s (at + 1) p (omega (arith, e)) v.1

pub Spells-same :
    (l : List ℕ) (s s' : Bytes) (at : ℕ)
    → ((i : ℕ) → at ≤ i → i ≤ at + length l → s' i ≡ s i)
    → Spells s at l
    → Spells s' at l
Spells-same [] s s' at same v = same at (omega arith) (omega arith) ∙ v
Spells-same (c ∷ l) s s' at same v = (
  same at (omega arith) (omega arith) ∙ v.0,
  Spells-same l s s' (at + 1) (λ i le lt. same i (omega arith) (omega arith)) v.1,
)

-- From `at` on the buffer holds these bytes.
abbrev pub Reads : Bytes → ℕ → List ℕ → Type 0
Reads s at [] = Unit
Reads s at (c ∷ l) = (s at ≡ c) × Reads s (at + 1) l

pub Reads-Spells :
    (l : List ℕ) (s : Bytes) (at p : ℕ) → p ≡ at + length l → s p ≡ 0 → Reads s at l → Spells s at l
Reads-Spells [] s at p e nul v = let same : at ≡ p = omega (arith, e) in rw same nul
Reads-Spells (c ∷ l) s at p e nul v = (v.0, Reads-Spells l s (at + 1) p (omega (arith, e)) nul v.1)

pub Reads-same :
    (l : List ℕ) (s s' : Bytes) (at : ℕ)
    → ((i : ℕ) → at ≤ i → i < at + length l → s' i ≡ s i)
    → Reads s at l
    → Reads s' at l
Reads-same [] s s' at same v = tt
Reads-same (c ∷ l) s s' at same v = (
  same at (omega arith) (omega arith) ∙ v.0,
  Reads-same l s s' (at + 1) (λ i le lt. same i (omega arith) (omega arith)) v.1,
)

pub Reads-front : (l more : List ℕ) (s : Bytes) (at : ℕ) → Reads s at (l ++ more) → Reads s at l
Reads-front [] more s at v = tt
Reads-front (c ∷ l) more s at v = (v.0, Reads-front l more s (at + 1) v.1)

pub Reads-append :
    (l more : List ℕ) (s : Bytes) (at p : ℕ)
    → p ≡ at + length l
    → Reads s at l
    → Reads s p more
    → Reads s at (l ++ more)
Reads-append [] more s at p e v w = let same : at ≡ p = omega (arith, e) in rw same w
Reads-append (c ∷ l) more s at p e v w =
    (v.0, Reads-append l more s (at + 1) p (omega (arith, e)) v.1 w)

pub Reads-behind :
    (l more : List ℕ) (s : Bytes) (at p : ℕ)
    → p ≡ at + length l
    → Reads s at (l ++ more)
    → Reads s p more
Reads-behind [] more s at p e v = let same : p ≡ at = omega (arith, e) in rw same v
Reads-behind (c ∷ l) more s at p e v = Reads-behind l more s (at + 1) p (omega (arith, e)) v.1

-- What holds of all bytes holds wherever they stand.
pub Reads-All :
    (P : ℕ → Type 0) (l : List ℕ) (s : Bytes) (at : ℕ)
    → All P l
    → Reads s at l
    → (i : ℕ) → at ≤ i
    → i < at + length l
    → P (s i)
Reads-All P [] s at h v i le lt = absurd (omega (arith, lt))
Reads-All P (c ∷ l) s at h v i le lt = elim (ℕ_discrete at i) [
  | yes here ↦ subst (λ j. P (s j)) here (subst P (sym v.0) h.0)
  | no away ↦ Reads-All P l s (at + 1) h.1 v.1 i (omega arith) (omega (arith, lt))
]
