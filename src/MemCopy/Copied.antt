-- ===== src/MemCopy/Copied.antt =====
-- What memcpy_memmove_scratch.cpp copies.
use linux_learning.Prelude.{
  ℕ, zero, suc, ◌+◌, ◌≤◌, ◌<◌, ◌≡◌, refl, sym, ap, ◌∙◌, ◌⊎◌, inl, inr, true, false, ◌&&◌, arith,
  ltb, leb, ◌==◌, update, update_at, update_away, Yields, yields,
}
use linux_learning.CString.{Bytes}
use linux_learning.MemCopy.{copy_up, memcpy, memmove}

-- The `count` bytes at `src` were copied to `dest`, and no other byte has changed.
pub record Copied (m : Bytes) (dest src count : ℕ) (m' : Bytes) : Type 0 where
  pub bytes : (i : ℕ) → i < count → m' (dest + i) ≡ m (src + i)
  pub others : (a : ℕ) → (a < dest) ⊎ (dest + count ≤ a) → m' a ≡ m a

copy_up-Copied :
    (count : ℕ) (m : Bytes) (dest src : ℕ)
    → (dest ≤ src) ⊎ (src + count ≤ dest)
    → Copied m dest src count (copy_up count m dest src)
unfolding copy_up
copy_up-Copied zero m dest src h = record {
  bytes = λ i lt. absurd (omega arith);
  others = λ a out. refl;
}
copy_up-Copied (suc n) m dest src h =
    let m1 = update m dest (m src) in
    let rest = copy_up-Copied n m1 (dest + 1) (src + 1) (further h) in
    record {
      bytes = λ i lt. byte rest i lt;
      others =
          λ a out. rest.others a (omega (arith, out)) ∙ update_away m dest (m src) a (apart a out);
    }
  where
    further : (dest ≤ src) ⊎ (src + suc n ≤ dest) → (dest + 1 ≤ src + 1) ⊎ (src + 1 + n ≤ dest + 1)
    further (inl le) = inl (omega arith)
    further (inr le) = inr (omega arith)

    apart : (a : ℕ) → (a < dest) ⊎ (dest + suc n ≤ a) → (a == dest) ≡ false
    apart a (inl lt) = ground arith
    apart a (inr le) = ground arith

    ahead :
        (dest ≤ src) ⊎ (src + suc n ≤ dest)
        → (i : ℕ) → suc i < suc n
        → ((src + 1 + i) == dest) ≡ false
    ahead (inl le) i lt = ground arith
    ahead (inr le) i lt = ground arith

    byte :
        Copied
          (update m dest (m src))
          (dest + 1)
          (src + 1)
          n
          (copy_up n (update m dest (m src)) (dest + 1) (src + 1))
        → (i : ℕ) → i < suc n
        → copy_up n (update m dest (m src)) (dest + 1) (src + 1) (dest + i) ≡ m (src + i)
    byte rest zero lt =
        let m' = copy_up n (update m dest (m src)) (dest + 1) (src + 1) in
        let at : dest + 0 ≡ dest = omega arith in
        let from : src + 0 ≡ src = omega arith in
        ap m' at ∙ rest.others dest (inl (omega arith)) ∙ update_at m dest (m src) ∙ ap m (sym from)
    byte rest (suc i) lt =
        let m' = copy_up n (update m dest (m src)) (dest + 1) (src + 1) in
        let at : dest + suc i ≡ dest + 1 + i = omega arith in
        let from : src + suc i ≡ src + 1 + i = omega arith in
        ap m' at
        ∙ rest.bytes i (omega arith)
        ∙ update_away m dest (m src) (src + 1 + i) (ahead h i lt)
        ∙ ap m (sym from)

-- memcpy copies all bytes of a source that does not overlap with the destination or starts at it or
-- behind it, changes no other byte, and returns the destination.
pub memcpy-Copied :
    (m : Bytes) (dest src count : ℕ)
    → 0 < dest
    → 0 < src
    → (dest ≤ src) ⊎ (src + count ≤ dest)
    → Yields (λ r. Copied m dest src count r.0 × (r.1 ≡ dest)) (memcpy m dest src count)
unfolding memcpy
memcpy-Copied m dest src count some_dest some_src h =
    let both : (ltb 0 src && ltb 0 dest) ≡ true = ground arith in
    rw both (yields (copy_up-Copied count m dest src h, refl))

-- memmove to an address that is not behind the source copies all bytes, however the two overlap, changes
-- no other byte, and returns the destination.
pub memmove-Copied :
    (m : Bytes) (dest src count : ℕ)
    → 0 < dest
    → dest ≤ src
    → Yields (λ r. Copied m dest src count r.0 × (r.1 ≡ dest)) (memmove m dest src count)
unfolding memmove
memmove-Copied m dest src count some_dest le =
    let both : (ltb 0 src && ltb 0 dest) ≡ true = ground arith in
    let up : leb dest src ≡ true = ground arith in
    rw (both, up) (yields (copy_up-Copied count m dest src (inl le), refl))
