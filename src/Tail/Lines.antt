-- ===== src/Tail/Lines.antt =====
-- Which lines tail_scratch.cpp prints.
use mathlib.Core.Path.{subst}
use linux_learning.Prelude.{
  ℕ, zero, suc, ◌+◌, ◌≤◌, ◌<◌, ◌≡◌, ◌≢◌, refl, sym, ap, ◌∙◌, ◌⊎◌, inl, inr, true, false, List, [],
  ◌∷◌, ◌++◌, arith, ◌==◌, if◌then◌else◌, one_if, length, get_elem?, All, Bool-cases, pos,
}
use linux_learning.Tail.{drop, is_newline, print, go_back, tail}

abbrev pub newlines : List ℕ → ℕ
newlines [] = 0
newlines (c ∷ file) = one_if (c == 10) + newlines file

newlines-drop :
    (file : List ℕ) (p : ℕ)
    → newlines (drop p file) ≡ one_if (is_newline (get_elem? file p)) + newlines (drop (suc p) file)
newlines-drop [] zero = refl
newlines-drop [] (suc p) = refl
newlines-drop (c ∷ file) zero = refl
newlines-drop (c ∷ file) (suc p) = newlines-drop file p

newlines-drop_le : (file : List ℕ) (p : ℕ) → newlines (drop p file) ≤ newlines file
newlines-drop_le file zero = omega arith
newlines-drop_le [] (suc p) = omega arith
newlines-drop_le (c ∷ file) (suc p) = omega (arith, newlines-drop_le file p)

drop-length : (file : List ℕ) → drop (length file) file ≡ []
drop-length [] = refl
drop-length (c ∷ file) = drop-length file

-- Where the printing starts: at the start of a file that has few lines, or that starts with the very
-- newline that was looked for, or else behind that newline.
data Found (file : List ℕ) (n : ℕ) : ℕ → Type 0 where
  few : newlines file ≤ n → Found file n 0
  first : is_newline (get_elem? file 0) ≡ true → newlines file ≡ suc n → Found file n 0
  behind :
      (p : ℕ)
      → 0 < p
      → is_newline (get_elem? file p) ≡ true
      → newlines (drop (suc p) file) ≡ n
      → Found file n (suc p)

go_back-Found :
    (file : List ℕ) (n cnt p : ℕ)
    → newlines (drop p file) ≡ cnt
    → cnt ≤ n
    → Found file n (go_back file n cnt p)
unfolding go_back
go_back-Found file n cnt zero e le = few (omega (arith, e))
go_back-Found file n cnt (suc p) e le =
    let step = newlines-drop file p in
    let passed = go_back-Found file n (cnt + 1) p in
    let other = go_back-Found file n cnt p in
    elim (Bool-cases (is_newline (get_elem? file p))) [
      | inl newline ↦
          let one : newlines (drop p file) ≡ cnt + 1 = omega (arith, step, e, ap one_if newline) in
          rw newline (elim (Bool-cases (cnt == n)) [
            | inl last ↦ rw last (stop p newline (e ∙ ground arith))
            | inr more ↦ rw more (passed one (ground arith))
          ])
      | inr letter ↦ rw letter (other (omega (arith, step, e, ap one_if letter)) le)
    ]
  where
    stop :
        (q : ℕ)
        → is_newline (get_elem? file q) ≡ true
        → newlines (drop (suc q) file) ≡ n
        → Found file n (if q == 0 then 0 else q + 1)
    stop zero newline all =
        first newline (omega (arith, newlines-drop file 0, all, ap one_if newline))
    stop (suc q) newline all =
        let next : suc (suc q) ≡ suc q + 1 = omega arith in
        let inside : (suc q == 0) ≡ false = ground arith in
        rw inside (subst (Found file n) next (behind (suc q) (omega arith) newline all))

-- The file without the byte 255 is printed as it is.
print-whole : (file : List ℕ) → All (λ c. c ≢ 255) file → print file ≡ file
unfolding print
print-whole [] v = refl
print-whole (c ∷ file) v =
    let no_end : (c == 255) ≡ false = ground (arith, v.0) in rw (no_end, print-whole file v.1) refl

drop-All : (n : ℕ) (file : List ℕ) → All (λ c. c ≢ 255) file → All (λ c. c ≢ 255) (drop n file)
drop-All zero file v = v
drop-All (suc n) [] v = tt
drop-All (suc n) (c ∷ file) v = drop-All n file v.1

-- The part of a file up to a newline, and the rest.
split_behind :
    (file : List ℕ) (p : ℕ)
    → is_newline (get_elem? file p) ≡ true
    → (front : List ℕ) × (file ≡ (front ++ 10 ∷ []) ++ drop (suc p) file)
split_behind [] p e = absurd (cc e)
split_behind (c ∷ file) zero e = let same : c ≡ 10 = ground arith in ([], ap (λ x. x ∷ file) same)
split_behind (c ∷ file) (suc p) e =
    let (front, path) = split_behind file p e in (c ∷ front, ap (λ x. c ∷ x) path)

-- One for a text whose last line does not end with a newline.
abbrev pub unended : List ℕ → ℕ
unended [] = 0
unended (c ∷ []) = if c == 10 then 0 else 1
unended (c ∷ d ∷ file) = unended (d ∷ file)

-- The lines of a text, the last of which may do without a newline.
abbrev pub lines_in : List ℕ → ℕ
lines_in file = newlines file + unended file

-- `out` is all of a file of at most `n` lines, or else starts behind a newline and has `n` lines.
pub LastLines : ℕ → List ℕ → List ℕ → Type 0
LastLines n file out =
    ((out ≡ file) × (lines_in file ≤ n))
    ⊎ ((front : List ℕ) × (file ≡ (front ++ 10 ∷ []) ++ out) × (lines_in out ≡ n))

unended-append : (front out : List ℕ) → 0 < newlines out → unended (front ++ out) ≡ unended out
unended-append [] out some = refl
unended-append (c ∷ []) [] some = absurd (omega (arith, some))
unended-append (c ∷ []) (d ∷ out) some = refl
unended-append (c ∷ d ∷ front) out some = unended-append (d ∷ front) out some

found_lines :
    (file : List ℕ) (n k : ℕ)
    → (newlines file ≤ suc n) ⊎ (is_newline (get_elem? file 0) ≡ false)
    → Found file (suc n) k
    → LastLines (suc n + unended file) file (drop k file)
unfolding LastLines
found_lines file n k h (few le) = inl (refl, omega (arith, le))
found_lines file n k (inl le) (first newline all) = absurd (omega (arith, all))
found_lines file n k (inr letter) (first newline all) = absurd (cc (newline, letter))
found_lines file n k h (behind p lt newline all) =
    let (front, path) = split_behind file p newline in
    let out = drop (suc p) file in
    let same = ap unended path ∙ unended-append (front ++ 10 ∷ []) out (omega (arith, all)) in
    inr (front, path, omega (arith, all, same))

-- With a number of lines that is positive, tail prints that many of the last lines of a file, or all if
-- there are no more, when the file ends with a newline; when it does not, it prints one line more. The file
-- has no byte 255, and it does not start with a newline, or has no more newlines than that.
pub tail-LastLines :
    (n : ℕ) (file : List ℕ)
    → All (λ c. c ≢ 255) file
    → (newlines file ≤ suc n) ⊎ (is_newline (get_elem? file 0) ≡ false)
    → LastLines (suc n + unended file) file (tail (pos (suc n)) file)
unfolding tail
tail-LastLines n file v h =
    let k = go_back file (suc n) 0 (length file) in
    let found =
      go_back-Found file (suc n) 0 (length file) (ap newlines (drop-length file)) (omega arith) in
    subst (LastLines (suc n + unended file) file)
      (sym (print-whole (drop k file) (drop-All k file v))) (found_lines file n k h found)

-- A file without the byte 255 that starts with a newline and has one newline more than there are to be
-- lines is printed from its start, with that newline.
pub tail-one_more :
    (n : ℕ) (rest : List ℕ)
    → All (λ c. c ≢ 255) rest
    → newlines rest ≡ suc n
    → tail (pos (suc n)) (10 ∷ rest) ≡ 10 ∷ rest
unfolding tail
tail-one_more n rest v e =
    let file = 10 ∷ rest in
    let k = go_back file (suc n) 0 (length file) in
    let found =
      go_back-Found file (suc n) 0 (length file) (ap newlines (drop-length file)) (omega arith) in
    ap (λ i. print (drop i file)) (at_start k found)
    ∙ print-whole file ((λ same. absurd (omega (arith, same))), v)
  where
    at_start : (k : ℕ) → Found (10 ∷ rest) (suc n) k → k ≡ 0
    at_start k (few le) = refl
    at_start k (first newline all) = refl
    at_start k (behind zero lt newline all) = absurd (omega arith)
    at_start k (behind (suc q) lt newline all) = absurd (
        omega (
          arith,
          all,
          newlines-drop (10 ∷ rest) (suc q),
          ap one_if newline,
          newlines-drop_le rest q,
          e,
        ))
