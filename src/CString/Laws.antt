-- ===== src/CString/Laws.antt =====
-- Laws of the C library's string functions.
use linux_learning.Prelude.{
  ℕ, zero, suc, ◌+◌, ◌-◌, ◌≤◌, ◌<◌, ◌≡◌, refl, [], arith, Run, ok, ◌==◌, ◌>>=◌, Bool-cases, inl,
  inr, length, false, true, List, ◌∷◌,
}
use linux_learning.CString.{Bytes, c_str, string_in, strspn, strncasecmp}

string_in-nil :
    (room : ℕ) (buf : Bytes) (at : ℕ) → 0 < room → buf at ≡ 0 → string_in room buf at ≡ ok []
unfolding string_in
string_in-nil zero buf at h e = absurd (omega arith)
string_in-nil (suc room) buf at h e = rw e

-- At a NUL inside the buffer stands the empty string.
pub c_str-nil :
    (size : ℕ) (buf : Bytes) (at : ℕ) → at < size → buf at ≡ 0 → c_str size buf at ≡ ok []
unfolding c_str
c_str-nil size buf at h e = string_in-nil (size - at) buf at (omega arith) e

cons_inv :
    (b c : ℕ) (s : List ℕ) (r : Run (List ℕ)) → (r >>= λ t. ok (b ∷ t)) ≡ ok (c ∷ s) → r ≡ ok s
cons_inv b c s (ok t) e = ground arith
cons_inv b c s r e = absurd (ground arith)

string_in-cons :
    (room : ℕ) (buf : Bytes) (at c : ℕ) (s : List ℕ)
    → string_in (suc room) buf at ≡ ok (c ∷ s)
    → string_in room buf (at + 1) ≡ ok s
unfolding string_in
string_in-cons room buf at c s e = elim (Bool-cases (buf at == 0)) [
  | inl nul ↦ absurd (ground arith)
  | inr more ↦ cons_inv (buf at) c s _ (ground arith)
]

-- A text without its first bytes.
abbrev pub skip : ℕ → List ℕ → List ℕ
skip zero s = s
skip (suc n) [] = []
skip (suc n) (c ∷ s) = skip n s

string_in-tail :
    (n room : ℕ) (buf : Bytes) (at room' at' : ℕ) (s : List ℕ)
    → room' ≡ room - n
    → at' ≡ at + n
    → n ≤ length s
    → string_in room buf at ≡ ok s
    → string_in room' buf at' ≡ ok (skip n s)
string_in-tail zero room buf at room' at' s er ea le e =
    let same_room : room' ≡ room = omega arith in
    let same_at : at' ≡ at = omega arith in rw (same_room, same_at) e
string_in-tail (suc n) room buf at room' at' [] er ea le e = absurd (omega arith)
string_in-tail (suc n) zero buf at room' at' (c ∷ s) er ea le e = absurd (unfold string_in in cc)
string_in-tail (suc n) (suc room) buf at room' at' (c ∷ s) er ea le e =
    string_in-tail n room buf (at + 1) room' at' s (omega arith) (omega arith) (omega arith)
      (string_in-cons room buf at c s e)

-- The string that starts further on in the same line.
pub c_str-tail :
    (size : ℕ) (buf : Bytes) (at : ℕ) (s : List ℕ) (n : ℕ)
    → c_str size buf at ≡ ok s
    → n ≤ length s
    → c_str size buf (at + n) ≡ ok (skip n s)
unfolding c_str
c_str-tail size buf at s n e le =
    string_in-tail n (size - at) buf at (size - (at + n)) (at + n) s (omega arith) refl le e

pub strspn-le : (s : List ℕ) → strspn s ≤ length s
unfolding strspn
strspn-le [] = omega arith
strspn-le (c ∷ s) = ground (arith, strspn-le s)

-- A text that is longer than the pattern differs from it, once the count goes past the pattern's end.
pub strncasecmp-longer :
    (s t : List ℕ) (n : ℕ) → length t < n → length t < length s → strncasecmp s t n ≡ false
unfolding strncasecmp
strncasecmp-longer s t zero lt longer = absurd (omega arith)
strncasecmp-longer [] t (suc n) lt longer = absurd (omega arith)
strncasecmp-longer (c ∷ s) [] (suc n) lt longer = refl
strncasecmp-longer (c ∷ s) (d ∷ t) (suc n) lt longer = ground (arith, strncasecmp-longer s t n)

-- A text that starts with a pattern is no shorter.
pub strncasecmp-prefix :
    (s t : List ℕ) (n : ℕ) → n ≤ length t → strncasecmp s t n ≡ true → n ≤ length s
unfolding strncasecmp
strncasecmp-prefix s t zero le e = omega arith
strncasecmp-prefix s [] (suc n) le e = absurd (omega arith)
strncasecmp-prefix [] (d ∷ t) (suc n) le e = absurd (ground (arith, e))
strncasecmp-prefix (c ∷ s) (d ∷ t) (suc n) le e =
    omega (arith, strncasecmp-prefix s t n (omega (arith, le)) (ground (arith, e)))
