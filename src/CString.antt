-- ===== src/CString.antt =====
-- The C library's string functions, as HTTP_server_learning/http_parse.cpp and http_conn.cpp use them.
-- A string is read from a buffer of bytes up to its NUL; one with no NUL inside the buffer is a fault.
-- `mem*` and `str*` are the C standard's; letters fold as in the C locale.
pub mod Laws
pub mod Spells
use linux_learning.Prelude.{
  ℕ, zero, suc, All, ◌≢◌, ◌+◌, ◌-◌, ◌*◌, Bool, true, false, ◌&&◌, ◌||◌, Option, none, some, List,
  [], ◌∷◌, ltb, leb, ◌==◌, if◌then◌else◌, update, Run, ok, fault, ◌>>=◌, ℤ, pos, negsuc,
}
use Prim.Native.Char.{code}
use Prim.Native.String.{String}
use mathlib.Core.Option

abbrev pub Bytes : Type 0
Bytes = ℕ → ℕ

-- No byte ends the string.
abbrev pub NoNul : List ℕ → Type 0
NoNul bytes = All (λ c. c ≢ 0) bytes

-- The bytes of a literal.
abbrev pub codes : String → List ℕ
codes String.[] = []
codes (String.◌∷◌ c s) = code c ∷ codes s

-- The string at the start of these bytes, with a NUL behind them.
abbrev pub c_string : List ℕ → List ℕ
c_string [] = []
c_string (c ∷ text) = let rest = c_string text in if c == 0 then [] else c ∷ rest

-- The string at `at`, with `room` bytes left in the buffer.
unfoldable pub string_in : ℕ → Bytes → ℕ → Run (List ℕ)
string_in zero buf at = fault
string_in (suc room) buf at =
    let rest : Run (List ℕ) = string_in room buf (at + 1) >>= λ s. ok (buf at ∷ s) in
    if buf at == 0 then ok [] else rest

-- The string at `at` of a buffer of `size` bytes.
unfoldable pub c_str : ℕ → Bytes → ℕ → Run (List ℕ)
c_str size buf at = string_in (size - at) buf at

-- A byte is one of a set of two, which is all that the code asks for: space and tab.
unfoldable pub is_blank : ℕ → Bool
is_blank c = c == b' ' || c == 9

-- `strpbrk(s, " \t")`, as the offset of what it finds.
unfoldable pub strpbrk : List ℕ → Option ℕ
strpbrk [] = none
strpbrk (c ∷ s) = if is_blank c then some 0 else Option.map (λ i. i + 1) (strpbrk s)

-- `strspn(s, " \t")`
unfoldable pub strspn : List ℕ → ℕ
strspn [] = 0
strspn (c ∷ s) = if is_blank c then strspn s + 1 else 0

-- `strchr(s, c)`, as an offset, for a character other than NUL.
unfoldable pub strchr : List ℕ → ℕ → Option ℕ
strchr [] c = none
strchr (d ∷ s) c = if d == c then some 0 else Option.map (λ i. i + 1) (strchr s c)

unfoldable pub to_lower : ℕ → ℕ
to_lower c = if leb b'A' c && leb c b'Z' then c + 32 else c

-- `strcasecmp(s, t) == 0`
unfoldable pub strcasecmp : List ℕ → List ℕ → Bool
strcasecmp [] [] = true
strcasecmp [] (d ∷ t) = false
strcasecmp (c ∷ s) [] = false
strcasecmp (c ∷ s) (d ∷ t) = (to_lower c == to_lower d) && strcasecmp s t

-- `strncasecmp(s, t, n) == 0`: the first `n` characters, or fewer where both strings end.
unfoldable pub strncasecmp : List ℕ → List ℕ → ℕ → Bool
strncasecmp s t zero = true
strncasecmp [] [] (suc n) = true
strncasecmp [] (d ∷ t) (suc n) = false
strncasecmp (c ∷ s) [] (suc n) = false
strncasecmp (c ∷ s) (d ∷ t) (suc n) = (to_lower c == to_lower d) && strncasecmp s t n

unfoldable pub digits_from : ℕ → List ℕ → ℕ
digits_from acc [] = acc
digits_from acc (c ∷ s) =
    let rest = digits_from (acc * 10 + (c - 48)) s in if leb 48 c && leb c 57 then rest else acc

abbrev pub negate : ℕ → ℤ
negate zero = pos 0
negate (suc n) = negsuc n

-- `isspace` in the C locale.
unfoldable pub is_space : ℕ → Bool
is_space c = c == 32 || (leb 9 c && leb c 13)

-- `atol(s)`, for a number that fits: white space, a sign, digits.
unfoldable pub atol : List ℕ → ℤ
atol [] = pos 0
atol (c ∷ s) =
    let skipped = atol s in
    if is_space c
    then skipped
    else if c == b'-'
    then negate (digits_from 0 s)
    else if c == b'+'
    then pos (digits_from 0 s)
    else pos (digits_from 0 (c ∷ s))
