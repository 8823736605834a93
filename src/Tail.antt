-- ===== src/Tail.antt =====
-- tail_scratch.cpp: the last lines of a file. A file is the list of its bytes; getopt and atoi give the
-- number of lines, and a stream is a position in the file.
pub mod Lines
mod Tests
use linux_learning.Prelude.{
  ℕ, zero, suc, ◌+◌, Bool, true, false, Option, none, some, List, [], ◌∷◌, ◌==◌, if◌then◌else◌,
  length, get_elem?, Run, ok, ◌>>=◌, ℤ, pos, negsuc,
}

abbrev pub drop : ℕ → List ℕ → List ℕ
drop zero file = file
drop (suc n) [] = []
drop (suc n) (c ∷ file) = drop n file

abbrev pub is_newline : Option ℕ → Bool
is_newline none = false
is_newline (some c) = c == 10

-- `while((c = fgetc(fin)) != EOF) putchar(c);`, where `c` is a char: the byte 255 becomes -1, as EOF is.
pub print : List ℕ → List ℕ
print [] = []
print (c ∷ rest) = let more = print rest in if c == 255 then [] else c ∷ more

-- The loop that goes back from `p`, and the position at which the printing then starts.
pub go_back : List ℕ → ℕ → ℕ → ℕ → ℕ
go_back file n cnt zero = 0
go_back file n cnt (suc p) =
    let passed = go_back file n (cnt + 1) p in
    let other = go_back file n cnt p in
    let stopped = if p == 0 then 0 else p + 1 in
    if is_newline (get_elem? file p) then (if cnt == n then stopped else passed) else other

-- main for a file that can be opened; `n` is -1 when there is no option.
pub tail : ℤ → List ℕ → List ℕ
tail (negsuc n) file = print file
tail (pos zero) file = []
tail (pos (suc n)) file = print (drop (go_back file (suc n) 0 (length file)) file)
