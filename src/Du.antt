-- ===== src/Du.antt =====
-- du_scratch.cpp: the sizes of a directory and of those in it. readdir and stat are the kernel's: what
-- they report is a listing, which is finite. A listing has no entry for which stat fails, where the code
-- would go by the status of the entry before; so that main is modelled for the current directory and for
-- trees without dangling links. closedir of the null pointer of a directory that cannot be opened is taken
-- to do nothing. The name of what is looked at stands
-- in one buffer that all calls of Dfs share.
pub mod Path
pub mod Sizes
mod Tests
use linux_learning.Prelude.{
  ℕ, zero, suc, ◌+◌, ◌*◌, ◌/◌, ◌%◌, ◌^◌, Bool, true, false, ◌&&◌, ◌||◌, List, [], ◌∷◌, ◌++◌, ltb,
  ◌==◌, if◌then◌else◌, length, update, Run, ok, fault, ◌>>=◌,
}
use linux_learning.CString.{Bytes, c_str}

-- What readdir reports: the end, or a name and more. A directory that can be opened has a listing of its
-- own, and a regular file has its blocks.
pub data Listing : Type 0 where
  end : Listing
  directory : List ℕ → Listing → Listing → Listing
  sealed : List ℕ → Listing → Listing
  regular : List ℕ → ℕ → Listing → Listing
  other : List ℕ → Listing → Listing

-- The size of `s`.
abbrev pub buffer_size : ℕ
buffer_size = 1024

-- `s[at] = c;`
pub put : Bytes → ℕ → ℕ → Run Bytes
put s at c = if ltb at buffer_size then ok (update s at c) else fault

pub put_all : Bytes → ℕ → List ℕ → Run Bytes
put_all s at [] = ok s
put_all s at (c ∷ bytes) = do s' ← put s at c; put_all s' (at + 1) bytes

-- `strcat(s, name)`
pub strcat : Bytes → List ℕ → Run Bytes
strcat s name = do text ← c_str buffer_size s 0; put_all s (length text) (name ++ 0 ∷ [])

-- `strcmp(a, b) == 0`
pub same : List ℕ → List ℕ → Bool
same [] [] = true
same [] (_ ∷ _) = false
same (_ ∷ _) [] = false
same (c ∷ a) (d ∷ b) = let rest = same a b in (c == d) && rest

-- `.` and `..`
pub is_dots : List ℕ → Bool
is_dots name = same name (b'.' ∷ b'.' ∷ []) || same name (b'.' ∷ [])

-- A line of the output.
abbrev pub Line : Type 0
Line = ℕ × List ℕ

-- The size so far, the buffer and the output.
pub record Du : Type 0 where
  pub sz : ℕ
  pub s : Bytes
  pub out : List Line

-- The end of a round of the loop of Dfs.
pub cut : ℕ → Du → Run Du
cut p d = do s' ← put d.s p 0; ok (record d { s = s' })

-- `s[p + len] = '/'; s[p + len + 1] = '\0';`
pub into : ℕ → List ℕ → Bytes → Run Bytes
into p name s = do s' ← put s (p + length name) b'/'; put s' (p + length name + 1) 0

-- `Dfs` from any round of its loop on. What it returns is an unsigned int.
pub dfs : Listing → ℕ → Du → Run Du
dfs end p d = do
  path ← c_str buffer_size d.s 0
  ok (record { sz = d.sz % 2 ^ 32; s = d.s; out = d.out ++ (d.sz / 1024, path) ∷ [] })
dfs (directory name children rest) p d = do
  s1 ← strcat d.s name
  let below : Run Du = do
    s2 ← into p name s1
    child ← dfs children (p + length name + 1) (record { sz = 4096; s = s2; out = d.out })
    ok (record child { sz = d.sz + child.sz })
  d' ← if is_dots name then ok (record d { s = s1 }) else below
  d'' ← cut p d'
  dfs rest p d''
dfs (sealed name rest) p d = do
  s1 ← strcat d.s name
  d' ← cut p (record d { s = s1 })
  dfs rest p d'
dfs (regular name blocks rest) p d = do
  s1 ← strcat d.s name
  let more = if is_dots name then 0 else blocks * 512
  d' ← cut p (record d { sz = d.sz + more; s = s1 })
  dfs rest p d'
dfs (other name rest) p d = do s1 ← strcat d.s name; d' ← cut p (record d { s = s1 }); dfs rest p d'

-- main for a directory that can be opened; `s` holds zeros before.
pub du : Listing → Run Du
du listing = do
  s1 ← put_all (λ _. 0) 0 (b'.' ∷ b'/' ∷ [])
  dfs listing 2 (record { sz = 4096; s = s1; out = [] })
