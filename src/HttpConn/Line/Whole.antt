-- ===== src/HttpConn/Line/Whole.antt =====
-- parse_line of http_conn.cpp where a whole line stands in the buffer.
use linux_learning.Prelude.{
  ℕ, ◌+◌, ◌-◌, ◌≤◌, ◌<◌, ◌≡◌, ◌≢◌, refl, All, arith, List, [], ◌∷◌, ◌++◌, length, update,
}
use linux_learning.CString.{Bytes, NoNul}
use linux_learning.CString.Spells.{
  Spells, Reads, Reads-Spells, Reads-same, Reads-front, Reads-behind, Reads-All,
}
use linux_learning.HttpConn.{Conn, line_ok}
use linux_learning.HttpConn.Line.{parse_line}
use linux_learning.HttpConn.Line.Chunks.{line_loop-finds}

-- A byte of a line.
abbrev pub IsPlain : ℕ → Type 0
IsPlain c = (c ≢ 0) × (c ≢ b'\r') × (c ≢ b'\n')

pub All-NoNul : (l : List ℕ) → All IsPlain l → NoNul l
All-NoNul [] h = tt
All-NoNul (c ∷ l) h = (h.0.0, All-NoNul l h.1)

-- A line with its end, and what follows.
abbrev pub with_end : List ℕ → List ℕ → List ℕ
with_end l rest = l ++ b'\r' ∷ b'\n' ∷ rest

-- The buffer after the line at `at` was taken: it is a string, and what follows and what was before are
-- the same.
pub record Taken (buf : Bytes) (at : ℕ) (l rest : List ℕ) (buf' : Bytes) : Type 0 where
  pub text : Spells buf' at l
  pub follows : Reads buf' (at + length l + 2) rest
  pub before : (i : ℕ) → i < at → buf' i ≡ buf i

pub parse_line-Taken :
    (c : Conn) (l rest : List ℕ)
    → All IsPlain l
    → Reads c.read_buf c.checked_idx (with_end l rest)
    → c.checked_idx + length l + 2 ≤ c.read_idx
    → (buf : Bytes) × (parse_line c
        ≡ (line_ok, record c { read_buf = buf; checked_idx = c.checked_idx + length l + 2 }))
      × Taken c.read_buf c.checked_idx l rest buf
unfolding parse_line
parse_line-Taken c l rest plain v fits =
    let at = c.checked_idx in
    let stop = at + length l in
    let ends = Reads-behind l (b'\r' ∷ b'\n' ∷ rest) c.read_buf at stop refl v in
    let front = Reads-front l (b'\r' ∷ b'\n' ∷ rest) c.read_buf at v in
    let buf = update (update c.read_buf stop 0) (stop + 1) 0 in
    let found =
      line_loop-finds (c.read_idx - at) c.read_buf c.read_idx at stop (omega arith) (omega arith)
        (omega arith)
        (λ i le lt.
          let plain_here = Reads-All IsPlain l c.read_buf at plain front i le lt in
          (plain_here.1, plain_here.2))
        ends.0 ends.1.0 in
    let same : (i : ℕ) → i < stop → buf i ≡ c.read_buf i = λ i lt. ground (arith, lt) in
    (
      buf,
      rw found refl,
      record {
        text =
            Reads-Spells l buf at stop refl (ground arith)
              (Reads-same l c.read_buf buf at (λ i le lt. same i lt) front);
        follows =
            Reads-same rest c.read_buf buf (stop + 2) (λ i le lt. ground (arith, le))
              (Reads-behind (b'\r' ∷ b'\n' ∷ []) rest c.read_buf stop (stop + 2) (omega arith)
                ends);
        before = λ i lt. same i (omega arith);
      },
    )
