-- ===== src/HttpConn/Line/Stuck.antt =====
-- parse_line of http_conn.cpp at a bad line.
use linux_learning.Prelude.{
  ℕ, zero, suc, ◌+◌, ◌-◌, ◌≤◌, ◌<◌, ◌≡◌, ◌⊎◌, ap, true, false, ◌&&◌, arith, ltb, ◌==◌, Bool-cases,
  inl, inr,
}
use linux_learning.CString.{Bytes}
use linux_learning.HttpConn.{Conn, LineStatus, line_bad}
use linux_learning.HttpConn.Line.{line_loop, parse_line}
use linux_learning.HttpConn.Line.Chunks.{skip_byte}

-- The bytes at `x` end a line badly.
record IsBadEnd (buf : Bytes) (end x : ℕ) : Type 0 where
  inside : x < end
  bad :
      ((buf x ≡ 13) × (x + 1 < end) × ((buf (x + 1) == 10) ≡ false))
      ⊎ ((buf x ≡ 10) × ((ltb 1 x && buf (x - 1) == 13) ≡ false))

stop_at :
    (rounds : ℕ) (buf : Bytes) (end at : ℕ)
    → at + suc rounds ≡ end
    → (buf at == b'\r') ≡ true ⊎ (buf at == b'\n') ≡ true
    → (line_loop (suc rounds) buf end at).0 ≡ line_bad
    → IsBadEnd buf end at × ((line_loop (suc rounds) buf end at).2 ≡ at)
unfolding line_loop
stop_at rounds buf end at e (inl cr) b = (
  record { inside = omega arith; bad = inl (ground arith, ground arith, ground arith) },
  ground arith,
)
stop_at rounds buf end at e (inr lf) b =
    (record { inside = omega arith; bad = inr (ground arith, ground arith) }, ground arith)

finds_bad :
    (rounds : ℕ) (buf : Bytes) (end at : ℕ)
    → at + rounds ≡ end
    → (line_loop rounds buf end at).0 ≡ line_bad
    → IsBadEnd buf end (line_loop rounds buf end at).2
finds_bad zero buf end at e b = absurd (unfold line_loop in cc)
finds_bad (suc rounds) buf end at e b = elim (Bool-cases (buf at == b'\r')) [
  | inl cr ↦ let (bad, stop) = stop_at rounds buf end at e (inl cr) b in rw stop bad
  | inr no_cr ↦ elim (Bool-cases (buf at == b'\n')) [
    | inl lf ↦ let (bad, stop) = stop_at rounds buf end at e (inr lf) b in rw stop bad
    | inr no_lf ↦
        let skip = skip_byte rounds buf end at no_cr no_lf in
        rw skip (finds_bad rounds buf end (at + 1) (omega arith) (rw skip at b))
  ]
]

stays_bad :
    (rounds : ℕ) (buf buf' : Bytes) (end end' x : ℕ)
    → IsBadEnd buf end x
    → end ≤ end'
    → x + rounds ≡ end'
    → ((i : ℕ) → i < end → buf' i ≡ buf i)
    → line_loop rounds buf' end' x ≡ (line_bad, buf', x)
unfolding line_loop
stays_bad zero buf buf' end end' x v le e same = absurd (omega (arith, v.inside))
stays_bad (suc rounds) buf buf' end end' x v le e same =
    ground (arith, v.inside, v.bad, same x, same (x + 1), same (x - 1))

-- Once parse_line has reported a bad line, it reports it again and changes nothing, whatever data is
-- appended to what was read.
pub parse_line-stuck :
    (c : Conn) (buf : Bytes) (n : ℕ)
    → c.checked_idx ≤ c.read_idx
    → c.read_idx ≤ n
    → ((i : ℕ) → i < c.read_idx → buf i ≡ c.read_buf i)
    → (parse_line c).0 ≡ line_bad
    → parse_line (record (parse_line c).1 { read_buf = buf; read_idx = n })
      ≡ (line_bad, record (parse_line c).1 { read_buf = buf; read_idx = n })
unfolding parse_line
parse_line-stuck c buf n le more same b =
    let rounds = c.read_idx - c.checked_idx in
    let v = finds_bad rounds c.read_buf c.read_idx c.checked_idx (omega arith) b in
    let x = (line_loop rounds c.read_buf c.read_idx c.checked_idx).2 in
    ap
      (λ (r : LineStatus × Bytes × ℕ).
        (r.0, record c { read_buf = r.1; read_idx = n; checked_idx = r.2 }))
      (stays_bad (n - x) c.read_buf buf c.read_idx n x v more (omega (arith, v.inside)) same)
