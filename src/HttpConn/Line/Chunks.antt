-- ===== src/HttpConn/Line/Chunks.antt =====
-- parse_line of http_conn.cpp on data that arrives in pieces.
use linux_learning.Prelude.{
  ℕ, zero, suc, ◌+◌, ◌-◌, ◌≤◌, ◌<◌, ◌≡◌, ◌≢◌, refl, sym, ◌∙◌, ap, ◌⊎◌, ℕ_discrete, true, false,
  arith, ◌==◌, Bool-cases, inl, inr, update,
}
use linux_learning.CString.{Bytes}
use linux_learning.HttpConn.{Conn, LineStatus, line_ok, line_open}
use linux_learning.HttpConn.Line.{line_loop, parse_line}

-- The position stays inside the data, and moves on with each complete line.
pub record Progress (end at : ℕ) (r : LineStatus × Bytes × ℕ) : Type 0 where
  pub forward : at ≤ r.2
  pub inside : r.2 ≤ end
  pub moved : r.0 ≡ line_ok → at < r.2

pub line_loop-Progress :
    (rounds : ℕ) (buf : Bytes) (end at : ℕ)
    → at + rounds ≡ end
    → Progress end at (line_loop rounds buf end at)
unfolding line_loop
line_loop-Progress zero buf end at e = record {
  forward = omega arith;
  inside = omega arith;
  moved = λ h. cc;
}
line_loop-Progress (suc rounds) buf end at e =
    let next = line_loop-Progress rounds buf end (at + 1) (omega arith) in
    record {
      forward = ground (arith, next.forward);
      inside = ground (arith, next.inside);
      moved = ground (arith, next.moved);
    }

-- When "\r\n" stands inside the data, with no other end-of-line byte between the start and it, the loop
-- finds the line, writes two NULs over its end, and stops behind it.
pub line_loop-finds :
    (rounds : ℕ) (buf : Bytes) (end at stop : ℕ)
    → at + rounds ≡ end
    → at ≤ stop
    → stop + 1 < end
    → ((i : ℕ) → at ≤ i → i < stop → (buf i ≢ b'\r') × (buf i ≢ b'\n'))
    → buf stop ≡ b'\r'
    → buf (stop + 1) ≡ b'\n'
    → line_loop rounds buf end at ≡ (line_ok, update (update buf stop 0) (stop + 1) 0, stop + 2)
unfolding line_loop
line_loop-finds zero buf end at stop e le lt plain cr lf = absurd (omega arith)
line_loop-finds (suc rounds) buf end at stop e le lt plain cr lf = elim (ℕ_discrete at stop) [
  | yes here ↦ rw here (ground arith)
  | no ne ↦
      let here = plain at (omega arith) (omega arith) in
      let rest =
        line_loop-finds rounds buf end (at + 1) stop (omega arith) (omega arith) lt
          (λ i p q. plain i (omega arith) q) cr lf in
      ground (arith, here, rest)
]

-- An ordinary byte is passed over.
pub skip_byte :
    (rounds : ℕ) (buf : Bytes) (end at : ℕ)
    → (buf at == b'\r') ≡ false
    → (buf at == b'\n') ≡ false
    → line_loop (suc rounds) buf end at ≡ line_loop rounds buf end (at + 1)
unfolding line_loop
skip_byte rounds buf end at no_cr no_lf = ground arith

-- At an end of line the loop stops for want of data only at a carriage return, and stays there.
stay_at_return :
    (rounds : ℕ) (buf : Bytes) (end at : ℕ)
    → (buf at == b'\r') ≡ true ⊎ (buf at == b'\n') ≡ true
    → (line_loop (suc rounds) buf end at).0 ≡ line_open
    → (line_loop (suc rounds) buf end at).2 ≡ at
unfolding line_loop
stay_at_return rounds buf end at (inl cr) open_end = ground arith
stay_at_return rounds buf end at (inr lf) open_end = ground arith

resume_here :
    (rounds : ℕ) (buf : Bytes) (end at x : ℕ)
    → x ≡ at
    → at + rounds ≡ end
    → line_loop rounds buf end at ≡ line_loop (end - x) buf end x
resume_here rounds buf end at x e left =
    let count : rounds ≡ end - x = omega arith in
    ap (λ r. line_loop r buf end at) count ∙ ap (λ y. line_loop (end - x) buf end y) (sym e)

-- Where parse_line stopped for want of data, it goes on as if it had started over.
pub line_loop-resumes :
    (rounds rounds' : ℕ) (buf buf' : Bytes) (end end' at : ℕ)
    → at + rounds ≡ end
    → at + rounds' ≡ end'
    → end ≤ end'
    → ((i : ℕ) → i < end → buf' i ≡ buf i)
    → (line_loop rounds buf end at).0 ≡ line_open
    → line_loop rounds' buf' end' at
      ≡ line_loop (end' - (line_loop rounds buf end at).2) buf' end' (line_loop rounds buf end at).2
line_loop-resumes zero rounds' buf buf' end end' at e e' le same open_end =
    resume_here rounds' buf' end' at _ (unfold line_loop in refl) e'
line_loop-resumes (suc rounds) zero buf buf' end end' at e e' le same open_end =
    absurd (omega arith)
line_loop-resumes (suc rounds) (suc rounds') buf buf' end end' at e e' le same open_end =
    elim (Bool-cases (buf at == b'\r')) [
      | inl cr ↦
          resume_here (suc rounds') buf' end' at _
            (stay_at_return rounds buf end at (inl cr) open_end) e'
      | inr no_cr ↦ elim (Bool-cases (buf at == b'\n')) [
        | inl lf ↦
            resume_here (suc rounds') buf' end' at _
              (stay_at_return rounds buf end at (inr lf) open_end) e'
        | inr no_lf ↦
            let skip = skip_byte rounds buf end at no_cr no_lf in
            let here = same at (omega arith) in
            let skip' = skip_byte rounds' buf' end' at (rw here no_cr) (rw here no_lf) in
            rw (skip, skip')
              (line_loop-resumes rounds rounds' buf buf' end end' (at + 1) (omega arith)
                (omega arith) le same (rw skip at open_end))
      ]
    ]

-- When parse_line runs out of data and more is appended to what was read, a call from the place where it
-- stopped gives the same result as a call on all the data from the place where it first started.
pub parse_line-resumes :
    (c : Conn) (buf : Bytes) (n : ℕ)
    → c.checked_idx ≤ c.read_idx
    → c.read_idx ≤ n
    → ((i : ℕ) → i < c.read_idx → buf i ≡ c.read_buf i)
    → (parse_line c).0 ≡ line_open
    → parse_line (record (parse_line c).1 { read_buf = buf; read_idx = n })
      ≡ parse_line (record c { read_buf = buf; read_idx = n })
unfolding parse_line
parse_line-resumes c buf n le more same open_end =
    ap
      (λ (r : LineStatus × Bytes × ℕ).
        (r.0, record c { read_buf = r.1; read_idx = n; checked_idx = r.2 }))
      (sym (
        line_loop-resumes (c.read_idx - c.checked_idx) (n - c.checked_idx) c.read_buf buf c.read_idx
          n c.checked_idx (omega arith) (omega arith) more same open_end))
