-- ===== src/HttpConn/Request/Fuel.antt =====
-- How many rounds the loop of process_read in http_conn.cpp takes.
use linux_learning.Prelude.{
  ℕ, zero, suc, ◌+◌, ◌-◌, ◌*◌, ◌≤◌, ◌<◌, ◌≡◌, refl, ap, ◌∙◌, true, false, arith, if◌then◌else◌,
  Bool-cases, inl, inr, Run, Halts, returns, faults, Halts-bind, Halts-option,
}
use linux_learning.HttpConn.{
  Conn, CheckState, HttpCode, LineStatus, requestline, header, content, line_ok, line_bad,
  line_open, read_buffer_size, no_request, get_request, bad_request, no_resource, forbidden_request,
  file_request, internal_error, closed_connection,
}
use linux_learning.HttpConn.Line.{parse_line}
use linux_learning.HttpConn.Line.Chunks.{line_loop-Progress}
use linux_learning.HttpConn.Request.{
  FileSystem, do_request, handle_line, take_line, next_line, in_content, process_loop, process_read,
}
use linux_learning.HttpConn.Request.Halting.{
  SameEnds, text_at-Halts, parse_request_line-Halts, parse_headers-Halts, parse_content-Halts,
}

-- The socket and the end of the data are the same, and the data is checked no further than its end.
abbrev pub Kept : Conn → HttpCode × Conn → Type 0
Kept c r = (r.1.sockfd ≡ c.sockfd) × (r.1.read_idx ≡ c.read_idx) × (r.1.checked_idx ≤ r.1.read_idx)

module _ (fs : FileSystem) (c0 : Conn) where
  do_request-Halts : (c : Conn) → Kept c0 (no_request, c) → Halts (Kept c0) (do_request fs c)
  unfolding do_request
  do_request-Halts c kept = Halts-option c.url faults λ at.
      Halts-bind (text_at-Halts c at)
        λ u _. returns (ground (arith, kept.0), ground (arith, kept.1), ground (arith, kept.2))

  -- The next round comes to an end whatever line it starts from, if the positions are these.
  abbrev Again : (LineStatus → Conn → Run (HttpCode × Conn)) → LineStatus → Conn → Type 0
  Again again status c = (d : Conn) → SameEnds c (no_request, d) → Halts (Kept c0) (again status d)

  still : (c : Conn) (r : HttpCode × Conn) → Kept c0 (no_request, c) → SameEnds c r → Kept c0 r
  still c r kept same = (same.2 ∙ kept.0, same.0 ∙ kept.1, omega (arith, same.0, same.1, kept.2))

  on_code :
      {x y z : Run (HttpCode × Conn)} (code : HttpCode)
      → Halts (Kept c0) x
      → Halts (Kept c0) y
      → Halts (Kept c0) z
      → Halts (Kept c0) (elim code [ bad_request ↦ x | get_request ↦ y | _ ↦ z ])
  on_code bad_request p q r = p
  on_code get_request p q r = q
  on_code no_request p q r = r
  on_code no_resource p q r = r
  on_code forbidden_request p q r = r
  on_code file_request p q r = r
  on_code internal_error p q r = r
  on_code closed_connection p q r = r

  handle_line-Halts :
      (again : LineStatus → Conn → Run (HttpCode × Conn)) (state : CheckState) (c : Conn) (text : ℕ)
      → Kept c0 (no_request, c)
      → (in_content state line_ok ≡ false → Again again line_ok c)
      → (in_content state line_ok ≡ true → Again again line_open c)
      → Halts (Kept c0) (handle_line fs again state c text)
  unfolding handle_line
  handle_line-Halts again requestline c text kept line body =
      Halts-bind (parse_request_line-Halts c text) λ r same.
        let next = line refl r.1 same in on_code r.0 (returns (still c r kept same)) next next
  handle_line-Halts again header c text kept line body =
      Halts-bind (parse_headers-Halts c text) λ r same.
        on_code r.0 (returns (still c r kept same)) (do_request-Halts r.1 (still c r kept same))
          (line refl r.1 same)
  handle_line-Halts again content c text kept line body =
      Halts-bind (parse_content-Halts c text) λ r same.
        let next = body refl r.1 same in
        on_code r.0 next (do_request-Halts r.1 (still c r kept same)) next

  -- Two rounds for each unread byte, and one for the body.
  abbrev measure : LineStatus → Conn → ℕ
  measure status c =
      2 * (c.read_idx - c.checked_idx) + (if in_content c.check_state status then 1 else 0)

  measure_open : (c : Conn) → measure line_open c ≡ 2 * (c.read_idx - c.checked_idx)
  measure_open c =
      ap (λ b. 2 * (c.read_idx - c.checked_idx) + (if b then 1 else 0)) (never_open c.check_state)
      ∙ omega arith
    where
      never_open : (s : CheckState) → in_content s line_open ≡ false
      never_open requestline = refl
      never_open header = refl
      never_open content = refl

  measure_ok : (c : Conn) → measure line_ok c ≤ 2 * (c.read_idx - c.checked_idx) + 1
  measure_ok c = ground arith

  content_ok :
      (s : CheckState) (status : LineStatus)
      → in_content s status ≡ true
      → in_content s line_ok ≡ true
  content_ok requestline status e = absurd cc
  content_ok header status e = absurd cc
  content_ok content status e = refl

  next_line-Halts :
      (again : LineStatus → Conn → Run (HttpCode × Conn)) (r : LineStatus × Conn)
      → Kept c0 (no_request, r.1)
      → (r.0 ≡ line_ok → Again again line_ok r.1)
      → (r.0 ≡ line_ok → Again again line_open r.1)
      → Halts (Kept c0) (next_line fs again r)
  unfolding next_line take_line
  next_line-Halts again (line_ok, c) kept line body =
      handle_line-Halts again c.check_state (record c { start_line = c.checked_idx }) c.start_line
        kept (λ _. line refl) (λ _. body refl)
  next_line-Halts again (line_bad, c) kept line body = returns kept
  next_line-Halts again (line_open, c) kept line body = returns kept

  -- parse_line moves on, inside the data.
  parse_line-Progress :
      (c : Conn)
      → c.checked_idx ≤ c.read_idx
      → ((parse_line c).1.read_idx ≡ c.read_idx)
        × ((parse_line c).1.checked_idx ≤ c.read_idx)
        × ((parse_line c).0 ≡ line_ok → c.checked_idx < (parse_line c).1.checked_idx)
        × ((parse_line c).1.sockfd ≡ c.sockfd)
  unfolding parse_line
  parse_line-Progress c le =
      let v =
        line_loop-Progress (c.read_idx - c.checked_idx) c.read_buf c.read_idx c.checked_idx
          (omega arith) in
      (refl, v.inside, v.moved, refl)

  process_loop-Halts :
      (fuel : ℕ) (status : LineStatus) (c : Conn)
      → measure status c < fuel
      → Kept c0 (no_request, c)
      → Halts (Kept c0) (process_loop fs fuel status c)
  unfolding process_loop take_line
  process_loop-Halts zero status c enough kept = absurd (omega arith)
  process_loop-Halts (suc fuel) status c enough kept =
      let again = λ (st : LineStatus) (d : Conn). process_loop fs fuel st d in
      elim (Bool-cases (in_content c.check_state status)) [
        | inl body ↦
            let size : 2 * (c.read_idx - c.checked_idx) < fuel = ground arith in
            rw body (
              handle_line-Halts again c.check_state (record c { start_line = c.checked_idx })
                c.start_line kept
                (λ other. absurd (ground (arith, content_ok c.check_state status body)))
                (λ _ d same.
                  process_loop-Halts fuel line_open d
                    (omega (arith, measure_open d, same.0, same.1))
                    (still c (no_request, d) kept same)))
        | inr line ↦
            let size : 2 * (c.read_idx - c.checked_idx) < suc fuel = ground arith in
            let (same, inside, moved, own) = parse_line-Progress c kept.2 in
            let kept' : Kept c0 (no_request, (parse_line c).1) =
              (own ∙ kept.0, same ∙ kept.1, omega (arith, same, inside)) in
            rw line (
              next_line-Halts again (parse_line c) kept'
                (λ is_ok d k.
                  process_loop-Halts fuel line_ok d
                    (omega (arith, measure_ok d, moved is_ok, k.0, k.1))
                    (still (parse_line c).1 (no_request, d) kept' k))
                (λ is_ok d k.
                  process_loop-Halts fuel line_open d
                    (omega (arith, measure_open d, moved is_ok, k.0, k.1))
                    (still (parse_line c).1 (no_request, d) kept' k)))
      ]

-- For a connection whose unread data lies in the buffer, the rounds that process_read has are enough:
-- it returns, unless it reads outside of the buffer or through a null pointer. When it returns, the
-- socket and the end of the data are the same, and the data is checked no further than its end.
pub process_read-Halts :
    (fs : FileSystem) (c : Conn)
    → c.checked_idx ≤ c.read_idx
    → c.read_idx ≤ read_buffer_size
    → Halts (Kept c) (process_read fs c)
unfolding process_read
process_read-Halts fs c le fits =
    process_loop-Halts fs c (2 * read_buffer_size + 2) line_ok c (omega (arith, measure_ok fs c c))
      (refl, refl, le)
