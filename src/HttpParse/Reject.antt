-- ===== src/HttpParse/Reject.antt =====
-- What http_parse.cpp does with the first line of a request.
use linux_learning.Prelude.{
  ℕ, suc, ◌+◌, ◌-◌, ◌&&◌, ◌≤◌, ◌<◌, ◌≡◌, ◌≢◌, ◌⊎◌, inl, inr, refl, ap, Bool, true, false, Option,
  some, List, [], ◌∷◌, arith, ltb, ◌==◌, if◌then◌else◌, Run, ok, length, Yields, yields,
  Yields-bind, Yields-if,
}
use linux_learning.CString.{Bytes, strpbrk}
use linux_learning.CString.Laws.{c_str-nil}
use linux_learning.HttpParse.{
  after_line, Parser, HttpCode, LineStatus, Reply, buffer_size, requestline, line_ok, line_bad,
  line_open, no_request, bad_request, correct_result, line_round, parse_line, parse_requestline,
  parse_content, serve, reply, receive,
}

-- Nothing has been parsed yet.
pub record Fresh (s : Parser) : Type 0 where
  pub checked : s.checked_index ≡ 0
  pub line : s.start_line ≡ 0
  pub state : s.checkstate ≡ requestline

-- What parse_line can do then: wait for more, give up, or find an empty line.
abbrev Outcome : Parser → LineStatus × Parser → Type 0
Outcome s (line_open, t) = t ≡ s
Outcome s (line_bad, t) = t ≡ s
Outcome s (line_ok, t) = (t.buffer 0 ≡ 0) × (t.start_line ≡ 0) × (t.checkstate ≡ requestline)

if-Outcome :
    (s : Parser) (x y : LineStatus × Parser) (test : Bool)
    → (test ≡ true → Outcome s x)
    → (test ≡ false → Outcome s y)
    → Outcome s (if test then x else y)
if-Outcome s x y true p q = p refl
if-Outcome s x y false p q = q refl

first_line : (s : Parser) → Fresh s → Outcome s (parse_line s)
unfolding parse_line line_round
first_line s v =
    if-Outcome _ _ _ (ltb s.checked_index s.read_index)
      (λ _.
        if-Outcome _ _ _ (s.buffer s.checked_index == 13)
          (λ cr.
            if-Outcome _ _ _ (s.checked_index + 1 == s.read_index) (λ _. refl)
              (λ _.
                if-Outcome _ _ _ (s.buffer (s.checked_index + 1) == 10)
                  (λ lf. (ground (arith, v.checked), v.line, v.state)) (λ _. refl)))
          (λ no_cr.
            if-Outcome _ _ _
              (s.buffer s.checked_index == 10
                && (ltb 1 s.checked_index && s.buffer (s.checked_index - 1) == 13))
              (λ lf. absurd (ground (arith, v.checked))) (λ _. refl)))
      (λ _. refl)

-- An empty request line has no blank in it.
empty_requestline : (s : Parser) → s.buffer 0 ≡ 0 → parse_requestline s 0 ≡ ok (bad_request, s)
unfolding parse_requestline strpbrk
empty_requestline s e = rw (c_str-nil buffer_size s.buffer 0 (omega arith) e)

abbrev Rejected : Parser → HttpCode × Parser → Type 0
Rejected s r = (r.0 ≡ bad_request) ⊎ ((r.0 ≡ no_request) × (r.1 ≡ s))

after_line-rejects :
    (again : Parser → Run (HttpCode × Parser)) (s : Parser) (r : LineStatus × Parser)
    → Outcome s r
    → Yields (Rejected s) (after_line again r)
unfolding after_line
after_line-rejects again s (line_open, t) o = yields (inr (refl, o))
after_line-rejects again s (line_bad, t) o = yields (inl refl)
after_line-rejects again s (line_ok, t) o =
    rw (o.2, o.1)
      (rw (empty_requestline (record t { start_line = t.checked_index }) o.0) (yields (inl refl)))

pub parse_content-rejects :
    (fuel : ℕ) (s : Parser) → Fresh s → Yields (Rejected s) (parse_content (suc fuel) s)
unfolding parse_content
parse_content-rejects fuel s v = after_line-rejects _ s (parse_line s) (first_line s v)

receive-Fresh :
    (s : Parser) (buf : Bytes) (n : ℕ) → Fresh s → Fresh (record s { buffer = buf; read_index = n })
receive-Fresh s buf n v = record { checked = v.checked; line = v.line; state = v.state }

reply-rejects :
    (again : Parser → Run (Option Reply)) (s : Parser) (r : HttpCode × Parser)
    → Rejected s r
    → Yields (λ a. a ≢ some correct_result) (again s)
    → Yields (λ a. a ≢ some correct_result) (reply again r)
unfolding reply
reply-rejects again s (code, t) (inl e) next = rw e (yields (λ same. cc))
reply-rejects again s (code, t) (inr (e, same)) next = rw (e, same) next

abbrev pub total_length : List (List ℕ) → ℕ
total_length [] = 0
total_length (chunk ∷ chunks) = length chunk + total_length chunks

-- Whatever a client sends to a parser that has read no line yet, in chunks of any size that together fit
-- the buffer, the server's loop ends without a fault and never answers that the request is correct.
pub serve-rejects :
    (s : Parser) (chunks : List (List ℕ))
    → Fresh s
    → s.read_index + total_length chunks ≤ buffer_size
    → Yields (λ a. a ≢ some correct_result) (serve s chunks)
unfolding serve
serve-rejects s [] v fits = yields (λ e. cc)
serve-rejects s (chunk ∷ chunks) v fits =
    let buf = receive s.buffer s.read_index chunk in
    let n = s.read_index + length chunk in
    let s' : Parser = record s { buffer = buf; read_index = n } in
    let v' : Fresh s' = receive-Fresh s buf n v in
    Yields-if (length chunk == 0) (λ closed. yields (λ e. cc))
      λ _.
        Yields-if (ltb buffer_size n) (λ over. absurd (ground arith))
          λ _.
            Yields-bind (parse_content-rejects buffer_size s' v')
              λ r rejected. reply-rejects _ s' r rejected (serve-rejects s' chunks v' (omega arith))

gives_up :
    (s : Parser) → Fresh s → 0 < s.read_index → s.buffer 0 ≢ b'\r' → parse_line s ≡ (line_bad, s)
unfolding parse_line line_round
gives_up s v some_read ordinary =
    ground (arith, v.checked, λ (e : s.checked_index ≡ 0). ap s.buffer e)

-- Before any line is read, a first byte that is not a carriage return makes the parser report a bad
-- request and leaves it unchanged, whatever bytes follow.
pub parse_content-first_byte :
    (fuel : ℕ) (s : Parser)
    → Fresh s
    → 0 < s.read_index
    → s.buffer 0 ≢ b'\r'
    → parse_content (suc fuel) s ≡ ok (bad_request, s)
unfolding parse_content after_line
parse_content-first_byte fuel s v some_read ordinary = rw (gives_up s v some_read ordinary)
