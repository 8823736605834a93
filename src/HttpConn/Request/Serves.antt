-- ===== src/HttpConn/Request/Serves.antt =====
-- process_read of http_conn.cpp on a whole request.
use mathlib.Core.Path.{subst}
use linux_learning.Prelude.{
  ℕ, zero, suc, ◌+◌, ◌≤◌, ◌<◌, ◌≡◌, refl, sym, ap, ◌∙◌, All, arith, Bool, false, Option, some, List,
  [], ◌∷◌, length, length-append, Run, ok, pos, Yields, Yields-bind, Yields-ok,
}
use linux_learning.CString.{Bytes, NoNul, c_str}
use linux_learning.CString.Spells.{Spells, Spells-same, Reads, c_str-Spells}
use linux_learning.HttpConn.{Conn, HttpCode, header, line_ok, read_buffer_size}
use linux_learning.HttpConn.Line.{parse_line}
use linux_learning.HttpConn.Line.Whole.{IsPlain, All-NoNul, with_end, Taken, parse_line-Taken}
use linux_learning.HttpConn.Request.{
  FileSystem, text_at, handle_line, take_line, next_line, in_content, process_loop,
}
use linux_learning.HttpConn.Request.HeaderLines.{
  IsHeader, IsHeader-All, Kept, keeps_alive, lingers, parse_headers-Kept, parse_headers-blank,
}
use linux_learning.HttpConn.Request.Found.{Served, do_request-Served}

-- The text of the headers, with the empty line behind them.
abbrev pub headers_text : List (List ℕ) → List ℕ
headers_text [] = with_end [] []
headers_text (h ∷ headers) = with_end h (headers_text headers)

-- The connection stands at the start of these lines, with the target behind it.
pub record AtHeaders (target lines : List ℕ) (c : Conn) : Type 0 where
  pub at : ℕ
  pub url : c.url ≡ some at
  pub text : Spells c.read_buf at target
  pub before : at + length target < c.checked_idx
  pub state : c.check_state ≡ header
  pub body : c.content_length ≡ pos 0
  pub written : c.write_idx ≡ 0
  pub starts : c.start_line ≡ c.checked_idx
  pub unread : Reads c.read_buf c.checked_idx lines
  pub inside : c.checked_idx + length lines ≤ c.read_idx
  pub fits : c.read_idx ≤ read_buffer_size

pub process_loop-line :
    (fs : FileSystem) (k : ℕ) (c d : Conn)
    → in_content c.check_state line_ok ≡ false
    → parse_line c ≡ (line_ok, d)
    → process_loop fs (suc k) line_ok c
      ≡ handle_line fs
          (process_loop fs k)
          d.check_state
          (record d { start_line = d.checked_idx })
          d.start_line
unfolding process_loop next_line take_line
process_loop-line fs k c d outside e = rw (outside, e) refl

-- The connection when the first of the lines was taken.
abbrev taken : Conn → Bytes → List ℕ → Conn
taken c buf line = record c {
  read_buf = buf;
  checked_idx = c.checked_idx + length line + 2;
  start_line = c.checked_idx + length line + 2;
}

-- The text of the target is not touched.
Taken-text :
    (target line rest : List ℕ) (c : Conn) (buf : Bytes)
    (v : AtHeaders target (with_end line rest) c)
    → Taken c.read_buf c.checked_idx line rest buf
    → Spells buf v.at target
Taken-text target line rest c buf v t =
    Spells-same target c.read_buf buf v.at (λ i le lt. t.before i (omega (arith, lt, v.before)))
      v.text

-- It starts where the parser looks for it.
Taken-line :
    (target line rest : List ℕ) (c : Conn) (buf : Bytes)
    (v : AtHeaders target (with_end line rest) c)
    → Taken c.read_buf c.checked_idx line rest buf
    → All IsPlain line
    → text_at (taken c buf line) c.start_line ≡ ok line
Taken-line target line rest c buf v t plain =
    ap (c_str read_buffer_size buf) v.starts
    ∙ c_str-Spells read_buffer_size line buf c.checked_idx
        (omega (arith, v.inside, v.fits, length-append line (b'\r' ∷ b'\n' ∷ rest)))
        (All-NoNul line plain) t.text

AtHeaders-next :
    (target line rest : List ℕ) (alive : Bool) (c d : Conn) (buf : Bytes)
    (v : AtHeaders target (with_end line rest) c)
    → Taken c.read_buf c.checked_idx line rest buf
    → Kept alive (taken c buf line) d
    → AtHeaders target rest d
AtHeaders-next target line rest alive c d buf v t kept = record {
  at = v.at;
  url = kept.url ∙ v.url;
  text = subst (λ b. Spells b v.at target) (sym kept.buf) (Taken-text target line rest c buf v t);
  before = omega (arith, v.before, kept.checked);
  state = kept.state ∙ v.state;
  body = kept.body ∙ v.body;
  written = kept.written ∙ v.written;
  starts = kept.starts ∙ sym kept.checked;
  unread =
      subst (λ b. Reads b d.checked_idx rest) (sym kept.buf)
        (subst (λ p. Reads buf p rest) (sym kept.checked) t.follows);
  inside =
      omega (arith, v.inside, kept.checked, kept.ends, length-append line (b'\r' ∷ b'\n' ∷ rest));
  fits = omega (arith, v.fits, kept.ends);
}

-- The round that takes the first line.
headers_round :
    (fs : FileSystem) (k : ℕ) (target line rest : List ℕ) (c : Conn)
    (v : AtHeaders target (with_end line rest) c)
    → All IsPlain line
    → (buf : Bytes) × (process_loop fs (suc k) line_ok c
        ≡ handle_line fs (process_loop fs k) header (taken c buf line) c.start_line)
      × Taken c.read_buf c.checked_idx line rest buf
headers_round fs k target line rest c v plain =
    let (buf, e, t) =
      parse_line-Taken c line rest plain v.unread
        (omega (arith, v.inside, length-append line (b'\r' ∷ b'\n' ∷ rest))) in
    let d : Conn = record c { read_buf = buf; checked_idx = c.checked_idx + length line + 2 } in
    (
      buf,
      process_loop-line fs k c d (ap (λ st. in_content st line_ok) v.state) e
          ∙ ap (λ st. handle_line fs (process_loop fs k) st (taken c buf line) c.start_line)
              v.state,
      t,
    )

-- What becomes of the connection does not depend on how its socket and `m_linger` came to be.
pub Served-along :
    (fs : FileSystem) (target : List ℕ) (headers : List (List ℕ)) {fd fd' : Option ℕ}
    {linger linger' : Bool} {r : Run (HttpCode × Conn)}
    → fd ≡ fd'
    → linger ≡ linger'
    → Yields (Served fs target fd (lingers linger headers)) r
    → Yields (Served fs target fd' (lingers linger' headers)) r
Served-along fs target headers {fd} {fd'} {linger} {linger'} {r} same_fd same_linger y =
    subst (λ x. Yields (Served fs target x (lingers linger' headers)) r) same_fd
      (subst (λ l. Yields (Served fs target fd (lingers l headers)) r) same_linger y)

pub headers-Served :
    (fs : FileSystem) (target : List ℕ) (headers : List (List ℕ)) (k : ℕ) (c : Conn)
    → NoNul target
    → length headers < k
    → All IsHeader headers
    → AtHeaders target (headers_text headers) c
    → Yields (Served fs target c.sockfd (lingers c.linger headers)) (process_loop fs k line_ok c)
unfolding handle_line
headers-Served fs target headers zero c n enough h v = absurd (omega (arith, enough))
headers-Served fs target [] (suc k) c n enough h v =
    let (buf, e, t) = headers_round fs k target [] [] c v tt in
    subst (Yields (Served fs target c.sockfd c.linger)) (sym e) (
      Yields-ok _
        (parse_headers-blank (taken c buf []) c.start_line (Taken-line target [] [] c buf v t tt)
          v.body)
        (do_request-Served fs (taken c buf []) v.at target v.url
          (omega (arith, v.before, v.inside, v.fits)) n (Taken-text target [] [] c buf v t)
          v.written))
headers-Served fs target (line ∷ headers) (suc k) c n enough h v =
    let rest = headers_text headers in
    let plain = IsHeader-All line h.0 in
    let (buf, e, t) = headers_round fs k target line rest c v plain in
    subst (Yields (Served fs target c.sockfd (lingers c.linger (line ∷ headers)))) (sym e) (
      Yields-bind
        (parse_headers-Kept (taken c buf line) c.start_line line
          (Taken-line target line rest c buf v t plain) h.0)
        λ r (code, kept). rw code (
          Served-along fs target headers kept.sockfd kept.linger (
            headers-Served fs target headers k r.1 n (omega (arith, enough)) h.1
              (AtHeaders-next target line rest (keeps_alive line) c r.1 buf v t kept))))
