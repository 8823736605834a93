-- ===== src/HttpConn/Request/Whole.antt =====
-- A whole request in http_conn.cpp: what init, read and process_read make of it.
use mathlib.Core.Path.{subst}
use linux_learning.Prelude.{
  ℕ, ◌+◌, ◌*◌, ◌≤◌, ◌≡◌, refl, sym, ap, ◌∙◌, All, All-append, arith, Bool, true, false, List, [],
  ◌∷◌, ◌++◌, ◌==◌, if◌then◌else◌, length, length-append, pos, Yields, Yields-bind,
}
use linux_learning.CString.{codes, is_blank}
use linux_learning.CString.Spells.{Spells, Reads, Reads-same}
use linux_learning.HttpConn.{Conn, requestline, line_ok, read_buffer_size}
use linux_learning.HttpConn.Line.Whole.{IsPlain, with_end, parse_line-Taken, All-NoNul}
use linux_learning.HttpConn.Request.{
  FileSystem, handle_line, in_content, process_loop, process_read,
}
use linux_learning.HttpConn.Request.Accept.{IsPathByte, request_line, parse_request_line-Accepted}
use linux_learning.HttpConn.Request.HeaderLines.{IsHeader, lingers}
use linux_learning.HttpConn.Request.Found.{Served}
use linux_learning.HttpConn.Request.Serves.{
  Served-along, headers_text, headers-Served, process_loop-line,
}

-- A byte of a target.
abbrev pub IsTargetByte : ℕ → Type 0
IsTargetByte c = IsPlain c × (is_blank c ≡ false)

-- The bytes of a request for the target that is a slash and this path.
abbrev pub request : List ℕ → List (List ℕ) → List ℕ
request path headers = with_end (request_line path) (headers_text headers)

target-IsPathByte : (path : List ℕ) → All IsTargetByte path → All IsPathByte path
target-IsPathByte [] h = tt
target-IsPathByte (c ∷ path) h = ((h.0.0.0, h.0.1), target-IsPathByte path h.1)

target-IsPlain : (path : List ℕ) → All IsTargetByte path → All IsPlain path
target-IsPlain [] h = tt
target-IsPlain (c ∷ path) h = (h.0.0, target-IsPlain path h.1)

-- No more headers than bytes.
length-headers_text : (headers : List (List ℕ)) → length headers ≤ length (headers_text headers)
length-headers_text [] = omega arith
length-headers_text (h ∷ headers) =
    omega
      (arith, length-headers_text headers, length-append h (b'\r' ∷ b'\n' ∷ headers_text headers))

abbrev has_no_end : List ℕ → Bool
has_no_end [] = true
has_no_end (c ∷ l) =
    let rest = has_no_end l in
    if c == 0 then false else if c == b'\r' then false else if c == b'\n' then false else rest

pub literal-IsPlain : (l : List ℕ) → has_no_end l ≡ true → All IsPlain l
literal-IsPlain [] h = tt
literal-IsPlain (c ∷ l) h = ground (arith, h, literal-IsPlain l)

pub process_read-Served :
    (fs : FileSystem) (path : List ℕ) (headers : List (List ℕ)) (c : Conn)
    → All IsTargetByte path
    → All IsHeader headers
    → c.check_state ≡ requestline
    → c.start_line ≡ 0
    → c.checked_idx ≡ 0
    → c.content_length ≡ pos 0
    → c.write_idx ≡ 0
    → Reads c.read_buf 0 (request path headers)
    → length (request path headers) ≤ c.read_idx
    → c.read_idx ≤ read_buffer_size
    → Yields (Served fs (b'/' ∷ path) c.sockfd (lingers c.linger headers)) (process_read fs c)
unfolding process_read handle_line
process_read-Served fs path headers c h hs state starts checked body written v inside fits =
    let line = request_line path in
    let rest = headers_text headers in
    let text_of_path = target-IsPathByte path h in
    let size : length line ≡ length path + 14 =
      omega (arith, length-append (codes "GET /" ++ path) (codes " HTTP/1.1")) in
    let all : length (request path headers) ≡ length line + 2 + length rest =
      omega (arith, length-append line (b'\r' ∷ b'\n' ∷ rest)) in
    let plain : All IsPlain line =
      All-append IsPlain (codes "GET /" ++ path) (codes " HTTP/1.1")
        (All-append IsPlain (codes "GET /") path (literal-IsPlain (codes "GET /") refl)
          (target-IsPlain path h))
        (literal-IsPlain (codes " HTTP/1.1") refl) in
    let (buf, e, t) =
      parse_line-Taken c line rest plain
        (subst (λ p. Reads c.read_buf p (request path headers)) (sym checked) v)
        (omega (arith, inside, all, checked)) in
    let d : Conn = record c { read_buf = buf; checked_idx = c.checked_idx + length line + 2 } in
    let d1 : Conn = record d { start_line = d.checked_idx } in
    let round =
      process_loop-line fs (2 * read_buffer_size + 1) c d (ap (λ st. in_content st line_ok) state) e
      ∙ ap (λ st. handle_line fs (process_loop fs (2 * read_buffer_size + 1)) st d1 c.start_line)
          state in
    let text : Spells buf c.start_line line =
      subst (λ p. Spells buf p line) (checked ∙ sym starts) t.text in
    subst (Yields (Served fs (b'/' ∷ path) c.sockfd (lingers c.linger headers))) (sym round) (
      Yields-bind
        (parse_request_line-Accepted d1 c.start_line (c.start_line + length path + 14) path refl
          (omega (arith, starts, size, all, inside, fits)) text_of_path text)
        λ r (code, a). rw code (
          Served-along fs (b'/' ∷ path) headers a.sockfd a.linger (
            headers-Served fs (b'/' ∷ path) headers (2 * read_buffer_size + 1) r.1
              ((λ z. absurd (cc z)), All-NoNul path (target-IsPlain path h))
              (omega (arith, length-headers_text headers, all, inside, fits)) hs
              (record {
                at = c.start_line + 4;
                url = a.url;
                text = a.text;
                before = omega (arith, a.checked, size, starts, checked);
                state = a.state;
                body = a.body ∙ body;
                written = a.written ∙ written;
                starts = a.starts ∙ sym a.checked;
                unread =
                    subst (λ p. Reads r.1.read_buf p rest) (sym a.checked)
                      (Reads-same rest buf r.1.read_buf (c.checked_idx + length line + 2)
                        (λ i le lt. a.behind i (omega (arith, le, size, starts))) t.follows);
                inside = omega (arith, a.checked, a.ends, all, inside, checked);
                fits = omega (arith, a.ends, fits);
              }))))
