-- ===== src/HttpConn/Request/Headers.antt =====
-- The headers that parse_headers of http_conn.cpp understands.
use linux_learning.Prelude.{
  ℕ, ◌+◌, ◌≤◌, ◌≡◌, refl, false, List, [], ◌∷◌, arith, length, ok, Yields, yields, Yields-bind,
  Yields-if,
}
use linux_learning.CString.{codes, strspn, strncasecmp}
use linux_learning.CString.Laws.{skip, c_str-tail, strspn-le, strncasecmp-longer}
use linux_learning.HttpConn.{Conn, HttpCode, no_request, read_buffer_size}
use linux_learning.HttpConn.Request.{parse_headers, header_value, text_at}

-- What stands in a line behind its first bytes and the blanks that follow them.
abbrev pub value_behind : ℕ → List ℕ → List ℕ
value_behind n s = skip (strspn (skip n s)) (skip n s)

-- A header's value is there to be read wherever its name ends inside the line.
pub header_value-ok :
    (c : Conn) (text : ℕ) (s : List ℕ) (n : ℕ)
    → text_at c text ≡ ok s
    → n ≤ length s
    → Yields (λ v. v.1 ≡ value_behind n s) (header_value c (text + n))
unfolding header_value
header_value-ok c text s n e le =
    let at = c_str-tail read_buffer_size c.read_buf text s n e le in
    let t = skip n s in
    let found = c_str-tail read_buffer_size c.read_buf (text + n) t (strspn t) at (strspn-le t) in
    rw (at, found) (yields refl)

-- What a header line leaves alone.
abbrev pub Untouched : Conn → HttpCode × Conn → Type 0
Untouched c (code, c') =
    (code ≡ no_request) × (c'.content_length ≡ c.content_length) × (c'.check_state ≡ c.check_state)

-- A header line of 15 bytes or more, "Content-Length: 5" included, is accepted without a fault, and
-- leaves the length of the body and the state of the parser as they were.
pub parse_headers-Untouched :
    (c : Conn) (text : ℕ) (s : List ℕ)
    → text_at c text ≡ ok s
    → 15 ≤ length s
    → Yields (Untouched c) (parse_headers c text)
unfolding parse_headers
parse_headers-Untouched c text [] e long = absurd (omega arith)
parse_headers-Untouched c text (d ∷ r) e long =
    let s : List ℕ = d ∷ r in
    let no_length : strncasecmp s (codes "Content-Length") 15 ≡ false =
      strncasecmp-longer s (codes "Content-Length") 15 (omega arith) (omega arith) in
    rw e (
      Yields-if (strncasecmp s (codes "Connection:") 11)
        (λ _.
          Yields-bind (header_value-ok c text s 11 e (omega arith))
            λ v _. yields (refl, ground arith, ground arith))
        (λ _. rw no_length (
          Yields-if (strncasecmp s (codes "Host:") 5)
            (λ _.
              Yields-bind (header_value-ok c text s 5 e (omega arith))
                λ v _. yields (refl, refl, refl))
            (λ _. yields (refl, refl, refl)))))
