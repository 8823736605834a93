-- ===== src/HttpConn/Request/Accept.antt =====
-- The request lines that parse_request_line of http_conn.cpp accepts.
use mathlib.Core.Path.{subst}
use linux_learning.Prelude.{
  ℕ, ◌+◌, ◌≤◌, ◌<◌, ◌≡◌, ◌≢◌, refl, sym, ap, ◌∙◌, All, All-append, arith, false, some, List, [],
  ◌∷◌, ◌++◌, length, length-append, update, ok, Yields, Yields-weaken, Yields-ok, Yields-from,
}
use linux_learning.CString.{
  NoNul, codes, c_str, is_blank, strpbrk, strspn, strcasecmp, strncasecmp, to_lower,
}
use linux_learning.CString.Spells.{
  Spells, Spells-cut, Spells-behind, Spells-same, c_str-Spells, literal-NoNul,
}
use linux_learning.HttpConn.{Conn, header, no_request, get, read_buffer_size}
use linux_learning.HttpConn.Request.{check_url, check_version, parse_request_line}

-- A byte of a path.
abbrev pub IsPathByte : ℕ → Type 0
IsPathByte c = (c ≢ 0) × (is_blank c ≡ false)

All-NoNul : (l : List ℕ) → All IsPathByte l → NoNul l
All-NoNul [] h = tt
All-NoNul (c ∷ l) h = (h.0.0, All-NoNul l h.1)

version_text-NoNul : NoNul (codes " HTTP/1.1")
version_text-NoNul = literal-NoNul (codes " HTTP/1.1") refl

strpbrk-append : (l rest : List ℕ) → All IsPathByte l → strpbrk (l ++ b' ' ∷ rest) ≡ some (length l)
unfolding strpbrk is_blank
strpbrk-append [] rest h = refl
strpbrk-append (c ∷ l) rest h = rw (h.0.1, strpbrk-append l rest h.1) (ap some (omega arith))

-- The line of a request for a path.
abbrev pub request_line : List ℕ → List ℕ
request_line path = codes "GET /" ++ path ++ codes " HTTP/1.1"

check_url-path :
    (c : Conn) (at : ℕ) (path : List ℕ)
    → at + length path + 1 < read_buffer_size
    → All IsPathByte path
    → Spells c.read_buf at (b'/' ∷ path)
    → check_url c at ≡ ok (no_request, record c { url = some at; check_state = header })
unfolding check_url strncasecmp to_lower
check_url-path c at path fits h v =
    let n : NoNul (b'/' ∷ path) = ((λ e. absurd (cc e)), All-NoNul path h) in
    rw (c_str-Spells read_buffer_size (b'/' ∷ path) c.read_buf at (omega (arith, fits)) n v) refl

-- What the line behind the target does to the connection: the buffer up to it and behind the line stays.
pub record Accepted (c : Conn) (target stop : ℕ) (path : List ℕ) (d : Conn) : Type 0 where
  pub url : d.url ≡ some target
  pub text : Spells d.read_buf target (b'/' ∷ path)
  pub state : d.check_state ≡ header
  pub behind : (i : ℕ) → stop ≤ i → d.read_buf i ≡ c.read_buf i
  pub checked : d.checked_idx ≡ c.checked_idx
  pub ends : d.read_idx ≡ c.read_idx
  pub starts : d.start_line ≡ c.start_line
  pub body : d.content_length ≡ c.content_length
  pub written : d.write_idx ≡ c.write_idx
  pub sockfd : d.sockfd ≡ c.sockfd
  pub linger : d.linger ≡ c.linger

check_version-Accepted :
    (c : Conn) (at stop : ℕ) (path : List ℕ)
    → at + length path + 10 ≡ stop
    → stop < read_buffer_size
    → c.url ≡ some at
    → All IsPathByte path
    → Spells c.read_buf at (b'/' ∷ path ++ codes " HTTP/1.1")
    → Yields (λ r. (r.0 ≡ no_request) × Accepted c at stop path r.1) (check_version c at)
unfolding check_version strcasecmp to_lower strspn is_blank
check_version-Accepted c at stop path e fits u h v =
    let whole = (b'/' ∷ path) ++ codes " HTTP/1.1" in
    let url_n : All IsPathByte (b'/' ∷ path) = (((λ z. absurd (cc z)), refl), h) in
    let n : NoNul whole =
      All-append (λ c. c ≢ 0) (b'/' ∷ path) (codes " HTTP/1.1") (All-NoNul (b'/' ∷ path) url_n)
        version_text-NoNul in
    let size : length whole ≡ length path + 10 =
      omega (arith, length-append (b'/' ∷ path) (codes " HTTP/1.1")) in
    let here =
      c_str-Spells read_buffer_size whole c.read_buf at (omega (arith, size, e, fits)) n v in
    let j = length (b'/' ∷ path) in
    let b1 = update c.read_buf (at + j) 0 in
    let gap : (i : ℕ) → at + j + 1 ≤ i → b1 i ≡ c.read_buf i = λ i le. ground (arith, le) in
    let v1 =
      Spells-same (codes "HTTP/1.1") c.read_buf b1 (at + j + 1) (λ i le lt. gap i le)
        (Spells-behind (b'/' ∷ path) (codes " HTTP/1.1") c.read_buf at (at + j) refl v).1 in
    let text =
      c_str-Spells read_buffer_size (codes "HTTP/1.1") b1 (at + j + 1) (omega (arith, e, fits))
        (literal-NoNul (codes "HTTP/1.1") refl) v1 in
    let text' =
      ap (c_str read_buffer_size b1) {x = at + j + 1 + 0} {y = at + j + 1} (omega arith) ∙ text in
    let url = Spells-cut (b'/' ∷ path) (codes " HTTP/1.1") c.read_buf at (at + j) refl v in
    let d : Conn = record c { read_buf = b1; version = some (at + j + 1 + 0) } in
    Yields-ok _ here (
      rw (strpbrk-append (b'/' ∷ path) (codes "HTTP/1.1") url_n) (
        Yields-ok _ text (
          Yields-ok _ text' (
            Yields-from _ (check_url-path d at path (omega (arith, e, fits)) h url) (
              refl,
              record {
                url = refl;
                text = url;
                state = refl;
                behind = λ i le. gap i (omega (arith, e, le));
                checked = refl;
                ends = refl;
                starts = refl;
                body = refl;
                written = refl;
                sockfd = refl;
                linger = refl;
              },
            )))))

-- The line of a request for a path is accepted: it leaves a pointer to the path, which is a string now, and
-- what stands behind the line as it was.
pub parse_request_line-Accepted :
    (c : Conn) (text stop : ℕ) (path : List ℕ)
    → text + length path + 14 ≡ stop
    → stop < read_buffer_size
    → All IsPathByte path
    → Spells c.read_buf text (request_line path)
    → Yields
        (λ r. (r.0 ≡ no_request) × Accepted c (text + 4) stop path r.1)
        (parse_request_line c text)
unfolding parse_request_line strpbrk strspn is_blank strcasecmp to_lower
parse_request_line-Accepted c text stop path e fits h v =
    let rest = (b'/' ∷ path) ++ codes " HTTP/1.1" in
    let rest_n : NoNul rest =
      All-append (λ c. c ≢ 0) (b'/' ∷ path) (codes " HTTP/1.1")
        ((λ z. absurd (cc z)), All-NoNul path h) version_text-NoNul in
    let size : length rest ≡ length path + 10 =
      omega (arith, length-append (b'/' ∷ path) (codes " HTTP/1.1")) in
    let n : NoNul (request_line path) =
      All-append (λ c. c ≢ 0) (codes "GET ") rest (literal-NoNul (codes "GET ") refl) rest_n in
    let b1 = update c.read_buf (text + 3) 0 in
    let gap : (i : ℕ) → text + 4 ≤ i → b1 i ≡ c.read_buf i = λ i le. ground (arith, le) in
    let line =
      c_str-Spells read_buffer_size (request_line path) c.read_buf text
        (omega (arith, size, e, fits)) n v in
    let name =
      c_str-Spells read_buffer_size (codes "GET") b1 text (omega (arith, e, fits))
        (literal-NoNul (codes "GET") refl)
        (Spells-cut (codes "GET") (b' ' ∷ rest) c.read_buf text (text + 3) (omega arith) v) in
    let u_v : Spells b1 (text + 3 + 1) rest =
      Spells-same rest c.read_buf b1 (text + 3 + 1) (λ i le lt. gap i (omega (arith, le)))
        (Spells-behind (codes "GET ") rest c.read_buf text (text + 3 + 1) (omega arith) v) in
    let u =
      c_str-Spells read_buffer_size rest b1 (text + 3 + 1) (omega (arith, size, e, fits)) rest_n
        u_v in
    let target = text + 3 + 1 + 0 in
    let here : target ≡ text + 3 + 1 = omega arith in
    let there : target ≡ text + 4 = omega arith in
    let d : Conn = record c { read_buf = b1; url = some target; method = get } in
    Yields-ok _ line (
      Yields-ok _ name (
        Yields-ok _ u (
          Yields-weaken
            (check_version-Accepted d target stop path (omega (arith, e)) fits refl h
              (subst (λ p. Spells b1 p rest) (sym here) u_v))
            λ r (code, a). (
              code,
              record {
                url = a.url ∙ ap some there;
                text = subst (λ p. Spells r.1.read_buf p (b'/' ∷ path)) there a.text;
                state = a.state;
                behind = λ i le. a.behind i le ∙ gap i (omega (arith, e, le));
                checked = a.checked;
                ends = a.ends;
                starts = a.starts;
                body = a.body;
                written = a.written;
                sockfd = a.sockfd;
                linger = a.linger;
              },
            ))))
