-- ===== src/HttpConn/Response/Sent.antt =====
-- What add_response and its callers in http_conn.cpp put into the write buffer, where there is room.
use linux_learning.Prelude.{
  ℕ, ◌+◌, ◌-◌, ◌≤◌, ◌<◌, ◌≡◌, refl, sym, ap, arith, Bool, true, false, List, [], ◌++◌, leb, ◌==◌,
  if◌then◌else◌, length, length-append, update,
}
use mathlib.Core.Path.{subst}
use linux_learning.CString.{Bytes, codes}
use linux_learning.CString.Spells.{Reads, Reads-same, Reads-append}
use linux_learning.HttpConn.{Conn, write_buffer_size, store_bytes}
use linux_learning.HttpConn.Stored.{store_bytes-before, store_bytes-Reads}
use linux_learning.HttpConn.Response.{
  add_response, add_content_length, add_linger, add_blank_line, add_headers, crlf, decimal,
}
use linux_learning.HttpConn.Response.Bounds.{take-all}

-- The buffer of `d` holds this text up to its end; for the rest `d` is the connection `c`.
pub record Holds (c : Conn) (text : List ℕ) (d : Conn) : Type 0 where
  pub buf : Reads d.write_buf 0 text
  pub size : d.write_idx ≡ length text
  pub sockfd : d.sockfd ≡ c.sockfd
  pub linger : d.linger ≡ c.linger
  pub stat : d.file_stat ≡ c.file_stat
  pub file : d.file_address ≡ c.file_address

pub empty-Holds : (c : Conn) → c.write_idx ≡ 0 → Holds c [] c
empty-Holds c e = record {
  buf = tt;
  size = e;
  sockfd = refl;
  linger = refl;
  stat = refl;
  file = refl;
}

-- The connection when the text was added.
abbrev added : Conn → List ℕ → Conn
added c text = record c {
  write_buf = update (store_bytes c.write_buf c.write_idx text) (c.write_idx + length text) 0;
  write_idx = c.write_idx + length text;
}

add_response-fits :
    (c : Conn) (text : List ℕ)
    → c.write_idx + length text + 1 < write_buffer_size
    → add_response c text ≡ (true, added c text)
unfolding add_response
add_response-fits c text lt =
    let whole = take-all (write_buffer_size - 1 - c.write_idx - 1) text (omega (arith, lt)) in
    let some_room : (write_buffer_size - 1 - c.write_idx == 0) ≡ false = ground (arith, lt) in
    let inside : leb write_buffer_size c.write_idx ≡ false = ground (arith, lt) in
    let room : leb (write_buffer_size - 1 - c.write_idx) (length text) ≡ false =
      ground (arith, lt) in
    rw (some_room, inside, room, whole) refl

added-Holds :
    (c d : Conn) (before text : List ℕ) → Holds c before d → Holds c (before ++ text) (added d text)
added-Holds c d before text h = record {
  buf =
      Reads-append before text (added d text).write_buf 0 d.write_idx (omega (arith, h.size))
        (Reads-same before d.write_buf (added d text).write_buf 0
          (λ i _ lt. old i (omega (arith, lt, h.size))) h.buf)
        (Reads-same text stored (added d text).write_buf d.write_idx (λ i _ lt. ground (arith, lt))
          (store_bytes-Reads text d.write_buf d.write_idx));
  size = omega (arith, h.size, length-append before text);
  sockfd = h.sockfd;
  linger = h.linger;
  stat = h.stat;
  file = h.file;
}
  where
    stored : Bytes
    stored = store_bytes d.write_buf d.write_idx text

    old : (i : ℕ) → i < d.write_idx → (added d text).write_buf i ≡ d.write_buf i
    old i lt = ground (arith, lt, store_bytes-before text d.write_buf d.write_idx i lt)

-- A call of add_response for which there is room.
pub add_response-Holds :
    (c d : Conn) (before text : List ℕ)
    → Holds c before d
    → length before + length text + 1 < write_buffer_size
    → ((add_response d text).0 ≡ true) × Holds c (before ++ text) (add_response d text).1
add_response-Holds c d before text h lt =
    let e = add_response-fits d text (omega (arith, lt, h.size)) in
    (
      ap (λ r. r.0) e,
      subst (λ r. Holds c (before ++ text) r.1) (sym e) (added-Holds c d before text h),
    )

-- A start, and the headers behind it for a body of this length.
abbrev pub with_headers : List ℕ → ℕ → Bool → List ℕ
with_headers start n linger =
    start
    ++ (codes "Content-Length: " ++ decimal n ++ crlf)
    ++ (codes "Connection: " ++ (if linger then codes "keep-alive" else codes "close") ++ crlf)
    ++ crlf

length-linger :
    (linger : Bool)
    → length
        (codes "Connection: " ++ (if linger then codes "keep-alive" else codes "close") ++ crlf)
      ≤ 24
length-linger true = omega arith
length-linger false = omega arith

length-content_length :
    (n : ℕ) → length (decimal n) ≤ 10 → length (codes "Content-Length: " ++ decimal n ++ crlf) ≤ 28
length-content_length n le = omega (
  arith,
  le,
  length-append (codes "Content-Length: " ++ decimal n) crlf,
  length-append (codes "Content-Length: ") (decimal n),
)

pub length-with_headers :
    (start : List ℕ) (n : ℕ) (linger : Bool)
    → length (decimal n) ≤ 10
    → length (with_headers start n linger) ≤ length start + 54
length-with_headers start n linger le =
    let size = codes "Content-Length: " ++ decimal n ++ crlf in
    let line =
      codes "Connection: " ++ (if linger then codes "keep-alive" else codes "close") ++ crlf in
    omega (
      arith,
      length-content_length n le,
      length-linger linger,
      length-append start size,
      length-append (start ++ size) line,
      length-append (start ++ size ++ line) crlf,
    )

pub add_headers-Holds :
    (c d : Conn) (start : List ℕ) (n : ℕ)
    → Holds c start d
    → length (decimal n) ≤ 10
    → length start ≤ 40
    → Holds c (with_headers start n c.linger) (add_headers d n)
unfolding add_headers add_content_length add_linger add_blank_line
add_headers-Holds c d start n h le few =
    let size = codes "Content-Length: " ++ decimal n ++ crlf in
    let line =
      codes "Connection: " ++ (if c.linger then codes "keep-alive" else codes "close") ++ crlf in
    let short = length-content_length n le in
    let short' = length-linger c.linger in
    let sized = (add_response-Holds c d start size h (omega (arith, few, short))).1 in
    let lined =
      (add_response-Holds c _ (start ++ size) line sized
        (omega (arith, few, short, short', length-append start size))).1 in
    (add_response-Holds c _ (start ++ size ++ line) crlf (rw (sized.linger) lined) (
      omega (
        arith,
        few,
        short,
        short',
        length-append start size,
        length-append (start ++ size) line,
      ))).1
