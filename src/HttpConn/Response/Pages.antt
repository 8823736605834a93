-- ===== src/HttpConn/Response/Pages.antt =====
-- process_write of http_conn.cpp for the results of do_request.
use mathlib.Core.Path.{subst}
use mathlib.Core.Option.{some-injective}
use linux_learning.Prelude.{
  ℕ, ◌^◌, ◌≤◌, ◌<◌, ◌≡◌, refl, sym, ap, arith, Bool, true, false, Option, none, some, List, [], ◌∷◌,
  ◌++◌, ◌==◌, if◌then◌else◌, length,
}
use linux_learning.CString.{codes}
use linux_learning.HttpConn.{Conn, FileStat, Mapping, Segment, headers, file, file_request}
use linux_learning.HttpConn.Request.Found.{code_of}
use linux_learning.HttpConn.Response.{
  add_status_line, add_headers, add_content, add_page, crlf, decimal, decimal_loop, one_segment,
  process_write, write_file, form_400, form_403, form_404,
}
use linux_learning.HttpConn.Response.Bounds.{else_branch}
use linux_learning.HttpConn.Response.Digits.{length-decimal}
use linux_learning.HttpConn.Response.Sent.{
  Holds, empty-Holds, add_response-Holds, add_headers-Holds, with_headers, length-with_headers,
}

-- A whole page: the line of its status, the headers for its body, and the body.
abbrev page : List ℕ → Bool → List ℕ → List ℕ
page start linger body = with_headers start (length body) linger ++ body

-- The text of the answer for what the file system says of a file.
abbrev pub answer_text : Bool → Option FileStat → List ℕ
answer_text linger none =
    page (codes "HTTP/1.1 404 Not Found\r\n") linger
      (codes "The requested file was not found on this server.\n")
answer_text linger (some st) =
    if st.others_read
    then (if st.is_dir
        then page (codes "HTTP/1.1 400 Bad Request\r\n") linger
            (codes "Your request has bad syntax or is inherently impossible to satisfy.\n")
        else with_headers (codes "HTTP/1.1 200 OK\r\n") st.size linger)
    else page (codes "HTTP/1.1 403 Forbidden\r\n") linger
        (codes "You do not have permission to get the file from this server.\n")

-- What is sent behind the text.
abbrev pub body_of : Mapping → Option FileStat → List Segment
body_of bytes none = []
body_of bytes (some st) =
    if st.others_read then (if st.is_dir then [] else file bytes st.size ∷ []) else []

-- The file is not empty, and its size is an int.
abbrev pub IsSized : Option FileStat → Type 0
IsSized none = Unit
IsSized (some st) = (0 < st.size) × (st.size < 2 ^ 31)

-- The answer is in the write buffer, and the segments to send are the text and the file.
pub record Answer (c : Conn) (o : Option FileStat) (r : Bool × Conn) : Type 0 where
  pub good : r.0 ≡ true
  pub holds : Holds c (answer_text c.linger o) r.1
  pub iv : r.1.iv ≡ headers (length (answer_text c.linger o)) ∷ body_of c.file_address o

-- A page fits into the buffer.
add_page-Holds :
    (c : Conn) (status : ℕ) (title body start : List ℕ)
    → c.write_idx ≡ 0
    → codes "HTTP/1.1 " ++ decimal status ++ codes " " ++ title ++ crlf ≡ start
    → length start ≤ 40
    → length body ≤ 100
    → ((add_page c status title body).0 ≡ true)
      × Holds c (page start c.linger body) (add_page c status title body).1
unfolding add_status_line add_content
add_page-Holds c status title body start e line few short =
    let digits = length-decimal (length body) (omega (arith, short)) in
    let started = (add_response-Holds c c [] start (empty-Holds c e) (omega (arith, few))).1 in
    let (good, h) =
      add_response-Holds c _ (with_headers start (length body) c.linger) body
        (add_headers-Holds c _ start (length body) started digits few)
        (omega (arith, few, short, length-with_headers start (length body) c.linger digits)) in
    rw line (good, h)

one_segment-Answer :
    (c : Conn) (o : Option FileStat) (r : Bool × Conn)
    → body_of c.file_address o ≡ []
    → r.0 ≡ true
    → Holds c (answer_text c.linger o) r.1
    → Answer c o (one_segment r)
unfolding one_segment
one_segment-Answer c o (false, d) alone e h = absurd (cc e)
one_segment-Answer c o (true, d) alone e h = record {
  good = refl;
  holds = record {
    buf = h.buf;
    size = h.size;
    sockfd = h.sockfd;
    linger = h.linger;
    stat = h.stat;
    file = h.file;
  };
  iv = rw (alone, h.size) refl;
}

file_part-Answer :
    (c d : Conn) (size n : ℕ)
    → n ≡ size
    → let st : FileStat = record { others_read = true; is_dir = false; size = size } in
      Holds c (answer_text c.linger (some st)) d
      → Answer c
          (some st)
          (true, record d { iv = headers d.write_idx ∷ file d.file_address n ∷ [] })
file_part-Answer c d size n e h = record {
  good = refl;
  holds = record {
    buf = h.buf;
    size = h.size;
    sockfd = h.sockfd;
    linger = h.linger;
    stat = h.stat;
    file = h.file;
  };
  iv = rw (e, h.size, h.file) refl;
}

write_file-Answer :
    (c : Conn) (size : ℕ)
    → let st : FileStat = record { others_read = true; is_dir = false; size = size } in
      c.write_idx ≡ 0
      → c.file_stat.size ≡ size
      → IsSized (some st)
      → Answer c (some st) (write_file c)
unfolding write_file add_status_line decimal decimal_loop
write_file-Answer c size e known (some_byte, small) =
    let start = codes "HTTP/1.1 200 OK\r\n" in
    let n = c.file_stat.size in
    let started = (add_response-Holds c c [] start (empty-Holds c e) (omega arith)).1 in
    let h =
      add_headers-Holds c _ start n started (length-decimal n (omega (arith, known, small)))
        (omega arith) in
    else_branch (Answer c _) _ _ (n == 0) (ground (arith, known, some_byte)) (
      file_part-Answer c _ size n known (
        subst
          (λ k.
            Holds c (with_headers start k c.linger)
              (add_headers (add_status_line c 200 (codes "OK")).1 n))
          known h))

found-Answer :
    (c : Conn) (may_read dir : Bool) (size : ℕ)
    → let st : FileStat = record { others_read = may_read; is_dir = dir; size = size } in
      c.write_idx ≡ 0
      → IsSized (some st)
      → (code_of (some st) ≡ file_request → some st ≡ some c.file_stat)
      → Answer c (some st) (process_write c (code_of (some st)))
unfolding process_write decimal decimal_loop
found-Answer c false dir size e sized known =
    let (good, h) =
      add_page-Holds c 403 (codes "Forbidden") form_403 _ e refl (omega arith) (omega arith) in
    one_segment-Answer c _ _ refl good h
found-Answer c true true size e sized known =
    let (good, h) =
      add_page-Holds c 400 (codes "Bad Request") form_400 _ e refl (omega arith) (omega arith) in
    one_segment-Answer c _ _ refl good h
found-Answer c true false size e sized known =
    write_file-Answer c size e (sym (ap (λ st. st.size) (some-injective _ _ (known refl)))) sized

-- When process_write is asked for the result that belongs to what the file system says of the file, it puts
-- the status line, the headers and the page into the buffer, whole, and the segments to send are what it
-- wrote and the file.
pub process_write-Answer :
    (c : Conn) (o : Option FileStat)
    → c.write_idx ≡ 0
    → IsSized o
    → (code_of o ≡ file_request → o ≡ some c.file_stat)
    → Answer c o (process_write c (code_of o))
unfolding process_write decimal decimal_loop
process_write-Answer c none e sized known =
    let (good, h) =
      add_page-Holds c 404 (codes "Not Found") form_404 _ e refl (omega arith) (omega arith) in
    one_segment-Answer c none _ refl good h
process_write-Answer c (some st) e sized known =
    found-Answer c st.others_read st.is_dir st.size e sized known
