-- ===== src/HttpConn/Response.antt =====
-- The answer of http_conn.cpp: add_response and its callers, and process_write.
pub mod Bounds
pub mod Digits
pub mod Empty
pub mod Sent
pub mod Pages
use linux_learning.Prelude.{
  ℕ, zero, suc, ◌+◌, ◌-◌, ◌/◌, ◌%◌, Bool, true, false, List, [], ◌∷◌, ◌++◌, ltb, leb, ◌==◌,
  if◌then◌else◌, update, length, take,
}
use linux_learning.CString.{codes}
use linux_learning.HttpConn.{
  Conn, HttpCode, headers, file, bad_request, no_resource, forbidden_request, file_request,
  internal_error, write_buffer_size, store_bytes,
}

-- `%d` of a number that is not negative; `fuel` above the number is enough.
unfoldable pub decimal_loop : ℕ → ℕ → List ℕ → List ℕ
decimal_loop zero n digits = digits
decimal_loop (suc fuel) n digits =
    let more = decimal_loop fuel (n / 10) ((48 + n % 10) ∷ digits) in
    if ltb n 10 then (48 + n) ∷ digits else more

unfoldable pub decimal : ℕ → List ℕ
decimal n = decimal_loop (suc n) n []

-- `add_response`, with the text that the format makes. vsnprintf writes what fits in front of a NUL,
-- which the buffer then holds although the call may report that there was no room.
unfoldable pub add_response : Conn → List ℕ → Bool × Conn
add_response c text =
    let room = write_buffer_size - 1 - c.write_idx in
    let cut = take (room - 1) text in
    let printed =
      if room == 0
      then c.write_buf
      else update (store_bytes c.write_buf c.write_idx cut) (c.write_idx + length cut) 0 in
    if leb write_buffer_size c.write_idx
    then (false, c)
    else if leb room (length text)
    then (false, record c { write_buf = printed })
    else (true, record c { write_buf = printed; write_idx = c.write_idx + length text })

abbrev pub crlf : List ℕ
crlf = 13 ∷ 10 ∷ []

unfoldable pub add_status_line : Conn → ℕ → List ℕ → Bool × Conn
add_status_line c status title =
    add_response c (codes "HTTP/1.1 " ++ decimal status ++ codes " " ++ title ++ crlf)

unfoldable pub add_content_length : Conn → ℕ → Bool × Conn
add_content_length c n = add_response c (codes "Content-Length: " ++ decimal n ++ crlf)

unfoldable pub add_linger : Conn → Bool × Conn
add_linger c =
    add_response c
      (codes "Connection: " ++ (if c.linger then codes "keep-alive" else codes "close") ++ crlf)

unfoldable pub add_blank_line : Conn → Bool × Conn
add_blank_line c = add_response c crlf

-- The results of the three calls are dropped. add_headers is declared bool and returns nothing, which is
-- undefined; here it is taken to come back to its callers, none of which uses its result.
unfoldable pub add_headers : Conn → ℕ → Conn
add_headers c n = (add_blank_line (add_linger (add_content_length c n).1).1).1

unfoldable pub add_content : Conn → List ℕ → Bool × Conn
add_content c text = add_response c text

abbrev pub form_400 : List ℕ
form_400 = codes "Your request has bad syntax or is inherently impossible to satisfy." ++ 10 ∷ []

abbrev pub form_403 : List ℕ
form_403 = codes "You do not have permission to get the file from this server." ++ 10 ∷ []

abbrev pub form_404 : List ℕ
form_404 = codes "The requested file was not found on this server." ++ 10 ∷ []

abbrev pub form_500 : List ℕ
form_500 = codes "There was an unusual problem serving the requested file." ++ 10 ∷ []

abbrev pub empty_page : List ℕ
empty_page = codes "<html><body></body></html>"

-- A status line, the headers for a body, and the body.
abbrev pub add_page : Conn → ℕ → List ℕ → List ℕ → Bool × Conn
add_page c status title body =
    add_content (add_headers (add_status_line c status title).1 (length body)) body

-- Behind the switch: the write buffer is the only segment.
unfoldable pub one_segment : Bool × Conn → Bool × Conn
one_segment (true, c) = (true, record c { iv = headers c.write_idx ∷ [] })
one_segment (false, c) = (false, c)

-- `case FILE_REQUEST`. The branch of an empty file has no `break`, and runs into the default.
unfoldable pub write_file : Conn → Bool × Conn
write_file c =
    let started = (add_status_line c 200 (codes "OK")).1 in
    let n = c.file_stat.size in
    if n == 0
    then (false, (add_content (add_headers started (length empty_page)) empty_page).1)
    else (let c' = add_headers started n in
        (true, record c' { iv = headers c'.write_idx ∷ file c'.file_address n ∷ [] }))

unfoldable pub process_write : Conn → HttpCode → Bool × Conn
process_write c internal_error = one_segment (add_page c 500 (codes "Internal Error") form_500)
process_write c bad_request = one_segment (add_page c 400 (codes "Bad Request") form_400)
process_write c no_resource = one_segment (add_page c 404 (codes "Not Found") form_404)
process_write c forbidden_request = one_segment (add_page c 403 (codes "Forbidden") form_403)
process_write c file_request = write_file c
process_write c _ = (false, c)
