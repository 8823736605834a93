-- ===== src/HttpConn/Tests.antt =====
-- Runs of http_conn.cpp, and its theorems at concrete requests.
use linux_learning.Prelude.{
  ◌≤◌, ◌<◌, ◌==◌, if◌then◌else◌, arith, ◌≡◌, refl, ℕ, none, some, true, false, [], ◌∷◌, List, ok,
  pos, Run, ◌>>=◌,
}
use linux_learning.CString.{
  Bytes, codes, c_str, string_in, strpbrk, strspn, strchr, strcasecmp, strncasecmp, is_blank,
  to_lower,
}
use linux_learning.HttpConn.{
  Conn, line_bad, line_open, HttpCode, unmapped, requestline, get, store_bytes, file_request,
  no_request,
}
use linux_learning.HttpConn.Line.{line_loop, parse_line}
use linux_learning.HttpConn.Line.Chunks.{parse_line-resumes}
use linux_learning.HttpConn.Request.Stall.{process_read-stalls}
use linux_learning.HttpConn.Request.{
  FileSystem, text_at, process_read, process_loop, take_line, next_line, handle_line,
  parse_request_line, check_version, check_url, parse_headers, header_value, do_request,
}

abbrev blank : Conn
blank = record {
  sockfd = some 7;
  read_buf = λ _. 0;
  read_idx = 0;
  checked_idx = 0;
  start_line = 0;
  write_buf = λ _. 0;
  write_idx = 0;
  check_state = requestline;
  method = get;
  real_file = [];
  url = none;
  version = none;
  host = none;
  content_length = pos 0;
  linger = false;
  file_address = unmapped;
  file_stat = record { others_read = false; is_dir = false; size = 0 };
  iv = [];
}

abbrev fs : FileSystem
fs = record {
  stat = λ _. some (record { others_read = true; is_dir = false; size = 3 });
  map = λ _. some (1 ∷ 2 ∷ 3 ∷ []);
}

abbrev small : List ℕ
small = codes "GET /a HTTP/1.1\r\nHost: b\r\nConnection: keep-alive\r\n\r\n"

loaded : List ℕ → ℕ → Conn
loaded text n = record blank { read_buf = store_bytes (λ _. 0) 0 text; read_idx = n }

-- The result and the path of a request.
outcome : List ℕ → ℕ → Run (HttpCode × List ℕ)
unfolding loaded store_bytes line_loop parse_line process_read process_loop take_line next_line
    handle_line parse_request_line check_version check_url parse_headers header_value do_request
    c_str string_in strpbrk strspn strchr strcasecmp strncasecmp is_blank to_lower
outcome text n = do (code, c) ← process_read fs (loaded text n); ok (code, c.real_file)

get_a : outcome small 52 ≡ ok (file_request, codes "/var/www/html/a")
unfolding outcome
get_a = refl

-- A lone carriage return does not give a bad request.
lone_return : outcome (codes "GET\rx") 5 ≡ ok (no_request, [])
unfolding outcome
lone_return = refl

-- "aaa", then the end of the line.
abbrev first_part : Conn
first_part = record blank { read_buf = λ _. b'a'; read_idx = 3 }

abbrev whole : Bytes
whole i = if i == 3 then b'\r' else if i == 4 then b'\n' else b'a'

whole_same : (i : ℕ) → i < 3 → whole i ≡ b'a'
whole_same i lt = ground arith

first_part_open : (parse_line first_part).0 ≡ line_open
unfolding parse_line line_loop
first_part_open = refl

parse_line-resumes_example :
    parse_line (record (parse_line first_part).1 { read_buf = whole; read_idx = 5 })
    ≡ parse_line (record first_part { read_buf = whole; read_idx = 5 })
parse_line-resumes_example =
    parse_line-resumes first_part whole 5 (omega arith) (omega arith) whole_same first_part_open

-- A carriage return that no line feed follows.
abbrev lone : Conn
lone = record blank { read_buf = λ i. if i == 0 then b'\r' else b'a'; read_idx = 2 }

lone_bad : (parse_line lone).0 ≡ line_bad
unfolding parse_line line_loop
lone_bad = refl

process_read-stalls_example :
    (process_read fs lone ≡ ok (no_request, (parse_line lone).1))
    × ((buf : Bytes) (n : ℕ)
        → 2 ≤ n
        → ((i : ℕ) → i < 2 → buf i ≡ lone.read_buf i)
        → process_read fs (record (parse_line lone).1 { read_buf = buf; read_idx = n })
          ≡ ok (no_request, record (parse_line lone).1 { read_buf = buf; read_idx = n }))
process_read-stalls_example = process_read-stalls fs lone refl (omega arith) lone_bad

abbrev length_line : List ℕ
length_line = codes "Content-Length: 5"

abbrev with_length : Conn
with_length = record blank { read_buf = λ i. store_bytes (λ _. 0) 0 length_line i; read_idx = 19 }

length_line_text : text_at with_length 0 ≡ ok length_line
unfolding c_str string_in store_bytes
length_line_text = refl
