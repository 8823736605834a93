-- ===== src/HttpConn/Answers.antt =====
-- The theorems about the answers of http_conn.cpp at concrete connections.
use linux_learning.Prelude.{
  ℕ, ◌≤◌, ◌<◌, ◌≡◌, ◌>>=◌, refl, some, none, true, false, List, [], ◌∷◌, arith, pos, All, Halts,
  Yields, if◌then◌else◌, thrown,
}
use linux_learning.CString.{codes, is_blank, strcasecmp, strncasecmp, strspn, to_lower}
use linux_learning.HttpConn.{
  Conn, Server, requestline, get, mapped, bad_request, write_buffer_size, init, reset, read,
}
use linux_learning.HttpConn.Request.{FileSystem, process_read}
use linux_learning.HttpConn.Request.Fuel.{Kept, process_read-Halts}
use linux_learning.HttpConn.Request.HeaderLines.{IsHeader, lingers}
use linux_learning.HttpConn.Request.Arrives.{arrived}
use linux_learning.HttpConn.Request.Whole.{IsTargetByte, literal-IsPlain}
use linux_learning.HttpConn.Reply.{process}
use linux_learning.HttpConn.Reply.Answered.{Answered, request-Answered}
use linux_learning.HttpConn.Reply.Asked.{Asked, IsAsked, keeps, session}
use linux_learning.HttpConn.Reply.Session.{AllServed, session-AllServed}
use linux_learning.HttpConn.Response.{decimal, decimal_loop, process_write}
use linux_learning.HttpConn.Response.Bounds.{process_write-Inside}

-- A connection on socket 7 for which an empty file was found.
abbrev open_conn : Conn
open_conn = record {
  sockfd = some 7;
  read_buf = λ _. 0;
  read_idx = 0;
  checked_idx = 0;
  start_line = 0;
  write_buf = λ _. 0;
  write_idx = 0;
  check_state = requestline;
  method = get;
  real_file = codes "/var/www/html/empty";
  url = none;
  version = none;
  host = none;
  content_length = pos 0;
  linger = false;
  file_address = mapped [];
  file_stat = record { others_read = true; is_dir = false; size = 0 };
  iv = [];
}

abbrev no_files : FileSystem
no_files = record { stat = λ _. none; map = λ _. none }

-- Bytes have been read, and they end a line badly.
abbrev unread : Conn
unread = record open_conn { read_buf = λ _. b'\n'; read_idx = 5 }

process_read-Halts_example : Halts (Kept unread) (process_read no_files unread)
process_read-Halts_example = process_read-Halts no_files unread (omega arith) (omega arith)

process_write-Inside_example :
    ((process_write open_conn bad_request).1.write_idx < write_buffer_size)
    × ((j : ℕ)
        → write_buffer_size ≤ j
        → (process_write open_conn bad_request).1.write_buf j ≡ open_conn.write_buf j)
process_write-Inside_example = process_write-Inside open_conn bad_request (omega arith)

one_user : Server
one_user = record { user_count = 1; epoll = [] }

-- A file of three bytes at every path.
abbrev some_files : FileSystem
some_files = record {
  stat = λ _. some (record { others_read = true; is_dir = false; size = 3 });
  map = λ _. some (1 ∷ 2 ∷ 3 ∷ []);
}

abbrev two_lines : List (List ℕ)
two_lines = codes "Host: b" ∷ codes "Connection: keep-alive" ∷ []

two_lines-IsHeader : All IsHeader two_lines
unfolding strncasecmp to_lower
two_lines-IsHeader = (
  (literal-IsPlain (codes "Host: b") refl, refl),
  ((literal-IsPlain (codes "Connection: keep-alive") refl, refl), tt),
)

path-IsTargetByte : All IsTargetByte (codes "a")
unfolding is_blank
path-IsTargetByte = ((((λ e. absurd (cc e)), (λ e. absurd (cc e)), (λ e. absurd (cc e))), refl), tt)

-- The request for "/a" in two pieces.
abbrev pieces : List (ℕ × List ℕ)
pieces =
    (b'G', codes "ET /a HT")
    ∷ (b'T', codes "P/1.1\r\nHost: b\r\nConnection: keep-alive\r\n\r\n")
    ∷ []

request-Answered_example :
    Yields (Answered some_files (codes "/a") (some 7) (lingers false two_lines) one_user) (
      read (reset open_conn) (arrived pieces) >>= λ r.
      if r.0 then process some_files r.1 one_user else thrown)
request-Answered_example =
    request-Answered some_files open_conn one_user (codes "a") two_lines pieces path-IsTargetByte
      two_lines-IsHeader refl (omega arith) (omega arith, omega arith)

-- The request, and one that does not keep the connection.
abbrev first_asked : Asked
first_asked = record { path = codes "a"; lines = two_lines; chunks = pieces; taken = 65 }

abbrev last_asked : Asked
last_asked = record {
  path = codes "a";
  lines = codes "Host: b" ∷ [];
  chunks = (b'G', codes "ET /a HTTP/1.1\r\nHost: b\r\n\r\n") ∷ [];
  taken = 60;
}

first_asked-IsAsked : IsAsked some_files first_asked
unfolding strncasecmp strcasecmp strspn is_blank to_lower decimal decimal_loop
first_asked-IsAsked = record {
  path = path-IsTargetByte;
  lines = two_lines-IsHeader;
  chunks = refl;
  fits = omega arith;
  sized = (omega arith, omega arith);
  mapping = refl;
  taken = refl;
}

last_asked-IsAsked : IsAsked some_files last_asked
unfolding strncasecmp strcasecmp strspn is_blank to_lower decimal decimal_loop
last_asked-IsAsked = record {
  path = path-IsTargetByte;
  lines = (two_lines-IsHeader.0, tt);
  chunks = refl;
  fits = omega arith;
  sized = (omega arith, omega arith);
  mapping = refl;
  taken = refl;
}

-- The first of them keeps the connection, the second does not.
kept_once : (keeps first_asked ≡ true) × (keeps last_asked ≡ false)
unfolding strncasecmp strcasecmp strspn is_blank to_lower
kept_once = (refl, refl)

session-AllServed_example : Yields (AllServed some_files (some 7) (first_asked ∷ last_asked ∷ [])) (
    session some_files
      (init 7 open_conn one_user).0
      (init 7 open_conn one_user).1
      (first_asked ∷ last_asked ∷ []))
session-AllServed_example =
    session-AllServed some_files 7 open_conn one_user (first_asked ∷ last_asked ∷ [])
      (first_asked-IsAsked, (last_asked-IsAsked, tt))
