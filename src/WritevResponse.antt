-- ===== src/WritevResponse.antt =====
-- HTTP_server_learning/writev_http_response.cpp: a server that answers its one client with a file.
-- What stat, open and read report is an argument.
pub mod Answers
mod Tests
use linux_learning.Prelude.{
  ℕ, zero, suc, ◌+◌, ◌-◌, Bool, true, false, Option, none, some, List, [], ◌∷◌, ◌++◌, ltb,
  if◌then◌else◌, length, take, Run, ok, fault,
}
use linux_learning.CString.{codes}
use linux_learning.HttpConn.Response.{decimal, crlf}

abbrev pub buffer_size : ℕ
buffer_size = 1024

-- `sizeof(file_buf)`, the size of a pointer.
abbrev pub file_buf_size : ℕ
file_buf_size = 8

-- What stat and, for a file that others may read, read report: an error, or the bytes of the file.
pub data File : Type 0 where
  missing is_directory no_permission : File
  readable : ℕ → Option (List ℕ) → File

-- What is known when the file was read: `valid`, and the bytes of `file_buf`, which points nowhere before
-- it is allocated.
pub record Loaded : Type 0 where
  pub valid : Bool
  pub file_buf : Option (List ℕ)

-- `memset(file_buf, '\0', n)` of a new buffer, and what read leaves in it.
pub zeros : ℕ → List ℕ
zeros zero = []
zeros (suc n) = 0 ∷ zeros n

pub read_over : List ℕ → List ℕ → List ℕ
read_over [] buf = buf
read_over (c ∷ bytes) [] = []
read_over (c ∷ bytes) (_ ∷ buf) = c ∷ read_over bytes buf

-- `read(fd, file_buf, sizeof(file_buf) - 1)`
pub read_file : Option (List ℕ) → Loaded
read_file none = record { valid = false; file_buf = some (zeros file_buf_size) }
read_file (some bytes) = record {
  valid = true;
  file_buf = some (read_over (take (file_buf_size - 1) bytes) (zeros file_buf_size));
}

-- The part of main from stat to the answer.
pub load : File → Run Loaded
load missing = ok (record { valid = false; file_buf = none })
load is_directory = ok (record { valid = false; file_buf = none })
load no_permission = ok (record { valid = false; file_buf = none })
load (readable st_size content) =
    if ltb file_buf_size (st_size + 1) then fault else ok (read_file content)

-- The string in `header_buf` after `snprintf(header_buf + at, room, "%s", text)`.
pub snprintf : ℕ → ℕ → List ℕ → List ℕ → List ℕ
snprintf at room text header = take at header ++ take (room - 1) text

-- The answer with status 200 or 500: `header_buf` as a string. `len` is only moved by the lines in front.
pub good_header : ℕ → List ℕ
good_header st_size =
    let first = codes "HTTP/1.1 200 OK" ++ crlf in
    let second = codes "Content-Length: " ++ decimal st_size ++ crlf in
    let len = length first + length second in
    let header = snprintf 0 (buffer_size - 1) first [] in
    let header' = snprintf (length first) (buffer_size - 1 - length first) second header in
    snprintf len (buffer_size - 1 - len) crlf header'

pub bad_header : List ℕ
bad_header =
    let first = codes "HTTP/1.1 500 Internal server error" ++ crlf in
    snprintf 0 (buffer_size - 1 - length first) crlf (snprintf 0 (buffer_size - 1) first [])

-- `delete [] file_buf;`, which must have been allocated.
pub release : Option (List ℕ) → Run (Unit {0})
release none = fault
release (some bytes) = ok tt

-- The bytes that writev takes from `file_buf`; it has st_size bytes.
pub file_part : Option (List ℕ) → ℕ → List ℕ
file_part none st_size = []
file_part (some bytes) st_size = take st_size bytes

abbrev pub size_of : File → ℕ
size_of (readable st_size content) = st_size
size_of file = 0

-- The answer, and how main ends.
pub answer : File → Loaded → List ℕ × Run (Unit {0})
answer file l =
    if l.valid
    then (good_header (size_of file) ++ file_part l.file_buf (size_of file), release l.file_buf)
    else (bad_header, release l.file_buf)

-- What main sends to a client that was accepted, and how it ends; a fault ends it before the answer.
pub after_load : File → Run Loaded → List ℕ × Run (Unit {0})
after_load file (ok l) = answer file l
after_load file _ = ([], fault)

pub respond : File → List ℕ × Run (Unit {0})
respond file = after_load file (load file)
