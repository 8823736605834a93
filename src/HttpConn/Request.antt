-- ===== src/HttpConn/Request.antt =====
-- The outer state machine of http_conn.cpp: request line, headers, body, and the file that is asked for.
pub mod Headers
pub mod Accept
pub mod HeaderLines
pub mod Found
pub mod Serves
pub mod Whole
pub mod Arrives
pub mod Stall
pub mod Halting
pub mod Fuel
use linux_learning.Prelude.{
  to_int, ℕ, zero, suc, ◌+◌, ◌-◌, ◌*◌, Bool, true, false, ◌&&◌, Option, none, some, List, [], ◌∷◌,
  ◌++◌, ltb, leb, ◌==◌, if◌then◌else◌, update, length, take, Run, ok, fault, out_of_fuel, ◌>>=◌, ℤ,
  pos, negsuc, ge_add, is_zero,
}
use linux_learning.CString.{
  Bytes, codes, c_str, strpbrk, strspn, strchr, strcasecmp, strncasecmp, atol,
}
use linux_learning.HttpConn.{
  Conn, CheckState, HttpCode, LineStatus, FileStat, requestline, header, content, line_ok, line_bad,
  line_open, no_request, get_request, bad_request, no_resource, forbidden_request, file_request,
  get, read_buffer_size, filename_len, failed, mapped,
}
use linux_learning.HttpConn.Line.{parse_line}

abbrev pub text_at : Conn → ℕ → Run (List ℕ)
text_at c at = c_str read_buffer_size c.read_buf at

abbrev pub put_nul : Conn → ℕ → Conn
put_nul c at = record c { read_buf = update c.read_buf at 0 }

-- The end of parse_request_line: the request's target, at `at`.
unfoldable pub check_url : Conn → ℕ → Run (HttpCode × Conn)
check_url c at = do
  u ← text_at c at
  let accept : ℕ → HttpCode × Conn =
      λ path. (no_request, record c { url = some path; check_state = header })
  let absolute : Run (HttpCode × Conn) = do
    path ← text_at c (at + 7)
    ok (elim (strchr path b'/') [
      | none ↦ (bad_request, record c { url = none })
      | some i ↦ accept (at + 7 + i)
    ])
  if strncasecmp u (codes "http://") 7
      then absolute
      else ok (elim u [
        | [] ↦ (bad_request, c)
        | d ∷ _ ↦ if d == b'/' then accept at else (bad_request, c)
      ])

-- The middle: the version, behind the target at `at`.
unfoldable pub check_version : Conn → ℕ → Run (HttpCode × Conn)
check_version c at = do
  u ← text_at c at
  elim (strpbrk u) [
    | none ↦ ok (bad_request, record c { version = none })
    | some j ↦ do
      let c' : Conn = put_nul c (at + j)
      v ← text_at c' (at + j + 1)
      let version_at = at + j + 1 + strspn v
      version ← text_at c' version_at
      let c'' : Conn = record c' { version = some version_at }
      let good = check_url c'' at
      if strcasecmp version (codes "HTTP/1.1") then good else ok (bad_request, c'')
  ]

unfoldable pub parse_request_line : Conn → ℕ → Run (HttpCode × Conn)
parse_request_line c text = do
  s ← text_at c text
  elim (strpbrk s) [
    | none ↦ ok (bad_request, record c { url = none })
    | some i ↦ do
      let c' : Conn = put_nul c (text + i)
      name ← text_at c' text
      u ← text_at c' (text + i + 1)
      let target = text + i + 1 + strspn u
      let good = check_version (record c' { url = some target; method = get }) target
      if strcasecmp name (codes "GET")
          then good
          else ok (bad_request, record c' { url = some (text + i + 1) })
  ]

-- The value of a header whose name ends before `at`: where it starts behind the blanks, and its text.
unfoldable pub header_value : Conn → ℕ → Run (ℕ × List ℕ)
header_value c at = do
  s ← text_at c at
  value ← text_at c (at + strspn s)
  ok (at + strspn s, value)

unfoldable pub parse_headers : Conn → ℕ → Run (HttpCode × Conn)
parse_headers c text = do
  s ← text_at c text
  let connection : Run (HttpCode × Conn) = do
    (_, value) ← header_value c (text + 11)
    ok (no_request, if strcasecmp value (codes "keep-alive") then record c { linger = true } else c)
  let length_header : Run (HttpCode × Conn) = do
    (_, value) ← header_value c (text + 15)
    ok (no_request, record c { content_length = to_int (atol value) })
  let host_header : Run (HttpCode × Conn) = do
    (at, _) ← header_value c (text + 5)
    ok (no_request, record c { host = some at })
  let blank : HttpCode × Conn =
      if is_zero c.content_length
      then (get_request, c)
      else (no_request, record c { check_state = content })
  let other : Run (HttpCode × Conn) =
      if strncasecmp s (codes "Content-Length") 15
      then length_header
      else if strncasecmp s (codes "Host:") 5
      then host_header
      else ok (no_request, c)
  let named : Run (HttpCode × Conn) =
      if strncasecmp s (codes "Connection:") 11 then connection else other
  elim s [ [] ↦ ok blank | _ ∷ _ ↦ named ]

-- `text[m_content_length] = '\0'`
pub end_body : Conn → ℕ → Run Conn
end_body c text = elim c.content_length [
  | pos n ↦ if ltb (text + n) read_buffer_size then ok (put_nul c (text + n)) else fault
  | negsuc n ↦ if ltb n text then ok (put_nul c (text - suc n)) else fault
]

pub parse_content : Conn → ℕ → Run (HttpCode × Conn)
parse_content c text =
    if ge_add c.read_idx c.content_length c.checked_idx
    then (do c' ← end_body c text; ok (get_request, c'))
    else ok (no_request, c)

-- `const char *doc_root`
abbrev pub doc_root : List ℕ
doc_root = codes "/var/www/html"

-- The kernel's files: what `stat` says of a path, and the bytes that `open` and `mmap` give.
pub record FileSystem : Type 0 where
  pub stat : List ℕ → Option FileStat
  pub map : List ℕ → Option (List ℕ)

-- The first half of the loop's condition.
abbrev pub in_content : CheckState → LineStatus → Bool
in_content content line_ok = true
in_content _ _ = false

module _ (fs : FileSystem) where
  -- A null `m_url` would be read by strncpy.
  unfoldable pub do_request : Conn → Run (HttpCode × Conn)
  do_request c = elim c.url [
    | none ↦ fault
    | some at ↦ do
      u ← text_at c at
      let path = doc_root ++ take (filename_len - length doc_root - 1) u
      let c' : Conn = record c { real_file = path }
      let open_file : FileStat → HttpCode × Conn = λ st. (
        file_request,
        record c' {
          file_stat = st;
          file_address = elim (fs.map path) [ none ↦ failed | some bytes ↦ mapped bytes ];
        },
      )
      ok (elim (fs.stat path) [
        | none ↦ (no_resource, c')
        | some st ↦
            if st.others_read
            then (if st.is_dir then (bad_request, record c' { file_stat = st }) else open_file st)
            else (forbidden_request, record c' { file_stat = st })
      ])
  ]

  -- What the switch of process_read does with the line at `text`; `again` is the next round of the
  -- loop, with the status that it starts from.
  unfoldable pub handle_line :
      (LineStatus → Conn → Run (HttpCode × Conn)) → CheckState → Conn → ℕ → Run (HttpCode × Conn)
  handle_line again requestline c text = do
    (code, c') ← parse_request_line c text
    let more = again line_ok c'
    elim code [ bad_request ↦ ok (bad_request, c') | _ ↦ more ]
  handle_line again header c text = do
    (code, c') ← parse_headers c text
    let more = again line_ok c'
    let found = do_request c'
    elim code [ bad_request ↦ ok (bad_request, c') | get_request ↦ found | _ ↦ more ]
  handle_line again content c text = do
    (code, c') ← parse_content c text
    let more = again line_open c'
    let found = do_request c'
    elim code [ get_request ↦ found | _ ↦ more ]

  -- `text = get_line(); m_start_line = m_checked_idx;` and the switch.
  unfoldable pub take_line :
      (LineStatus → Conn → Run (HttpCode × Conn)) → Conn → Run (HttpCode × Conn)
  take_line again c =
      handle_line again c.check_state (record c { start_line = c.checked_idx }) c.start_line

  -- The second half of the loop's condition, for what parse_line returned.
  unfoldable pub next_line :
      (LineStatus → Conn → Run (HttpCode × Conn)) → LineStatus × Conn → Run (HttpCode × Conn)
  next_line again (line_ok, c) = take_line again c
  next_line again (_, c) = ok (no_request, c)

  unfoldable pub process_loop : ℕ → LineStatus → Conn → Run (HttpCode × Conn)
  process_loop zero status c = out_of_fuel
  process_loop (suc fuel) status c =
      let again = λ (st : LineStatus) (d : Conn). process_loop fuel st d in
      if in_content c.check_state status then take_line again c else next_line again (parse_line c)

  -- Twice the bytes of the buffer, and two, bound the rounds.
  unfoldable pub process_read : Conn → Run (HttpCode × Conn)
  process_read c = process_loop (2 * read_buffer_size + 2) line_ok c
