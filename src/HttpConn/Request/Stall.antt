-- ===== src/HttpConn/Request/Stall.antt =====
-- process_read of http_conn.cpp on a bad line.
use linux_learning.Prelude.{ℕ, suc, ◌+◌, ◌*◌, ◌≤◌, ◌<◌, ◌≡◌, false, arith, refl, ap, ◌∙◌, ok}
use linux_learning.CString.{Bytes}
use linux_learning.HttpConn.{
  Conn, LineStatus, line_ok, line_bad, line_open, no_request, read_buffer_size,
}
use linux_learning.HttpConn.Line.{parse_line}
use linux_learning.HttpConn.Line.Stuck.{parse_line-stuck}
use linux_learning.HttpConn.Request.{FileSystem, process_read, process_loop, next_line, in_content}

bad_round :
    (fs : FileSystem) (fuel : ℕ) (c : Conn) (r : LineStatus × Conn)
    → in_content c.check_state line_ok ≡ false
    → parse_line c ≡ r
    → r.0 ≡ line_bad
    → process_loop fs (suc fuel) line_ok c ≡ ok (no_request, r.1)
unfolding process_loop next_line
bad_round fs fuel c (line_ok, d) outside e b = absurd (ground arith)
bad_round fs fuel c (line_bad, d) outside e b = rw (outside, e)
bad_round fs fuel c (line_open, d) outside e b = absurd (ground arith)

bad_line :
    (fs : FileSystem) (c : Conn)
    → in_content c.check_state line_ok ≡ false
    → (parse_line c).0 ≡ line_bad
    → process_read fs c ≡ ok (no_request, (parse_line c).1)
unfolding process_read
bad_line fs c outside b = bad_round fs (2 * read_buffer_size + 1) c (parse_line c) outside refl b

-- When the next line is bad, outside of a body, process_read does not report a bad request: it asks for
-- more data. Whatever data is then appended, it does so again and changes nothing.
pub process_read-stalls :
    (fs : FileSystem) (c : Conn)
    → in_content c.check_state line_ok ≡ false
    → c.checked_idx ≤ c.read_idx
    → (parse_line c).0 ≡ line_bad
    → (process_read fs c ≡ ok (no_request, (parse_line c).1))
      × ((buf : Bytes) (n : ℕ)
          → c.read_idx ≤ n
          → ((i : ℕ) → i < c.read_idx → buf i ≡ c.read_buf i)
          → process_read fs (record (parse_line c).1 { read_buf = buf; read_idx = n })
            ≡ ok (no_request, record (parse_line c).1 { read_buf = buf; read_idx = n }))
unfolding parse_line
process_read-stalls fs c outside le b = (
  bad_line fs c outside b,
  λ buf n more same.
      let again = parse_line-stuck c buf n le more same b in
      let d : Conn = record (parse_line c).1 { read_buf = buf; read_idx = n } in
      bad_line fs d outside (ap (λ (r : LineStatus × Conn). r.0) again)
      ∙ ap (λ (r : LineStatus × Conn). ok (no_request, r.1)) again,
)
