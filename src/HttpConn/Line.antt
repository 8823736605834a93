-- ===== src/HttpConn/Line.antt =====
-- parse_line of http_conn.cpp: the state machine that finds the end of a line.
pub mod Chunks
pub mod Stuck
pub mod Whole
use linux_learning.Prelude.{ℕ, zero, suc, ◌+◌, ◌-◌, ◌&&◌, ltb, ◌==◌, if◌then◌else◌, update}
use linux_learning.CString.{Bytes}
use linux_learning.HttpConn.{Conn, LineStatus, line_ok, line_bad, line_open}

-- The loop, with the rounds left, the end of the data, and the position; it gives the buffer and the
-- position that it leaves.
unfoldable pub line_loop : ℕ → Bytes → ℕ → ℕ → LineStatus × Bytes × ℕ
line_loop zero buf end at = (line_open, buf, at)
line_loop (suc rounds) buf end at =
    let temp = buf at in
    let next = line_loop rounds buf end (at + 1) in
    if temp == b'\r'
    then (if at + 1 == end
        then (line_open, buf, at)
        else if buf (at + 1) == b'\n'
        then (line_ok, update (update buf at 0) (at + 1) 0, at + 2)
        else (line_bad, buf, at))
    else if temp == b'\n'
    then (if ltb 1 at && buf (at - 1) == b'\r'
        then (line_ok, update (update buf (at - 1) 0) at 0, at + 1)
        else (line_bad, buf, at))
    else next

unfoldable pub parse_line : Conn → LineStatus × Conn
parse_line c =
    let (status, buf, at) =
      line_loop (c.read_idx - c.checked_idx) c.read_buf c.read_idx c.checked_idx in
    (status, record c { read_buf = buf; checked_idx = at })
