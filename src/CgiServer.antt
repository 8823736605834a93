-- ===== src/CgiServer.antt =====
-- HTTP_server_learning/CGI_concurrent_pool.cpp: cgi_conn, which runs the program that a client names.
-- recv, access and fork are the kernel's: what they report is an argument.
pub mod Bounds
mod Tests
use linux_learning.Prelude.{
  ℕ, zero, suc, ◌+◌, ◌-◌, Bool, true, false, ◌&&◌, List, [], ◌∷◌, ltb, leb, ◌==◌, if◌then◌else◌,
  update, length, Run, ok, fault, out_of_fuel, ◌>>=◌,
}
use linux_learning.CString.{Bytes, c_str}
use linux_learning.HttpConn.{store_bytes}

abbrev pub buffer_size : ℕ
buffer_size = 1024

-- `cgi_conn`, as far as process changes it.
pub record CgiConn : Type 0 where
  pub buf : Bytes
  pub read_idx : ℕ

-- `init`
pub init : CgiConn
init = record { buf = λ _. 0; read_idx = 0 }

-- What recv reports: a byte and some more, EAGAIN, another error, or an end.
pub data Received : Type 0 where
  got : ℕ → List ℕ → Received
  would_block error closed : Received

-- What fork reports.
pub data Forked : Type 0 where
  failed in_parent in_child : Forked

-- How process ends: the connection waits for more, it is closed by removefd, or a child runs a program.
pub data Ended : Type 0 where
  waits removed : Ended
  runs : List ℕ → Ended

-- The loop that looks for the end of a line, with `n` bytes left from `idx` on.
pub find_end : ℕ → Bytes → ℕ → ℕ
find_end zero buf idx = idx
find_end (suc n) buf idx =
    let rest = find_end n buf (idx + 1) in
    if leb 1 idx && (buf (idx - 1) == 13 && buf idx == 10) then idx else rest

-- A name has come in, and ends at `idx`.
pub start : (List ℕ → Bool) → Forked → CgiConn → ℕ → Run (Ended × CgiConn)
start exists forked c idx = do
  let c' : CgiConn = record c { buf = update c.buf (idx - 1) 0 }
  file_name ← c_str buffer_size c'.buf 0
  let child : Ended = elim forked [
    | failed ↦ removed
    | in_parent ↦ removed
    | in_child ↦ runs file_name
  ]
  ok (if exists file_name then child else removed, c')

-- What process does with what recv reports; `next` is the next round. The user's bytes are printed as a
-- string, which is a fault when there is no NUL behind them in the buffer.
pub on_recv :
    (List ℕ → Bool)
    → Forked
    → (CgiConn → Run (Ended × CgiConn))
    → CgiConn
    → Received
    → Run (Ended × CgiConn)
on_recv exists forked next c would_block = ok (waits, c)
on_recv exists forked next c error = ok (removed, c)
on_recv exists forked next c closed = ok (removed, c)
on_recv exists forked next c (got b bytes) =
    let n = suc (length bytes) in
    let c' : CgiConn = record {
      buf = store_bytes c.buf c.read_idx (b ∷ bytes);
      read_idx = c.read_idx + n;
    } in
    let idx = find_end n c'.buf c.read_idx in
    let more = next c' in
    let found = start exists forked c' idx in
    if ltb (buffer_size - 1) c'.read_idx then fault else if idx == c'.read_idx then more else found

-- `process`, over the calls of recv: each is given the room that it may fill.
pub process : (List ℕ → Bool) → Forked → CgiConn → List (ℕ → Received) → Run (Ended × CgiConn)
process exists forked c [] = out_of_fuel
process exists forked c (recv ∷ rest) =
    on_recv exists forked (λ c'. process exists forked c' rest) c
      (recv (buffer_size - 1 - c.read_idx))
