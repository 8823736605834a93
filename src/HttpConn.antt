-- ===== src/HttpConn.antt =====
-- HTTP_server_learning/http_conn.h and http_conn.cpp: one connection of the web server.
-- This file has the state, `init`, `close_conn` and `read`; the children have the rest: Line the inner
-- state machine, Request the outer one, Response the answer, Reply `write` and `process`.
-- The socket, epoll and the file system are the kernel's: recv and writev give the results that the
-- functions take as lists, the epoll calls are logged, and files are a parameter.
pub mod Line
pub mod Stored
pub mod Request
pub mod Response
pub mod Reply
pub mod Transfers
pub mod Effects
mod Tests
mod Answers
use linux_learning.Prelude.{
  ℕ, zero, suc, ◌+◌, ◌-◌, Bool, true, false, Option, none, some, List, [], ◌∷◌, ◌++◌, ltb, leb,
  ◌==◌, if◌then◌else◌, update, length, Run, ok, fault, out_of_fuel, ◌>>=◌, ℤ, pos,
}
use linux_learning.CString.{Bytes}

abbrev pub filename_len : ℕ
filename_len = 200

abbrev pub read_buffer_size : ℕ
read_buffer_size = 2048

abbrev pub write_buffer_size : ℕ
write_buffer_size = 1024

pub data Method : Type 0 where
  get post head put delete trace options connect patch : Method

pub data CheckState : Type 0 where
  requestline header content : CheckState

pub data HttpCode : Type 0 where
  no_request get_request bad_request no_resource forbidden_request file_request internal_error
        closed_connection :
      HttpCode

pub data LineStatus : Type 0 where
  line_ok line_bad line_open : LineStatus

-- The parts of `struct stat` that the code reads.
pub record FileStat : Type 0 where
  pub others_read : Bool
  pub is_dir : Bool
  pub size : ℕ

-- `m_file_address`: NULL, MAP_FAILED, or a mapping of the file's bytes.
pub data Mapping : Type 0 where
  unmapped failed : Mapping
  mapped : List ℕ → Mapping

-- An entry of `m_iv`: where it starts, and its length.
pub data Segment : Type 0 where
  headers : ℕ → Segment
  file : Mapping → ℕ → Segment

-- Pointers into the read buffer are positions, with `none` for NULL; `m_sockfd` is `none` for -1.
pub record Conn : Type 0 where
  pub sockfd : Option ℕ
  pub read_buf : Bytes
  pub read_idx : ℕ
  pub checked_idx : ℕ
  pub start_line : ℕ
  pub write_buf : Bytes
  pub write_idx : ℕ
  pub check_state : CheckState
  pub method : Method
  pub real_file : List ℕ
  pub url : Option ℕ
  pub version : Option ℕ
  pub host : Option ℕ
  pub content_length : ℤ
  pub linger : Bool
  pub file_address : Mapping
  pub file_stat : FileStat
  pub iv : List Segment

pub data Interest : Type 0 where
  epollin epollout : Interest

-- The calls on the epoll descriptor; `none` stands for the descriptor -1.
pub data EpollCall : Type 0 where
  add_fd : ℕ → EpollCall
  remove_fd : ℕ → EpollCall
  mod_fd : Option ℕ → Interest → EpollCall

-- The static members, and what was asked of epoll, the last call first.
pub record Server : Type 0 where
  pub user_count : ℕ
  pub epoll : List EpollCall

abbrev pub call : EpollCall → Server → Server
call c w = record w { epoll = c ∷ w.epoll }

-- `close_conn(true)`, the only way in which it is called. `removefd` also closes the socket.
unfoldable pub close_conn : Conn → Server → Conn × Server
close_conn c w = elim c.sockfd [
  | none ↦ (c, w)
  | some fd ↦
      (record c { sockfd = none }, record (call (remove_fd fd) w) { user_count = w.user_count - 1 })
]

-- `init()`
unfoldable pub reset : Conn → Conn
reset c = record c {
  check_state = requestline;
  linger = false;
  method = get;
  url = none;
  version = none;
  content_length = pos 0;
  host = none;
  start_line = 0;
  checked_idx = 0;
  read_idx = 0;
  write_idx = 0;
  read_buf = λ _. 0;
  write_buf = λ _. 0;
  real_file = [];
}

-- `init(int sockfd, const sockaddr_in &addr)`; the address is stored and never read.
unfoldable pub init : ℕ → Conn → Server → Conn × Server
init fd c w = (
  reset (record c { sockfd = some fd }),
  record (call (add_fd fd) w) { user_count = w.user_count + 1 },
)

-- The bytes of a chunk, written behind those that are there.
unfoldable pub store_bytes : Bytes → ℕ → List ℕ → Bytes
store_bytes buf at [] = buf
store_bytes buf at (c ∷ chunk) = store_bytes (update buf at c) (at + 1) chunk

-- What recv reports: bytes, EAGAIN or EWOULDBLOCK, another error, or an orderly close.
pub data Received : Type 0 where
  got : List ℕ → Received
  would_block error closed : Received

-- The loop of read over the results of recv. When the buffer is full recv is asked for 0 bytes and
-- returns 0, which the code takes for a close.
unfoldable pub read_loop : Conn → List Received → Run (Bool × Conn)
read_loop c [] = out_of_fuel
read_loop c (r ∷ rest) =
    let more : List ℕ → Run (Bool × Conn) = λ chunk.
      read_loop
        (record c {
          read_buf = store_bytes c.read_buf c.read_idx chunk;
          read_idx = c.read_idx + length chunk;
        })
        rest in
    let result : Run (Bool × Conn) = elim r [
      | would_block ↦ ok (true, c)
      | error ↦ ok (false, c)
      | closed ↦ ok (false, c)
      | got chunk ↦
          let next = more chunk in
          if length chunk == 0
          then ok (false, c)
          else if ltb read_buffer_size (c.read_idx + length chunk)
          then fault
          else next
    ] in
    if leb read_buffer_size c.read_idx then ok (false, c) else result

unfoldable pub read : Conn → List Received → Run (Bool × Conn)
read c results = if leb read_buffer_size c.read_idx then ok (false, c) else read_loop c results
