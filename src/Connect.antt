-- ===== src/Connect.antt =====
-- HTTP_server_learning/nonblocking_connect.cpp: a connection that is waited for no longer than some time.
-- What the system calls report is an argument; the descriptors that are open are kept as the kernel does,
-- each with its O_NONBLOCK.
pub mod Outcome
mod Tests
use linux_learning.Prelude.{ℕ, Bool, true, false, Option, none, some, ◌==◌, if◌then◌else◌, update}

-- What connect reports: success, EINPROGRESS, or another error.
pub data Connected : Type 0 where
  at_once in_progress refused : Connected

-- What select reports: a time-out or an error, or whether the socket is among those that are ready.
pub data Selected : Type 0 where
  timed_out : Selected
  selected : Bool → Selected

-- What getsockopt reports: an error of its own, or the error of the socket.
pub data SocketError : Type 0 where
  unknown : SocketError
  error : ℕ → SocketError

-- The answers of the system calls; the descriptor is the one of the new socket.
pub record Answers : Type 0 where
  pub sockfd : ℕ
  pub connect : Connected
  pub select : Selected
  pub getsockopt : SocketError

abbrev pub Descriptors : Type 0
Descriptors = ℕ → Option Bool

-- `setnonblocking(fd)` of a socket that is open, and its old option.
pub setnonblocking : ℕ → Bool → Descriptors → Descriptors × Bool
setnonblocking fd old_option fds = (update fds fd (some true), old_option)

-- `fcntl(sockfd, F_SETFL, old_fdopt); return sockfd;`
pub succeed : ℕ → Bool → Descriptors → Option ℕ × Descriptors
succeed sockfd old_fdopt fds = (some sockfd, update fds sockfd (some old_fdopt))

-- `close(sockfd); return -1;`
pub give_up : ℕ → Descriptors → Option ℕ × Descriptors
give_up sockfd fds = (none, update fds sockfd none)

-- What follows a getsockopt.
pub after_error : ℕ → Bool → SocketError → Descriptors → Option ℕ × Descriptors
after_error sockfd old_fdopt unknown fds = give_up sockfd fds
after_error sockfd old_fdopt (error e) fds =
    if e == 0 then succeed sockfd old_fdopt fds else give_up sockfd fds

-- What follows a select.
pub after_select : ℕ → Bool → Answers → Selected → Descriptors → Option ℕ × Descriptors
after_select sockfd old_fdopt a timed_out fds = give_up sockfd fds
after_select sockfd old_fdopt a (selected is_set) fds =
    if is_set then after_error sockfd old_fdopt a.getsockopt fds else give_up sockfd fds

-- What follows a connect.
pub after_connect : ℕ → Bool → Answers → Connected → Descriptors → Option ℕ × Descriptors
after_connect sockfd old_fdopt a at_once fds = succeed sockfd old_fdopt fds
after_connect sockfd old_fdopt a refused fds = (none, fds)
after_connect sockfd old_fdopt a in_progress fds = after_select sockfd old_fdopt a a.select fds

-- `unblock_connect`, where socket gives a new descriptor; -1 is `none`.
pub unblock_connect : Answers → Descriptors → Option ℕ × Descriptors
unblock_connect a fds =
    let (fds', old_fdopt) = setnonblocking a.sockfd false (update fds a.sockfd (some false)) in
    after_connect a.sockfd old_fdopt a a.connect fds'
