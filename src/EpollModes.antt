-- ===== src/EpollModes.antt =====
-- HTTP_server_learning/epoll_LT_ET.cpp: the events of epoll in its two modes; the child OneShot is about
-- HTTP_server_learning/epoll_one_shot.cpp.
-- What accept and recv report is in the events. What is printed or closed, and the sockets that are
-- given to epoll with their mode, are logged, the last ones first.
pub mod Modes
pub mod OneShot
mod Tests
use linux_learning.Prelude.{
  ℕ, zero, suc, Bool, true, false, Option, none, some, List, [], ◌∷◌, ◌==◌, if◌then◌else◌, Run, ok,
  out_of_fuel, ◌>>=◌,
}
use linux_learning.CString.{c_string}

-- What recv reports: a byte and some more, an end, EAGAIN, or another error.
pub data Received : Type 0 where
  got : ℕ → List ℕ → Received
  ended again failed : Received

pub record Log : Type 0 where
  pub printed : List (ℕ × List ℕ)
  pub closed : List ℕ
  pub added : List (ℕ × Bool)

-- An entry of `events`, with what accept and recv report when they are called for it.
pub record Event : Type 0 where
  pub fd : ℕ
  pub readable : Bool
  pub accepted : Option ℕ
  pub received : List Received

-- `printf` of the buffer, as a string; the number of bytes that lt and et print with it is left out.
abbrev pub print : ℕ → List ℕ → Log → Log
print fd bytes s = record s { printed = (fd, bytes) ∷ s.printed }

-- `close(sockfd);`
abbrev pub close : ℕ → Log → Log
close fd s = record s { closed = fd ∷ s.closed }

-- `addfd`; the descriptor -1 of a failed accept is refused by the kernel.
pub addfd : Option ℕ → Bool → Log → Log
addfd none enable_et s = s
addfd (some connfd) enable_et s = record s { added = (connfd, enable_et) ∷ s.added }

-- What lt does with what recv reports: every error ends the connection.
pub lt_read : ℕ → Log → List Received → Run Log
lt_read fd s [] = out_of_fuel
lt_read fd s (got b bytes ∷ rest) = ok (print fd (c_string (b ∷ bytes)) s)
lt_read fd s (ended ∷ rest) = ok (close fd s)
lt_read fd s (again ∷ rest) = ok (close fd s)
lt_read fd s (failed ∷ rest) = ok (close fd s)

pub lt_event : ℕ → Log → Event → Run Log
lt_event listenfd s e =
    if e.fd == listenfd
    then ok (addfd e.accepted false s)
    else if e.readable
    then lt_read e.fd s e.received
    else ok s

pub lt : ℕ → Log → List Event → Run Log
lt listenfd s [] = ok s
lt listenfd s (e ∷ events) = do s' ← lt_event listenfd s e; lt listenfd s' events

-- The loop of et. At an end of the data the socket is closed, and the loop goes on.
pub et_read : ℕ → Log → List Received → Run Log
et_read fd s [] = out_of_fuel
et_read fd s (got b bytes ∷ rest) = et_read fd (print fd (c_string (b ∷ bytes)) s) rest
et_read fd s (ended ∷ rest) = et_read fd (close fd s) rest
et_read fd s (again ∷ rest) = ok s
et_read fd s (failed ∷ rest) = ok (close fd s)

pub et_event : ℕ → Log → Event → Run Log
et_event listenfd s e =
    if e.fd == listenfd
    then ok (addfd e.accepted true s)
    else if e.readable
    then et_read e.fd s e.received
    else ok s

pub et : ℕ → Log → List Event → Run Log
et listenfd s [] = ok s
et listenfd s (e ∷ events) = do s' ← et_event listenfd s e; et listenfd s' events
