-- ===== src/UnifiedEvents.antt =====
-- HTTP_server_learning/unified_event_source.cpp: a server that reads signals from a pipe, as it does data.
-- epoll_wait, accept and recv are the kernel's: what they report is in the events. The bytes on the pipe are
-- those that sig_handler would write; as addsig is written it does not install the handler, so that nothing
-- but another writer puts them there.
pub mod Signals
mod Tests
use linux_learning.Prelude.{
  ℕ, Bool, true, false, ◌&&◌, ◌||◌, Option, none, some, List, [], ◌∷◌, ◌==◌, if◌then◌else◌,
}

-- The numbers of the signals.
abbrev pub sighup : ℕ
sighup = 1

abbrev pub sigint : ℕ
sigint = 2

abbrev pub sigterm : ℕ
sigterm = 15

abbrev pub sigchld : ℕ
sigchld = 17

-- `stop_server`, and the sockets that are in the epoll table.
pub record Server : Type 0 where
  pub stop_server : Bool
  pub added : List ℕ

-- What recv reports for the pipe: an error, an end, or bytes.
pub data Received : Type 0 where
  failed closed : Received
  got : List ℕ → Received

-- An entry of `events`, with what accept and recv report when they are called for it.
pub record Event : Type 0 where
  pub fd : ℕ
  pub readable : Bool
  pub accepted : Option ℕ
  pub received : Received

-- `addfd(epollfd, fd)`; the descriptor -1 of a failed accept is refused by the kernel.
pub addfd : Option ℕ → Server → Server
addfd none s = s
addfd (some fd) s = record s { added = fd ∷ s.added }

-- The body of the loop over the signals.
pub on_signal : Server → ℕ → Server
on_signal s sig =
    if (sig == sigchld) || (sig == sighup)
    then s
    else if (sig == sigterm) || (sig == sigint)
    then record s { stop_server = true }
    else s

pub on_signals : Server → List ℕ → Server
on_signals s [] = s
on_signals s (sig ∷ rest) = on_signals (on_signal s sig) rest

-- The branch of the pipe.
pub on_pipe : Server → Received → Server
on_pipe s failed = s
on_pipe s closed = s
on_pipe s (got signals) = on_signals s signals

-- The body of the loop over the events.
pub handle_event : (listenfd pipefd : ℕ) → Server → Event → Server
handle_event listenfd pipefd s e =
    if e.fd == listenfd
    then addfd e.accepted s
    else if (e.fd == pipefd) && e.readable
    then on_pipe s e.received
    else s

pub handle_events : (listenfd pipefd : ℕ) → Server → List Event → Server
handle_events listenfd pipefd s [] = s
handle_events listenfd pipefd s (e ∷ events) =
    handle_events listenfd pipefd (handle_event listenfd pipefd s e) events

-- What epoll_wait reports: an error, an interruption, or events.
pub data Waited : Type 0 where
  failure interrupted : Waited
  ready : List Event → Waited

-- The loop of main, with what is left of the reports when it ends.
pub main_loop : (listenfd pipefd : ℕ) → Server → List Waited → Server × List Waited
main_loop listenfd pipefd s [] = (s, [])
main_loop listenfd pipefd s (failure ∷ rest) =
    if s.stop_server then (s, failure ∷ rest) else (s, rest)
main_loop listenfd pipefd s (interrupted ∷ rest) =
    let more = main_loop listenfd pipefd s rest in
    if s.stop_server then (s, interrupted ∷ rest) else more
main_loop listenfd pipefd s (ready events ∷ rest) =
    let more = main_loop listenfd pipefd (handle_events listenfd pipefd s events) rest in
    if s.stop_server then (s, ready events ∷ rest) else more
