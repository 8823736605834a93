-- ===== src/IdleConns/Loop.antt =====
-- The loop of main in close_inactive_connection.cpp.
use linux_learning.Prelude.{
  ℕ, ◌≤◌, ◌<◌, ◌≡◌, true, false, none, some, List, [], ◌∷◌, ltb, if◌then◌else◌, ◌==◌, ok,
}
use linux_learning.Links.Chain.{Cells}
use linux_learning.TimerList.{Task}
use linux_learning.IdleConns.{
  Idle, Event, Waited, failure, ready, fd_limit, handle_event, handle_events, after_events,
}
use linux_learning.IdleConns.Spec.{IsIdle}

-- At the time `now` there is a list of timers with which the server is as it should be.
abbrev pub Served : ℕ → Idle → Type 0
Served now s = (l : Cells Task) × IsIdle now s l

-- What may be reported after the time `was`: the clock does not run back, accept gives a new socket that
-- is an index of `users`, new gives an address that is not in use, and the other events are about
-- connections that are open.
pub record Possible (listenfd pipefd was : ℕ) (s : Idle) (e : Event) : Type 0 where
  pub clock : was ≤ e.now
  pub accepts :
      (e.fd == listenfd) ≡ true
      → (connfd : ℕ) × (e.accepted ≡ some connfd)
        × (connfd < fd_limit)
        × (s.sockets connfd ≡ false)
        × (s.store e.fresh ≡ none)
  pub known :
      (e.fd == listenfd) ≡ false
      → (e.fd == pipefd) ≡ false
      → e.readable ≡ true
      → s.sockets e.fd ≡ true

-- The time of the last event.
abbrev pub time_after : ℕ → List Event → ℕ
time_after was [] = was
time_after was (e ∷ events) = time_after e.now events

-- Each event may be reported by then.
abbrev pub Plays : (listenfd pipefd was : ℕ) → Idle → List Event → Type 0
Plays listenfd pipefd was s [] = Unit
Plays listenfd pipefd was s (e ∷ events) =
    Possible listenfd pipefd was s e
    × ((s' : Idle)
        → handle_event listenfd pipefd s e ≡ ok s'
        → Plays listenfd pipefd e.now s' events)

-- The same for all that epoll_wait reports.
abbrev pub PlaysOn : (listenfd pipefd was : ℕ) → Idle → List Waited → Type 0
PlaysOn listenfd pipefd was s [] = Unit
PlaysOn listenfd pipefd was s (failure ∷ rest) = Unit
PlaysOn listenfd pipefd was s (ready events cur ∷ rest) =
    Plays listenfd pipefd was s events
    × ((s' s'' : Idle)
        → handle_events listenfd pipefd s events ≡ ok s'
        → after_events cur s' ≡ ok s''
        → PlaysOn listenfd pipefd (time_after was events) s'' rest)

-- The time of the last event, over all reports up to one that epoll_wait fails with; a report that comes
-- when the server has stopped does not put it back.
abbrev pub latest : ℕ → List Waited → ℕ
latest was [] = was
latest was (failure ∷ rest) = was
latest was (ready events cur ∷ rest) =
    let t = latest (time_after was events) rest in if ltb t was then was else t
