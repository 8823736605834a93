-- ===== src/IdleConns.antt =====
-- HTTP_server_learning/close_inactive_connection.cpp: a server that closes the connections on which
-- nothing has come in for some time, over TimerList.
-- epoll_wait, accept, recv, new and time are the kernel's: what they report is in the events. Which
-- sockets are open is kept as the kernel does. The bytes that recv writes are only printed.
pub mod Spec
pub mod Clients
pub mod Expiry
pub mod Loop
mod Tests
use linux_learning.Prelude.{
  ℕ, zero, suc, ◌+◌, ◌*◌, Bool, true, false, not, ◌&&◌, Option, none, some, List, [], ◌∷◌, ltb,
  ◌==◌, if◌then◌else◌, update, Run, ok, fault, ◌>>=◌,
}
use linux_learning.Links.{Ptr, Node, Store, deref}
use linux_learning.TimerList.{
  Task, TimerList, Call, util_timer, add_timer, adjust_timer, del_timer, tick,
}

abbrev pub fd_limit : ℕ
fd_limit = 65535

abbrev pub timeslot : ℕ
timeslot = 5

-- The numbers of the two signals.
abbrev pub sigalrm : ℕ
sigalrm = 14

abbrev pub sigterm : ℕ
sigterm = 15

-- More rounds than there can be timers.
abbrev pub list_fuel : ℕ
list_fuel = suc fd_limit

-- `client_data` without the address and the buffer.
pub record ClientData : Type 0 where
  pub sockfd : ℕ
  pub timer : Option Ptr

-- The global variables and those of main; `sockets` says which connections are open, and `alarms` how
-- often alarm was called. A pointer into `users` is an index.
pub record Idle : Type 0 where
  pub users : ℕ → ClientData
  pub store : Store Task
  pub timer_list : TimerList
  pub sockets : ℕ → Bool
  pub timeout : Bool
  pub stop_server : Bool
  pub alarms : ℕ

-- What recv reports: EAGAIN, another error, an end, or bytes.
pub data Received : Type 0 where
  again failed closed : Received
  got : List ℕ → Received

-- An entry of `events`, with what accept, new, time and recv report when they are called for it.
pub record Event : Type 0 where
  pub fd : ℕ
  pub readable : Bool
  pub accepted : Option ℕ
  pub fresh : Ptr
  pub now : ℕ
  pub received : Received

-- `users[fd]`
pub client : Idle → ℕ → Run ClientData
client s fd = if ltb fd fd_limit then ok (s.users fd) else fault

-- The address of cb_func, for the timers.
abbrev pub cb_func_address : ℕ
cb_func_address = 1

-- `cb_func(&users[fd])`
pub cb_func : Idle → ℕ → Run Idle
cb_func s fd = do c ← client s fd; ok (record s { sockets = update s.sockets c.sockfd false })

-- The calls that tick makes. Only cb_func is ever called.
pub run_calls : Idle → List Call → Run Idle
run_calls s [] = ok s
run_calls s (call ∷ rest) = do
  s' ← if call.callback == cb_func_address then cb_func s call.argument else fault
  run_calls s' rest

-- `timer_handler` at time `cur`. The callbacks use nothing that tick changes.
pub timer_handler : ℕ → Idle → Run Idle
timer_handler cur s = do
  (calls, (m, list)) ← tick list_fuel cur s.store s.timer_list
  s' ← run_calls (record s { store = m; timer_list = list }) calls
  ok (record s' { alarms = s'.alarms + 1 })

-- The branch of the listening socket. A failed accept gives -1, which is no index.
pub add_client : Idle → Option ℕ → Ptr → ℕ → Run Idle
add_client s none fresh now = fault
add_client s (some connfd) fresh now = do
  _ ← client s connfd
  let task : Task = record {
    expire = now + 3 * timeslot;
    cb_func = some cb_func_address;
    user_data = connfd;
  }
  let users = update s.users connfd (record { sockfd = connfd; timer = some fresh })
  (m, list) ←
      add_timer list_fuel (update s.store fresh (some (util_timer task))) s.timer_list (some fresh)
  ok (record s {
    users = users;
    store = m;
    timer_list = list;
    sockets = update s.sockets connfd true;
  })

-- The loop over the signals.
pub on_signals : Idle → List ℕ → Idle
on_signals s [] = s
on_signals s (sig ∷ rest) =
    let s' : Idle =
      if sig == sigalrm
      then record s { timeout = true }
      else if sig == sigterm
      then record s { stop_server = true }
      else s in
    on_signals s' rest

-- The branch of the pipe.
pub on_pipe : Idle → Received → Idle
on_pipe s (got signals) = on_signals s signals
on_pipe s _ = s

-- A connection is closed and its timer deleted.
pub drop_client : Idle → ℕ → Option Ptr → Run Idle
drop_client s sockfd timer = do
  s' ← cb_func s sockfd
  (m, list) ← del_timer s'.store s'.timer_list timer
  ok (record s' { store = m; timer_list = list })

-- Data has come in, and the timer gets more time.
pub prolong : Idle → Option Ptr → ℕ → Run Idle
prolong s none now = ok s
prolong s (some timer) now = do
  n ← deref s.store (some timer)
  let later : Node Task = record n { item = record n.item { expire = now + 3 * timeslot } }
  (m, list) ← adjust_timer list_fuel (update s.store timer (some later)) s.timer_list (some timer)
  ok (record s { store = m; timer_list = list })

-- The branch of EPOLLIN on a connection.
pub on_client : Idle → ℕ → Received → ℕ → Run Idle
on_client s sockfd received now = do
  c ← client s sockfd
  elim received [
    | again ↦ ok s
    | failed ↦ drop_client s sockfd c.timer
    | closed ↦ drop_client s sockfd c.timer
    | got bytes ↦ prolong s c.timer now
  ]

-- The body of the loop over the events.
pub handle_event : (listenfd pipefd : ℕ) → Idle → Event → Run Idle
handle_event listenfd pipefd s e =
    if e.fd == listenfd
    then add_client s e.accepted e.fresh e.now
    else if (e.fd == pipefd) && e.readable
    then ok (on_pipe s e.received)
    else if e.readable
    then on_client s e.fd e.received e.now
    else ok s

pub handle_events : (listenfd pipefd : ℕ) → Idle → List Event → Run Idle
handle_events listenfd pipefd s [] = ok s
handle_events listenfd pipefd s (e ∷ events) = do
  s' ← handle_event listenfd pipefd s e
  handle_events listenfd pipefd s' events

-- The end of a round of the loop of main.
pub after_events : ℕ → Idle → Run Idle
after_events cur s =
    let handled : Run Idle = do s' ← timer_handler cur s; ok (record s' { timeout = false })
    in if s.timeout then handled else ok s

-- What epoll_wait reports: an error, or events and the time after they were handled.
pub data Waited : Type 0 where
  failure : Waited
  ready : List Event → ℕ → Waited

-- The loop of main.
pub main_loop : (listenfd pipefd : ℕ) → Idle → List Waited → Run Idle
main_loop listenfd pipefd s [] = ok s
main_loop listenfd pipefd s (failure ∷ rest) = ok s
main_loop listenfd pipefd s (ready events cur ∷ rest) =
    let go : Run Idle = do
      s' ← handle_events listenfd pipefd s events
      s'' ← after_events cur s'
      main_loop listenfd pipefd s'' rest
    in if s.stop_server then ok s else go
