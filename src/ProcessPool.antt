-- ===== src/ProcessPool.antt =====
-- HTTP_server_learning/processpool.cpp: a parent that hands connections to child processes in turn.
-- socketpair, fork, epoll_wait, recv, accept and waitpid are the kernel's: what they return is an
-- argument, and the calls that have an effect on others are logged, the last one first.
-- An assertion that fails ends the program, which the model has as an exception.
pub mod Turns
pub mod Children
pub mod Stop
pub mod Child
pub mod Served
pub mod Start
mod Tests
use linux_learning.Prelude.{
  ℕ, zero, suc, ◌+◌, ◌%◌, Bool, true, false, Option, none, some, List, [], ◌∷◌, ltb, leb, ◌==◌,
  if◌then◌else◌, is_some, update, Run, ok, thrown, fault, out_of_fuel, ◌>>=◌,
}

abbrev pub max_process_number : ℕ
max_process_number = 16

-- `m_sub_process[i].m_pid` and `m_idx` are `none` for -1.
pub record Pool : Type 0 where
  pub process_number : ℕ
  pub idx : Option ℕ
  pub stop : Bool
  pub sub_process : ℕ → Option ℕ

-- What fork returns: an error, a child's number in the parent, or 0 in the child.
pub data Forked : Type 0 where
  failed : Forked
  in_parent : ℕ → Forked
  in_child : Forked

-- The loop of the constructor from index `i` on, over what socketpair and fork return.
pub fork_loop : ℕ → Pool → List (Bool × Forked) → Run Pool
fork_loop i p [] = ok p
fork_loop i p ((false, forked) ∷ rest) = thrown
fork_loop i p ((true, failed) ∷ rest) = thrown
fork_loop i p ((true, in_parent pid) ∷ rest) =
    fork_loop (i + 1) (record p { sub_process = update p.sub_process i (some pid) }) rest
fork_loop i p ((true, in_child) ∷ rest) =
    ok (record p { idx = some i; sub_process = update p.sub_process i (some 0) })

-- The constructor, with a pair of results for each process.
pub processpool : List (Bool × Forked) → ℕ → Run Pool
processpool forks process_number =
    let p : Pool = record {
      process_number = process_number;
      idx = none;
      stop = false;
      sub_process = λ _. none;
    } in
    let made = fork_loop 0 p forks in
    if ltb 0 process_number
    then (if leb process_number max_process_number then made else thrown)
    else thrown

-- `create`, given what `m_instance` points to.
pub create : Option Pool → List (Bool × Forked) → ℕ → Run Pool
create (some p) forks process_number = ok p
create none forks process_number = processpool forks process_number

-- What the parent does to its children.
pub data Act : Type 0 where
  new_conn : ℕ → Act
  close_pipe : ℕ → Act
  terminate : ℕ → Act

-- The parent in `run_parent`, with its `sub_process_counter`.
pub record Parent : Type 0 where
  pub pool : Pool
  pub counter : ℕ
  pub acts : List Act

abbrev pub set_stop : Bool → Parent → Parent
set_stop b p = record p { pool = record p.pool { stop = b } }

-- `m_sub_process[i].m_pid`
pub pid_of : Pool → ℕ → Run (Option ℕ)
pid_of p i = if ltb i p.process_number then ok (p.sub_process i) else fault

-- The do-while loop: the first child in turn from `i` on that runs, or `start` again.
pub turn_loop : ℕ → Pool → ℕ → ℕ → Run ℕ
turn_loop zero p start i = out_of_fuel
turn_loop (suc k) p start i =
    let next = (i + 1) % p.process_number in
    let more = turn_loop k p start next in
    do pid ← pid_of p i; if is_some pid then ok i else if next == start then ok next else more

-- The answer to a new connection: whether the loop over the events goes on, and the new state.
pub dispatch : Parent → Run (Bool × Parent)
dispatch p = do
  i ← turn_loop p.pool.process_number p.pool p.counter p.counter
  pid ← pid_of p.pool i
  let sent : Parent = record p {
    counter = (i + 1) % p.pool.process_number;
    acts = new_conn i ∷ p.acts;
  }
  ok (if is_some pid then (true, sent) else (false, set_stop true p))

abbrev pub is_pid : ℕ → Option ℕ → Bool
is_pid pid none = false
is_pid pid (some q) = q == pid

-- The body of the loop that follows waitpid, for the child at `i`.
pub join_one : ℕ → ℕ → Parent → Parent
join_one i pid p =
    if is_pid pid (p.pool.sub_process i)
    then record p {
      pool = record p.pool { sub_process = update p.pool.sub_process i none };
      acts = close_pipe i ∷ p.acts;
    }
    else p

-- The loops over the children, from index `i` on with the rounds left.
pub join_loop : ℕ → ℕ → ℕ → Parent → Parent
join_loop zero i pid p = p
join_loop (suc n) i pid p = join_loop n (i + 1) pid (join_one i pid p)

pub all_gone : ℕ → ℕ → Pool → Bool
all_gone zero i p = true
all_gone (suc n) i p =
    let rest = all_gone n (i + 1) p in if is_some (p.sub_process i) then false else rest

pub kill_loop : ℕ → ℕ → Parent → Parent
kill_loop zero i p = p
kill_loop (suc n) i p = kill_loop n (i + 1) (elim (p.pool.sub_process i) [
  | none ↦ p
  | some pid ↦ record p { acts = terminate pid ∷ p.acts }
])

-- A signal, SIGCHLD with the children that waitpid then reports.
pub data Signal : Type 0 where
  sigchld : List ℕ → Signal
  sigterm sigint other_signal : Signal

pub join_all : List ℕ → Parent → Parent
join_all [] p = p
join_all (pid ∷ pids) p = join_all pids (join_loop p.pool.process_number 0 pid p)

pub handle_signal : Signal → Parent → Parent
handle_signal (sigchld pids) p =
    let joined = join_all pids p in
    set_stop (all_gone joined.pool.process_number 0 joined.pool) joined
handle_signal sigterm p = kill_loop p.pool.process_number 0 p
handle_signal sigint p = kill_loop p.pool.process_number 0 p
handle_signal other_signal p = p

pub handle_signals : List Signal → Parent → Parent
handle_signals [] p = p
handle_signals (s ∷ signals) p = handle_signals signals (handle_signal s p)

-- An event on the listening socket, on the signal pipe with what recv gave (nothing if it failed), or
-- one that is ignored.
pub data Event : Type 0 where
  connection : Event
  signals : List Signal → Event
  ignored : Event

-- The loop over the events of one epoll_wait.
pub handle_events : List Event → Parent → Run Parent
handle_events [] p = ok p
handle_events (connection ∷ events) p = dispatch p >>= λ (go_on, p').
    let rest = handle_events events p' in if go_on then rest else ok p'
handle_events (signals s ∷ events) p = handle_events events (handle_signals s p)
handle_events (ignored ∷ events) p = handle_events events p

-- What epoll_wait returns: an error, an interruption, or events.
pub data Waited : Type 0 where
  epoll_failure interrupted : Waited
  ready : List Event → Waited

-- Why the loop is no longer in its round: `m_stop` was set, epoll failed, or there is nothing yet.
pub data Ended : Type 0 where
  stopped failure waiting : Ended

-- What the loop does with the result of epoll_wait; `again` is its next round.
pub after_wait : (Parent → Run (Ended × Parent)) → Waited → Parent → Run (Ended × Parent)
after_wait again epoll_failure p = ok (failure, p)
after_wait again interrupted p = again p
after_wait again (ready events) p = handle_events events p >>= again

-- The loop of run_parent, over what epoll_wait returns.
pub run_parent : List Waited → Parent → Run (Ended × Parent)
run_parent [] p = ok (if p.pool.stop then stopped else waiting, p)
run_parent (w ∷ results) p =
    let round = after_wait (λ q. run_parent results q) w p in
    if p.pool.stop then ok (stopped, p) else round

-- The parent as run_parent starts its loop.
abbrev pub parent_of : Pool → Parent
parent_of p = record { pool = p; counter = 0; acts = [] }
