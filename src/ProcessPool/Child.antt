-- ===== src/ProcessPool/Child.antt =====
-- run_child of processpool.cpp: a child that accepts the connections it is told of.
-- The user of type T is the caller's: its `init` and `process` are logged.
use linux_learning.Prelude.{
  ℕ, Bool, true, Option, none, some, List, [], ◌∷◌, ◌++◌, ltb, if◌then◌else◌, Run, ok, fault, ◌>>=◌,
}
use linux_learning.ProcessPool.{Signal, sigterm, sigint, Ended, stopped, failure, waiting}

-- What recv on the pipe reports: a notice, EAGAIN, another error, or a closed pipe.
pub data Notice : Type 0 where
  noticed again broken closed : Notice

-- An event on the pipe with what recv and then accept give, on the signal pipe with what recv gave, on a
-- client's socket, or one that is ignored.
pub data ChildEvent : Type 0 where
  notified : Notice → Option ℕ → ChildEvent
  signalled : List Signal → ChildEvent
  readable : ℕ → ChildEvent
  ignored : ChildEvent

-- What the child does for a client.
pub data ChildAct : Type 0 where
  add_client : ℕ → ChildAct
  init_user : ℕ → ChildAct
  process_user : ℕ → ChildAct

pub record Child : Type 0 where
  pub stop : Bool
  pub acts : List ChildAct

-- The size of `users`.
abbrev pub user_per_process : ℕ
user_per_process = 65536

-- What is done with `users[fd]`, and before it; the index is not looked at.
abbrev pub on_user : ℕ → List ChildAct → Child → Run Child
on_user fd acts c =
    if ltb fd user_per_process then ok (record c { acts = c.acts ++ acts }) else fault

-- `accept`, and what is done with the socket.
unfoldable pub accept : Option ℕ → Child → Run Child
accept none c = ok c
accept (some fd) c = on_user fd (add_client fd ∷ init_user fd ∷ []) c

-- The ended children of a child are waited for and nothing else.
unfoldable pub child_signal : Signal → Child → Child
child_signal sigterm c = record c { stop = true }
child_signal sigint c = record c { stop = true }
child_signal _ c = c

unfoldable pub child_signals : List Signal → Child → Child
child_signals [] c = c
child_signals (s ∷ l) c = child_signals l (child_signal s c)

unfoldable pub child_event : ChildEvent → Child → Run Child
child_event (notified noticed fd) c = accept fd c
child_event (notified again fd) c = accept fd c
child_event (notified broken fd) c = ok c
child_event (notified closed fd) c = ok c
child_event (signalled l) c = ok (child_signals l c)
child_event (readable fd) c = on_user fd (process_user fd ∷ []) c
child_event ignored c = ok c

unfoldable pub child_events : List ChildEvent → Child → Run Child
child_events [] c = ok c
child_events (e ∷ events) c = do d ← child_event e c; child_events events d

-- What epoll_wait returns.
pub data ChildWaited : Type 0 where
  child_failure child_interrupted : ChildWaited
  child_ready : List ChildEvent → ChildWaited

-- What the loop does with it; `next` is the next round.
unfoldable pub after_child_wait :
    (Child → Run (Ended × Child)) → ChildWaited → Child → Run (Ended × Child)
after_child_wait next child_failure c = ok (failure, c)
after_child_wait next child_interrupted c = next c
after_child_wait next (child_ready events) c = do d ← child_events events c; next d

-- The loop of run_child.
unfoldable pub run_child : List ChildWaited → Child → Run (Ended × Child)
run_child [] c = ok (if c.stop then stopped else waiting, c)
run_child (w ∷ results) c =
    let round = after_child_wait (λ d. run_child results d) w c in
    if c.stop then ok (stopped, c) else round
