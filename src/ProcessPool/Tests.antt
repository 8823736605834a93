-- ===== src/ProcessPool/Tests.antt =====
-- A run of the parent of processpool.cpp, and its theorems at concrete pools.
use linux_learning.Prelude.{
  ◌≡◌, refl, false, none, some, List, [], ◌∷◌, arith, ◌==◌, if◌then◌else◌, ok, Yields,
}
use linux_learning.ProcessPool.{
  Pool, Parent, Waited, sigchld, sigterm, connection, signals, ready, stopped, terminate,
  close_pipe, new_conn, dispatch, turn_loop, pid_of, run_parent, after_wait, handle_events,
  handle_signals, handle_signal, join_all, join_loop, join_one, all_gone, kill_loop,
}
use linux_learning.ProcessPool.Turns.{Dispatched, dispatch-Dispatched}
use linux_learning.ProcessPool.Stop.{Sound, Finished, run_parent-Finished}
use linux_learning.ProcessPool.Child.{
  Child, ChildWaited, noticed, notified, signalled, readable, child_ready, run_child,
}
use linux_learning.ProcessPool.Served.{served, all_acts, run_child-Acts}

-- Children 50 and 52 run, the one between them has ended.
abbrev pool : Pool
pool = record {
  process_number = 3;
  idx = none;
  stop = false;
  sub_process = λ i. if i == 0 then some 50 else if i == 2 then some 52 else none;
}

abbrev second : Parent
second = record { pool = pool; counter = 1; acts = [] }

second-Sound : Sound second
second-Sound = record { inside = omega arith; left = λ e. absurd cc }

-- Two connections, the end of both children, and a connection that comes too late.
abbrev life : List Waited
life =
    ready (connection ∷ connection ∷ signals (sigterm ∷ []) ∷ [])
    ∷ ready (signals (sigchld (50 ∷ 52 ∷ []) ∷ []) ∷ [])
    ∷ ready (connection ∷ [])
    ∷ []

acts_of_life :
    (p : Parent) × (run_parent life second ≡ ok (stopped, p))
    × (p.acts
        ≡ close_pipe 2 ∷ close_pipe 0 ∷ terminate 52 ∷ terminate 50 ∷ new_conn 0 ∷ new_conn 2 ∷ [])
unfolding run_parent after_wait handle_events handle_signals handle_signal join_all join_loop
    join_one all_gone kill_loop dispatch turn_loop pid_of
acts_of_life = (_, refl, refl)

dispatch-Dispatched_example : Yields (Dispatched second) (dispatch second)
dispatch-Dispatched_example = dispatch-Dispatched second (omega arith)

run_parent-Finished_example : Yields Finished (run_parent life second)
run_parent-Finished_example = run_parent-Finished life second second-Sound

abbrev idle : Child
idle = record { stop = false; acts = [] }

-- The request on socket 8 comes with the signal, the one on socket 9 behind it.
abbrev last_requests : List ChildWaited
last_requests =
    child_ready (notified noticed (some 8) ∷ [])
    ∷ child_ready (signalled (sigterm ∷ []) ∷ readable 8 ∷ [])
    ∷ child_ready (readable 9 ∷ [])
    ∷ []

run_child-Acts_example :
    Yields (λ r. r.1.acts ≡ all_acts (served last_requests)) (run_child last_requests idle)
run_child-Acts_example =
    run_child-Acts last_requests idle refl (omega arith, (tt, (omega arith, tt)))
