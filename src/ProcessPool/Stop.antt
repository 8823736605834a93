-- ===== src/ProcessPool/Stop.antt =====
-- The parent of processpool.cpp: when it stops, and that its loop keeps its place.
use linux_learning.Prelude.{
  ◌<◌, ◌≡◌, refl, ap, Bool, true, false, List, [], ◌∷◌, arith, if◌then◌else◌, Run, ok, Yields,
  yields, Yields-bind, Yields-if,
}
use linux_learning.ProcessPool.{
  Pool, Parent, Signal, Event, Waited, Ended, sigchld, sigterm, sigint, other_signal, connection,
  signals, ignored, epoll_failure, interrupted, ready, stopped, waiting, handle_signal,
  handle_signals, handle_events, after_wait, run_parent,
}
use linux_learning.ProcessPool.Turns.{
  AllGone, Dispatched, to_child, to_none, dispatch-Dispatched, mod_inside,
}
use linux_learning.ProcessPool.Children.{join_all-SameTurns, kill_loop-keeps, sigchld_lem}

-- The counter is the index of a child, and a parent that is told to stop has no child left.
pub record Sound (p : Parent) : Type 0 where
  pub inside : p.counter < p.pool.process_number
  pub left : p.pool.stop ≡ true → AllGone p.pool

AllGone-kill : (p q : Parent) → q.pool ≡ p.pool → q.counter ≡ p.counter → Sound p → Sound q
AllGone-kill p q pool counter v = record {
  inside = omega (arith, counter, ap (λ (x : Pool). x.process_number) pool, v.inside);
  left = rw pool v.left;
}

handle_signal-Sound : (s : Signal) (p : Parent) → Sound p → Sound (handle_signal s p)
handle_signal-Sound (sigchld pids) p v =
    let same = join_all-SameTurns pids p in
    record {
      inside = unfold handle_signal in omega (arith, same.counter, same.process_number, v.inside);
      left = (sigchld_lem pids p).0.0;
    }
handle_signal-Sound sigterm p v =
    unfold handle_signal in
    (let (pool, counter) = kill_loop-keeps p.pool.process_number 0 p in
      AllGone-kill p _ pool counter v)
handle_signal-Sound sigint p v =
    unfold handle_signal in
    (let (pool, counter) = kill_loop-keeps p.pool.process_number 0 p in
      AllGone-kill p _ pool counter v)
handle_signal-Sound other_signal p v = unfold handle_signal in v

handle_signals-Sound : (l : List Signal) (p : Parent) → Sound p → Sound (handle_signals l p)
unfolding handle_signals
handle_signals-Sound [] p v = v
handle_signals-Sound (s ∷ l) p v =
    handle_signals-Sound l (handle_signal s p) (handle_signal-Sound s p v)

after_dispatch-Sound :
    (p : Parent) (again : Parent → Run Parent) (r : Bool × Parent)
    → Sound p
    → Dispatched p r
    → ((q : Parent) → Sound q → Yields Sound (again q))
    → Yields Sound (if r.0 then again r.1 else ok r.1)
after_dispatch-Sound p again r v (to_child i lt chosen) more =
    more _ (record { inside = mod_inside i p.pool.process_number lt; left = v.left })
after_dispatch-Sound p again r v (to_none gone) more =
    yields (record { inside = v.inside; left = λ _. gone })

handle_events-Sound :
    (events : List Event) (p : Parent) → Sound p → Yields Sound (handle_events events p)
unfolding handle_events
handle_events-Sound [] p v = yields v
handle_events-Sound (connection ∷ events) p v = Yields-bind (dispatch-Dispatched p v.inside) λ r d.
    after_dispatch-Sound p (λ q. handle_events events q) r v d
      (λ q w. handle_events-Sound events q w)
handle_events-Sound (signals l ∷ events) p v =
    handle_events-Sound events _ (handle_signals-Sound l p v)
handle_events-Sound (ignored ∷ events) p v = handle_events-Sound events p v

-- How the loop of run_parent ends: it says that it was stopped only if no child runs.
pub record Finished (r : Ended × Parent) : Type 0 where
  pub sound : Sound r.1
  pub gone : r.0 ≡ stopped → AllGone r.1.pool

after_wait-Finished :
    (again : Parent → Run (Ended × Parent)) (w : Waited) (p : Parent)
    → Sound p
    → ((q : Parent) → Sound q → Yields Finished (again q))
    → Yields Finished (after_wait again w p)
unfolding after_wait
after_wait-Finished again epoll_failure p v more =
    yields (record { sound = v; gone = λ e. absurd cc })
after_wait-Finished again interrupted p v more = more p v
after_wait-Finished again (ready events) p v more =
    Yields-bind (handle_events-Sound events p v) more

was_stopped : (stop : Bool) → (if stop then stopped else waiting) ≡ stopped → stop ≡ true
was_stopped true e = refl
was_stopped false e = absurd cc

-- Whatever epoll_wait, recv and waitpid report, a parent whose counter is the index of a child, and that
-- is not told to stop while a child runs, goes through its loop without a fault, keeps to that, and
-- leaves the loop on a stop only when none of its children runs any more.
pub run_parent-Finished :
    (results : List Waited) (p : Parent) → Sound p → Yields Finished (run_parent results p)
unfolding run_parent
run_parent-Finished [] p v =
    yields (record { sound = v; gone = λ e. v.left (was_stopped p.pool.stop e) })
run_parent-Finished (w ∷ results) p v =
    Yields-if p.pool.stop (λ stop. yields (record { sound = v; gone = λ _. v.left stop }))
      (λ going.
        after_wait-Finished (λ q. run_parent results q) w p v
          (λ q u. run_parent-Finished results q u))
