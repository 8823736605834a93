-- ===== src/WebServer/Turns.antt =====
-- The main loop of http_web_server.cpp and its workers, in turns of any order.
use mathlib.Core.Path.{subst}
use linux_learning.Prelude.{
  ℕ, ◌≡◌, refl, sym, ap, ◌∙◌, Bool, true, false, Option, none, some, List, [], ◌∷◌, ◌++◌, All,
  bind-ext, bind_assoc, Run, ok, map, ◌>>=◌, Yields, yields, Halts, returns, Halts-bind,
  Halts-option, throws, faults,
}
use linux_learning.ThreadPool.{Pool, Request, dequeue, wait}
use linux_learning.HttpConn.Request.{FileSystem}
use linux_learning.HttpConn.Effects.{process-Moves}
use linux_learning.WebServer.{
  Site, Event, handle_event, serve, work, Turn, event, worker, turn, turns, Waited, failure,
  interrupted, ready, handle_events, main_loop,
}
use linux_learning.WebServer.Users.{IsSite, Queued, user-ok, put-IsSite}
use linux_learning.WebServer.Events.{Possible, learned, handle_event-IsSite}

abbrev Taken : (ℕ → Bool) → Pool × Option Request → Type 0
Taken known (p, none) = All (Queued known) p.workqueue
Taken known (p, some r) = Queued known r × All (Queued known) p.workqueue

dequeue-Taken :
    (known : ℕ → Bool) (p : Pool) → All (Queued known) p.workqueue → Taken known (dequeue p)
unfolding dequeue
dequeue-Taken known p v = by_queue p.workqueue v
  where
    by_queue :
        (q : List Request)
        → All (Queued known) q
        → Taken known (elim q [
          | [] ↦ (p, none)
          | request ∷ rest ↦ (record p { workqueue = rest }, some request)
        ])
    by_queue [] h = v
    by_queue (request ∷ rest) h = h

serve-IsSite :
    (fs : FileSystem) (s : Site) (known : ℕ → Bool) (r : Pool × Option Request)
    → IsSite s known
    → Taken known r
    → Halts (λ s'. IsSite s' known) (serve fs s r)
unfolding serve
serve-IsSite fs s known (p, none) v t =
    returns (record { own = v.own; inside = v.inside; count = v.count; queued = t })
serve-IsSite fs s known (p, some none) v t =
    returns (record { own = v.own; inside = v.inside; count = v.count; queued = t.1 })
serve-IsSite fs s known (p, some (some fd)) v t =
    let (k, lt) = t.0 in
    let without : IsSite (record s { pool = p }) known = record {
      own = v.own;
      inside = v.inside;
      count = v.count;
      queued = t.1;
    } in
    rw (user-ok s fd lt) (
      Halts-bind (process-Moves fs (s.users fd) s.server (v.inside fd k))
        λ x moves. returns (put-IsSite (record s { pool = p }) known fd x.0 x.1 without lt k moves))

work-IsSite :
    (fs : FileSystem) (s : Site) (known : ℕ → Bool)
    → IsSite s known
    → Halts (λ s'. IsSite s' known) (work fs s)
unfolding work
work-IsSite fs s known v = Halts-option (wait s.pool.sync) (returns v) λ sync.
    serve-IsSite fs s known _ v (dequeue-Taken known (record s.pool { sync = sync }) v.queued)

-- Each event is one that the kernel may report by then; the workers may take their turns at any time.
abbrev pub Plays : ℕ → Site → (ℕ → Bool) → List Turn → Type 0
Plays listenfd s known [] = Unit
Plays listenfd s known (event e ∷ rest) =
    Possible listenfd s known e
    × ((s' : Site)
        → handle_event listenfd s e ≡ ok s'
        → Plays listenfd s' (learned listenfd s known e) rest)
Plays listenfd s known (worker fs ∷ rest) =
    (s' : Site) → work fs s ≡ ok s' → Plays listenfd s' known rest

Halts-from_yields :
    {A : Type 0} (P : A → Type 0) (r : Run A) → Yields P r → Halts (λ a. P a × (r ≡ ok a)) r
Halts-from_yields P r (yields p) = returns (p, refl)

Halts-value :
    {A : Type 0} (P : A → Type 0) (r : Run A) → Halts P r → Halts (λ a. P a × (r ≡ ok a)) r
Halts-value P r (returns p) = returns (p, refl)
Halts-value P r throws = throws
Halts-value P r faults = faults

-- What is known when this turn came to its end.
abbrev after_turn : Run Site → (Site → ℕ → Bool) → (ℕ → Bool) → ℕ → Bool
after_turn (ok s) then_known known = then_known s
after_turn _ then_known known = known

-- The sockets that init was called for when the turns have been taken.
abbrev pub known_after : ℕ → Site → (ℕ → Bool) → List Turn → ℕ → Bool
known_after listenfd s known [] = known
known_after listenfd s known (event e ∷ rest) =
    after_turn (handle_event listenfd s e)
      (λ s'. known_after listenfd s' (learned listenfd s known e) rest) known
known_after listenfd s known (worker fs ∷ rest) =
    after_turn (work fs s) (λ s'. known_after listenfd s' known rest) known

-- In whatever order the main loop and the workers take their turns, each of the users that init was
-- called for, before or in these turns, is closed or on its own socket, m_user_count is the number of those
-- that are open, and only they are in the queue of the pool. No turn runs for ever, though it may end in a fault.
pub turns-IsSite :
    (listenfd : ℕ) (s : Site) (known : ℕ → Bool) (ts : List Turn)
    → IsSite s known
    → Plays listenfd s known ts
    → Halts (λ s'. IsSite s' (known_after listenfd s known ts)) (turns listenfd s ts)
unfolding turns turn
turns-IsSite listenfd s known [] v h = returns v
turns-IsSite listenfd s known (event e ∷ rest) v h =
    Halts-bind (Halts-from_yields _ _ (handle_event-IsSite listenfd s known e v h.0)) λ s' t.
      subst
        (λ r.
          Halts
            (λ s''.
              IsSite s'' (
                after_turn r (λ x. known_after listenfd x (learned listenfd s known e) rest) known))
            (turns listenfd s' rest))
        (sym t.1) (turns-IsSite listenfd s' (learned listenfd s known e) rest t.0 (h.1 s' t.1))
turns-IsSite listenfd s known (worker fs ∷ rest) v h =
    Halts-bind (Halts-value _ _ (work-IsSite fs s known v)) λ s' t.
      subst
        (λ r.
          Halts (λ s''. IsSite s'' (after_turn r (λ x. known_after listenfd x known rest) known))
            (turns listenfd s' rest))
        (sym t.1) (turns-IsSite listenfd s' known rest t.0 (h s' t.1))

-- The events that main_loop gets to see, and whether it is left.
abbrev pub reported : List Waited → List Turn
reported [] = []
reported (failure ∷ rest) = []
reported (interrupted ∷ rest) = reported rest
reported (ready events ∷ rest) = map event events ++ reported rest

abbrev pub is_left : List Waited → Bool
is_left [] = false
is_left (failure ∷ rest) = true
is_left (interrupted ∷ rest) = is_left rest
is_left (ready events ∷ rest) = is_left rest

handle_events-turns :
    (listenfd : ℕ) (s : Site) (events : List Event) (rest : List Turn)
    → turns listenfd s (map event events ++ rest)
      ≡ handle_events listenfd s events >>= λ s'. turns listenfd s' rest
unfolding turns turn handle_events
handle_events-turns listenfd s [] rest = refl
handle_events-turns listenfd s (e ∷ events) rest =
    bind-ext (handle_event listenfd s e) _ _ (λ s'. handle_events-turns listenfd s' events rest)
    ∙ sym (
        bind_assoc (handle_event listenfd s e) (λ s'. handle_events listenfd s' events)
          (λ s'. turns listenfd s' rest))

-- The loop of main takes the turns of the events that are reported before epoll_wait fails, in their
-- order, whatever calls of it are interrupted; it is left when one fails.
pub main_loop-turns :
    (listenfd : ℕ) (s : Site) (reports : List Waited)
    → main_loop listenfd s reports
      ≡ turns listenfd s (reported reports) >>= λ s'. ok (is_left reports, s')
unfolding main_loop turns
main_loop-turns listenfd s [] = refl
main_loop-turns listenfd s (failure ∷ rest) = refl
main_loop-turns listenfd s (interrupted ∷ rest) = main_loop-turns listenfd s rest
main_loop-turns listenfd s (ready events ∷ rest) =
    bind-ext (handle_events listenfd s events) _ _ (λ s'. main_loop-turns listenfd s' rest)
    ∙ sym (
        bind_assoc (handle_events listenfd s events) (λ s'. turns listenfd s' (reported rest))
          (λ s'. ok (is_left rest, s')))
    ∙ ap (λ r. r >>= λ s'. ok (is_left rest, s'))
        (sym (handle_events-turns listenfd s events (reported rest)))
