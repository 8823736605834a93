-- ===== src/ProcessPool/Served.antt =====
-- What a child of processpool.cpp does for its clients.
use mathlib.Core.List.{append_assoc, append-nil}
use linux_learning.Prelude.{
  ℕ, ◌<◌, ◌≡◌, refl, sym, ap, ◌∙◌, Bool, true, false, ◌||◌, none, some, List, [], ◌∷◌, ◌++◌, All,
  arith, ltb, if◌then◌else◌, Bool-cases, inl, inr, Run, ok, ◌>>=◌, Yields, yields, Yields-bind,
  Yields-weaken, Yields-if, Yields-from,
}
use linux_learning.ProcessPool.{
  Signal, sigchld, sigterm, sigint, other_signal, Ended, stopped, waiting,
}
use linux_learning.ProcessPool.Child.{
  Child, ChildAct, add_client, init_user, process_user, user_per_process, on_user, ChildEvent,
  ChildWaited, notified, signalled, readable, ignored, noticed, again, broken, closed,
  child_failure, child_interrupted, child_ready, accept, child_signal, child_signals, child_event,
  child_events, after_child_wait, run_child,
}

-- The signal ends the child.
abbrev pub ends : Signal → Bool
ends sigterm = true
ends sigint = true
ends _ = false

abbrev pub any_ends : List Signal → Bool
any_ends [] = false
any_ends (s ∷ l) = ends s || any_ends l

abbrev pub event_ends : ChildEvent → Bool
event_ends (signalled l) = any_ends l
event_ends _ = false

abbrev pub events_end : List ChildEvent → Bool
events_end [] = false
events_end (e ∷ events) = event_ends e || events_end events

-- The events of every epoll_wait, up to one that fails or has a signal that ends the child; the events
-- that come with such a signal count.
abbrev pub served : List ChildWaited → List ChildEvent
served [] = []
served (child_failure ∷ results) = []
served (child_interrupted ∷ results) = served results
served (child_ready events ∷ results) =
    if events_end events then events else events ++ served results

-- What is to be done for the clients at an event: a connection that is announced is accepted and given to
-- epoll and to its user, and the user of a socket with data processes it.
abbrev pub acts_of : ChildEvent → List ChildAct
acts_of (notified noticed (some fd)) = add_client fd ∷ init_user fd ∷ []
acts_of (notified again (some fd)) = add_client fd ∷ init_user fd ∷ []
acts_of (readable fd) = process_user fd ∷ []
acts_of _ = []

abbrev pub all_acts : List ChildEvent → List ChildAct
all_acts [] = []
all_acts (e ∷ events) = acts_of e ++ all_acts events

-- The sockets of the event are indices of `users`.
abbrev pub IsUser : ChildEvent → Type 0
IsUser (notified n (some fd)) = fd < user_per_process
IsUser (readable fd) = fd < user_per_process
IsUser _ = Unit

or_false : (a : Bool) → a || false ≡ a
or_false true = refl
or_false false = refl

or_assoc : (a b c : Bool) → (a || b) || c ≡ a || (b || c)
or_assoc true b c = refl
or_assoc false b c = refl

stop-signal : (s : Signal) (c : Child) → (child_signal s c).stop ≡ (c.stop || ends s)
unfolding child_signal
stop-signal (sigchld pids) c = sym (or_false c.stop)
stop-signal sigterm c = elim (Bool-cases c.stop) [ inl e ↦ rw e refl | inr e ↦ rw e refl ]
stop-signal sigint c = elim (Bool-cases c.stop) [ inl e ↦ rw e refl | inr e ↦ rw e refl ]
stop-signal other_signal c = sym (or_false c.stop)

stop-signals : (l : List Signal) (c : Child) → (child_signals l c).stop ≡ (c.stop || any_ends l)
unfolding child_signals
stop-signals [] c = sym (or_false c.stop)
stop-signals (s ∷ l) c =
    stop-signals l (child_signal s c)
    ∙ ap (λ b. b || any_ends l) (stop-signal s c)
    ∙ or_assoc c.stop (ends s) (any_ends l)

acts-signals : (l : List Signal) (c : Child) → (child_signals l c).acts ≡ c.acts
unfolding child_signals child_signal
acts-signals [] c = refl
acts-signals (sigchld pids ∷ l) c = acts-signals l c
acts-signals (sigterm ∷ l) c = acts-signals l (record c { stop = true })
acts-signals (sigint ∷ l) c = acts-signals l (record c { stop = true })
acts-signals (other_signal ∷ l) c = acts-signals l c

-- What events make of a child: whether it is told to stop, and what it did.
record Done (c : Child) (ends : Bool) (did : List ChildAct) (d : Child) : Type 0 where
  stop : d.stop ≡ (c.stop || ends)
  acts : d.acts ≡ c.acts ++ did

same-Done : (c : Child) → Done c false [] c
same-Done c = record { stop = sym (or_false c.stop); acts = sym (append-nil c.acts) }

on_user-Done :
    (fd : ℕ) (acts : List ChildAct) (c : Child)
    → fd < user_per_process
    → Yields (Done c false acts) (on_user fd acts c)
on_user-Done fd acts c lt =
    let inside : ltb fd user_per_process ≡ true = ground (arith, lt) in
    rw inside (yields (record { stop = sym (or_false c.stop); acts = refl }))

child_event-Done :
    (e : ChildEvent) (c : Child)
    → IsUser e
    → Yields (Done c (event_ends e) (acts_of e)) (child_event e c)
unfolding child_event accept
child_event-Done (notified noticed none) c h = yields (same-Done c)
child_event-Done (notified noticed (some fd)) c h = on_user-Done fd _ c h
child_event-Done (notified again none) c h = yields (same-Done c)
child_event-Done (notified again (some fd)) c h = on_user-Done fd _ c h
child_event-Done (notified broken none) c h = yields (same-Done c)
child_event-Done (notified broken (some fd)) c h = yields (same-Done c)
child_event-Done (notified closed none) c h = yields (same-Done c)
child_event-Done (notified closed (some fd)) c h = yields (same-Done c)
child_event-Done (signalled l) c h =
    yields (record { stop = stop-signals l c; acts = acts-signals l c ∙ sym (append-nil c.acts) })
child_event-Done (readable fd) c h = on_user-Done fd _ c h
child_event-Done ignored c h = yields (same-Done c)

child_events-Done :
    (events : List ChildEvent) (c : Child)
    → All IsUser events
    → Yields (Done c (events_end events) (all_acts events)) (child_events events c)
unfolding child_events
child_events-Done [] c h = yields (same-Done c)
child_events-Done (e ∷ events) c h = Yields-bind (child_event-Done e c h.0) λ d first.
    Yields-weaken (child_events-Done events d h.1) λ d' more. record {
      stop =
          more.stop
          ∙ ap (λ b. b || events_end events) first.stop
          ∙ or_assoc c.stop (event_ends e) (events_end events);
      acts =
          more.acts
          ∙ ap (λ l. l ++ all_acts events) first.acts
          ∙ append_assoc c.acts (acts_of e) (all_acts events);
    }

run_child-stopped :
    (results : List ChildWaited) (c : Child) → c.stop ≡ true → run_child results c ≡ ok (stopped, c)
unfolding run_child
run_child-stopped [] c e = ap (λ b. ok (if b then stopped else waiting, c)) e
run_child-stopped (w ∷ results) c e =
    ap (λ b. if b then ok (stopped, c) else after_child_wait (λ d. run_child results d) w c) e

All-split : (a b : List ChildEvent) → All IsUser (a ++ b) → All IsUser a × All IsUser b
All-split [] b h = (tt, h)
All-split (e ∷ a) b h = let (l, r) = All-split a b h.1 in ((h.0, l), r)

all_acts-append : (a b : List ChildEvent) → all_acts (a ++ b) ≡ all_acts a ++ all_acts b
all_acts-append [] b = refl
all_acts-append (e ∷ a) b =
    ap (λ l. acts_of e ++ l) (all_acts-append a b)
    ∙ sym (append_assoc (acts_of e) (all_acts a) (all_acts b))

-- A child that is not told to stop does, in their order, what the events up to the end of the first
-- epoll_wait that fails or has a signal that ends the child ask for, and nothing for those behind it: a
-- connection that is announced is accepted, given to epoll and to its user, and the user of a socket with
-- data processes it. The sockets are below USER_PER_PROCESS, which the code does not check.
pub run_child-Acts :
    (results : List ChildWaited) (c : Child)
    → c.stop ≡ false
    → All IsUser (served results)
    → Yields (λ r. r.1.acts ≡ c.acts ++ all_acts (served results)) (run_child results c)
unfolding run_child after_child_wait
run_child-Acts [] c e h = yields (sym (append-nil c.acts))
run_child-Acts (child_failure ∷ results) c e h = rw e (yields (sym (append-nil c.acts)))
run_child-Acts (child_interrupted ∷ results) c e h = going c e (run_child-Acts results c e h)
  where
    going :
        {w : Run (Ended × Child)} {P : Ended × Child → Type 0} (c : Child)
        → c.stop ≡ false
        → Yields P w
        → Yields P (if c.stop then ok (stopped, c) else w)
    going c e y = Yields-if c.stop (λ t. absurd (cc (e, t))) (λ _. y)
run_child-Acts (child_ready events ∷ results) c e h =
    Yields-if c.stop (λ t. absurd (cc (e, t)))
      λ _. by_end (events_end events) refl h (λ d stays users. run_child-Acts results d stays users)
  where
    by_end :
        (b : Bool)
        → events_end events ≡ b
        → All IsUser (if b then events else events ++ served results)
        → ((d : Child)
            → d.stop ≡ false
            → All IsUser (served results)
            → Yields (λ r. r.1.acts ≡ d.acts ++ all_acts (served results)) (run_child results d))
        → Yields
            (λ r. r.1.acts ≡ c.acts ++ all_acts (if b then events else events ++ served results))
            (child_events events c >>= λ d. run_child results d)
    by_end true last h next = Yields-bind (child_events-Done events c h) λ d done.
        Yields-from _
          (run_child-stopped results d
            (done.stop ∙ ap (λ b. c.stop || b) last ∙ ap (λ b. b || true) e))
          done.acts
    by_end false goes_on h next =
        let (now, later) = All-split events (served results) h in
        Yields-bind (child_events-Done events c now) λ d done.
          Yields-weaken
            (next d (done.stop ∙ ap (λ b. c.stop || b) goes_on ∙ ap (λ b. b || false) e) later)
            λ r did.
              did
              ∙ ap (λ l. l ++ all_acts (served results)) done.acts
              ∙ append_assoc c.acts (all_acts events) (all_acts (served results))
              ∙ ap (λ l. c.acts ++ l) (sym (all_acts-append events (served results)))
