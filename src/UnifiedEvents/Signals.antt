-- ===== src/UnifiedEvents/Signals.antt =====
-- When the loop of unified_event_source.cpp ends.
use mathlib.Core.Bool.{or_assoc, or-false, or-true}
use linux_learning.Prelude.{
  ℕ, ◌≡◌, refl, sym, ap, ◌∙◌, All, arith, Bool, true, false, ◌&&◌, ◌||◌, Bool-cases, inl, inr,
  Option, none, some, List, [], ◌∷◌, ◌==◌, if◌then◌else◌,
}
use linux_learning.UnifiedEvents.{
  Server, Event, Received, failed, closed, got, Waited, failure, interrupted, ready, sighup, sigint,
  sigterm, sigchld, addfd, on_signal, on_signals, on_pipe, handle_event, handle_events, main_loop,
}

-- SIGTERM or SIGINT is among the signals.
abbrev pub has_stop : List ℕ → Bool
has_stop [] = false
has_stop (sig ∷ rest) = (sig == sigterm || sig == sigint) || has_stop rest

abbrev pub asks_stop : Received → Bool
asks_stop failed = false
asks_stop closed = false
asks_stop (got signals) = has_stop signals

-- The event is such a signal in the pipe.
abbrev pub stop_of : (listenfd pipefd : ℕ) → Event → Bool
stop_of listenfd pipefd e =
    if e.fd == listenfd
    then false
    else if (e.fd == pipefd) && e.readable
    then asks_stop e.received
    else false

abbrev pub any_stop : (listenfd pipefd : ℕ) → List Event → Bool
any_stop listenfd pipefd [] = false
any_stop listenfd pipefd (e ∷ events) = stop_of listenfd pipefd e || any_stop listenfd pipefd events

-- The table after the sockets that were accepted.
abbrev pub with_socket : Option ℕ → List ℕ → List ℕ
with_socket none table = table
with_socket (some fd) table = fd ∷ table

abbrev pub connected : ℕ → List Event → List ℕ → List ℕ
connected listenfd [] table = table
connected listenfd (e ∷ events) table =
    connected listenfd events (if e.fd == listenfd then with_socket e.accepted table else table)

abbrev pub all_connected : ℕ → List (List Event) → List ℕ → List ℕ
all_connected listenfd [] table = table
all_connected listenfd (events ∷ rounds) table =
    all_connected listenfd rounds (connected listenfd events table)

-- The server, stopped if it was or is asked to.
abbrev asked : Bool → Server → Server
asked b s = record s { stop_server = s.stop_server || b }

asked-false : (s : Server) → s ≡ asked false s
asked-false s = ap (λ b. record s { stop_server = b }) (sym (or-false s.stop_server))

asked-asked : (a b : Bool) (s : Server) → asked b (asked a s) ≡ asked (a || b) s
asked-asked a b s = ap (λ b'. record s { stop_server = b' }) (or_assoc s.stop_server a b)

on_signal-asked :
    (s : Server) (sig : ℕ) → on_signal s sig ≡ asked (sig == sigterm || sig == sigint) s
unfolding on_signal
on_signal-asked s sig = elim (Bool-cases (sig == sigchld || sig == sighup)) [
  | inl child ↦
      let going : (sig == sigterm || sig == sigint) ≡ false = ground (arith, child) in
      rw (child, going) (asked-false s)
  | inr other ↦ rw other (elim (Bool-cases (sig == sigterm || sig == sigint)) [
    | inl stop ↦ rw stop (ap (λ b. record s { stop_server = b }) (sym (or-true s.stop_server)))
    | inr going ↦ rw going (asked-false s)
  ])
]

on_signals-asked :
    (signals : List ℕ) (s : Server) → on_signals s signals ≡ asked (has_stop signals) s
unfolding on_signals
on_signals-asked [] s = asked-false s
on_signals-asked (sig ∷ rest) s =
    let stop = sig == sigterm || sig == sigint in
    ap (λ t. on_signals t rest) (on_signal-asked s sig)
    ∙ on_signals-asked rest (asked stop s)
    ∙ asked-asked stop (has_stop rest) s

on_pipe-asked :
    (received : Received) (s : Server) → on_pipe s received ≡ asked (asks_stop received) s
unfolding on_pipe
on_pipe-asked failed s = asked-false s
on_pipe-asked closed s = asked-false s
on_pipe-asked (got signals) s = on_signals-asked signals s

addfd-with_socket :
    (accepted : Option ℕ) (s : Server)
    → addfd accepted s ≡ asked false (record s { added = with_socket accepted s.added })
unfolding addfd
addfd-with_socket none s = asked-false s
addfd-with_socket (some fd) s = asked-false (record s { added = fd ∷ s.added })

handle_event-asked :
    (listenfd pipefd : ℕ) (s : Server) (e : Event)
    → handle_event listenfd pipefd s e
      ≡ asked (stop_of listenfd pipefd e) (record s { added = connected listenfd (e ∷ []) s.added })
unfolding handle_event
handle_event-asked listenfd pipefd s e = elim (Bool-cases (e.fd == listenfd)) [
  | inl new ↦ rw new (addfd-with_socket e.accepted s)
  | inr client ↦ rw client (elim (Bool-cases (e.fd == pipefd && e.readable)) [
    | inl signal ↦ rw signal (on_pipe-asked e.received s)
    | inr other ↦ rw other (asked-false s)
  ])
]

handle_events-asked :
    (listenfd pipefd : ℕ) (events : List Event) (s : Server)
    → handle_events listenfd pipefd s events
      ≡ asked
          (any_stop listenfd pipefd events)
          (record s { added = connected listenfd events s.added })
unfolding handle_events
handle_events-asked listenfd pipefd [] s = asked-false s
handle_events-asked listenfd pipefd (e ∷ events) s =
    let stop = stop_of listenfd pipefd e in
    let s1 = asked stop (record s { added = connected listenfd (e ∷ []) s.added }) in
    ap (λ t. handle_events listenfd pipefd t events) (handle_event-asked listenfd pipefd s e)
    ∙ handle_events-asked listenfd pipefd events s1
    ∙ asked-asked stop (any_stop listenfd pipefd events)
        (record s { added = connected listenfd (e ∷ events) s.added })

-- Events, as epoll_wait reports them.
abbrev pub rounds : List (List Event) → List Waited → List Waited
rounds [] rest = rest
rounds (events ∷ before) rest = ready events ∷ rounds before rest

main_loop-stopped :
    (listenfd pipefd : ℕ) (table : List ℕ) (rest : List Waited)
    → main_loop listenfd pipefd (record { stop_server = true; added = table }) rest
      ≡ (record { stop_server = true; added = table }, rest)
unfolding main_loop
main_loop-stopped listenfd pipefd table [] = refl
main_loop-stopped listenfd pipefd table (failure ∷ rest) = refl
main_loop-stopped listenfd pipefd table (interrupted ∷ rest) = refl
main_loop-stopped listenfd pipefd table (ready events ∷ rest) = refl

-- A round of a server that goes on.
main_loop-round :
    (listenfd pipefd : ℕ) (events : List Event) (rest : List Waited) (s : Server)
    → s.stop_server ≡ false
    → main_loop listenfd pipefd s (ready events ∷ rest)
      ≡ main_loop listenfd pipefd
          (record {
            stop_server = any_stop listenfd pipefd events;
            added = connected listenfd events s.added;
          })
          rest
unfolding main_loop
main_loop-round listenfd pipefd events rest s going =
    let after = connected listenfd events s.added in
    let stop = any_stop listenfd pipefd events in
    ap
      (λ b.
        if b
        then (s, ready events ∷ rest)
        else main_loop listenfd pipefd (handle_events listenfd pipefd s events) rest)
      going
    ∙ ap (λ t. main_loop listenfd pipefd t rest) (handle_events-asked listenfd pipefd events s)
    ∙ ap (λ b. main_loop listenfd pipefd (record { stop_server = b || stop; added = after }) rest)
        going

-- Whatever comes in before the first SIGTERM or SIGINT, be it SIGCHLD or SIGHUP, the server goes on, and
-- has each accepted socket in its table; it handles the events that are reported together with the
-- signal, and ends its loop without a look at those that come later.
pub main_loop-stops :
    (listenfd pipefd : ℕ) (before : List (List Event)) (events : List Event) (rest : List Waited)
    (s : Server)
    → s.stop_server ≡ false
    → All (λ round. any_stop listenfd pipefd round ≡ false) before
    → any_stop listenfd pipefd events ≡ true
    → main_loop listenfd pipefd s (rounds before (ready events ∷ rest)) ≡ (
      record {
        stop_server = true;
        added = connected listenfd events (all_connected listenfd before s.added);
      },
      rest,
    )
main_loop-stops listenfd pipefd [] events rest s going quiet stop =
    main_loop-round listenfd pipefd events rest s going
    ∙ ap
        (λ b.
          main_loop listenfd pipefd
            (record { stop_server = b; added = connected listenfd events s.added }) rest)
        stop
    ∙ main_loop-stopped listenfd pipefd (connected listenfd events s.added) rest
main_loop-stops listenfd pipefd (round ∷ before) events rest s going quiet stop =
    let s1 : Server = record {
      stop_server = any_stop listenfd pipefd round;
      added = connected listenfd round s.added;
    } in
    main_loop-round listenfd pipefd round (rounds before (ready events ∷ rest)) s going
    ∙ main_loop-stops listenfd pipefd before events rest s1 quiet.0 quiet.1 stop
