-- ===== src/Echo/Echoes.antt =====
-- What reflect_tcp_udp.cpp sends back.
use mathlib.Core.List.{append_assoc, append-nil}
use linux_learning.Prelude.{
  ℕ, ◌≡◌, refl, sym, ap, ◌∙◌, All, Bool, true, false, Bool-cases, inl, inr, Option, none, some,
  List, [], ◌∷◌, ◌++◌, ◌==◌, if◌then◌else◌, Yields, yields, Yields-bind, Yields-weaken,
}
use linux_learning.EpollModes.{Received, got, ended, again, failed}
use linux_learning.Echo.{
  Echo, Event, Waited, ready, addfd, on_datagram, tcp_loop, handle_event, handle_events, main_loop,
}

-- All bytes that were sent to the socket `fd`.
abbrev pub bytes_to : ℕ → List (ℕ × List ℕ) → List ℕ
bytes_to fd [] = []
bytes_to fd ((g, bytes) ∷ log) =
    let rest = bytes_to fd log in (if g == fd then bytes else []) ++ rest

-- The bytes that come in before recv has an error.
abbrev pub heard : List Received → List ℕ
heard [] = []
heard (got b bytes ∷ rest) = (b ∷ bytes) ++ heard rest
heard (ended ∷ rest) = heard rest
heard (again ∷ rest) = []
heard (failed ∷ rest) = []

-- A recv on a socket that does not block has an error in the end.
abbrev pub Ends : List Received → Type 0
Ends [] = ⊥
Ends (got b bytes ∷ rest) = Ends rest
Ends (ended ∷ rest) = Ends rest
Ends (again ∷ rest) = Unit
Ends (failed ∷ rest) = Unit

-- The bytes of the event that come in on the socket `fd`.
abbrev pub heard_on : (listenfd udpfd fd : ℕ) → Event → List ℕ
heard_on listenfd udpfd fd e =
    if e.fd == listenfd
    then []
    else if e.fd == udpfd
    then []
    else if e.readable
    then (if e.fd == fd then heard e.received else [])
    else []

abbrev pub all_heard : (listenfd udpfd fd : ℕ) → List Event → List ℕ
all_heard listenfd udpfd fd [] = []
all_heard listenfd udpfd fd (e ∷ events) =
    heard_on listenfd udpfd fd e ++ all_heard listenfd udpfd fd events

-- The bytes are sent to the socket, behind those before.
abbrev pub Echoes : ℕ → List ℕ → Echo → Echo → Type 0
Echoes fd bytes s s' = bytes_to fd s'.sent ≡ bytes_to fd s.sent ++ bytes

bytes_to-append :
    (fd : ℕ) (log : List (ℕ × List ℕ)) (g : ℕ) (bytes : List ℕ)
    → bytes_to fd (log ++ (g, bytes) ∷ []) ≡ bytes_to fd log ++ (if g == fd then bytes else [])
bytes_to-append fd [] g bytes = append-nil (if g == fd then bytes else [])
bytes_to-append fd ((h, first) ∷ log) g bytes =
    let here : List ℕ = if h == fd then first else [] in
    ap (λ l. here ++ l) (bytes_to-append fd log g bytes)
    ∙ sym (append_assoc here (bytes_to fd log) (if g == fd then bytes else []))

if_append :
    (b : Bool) (l m : List ℕ)
    → (if b then l else []) ++ (if b then m else []) ≡ (if b then l ++ m else [])
if_append true l m = refl
if_append false l m = refl

nothing_more : (b : Bool) (l : List ℕ) → l ≡ l ++ (if b then [] else [])
nothing_more true l = sym (append-nil l)
nothing_more false l = sym (append-nil l)

tcp_loop-Echoes :
    (fd g : ℕ) (received : List Received) (s : Echo)
    → Ends received
    → Yields (Echoes fd (if g == fd then heard received else []) s) (tcp_loop g s received)
unfolding tcp_loop
tcp_loop-Echoes fd g [] s h = absurd h
tcp_loop-Echoes fd g (got b bytes ∷ rest) s h =
    Yields-weaken (tcp_loop-Echoes fd g rest (record s { sent = s.sent ++ (g, b ∷ bytes) ∷ [] }) h)
      λ s' t.
        t
        ∙ ap (λ l. l ++ (if g == fd then heard rest else []))
            (bytes_to-append fd s.sent g (b ∷ bytes))
        ∙ append_assoc (bytes_to fd s.sent) (if g == fd then b ∷ bytes else [])
            (if g == fd then heard rest else [])
        ∙ ap (λ l. bytes_to fd s.sent ++ l) (if_append (g == fd) (b ∷ bytes) (heard rest))
tcp_loop-Echoes fd g (ended ∷ rest) s h =
    tcp_loop-Echoes fd g rest (record s { closed = s.closed ++ g ∷ [] }) h
tcp_loop-Echoes fd g (again ∷ rest) s h = yields (nothing_more (g == fd) (bytes_to fd s.sent))
tcp_loop-Echoes fd g (failed ∷ rest) s h = yields (nothing_more (g == fd) (bytes_to fd s.sent))

addfd-sent : (accepted : Option ℕ) (s : Echo) → s.sent ≡ (addfd accepted s).sent
unfolding addfd
addfd-sent none s = refl
addfd-sent (some fd) s = refl

on_datagram-sent :
    (datagram : Option (ℕ × List ℕ)) (s : Echo) → s.sent ≡ (on_datagram datagram s).sent
unfolding on_datagram
on_datagram-sent none s = refl
on_datagram-sent (some d) s = refl

-- What sends nothing echoes nothing.
silent : (fd : ℕ) (s s' : Echo) → s.sent ≡ s'.sent → Echoes fd [] s s'
silent fd s s' same = ap (bytes_to fd) (sym same) ∙ sym (append-nil (bytes_to fd s.sent))

handle_event-Echoes :
    (listenfd udpfd fd : ℕ) (e : Event) (s : Echo)
    → Ends e.received
    → Yields (Echoes fd (heard_on listenfd udpfd fd e) s) (handle_event listenfd udpfd s e)
unfolding handle_event
handle_event-Echoes listenfd udpfd fd e s h = elim (Bool-cases (e.fd == listenfd)) [
  | inl new ↦ rw new (yields (silent fd s (addfd e.accepted s) (addfd-sent e.accepted s)))
  | inr client ↦ rw client (elim (Bool-cases (e.fd == udpfd)) [
    | inl udp ↦
        rw udp (yields (silent fd s (on_datagram e.datagram s) (on_datagram-sent e.datagram s)))
    | inr tcp ↦ rw tcp (elim (Bool-cases e.readable) [
      | inl data_in ↦ rw data_in (tcp_loop-Echoes fd e.fd e.received s h)
      | inr idle ↦ rw idle (yields (silent fd s s refl))
    ])
  ])
]

handle_events-Echoes :
    (listenfd udpfd fd : ℕ) (events : List Event) (s : Echo)
    → All (λ e. Ends e.received) events
    → Yields
        (Echoes fd (all_heard listenfd udpfd fd events) s)
        (handle_events listenfd udpfd s events)
unfolding handle_events
handle_events-Echoes listenfd udpfd fd [] s h = yields (silent fd s s refl)
handle_events-Echoes listenfd udpfd fd (e ∷ events) s h =
    Yields-bind (handle_event-Echoes listenfd udpfd fd e s h.0) λ s' t.
      Yields-weaken (handle_events-Echoes listenfd udpfd fd events s' h.1) λ s'' w.
        w
        ∙ ap (λ l. l ++ all_heard listenfd udpfd fd events) t
        ∙ append_assoc (bytes_to fd s.sent) (heard_on listenfd udpfd fd e)
            (all_heard listenfd udpfd fd events)

-- Events, as epoll_wait reports them.
abbrev pub rounds : List (List Event) → List Waited
rounds [] = []
rounds (events ∷ rest) = ready events ∷ rounds rest

abbrev pub heard_in_all : (listenfd udpfd fd : ℕ) → List (List Event) → List ℕ
heard_in_all listenfd udpfd fd [] = []
heard_in_all listenfd udpfd fd (events ∷ rest) =
    all_heard listenfd udpfd fd events ++ heard_in_all listenfd udpfd fd rest

-- On sockets whose recv has an error in the end, the loop of main goes through all events, and what it hands
-- to send for a TCP connection are all bytes that came in on it, in their order, and no others. How many of
-- them send takes is not looked at, here or in the code.
pub main_loop-Echoes :
    (listenfd udpfd fd : ℕ) (reports : List (List Event)) (s : Echo)
    → All (λ events. All (λ e. Ends e.received) events) reports
    → Yields
        (Echoes fd (heard_in_all listenfd udpfd fd reports) s)
        (main_loop listenfd udpfd s (rounds reports))
unfolding main_loop
main_loop-Echoes listenfd udpfd fd [] s h = yields (silent fd s s refl)
main_loop-Echoes listenfd udpfd fd (events ∷ rest) s h =
    Yields-bind (handle_events-Echoes listenfd udpfd fd events s h.0) λ s' t.
      Yields-weaken (main_loop-Echoes listenfd udpfd fd rest s' h.1) λ s'' w.
        w
        ∙ ap (λ l. l ++ heard_in_all listenfd udpfd fd rest) t
        ∙ append_assoc (bytes_to fd s.sent) (all_heard listenfd udpfd fd events)
            (heard_in_all listenfd udpfd fd rest)
