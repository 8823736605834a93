-- ===== src/UnifiedEvents/Tests.antt =====
-- Signals for a server of unified_event_source.cpp.
use linux_learning.Prelude.{ℕ, ◌≡◌, refl, true, false, none, some, List, [], ◌∷◌}
use linux_learning.UnifiedEvents.{
  handle_events, handle_event, on_pipe, on_signals, on_signal, addfd, Server, Event, got, closed,
  ready, sigterm, sigchld, main_loop,
}
use linux_learning.UnifiedEvents.Signals.{rounds}

abbrev fresh : Server
fresh = record { stop_server = false; added = 5 ∷ 3 ∷ [] }

abbrev comes : ℕ → Event
comes fd = record { fd = 3; readable = true; accepted = some fd; received = closed }

abbrev signalled : List ℕ → Event
signalled signals = record { fd = 5; readable = true; accepted = none; received = got signals }

-- The client 8 comes after SIGCHLD, and the client 9 together with SIGTERM; the client 10 is too late.
ends_on_sigterm :
    main_loop 3 5 fresh (
      rounds
        ((signalled (sigchld ∷ []) ∷ comes 8 ∷ []) ∷ [])
        (ready (signalled (sigterm ∷ []) ∷ comes 9 ∷ []) ∷ ready (comes 10 ∷ []) ∷ []))
    ≡ (record { stop_server = true; added = 9 ∷ 8 ∷ 5 ∷ 3 ∷ [] }, ready (comes 10 ∷ []) ∷ [])
unfolding main_loop handle_events handle_event on_pipe on_signals on_signal addfd
ends_on_sigterm = refl
