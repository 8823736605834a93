-- ===== src/Echo/Tests.antt =====
-- A client of reflect_tcp_udp.cpp that sends two texts.
use linux_learning.Prelude.{true, none, [], ◌∷◌, Yields}
use linux_learning.EpollModes.{got, again}
use linux_learning.Echo.{Echo, Event, main_loop}
use linux_learning.Echo.Echoes.{Echoes, rounds, main_loop-Echoes}

abbrev fresh : Echo
fresh = record { sent = []; datagrams = []; closed = []; added = [] }

abbrev texts : Event
texts = record {
  fd = 7;
  readable = true;
  accepted = none;
  datagram = none;
  received = got b'h' (b'e' ∷ []) ∷ got b'y' [] ∷ again ∷ [];
}

main_loop-Echoes_example :
    Yields
      (Echoes 7 (b'h' ∷ b'e' ∷ b'y' ∷ []) fresh)
      (main_loop 3 4 fresh (rounds ((texts ∷ []) ∷ [])))
main_loop-Echoes_example = main_loop-Echoes 3 4 7 ((texts ∷ []) ∷ []) fresh ((tt, tt), tt)
