-- ===== src/Echo.antt =====
-- HTTP_server_learning/reflect_tcp_udp.cpp: a server that sends back what comes in over TCP and UDP.
-- What accept, recvfrom and recv report is in the events. What is given to send and sendto, and the sockets
-- that are closed or given to epoll, are logged; how much send takes is not looked at.
pub mod Echoes
mod Tests
use linux_learning.Prelude.{
  ℕ, zero, suc, ◌+◌, ◌-◌, Bool, true, false, Option, none, some, List, [], ◌∷◌, ◌++◌, ◌==◌,
  if◌then◌else◌, length, Run, ok, out_of_fuel, ◌>>=◌,
}
use linux_learning.EpollModes.{Received, got, ended, again, failed}

abbrev pub udp_buffer_size : ℕ
udp_buffer_size = 1024

-- The bytes that are sent to a socket, and those to an address over UDP.
pub record Echo : Type 0 where
  pub sent : List (ℕ × List ℕ)
  pub datagrams : List (ℕ × List ℕ)
  pub closed : List ℕ
  pub added : List ℕ

-- An entry of `events`; `datagram` is none when recvfrom reports no bytes.
pub record Event : Type 0 where
  pub fd : ℕ
  pub readable : Bool
  pub accepted : Option ℕ
  pub datagram : Option (ℕ × List ℕ)
  pub received : List Received

-- `addfd`; the descriptor -1 of a failed accept is refused by the kernel.
pub addfd : Option ℕ → Echo → Echo
addfd none s = s
addfd (some fd) s = record s { added = s.added ++ fd ∷ [] }

-- The first bytes of a buffer of zeros that begins with `bytes`.
pub filled : ℕ → List ℕ → List ℕ
filled zero bytes = []
filled (suc n) [] = 0 ∷ filled n []
filled (suc n) (c ∷ bytes) = c ∷ filled n bytes

-- The branch of the UDP socket, which sends the whole buffer.
pub on_datagram : Option (ℕ × List ℕ) → Echo → Echo
on_datagram none s = s
on_datagram (some (client_address, bytes)) s = record s {
  datagrams = s.datagrams ++ (client_address, filled (udp_buffer_size - 1) bytes) ∷ [];
}

-- The loop of the branch of EPOLLIN. At an end of the data it goes on.
pub tcp_loop : ℕ → Echo → List Received → Run Echo
tcp_loop fd s [] = out_of_fuel
tcp_loop fd s (got b bytes ∷ rest) =
    tcp_loop fd (record s { sent = s.sent ++ (fd, b ∷ bytes) ∷ [] }) rest
tcp_loop fd s (ended ∷ rest) = tcp_loop fd (record s { closed = s.closed ++ fd ∷ [] }) rest
tcp_loop fd s (again ∷ rest) = ok s
tcp_loop fd s (failed ∷ rest) = ok (record s { closed = s.closed ++ fd ∷ [] })

-- The body of the loop over the events.
pub handle_event : (listenfd udpfd : ℕ) → Echo → Event → Run Echo
handle_event listenfd udpfd s e =
    if e.fd == listenfd
    then ok (addfd e.accepted s)
    else if e.fd == udpfd
    then ok (on_datagram e.datagram s)
    else if e.readable
    then tcp_loop e.fd s e.received
    else ok s

pub handle_events : (listenfd udpfd : ℕ) → Echo → List Event → Run Echo
handle_events listenfd udpfd s [] = ok s
handle_events listenfd udpfd s (e ∷ events) = do
  s' ← handle_event listenfd udpfd s e
  handle_events listenfd udpfd s' events

-- What epoll_wait reports: an error, which ends the loop of main, or events.
pub data Waited : Type 0 where
  failure : Waited
  ready : List Event → Waited

pub main_loop : (listenfd udpfd : ℕ) → Echo → List Waited → Run Echo
main_loop listenfd udpfd s [] = ok s
main_loop listenfd udpfd s (failure ∷ rest) = ok s
main_loop listenfd udpfd s (ready events ∷ rest) = do
  s' ← handle_events listenfd udpfd s events
  main_loop listenfd udpfd s' rest
