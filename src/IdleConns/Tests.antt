-- ===== src/IdleConns/Tests.antt =====
-- A server of close_inactive_connection.cpp with one client.
use linux_learning.Prelude.{
  refl, true, false, none, some, [], ◌∷◌, arith, ◌==◌, if◌then◌else◌, Yields,
}
use linux_learning.Links.Chain.{Cells, node}
use linux_learning.TimerList.{Task}
use linux_learning.IdleConns.{Idle, Event, closed, timer_handler}
use linux_learning.IdleConns.Spec.{IsIdle}
use linux_learning.IdleConns.Clients.{new_timer}
use linux_learning.IdleConns.Expiry.{Expired, timer_handler-Expired}

-- The client 7 has come at the time 0, and its timer stands at the address 1.
abbrev idle : Idle
idle = record {
  users = λ fd. record { sockfd = fd; timer = some 1 };
  store = λ p. if p == 1 then some (node (new_timer 0 7) none none) else none;
  timer_list = record { head = some 1; tail = some 1 };
  sockets = λ fd. fd == 7;
  timeout = false;
  stop_server = false;
  alarms = 1;
}

abbrev cells : Cells Task
cells = (1, new_timer 0 7) ∷ []

idle-IsIdle : IsIdle 0 idle cells
idle-IsIdle = record {
  sorted = record {
    is = record { chain = (refl, refl, tt); head = refl; tail = refl };
    sorted = (omega arith, tt);
  };
  owns = (
    record { calls = refl; below = omega arith; timer = refl; socket = refl; recent = omega arith },
    tt,
  );
  is_open = λ fd. ground arith;
}

timer_handler-Expired_example : Yields (Expired 15 0 idle cells) (timer_handler 15 idle)
timer_handler-Expired_example = timer_handler-Expired 15 0 idle cells idle-IsIdle

abbrev comes : Event
comes = record { fd = 3; readable = true; accepted = some 8; fresh = 2; now = 4; received = closed }
