-- ===== src/Connect/Outcome.antt =====
-- What unblock_connect of nonblocking_connect.cpp leaves open.
use linux_learning.Prelude.{
  ℕ, ◌≡◌, refl, arith, Bool, true, false, Bool-cases, inl, inr, Option, none, some, ◌==◌,
  if◌then◌else◌, update,
}
use linux_learning.Connect.{
  Connected, at_once, in_progress, refused, Selected, timed_out, selected, SocketError, unknown,
  error, Answers, Descriptors, setnonblocking, succeed, give_up, after_error, after_select,
  after_connect, unblock_connect,
}

abbrev no_error : SocketError → Bool
no_error unknown = false
no_error (error e) = e == 0

abbrev ready : Selected → Bool
ready timed_out = false
ready (selected is_set) = is_set

-- Whether there is a connection: at once, or when the socket gets ready in time and without an error.
abbrev pub is_connected : Connected → Answers → Bool
is_connected at_once a = true
is_connected refused a = false
is_connected in_progress a = if ready a.select then no_error a.getsockopt else false

-- What becomes of the socket: a connected one gets its options back. It stays open when the connection is
-- refused at once, and is closed when it fails later.
abbrev pub left_open : Connected → Bool → Option Bool
left_open at_once connected = some false
left_open refused connected = some true
left_open in_progress connected = if connected then some false else none

pub record Outcome (a : Answers) (fds : Descriptors) (r : Option ℕ × Descriptors) : Type 0 where
  pub returned : r.0 ≡ (if is_connected a.connect a then some a.sockfd else none)
  pub socket : r.1 a.sockfd ≡ left_open a.connect (is_connected a.connect a)
  pub others : (fd : ℕ) → (fd == a.sockfd) ≡ false → r.1 fd ≡ fds fd

-- What the end of unblock_connect does, on the descriptors before socket.
settled :
    (s : ℕ) (fds : Descriptors) (v : Option Bool)
    → let fds' : Descriptors = update (update (update fds s (some false)) s (some true)) s v in
      (fds' s ≡ v) × ((fd : ℕ) → (fd == s) ≡ false → fds' fd ≡ fds fd)
settled s fds v = (ground arith, λ fd away. ground (arith, away))

after_error-Outcome :
    (s : ℕ) (e : SocketError) (fds : Descriptors)
    → let a : Answers = record {
      sockfd = s;
      connect = in_progress;
      select = selected true;
      getsockopt = e;
    } in
      Outcome a fds (unblock_connect a fds)
unfolding unblock_connect after_connect after_select after_error succeed give_up setnonblocking
after_error-Outcome s unknown fds =
    let (socket, others) = settled s fds none in
    record { returned = refl; socket = socket; others = others }
after_error-Outcome s (error e) fds = elim (Bool-cases (e == 0)) [
  | inl fine ↦ rw fine (
      let (socket, others) = settled s fds (some false) in
      record { returned = rw fine refl; socket = rw fine socket; others = others })
  | inr bad ↦ rw bad (
      let (socket, others) = settled s fds none in
      record { returned = rw bad refl; socket = rw bad socket; others = others })
]

branch-Outcome :
    (s : ℕ) (c : Connected) (sel : Selected) (e : SocketError) (fds : Descriptors)
    → let a : Answers = record { sockfd = s; connect = c; select = sel; getsockopt = e } in
      Outcome a fds (unblock_connect a fds)
unfolding unblock_connect after_connect after_select succeed give_up setnonblocking
branch-Outcome s at_once sel e fds =
    let (socket, others) = settled s fds (some false) in
    record { returned = refl; socket = socket; others = others }
branch-Outcome s refused sel e fds = record {
  returned = refl;
  socket = ground arith;
  others = λ fd away. ground (arith, away);
}
branch-Outcome s in_progress timed_out e fds =
    let (socket, others) = settled s fds none in
    record { returned = refl; socket = socket; others = others }
branch-Outcome s in_progress (selected false) e fds =
    let (socket, others) = settled s fds none in
    record { returned = refl; socket = socket; others = others }
branch-Outcome s in_progress (selected true) e fds = after_error-Outcome s e fds

-- unblock_connect returns its socket when it is connected, at once or in time and without an error, and
-- then with its old options; it returns -1 else. It closes a socket whose connection fails later, leaves
-- the one whose connection is refused at once open, and does nothing to other descriptors.
pub unblock_connect-Outcome :
    (a : Answers) (fds : Descriptors) → Outcome a fds (unblock_connect a fds)
unblock_connect-Outcome a fds = branch-Outcome a.sockfd a.connect a.select a.getsockopt fds
