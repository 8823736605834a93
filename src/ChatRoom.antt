-- ===== src/ChatRoom.antt =====
-- HTTP_server_learning/chatroom_server.cpp: a server that sends what a client says to all the others.
-- poll, accept and recv are the kernel's: what they report is an argument, and what is sent or closed
-- is logged, the last one first. The messages that are printed are left out.
pub mod Table
pub mod Users
pub mod Rounds
pub mod Messages
mod Tests
use linux_learning.Prelude.{
  ℕ, zero, suc, ◌+◌, ◌-◌, Bool, true, false, ◌&&◌, ◌||◌, Option, none, some, List, [], ◌∷◌, ltb,
  leb, ◌==◌, if◌then◌else◌, update, Run, ok, fault, out_of_fuel, ◌>>=◌, take,
}
use linux_learning.CString.{c_string}

abbrev pub user_limit : ℕ
user_limit = 5

abbrev pub buffer_size : ℕ
buffer_size = 64

abbrev pub fd_limit : ℕ
fd_limit = 65535

-- `write_buf` is the user whose `buf` it points to, and `none` for NULL; `buf` has the bytes before the
-- zeros that memset left.
pub record ClientData : Type 0 where
  pub write_buf : Option ℕ
  pub buf : List ℕ

-- The bits of `events` and `revents`; `rest` stands for all the others.
pub record Bits : Type 0 where
  pub pollin : Bool
  pub pollout : Bool
  pub pollerr : Bool
  pub pollrdhup : Bool
  pub rest : Bool

abbrev pub no_bits : Bits
no_bits = record {
  pollin = false;
  pollout = false;
  pollerr = false;
  pollrdhup = false;
  rest = false;
}

-- `none` for -1.
pub record PollFd : Type 0 where
  pub fd : Option ℕ
  pub events : Bits
  pub revents : Bits

pub record Room : Type 0 where
  pub users : ℕ → ClientData
  pub fds : ℕ → PollFd
  pub user_counter : ℕ
  pub sent : List (ℕ × List ℕ)
  pub closed : List ℕ

-- What recv reports: a byte and some more, an end, EAGAIN, or another error.
pub data Received : Type 0 where
  got : ℕ → List ℕ → Received
  nothing again failed : Received

-- What the calls in a round of the loop over fds report.
pub record Outcome : Type 0 where
  pub accepted : Option ℕ
  pub received : Received

-- Before the loop.
pub new_room : ℕ → (ℕ → ClientData) → Room
new_room listenfd users = record {
  users = users;
  fds = λ i.
      if i == 0
      then record {
        fd = some listenfd;
        events = record no_bits { pollin = true; pollerr = true };
        revents = no_bits;
      }
      else record { fd = none; events = no_bits; revents = no_bits };
  user_counter = 0;
  sent = [];
  closed = [];
}

-- `fds[i]`
pub entry : Room → ℕ → Run PollFd
entry r i = if leb i user_limit then ok (r.fds i) else fault

-- The index that a use of `users[fds[i].fd]` has.
pub owner : PollFd → Run ℕ
owner p = elim p.fd [ none ↦ fault | some f ↦ if ltb f fd_limit then ok f else fault ]

abbrev pub is_fd : Option ℕ → ℕ → Bool
is_fd none f = false
is_fd (some e) f = e == f

-- `const char* info = "too many usrs\n"`
abbrev pub too_many : List ℕ
too_many = 116 ∷ 111 ∷ 111 ∷ 32 ∷ 109 ∷ 97 ∷ 110 ∷ 121 ∷ 32 ∷ 117 ∷ 115 ∷ 114 ∷ 115 ∷ 10 ∷ []

-- The branch of the listening socket.
pub accept : Room → Option ℕ → Run Room
accept r none = ok r
accept r (some connfd) =
    let n = r.user_counter + 1 in
    let new : PollFd = record {
      fd = some connfd;
      events = record no_bits { pollin = true; pollrdhup = true; pollerr = true };
      revents = no_bits;
    } in
    let enter : Run Room = do
      _ ← owner new
      _ ← entry r n
      ok (record r { user_counter = n; fds = update r.fds n new })
    in if leb user_limit r.user_counter
      then ok (record r { sent = (connfd, too_many) ∷ r.sent; closed = connfd ∷ r.closed })
      else enter

-- The user at `i` goes, and the last one takes its place.
pub leave : Room → ℕ → Run Room
leave r i = do
  p ← entry r i
  f ← owner p
  last ← entry r r.user_counter
  g ← owner last
  ok (record r {
    users = update r.users f (r.users g);
    fds = update r.fds i last;
    user_counter = r.user_counter - 1;
    closed = f ∷ r.closed;
  })

-- `events |= ~POLLIN; events |= POLLOUT;`
abbrev pub want_out : Bits → Bits
want_out b = record {
  pollin = b.pollin;
  pollout = true;
  pollerr = true;
  pollrdhup = true;
  rest = true;
}

-- `events |= ~POLLOUT; events |= POLLIN;`
abbrev pub want_in : Bits → Bits
want_in b = record {
  pollin = true;
  pollout = b.pollout;
  pollerr = true;
  pollrdhup = true;
  rest = true;
}

-- The body of the loop that tells the user at `j` of the text of `connfd`.
pub notify : Room → ℕ → ℕ → Run Room
notify r j connfd = do
  p ← entry r j
  let tell : Run Room = do
    f ← owner p
    ok (record r {
      fds = update r.fds j (record p { events = want_out p.events });
      users = update r.users f (record (r.users f) { write_buf = some connfd });
    })
  if is_fd p.fd connfd then ok r else tell

-- That loop, with `n` users left from `j` on.
pub broadcast : ℕ → ℕ → Room → ℕ → Run Room
broadcast zero j r connfd = ok r
broadcast (suc n) j r connfd = do r' ← notify r j connfd; broadcast n (j + 1) r' connfd

-- The branch of POLLIN. The first component is whether `i` is counted back.
pub on_pollin : Room → ℕ → Received → Run (Bool × Room)
on_pollin r i received = do
  p ← entry r i
  connfd ← owner p
  let text : List ℕ = elim received [ got b bytes ↦ take (buffer_size - 1) (b ∷ bytes) | _ ↦ [] ]
  let r' : Room = record r {
    users = update r.users connfd (record (r.users connfd) { buf = text });
  }
  let gone : Run (Bool × Room) = do s ← leave r' i; ok (true, s)
  let told : Run (Bool × Room) = do s ← broadcast r'.user_counter 1 r' connfd; ok (false, s)
  elim received [
    | got b bytes ↦ told
    | nothing ↦ ok (false, r')
    | again ↦ ok (false, r')
    | failed ↦ gone
  ]

-- The branch of POLLOUT.
pub on_pollout : Room → ℕ → Run Room
on_pollout r i = do
  p ← entry r i
  connfd ← owner p
  elim (r.users connfd).write_buf [
    | none ↦ ok r
    | some k ↦ ok (record r {
      sent = (connfd, c_string (r.users k).buf) ∷ r.sent;
      users = update r.users connfd (record (r.users connfd) { write_buf = none });
      fds = update r.fds i (record p { events = want_in p.events });
    })
  ]

-- The body of the loop over fds.
pub round : ℕ → Room → ℕ → Outcome → Run (Bool × Room)
round listenfd r i o = do
  p ← entry r i
  let stays : Run Room → Run (Bool × Room) = λ run. run >>= λ s. ok (false, s)
  let went : Run (Bool × Room) = do s ← leave r i; ok (true, s)
  if is_fd p.fd listenfd && p.revents.pollin
      then stays (accept r o.accepted)
      else if p.revents.pollerr
      then ok (false, r)
      else if p.revents.pollrdhup
      then went
      else if p.revents.pollin
      then on_pollin r i o.received
      else if p.revents.pollout
      then stays (on_pollout r i)
      else ok (false, r)

-- That loop from `i` on, with the reports for as many rounds as it may take.
pub rounds : ℕ → Room → ℕ → List Outcome → Run Room
rounds listenfd r i [] = if leb (r.user_counter + 1) i then ok r else out_of_fuel
rounds listenfd r i (o ∷ rest) =
    let next : Bool → Room → Run Room =
      λ back s. rounds listenfd s (if back then i else i + 1) rest in
    let go : Run Room = do (back, s) ← round listenfd r i o; next back s
    in if leb (r.user_counter + 1) i then ok r else go

-- What poll leaves in `revents`.
pub polled : Room → (ℕ → Bits) → Room
polled r revents = record r {
  fds = λ i. if leb i r.user_counter then record (r.fds i) { revents = revents i } else r.fds i;
}

-- The loop of main over what poll reports, up to an error.
pub serve : ℕ → Room → List (Option ((ℕ → Bits) × List Outcome)) → Run Room
serve listenfd r [] = ok r
serve listenfd r (none ∷ rest) = ok r
serve listenfd r (some (revents, outcomes) ∷ rest) = do
  s ← rounds listenfd (polled r revents) 0 outcomes
  serve listenfd s rest
