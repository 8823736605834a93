-- ===== src/ChatRoom/Rounds.antt =====
-- The loop over fds of chatroom_server.cpp.
use mathlib.Core.Path.{subst}
use linux_learning.Prelude.{
  ℕ, suc, ◌+◌, ◌≤◌, ◌<◌, ◌≡◌, refl, sym, ap, ◌∙◌, Bool, true, false, Option, none, some, List, [],
  ◌∷◌, arith, leb, if◌then◌else◌, length, All, Bool-cases, inl, inr, ok, Yields, yields,
  Yields-bind, Yields-if, Yields-weaken,
}
use linux_learning.ChatRoom.{
  Bits, PollFd, Room, Outcome, user_limit, is_fd, round, rounds, polled, serve,
}
use linux_learning.ChatRoom.Table.{
  IsClient, IsRoom, Possible, entry-ok, leave-IsRoom, accept-IsRoom,
}
use linux_learning.ChatRoom.Users.{After, on_pollin-IsRoom, on_pollout-IsRoom}

is_fd-same : (p : PollFd) (f : ℕ) → p.fd ≡ some f → is_fd p.fd f ≡ true
is_fd-same p f e = ap (λ o. is_fd o f) e ∙ ground arith

is_fd-other : (listenfd : ℕ) (p : PollFd) → IsClient listenfd p → is_fd p.fd listenfd ≡ false
is_fd-other listenfd p v = ap (λ o. is_fd o listenfd) v.is ∙ v.other

-- The round of the listening socket.
first_round-IsRoom :
    (listenfd : ℕ) (r : Room) (o : Outcome)
    → IsRoom listenfd r
    → Possible listenfd o
    → Yields
        (λ x. (x.0 ≡ false) × IsRoom listenfd x.1 × (x.1.user_counter ≤ r.user_counter + 1))
        (round listenfd r 0 o)
unfolding round
first_round-IsRoom listenfd r o v h =
    rw (entry-ok r 0 (omega arith), is_fd-same (r.fds 0) listenfd v.listens)
      (elim (Bool-cases (r.fds 0).revents.pollin) [
        | inl here ↦
            rw here (Yields-bind (accept-IsRoom listenfd r o v h) λ s t. yields (refl, t.0, t.1))
        | inr off ↦
            rw (off, v.silent.0, v.silent.1)
              (Yields-if (r.fds 0).revents.pollerr (λ _. yields (refl, v, omega arith))
                (λ _. yields (refl, v, omega arith)))
      ])

-- The round of a user.
round-IsRoom :
    (listenfd : ℕ) (r : Room) (i : ℕ) (o : Outcome)
    → IsRoom listenfd r
    → 0 < i
    → i ≤ r.user_counter
    → Yields (After listenfd r) (round listenfd r i o)
unfolding round
round-IsRoom listenfd r i o v lt le =
    rw (entry-ok r i (omega (arith, v.few)), is_fd-other listenfd (r.fds i) (v.client i lt le))
      (Yields-if (r.fds i).revents.pollerr (λ _. yields (v, refl))
        λ _.
          Yields-if (r.fds i).revents.pollrdhup
            (λ _. Yields-bind (leave-IsRoom listenfd r i v lt le) λ s t. yields t)
            λ _.
              Yields-if (r.fds i).revents.pollin
                (λ _. on_pollin-IsRoom listenfd r i o.received v lt le)
                λ _.
                  Yields-if (r.fds i).revents.pollout
                    (λ _. Yields-bind (on_pollout-IsRoom listenfd r i v lt le) λ s t. yields t)
                    (λ _. yields (v, refl)))

rounds-end :
    (listenfd : ℕ) (r : Room) (i : ℕ) (outcomes : List Outcome)
    → r.user_counter < i
    → rounds listenfd r i outcomes ≡ ok r
unfolding rounds
rounds-end listenfd r i [] lt = ground arith
rounds-end listenfd r i (o ∷ rest) lt = ground arith

-- The round after one at `i`.
next_rounds :
    (listenfd : ℕ) (r : Room) (i : ℕ) (rest : List Outcome)
    → ((k : ℕ) (s : Room)
        → IsRoom listenfd s
        → 0 < k
        → s.user_counter + 1 ≤ k + length rest
        → Yields (IsRoom listenfd) (rounds listenfd s k rest))
    → 0 < i
    → r.user_counter + 1 ≤ i + suc (length rest)
    → (back : Bool) (s : Room) → After listenfd r (back, s)
    → Yields (IsRoom listenfd) (rounds listenfd s (if back then i else i + 1) rest)
next_rounds listenfd r i rest go lt enough true s v = go i s v.0 lt (omega (arith, v.1))
next_rounds listenfd r i rest go lt enough false s v =
    go (i + 1) s v.0 (omega arith) (omega (arith, v.1))

-- The rounds of the users from `i` on.
user_rounds-IsRoom :
    (listenfd : ℕ) (outcomes : List Outcome) (i : ℕ) (r : Room)
    → IsRoom listenfd r
    → 0 < i
    → r.user_counter + 1 ≤ i + length outcomes
    → Yields (IsRoom listenfd) (rounds listenfd r i outcomes)
unfolding rounds
user_rounds-IsRoom listenfd [] i r v lt enough =
    Yields-if (leb (r.user_counter + 1) i) (λ _. yields v) (λ more. absurd (ground arith))
user_rounds-IsRoom listenfd (o ∷ rest) i r v lt enough =
    Yields-if (leb (r.user_counter + 1) i) (λ _. yields v)
      λ more. Yields-bind (round-IsRoom listenfd r i o v lt (ground arith)) λ x t.
        next_rounds listenfd r i rest (λ k s. user_rounds-IsRoom listenfd rest k s) lt enough x.0
          x.1 t

-- A room whose entries may have any `revents`, and `revents` in which the listening socket has neither
-- POLLRDHUP nor POLLOUT.
pub record IsTable (listenfd : ℕ) (r : Room) : Type 0 where
  pub few : r.user_counter ≤ user_limit
  pub listens : (r.fds 0).fd ≡ some listenfd
  pub client : (i : ℕ) → 0 < i → i ≤ r.user_counter → IsClient listenfd (r.fds i)

abbrev pub Silent : (ℕ → Bits) → Type 0
Silent revents = ((revents 0).pollrdhup ≡ false) × ((revents 0).pollout ≡ false)

polled-at :
    (r : Room) (revents : ℕ → Bits) (i : ℕ)
    → i ≤ r.user_counter
    → (polled r revents).fds i ≡ record (r.fds i) { revents = revents i }
unfolding polled
polled-at r revents i le = let seen : leb i r.user_counter ≡ true = ground arith in rw seen refl

polled-IsRoom :
    (listenfd : ℕ) (r : Room) (revents : ℕ → Bits)
    → IsTable listenfd r
    → Silent revents
    → IsRoom listenfd (polled r revents)
unfolding polled
polled-IsRoom listenfd r revents v h =
    let first = polled-at r revents 0 (omega arith) in
    record {
      few = v.few;
      listens = ap (λ (p : PollFd). p.fd) first ∙ v.listens;
      silent = (
        ap (λ (p : PollFd). p.revents.pollrdhup) first ∙ h.0,
        ap (λ (p : PollFd). p.revents.pollout) first ∙ h.1,
      );
      client = λ i lt le.
          let c = v.client i lt le in
          subst (IsClient listenfd) (sym (polled-at r revents i le))
            (record { fd = c.fd; is = c.is; below = c.below; other = c.other });
    }

-- What poll and accept may report: the listening socket has neither POLLRDHUP nor POLLOUT and is no
-- user's, and for each entry of `fds` and one more there is a round.
abbrev pub Reports : ℕ → List (Option ((ℕ → Bits) × List Outcome)) → Type 0
Reports listenfd [] = Unit
Reports listenfd (none ∷ rest) = Unit
Reports listenfd (some (revents, outcomes) ∷ rest) =
    Silent revents
    × All (Possible listenfd) outcomes
    × (user_limit + 2 ≤ length outcomes)
    × Reports listenfd rest

-- All the rounds.
rounds-IsTable :
    (listenfd : ℕ) (r : Room) (outcomes : List Outcome)
    → IsRoom listenfd r
    → All (Possible listenfd) outcomes
    → user_limit + 2 ≤ length outcomes
    → Yields (IsTable listenfd) (rounds listenfd r 0 outcomes)
unfolding rounds
rounds-IsTable listenfd r [] v possible enough = absurd (omega arith)
rounds-IsTable listenfd r (o ∷ rest) v possible enough =
    Yields-if (leb (r.user_counter + 1) 0) (λ none_left. absurd (ground arith))
      λ _. Yields-bind (first_round-IsRoom listenfd r o v possible.0) λ x t. rw (t.0) (
        Yields-weaken
          (user_rounds-IsRoom listenfd rest 1 x.1 t.1 (omega arith) (omega (arith, t.1.few)))
          λ s w. record { few = w.few; listens = w.listens; client = w.client })

-- As long as each socket that accept gives is below FD_LIMIT, which the code does not check, and not the
-- listening one, whatever poll reports of the users and recv gives: the loop of main never uses an index
-- outside of `fds`, or a socket as an index outside of `users`, and the rounds of each poll come to an end.
-- There are at most five users, each with a socket that is not the listening one, and the first entry of
-- `fds` stays the listening socket's.
pub serve-IsTable :
    (listenfd : ℕ) (r : Room) (reports : List (Option ((ℕ → Bits) × List Outcome)))
    → IsTable listenfd r
    → Reports listenfd reports
    → Yields (IsTable listenfd) (serve listenfd r reports)
unfolding serve
serve-IsTable listenfd r [] v h = yields v
serve-IsTable listenfd r (none ∷ rest) v h = yields v
serve-IsTable listenfd r (some (revents, outcomes) ∷ rest) v (silent, possible, enough, more) =
    Yields-bind
      (rounds-IsTable listenfd (polled r revents) outcomes
        (polled-IsRoom listenfd r revents v silent) possible enough)
      λ s w. serve-IsTable listenfd s rest w more
