-- ===== src/ChatRoom/Table.antt =====
-- The table of users of chatroom_server.cpp, and the branches in which a user comes or leaves.
use linux_learning.Prelude.{
  ℕ, ◌+◌, ◌-◌, ◌≤◌, ◌<◌, ◌≡◌, refl, ap, ◌∙◌, true, false, Option, none, some, arith, ltb, leb, ◌==◌,
  if◌then◌else◌, update, update_away, by_index, ok, fault, Yields, yields, Yields-if,
}
use linux_learning.ChatRoom.{
  PollFd, Room, Outcome, user_limit, fd_limit, entry, owner, accept, leave,
}

-- The entry of a client: an index of `users` that is not the listening socket.
pub record IsClient (listenfd : ℕ) (p : PollFd) : Type 0 where
  pub fd : ℕ
  pub is : p.fd ≡ some fd
  pub below : fd < fd_limit
  pub other : (fd == listenfd) ≡ false

-- At most five users; the first entry is the listening socket's, the next ones are the users'.
pub record IsRoom (listenfd : ℕ) (r : Room) : Type 0 where
  pub few : r.user_counter ≤ user_limit
  pub listens : (r.fds 0).fd ≡ some listenfd
  pub silent : ((r.fds 0).revents.pollrdhup ≡ false) × ((r.fds 0).revents.pollout ≡ false)
  pub client : (i : ℕ) → 0 < i → i ≤ r.user_counter → IsClient listenfd (r.fds i)

pub entry-ok : (r : Room) (i : ℕ) → i ≤ user_limit → entry r i ≡ ok (r.fds i)
unfolding entry
entry-ok r i le = ground arith

pub owner-ok : (listenfd : ℕ) (p : PollFd) (v : IsClient listenfd p) → owner p ≡ ok v.fd
unfolding owner
owner-ok listenfd p v =
    ap (λ o. elim o [ none ↦ fault | some f ↦ if ltb f fd_limit then ok f else fault ]) v.is
    ∙ below v.fd v.below
  where
    below : (f : ℕ) → f < fd_limit → (if ltb f fd_limit then ok f else fault) ≡ ok f
    below f lt = ground arith

-- What accept may report: nothing, or a socket that is an index of `users` and not the listening one.
pub record Possible (listenfd : ℕ) (o : Outcome) : Type 0 where
  pub fresh : (f : ℕ) → o.accepted ≡ some f → (f < fd_limit) × ((f == listenfd) ≡ false)

-- One entry is another than before.
pub set-IsClient :
    (listenfd : ℕ) (r : Room) (j : ℕ) (p : PollFd) (n : ℕ)
    → IsClient listenfd p
    → ((i : ℕ) → 0 < i → i ≤ n → (i == j) ≡ false → IsClient listenfd (r.fds i))
    → (i : ℕ) → 0 < i
    → i ≤ n
    → IsClient listenfd (update r.fds j p i)
set-IsClient listenfd r j p n v others i =
    by_index r.fds j p (λ k q. 0 < k → k ≤ n → IsClient listenfd q) (λ _ _. v)
      (λ k away lt le. others k lt le away) i

-- The first entry stays when another one is changed.
first_same : (r : Room) (j : ℕ) (p : PollFd) → 0 < j → update r.fds j p 0 ≡ r.fds 0
first_same r j p lt = update_away r.fds j p 0 (ground arith)

pub leave-IsRoom :
    (listenfd : ℕ) (r : Room) (i : ℕ)
    → IsRoom listenfd r
    → 0 < i
    → i ≤ r.user_counter
    → Yields (λ s. IsRoom listenfd s × (s.user_counter + 1 ≡ r.user_counter)) (leave r i)
unfolding leave
leave-IsRoom listenfd r i v lt le =
    let n = r.user_counter in
    let last = v.client n (omega arith) (omega arith) in
    let same = first_same r i (r.fds n) lt in
    rw
      (
        entry-ok r i (omega (arith, v.few)),
        owner-ok listenfd (r.fds i) (v.client i lt le),
        entry-ok r n v.few,
        owner-ok listenfd (r.fds n) last,
      )
      (yields (
        record {
          few = omega (arith, v.few);
          listens = ap (λ (p : PollFd). p.fd) same ∙ v.listens;
          silent = (
            ap (λ (p : PollFd). p.revents.pollrdhup) same ∙ v.silent.0,
            ap (λ (p : PollFd). p.revents.pollout) same ∙ v.silent.1,
          );
          client =
              set-IsClient listenfd r i (r.fds n) (n - 1) last
                (λ j l h away. v.client j l (omega (arith, h)));
        },
        omega arith,
      ))

-- The first entry, when those of the users are changed.
pub listens_on :
    (listenfd : ℕ) (r : Room) (j : ℕ) (p : PollFd)
    → IsRoom listenfd r
    → 0 < j
    → ((update r.fds j p 0).fd ≡ some listenfd)
      × ((update r.fds j p 0).revents.pollrdhup ≡ false)
      × ((update r.fds j p 0).revents.pollout ≡ false)
listens_on listenfd r j p v lt =
    let same = first_same r j p lt in
    (
      ap (λ (q : PollFd). q.fd) same ∙ v.listens,
      ap (λ (q : PollFd). q.revents.pollrdhup) same ∙ v.silent.0,
      ap (λ (q : PollFd). q.revents.pollout) same ∙ v.silent.1,
    )

pub accept-IsRoom :
    (listenfd : ℕ) (r : Room) (o : Outcome)
    → IsRoom listenfd r
    → Possible listenfd o
    → Yields (λ s. IsRoom listenfd s × (s.user_counter ≤ r.user_counter + 1)) (accept r o.accepted)
unfolding accept
accept-IsRoom listenfd r o v h = by_report o.accepted refl
  where
    by_report :
        (a : Option ℕ)
        → o.accepted ≡ a
        → Yields (λ s. IsRoom listenfd s × (s.user_counter ≤ r.user_counter + 1)) (accept r a)
    by_report none e = yields (v, omega arith)
    by_report (some f) e =
        let n = r.user_counter + 1 in
        let new : PollFd = record {
          fd = some f;
          events = record {
            pollin = true;
            pollout = false;
            pollerr = true;
            pollrdhup = true;
            rest = false;
          };
          revents = record {
            pollin = false;
            pollout = false;
            pollerr = false;
            pollrdhup = false;
            rest = false;
          };
        } in
        let is_new : IsClient listenfd new = record {
          fd = f;
          is = refl;
          below = (h.fresh f e).0;
          other = (h.fresh f e).1;
        } in
        let (listens, no_hup, no_out) = listens_on listenfd r n new v (omega arith) in
        Yields-if (leb user_limit r.user_counter)
          (λ _. yields (
            record { few = v.few; listens = v.listens; silent = v.silent; client = v.client },
            omega arith,
          ))
          (λ room.
            let fits : n ≤ user_limit = ground arith in
            rw (owner-ok listenfd new is_new, entry-ok r n fits)
              (yields (
                record {
                  few = fits;
                  listens = listens;
                  silent = (no_hup, no_out);
                  client =
                      set-IsClient listenfd r n new n is_new
                        (λ i l le away. v.client i l (ground arith));
                },
                omega arith,
              )))
