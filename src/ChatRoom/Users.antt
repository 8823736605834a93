-- ===== src/ChatRoom/Users.antt =====
-- What the branches of chatroom_server.cpp's loop over fds make of the table of users.
use linux_learning.Prelude.{
  ℕ, zero, suc, ◌+◌, ◌≤◌, ◌<◌, ◌≡◌, refl, ◌∙◌, Bool, true, false, List, arith, if◌then◌else◌,
  update, Option-cases, inl, inr, ok, ◌>>=◌, Yields, yields, Yields-bind, Yields-if, Yields-weaken,
}
use linux_learning.ChatRoom.{
  ClientData, Bits, PollFd, Room, Received, got, nothing, again, failed, is_fd, leave, notify,
  broadcast, on_pollin, on_pollout,
}
use linux_learning.ChatRoom.Table.{
  IsRoom, entry-ok, owner-ok, set-IsClient, leave-IsRoom, listens_on,
}

-- The users are the same ones.
abbrev pub Same : ℕ → Room → Room → Type 0
Same listenfd r s = IsRoom listenfd s × (s.user_counter ≡ r.user_counter)

-- An entry says something else, and of the users' data something is changed.
reset-IsRoom :
    (listenfd : ℕ) (r : Room) (j : ℕ) (b : Bits) (users : ℕ → ClientData) (sent : List (ℕ × List ℕ))
    → IsRoom listenfd r
    → 0 < j
    → j ≤ r.user_counter
    → Same listenfd r (record r {
      fds = update r.fds j (record (r.fds j) { events = b });
      users = users;
      sent = sent;
    })
reset-IsRoom listenfd r j b users sent v lt le =
    let p : PollFd = record (r.fds j) { events = b } in
    let c = v.client j lt le in
    let (listens, no_hup, no_out) = listens_on listenfd r j p v lt in
    (
      record {
        few = v.few;
        listens = listens;
        silent = (no_hup, no_out);
        client =
            set-IsClient listenfd r j p r.user_counter
              (record { fd = c.fd; is = c.is; below = c.below; other = c.other })
              (λ i l h away. v.client i l h);
      },
      refl,
    )

notify-IsRoom :
    (listenfd : ℕ) (r : Room) (j connfd : ℕ)
    → IsRoom listenfd r
    → 0 < j
    → j ≤ r.user_counter
    → Yields (Same listenfd r) (notify r j connfd)
unfolding notify
notify-IsRoom listenfd r j connfd v lt le = rw (entry-ok r j (omega (arith, v.few))) (
    Yields-if (is_fd (r.fds j).fd connfd) (λ _. yields (v, refl))
      λ _.
        rw (owner-ok listenfd (r.fds j) (v.client j lt le))
          (yields (reset-IsRoom listenfd r j _ _ r.sent v lt le)))

broadcast-IsRoom :
    (listenfd : ℕ) (n j : ℕ) (r : Room) (connfd : ℕ)
    → IsRoom listenfd r
    → 0 < j
    → j + n ≤ r.user_counter + 1
    → Yields (Same listenfd r) (broadcast n j r connfd)
unfolding broadcast
broadcast-IsRoom listenfd zero j r connfd v lt le = yields (v, refl)
broadcast-IsRoom listenfd (suc n) j r connfd v lt le =
    Yields-bind (notify-IsRoom listenfd r j connfd v lt (omega arith)) λ s t.
      Yields-weaken
        (broadcast-IsRoom listenfd n (j + 1) s connfd t.0 (omega arith) (omega (arith, t.1)))
        λ x h. (h.0, h.1 ∙ t.1)

-- What a round makes of the room: the same number of users, or one less at the same place.
abbrev pub After : ℕ → Room → Bool × Room → Type 0
After listenfd r x =
    IsRoom listenfd x.1
    × (if x.0 then x.1.user_counter + 1 ≡ r.user_counter else x.1.user_counter ≡ r.user_counter)

pub on_pollin-IsRoom :
    (listenfd : ℕ) (r : Room) (i : ℕ) (received : Received)
    → IsRoom listenfd r
    → 0 < i
    → i ≤ r.user_counter
    → Yields (After listenfd r) (on_pollin r i received)
unfolding on_pollin
on_pollin-IsRoom listenfd r i received v lt le =
    rw (entry-ok r i (omega (arith, v.few)), owner-ok listenfd (r.fds i) (v.client i lt le))
      (by_report received _)
  where
    still : (users : ℕ → ClientData) → IsRoom listenfd (record r { users = users })
    still users = record { few = v.few; listens = v.listens; silent = v.silent; client = v.client }

    by_report :
        (a : Received) (users : ℕ → ClientData)
        → Yields (After listenfd r) (elim a [
          | got b bytes ↦
              broadcast r.user_counter 1 (record r { users = users }) (v.client i lt le).fd >>= λ s.
              ok (false, s)
          | nothing ↦ ok (false, record r { users = users })
          | again ↦ ok (false, record r { users = users })
          | failed ↦ leave (record r { users = users }) i >>= λ s. ok (true, s)
        ])
    by_report (got b bytes) users =
        Yields-bind
          (broadcast-IsRoom listenfd r.user_counter 1 (record r { users = users })
            (v.client i lt le).fd (still users) (omega arith) (omega arith))
          λ s t. yields t
    by_report nothing users = yields (still users, refl)
    by_report again users = yields (still users, refl)
    by_report failed users =
        Yields-bind (leave-IsRoom listenfd (record r { users = users }) i (still users) lt le)
          λ s t. yields t

pub on_pollout-IsRoom :
    (listenfd : ℕ) (r : Room) (i : ℕ)
    → IsRoom listenfd r
    → 0 < i
    → i ≤ r.user_counter
    → Yields (Same listenfd r) (on_pollout r i)
unfolding on_pollout
on_pollout-IsRoom listenfd r i v lt le =
    rw (entry-ok r i (omega (arith, v.few)), owner-ok listenfd (r.fds i) (v.client i lt le))
      (elim (Option-cases (r.users (v.client i lt le).fd).write_buf) [
        | inl e ↦ rw e (yields (v, refl))
        | inr (k, e) ↦ rw e (yields (reset-IsRoom listenfd r i _ _ _ v lt le))
      ])
