-- ===== src/ChatRoom/Messages.antt =====
-- What becomes of a message of chatroom_server.cpp.
use linux_learning.Prelude.{
  ℕ, zero, suc, ◌+◌, ◌-◌, ◌≤◌, ◌<◌, ◌≡◌, refl, sym, ap, ◌∙◌, true, false, some, ◌∷◌, arith, ◌==◌,
  update, update_at, update_away, by_index, Bool-cases, inl, inr, ◌>>=◌, Yields, yields,
  Yields-bind, Yields-weaken,
}
use linux_learning.CString.{c_string}
use linux_learning.ChatRoom.{
  ClientData, want_out, PollFd, Room, user_limit, is_fd, leave, notify, broadcast, on_pollout,
}
use linux_learning.ChatRoom.Table.{IsClient, entry-ok, owner-ok}

-- What a user who waits for POLLOUT is sent.
on_pollout-sends :
    (listenfd : ℕ) (r : Room) (k f : ℕ) (v : IsClient listenfd (r.fds k))
    → k ≤ user_limit
    → (r.users v.fd).write_buf ≡ some f
    → Yields (λ s. s.sent ≡ (v.fd, c_string (r.users f).buf) ∷ r.sent) (on_pollout r k)
unfolding on_pollout
on_pollout-sends listenfd r k f v le e =
    rw (entry-ok r k le, owner-ok listenfd (r.fds k) v) (rw e (yields refl))

-- A user at `i` leaves while another one at `k` still waits to be sent its text: what is sent then is the
-- text of the last user, whose data has been copied over that of the one that left.
pub leave-loses :
    (listenfd : ℕ) (r : Room) (i k : ℕ) (leaver : IsClient listenfd (r.fds i))
    (last : IsClient listenfd (r.fds r.user_counter)) (waiting : IsClient listenfd (r.fds k))
    → r.user_counter ≤ user_limit
    → i ≤ user_limit
    → k ≤ user_limit
    → (k == i) ≡ false
    → (waiting.fd == leaver.fd) ≡ false
    → (r.users waiting.fd).write_buf ≡ some leaver.fd
    → Yields
        (λ s. s.sent ≡ (waiting.fd, c_string (r.users last.fd).buf) ∷ r.sent)
        (leave r i >>= λ s. on_pollout s k)
unfolding leave
leave-loses listenfd r i k leaver last waiting few le le' apart other e =
    let n = r.user_counter in
    let users = update r.users leaver.fd (r.users last.fd) in
    let fds = update r.fds i (r.fds n) in
    let s : Room = record r {
      users = users;
      fds = fds;
      user_counter = n - 1;
      closed = leaver.fd ∷ r.closed;
    } in
    let at : fds k ≡ r.fds k = update_away r.fds i (r.fds n) k apart in
    let w : IsClient listenfd (fds k) = record {
      fd = waiting.fd;
      is = ap (λ (p : PollFd). p.fd) at ∙ waiting.is;
      below = waiting.below;
      other = waiting.other;
    } in
    let text : c_string (users leaver.fd).buf ≡ c_string (r.users last.fd).buf =
      ap (λ (u : ClientData). c_string u.buf) (update_at r.users leaver.fd (r.users last.fd)) in
    rw
      (
        entry-ok r i le,
        owner-ok listenfd (r.fds i) leaver,
        entry-ok r n few,
        owner-ok listenfd (r.fds n) last,
      )
      (Yields-weaken
        (on_pollout-sends listenfd s k leaver.fd w le' (
          ap (λ (u : ClientData). u.write_buf)
            (update_away r.users leaver.fd (r.users last.fd) waiting.fd other)
          ∙ e))
        λ x sent. sent ∙ ap (λ t. (waiting.fd, t) ∷ r.sent) text)

-- What the loop over the users from `j` on has done after `n` of them.
pub record Told (r : Room) (connfd j n : ℕ) (s : Room) : Type 0 where
  pub sockets : (k : ℕ) → (s.fds k).fd ≡ (r.fds k).fd
  pub bufs : (f : ℕ) → (s.users f).buf ≡ (r.users f).buf
  pub kept : (f : ℕ) → (r.users f).write_buf ≡ some connfd → (s.users f).write_buf ≡ some connfd
  pub out_kept : (k : ℕ) → (r.fds k).events.pollout ≡ true → (s.fds k).events.pollout ≡ true
  pub alone : (s.users connfd).write_buf ≡ (r.users connfd).write_buf
  pub told :
      (k f : ℕ)
      → j ≤ k
      → k < j + n
      → (r.fds k).fd ≡ some f
      → (f == connfd) ≡ false
      → ((s.users f).write_buf ≡ some connfd) × ((s.fds k).events.pollout ≡ true)

notify-Told :
    (listenfd : ℕ) (r : Room) (j connfd : ℕ) (v : IsClient listenfd (r.fds j))
    → j ≤ user_limit
    → Yields (Told r connfd j 1) (notify r j connfd)
unfolding notify
notify-Told listenfd r j connfd v le =
    rw (entry-ok r j le) (elim (Bool-cases (is_fd (r.fds j).fd connfd)) [
      | inl own ↦ rw own (
          yields (record {
            sockets = λ k. refl;
            bufs = λ f. refl;
            kept = λ f e. e;
            out_kept = λ k e. e;
            alone = refl;
            told = λ k f h h' e n.
                let at : k ≡ j = omega arith in
                absurd
                  (cc (own, n, ap (λ o. is_fd o connfd) (ap (λ x. (r.fds x).fd) (sym at) ∙ e)));
          }))
      | inr other ↦
          let users = update r.users v.fd (record (r.users v.fd) { write_buf = some connfd }) in
          let p : PollFd = record (r.fds j) { events = want_out (r.fds j).events } in
          let away : (connfd == v.fd) ≡ false =
            not_it v.fd (sym (ap (λ o. is_fd o connfd) v.is) ∙ other) in
          rw (other, owner-ok listenfd (r.fds j) v)
            (yields (record {
              sockets = by_index r.fds j p (λ k q. q.fd ≡ (r.fds k).fd) refl (λ k n. refl);
              bufs =
                  by_index r.users v.fd (record (r.users v.fd) { write_buf = some connfd })
                    (λ f u. u.buf ≡ (r.users f).buf) refl (λ f n. refl);
              kept =
                  by_index r.users v.fd (record (r.users v.fd) { write_buf = some connfd })
                    (λ f u. (r.users f).write_buf ≡ some connfd → u.write_buf ≡ some connfd)
                    (λ _. refl) (λ f n e. e);
              out_kept =
                  by_index r.fds j p
                    (λ k q. (r.fds k).events.pollout ≡ true → q.events.pollout ≡ true) (λ _. refl)
                    (λ k n e. e);
              alone = ap (λ (u : ClientData). u.write_buf) (update_away r.users v.fd _ connfd away);
              told = λ k f h h' e n.
                  let at : k ≡ j = omega arith in
                  let same : f ≡ v.fd = cc (sym e ∙ ap (λ x. (r.fds x).fd) at ∙ v.is) in
                  (
                    ap (λ x. (users x).write_buf) same
                        ∙ ap (λ (u : ClientData). u.write_buf) (update_at r.users v.fd _),
                    ap (λ x. (update r.fds j p x).events.pollout) at
                        ∙ ap (λ (q : PollFd). q.events.pollout) (update_at r.fds j p),
                  );
            }))
    ])
  where
    not_it : (f : ℕ) → (f == connfd) ≡ false → (connfd == f) ≡ false
    not_it f e = ground arith

both-Told :
    (r s x : Room) (connfd j n : ℕ)
    → Told r connfd j 1 s
    → Told s connfd (j + 1) n x
    → Told r connfd j (suc n) x
both-Told r s x connfd j n u v = record {
  sockets = λ k. v.sockets k ∙ u.sockets k;
  bufs = λ f. v.bufs f ∙ u.bufs f;
  kept = λ f e. v.kept f (u.kept f e);
  out_kept = λ k e. v.out_kept k (u.out_kept k e);
  alone = v.alone ∙ u.alone;
  told = λ k f h h' e n'. elim (Bool-cases (k == j)) [
    | inl at ↦ let t = u.told k f h (ground arith) e n' in (v.kept f t.0, v.out_kept k t.1)
    | inr after ↦ v.told k f (ground arith) (ground arith) (u.sockets k ∙ e) n'
  ];
}

-- Each user from `j` on but the sender is told to write what stands in the sender's buffer, and asked for
-- POLLOUT; no text is changed, and the sender itself waits for what it did before.
pub broadcast-Told :
    (listenfd n j : ℕ) (r : Room) (connfd : ℕ)
    → ((k : ℕ) → j ≤ k → k < j + n → IsClient listenfd (r.fds k))
    → j + n ≤ user_limit + 1
    → Yields (Told r connfd j n) (broadcast n j r connfd)
unfolding broadcast
broadcast-Told listenfd zero j r connfd v le = yields (record {
  sockets = λ k. refl;
  bufs = λ f. refl;
  kept = λ f e. e;
  out_kept = λ k e. e;
  alone = refl;
  told = λ k f h h' e n. absurd (omega arith);
})
broadcast-Told listenfd (suc n) j r connfd v le =
    Yields-bind (notify-Told listenfd r j connfd (v j (omega arith) (omega arith)) (omega arith))
      λ s u.
        Yields-weaken
          (broadcast-Told listenfd n (j + 1) s connfd
            (λ k h h'. moved s u k (v k (omega arith) (omega arith))) (omega arith))
          λ x t. both-Told r s x connfd j n u t
  where
    moved :
        (s : Room)
        → Told r connfd j 1 s
        → (k : ℕ) → IsClient listenfd (r.fds k)
        → IsClient listenfd (s.fds k)
    moved s u k c = record { fd = c.fd; is = u.sockets k ∙ c.is; below = c.below; other = c.other }
