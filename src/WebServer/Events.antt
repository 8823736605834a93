-- ===== src/WebServer/Events.antt =====
-- The main loop's events in http_web_server.cpp.
use linux_learning.Prelude.{
  ℕ, ◌+◌, ◌<◌, ◌≡◌, refl, sym, ap, ◌∙◌, ◌⊎◌, inl, inr, Bool, true, false, ◌&&◌, Option, none, some,
  List, [], ◌∷◌, arith, ltb, leb, ◌==◌, if◌then◌else◌, is_some, length, update, update_at,
  update_away, by_index, All, All-append, Bool-cases, Yields, yields, Yields-bind, Yields-if,
}
use linux_learning.ThreadPool.{Request, enqueue}
use linux_learning.HttpConn.{Conn, Received, init, reset}
use linux_learning.HttpConn.Reply.{Written}
use linux_learning.HttpConn.Transfers.{
  Inside, Recvs, Sends, close_conn-Moves, read-Inside, write-Left,
}
use linux_learning.WebServer.{
  Site, Event, max_fd, put, show_error, accept, hang_up, append, on_readable, on_writable,
  handle_event,
}
use linux_learning.WebServer.Users.{IsSite, Queued, is_open, count_more, user-ok, put-IsSite}

-- The sockets that init was called for after accept gave `accepted`.
abbrev pub learn : Site → (ℕ → Bool) → Option ℕ → ℕ → Bool
learn s known none = known
learn s known (some fd) = if leb max_fd s.server.user_count then known else update known fd true

All-known :
    (known : ℕ → Bool) (fd : ℕ) (l : List Request)
    → All (Queued known) l
    → All (Queued (update known fd true)) l
All-known known fd [] v = tt
All-known known fd (none ∷ l) v = (tt, All-known known fd l v.1)
All-known known fd (some i ∷ l) v = ((ground (arith, v.0.0), v.0.1), All-known known fd l v.1)

pub init-IsSite :
    (s : Site) (known : ℕ → Bool) (fd : ℕ)
    → IsSite s known
    → fd < max_fd
    → is_open known s.users fd ≡ false
    → IsSite
        (put s fd (init fd (s.users fd) s.server).0 (init fd (s.users fd) s.server).1)
        (update known fd true)
unfolding init reset
init-IsSite s known fd v lt free =
    let c = (init fd (s.users fd) s.server).0 in
    let users = update s.users fd c in
    let known' = update known fd true in
    let k : known' fd ≡ true = update_at known fd true in
    let others : (j : ℕ) → (j == fd) ≡ false → is_open known' users j ≡ is_open known s.users j =
      λ j n.
        ap (λ (x : Conn). known' j && is_some x.sockfd) (update_away s.users fd c j n)
        ∙ ap (λ b. b && is_some (s.users j).sockfd) (update_away known fd true j n) in
    let at : is_open known' users fd ≡ true =
      ap (λ (x : Conn). known' fd && is_some x.sockfd) (update_at s.users fd c)
      ∙ ap (λ b. b && true) k in
    record {
      own =
          by_index s.users fd c (λ i x. known' i ≡ true → x.sockfd ≡ none ⊎ x.sockfd ≡ some i)
            (λ _. inr refl) (λ i n ki. v.own i (sym (update_away known fd true i n) ∙ ki));
      inside =
          by_index s.users fd c (λ i x. known' i ≡ true → Inside x)
            (λ _. (omega arith, omega arith))
            (λ i n ki. v.inside i (sym (update_away known fd true i n) ∙ ki));
      queued = All-known known fd s.pool.workqueue v.queued;
      count = ap (λ n. n + 1) v.count ∙ sym (count_more fd _ _ lt others free at);
    }

-- What the kernel may report: accept gives a new socket below the limit, which is not the number of an
-- open one, the other events are about sockets that were accepted, and recv and writev come to an end.
pub record Possible (listenfd : ℕ) (s : Site) (known : ℕ → Bool) (e : Event) : Type 0 where
  pub fresh :
      (e.fd == listenfd) ≡ true
      → (fd : ℕ) → e.accepted ≡ some fd
      → (fd < max_fd) × (is_open known s.users fd ≡ false)
  pub client : (e.fd == listenfd) ≡ false → (known e.fd ≡ true) × (e.fd < max_fd)
  pub recvs : e.readable ≡ true → Recvs (s.users e.fd).read_idx e.received
  pub sends : e.writable ≡ true → Sends (s.users e.fd).write_idx 0 e.written

accept-IsSite :
    (s : Site) (known : ℕ → Bool) (accepted : Option ℕ)
    → IsSite s known
    → ((fd : ℕ) → accepted ≡ some fd → (fd < max_fd) × (is_open known s.users fd ≡ false))
    → Yields (λ s'. IsSite s' (learn s known accepted)) (accept s accepted)
unfolding accept show_error
accept-IsSite s known none v fresh = yields v
accept-IsSite s known (some fd) v fresh = elim (Bool-cases (leb max_fd s.server.user_count)) [
  | inl busy ↦
      rw busy
        (yields (record { own = v.own; inside = v.inside; count = v.count; queued = v.queued }))
  | inr room ↦
      rw (room, user-ok s fd (fresh fd refl).0)
        (yields (init-IsSite s known fd v (fresh fd refl).0 (fresh fd refl).1))
]

hang_up-IsSite :
    (s : Site) (known : ℕ → Bool) (fd : ℕ)
    → IsSite s known
    → known fd ≡ true
    → fd < max_fd
    → Yields (λ s'. IsSite s' known) (hang_up s fd)
unfolding hang_up
hang_up-IsSite s known fd v k lt = rw (user-ok s fd lt) (
    yields
      (put-IsSite s known fd _ _ v lt k (close_conn-Moves (s.users fd) s.server (v.inside fd k))))

append-IsSite :
    (s : Site) (known : ℕ → Bool) (fd : ℕ)
    → IsSite s known
    → known fd ≡ true
    → fd < max_fd
    → IsSite (append s fd) known
unfolding append enqueue
append-IsSite s known fd v k lt =
    elim (Bool-cases (ltb s.pool.max_requests (length s.pool.workqueue))) [
      | inl full ↦
          rw full (record { own = v.own; inside = v.inside; count = v.count; queued = v.queued })
      | inr room ↦ rw room (record {
        own = v.own;
        inside = v.inside;
        count = v.count;
        queued = All-append (Queued known) s.pool.workqueue (some fd ∷ []) v.queued ((k, lt), tt);
      })
    ]

on_readable-IsSite :
    (s : Site) (known : ℕ → Bool) (fd : ℕ) (received : List Received)
    → IsSite s known
    → known fd ≡ true
    → fd < max_fd
    → Recvs (s.users fd).read_idx received
    → Yields (λ s'. IsSite s' known) (on_readable s fd received)
unfolding on_readable
on_readable-IsSite s known fd received v k lt h = rw (user-ok s fd lt) (
    Yields-bind (read-Inside (s.users fd) received (v.inside fd k) h) λ r t.
      let kept = put-IsSite s known fd r.1 s.server v lt k (t.0, inl (t.1, refl)) in
      Yields-if r.0 (λ _. yields (append-IsSite _ known fd kept k lt))
        (λ _. hang_up-IsSite _ known fd kept k lt))

on_writable-IsSite :
    (s : Site) (known : ℕ → Bool) (fd : ℕ) (written : List Written)
    → IsSite s known
    → known fd ≡ true
    → fd < max_fd
    → Sends (s.users fd).write_idx 0 written
    → Yields (λ s'. IsSite s' known) (on_writable s fd written)
unfolding on_writable
on_writable-IsSite s known fd written v k lt h = rw (user-ok s fd lt) (
    Yields-bind (write-Left (s.users fd) s.server written (v.inside fd k) h) λ r t.
      let kept = put-IsSite s known fd r.1 r.2 v lt k (t.0, inl (t.1, t.2)) in
      Yields-if r.0 (λ _. yields kept) (λ _. hang_up-IsSite _ known fd kept k lt))

-- The sockets that init was called for after an event.
abbrev pub learned : ℕ → Site → (ℕ → Bool) → Event → ℕ → Bool
learned listenfd s known e = if e.fd == listenfd then learn s known e.accepted else known

-- The main loop deals with every event that the kernel may report without a fault, and m_user_count
-- stays the number of open connections, each of which is on its own socket.
pub handle_event-IsSite :
    (listenfd : ℕ) (s : Site) (known : ℕ → Bool) (e : Event)
    → IsSite s known
    → Possible listenfd s known e
    → Yields (λ s'. IsSite s' (learned listenfd s known e)) (handle_event listenfd s e)
unfolding handle_event
handle_event-IsSite listenfd s known e v h = elim (Bool-cases (e.fd == listenfd)) [
  | inl listening ↦ rw listening (accept-IsSite s known e.accepted v (h.fresh listening))
  | inr client ↦
      let (k, lt) = h.client client in
      rw client (
        Yields-if e.failed (λ _. hang_up-IsSite s known e.fd v k lt)
          λ _.
            Yields-if e.readable
              (λ r. on_readable-IsSite s known e.fd e.received v k lt (h.recvs r))
              λ _.
                Yields-if e.writable
                  (λ r. on_writable-IsSite s known e.fd e.written v k lt (h.sends r))
                  (λ _. yields v))
]
