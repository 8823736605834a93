-- ===== src/WebServer/Users.antt =====
-- The users of http_web_server.cpp: what holds of them and of their number.
use linux_learning.Prelude.{
  ℕ, ◌+◌, ◌-◌, ◌<◌, ◌≡◌, sym, ap, ◌∙◌, ◌⊎◌, inl, inr, Bool, true, false, ◌&&◌, none, some, arith,
  ◌==◌, is_some, update, update_at, update_away, by_index, total, total-flip, one_if, All, ok,
}
use linux_learning.ThreadPool.{Request}
use linux_learning.HttpConn.{Conn, Server}
use linux_learning.HttpConn.Transfers.{Inside, Moves}
use linux_learning.WebServer.{Site, max_fd, user, put}

-- Which of the sockets that init was called for are open, and how many they are.
abbrev pub is_open : (ℕ → Bool) → (ℕ → Conn) → ℕ → Bool
is_open known users fd = known fd && is_some (users fd).sockfd

unfoldable pub open_count : (ℕ → Bool) → ℕ
open_count opened = total one_if max_fd opened

abbrev pub Queued : (ℕ → Bool) → Request → Type 0
Queued known none = Unit
Queued known (some fd) = (known fd ≡ true) × (fd < max_fd)

-- `known` has the sockets that init was called for. Each of these connections is closed or on its own
-- socket, with its positions in its buffer, m_user_count is the number of those that are open, and
-- only they are in the queue of the pool.
pub record IsSite (s : Site) (known : ℕ → Bool) : Type 0 where
  pub own : (fd : ℕ) → known fd ≡ true → (s.users fd).sockfd ≡ none ⊎ (s.users fd).sockfd ≡ some fd
  pub inside : (fd : ℕ) → known fd ≡ true → Inside (s.users fd)
  pub count : s.server.user_count ≡ open_count (is_open known s.users)
  pub queued : All (Queued known) s.pool.workqueue

open_count-flip :
    (i : ℕ) (a b : ℕ → Bool)
    → i < max_fd
    → ((j : ℕ) → (j == i) ≡ false → b j ≡ a j)
    → open_count b + one_if (a i) ≡ open_count a + one_if (b i)
unfolding open_count
open_count-flip i a b lt others = total-flip one_if max_fd i a b lt others

pub user-ok : (s : Site) (fd : ℕ) → fd < max_fd → user s fd ≡ ok (s.users fd)
unfolding user
user-ok s fd lt = ground arith

-- Two counts that differ in what they say of one socket.
count_same :
    (i : ℕ) (a b : ℕ → Bool)
    → i < max_fd
    → ((j : ℕ) → (j == i) ≡ false → b j ≡ a j)
    → b i ≡ a i
    → open_count b ≡ open_count a
count_same i a b lt others e = omega (arith, open_count-flip i a b lt others, ap one_if e)

count_less :
    (i : ℕ) (a b : ℕ → Bool)
    → i < max_fd
    → ((j : ℕ) → (j == i) ≡ false → b j ≡ a j)
    → a i ≡ true
    → b i ≡ false
    → open_count b ≡ open_count a - 1
count_less i a b lt others e e' =
    omega (arith, open_count-flip i a b lt others, ap one_if e, ap one_if e')

pub count_more :
    (i : ℕ) (a b : ℕ → Bool)
    → i < max_fd
    → ((j : ℕ) → (j == i) ≡ false → b j ≡ a j)
    → a i ≡ false
    → b i ≡ true
    → open_count b ≡ open_count a + 1
count_more i a b lt others e e' =
    omega (arith, open_count-flip i a b lt others, ap one_if e, ap one_if e')

-- A connection that has moved.
pub put-IsSite :
    (s : Site) (known : ℕ → Bool) (fd : ℕ) (c : Conn) (w : Server)
    → IsSite s known
    → fd < max_fd
    → known fd ≡ true
    → Moves (s.users fd) s.server c w
    → IsSite (put s fd c w) known
put-IsSite s known fd c w v lt k (inside, moved) =
    let users = update s.users fd c in
    let others : (j : ℕ) → (j == fd) ≡ false → is_open known users j ≡ is_open known s.users j =
      λ j n. ap (λ (x : Conn). known j && is_some x.sockfd) (update_away s.users fd c j n) in
    let at : is_open known users fd ≡ is_some c.sockfd =
      ap (λ (x : Conn). known fd && is_some x.sockfd) (update_at s.users fd c)
      ∙ ap (λ b. b && is_some c.sockfd) k in
    let before : is_open known s.users fd ≡ is_some (s.users fd).sockfd =
      ap (λ b. b && is_some (s.users fd).sockfd) k in
    record {
      own =
          by_index s.users fd c (λ i x. known i ≡ true → x.sockfd ≡ none ⊎ x.sockfd ≡ some i)
            (λ _. elim moved [
              | inl same ↦ elim (v.own fd k) [ inl e ↦ inl (same.0 ∙ e) | inr e ↦ inr (same.0 ∙ e) ]
              | inr gone ↦ inl gone.1
            ])
            (λ i n. v.own i);
      inside =
          by_index s.users fd c (λ i x. known i ≡ true → Inside x) (λ _. inside)
            (λ i n. v.inside i);
      queued = v.queued;
      count = elim moved [
        | inl same ↦
            same.1
            ∙ v.count
            ∙ sym (count_same fd _ _ lt others (at ∙ ap is_some same.0 ∙ sym before))
        | inr gone ↦
            gone.2
            ∙ ap (λ n. n - 1) v.count
            ∙ sym (count_less fd _ _ lt others (before ∙ gone.0) (at ∙ ap is_some gone.1))
      ];
    }
