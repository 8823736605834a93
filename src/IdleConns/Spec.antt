-- ===== src/IdleConns/Spec.antt =====
-- What holds between the users of close_inactive_connection.cpp, their timers and their sockets.
use linux_learning.Prelude.{
  ℕ, ◌+◌, ◌*◌, ◌≤◌, ◌<◌, ◌≡◌, refl, sym, ap, ◌∙◌, Bool, true, false, ◌||◌, Option, none, some, [],
  ◌∷◌, ◌++◌, arith, ltb, ◌==◌, length, All, Bool-cases, inl, inr, update, update_away, total,
  total-flip, total-le, one_if,
}
use linux_learning.Links.{Ptr, Store}
use linux_learning.Links.Chain.{Cells, Chain, has}
use linux_learning.TimerList.{Task}
use linux_learning.TimerList.Spec.{IsSorted, insert}
use linux_learning.IdleConns.{ClientData, Idle, fd_limit, timeslot, cb_func_address}

-- Whether a timer of the list is the one of connection `fd`.
abbrev pub timed : ℕ → Cells Task → Bool
timed fd [] = false
timed fd ((p, d) ∷ l) = fd == d.user_data || timed fd l

-- A timer, set at the time `now` at the latest, and the connection that it is for know one another.
pub record Owns (users : ℕ → ClientData) (now : ℕ) (c : Ptr × Task) : Type 0 where
  pub calls : c.1.cb_func ≡ some cb_func_address
  pub below : c.1.user_data < fd_limit
  pub timer : (users c.1.user_data).timer ≡ some c.0
  pub socket : (users c.1.user_data).sockfd ≡ c.1.user_data
  pub recent : c.1.expire ≤ now + 3 * timeslot

-- The timers are in order, each is a connection's, and the open connections are those with a timer.
pub record IsIdle (now : ℕ) (s : Idle) (l : Cells Task) : Type 0 where
  pub sorted : IsSorted s.store s.timer_list l
  pub owns : All (Owns s.users now) l
  pub is_open : (fd : ℕ) → s.sockets fd ≡ timed fd l

pub timed-append : (fd : ℕ) (l r : Cells Task) → timed fd (l ++ r) ≡ (timed fd l || timed fd r)
timed-append fd [] r = refl
timed-append fd ((p, d) ∷ l) r = ground (arith, timed-append fd l r)

pub timed-insert :
    (fd : ℕ) (t : Ptr) (d : Task) (l : Cells Task)
    → timed fd (insert t d l) ≡ (fd == d.user_data || timed fd l)
timed-insert fd t d [] = refl
timed-insert fd t d ((p, e) ∷ l) = ground (arith, timed-insert fd t d l)

pub All-insert {κ} :
    (P : Ptr × Task → Type κ) (t : Ptr) (d : Task) (l : Cells Task)
    → P (t, d)
    → All P l
    → All P (insert t d l)
All-insert P t d [] h v = (h, tt)
All-insert P t d ((p, e) ∷ l) h v = elim (Bool-cases (ltb d.expire e.expire)) [
  | inl earlier ↦ rw earlier (h, v)
  | inr not_earlier ↦ rw not_earlier (v.0, All-insert P t d l h v.1)
]

-- The timer of a connection, and the timers around it.
pub timed-found :
    (fd : ℕ) (l : Cells Task)
    → timed fd l ≡ true
    → (a : Cells Task) × (p : Ptr) × (d : Task) × (b : Cells Task) × (l ≡ a ++ (p, d) ∷ b)
      × (d.user_data ≡ fd)
timed-found fd [] e = absurd (cc e)
timed-found fd ((p, d) ∷ l) e = elim (Bool-cases (fd == d.user_data)) [
  | inl here ↦ ([], p, d, l, refl, ground arith)
  | inr away ↦
      let (a, q, f, b, path, at) = timed-found fd l (ground arith) in
      ((p, d) ∷ a, q, f, b, ap (λ k. (p, d) ∷ k) path, at)
]

-- A timer that is not in the list belongs to none of its connections.
pub not_timed :
    (users : ℕ → ClientData) (now fd : ℕ) (p : Ptr) (l : Cells Task)
    → All (Owns users now) l
    → (users fd).timer ≡ some p
    → has p l ≡ false
    → timed fd l ≡ false
not_timed users now fd p [] v e out = refl
not_timed users now fd p ((q, d) ∷ l) v e out = elim (Bool-cases (fd == d.user_data)) [
  | inl here ↦
      let same : fd ≡ d.user_data = ground arith in
      let ptr : p ≡ q = cc (sym e ∙ ap (λ x. (users x).timer) same ∙ v.0.timer) in
      absurd (ground (arith, ptr))
  | inr away ↦ rw away (not_timed users now fd p l v.1 e (ground arith))
]

pub All-parts {κ} :
    (P : Ptr × Task → Type κ) (a : Cells Task) (c : Ptr × Task) (b : Cells Task)
    → All P (a ++ c ∷ b)
    → P c × All P a × All P b × All P (a ++ b)
All-parts P [] c b v = (v.0, tt, v.1, v.1)
All-parts P (x ∷ a) c b v =
    let (h, l, r, both) = All-parts P a c b v.1 in (h, (v.0, l), r, (v.0, both))

pub All-weaken {κ μ} :
    (P : Ptr × Task → Type κ) (Q : Ptr × Task → Type μ) (l : Cells Task)
    → ((c : Ptr × Task) → P c → Q c)
    → All P l
    → All Q l
All-weaken P Q [] f v = tt
All-weaken P Q (c ∷ l) f v = (f c v.0, All-weaken P Q l f v.1)

-- Nothing is forgotten as time goes by.
pub Owns-later :
    (users : ℕ → ClientData) (now now' : ℕ) (l : Cells Task)
    → now ≤ now'
    → All (Owns users now) l
    → All (Owns users now') l
Owns-later users now now' l le = All-weaken (Owns users now) (Owns users now') l (λ c v. record {
  calls = v.calls;
  below = v.below;
  timer = v.timer;
  socket = v.socket;
  recent = omega (arith, v.recent);
})

-- A user whose timer is not in the list may be given another one.
pub Owns-update :
    (users : ℕ → ClientData) (now fd : ℕ) (u : ClientData) (l : Cells Task)
    → timed fd l ≡ false
    → All (Owns users now) l
    → All (Owns (update users fd u) now) l
Owns-update users now fd u [] e v = tt
Owns-update users now fd u ((p, d) ∷ l) e v =
    let away : (d.user_data == fd) ≡ false = ground arith in
    let same : update users fd u d.user_data ≡ users d.user_data =
      update_away users fd u d.user_data away in
    (
      record {
        calls = v.0.calls;
        below = v.0.below;
        timer = ap (λ (x : ClientData). x.timer) same ∙ v.0.timer;
        socket = ap (λ (x : ClientData). x.sockfd) same ∙ v.0.socket;
        recent = v.0.recent;
      },
      Owns-update users now fd u l (ground arith) v.1,
    )

-- Each timer has a connection of its own, so that there are not more of them than connections.
timers_counted :
    (n : ℕ) (m : Store Task) (before : Option Ptr) (users : ℕ → ClientData) (now : ℕ)
    (l : Cells Task)
    → n ≡ fd_limit
    → Chain m before l none
    → All (Owns users now) l
    → length l ≤ total one_if n (λ fd. timed fd l)
timers_counted n m before users now [] e c v = omega arith
timers_counted n m before users now ((p, d) ∷ l) e c v =
    let alone : timed d.user_data l ≡ false =
      not_timed users now d.user_data p l v.1 v.0.timer c.1 in
    let here : (d.user_data == d.user_data || timed d.user_data l) ≡ true = ground arith in
    let flip =
      total-flip one_if n d.user_data (λ fd. timed fd l) (λ fd. fd == d.user_data || timed fd l)
        (omega (arith, v.0.below)) (λ j away. ground arith) in
    omega (
      arith,
      timers_counted n m (some p) users now l e c.2 v.1,
      flip,
      ap one_if alone,
      ap one_if here,
    )

pub few_timers :
    (m : Store Task) (users : ℕ → ClientData) (now : ℕ) (l : Cells Task)
    → Chain m none l none
    → All (Owns users now) l
    → length l ≤ fd_limit
few_timers m users now l c v = by_number fd_limit refl
  where
    by_number : (n : ℕ) → n ≡ fd_limit → length l ≤ fd_limit
    by_number n e = omega (
      arith,
      timers_counted n m none users now l e c v,
      total-le one_if n 1 (λ fd. timed fd l) (λ i. ground arith),
    )
