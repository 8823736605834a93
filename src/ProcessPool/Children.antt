-- ===== src/ProcessPool/Children.antt =====
-- The children of processpool.cpp that waitpid reports.
use linux_learning.Prelude.{
  ℕ, zero, suc, ◌+◌, ◌≤◌, ◌<◌, ◌≡◌, ◌↔◌, inl, inr, refl, ap, ◌∙◌, true, ◌&&◌, Option, none, List,
  [], ◌∷◌, arith, ltb, leb, ◌==◌, if◌then◌else◌, Option-cases, ℕ_discrete,
}
use linux_learning.ProcessPool.{
  Pool, Parent, sigchld, is_pid, join_one, join_loop, join_all, all_gone, kill_loop, handle_signal,
}
use linux_learning.ProcessPool.Turns.{AllGone}

-- What the handling of signals leaves alone.
pub record SameTurns (p q : Parent) : Type 0 where
  pub process_number : q.pool.process_number ≡ p.pool.process_number
  pub counter : q.counter ≡ p.counter
  pub stop : q.pool.stop ≡ p.pool.stop

SameTurns-trans : {p q r : Parent} → SameTurns p q → SameTurns q r → SameTurns p r
SameTurns-trans a b = record {
  process_number = b.process_number ∙ a.process_number;
  counter = b.counter ∙ a.counter;
  stop = b.stop ∙ a.stop;
}

join_one-SameTurns : (i pid : ℕ) (p : Parent) → SameTurns p (join_one i pid p)
unfolding join_one
join_one-SameTurns i pid p = record {
  process_number = ground arith;
  counter = ground arith;
  stop = ground arith;
}

join_loop-SameTurns : (n i pid : ℕ) (p : Parent) → SameTurns p (join_loop n i pid p)
unfolding join_loop
join_loop-SameTurns zero i pid p = record { process_number = refl; counter = refl; stop = refl }
join_loop-SameTurns (suc n) i pid p =
    SameTurns-trans (join_one-SameTurns i pid p)
      (join_loop-SameTurns n (i + 1) pid (join_one i pid p))

-- The child's number after `pid` has been reported.
abbrev pub without_pid : ℕ → Option ℕ → Option ℕ
without_pid pid child = if is_pid pid child then none else child

join_one-child :
    (i pid : ℕ) (p : Parent) (c : ℕ)
    → (join_one i pid p).pool.sub_process c
      ≡ (if c == i then without_pid pid (p.pool.sub_process c) else p.pool.sub_process c)
unfolding join_one
join_one-child i pid p c = elim (ℕ_discrete c i) [
  | yes same ↦ rw same (ground arith)
  | no other ↦ ground arith
]

join_loop-child :
    (n i pid : ℕ) (p : Parent) (c : ℕ)
    → (join_loop n i pid p).pool.sub_process c ≡ (
        if leb i c && ltb c (i + n)
        then without_pid pid (p.pool.sub_process c)
        else p.pool.sub_process c)
unfolding join_loop
join_loop-child zero i pid p c = ground arith
join_loop-child (suc n) i pid p c =
    let rest = join_loop-child n (i + 1) pid (join_one i pid p) c in
    let here = join_one-child i pid p c in ground (arith, rest, here)

SameTurns-refl : (p : Parent) → SameTurns p p
SameTurns-refl p = record { process_number = refl; counter = refl; stop = refl }

pub join_all-SameTurns : (pids : List ℕ) (p : Parent) → SameTurns p (join_all pids p)
unfolding join_all
join_all-SameTurns [] p = SameTurns-refl p
join_all-SameTurns (pid ∷ pids) p =
    SameTurns-trans (join_loop-SameTurns p.pool.process_number 0 pid p) (join_all-SameTurns pids _)

pub kill_loop-keeps :
    (n i : ℕ) (p : Parent)
    → (kill_loop n i p).pool ≡ p.pool × ((kill_loop n i p).counter ≡ p.counter)
unfolding kill_loop
kill_loop-keeps zero i p = (refl, refl)
kill_loop-keeps (suc n) i p = elim (Option-cases (p.pool.sub_process i)) [
  | inl gone ↦ rw (gone, kill_loop) (kill_loop-keeps n (i + 1) p)
  | inr (pid, runs) ↦ rw (runs, kill_loop) (kill_loop-keeps n (i + 1) _)
]

-- all_gone looks at each child.
all_gone_from :
    (n i : ℕ) (p : Pool)
    → (all_gone n i p ≡ true) ↔ ((c : ℕ) → i ≤ c → c < i + n → p.sub_process c ≡ none)
unfolding all_gone
all_gone_from zero i p = (λ _ c le lt. absurd (omega arith), λ _. refl)
all_gone_from (suc n) i p = elim (Option-cases (p.sub_process i)) [
  | inr (pid, runs) ↦
      rw runs ((λ e. absurd (ground arith)), (λ none_runs. absurd (ground (arith, none_runs i))))
  | inl gone ↦ rw gone (
      let rest = all_gone_from n (i + 1) p in
      (
        (λ e c le lt. elim (ℕ_discrete c i) [
          | yes same ↦ ap p.sub_process same ∙ gone
          | no other ↦ rest.0 e c (omega arith) (omega arith)
        ]),
        (λ none_runs. rest.1 (λ c le lt. none_runs c (omega arith) (omega arith))),
      ))
]

-- A child's number after the children in the list have been reported.
abbrev pub without_all : List ℕ → Option ℕ → Option ℕ
without_all [] child = child
without_all (pid ∷ pids) child = without_all pids (without_pid pid child)

join_all-child :
    (pids : List ℕ) (p : Parent) (c : ℕ)
    → c < p.pool.process_number
    → (join_all pids p).pool.sub_process c ≡ without_all pids (p.pool.sub_process c)
unfolding join_all
join_all-child [] p c lt = refl
join_all-child (pid ∷ pids) p c lt =
    let n = p.pool.process_number in
    let same = join_loop-SameTurns n 0 pid p in
    let here : (join_loop n 0 pid p).pool.sub_process c ≡ without_pid pid (p.pool.sub_process c) =
      ground (arith, join_loop-child n 0 pid p c) in
    join_all-child pids (join_loop n 0 pid p) c (omega (arith, same.process_number))
    ∙ ap (without_all pids) here

all_gone_iff : (p : Pool) → (all_gone p.process_number 0 p ≡ true) ↔ AllGone p
all_gone_iff p =
    let (there, back) = all_gone_from p.process_number 0 p in
    (
      λ e c lt. there e c (omega arith) (omega arith),
      λ gone. back (λ c le lt. gone c (omega arith)),
    )

-- SIGCHLD takes away exactly the children that waitpid reports, and afterwards the parent is told to
-- stop exactly when none of its children runs any more.
pub sigchld_lem :
    (pids : List ℕ) (p : Parent)
    → ((handle_signal (sigchld pids) p).pool.stop ≡ true
        ↔ AllGone (handle_signal (sigchld pids) p).pool)
      × ((c : ℕ)
          → c < p.pool.process_number
          → (handle_signal (sigchld pids) p).pool.sub_process c
            ≡ without_all pids (p.pool.sub_process c))
unfolding handle_signal
sigchld_lem pids p = (all_gone_iff (join_all pids p).pool, λ c lt. join_all-child pids p c lt)
