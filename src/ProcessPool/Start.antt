-- ===== src/ProcessPool/Start.antt =====
-- The constructor of processpool.cpp, in the parent.
use linux_learning.Prelude.{
  ℕ, zero, suc, ◌+◌, ◌≤◌, ◌<◌, ◌≡◌, refl, ap, ◌∙◌, Bool, true, false, none, some, List, [], ◌∷◌,
  arith, ltb, leb, length, get_elem?, update, Yields, yields, Yields-if, Yields-weaken,
}
use linux_learning.ProcessPool.{
  Pool, Forked, in_parent, fork_loop, processpool, parent_of, max_process_number,
}
use linux_learning.ProcessPool.Stop.{Sound}

-- Every call of socketpair and fork succeeds, and the children have these numbers.
abbrev pub all_forked : List ℕ → List (Bool × Forked)
all_forked [] = []
all_forked (pid ∷ pids) = (true, in_parent pid) ∷ all_forked pids

-- The pool once the children from index `i` on have these numbers.
record Started (i : ℕ) (pids : List ℕ) (p q : Pool) : Type 0 where
  process_number : q.process_number ≡ p.process_number
  idx : q.idx ≡ p.idx
  stop : q.stop ≡ p.stop
  before : (c : ℕ) → c < i → q.sub_process c ≡ p.sub_process c
  child : (c : ℕ) → c < length pids → q.sub_process (i + c) ≡ get_elem? pids c

fork_loop-Started :
    (i : ℕ) (p : Pool) (pids : List ℕ) → Yields (Started i pids p) (fork_loop i p (all_forked pids))
unfolding fork_loop
fork_loop-Started i p [] = yields (record {
  process_number = refl;
  idx = refl;
  stop = refl;
  before = λ c lt. refl;
  child = λ c lt. absurd (omega arith);
})
fork_loop-Started i p (pid ∷ pids) =
    Yields-weaken
      (fork_loop-Started (i + 1) (record p { sub_process = update p.sub_process i (some pid) })
        pids)
      λ q s. record {
        process_number = s.process_number;
        idx = s.idx;
        stop = s.stop;
        before = λ c lt. ground (arith, s.before c (omega arith));
        child = λ c. child_at q s c;
      }
  where
    child_at :
        (q : Pool)
        → Started (i + 1) pids (record p { sub_process = update p.sub_process i (some pid) }) q
        → (c : ℕ) → c < suc (length pids)
        → q.sub_process (i + c) ≡ get_elem? (pid ∷ pids) c
    child_at q s zero lt = ground (arith, s.before i (omega arith))
    child_at q s (suc c) lt = ap q.sub_process (omega arith) ∙ s.child c (omega arith)

-- When every fork of the constructor succeeds, for at least one and at most 16 processes, the parent has
-- the numbers of its children in their places, and starts its loop well: its index is still unset, the
-- counter is the index of a child, and it is not told to stop.
pub processpool-Sound :
    (pids : List ℕ)
    → 0 < length pids
    → length pids ≤ max_process_number
    → Yields
        (λ p.
          (p.process_number ≡ length pids)
          × (p.idx ≡ none)
          × (p.stop ≡ false)
          × ((c : ℕ) → c < length pids → p.sub_process c ≡ get_elem? pids c)
          × Sound (parent_of p))
        (processpool (all_forked pids) (length pids))
unfolding processpool
processpool-Sound pids pos le =
    Yields-if (ltb 0 (length pids))
      (λ _.
        Yields-if (leb (length pids) max_process_number)
          (λ _. Yields-weaken (fork_loop-Started 0 _ pids) λ p s. (
            s.process_number,
            s.idx,
            s.stop,
            (λ c lt. ap p.sub_process (omega arith) ∙ s.child c lt),
            record {
              inside = omega (arith, s.process_number);
              left = λ e. absurd (ground (arith, s.stop));
            },
          ))
          (λ over. absurd (ground arith)))
      (λ none_left. absurd (ground arith))
