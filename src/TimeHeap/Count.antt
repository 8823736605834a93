-- ===== src/TimeHeap/Count.antt =====
-- How often an entry stands among the first `n` of the array of time_heap.h.
use linux_learning.Prelude.{
  ℕ, zero, suc, ◌+◌, ◌≤◌, ◌<◌, ◌≡◌, ◌≢◌, refl, ap, ℕ_discrete, Bool, true, false, arith, ◌==◌,
  if◌then◌else◌, update,
}
use linux_learning.TimeHeap.{Slot, null, ref, stray}

abbrev pub same_slot : Slot → Slot → Bool
same_slot null null = true
same_slot (ref p) (ref q) = p == q
same_slot (stray i) (stray j) = i == j
same_slot _ _ = false

abbrev pub hit : Slot → Slot → ℕ
hit s t = if same_slot s t then 1 else 0

abbrev pub count : Slot → ℕ → (ℕ → Slot) → ℕ
count s zero a = 0
count s (suc n) a = count s n a + hit s (a n)

-- The same entries, as often.
abbrev pub SameSlots : ℕ → (ℕ → Slot) → (ℕ → Slot) → Type 0
SameSlots n a b = (s : Slot) → count s n a ≡ count s n b

pub hit_self : (s : Slot) → hit s s ≡ 1
hit_self null = refl
hit_self (ref p) = ground arith
hit_self (stray i) = ground arith

pub hit_eq : (s t : Slot) → 0 < hit s t → s ≡ t
hit_eq null null h = refl
hit_eq (ref p) t h = ground arith
hit_eq (stray p) t h = ground arith
hit_eq s t h = ground arith

pub hit_le : (s t : Slot) → hit s t ≤ 1
hit_le s t = ground arith

pub count-update_out :
    (s v : Slot) (n i : ℕ) (a : ℕ → Slot) → n ≤ i → count s n (update a i v) ≡ count s n a
count-update_out s v zero i a h = refl
count-update_out s v (suc n) i a h = ground (arith, count-update_out s v n i a)

pub count-update :
    (s v : Slot) (n i : ℕ) (a : ℕ → Slot)
    → i < n
    → count s n (update a i v) + hit s (a i) ≡ count s n a + hit s v
count-update s v zero i a h = absurd (omega arith)
count-update s v (suc n) i a h = elim (ℕ_discrete i n) [
  | yes e ↦ ground (arith, count-update_out s v n i a, ap a e)
  | no e ↦ ground (arith, count-update s v n i a)
]

-- An array that agrees below `n` has the same counts.
pub count-agree :
    (s : Slot) (n : ℕ) (a b : ℕ → Slot) → ((i : ℕ) → i < n → a i ≡ b i) → count s n a ≡ count s n b
count-agree s zero a b h = refl
count-agree s (suc n) a b h = ground (arith, h n, count-agree s n a b (λ i lt. h i (omega arith)))

pub count_pos : (n i : ℕ) (a : ℕ → Slot) → i < n → 0 < count (a i) n a
count_pos zero i a h = absurd (omega arith)
count_pos (suc n) i a h = elim (ℕ_discrete i n) [
  | yes e ↦ ground (arith, hit_self (a i), ap a e)
  | no e ↦ ground (arith, count_pos n i a)
]

-- Moving an entry into the hole moves the hole to where the entry stood.
pub move_hole :
    (n hole child : ℕ) (a : ℕ → Slot) (tmp : Slot)
    → hole < n
    → child < n
    → child ≢ hole
    → SameSlots n (update (update a hole (a child)) child tmp) (update a hole tmp)
move_hole n hole child a tmp hn cn ne s = ground (
  arith,
  count-update s tmp n child (update a hole (a child)) cn,
  count-update s (a child) n hole a hn,
  count-update s tmp n hole a hn,
)

-- An entry that is counted stands somewhere.
pub count_find : (s : Slot) (n : ℕ) (a : ℕ → Slot) → 0 < count s n a → (i : ℕ) × (i < n) × (s ≡ a i)
count_find s zero a h = absurd (omega arith)
count_find s (suc n) a h = elim (ℕ_discrete (hit s (a n)) 0) [
  | yes e ↦ let (i, lt, at) = count_find s n a (omega arith) in (i, omega arith, at)
  | no e ↦ (n, omega arith, hit_eq s (a n) (omega arith))
]
