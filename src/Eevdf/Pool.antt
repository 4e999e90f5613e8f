-- ===== src/Eevdf/Pool.antt =====
-- The pool of nodes: which tasks are queued, whatever the shape of the tree.
use arcline.Base.{
  ℕ, zero, suc, ◌+◌, ◌≤◌, ◌<◌, ◌≡◌, ◌≢◌, refl, ap, true, false, not, ◌&&◌, arith, is_null, ◌==◌,
  ◌⊎◌, inl, inr, Bool-cases, ◌↔◌,
}
use arcline.Bitmap.{Words, masked, include, masked-include}
use arcline.Eevdf.{
  RunQueue, pool_size, alloc_loop, alloc_node, find_node, lift_vruntime, link_task, is_queued,
}

-- The node in place `i` of the pool is in use and has the task `a`.
pub record Holds (q : RunQueue) (i a : ℕ) : Type 0 where
  pub inside : i < 64
  pub used : masked 64 q.bitmap i ≡ true
  pub task : q.node_task (suc i) ≡ a

-- What a search from place `lo` up to `hi` answers.
abbrev Search : RunQueue → ℕ → ℕ → ℕ → ℕ → Type 0
Search q a lo hi zero =
    (i : ℕ) → lo ≤ i → i < hi → masked 64 q.bitmap i && q.node_task (suc i) == a ≡ false
Search q a lo hi (suc i) =
    (lo ≤ i) × (i < hi) × (masked 64 q.bitmap i && q.node_task (suc i) == a ≡ true)

Search-miss :
    (q : RunQueue) (a lo hi n : ℕ)
    → masked 64 q.bitmap lo && q.node_task (suc lo) == a ≡ false
    → Search q a (lo + 1) hi n
    → Search q a lo hi n
Search-miss q a lo hi zero h s = λ i p r. elim (Bool-cases (i == lo)) [
  | inl same ↦ rw (same_place i same) h
  | inr other ↦ s i (ground arith) r
]
  where
    same_place : (i : ℕ) → (i == lo) ≡ true → i ≡ lo
    same_place i e = ground arith
Search-miss q a lo hi (suc i) h (p, r, t) = (omega arith, r, t)

find_node-Search : (k i a : ℕ) (q : RunQueue) → Search q a i (i + k) (find_node k i a q)
unfolding find_node
find_node-Search zero i a q = λ j p r. absurd (omega arith)
find_node-Search (suc k) i a q =
    elim (Bool-cases (masked 64 q.bitmap i && q.node_task (suc i) == a)) [
      | inl hit ↦ rw hit (omega arith, omega arith, hit)
      | inr miss ↦ rw miss (
          Search-miss q a i (i + suc k) (find_node k (i + 1) a q) miss
            (rw shift at (find_node-Search k (i + 1) a q)))
    ]
  where
    shift : i + 1 + k ≡ i + suc k
    shift = omega arith

-- The search finds a node that holds the task, or there is none.
abbrev pub Found : RunQueue → ℕ → ℕ → Type 0
Found q a zero = (i : ℕ) → ¬ Holds q i a
Found q a (suc i) = Holds q i a

pub find_node-Found : (a : ℕ) (q : RunQueue) → Found q a (find_node pool_size 0 a q)
find_node-Found a q = go (find_node pool_size 0 a q) (find_node-Search pool_size 0 a q)
  where
    go : (n : ℕ) → Search q a 0 (0 + pool_size) n → Found q a n
    go zero s = λ i h. ground (arith, s i, h.inside, h.used, h.task)
    go (suc i) (p, r, t) = ground arith

-- `eevdf_is_queued` answers whether some node of the pool holds the task.
pub is_queued_iff :
    (a : ℕ) (q : RunQueue) → a ≢ 0 → (is_queued a q ≡ true) ↔ ((i : ℕ) × Holds q i a)
unfolding is_queued
is_queued_iff a q ne = go (find_node pool_size 0 a q) (find_node-Found a q)
  where
    go :
        (n : ℕ) → Found q a n → ((not (a == 0) && not (is_null n)) ≡ true) ↔ ((i : ℕ) × Holds q i a)
    go zero f = (λ e. ground arith, λ h. absurd (f h.0 h.1))
    go (suc i) f = (λ e. (i, f), λ h. ground arith)

pub is_queued_null : (q : RunQueue) → is_queued 0 q ≡ true → ⊥
unfolding is_queued
is_queued_null q e = cc

-- No task has two nodes.
abbrev pub Unique : RunQueue → Type 0
Unique q = (i j a : ℕ) → Holds q i a → Holds q j a → i ≡ j

-- What `alloc_node` answers from place `lo` up to `hi`: a free place, marked, or NULL if there is none.
abbrev pub Slot : Words → ℕ → ℕ → ℕ × Words → Type 0
Slot m lo hi (zero, m') = (m' ≡ m) × ((i : ℕ) → lo ≤ i → i < hi → masked 64 m i ≡ true)
Slot m lo hi (suc i, m') = (lo ≤ i) × (i < hi) × (masked 64 m i ≡ false) × (m' ≡ include 64 m i)

Slot-used :
    (m : Words) (lo hi : ℕ) (r : ℕ × Words)
    → masked 64 m lo ≡ true
    → Slot m (lo + 1) hi r
    → Slot m lo hi r
Slot-used m lo hi (zero, m') u (e, all) = (
  e,
  λ i p r. elim (Bool-cases (i == lo)) [
    | inl same ↦ ground (arith, u)
    | inr other ↦ all i (ground arith) r
  ],
)
Slot-used m lo hi (suc i, m') u (p, r, f, e) = (omega arith, r, f, e)

alloc_loop-Slot : (k i : ℕ) (m : Words) → Slot m i (i + k) (alloc_loop k i m)
unfolding alloc_loop
alloc_loop-Slot zero i m = (refl, λ j p r. absurd (omega arith))
alloc_loop-Slot (suc k) i m = elim (Bool-cases (masked 64 m i)) [
  | inl used ↦ rw used (
      Slot-used m i (i + suc k) (alloc_loop k (i + 1) m) used
        (rw shift at (alloc_loop-Slot k (i + 1) m)))
  | inr free ↦ rw free (omega arith, omega arith, free, refl)
]
  where
    shift : i + 1 + k ≡ i + suc k
    shift = omega arith

-- `alloc_node` marks a free place, and answers NULL only if all 64 are in use.
pub alloc_node-Slot : (m : Words) → Slot m 0 64 (alloc_node m)
unfolding alloc_node
alloc_node-Slot m = alloc_loop-Slot 64 0 m

-- `q'` is `q` with the task `a` put into the free place `i`.
pub record Entered (q q' : RunQueue) (a i : ℕ) : Type 0 where
  pub inside : i < 64
  pub free : masked 64 q.bitmap i ≡ false
  pub now : Holds q' i a
  pub kept : (j b : ℕ) → Holds q j b → Holds q' j b
  pub only : (j b : ℕ) → Holds q' j b → ((j ≡ i) × (b ≡ a)) ⊎ Holds q j b

-- The same places hold the same tasks.
pub record SamePool (q q' : RunQueue) : Type 0 where
  pub bits : q'.bitmap ≡ q.bitmap
  pub node_task : q'.node_task ≡ q.node_task

pub SamePool-Holds : {q q' : RunQueue} {j b : ℕ} → SamePool q q' → Holds q j b ↔ Holds q' j b
SamePool-Holds {q} {q'} {j} {b} e = (
  λ h. ground (arith, e.bits, ap (λ (f : ℕ → ℕ). f (suc j)) e.node_task),
  λ h. ground (arith, e.bits, ap (λ (f : ℕ → ℕ). f (suc j)) e.node_task),
)

abbrev pub Full : RunQueue → Type 0
Full q = (i : ℕ) → i < 64 → masked 64 q.bitmap i ≡ true

pub lift_vruntime-SamePool : (a : ℕ) (q : RunQueue) → SamePool q (lift_vruntime a q)
unfolding lift_vruntime
lift_vruntime-SamePool a q = ground arith

pub link_task-Entered :
    (k a i : ℕ) (q : RunQueue) (m : Words)
    → i < 64
    → masked 64 q.bitmap i ≡ false
    → m ≡ include 64 q.bitmap i
    → Entered q (link_task k a (suc i) (record q { bitmap = m })) a i
unfolding link_task
link_task-Entered k a i q m h f e = record {
  inside = h;
  free = f;
  now = ground (arith, masked-include 64 q.bitmap i i);
  kept = λ j b old. ground (arith, masked-include 64 q.bitmap i j, old.inside, old.used, old.task);
  only = λ j b new. elim (Bool-cases (j == i)) [
    | inl same ↦ inl (ground arith, ground (arith, new.task))
    | inr other ↦
        inr (ground (arith, masked-include 64 q.bitmap i j, new.inside, new.used, new.task))
  ];
}
