-- ===== src/Eevdf/Queue.antt =====
-- The run queue in order, and what eevdf_pick_next picks.
use arcline.Base.{
  ℕ, zero, suc, ◌+◌, ◌≤◌, ◌<◌, ltb, ◌≡◌, ◌≢◌, refl, sym, ap, List, [], ◌∷◌, arith, ◌==◌, ◌&&◌, not,
  if◌then◌else◌, Bool, true, false, Array, length,
}
use mathlib.Core.Path.{subst}
use arcline.Bitmap.{masked, masked_empty}
use arcline.Task.{Task}
use arcline.Rb.Shape.{leaf}
use arcline.Rb.Insert.Link.{Sorted}
use arcline.Rb.Insert.Order.{occurs, occurs-nodes}
use arcline.Rb.Insert.Sorted.{occurs-All, first_node}
use arcline.Rb.Insert.Whole.{IsTree}
use arcline.Eevdf.{RunQueue, init, pick_next}
use arcline.Eevdf.Pool.{Holds}

abbrev pub vruntime_of : RunQueue → ℕ → ℕ
vruntime_of q n = (q.tasks (q.node_task n)).vruntime

abbrev pub one_if : Bool → ℕ
one_if b = if b then 1 else 0

-- The tree holds the nodes in use, `xs` from left to right, by virtual runtime, and the leftmost one
-- is known.
pub record InOrder (q : RunQueue) (xs : List ℕ) : Type 0 where
  pub tree : IsTree 0 xs q.tree
  pub sorted : Sorted (vruntime_of q) xs
  pub leftmost : q.leftmost ≡ first_node xs
  pub used : (i : ℕ) → occurs (suc i) xs ≡ one_if (ltb i 64 && masked 64 q.bitmap i)

-- Counting: a list of different numbers from 1 to `m` is at most `m` long.
total : ℕ → List ℕ → ℕ
total zero xs = 0
total (suc m) xs = occurs (suc m) xs + total m xs

total-cons :
    (m x : ℕ) (xs : List ℕ)
    → total m (x ∷ xs) ≡ (if not (x == 0) && ltb x (suc m) then 1 else 0) + total m xs
unfolding total
total-cons zero x xs = ground arith
total-cons (suc m) x xs =
    at m x (occurs (suc m) xs) (total m xs) (total m (x ∷ xs)) (total-cons m x xs)
  where
    at :
        (n x a b d : ℕ)
        → d ≡ (if not (x == 0) && ltb x (suc n) then 1 else 0) + b
        → ((if suc n == x then 1 else 0) + a) + d
          ≡ (if not (x == 0) && ltb x (suc (suc n)) then 1 else 0) + (a + b)
    at n x a b d e = ground (arith, e)

length-total :
    (m : ℕ) (xs : List ℕ) → ((y : ℕ) → 1 ≤ occurs y xs → (y ≢ 0) × (y ≤ m)) → length xs ≤ total m xs
length-total m [] h = omega arith
length-total m (x ∷ xs) h =
    let rest = length-total m xs (λ y o. h y (ground (arith, o))) in
    let here = h x (ground arith) in
    let e = total-cons m x xs in at x (length xs) (total m xs) (total m (x ∷ xs)) here rest e
  where
    at :
        (x n k t : ℕ)
        → (x ≢ 0) × (x ≤ m)
        → n ≤ k
        → t ≡ (if not (x == 0) && ltb x (suc m) then 1 else 0) + k
        → suc n ≤ t
    at x n k t h r e = ground (arith, h.0, h.1, r, e)

total_bound : (m : ℕ) (xs : List ℕ) → ((y : ℕ) → occurs y xs ≤ 1) → total m xs ≤ m
unfolding total
total_bound zero xs h = omega arith
total_bound (suc m) xs h = omega (arith, h (suc m), total_bound m xs h)

module _ (q : RunQueue) (xs : List ℕ) (order : InOrder q xs) where
  not_null : occurs 0 xs ≡ 0
  not_null =
      let h = order.tree.links in
      omega (arith, ap (occurs 0) h.same, occurs-nodes 0 h.shape, h.at.apart.real)

  -- A node of the tree is one in use.
  pub in_use : (y : ℕ) → 1 ≤ occurs y xs → (i : ℕ) × (y ≡ suc i) × Holds q i (q.node_task y)
  in_use zero h = absurd (omega (arith, h, not_null))
  in_use (suc i) h =
      let e = order.used i in
      (
        i,
        refl,
        record {
          inside = inside (occurs (suc i) xs) (masked 64 q.bitmap i) h e;
          used = held (occurs (suc i) xs) (masked 64 q.bitmap i) h e;
          task = refl;
        },
      )
    where
      inside : (o : ℕ) (b : Bool) → 1 ≤ o → o ≡ one_if (ltb i 64 && b) → i < 64
      inside o b h e = ground (arith, h, e)

      held : (o : ℕ) (b : Bool) → 1 ≤ o → o ≡ one_if (ltb i 64 && b) → b ≡ true
      held o b h e = ground (arith, h, e)

  pub at_most : length xs ≤ 64
  at_most = omega (
    arith,
    length-total 64 xs (λ y h.
        let u = in_use y h in
        (λ z. absurd (omega (arith, u.1, z)), omega (arith, u.1, u.2.inside))),
    total_bound 64 xs once,
  )
    where
      once : (y : ℕ) → occurs y xs ≤ 1
      once zero = omega (arith, not_null)
      once (suc i) = at (ltb i 64 && masked 64 q.bitmap i) (occurs (suc i) xs) (order.used i)
        where
          at : (b : Bool) (o : ℕ) → o ≡ one_if b → o ≤ 1
          at b o e = ground (arith, e)

-- A queue that was set up is in order.
pub init-InOrder : (tasks : Array Task) → InOrder (init tasks) []
unfolding init
init-InOrder tasks = record {
  tree = record {
    links = record {
      shape = leaf;
      at = record {
        around = refl;
        links = tt;
        apart = record { once = λ a. omega arith; real = refl };
      };
      same = refl;
    };
    root = λ h. absurd (h refl);
  };
  sorted = tt;
  leftmost = refl;
  used = λ i. none_used (ltb i 64) (masked 64 (λ _. 0) i) (masked_empty 64 i);
}
  where
    none_used : (b c : Bool) → c ≡ false → 0 ≡ one_if (b && c)
    none_used b c e = ground (arith, e)

first_node-least :
    (key : ℕ → ℕ) (xs : List ℕ)
    → Sorted key xs
    → (y : ℕ) → 1 ≤ occurs y xs
    → (1 ≤ occurs (first_node xs) xs) × (key (first_node xs) ≤ key y)
first_node-least key [] h y m = absurd (omega arith)
first_node-least key (x ∷ xs) (h, hs) y m =
    (ground arith, occurs-All (λ y. key x ≤ key y) (x ∷ xs) (omega arith, h) y m)

-- From a queue in order, while some task is queued, `eevdf_pick_next` picks a queued one, and none has a smaller virtual
-- runtime.
pub pick_next-least :
    (q : RunQueue) (xs : List ℕ) (j b : ℕ)
    → InOrder q xs
    → Holds q j b
    → ((i : ℕ) × Holds q i (pick_next q))
      × ((q.tasks (pick_next q)).vruntime ≤ (q.tasks b).vruntime)
unfolding pick_next
pick_next-least q xs j b o h =
    subst (λ n. ((i : ℕ) × Holds q i n) × ((q.tasks n).vruntime ≤ (q.tasks b).vruntime))
      (sym picked)
      ((u.0, u.2), subst (λ n. vruntime_of q first ≤ (q.tasks n).vruntime) h.task least.1)
  where
    first : ℕ
    first = first_node xs

    here : 1 ≤ occurs (suc j) xs
    here = at (occurs (suc j) xs) (masked 64 q.bitmap j) (o.used j) h.used h.inside
      where
        at : (n : ℕ) (b : Bool) → n ≡ one_if (ltb j 64 && b) → b ≡ true → j < 64 → 1 ≤ n
        at n b e f l = ground (arith, e, f, l)

    least :
        (1 ≤ occurs (first_node xs) xs) × (vruntime_of q (first_node xs) ≤ vruntime_of q (suc j))
    least = first_node-least (vruntime_of q) xs o.sorted (suc j) here

    u : (i : ℕ) × (first_node xs ≡ suc i) × Holds q i (q.node_task (first_node xs))
    u = in_use q xs o (first_node xs) least.0

    picked : (if q.leftmost == 0 then 0 else q.node_task q.leftmost) ≡ q.node_task (first_node xs)
    picked = at q.leftmost (first_node xs) u.0 q.node_task o.leftmost u.1
      where
        at : (m x i : ℕ) (f : Array ℕ) → m ≡ x → x ≡ suc i → (if m == 0 then 0 else f m) ≡ f x
        at m x i f e g = ground (arith, e, g)
