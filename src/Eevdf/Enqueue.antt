-- ===== src/Eevdf/Enqueue.antt =====
-- `eevdf_enqueue` keeps the run queue in order.
use arcline.Base.{
  ℕ, zero, suc, ◌+◌, ◌≤◌, ◌<◌, ltb, ◌≡◌, ◌≢◌, refl, sym, ap, ◌∙◌, List, arith, ◌==◌, ◌&&◌, not,
  if◌then◌else◌, Bool, true, false, Array, store, ◌⊎◌, inl, inr, Bool-cases, is_null, ◌||◌,
}
use mathlib.Core.Path.{subst}
use arcline.Bitmap.{Words, masked, include, masked-include}
use arcline.Task.{task_ready}
use arcline.Rb.Insert.Link.{Sorted, insert_sorted}
use arcline.Rb.Insert.Order.{occurs, starts_with}
use arcline.Rb.Insert.Sorted.{
  All-occurs, Sorted-ext, Sorted-insert_sorted, occurs-insert_sorted, first_node-insert_sorted,
}
use arcline.Rb.Insert.Whole.{IsTree}
use arcline.Eevdf.{RunQueue, link_task, enqueue, lift_vruntime, alloc_node}
use arcline.Eevdf.Tree.{insert_node}
use arcline.Eevdf.Order.{insert_node-IsTree}
use arcline.Eevdf.Pool.{
  Holds, Slot, alloc_node-Slot, SamePool, lift_vruntime-SamePool, SamePool-Holds, Full,
}
use arcline.Eevdf.Queue.{vruntime_of, one_if, InOrder, in_use, at_most}

-- What the lift of the virtual runtime leaves alone.
lift_vruntime-other :
    (a b : ℕ) (q : RunQueue) → b ≢ a → ((lift_vruntime a q).tasks b).vruntime ≡ (q.tasks b).vruntime
unfolding lift_vruntime
lift_vruntime-other a b q ne = ground arith

lift_vruntime-tree :
    (a : ℕ) (q : RunQueue)
    → ((lift_vruntime a q).tree ≡ q.tree) × ((lift_vruntime a q).leftmost ≡ q.leftmost)
unfolding lift_vruntime
lift_vruntime-tree a q = elim (Bool-cases (ltb (q.tasks a).vruntime q.min_vruntime)) [
  | inl e ↦ rw e (refl, refl)
  | inr e ↦ rw e (refl, refl)
]

lift_vruntime-InOrder :
    (a : ℕ) (q : RunQueue) (xs : List ℕ)
    → ((i : ℕ) → ¬ Holds q i a)
    → InOrder q xs
    → InOrder (lift_vruntime a q) xs
lift_vruntime-InOrder a q xs absent o = record {
  tree = subst (IsTree 0 xs) (sym (lift_vruntime-tree a q).0) o.tree;
  sorted =
      Sorted-ext (vruntime_of q) (vruntime_of (lift_vruntime a q)) xs
        (All-occurs (λ y. vruntime_of (lift_vruntime a q) y ≡ vruntime_of q y) xs key_same)
        o.sorted;
  leftmost = (lift_vruntime-tree a q).1 ∙ o.leftmost;
  used = λ i.
      o.used i
      ∙ ap (λ m. one_if (ltb i 64 && masked 64 m i)) (sym (lift_vruntime-SamePool a q).bits);
}
  where
    key_same : (y : ℕ) → 1 ≤ occurs y xs → vruntime_of (lift_vruntime a q) y ≡ vruntime_of q y
    key_same y h =
        let u = in_use q xs o y h in
        ap (λ f. ((lift_vruntime a q).tasks (f y)).vruntime) (lift_vruntime-SamePool a q).node_task
        ∙ lift_vruntime-other a (q.node_task y) q (λ e. absent u.0 (subst (Holds q u.0) e u.2))

module _ (k a i : ℕ) (q : RunQueue) (xs : List ℕ) where
  abbrev marked : RunQueue
  marked = record q { bitmap = include 64 q.bitmap i }

  -- A task that is in no node gets the free node `suc i`.
  link_task-InOrder :
      64 < k
      → InOrder q xs
      → ((j : ℕ) → ¬ Holds q j a)
      → i < 64
      → masked 64 q.bitmap i ≡ false
      → let q' = link_task k a (suc i) marked in
        InOrder q' (insert_sorted (vruntime_of q') (q'.tasks a).vruntime (suc i) xs)
  unfolding link_task
  link_task-InOrder fuel o absent inside free = record {
    tree = grown.0;
    sorted =
        subst (λ v. Sorted key (insert_sorted key v (suc i) xs)) own
          (Sorted-insert_sorted key (suc i) xs sorted);
    leftmost =
        ap (λ b. if b then suc i else q.leftmost) grown.1
        ∙ ap
            (λ n.
              if starts_with (suc i) (insert_sorted key (q.tasks a).vruntime (suc i) xs)
              then suc i
              else n)
            o.leftmost
        ∙ sym (first_node-insert_sorted key (suc i) (q.tasks a).vruntime xs out);
    used = λ j.
        occurs-insert_sorted key (suc i) (q.tasks a).vruntime (suc j) xs
        ∙ counted j (occurs (suc j) xs) (masked 64 q.bitmap j) (masked 64 (include 64 q.bitmap i) j)
            (λ e. ap (masked 64 q.bitmap) e ∙ free) (o.used j) (masked-include 64 q.bitmap i j);
  }
    where
      key : ℕ → ℕ
      key n = (q.tasks (store q.node_task (suc i) a n)).vruntime

      own : key (suc i) ≡ (q.tasks a).vruntime
      own = ap (λ n. (q.tasks n).vruntime) (stored q.node_task)
        where
          stored : (f : Array ℕ) → store f (suc i) a (suc i) ≡ a
          stored f = ground arith

      out : occurs (suc i) xs ≡ 0
      out = o.used i ∙ rw free (ground arith)

      key_same : (y : ℕ) → 1 ≤ occurs y xs → key y ≡ vruntime_of q y
      key_same y h =
          ap (λ n. (q.tasks n).vruntime)
            (stored q.node_task y
              (λ e. let g = subst (λ n. 1 ≤ occurs n xs) e h in omega (arith, g, out)))
        where
          stored : (f : Array ℕ) (y : ℕ) → y ≢ suc i → store f (suc i) a y ≡ f y
          stored f y ne = ground (arith, ne)

      sorted : Sorted key xs
      sorted =
          Sorted-ext (vruntime_of q) key xs (All-occurs (λ y. key y ≡ vruntime_of q y) xs key_same)
            o.sorted

      grown :
          IsTree 0
            (insert_sorted key (q.tasks a).vruntime (suc i) xs)
            (insert_node key (q.tasks a).vruntime k (suc i) q.tree).1
          × ((insert_node key (q.tasks a).vruntime k (suc i) q.tree).0
              ≡ starts_with (suc i) (insert_sorted key (q.tasks a).vruntime (suc i) xs))
      grown =
          insert_node-IsTree key (q.tasks a).vruntime k (suc i) xs q.tree o.tree sorted
            (λ e. absurd (omega (arith, e))) out (omega (arith, fuel, at_most q xs o))

      counted :
          (j n : ℕ) (b b' : Bool)
          → (j ≡ i → b ≡ false)
          → n ≡ one_if (ltb j 64 && b)
          → b' ≡ (if j == i then true else b)
          → (if suc j == suc i then 1 else 0) + n ≡ one_if (ltb j 64 && b')
      counted j n b b' w e f = ground (arith, w, e, f, inside)

module _ (k a : ℕ) (q : RunQueue) (xs : List ℕ) where
  -- From a queue in order, a READY task that is in no node is put in the order of virtual runtimes,
  -- after the tasks of the same one; with all 64 nodes in use the order stays. 65 rounds are enough.
  pub enqueue-InOrder :
      64 < k
      → a ≢ 0
      → (q.tasks a).state ≡ task_ready
      → InOrder q xs
      → ((j : ℕ) → ¬ Holds q j a)
      → let q' = enqueue k a q in
        ((i : ℕ) × InOrder q' (insert_sorted (vruntime_of q') (q'.tasks a).vruntime (suc i) xs))
        ⊎ (Full q × InOrder q' xs)
  unfolding enqueue
  enqueue-InOrder fuel ne ready o absent =
      rw (run ne) (go (alloc_node q1.bitmap) (alloc_node-Slot q1.bitmap))
    where
      q1 : RunQueue
      q1 = lift_vruntime a q

      run : a ≢ 0 → (a == 0 || not ((q.tasks a).state == task_ready)) ≡ false
      run n = ground arith

      same : SamePool q q1
      same = lift_vruntime-SamePool a q

      order : InOrder q1 xs
      order = lift_vruntime-InOrder a q xs absent o

      still : (j : ℕ) → ¬ Holds q1 j a
      still j h = absent j ((SamePool-Holds same).1 h)

      go :
          (r : ℕ × Words)
          → Slot q1.bitmap 0 64 r
          → let q' = if is_null r.0 then q1 else link_task k a r.0 (record q1 { bitmap = r.1 }) in
            ((i : ℕ) × InOrder q' (insert_sorted (vruntime_of q') (q'.tasks a).vruntime (suc i) xs))
            ⊎ (Full q × InOrder q' xs)
      go (zero, m) s = inr (λ i h. ground (arith, s.1 i, same.bits), order)
      go (suc i, m) s =
          inl (i, linked m s.3 (link_task-InOrder k a i q1 xs fuel order still s.1 s.2))
        where
          linked :
              (m : Words)
              → m ≡ include 64 q1.bitmap i
              → (let q' = link_task k a (suc i) (marked k a i q1 xs) in
                  InOrder q' (insert_sorted (vruntime_of q') (q'.tasks a).vruntime (suc i) xs))
              → (let q' = link_task k a (suc i) (record q1 { bitmap = m }) in
                  InOrder q' (insert_sorted (vruntime_of q') (q'.tasks a).vruntime (suc i) xs))
          linked m e h =
              subst
                (λ m.
                  let q' = link_task k a (suc i) (record q1 { bitmap = m }) in
                  InOrder q' (insert_sorted (vruntime_of q') (q'.tasks a).vruntime (suc i) xs))
                (sym e) h
