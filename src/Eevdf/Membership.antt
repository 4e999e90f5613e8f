-- ===== src/Eevdf/Membership.antt =====
-- What eevdf_enqueue and eevdf_dequeue do to the set of queued tasks, for every bound `k` on the
-- rounds of the loops over the tree.
use arcline.Base.{
  ℕ, zero, suc, ◌≡◌, ◌≢◌, false, not, ◌||◌, arith, is_null, ◌==◌, if◌then◌else◌, ◌⊎◌, inl, inr,
  ==_of_ne, ◌↔◌,
}
use arcline.Bitmap.{Words, masked-exclude}
use arcline.Task.{task_ready}
use arcline.Eevdf.{
  RunQueue, pool_size, alloc_node, free_node, find_node, lift_vruntime, link_task, enqueue,
  unlink_task, dequeue, update_curr,
}
use arcline.Eevdf.Pool.{
  Holds, Found, find_node-Found, Unique, Slot, alloc_node-Slot, Entered, SamePool, Full,
  lift_vruntime-SamePool, link_task-Entered, SamePool-Holds,
}

module _ (k a : ℕ) (q : RunQueue) where
  -- A READY task that is enqueued takes a free node, and the other nodes stay as they were; only if
  -- all 64 nodes are in use is it left out, and the pool stays as it was.
  pub enqueue_lem :
      a ≢ 0
      → (q.tasks a).state ≡ task_ready
      → ((i : ℕ) × Entered q (enqueue k a q) a i) ⊎ (Full q × SamePool q (enqueue k a q))
  unfolding enqueue
  enqueue_lem ne ready = rw (run ne) (go (alloc_node q1.bitmap) (alloc_node-Slot q1.bitmap))
    where
      q1 : RunQueue
      q1 = lift_vruntime a q

      run : a ≢ 0 → (a == 0 || not ((q.tasks a).state == task_ready)) ≡ false
      run n = ground arith

      same : SamePool q q1
      same = lift_vruntime-SamePool a q

      go :
          (r : ℕ × Words)
          → Slot q1.bitmap 0 64 r
          → let q' = if is_null r.0 then q1 else link_task k a r.0 (record q1 { bitmap = r.1 }) in
            ((i : ℕ) × Entered q q' a i) ⊎ (Full q × SamePool q q')
      go (zero, m) s = inr (λ i h. ground (arith, s.1 i, same.bits), same)
      go (suc i, m) s = inl (i, moved (link_task-Entered k a i q1 m s.1 s.2 s.3))
        where
          moved :
              Entered q1 (link_task k a (suc i) (record q1 { bitmap = m })) a i
              → Entered q (link_task k a (suc i) (record q1 { bitmap = m })) a i
          moved e = record {
            inside = e.inside;
            free = ground (arith, same.bits, e.free);
            now = e.now;
            kept = λ j b h. e.kept j b ((SamePool-Holds same).0 h);
            only = λ j b h. elim (e.only j b h) [
              | inl new ↦ inl new
              | inr old ↦ inr ((SamePool-Holds same).1 old)
            ];
          }

  -- In a pool where no task has two nodes, after `eevdf_dequeue` of a task other than NULL the nodes in
  -- use are those that were in use for other tasks, each with the task that it had.
  pub dequeue_lem :
      a ≢ 0 → Unique q → (j b : ℕ) → Holds (dequeue k a q) j b ↔ (Holds q j b × (b ≢ a))
  unfolding dequeue unlink_task free_node
  dequeue_lem ne u j b = rw (==_of_ne a 0 ne) (go (find_node pool_size 0 a q) (find_node-Found a q))
    where
      go :
          (n : ℕ)
          → Found q a n
          → Holds (if is_null n then q else unlink_task k a n q) j b ↔ (Holds q j b × (b ≢ a))
      go zero f = (λ h. (h, λ e. f j (rw (← e) h)), λ h. h.0)
      go (suc i) f = (out, inn)
        where
          back : Holds (unlink_task k a (suc i) q) j b → Holds q j b
          back h = ground (arith, h.inside, h.used, h.task, masked-exclude 64 q.bitmap i j)

          out : Holds (unlink_task k a (suc i) q) j b → Holds q j b × (b ≢ a)
          out h = (
            back h,
            λ e. ground (
              arith,
              u i j a f (rw e at (back h)),
              h.used,
              masked-exclude 64 q.bitmap i j,
              f.inside,
            ),
          )

          inn : Holds q j b × (b ≢ a) → Holds (unlink_task k a (suc i) q) j b
          inn h = ground (
            arith,
            masked-exclude 64 q.bitmap i j,
            h.0.inside,
            h.0.used,
            h.0.task,
            f.task,
            f.inside,
            h.1,
          )

pub update_curr-SamePool : (a now : ℕ) (q : RunQueue) → SamePool q (update_curr a now q)
unfolding update_curr
update_curr-SamePool a now q = ground arith
