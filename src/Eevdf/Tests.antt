-- ===== src/Eevdf/Tests.antt =====
-- Runs of the run queue, and the theorems on the pool at concrete queues.
use arcline.Base.{
  ℕ, suc, ◌≡◌, ◌≢◌, refl, true, arith, ◌⊎◌, inl, inr, sym, ◌∙◌, pos, ◌↔◌, List, [], ◌∷◌, ◌*◌, ◌≤◌,
}
use arcline.Bitmap.{masked, include, exclude, masked_empty}
use arcline.Task.{Task, task_ready}
use arcline.Rb.{replace_child}
use arcline.Eevdf.{
  RunQueue, init, enqueue, dequeue, pick_next, lift_vruntime, link_task, unlink_task, alloc_node,
  free_node, find_node,
}
use arcline.Eevdf.Tree.{insert_node, remove_node, next_leftmost}
use arcline.Eevdf.Weights.{weight_of}
use arcline.Eevdf.Pool.{Holds, Unique, Entered, Full, SamePool}
use arcline.Eevdf.Membership.{enqueue_lem, dequeue_lem}
use arcline.Eevdf.Order.{insert_node-IsTree}
use arcline.Eevdf.Enqueue.{enqueue-InOrder}
use arcline.Eevdf.Queue.{InOrder, vruntime_of, pick_next-least, init-InOrder}
use arcline.Rb.Insert.Link.{insert_sorted}
use arcline.Rb.Insert.Whole.{IsTree}
use arcline.Rb.Insert.Order.{starts_with}

-- A READY task with the given virtual runtime.
abbrev task : ℕ → Task
task v = record {
  pid = pos 1;
  state = task_ready;
  priority = pos 0;
  time_slice = 4_000_000;
  vruntime = v;
  context = record { x = λ _. 0; sp = 0; pc = 0; pstate = 0 };
  kernel_stack = 0;
  pgd = 0;
  next = 0;
  prev = 0;
}

-- Address `a` holds a task with virtual runtime 10 * a.
abbrev queue : RunQueue
queue = init (λ a. task (10 * a))

queued : List ℕ → RunQueue → RunQueue
queued [] q = q
queued (a ∷ as') q = queued as' (enqueue 65 a q)

removed : List ℕ → RunQueue → RunQueue
removed [] q = q
removed (a ∷ as') q = removed as' (dequeue 65 a q)

picks_least : pick_next (queued (5 ∷ 3 ∷ 8 ∷ 1 ∷ 4 ∷ 7 ∷ 9 ∷ 2 ∷ 6 ∷ []) queue) ≡ 1
unfolding pick_next queued enqueue init lift_vruntime link_task alloc_node insert_node masked
    include weight_of
picks_least = refl

picks_next :
    pick_next (removed (1 ∷ 4 ∷ 2 ∷ 3 ∷ []) (queued (5 ∷ 3 ∷ 8 ∷ 1 ∷ 4 ∷ 7 ∷ 9 ∷ 2 ∷ 6 ∷ []) queue))
    ≡ 5
unfolding pick_next queued removed enqueue dequeue unlink_task find_node init lift_vruntime
    link_task alloc_node free_node remove_node next_leftmost insert_node masked include exclude
    weight_of replace_child
picks_next = refl

empty-Absent : (i a : ℕ) → ¬ Holds queue i a
unfolding init
empty-Absent i a h = ground (arith, masked_empty 64 i, h.used)

enqueue_lem_example :
    ((i : ℕ) × Entered queue (enqueue 65 5 queue) 5 i)
    ⊎ (Full queue × SamePool queue (enqueue 65 5 queue))
unfolding init
enqueue_lem_example = enqueue_lem 65 5 queue (omega arith) refl

none-Full : Full queue → ⊥
none-Full f =
    empty-Absent 0 _ (record { inside = omega arith; used = f 0 (omega arith); task = refl })

enqueued :
    ((i : ℕ) × Entered queue (enqueue 65 5 queue) 5 i)
    ⊎ (Full queue × SamePool queue (enqueue 65 5 queue))
unfolding init
enqueued = enqueue_lem 65 5 queue (omega arith) refl

Unique-alone : Unique (enqueue 65 5 queue)
Unique-alone i j a h k = elim enqueued [
  | inl e ↦ elim (e.1.only i a h) [
    | inl x ↦ elim (e.1.only j a k) [ inl y ↦ x.0 ∙ sym y.0 | inr y ↦ absurd (empty-Absent j a y) ]
    | inr x ↦ absurd (empty-Absent i a x)
  ]
  | inr f ↦ absurd (none-Full f.0)
]

dequeue_lem_example :
    Holds (dequeue 65 5 (enqueue 65 5 queue)) 0 5
    ↔ (Holds (enqueue 65 5 queue) 0 5 × ((◌≢◌ {A = ℕ}) 5 5))
dequeue_lem_example = dequeue_lem 65 5 (enqueue 65 5 queue) (omega arith) Unique-alone 0 5

-- One task of nice 5 runs.
abbrev nice_queue : RunQueue
nice_queue = record (init (λ a. record (task 0) { priority = pos 5 })) {
  nr_running = 1;
  load_weight = 335;
}

-- The nodes 1 and 2 of virtual runtimes 10 and 20.
key_of : ℕ → ℕ
key_of n = 10 * n

one_node :
    IsTree 0 (1 ∷ []) (insert_node key_of 10 3 1 (init (λ a. task 0)).tree).1
    × ((insert_node key_of 10 3 1 (init (λ a. task 0)).tree).0 ≡ true)
one_node =
    insert_node-IsTree key_of 10 3 1 [] (init (λ a. task 0)).tree (init-InOrder (λ a. task 0)).tree
      tt (omega arith) refl (omega arith)

insert_node-IsTree_example :
    let t = (insert_node key_of 10 3 1 (init (λ a. task 0)).tree).1 in
    IsTree 0 (insert_sorted key_of 20 2 (1 ∷ [])) (insert_node key_of 20 3 2 t).1
    × ((insert_node key_of 20 3 2 t).0 ≡ starts_with 2 (insert_sorted key_of 20 2 (1 ∷ [])))
insert_node-IsTree_example =
    insert_node-IsTree key_of 20 3 2 (1 ∷ [])
      (insert_node key_of 10 3 1 (init (λ a. task 0)).tree).1 one_node.0 (tt, tt) (omega arith) refl
      (omega arith)

enqueue-InOrder_example :
    let q = enqueue 65 5 queue in
    ((i : ℕ) × InOrder q (insert_sorted (vruntime_of q) (q.tasks 5).vruntime (suc i) []))
    ⊎ (Full queue × InOrder q [])
unfolding init
enqueue-InOrder_example =
    enqueue-InOrder 65 5 queue [] (omega arith) (omega arith) refl
      (init-InOrder (λ a. task (10 * a))) (λ j. empty-Absent j 5)

queued_order :
    let q = enqueue 65 5 queue in
    (i : ℕ) × InOrder q (insert_sorted (vruntime_of q) (q.tasks 5).vruntime (suc i) [])
unfolding init
queued_order =
    elim (enqueue-InOrder 65 5 queue [] (omega arith) (omega arith) refl
      (init-InOrder (λ a. task (10 * a))) (λ j. empty-Absent j 5)) [
        | inl h ↦ h
        | inr f ↦ absurd (none-Full f.0)
      ]

queued_place : (i : ℕ) × Holds (enqueue 65 5 queue) i 5
queued_place = elim enqueued [ inl h ↦ (h.0, h.1.now) | inr f ↦ absurd (none-Full f.0) ]

pick_next-least_example :
    let q = enqueue 65 5 queue in
    ((i : ℕ) × Holds q i (pick_next q)) × ((q.tasks (pick_next q)).vruntime ≤ (q.tasks 5).vruntime)
pick_next-least_example =
    pick_next-least (enqueue 65 5 queue)
      (insert_sorted (vruntime_of (enqueue 65 5 queue)) ((enqueue 65 5 queue).tasks 5).vruntime
        (suc queued_order.0) [])
      queued_place.0 5 queued_order.1 queued_place.1
