-- ===== src/Eevdf/Tasks.antt =====
-- The run queue's operations write no field of a task but its virtual runtime and its start time.
use arcline.Base.{
  ℕ, zero, suc, ◌≡◌, refl, ap, ◌∙◌, arith, ◌==◌, if◌then◌else◌, Array, is_null, ◌||◌, not,
  Bool-cases, inl, inr,
}
use arcline.Task.{Task, task_ready}
use arcline.Eevdf.{
  RunQueue, lift_vruntime, link_task, unlink_task, enqueue, dequeue, update_curr, alloc_node,
}

-- The states, numbers and list links of the tasks are the same.
pub record SameTasks (q q' : RunQueue) : Type 0 where
  pub state : (a : ℕ) → (q'.tasks a).state ≡ (q.tasks a).state
  pub pid : (a : ℕ) → (q'.tasks a).pid ≡ (q.tasks a).pid
  pub next : (a : ℕ) → (q'.tasks a).next ≡ (q.tasks a).next

lift_vruntime-SameTasks : (a : ℕ) (q : RunQueue) → SameTasks q (lift_vruntime a q)
unfolding lift_vruntime
lift_vruntime-SameTasks a q = record {
  state = λ b. ground arith;
  pid = λ b. ground arith;
  next = λ b. ground arith;
}

pub carry : {q p r : RunQueue} → SameTasks q p → r.tasks ≡ p.tasks → SameTasks q r
carry s e = record {
  state = λ b. ap (λ (t : Array Task). (t b).state) e ∙ s.state b;
  pid = λ b. ap (λ (t : Array Task). (t b).pid) e ∙ s.pid b;
  next = λ b. ap (λ (t : Array Task). (t b).next) e ∙ s.next b;
}

tasks-link_task : (k a n : ℕ) (q : RunQueue) → (link_task k a n q).tasks ≡ q.tasks
unfolding link_task
tasks-link_task k a n q = refl

pub enqueue-SameTasks : (k a : ℕ) (q : RunQueue) → SameTasks q (enqueue k a q)
unfolding enqueue
enqueue-SameTasks k a q = elim (Bool-cases (a == 0 || not ((q.tasks a).state == task_ready))) [
  | inl out ↦ rw out (record { state = λ b. refl; pid = λ b. refl; next = λ b. refl })
  | inr go ↦ rw go (placed (alloc_node (lift_vruntime a q).bitmap))
]
  where
    placed :
        (r : ℕ × (ℕ → ℕ))
        → SameTasks q (
            if is_null r.0
            then lift_vruntime a q
            else link_task k a r.0 (record (lift_vruntime a q) { bitmap = r.1 }))
    placed (zero, m) = lift_vruntime-SameTasks a q
    placed (suc n, m) =
        carry (lift_vruntime-SameTasks a q)
          (tasks-link_task k a (suc n) (record (lift_vruntime a q) { bitmap = m }))

pub tasks-dequeue : (k a : ℕ) (q : RunQueue) → (dequeue k a q).tasks ≡ q.tasks
unfolding dequeue unlink_task
tasks-dequeue k a q = ground arith

pub update_curr-SameTasks : (a now : ℕ) (q : RunQueue) → SameTasks q (update_curr a now q)
unfolding update_curr
update_curr-SameTasks a now q = record {
  state = λ b. ground arith;
  pid = λ b. ground arith;
  next = λ b. ground arith;
}

-- So are their priorities, contexts and stacks, as far as `eevdf_enqueue` goes.
pub record SameSetup (q q' : RunQueue) : Type 0 where
  pub priority : (a : ℕ) → (q'.tasks a).priority ≡ (q.tasks a).priority
  pub context : (a : ℕ) → (q'.tasks a).context ≡ (q.tasks a).context
  pub kernel_stack : (a : ℕ) → (q'.tasks a).kernel_stack ≡ (q.tasks a).kernel_stack

lift_vruntime-SameSetup : (a : ℕ) (q : RunQueue) → SameSetup q (lift_vruntime a q)
unfolding lift_vruntime
lift_vruntime-SameSetup a q = record {
  priority = λ b. ground arith;
  context = λ b. ground arith;
  kernel_stack = λ b. ground arith;
}

pub enqueue-SameSetup : (k a : ℕ) (q : RunQueue) → SameSetup q (enqueue k a q)
unfolding enqueue link_task
enqueue-SameSetup k a q = elim (Bool-cases (a == 0 || not ((q.tasks a).state == task_ready))) [
  | inl out ↦
      rw out (record { priority = λ b. refl; context = λ b. refl; kernel_stack = λ b. refl })
  | inr go ↦ rw go (placed (alloc_node (lift_vruntime a q).bitmap))
]
  where
    placed :
        (r : ℕ × (ℕ → ℕ))
        → SameSetup q (
            if is_null r.0
            then lift_vruntime a q
            else link_task k a r.0 (record (lift_vruntime a q) { bitmap = r.1 }))
    placed (zero, m) = lift_vruntime-SameSetup a q
    placed (suc n, m) = record {
      priority = (lift_vruntime-SameSetup a q).priority;
      context = (lift_vruntime-SameSetup a q).context;
      kernel_stack = (lift_vruntime-SameSetup a q).kernel_stack;
    }
