-- ===== src/Sched/Tests.antt =====
-- The scheduler with the idle task at address 1 and two tasks at addresses 2 and 3, the last of
-- which is queued.
use arcline.Base.{ℕ, ◌≡◌, refl, arith, ◌<◌, inl, inr, Array, ℤ, pos, store}
use arcline.Bitmap.{masked_empty}
use arcline.Task.{Task, Context, task_running, task_ready}
use arcline.Eevdf
use arcline.Eevdf.{RunQueue, enqueue, dequeue, is_queued}
use arcline.Eevdf.Pool.{Holds, Entered, Full}
use arcline.Eevdf.Membership.{enqueue_lem}
use arcline.Eevdf.Tasks.{enqueue-SameTasks}
use arcline.Sched.{Kernel, schedule, preempt}
use arcline.Sched.Sound.{IsSound, IsSound-Entered}
use arcline.Sched.Schedule.{Scheduled, schedule-Scheduled, Preempted, preempt-Preempted}

abbrev context : Context
context = record { x = λ _. 9; sp = 0; pc = 0; pstate = 0x345 }

abbrev task : ℤ → ℕ → ℕ → Task
task pid state next = record {
  pid = pid;
  state = state;
  priority = pos 0;
  time_slice = 4_000_000;
  vruntime = 0;
  context = context;
  kernel_stack = 0;
  pgd = 0;
  next = next;
  prev = 0;
}

abbrev tasks : Array Task
tasks =
    store (store (λ _. task (pos 0) task_ready 0) 2 (task (pos 2) task_running 1)) 3
      (task (pos 3) task_ready 2)

abbrev empty : RunQueue
empty = Eevdf.init tasks

abbrev one_queued : RunQueue
one_queued = enqueue 65 3 empty

empty-Absent : (i a : ℕ) → ¬ Holds empty i a
unfolding Eevdf.init
empty-Absent i a h = ground (arith, masked_empty 64 i, h.used)

empty-IsSound : IsSound empty
empty-IsSound = record {
  unique = λ i j a h k. absurd (empty-Absent i a h);
  ready = λ i a h. absurd (empty-Absent i a h);
  real = λ i a h. absurd (empty-Absent i a h);
  busy = λ i a h. absurd (empty-Absent i a h);
}

entered : (i : ℕ) × Entered empty one_queued 3 i
unfolding Eevdf.init
entered = elim (enqueue_lem 65 3 empty (omega arith) refl) [
  | inl e ↦ e
  | inr f ↦ absurd (ground (arith, masked_empty 64 0, f.0 0 (omega arith)))
]

one_queued-IsSound : IsSound one_queued
unfolding Eevdf.init
one_queued-IsSound =
    IsSound-Entered 3 entered.0 empty-IsSound (λ i. empty-Absent i 3) entered.1
      (enqueue-SameTasks 65 3 empty) refl (omega arith) refl

one_queued_place : (j b : ℕ) → Holds one_queued j b → j ≡ entered.0
one_queued_place j b h = elim (entered.1.only j b h) [
  | inl e ↦ e.0
  | inr old ↦ absurd (empty-Absent j b old)
]

one_queued_room : Full one_queued → ⊥
one_queued_room full = absurd (omega (arith, place 0 (omega arith), place 1 (omega arith)))
  where
    place : (j : ℕ) → j < 64 → j ≡ entered.0
    place j h = one_queued_place j _ (record { inside = h; used = full j h; task = refl })

-- Task 2 runs, and task 3 waits in the queue.
abbrev kernel : Kernel
kernel = record { queue = one_queued; current = 2; task_list = 3; pids = λ _. 1 }

kernel_runs : (one_queued.tasks 2).state ≡ task_running
unfolding Eevdf.init
kernel_runs = (enqueue-SameTasks 65 3 empty).state 2

schedule-Scheduled_example : Scheduled 65 kernel (schedule 65 1000 kernel)
schedule-Scheduled_example =
    schedule-Scheduled 65 1000 kernel one_queued-IsSound (inr kernel_runs) one_queued_room

preempt-Preempted_example : Preempted 65 1010 context kernel (preempt 65 context 1000 1010 kernel)
preempt-Preempted_example =
    preempt-Preempted 65 1000 1010 context kernel one_queued-IsSound kernel_runs (omega arith)
      one_queued_room
