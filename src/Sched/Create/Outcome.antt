-- ===== src/Sched/Create/Outcome.antt =====
-- How `task_create` of kernel/sched/task.c may end.
use mathlib.Core.Path
use arcline.Base.{
  ℕ, ◌<◌, ◌≤◌, ◌≡◌, ◌≢◌, true, false, ◌==◌, if◌then◌else◌, Option, ℤ, pos, is_null, ◌⊎◌,
}
use arcline.Bitmap.{masked}
use arcline.Task.{Task, task_ready}
use arcline.Pid
use arcline.Eevdf.{clamp_nice}
use arcline.Sched.{Kernel}
use arcline.Vmalloc.{Vmalloc, vmalloc, vfree}
use arcline.Sched.Create.{System, Args, Symbols, zero_context, entry_context}

-- Nothing but the memory and what the block at `a` holds is different.
pub record Untouched (a : ℕ) (s t : Kernel) : Type 0 where
  pub numbers : (j : ℕ) → masked 32 t.pids j ≡ masked 32 s.pids j
  pub current : t.current ≡ s.current
  pub task_list : t.task_list ≡ s.task_list
  pub tree : t.queue.tree ≡ s.queue.tree
  pub node_task : t.queue.node_task ≡ s.queue.node_task
  pub bitmap : t.queue.bitmap ≡ s.queue.bitmap
  pub leftmost : t.queue.leftmost ≡ s.queue.leftmost
  pub nr_running : t.queue.nr_running ≡ s.queue.nr_running
  pub load_weight : t.queue.load_weight ≡ s.queue.load_weight
  pub others : (b : ℕ) → b ≢ a → t.queue.tasks b ≡ s.queue.tasks b

-- The task `a` is new: it has a number that was free, the fields that the arguments say, and stands first in the list.
pub record Created (sym : Symbols) (entry : ℕ) (nice : ℤ) (args : Option Args) (s : Kernel) (a : ℕ)
    (t : Kernel) : Type 0 where
  pub pid : ℕ
  pub numbered : (t.queue.tasks a).pid ≡ pos pid
  pub in_range : (1 ≤ pid) × (pid < 32768)
  pub was_free : masked 32 s.pids pid ≡ false
  pub numbers : (j : ℕ) → masked 32 t.pids j ≡ (if j == pid then true else masked 32 s.pids j)
  pub state : (t.queue.tasks a).state ≡ task_ready
  pub priority : (t.queue.tasks a).priority ≡ clamp_nice nice
  pub stack : (t.queue.tasks a).kernel_stack ≢ 0
  pub context : (t.queue.tasks a).context ≡ (
      if is_null entry
      then zero_context
      else entry_context sym entry args (t.queue.tasks a).kernel_stack)
  pub first : t.task_list ≡ a
  pub next : (t.queue.tasks a).next ≡ s.task_list
  pub current : t.current ≡ s.current

-- The first of the list, with its fields kept.
record Linked (a : ℕ) (s t : Kernel) : Type 0 where
  next : (t.queue.tasks a).next ≡ s.task_list
  same_state : (t.queue.tasks a).state ≡ (s.queue.tasks a).state
  same_pid : (t.queue.tasks a).pid ≡ (s.queue.tasks a).pid
  same_priority : (t.queue.tasks a).priority ≡ (s.queue.tasks a).priority
  same_context : (t.queue.tasks a).context ≡ (s.queue.tasks a).context
  same_stack : (t.queue.tasks a).kernel_stack ≡ (s.queue.tasks a).kernel_stack
  first : t.task_list ≡ a
  current : t.current ≡ s.current
  pids : t.pids ≡ s.pids

-- What is left of the memory when no task is created, with the block that `vmalloc` answered and the
-- memory after it: a block goes back by `vfree`.
pub data Returned (k : ℕ) (s : Kernel) (block : ℕ × Vmalloc) : Vmalloc → Type 0 where
  no_block : block.0 ≡ 0 → Returned k s block block.1
  no_number :
      block.0 ≢ 0
      → ((j : ℕ) → 1 ≤ j → j < 32768 → masked 32 s.pids j ≡ true)
      → Returned k s block (vfree k block.0 336 block.1)
  no_stack :
      block.0 ≢ 0
      → (vmalloc k 16384 block.1).0 ≡ 0
      → Returned k s block (vfree k block.0 336 (vmalloc k 16384 block.1).1)

-- Either nothing is created, and all that was taken is given back, or the task is new and has the
-- block and the stack.
abbrev pub CreateOutcome :
    ℕ → Symbols → ℕ → ℤ → Option Args → ℕ × Vmalloc → Kernel → ℕ × System → Type 0
CreateOutcome k sym entry nice args block s r =
    ((r.0 ≡ 0) × Untouched block.0 s r.1.kernel × Returned k s block r.1.memory)
    ⊎ ((r.0 ≡ block.0)
        × (block.0 ≢ 0)
        × Created sym entry nice args s block.0 r.1.kernel
        × ((r.1.kernel.queue.tasks block.0).kernel_stack ≡ (vmalloc k 16384 block.1).0)
        × (r.1.memory ≡ (vmalloc k 16384 block.1).1))
