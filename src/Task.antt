-- ===== src/Task.antt =====
-- include/kernel/sched/task.h: tasks and their saved contexts. A task is named by its address, 0 is
-- NULL.
use arcline.Base.{ℕ, Array, ℤ}

-- `cpu_context_t`: the registers x0 to x30 by number, and the three others.
pub record Context : Type 0 where
  pub x : Array ℕ
  pub sp : ℕ
  pub pc : ℕ
  pub pstate : ℕ

pub record Task : Type 0 where
  pub pid : ℤ
  pub state : ℕ
  pub priority : ℤ
  pub time_slice : ℕ
  pub vruntime : ℕ
  pub context : Context
  pub kernel_stack : ℕ
  pub pgd : ℕ
  pub next : ℕ
  pub prev : ℕ

abbrev pub task_running : ℕ
task_running = 0

abbrev pub task_ready : ℕ
task_ready = 1

abbrev pub task_blocked : ℕ
task_blocked = 2

abbrev pub task_zombie : ℕ
task_zombie = 3
