-- ===== src/Sched/Create.antt =====
-- `task_create` and `task_init` of kernel/sched/task.c. `k` bounds the rounds of the loops over trees and lists.
pub mod Outcome
mod Tests
use arcline.Base.{
  ℕ, zero, suc, ◌+◌, ◌-◌, ◌%◌, ◌^◌, Bool, not, ◌==◌, if◌then◌else◌, Array, store, Option, none,
  some, ℤ, pos, negsuc, is_neg, is_null, add64,
}
use arcline.Bitmap.{Words}
use arcline.Task.{Task, Context, task_ready, task_running}
use arcline.Pid
use arcline.Eevdf
use arcline.Eevdf.{RunQueue, put_task, clamp_nice}
use arcline.Sched.{Kernel}
use arcline.Vmalloc.{Vmalloc, vmalloc, vfree}

-- The tasks beside the memory that they are allocated from.
pub record System : Type 0 where
  pub kernel : Kernel
  pub memory : Vmalloc

-- `task_args`
pub record Args : Type 0 where
  pub argc : ℤ
  pub argv : ℕ
  pub envp : ℕ

-- The addresses of `task_entry_wrapper` and `task_exit`, and what `mmu_get_ttbr1` reads.
pub record Symbols : Type 0 where
  pub entry_wrapper : ℕ
  pub exit : ℕ
  pub ttbr1 : ℕ

-- `sizeof(task_t)`: three numbers of 32 bits and a gap, two of 64, 34 registers and four pointers.
abbrev pub task_size : ℕ
task_size = 336

abbrev pub kernel_stack_size : ℕ
kernel_stack_size = 16384

abbrev pub zero_context : Context
zero_context = record { x = λ i. 0; sp = 0; pc = 0; pstate = 0 }

-- `memset(task, 0, sizeof(task_t))`
abbrev pub zero_task : Task
zero_task = record {
  pid = pos 0;
  state = 0;
  priority = pos 0;
  time_slice = 0;
  vruntime = 0;
  context = zero_context;
  kernel_stack = 0;
  pgd = 0;
  next = 0;
  prev = 0;
}

-- An `int` as `uint64_t`.
abbrev pub word_of : ℤ → ℕ
word_of (pos n) = n
word_of (negsuc n) = 2 ^ 64 - 1 - n

abbrev pub argc_of : Option Args → ℕ
argc_of none = 0
argc_of (some a) = word_of a.argc

abbrev pub argv_of : Option Args → ℕ
argv_of none = 0
argv_of (some a) = a.argv

abbrev pub envp_of : Option Args → ℕ
envp_of none = 0
envp_of (some a) = a.envp

-- The context from which a new task starts: `entry` is in x19, its arguments in x20 to x22.
pub entry_context : Symbols → ℕ → Option Args → ℕ → Context
entry_context sym entry args kernel_stack =
    let top = add64 kernel_stack kernel_stack_size in
    let x =
      store (store (store (store zero_context.x 19 entry) 20 (argc_of args)) 21 (argv_of args)) 22
        (envp_of args) in
    record {
      x = store (store (store x 23 0) 29 0) 30 sym.exit;
      sp = top - top % 16;
      pc = sym.entry_wrapper;
      pstate = 0x345;
    }

-- The fields that are set before the stack is allocated.
abbrev pub prepared : ℤ → ℤ → Task
prepared pid priority = record zero_task {
  pid = pid;
  state = task_ready;
  priority = clamp_nice priority;
  time_slice = 4000000;
}

-- The fields of the new task.
pub new_task : Symbols → ℤ → ℤ → ℕ → ℕ → Option Args → Task
unfolding entry_context
new_task sym pid priority stack entry args = record (prepared pid priority) {
  kernel_stack = stack;
  pgd = sym.ttbr1;
  context = if is_null entry then zero_context else entry_context sym entry args stack;
}

-- The task becomes the first of the list.
pub link_first : ℕ → Kernel → Kernel
link_first a s =
    let q1 = put_task a (record (s.queue.tasks a) { next = s.task_list }) s.queue in
    let q2 = put_task s.task_list (record (q1.tasks s.task_list) { prev = a }) q1 in
    record s { queue = if is_null s.task_list then q1 else q2; task_list = a }

-- `if (entry)`, the queue has the task.
pub queue_new : ℕ → ℕ → ℕ → RunQueue → RunQueue
queue_new k a entry q = if is_null entry then q else Eevdf.enqueue k a q

-- The new task, once its memory and its number are there.
pub add_task : ℕ → ℕ → Task → ℕ → Kernel → Kernel
unfolding link_first queue_new
add_task k a t entry s =
    link_first a (record s { queue = queue_new k a entry (put_task a t s.queue) })

-- `task_create` once the task's block is there, with what `pid_alloc` and the `vmalloc` of the stack answer.
pub create_with :
    ℕ → Symbols → ℕ → ℤ → Option Args → ℕ → ℤ × Words → ℕ × Vmalloc → System → ℕ × System
unfolding new_task add_task
create_with k sym entry priority args a numbered stack w =
    let s = w.kernel in
    let s1 = record s {
      queue = put_task a (record zero_task { pid = numbered.0 }) s.queue;
      pids = numbered.1;
    } in
    let s2 = record s {
      queue = put_task a (prepared numbered.0 priority) s.queue;
      pids = Pid.free numbered.1 numbered.0;
    } in
    let t = new_task sym numbered.0 priority stack.0 entry args in
    if is_neg numbered.0
    then (0, record { kernel = s1; memory = vfree k a task_size w.memory })
    else if is_null stack.0
    then (0, record { kernel = s2; memory = vfree k a task_size stack.1 })
    else (
      a,
      record { kernel = add_task k a t entry (record s { pids = numbered.1 }); memory = stack.1 },
    )

pub create_in : ℕ → Symbols → ℕ → ℤ → Option Args → ℕ → System → ℕ × System
unfolding create_with
create_in k sym entry priority args a w =
    create_with k sym entry priority args a (Pid.alloc w.kernel.pids)
      (vmalloc k kernel_stack_size w.memory) w

-- The new task's address, 0 for NULL.
pub create : ℕ → Symbols → ℕ → ℤ → Option Args → System → ℕ × System
unfolding create_in
create k sym entry priority args w =
    let block = vmalloc k task_size w.memory in
    let w1 = record w { memory = block.1 } in
    if is_null block.0 then (0, w1) else create_in k sym entry priority args block.0 w1

-- `task_init`: `none` is the panic. `idle_entry` is the address of `idle_task_entry`.
pub init : ℕ → Symbols → ℕ → System → Option System
unfolding create
init k sym idle_entry w =
    let s = record (w.kernel) { pids = Pid.init; queue = Eevdf.init w.kernel.queue.tasks } in
    let made = create k sym idle_entry (pos 0) none (record w { kernel = s }) in
    let idle = made.0 in
    let q1 = made.1.kernel.queue in
    let q2 = put_task idle (record (q1.tasks idle) { pid = pos 0 }) q1 in
    let q3 = Eevdf.dequeue k idle q2 in
    let q4 = put_task idle (record (q3.tasks idle) { state = task_running }) q3 in
    if is_null idle
    then none
    else some (record (made.1) { kernel = record (made.1.kernel) { queue = q4; current = idle } })
