-- ===== src/Sched.antt =====
-- kernel/sched/sched.c and the life of a task in kernel/sched/task.c. Time is an argument (`now`),
-- and `k` bounds the rounds of each loop over the tree and over the list of tasks.
pub mod Sound
pub mod Steps
pub mod Schedule
pub mod Kill
pub mod Create
mod Tests
use arcline.Base.{
  ℕ, zero, suc, ◌+◌, ◌-◌, Bool, true, false, not, ◌&&◌, ◌||◌, ltb, ◌==◌, if◌then◌else◌, Array,
  store, ℤ, pos, negsuc, eq_ℤ, is_null,
}
use arcline.Bitmap.{Words}
use arcline.Task.{Task, Context, task_running, task_ready, task_zombie}
use arcline.Pid
use arcline.Eevdf.{
  RunQueue, put_task, enqueue, dequeue, pick_next, update_curr, calc_slice, is_queued, set_start,
}

-- `current_task`, `task_list` and `pid_bitmap` beside the run queue and the tasks.
pub record Kernel : Type 0 where
  pub queue : RunQueue
  pub current : ℕ
  pub task_list : ℕ
  pub pids : Words

-- The `panic` calls of the scheduler.
pub data Panic : Type 0 where
  ready_not_queued zombie_queued no_idle_task still_queued running_queued : Panic

pub data Run (A : Type 0) : Type 0 where
  fine : A → Run A
  panicked : Panic → Run A

infixl 5 ◌>>=◌
abbrev pub ◌>>=◌ : {A B : Type 0} → Run A → (A → Run B) → Run B
fine a >>= f = f a
panicked p >>= f = panicked p

-- How a call of the scheduler ends: it returns, or it leaves for another task by `switch_to`
-- or, with no previous task, by a jump.
pub data Exit : Type 0 where
  returned : Kernel → Exit
  switched : (prev next : ℕ) → Kernel → Exit

abbrev pub state_of : ℕ → RunQueue → ℕ
state_of a q = (q.tasks a).state

abbrev pub set_state : ℕ → ℕ → RunQueue → RunQueue
set_state a v q = put_task a (record (q.tasks a) { state = v }) q

-- `task->pid == 0`
abbrev pub is_idle : ℕ → RunQueue → Bool
is_idle a q = eq_ℤ (q.tasks a).pid (pos 0)

-- `task_find_by_pid` from the task `p` on, 0 for NULL.
pub find_by_pid : ℕ → ℕ → ℤ → Array Task → ℕ
find_by_pid zero p pid tasks = 0
find_by_pid (suc k) p pid tasks =
    let rest = find_by_pid k (tasks p).next pid tasks in
    if is_null p then 0 else if eq_ℤ (tasks p).pid pid then p else rest

-- A check of the invariant between states and queue: panic if the task is queued.
pub refuse_queued : Panic → ℕ → RunQueue → Run RunQueue
refuse_queued p a q = if is_queued a q then panicked p else fine q

-- A RUNNING task becomes READY and, unless it is the idle task, is enqueued.
pub requeue : ℕ → ℕ → ℕ → RunQueue → Run RunQueue
requeue k now prev q =
    let q1 = set_state prev task_ready (update_curr prev now q) in
    let q2 = enqueue k prev q1 in
    if is_idle prev q1
    then fine q1
    else if is_queued prev q2
    then fine q2
    else panicked ready_not_queued

-- What `schedule` does with the previous task.
pub park : ℕ → ℕ → ℕ → RunQueue → Run RunQueue
unfolding requeue
park k now prev q = if is_null prev then fine q else do
  q1 ← if state_of prev q == task_running then requeue k now prev q else fine q
  if state_of prev q1 == task_zombie then refuse_queued zombie_queued prev q1 else fine q1

-- `eevdf_dequeue` of a task that is not the idle task, and the check behind it.
pub take_out : ℕ → ℕ → RunQueue → Run RunQueue
unfolding refuse_queued
take_out k a q =
    let q1 = dequeue k a q in if is_idle a q then fine q else refuse_queued still_queued a q1

-- The next task starts to run.
pub start : ℕ → ℕ → ℕ → Kernel → Run Kernel
unfolding take_out
start k now next s = do
  q1 ← take_out k next s.queue
  q2 ← refuse_queued running_queued next (set_state next task_running q1)
  let q3 = put_task next (set_start now (q2.tasks next)) q2
  let q4 = put_task next (record (q3.tasks next) { time_slice = calc_slice next q3 }) q3
  fine (record s { queue = q4; current = next })

-- `schedule` when the previous task stays.
pub stay : ℕ → ℕ → RunQueue → Run RunQueue
unfolding refuse_queued
stay k prev q =
    let q1 = dequeue k prev (set_state prev task_running q) in
    if state_of prev q == task_ready then refuse_queued still_queued prev q1 else fine q

pub choose_next : ℕ → Kernel → Run ℕ
choose_next k s =
    let next = pick_next s.queue in
    let idle = find_by_pid k s.task_list (pos 0) s.queue.tasks in
    if not (is_null next)
    then fine next
    else if is_null idle
    then panicked no_idle_task
    else fine idle

-- The choice of `schedule` and what follows it.
pub dispatch : ℕ → ℕ → ℕ → Kernel → ℕ → Run Exit
dispatch k now prev s next =
    if next == prev && not (is_null prev)
    then (stay k prev s.queue >>= λ q. fine (returned (record s { queue = q })))
    else (start k now next s >>= λ s'. fine (switched prev next s'))

pub schedule : ℕ → ℕ → Kernel → Run Exit
schedule k now s = do
  q ← park k now s.current s.queue
  next ← choose_next k (record s { queue = q })
  dispatch k now s.current (record s { queue = q }) next

-- `memcpy(&prev->context, regs, sizeof(cpu_context_t))`
abbrev pub save_context : ℕ → Context → RunQueue → RunQueue
save_context a regs q = put_task a (record (q.tasks a) { context = regs }) q

-- What `schedule_preempt` does with the interrupted task.
pub preempt_park : ℕ → Context → ℕ → ℕ → RunQueue → Run RunQueue
preempt_park k regs now prev q =
    if state_of prev q == task_running
    then requeue k now prev (save_context prev regs q)
    else if state_of prev q == task_zombie
    then refuse_queued zombie_queued prev q
    else fine q

pub preempt_choose : ℕ → Kernel → Run ℕ
preempt_choose k s =
    if not (is_null (pick_next s.queue))
    then fine (pick_next s.queue)
    else if state_of s.current s.queue == task_ready
    then fine s.current
    else choose_next k s

-- `schedule_preempt` when the interrupted task stays.
pub preempt_stay : ℕ → ℕ → RunQueue → Run RunQueue
unfolding refuse_queued
preempt_stay k prev q = if not (state_of prev q == task_ready) then fine q else do
  q1 ← refuse_queued still_queued prev (dequeue k prev q)
  refuse_queued running_queued prev (set_state prev task_running q1)

-- The state and the registers with which the interrupt returns. `now` and `later` are the two
-- readings of the clock.
pub preempt : ℕ → Context → (now later : ℕ) → Kernel → Run (Kernel × Context)
preempt k regs now later s = if is_null s.current then fine (s, regs) else do
  q ← preempt_park k regs now s.current s.queue
  next ← preempt_choose k (record s { queue = q })
  if next == s.current
      then (preempt_stay k s.current q >>= λ q'. fine (record s { queue = q' }, regs))
      else (start k later next (record s { queue = q }) >>= λ s'.
          fine (s', (s'.queue.tasks next).context))

-- `task_kill` takes the task out of the list.
pub unlist : ℕ → Kernel → Kernel
unlist a s =
    let t = s.queue.tasks in
    let t1 =
      if is_null (t a).prev
      then t
      else store t (t a).prev (record (t (t a).prev) { next = (t a).next }) in
    let t2 =
      if is_null (t1 a).next
      then t1
      else store t1 (t1 a).next (record (t1 (t1 a).next) { prev = (t1 a).prev }) in
    record s {
      queue = record (s.queue) { tasks = t2 };
      task_list = if a == s.task_list then (t2 a).next else s.task_list;
    }

-- The state once the task is a zombie and out of the list, before the call of `schedule`.
pub bury : ℕ → ℕ → Kernel → Kernel
unfolding unlist
bury k a s =
    let q = if state_of a s.queue == task_ready then dequeue k a s.queue else s.queue in
    unlist a
      (record s { queue = set_state a task_zombie q; pids = Pid.free s.pids (q.tasks a).pid })

-- How `task_kill` ends: it returns a value, or it leaves by `schedule`.
pub data Killed : Type 0 where
  value : ℤ → Kernel → Killed
  left : Exit → Killed

pub kill : ℕ → ℕ → ℕ → Kernel → Run Killed
kill k now a s =
    let s1 = bury k a s in
    if is_null a
    then fine (value (negsuc 0) s)
    else if is_idle a s.queue
    then fine (value (negsuc 0) s)
    else if state_of a s.queue == task_zombie
    then fine (value (pos 0) s)
    else if a == s1.current
    then (schedule k now (record s1 { current = 0 }) >>= λ e. fine (left e))
    else fine (value (pos 0) s1)

-- `task_exit` up to the call of `schedule`.
pub retire : Kernel → Kernel
retire s = record s {
  queue = set_state s.current task_zombie s.queue;
  pids = Pid.free s.pids (s.queue.tasks s.current).pid;
  current = 0;
}

pub exit : ℕ → ℕ → Kernel → Run Exit
exit k now s = if is_null s.current then fine (returned s) else schedule k now (retire s)
