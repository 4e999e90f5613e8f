-- ===== src/Sched/Kill.antt =====
-- `task_kill`: its guards, and what it leaves behind.
use arcline.Base.{ℕ, ◌≡◌, ◌≢◌, ◌≤◌, ◌<◌, ◌⊎◌, true, false, ◌==◌, if◌then◌else◌, pos, negsuc}
use arcline.Bitmap.{masked}
use arcline.Pid
use arcline.Task.{Task, task_ready, task_zombie}
use arcline.Eevdf.{RunQueue, dequeue}
use arcline.Eevdf.Pool.{SamePool}
use arcline.Sched.{Kernel, Run, fine, Killed, value, left, ◌>>=◌, is_idle, state_of, schedule}
use arcline.Sched.Sound.{IsSound, Absent}

-- `unlist` writes list links only: the neighbours' and the head.
pub record Unlinked (a : ℕ) (s s' : Kernel) : Type 0 where
  pub head : s'.task_list ≡ (if a == s.task_list then (s.queue.tasks a).next else s.task_list)
  pub before :
      (b : ℕ)
      → b ≢ 0
      → (s'.queue.tasks b).next
        ≡ (if b == (s.queue.tasks a).prev then (s.queue.tasks a).next else (s.queue.tasks b).next)
  pub behind :
      (b : ℕ)
      → b ≢ 0
      → (s'.queue.tasks b).prev
        ≡ (if b == (s.queue.tasks a).next then (s.queue.tasks a).prev else (s.queue.tasks b).prev)

-- `unlist` writes list links only.
record SameStates (q p : RunQueue) : Type 0 where
  pool : SamePool q p
  state : (b : ℕ) → state_of b p ≡ state_of b q
  pid : (b : ℕ) → (p.tasks b).pid ≡ (q.tasks b).pid

-- The killed task is a ZOMBIE that no node holds and that its neighbours in the list no longer link,
-- its number, if it is one that `pid_alloc` gives out, is free and no other has changed, the current
-- task is the same, and the invariant holds.
pub record Buried (a : ℕ) (s s' : Kernel) : Type 0 where
  pub sound : IsSound s'.queue
  pub absent : Absent s'.queue a
  pub zombie : state_of a s'.queue ≡ task_zombie
  pub unlinked : Unlinked a s s'
  pub current : s'.current ≡ s.current
  pub numbers :
      (p : ℕ)
      → (s.queue.tasks a).pid ≡ pos p
      → 1 ≤ p
      → p < 32768
      → (j : ℕ) → masked 32 s'.pids j ≡ (if j == p then false else masked 32 s.pids j)

module _ (k a : ℕ) (s : Kernel) (sound : IsSound s.queue) (ne : a ≢ 0) where
  -- The queue once the task is taken out, if it was READY.
  abbrev off : RunQueue
  off = if state_of a s.queue == task_ready then dequeue k a s.queue else s.queue

-- How `task_kill` ends.
pub data KillEnd (k now a : ℕ) (s : Kernel) : Run Killed → Type 0 where
  refused : (a ≡ 0) ⊎ (is_idle a s.queue ≡ true) → KillEnd k now a s (fine (value (negsuc 0) s))
  dead :
      a ≢ 0
      → is_idle a s.queue ≡ false
      → state_of a s.queue ≡ task_zombie
      → KillEnd k now a s (fine (value (pos 0) s))
  another :
      (s' : Kernel)
      → a ≢ 0
      → a ≢ s.current
      → Buried a s s'
      → KillEnd k now a s (fine (value (pos 0) s'))
  current :
      (s' : Kernel)
      → a ≢ 0
      → a ≡ s.current
      → Buried a s s'
      → KillEnd k now a s (schedule k now (record s' { current = 0 }) >>= λ e. fine (left e))
