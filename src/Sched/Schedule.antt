-- ===== src/Sched/Schedule.antt =====
-- `schedule` and `schedule_preempt` as wholes.
use arcline.Base.{
  ℕ, zero, suc, ◌<◌, ◌≡◌, ◌≢◌, refl, sym, ap, ◌∙◌, true, false, not, ◌&&◌, arith, ◌==◌,
  if◌then◌else◌, ◌⊎◌, inl, inr, Bool-cases, ℤ, pos, eq_ℤ, Array, is_null,
}
use arcline.Task.{Task, Context, task_running, task_ready}
use arcline.Eevdf.{RunQueue, pick_next}
use arcline.Eevdf.Pool.{Full}
use arcline.Sched.{
  Kernel, Run, fine, panicked, no_idle_task, Exit, returned, switched, state_of, find_by_pid,
  requeue, park, choose_next, dispatch, schedule, start, stay, ◌>>=◌, preempt, preempt_park,
  preempt_choose, preempt_stay, save_context,
}
use arcline.Sched.Sound.{IsSound, Absent}
use arcline.Sched.Steps.{
  SameNames, Parked, requeue-Parked, Running, start-Running, stay-Running, preempt_stay-Running,
  running-Absent, put_task-IsSound,
}

-- The search by number reads nothing of a task but its number and its link.
pub find_by_pid_cong :
    (k p : ℕ) (pid : ℤ) (q q' : RunQueue)
    → SameNames q q'
    → find_by_pid k p pid q'.tasks ≡ find_by_pid k p pid q.tasks
unfolding find_by_pid
find_by_pid_cong zero p pid q q' e = refl
find_by_pid_cong (suc k) p pid q q' e =
    rw (e.pid p, e.next p, find_by_pid_cong k (q.tasks p).next pid q q' e) refl

-- The task at a place of a list of tasks, NULL behind its end.
abbrev pub linked : ℕ → ℕ → Array Task → ℕ
linked zero p tasks = p
linked (suc i) p tasks = if is_null p then 0 else linked i (tasks p).next tasks

-- None of the first `k` tasks of the list has the number 0, which is the idle task's.
abbrev pub NoIdle : ℕ → Kernel → Type 0
NoIdle k s =
    (i : ℕ)
    → i < k
    → linked i s.task_list s.queue.tasks ≢ 0
    → (s.queue.tasks (linked i s.task_list s.queue.tasks)).pid ≢ pos 0

find_by_pid_none :
    (k p : ℕ) (tasks : Array Task)
    → find_by_pid k p (pos 0) tasks ≡ 0
    → (i : ℕ) → i < k
    → linked i p tasks ≢ 0
    → (tasks (linked i p tasks)).pid ≢ pos 0
unfolding find_by_pid
find_by_pid_none zero p tasks e i l = absurd (omega (arith, l))
find_by_pid_none (suc k) p tasks e zero l = λ ne z.
    let at : eq_ℤ (tasks p).pid (pos 0) ≡ true = ap (λ n. eq_ℤ n (pos 0)) z in
    ground (arith, e, at, ne)
find_by_pid_none (suc k) p tasks e (suc i) l = elim (Bool-cases (is_null p)) [
  | inl null ↦ rw null (λ ne. absurd (ne refl))
  | inr real ↦
      rw real
        (find_by_pid_none k (tasks p).next tasks (ground (arith, e, real)) i (omega (arith, l)))
]

-- The idle task that `schedule` falls back on.
abbrev idle_task : ℕ → Kernel → ℕ
idle_task k s = find_by_pid k s.task_list (pos 0) s.queue.tasks

-- How a choice of the next task ends.
abbrev Chosen : ℕ → Kernel → Run ℕ → Type 0
Chosen k s (fine n) = n ≢ 0
Chosen k s (panicked e) = (e ≡ no_idle_task) × (idle_task k s ≡ 0)

choose_next-Chosen : (k : ℕ) (s : Kernel) → Chosen k s (choose_next k s)
unfolding choose_next
choose_next-Chosen k s = go (pick_next s.queue) (idle_task k s) refl
  where
    go :
        (n i : ℕ)
        → idle_task k s ≡ i
        → Chosen k s (
            if not (is_null n) then fine n else if is_null i then panicked no_idle_task else fine i)
    go zero zero e = (refl, e)
    go zero (suc i) e = λ z. cc
    go (suc n) i e = λ z. cc

-- How a call of `schedule` may end.
abbrev pub Scheduled : ℕ → Kernel → Run Exit → Type 0
Scheduled k s (fine (returned s')) = Running s.current s'
Scheduled k s (fine (switched p n s')) = (p ≡ s.current) × (n ≢ s.current) × Running n s'
Scheduled k s (panicked e) = (e ≡ no_idle_task) × NoIdle k s

-- The current task has no place in the queue: there is none, or it is RUNNING.
abbrev pub AtRest : Kernel → Type 0
AtRest s = (s.current ≡ 0) ⊎ (state_of s.current s.queue ≡ task_running)

-- The previous task, if there is one, is READY.
record Ready (k : ℕ) (s : Kernel) (q : RunQueue) : Type 0 where
  sound : IsSound q
  ready : s.current ≢ 0 → state_of s.current q ≡ task_ready
  names : SameNames s.queue q

module _ (k now : ℕ) (s : Kernel) (sound : IsSound s.queue) (rest : AtRest s)
    (room : Full s.queue → ⊥) where
  park-Ready : (q : RunQueue) × (park k now s.current s.queue ≡ fine q) × Ready k s q
  unfolding park
  park-Ready = elim (Bool-cases (is_null s.current)) [
    | inl null ↦ (
      s.queue,
      rw null refl,
      record {
        sound = sound;
        ready = λ ne. ground (arith, ne, null);
        names = record { pid = λ a. refl; next = λ a. refl };
      },
    )
    | inr real ↦
        go real (requeue-Parked k now s.current s.queue sound (runs real) (nonnull real) room)
  ]
    where
      nonnull : is_null s.current ≡ false → s.current ≢ 0
      nonnull r z = ground (arith, r, z)

      runs : is_null s.current ≡ false → state_of s.current s.queue ≡ task_running
      runs r = elim rest [ inl z ↦ absurd (nonnull r z) | inr e ↦ e ]

      go :
          is_null s.current ≡ false
          → (p : RunQueue) × (requeue k now s.current s.queue ≡ fine p)
            × Parked k s.current s.queue p
          → (q : RunQueue) × (park k now s.current s.queue ≡ fine q) × Ready k s q
      go real (p, e, f) = (
        p,
        rw (real, runs real, e, f.ready) refl,
        record { sound = f.sound; ready = λ _. f.ready; names = f.names },
      )

  dispatch-Scheduled :
      (q : RunQueue) (n : ℕ)
      → n ≢ 0
      → Ready k s q
      → Scheduled k s (dispatch k now s.current (record s { queue = q }) n)
  unfolding dispatch
  dispatch-Scheduled q n ne f = elim (Bool-cases (n == s.current && not (is_null s.current))) [
    | inl same ↦
        rw same
          (stayed (stay-Running k s.current q f.sound (ground arith) (f.ready (ground arith))))
    | inr other ↦ rw other (left other (start-Running k now n (record s { queue = q }) f.sound ne))
  ]
    where
      stayed :
          (p : RunQueue) × (stay k s.current q ≡ fine p)
            × IsSound p
            × (state_of s.current p ≡ task_running)
            × Absent p s.current
          → Scheduled k s (stay k s.current q >>= λ q'. fine (returned (record s { queue = q' })))
      stayed (p, e, a, b, c) = rw e (record { sound = a; current = refl; running = b; absent = c })

      left :
          (n == s.current && not (is_null s.current)) ≡ false
          → (s' : Kernel) × (start k now n (record s { queue = q }) ≡ fine s')
            × Running n s'
            × ((s'.queue.tasks n).context.x 23 ≡ now)
          → Scheduled k s
              (start k now n (record s { queue = q }) >>= λ s'. fine (switched s.current n s'))
      left other (s', e, r, _) = rw e (refl, λ z. ground (arith, other, z, ne), r)

  -- In a sound state whose current task is NULL or RUNNING and whose pool of 64 nodes is not full,
  -- `schedule`, searching the task list `k` tasks deep, panics only if none of the first `k` tasks of
  -- the list has the number 0. Otherwise it keeps the current task, or switches to another one, and
  -- in both cases the state is sound, and the task that runs is current, RUNNING and in no node that
  -- is in use, which is how `eevdf_is_queued` tells a queued task.
  pub schedule-Scheduled : Scheduled k s (schedule k now s)
  unfolding schedule
  schedule-Scheduled = go park-Ready
    where
      go :
          (q : RunQueue) × (park k now s.current s.queue ≡ fine q) × Ready k s q
          → Scheduled k s (schedule k now s)
      go (q, e, f) = rw e (
          chosen (choose_next k (record s { queue = q }))
            (choose_next-Chosen k (record s { queue = q })))
        where
          chosen :
              (r : Run ℕ)
              → Chosen k (record s { queue = q }) r
              → Scheduled k s (r >>= λ n. dispatch k now s.current (record s { queue = q }) n)
          chosen (fine n) ne = dispatch-Scheduled q n ne f
          chosen (panicked p) (a, b) = (
            a,
            find_by_pid_none k s.task_list s.queue.tasks
                (sym (find_by_pid_cong k s.task_list (pos 0) s.queue q f.names) ∙ b),
          )

-- How a call of `schedule_preempt` may end, `later` being the second reading of the clock.
abbrev pub Preempted : ℕ → ℕ → Context → Kernel → Run (Kernel × Context) → Type 0
Preempted k later regs s (fine (s', regs')) =
    ((regs' ≡ regs) × Running s.current s')
    ⊎ ((n : ℕ) × (n ≢ s.current)
        × Running n s'
        × (regs' ≡ (s'.queue.tasks n).context)
        × (regs'.x 23 ≡ later))
Preempted k later regs s (panicked e) = (e ≡ no_idle_task) × NoIdle k s

module _ (k now later : ℕ) (regs : Context) (s : Kernel) (sound : IsSound s.queue)
    (runs : state_of s.current s.queue ≡ task_running) (real : s.current ≢ 0)
    (room : Full s.queue → ⊥) where
  saved : RunQueue
  saved = save_context s.current regs s.queue

  preempt_park-Parked :
      (q : RunQueue) × (preempt_park k regs now s.current s.queue ≡ fine q)
      × Parked k s.current s.queue q
  unfolding preempt_park
  preempt_park-Parked = rw test (
      go (
        requeue-Parked k now s.current (save_context s.current regs s.queue)
          (put_task-IsSound s.current _ s.queue sound (running-Absent s.current s.queue sound runs))
          (ground arith) real room))
    where
      test : (state_of s.current s.queue == task_running) ≡ true
      test = ground arith

      go :
          (p : RunQueue) × (requeue k now s.current (save_context s.current regs s.queue) ≡ fine p)
            × Parked k s.current (save_context s.current regs s.queue) p
          → (p : RunQueue) × (requeue k now s.current (save_context s.current regs s.queue)
              ≡ fine p)
            × Parked k s.current s.queue p
      go (p, e, f) = (
        p,
        e,
        record {
          sound = f.sound;
          ready = f.ready;
          names = record {
            pid = λ a. f.names.pid a ∙ ground arith;
            next = λ a. f.names.next a ∙ ground arith;
          };
        },
      )

  preempt_choose-Chosen :
      (q : RunQueue) → Chosen k (record s { queue = q }) (preempt_choose k (record s { queue = q }))
  unfolding preempt_choose
  preempt_choose-Chosen q = ground (arith, choose_next-Chosen k (record s { queue = q }), real)

  -- In a sound state whose current task is not NULL and RUNNING and whose pool of 64 nodes is not
  -- full, `schedule_preempt`, searching the task list `k` tasks deep, panics only if none of the first
  -- `k` tasks of the list has the number 0. Otherwise it keeps the task and its registers, or it makes
  -- another task current, RUNNING and in no node that is in use, and returns with that task's saved
  -- registers, of which x23 is the time `later`, whatever value the task had in it. The state stays
  -- sound.
  pub preempt-Preempted : Preempted k later regs s (preempt k regs now later s)
  unfolding preempt
  preempt-Preempted = rw null (go preempt_park-Parked)
    where
      null : is_null s.current ≡ false
      null = ground arith

      Rest : RunQueue → ℕ → Run (Kernel × Context)
      Rest q n =
          if n == s.current
          then (preempt_stay k s.current q >>= λ q'. fine (record s { queue = q' }, regs))
          else (start k later n (record s { queue = q }) >>= λ s'.
              fine (s', (s'.queue.tasks n).context))

      go :
          (q : RunQueue) × (preempt_park k regs now s.current s.queue ≡ fine q)
            × Parked k s.current s.queue q
          → Preempted k later regs s (
              preempt_park k regs now s.current s.queue >>= λ q.
              preempt_choose k (record s { queue = q }) >>= λ n. Rest q n)
      go (q, e, f) =
          rw e (chosen (preempt_choose k (record s { queue = q })) (preempt_choose-Chosen q))
        where
          kept :
              (p : RunQueue) × (preempt_stay k s.current q ≡ fine p)
                × IsSound p
                × (state_of s.current p ≡ task_running)
                × Absent p s.current
              → Preempted k later regs s
                  (preempt_stay k s.current q >>= λ q'. fine (record s { queue = q' }, regs))
          kept (p, e, a, b, c) =
              rw e (inl (refl, record { sound = a; current = refl; running = b; absent = c }))

          left :
              (n : ℕ)
              → n ≢ s.current
              → (s' : Kernel) × (start k later n (record s { queue = q }) ≡ fine s')
                × Running n s'
                × ((s'.queue.tasks n).context.x 23 ≡ later)
              → Preempted k later regs s (
                  start k later n (record s { queue = q }) >>= λ s'.
                  fine (s', (s'.queue.tasks n).context))
          left n ne (s', e, r, t) = rw e (inr (n, ne, r, refl, t))

          decided : (n : ℕ) → n ≢ 0 → Preempted k later regs s (Rest q n)
          decided n ne = elim (Bool-cases (n == s.current)) [
            | inl same ↦ rw same (kept (preempt_stay-Running k s.current q f.sound real f.ready))
            | inr other ↦ rw other (
                left n (λ z. ground (arith, other, z))
                  (start-Running k later n (record s { queue = q }) f.sound ne))
          ]

          chosen :
              (r : Run ℕ)
              → Chosen k (record s { queue = q }) r
              → Preempted k later regs s (r >>= λ n. Rest q n)
          chosen (fine n) ne = decided n ne
          chosen (panicked p) (a, b) = (
            a,
            find_by_pid_none k s.task_list s.queue.tasks
                (sym (find_by_pid_cong k s.task_list (pos 0) s.queue q f.names) ∙ b),
          )
