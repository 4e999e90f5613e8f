-- ===== src/Sched/Steps.antt =====
-- The parts of `schedule` and `schedule_preempt`: none of them meets a panic in a sound state.
use arcline.Base.{
  ℕ, suc, ◌≡◌, ◌≢◌, refl, ap, sym, ◌∙◌, true, false, arith, ◌==◌, inl, inr, Bool-cases, pos, eq_ℤ,
}
use arcline.Task.{Task, task_running, task_ready}
use arcline.Eevdf.{RunQueue, put_task, enqueue, dequeue, update_curr, calc_slice, set_start}
use arcline.Eevdf.Pool.{Holds, Entered, SamePool, SamePool-Holds, Full, is_queued_iff}
use arcline.Eevdf.Membership.{enqueue_lem, update_curr-SamePool}
use arcline.Eevdf.Tasks.{SameTasks, enqueue-SameTasks, tasks-dequeue, update_curr-SameTasks}
use arcline.Sched.{
  Kernel, fine, state_of, set_state, is_idle, requeue, refuse_queued, take_out, start, stay,
  preempt_stay,
}
use arcline.Sched.Sound.{
  IsSound, Absent, not_queued, IsSound-SamePool, IsSound-Entered, dequeue-IsSound,
}

-- The numbers and list links of the tasks are the same.
pub record SameNames (q q' : RunQueue) : Type 0 where
  pub pid : (a : ℕ) → (q'.tasks a).pid ≡ (q.tasks a).pid
  pub next : (a : ℕ) → (q'.tasks a).next ≡ (q.tasks a).next

-- A RUNNING task is not queued.
pub running-Absent : (a : ℕ) (q : RunQueue) → IsSound q → state_of a q ≡ task_running → Absent q a
running-Absent a q s r i h = absurd (omega (arith, s.ready i a h, r))

-- A task that is not READY can be given any field but its number, and the state READY or any other.
pub put_task-IsSound :
    (a : ℕ) (t : Task) (q : RunQueue) → IsSound q → Absent q a → IsSound (put_task a t q)
put_task-IsSound a t q s out =
    IsSound-SamePool s (record { bits = refl; node_task = refl }) λ i b h. kept i b h
  where
    kept :
        (i b : ℕ)
        → Holds q i b
        → (state_of b (put_task a t q) ≡ task_ready) × (is_idle b (put_task a t q) ≡ is_idle b q)
    kept i b h = elim (Bool-cases (b == a)) [
      | inl e ↦ absurd (out i (rw (same e) at h))
      | inr e ↦ (ground (arith, s.ready i b h, e), ground (arith, e))
    ]
      where
        same : (b == a) ≡ true → b ≡ a
        same e = ground arith

pub put_task-Absent : (a b : ℕ) (t : Task) (q : RunQueue) → Absent q b → Absent (put_task a t q) b
put_task-Absent a b t q out i h = out i (record { inside = h.inside; used = h.used; task = h.task })

-- The facts about the state in which a RUNNING task was made READY and queued.
pub record Parked (k a : ℕ) (q p : RunQueue) : Type 0 where
  pub sound : IsSound p
  pub ready : state_of a p ≡ task_ready
  pub names : SameNames q p

module _ (k now a : ℕ) (q : RunQueue) (s : IsSound q) (r : state_of a q ≡ task_running)
    (ne : a ≢ 0) where
  ready_now : RunQueue
  ready_now = set_state a task_ready (update_curr a now q)

  ready_now-Absent : Absent ready_now a
  unfolding ready_now
  ready_now-Absent i h = running-Absent a q s r i (record {
    inside = h.inside;
    used = ap (λ (m : ℕ → ℕ). arcline.Bitmap.masked 64 m i) (sym e.bits) ∙ h.used;
    task = ap (λ (f : ℕ → ℕ). f (suc i)) (sym e.node_task) ∙ h.task;
  })
    where
      e : SamePool q (update_curr a now q)
      e = update_curr-SamePool a now q

  updated : IsSound (update_curr a now q)
  updated = IsSound-SamePool s (update_curr-SamePool a now q) λ i b h. (
    (update_curr-SameTasks a now q).state b ∙ s.ready i b h,
    ap (λ n. eq_ℤ n (pos 0)) ((update_curr-SameTasks a now q).pid b),
  )

  ready_now-Parked : Parked k a q ready_now
  unfolding ready_now
  ready_now-Parked = record {
    sound =
        put_task-IsSound a _ (update_curr a now q) updated
          (λ i h. running-Absent a q s r i ((SamePool-Holds (update_curr-SamePool a now q)).1 h));
    ready = ground arith;
    names = record {
      pid = λ b. ground (arith, (update_curr-SameTasks a now q).pid b);
      next = λ b. ground (arith, (update_curr-SameTasks a now q).next b);
    };
  }

  -- Unless the pool is full, the task is queued, and the check behind `eevdf_enqueue` passes.
  pub requeue-Parked : (Full q → ⊥) → (p : RunQueue) × (requeue k now a q ≡ fine p) × Parked k a q p
  unfolding requeue ready_now
  requeue-Parked room = elim (Bool-cases (is_idle a ready_now)) [
    | inl idle ↦ (ready_now, rw idle refl, ready_now-Parked)
    | inr busy ↦ elim (enqueue_lem k a ready_now ne ready_now-Parked.ready) [
      | inl (i, e) ↦ (
        enqueue k a ready_now,
        rw busy (rw ((is_queued_iff a (enqueue k a ready_now) ne).1 (i, e.now)) refl),
        queued i e busy,
      )
      | inr f ↦
          absurd
            (room (λ i h. ap (λ (m : ℕ → ℕ). arcline.Bitmap.masked 64 m i) (sym bits) ∙ f.0 i h))
    ]
  ]
    where
      bits : ready_now.bitmap ≡ q.bitmap
      bits = (update_curr-SamePool a now q).bits

      queued :
          (i : ℕ)
          → Entered ready_now (enqueue k a ready_now) a i
          → is_idle a ready_now ≡ false
          → Parked k a q (enqueue k a ready_now)
      queued i e b = record {
        sound =
            IsSound-Entered a i ready_now-Parked.sound ready_now-Absent e same
              ready_now-Parked.ready ne b;
        ready = same.state a ∙ ready_now-Parked.ready;
        names = record {
          pid = λ c. same.pid c ∙ ready_now-Parked.names.pid c;
          next = λ c. same.next c ∙ ready_now-Parked.names.next c;
        };
      }
        where
          same : SameTasks ready_now (enqueue k a ready_now)
          same = enqueue-SameTasks k a ready_now

-- A task that is to run: the rest of the state is sound, and it is not queued.
pub record Off (a : ℕ) (q p : RunQueue) : Type 0 where
  pub sound : IsSound p
  pub absent : Absent p a
  pub tasks : p.tasks ≡ q.tasks

module _ (k a : ℕ) (q : RunQueue) (s : IsSound q) (ne : a ≢ 0) where
  pub take_out-Off : (p : RunQueue) × (take_out k a q ≡ fine p) × Off a q p
  unfolding take_out refuse_queued
  take_out-Off = elim (Bool-cases (is_idle a q)) [
    | inl idle ↦ (
      q,
      rw idle refl,
      record { sound = s; absent = λ i h. ground (arith, s.busy i a h, idle); tasks = refl },
    )
    | inr busy ↦ (
      dequeue k a q,
      rw busy (rw (not_queued a (dequeue k a q) out.1) refl),
      record { sound = out.0; absent = out.1; tasks = tasks-dequeue k a q },
    )
  ]
    where
      out : IsSound (dequeue k a q) × Absent (dequeue k a q) a
      out = dequeue-IsSound k a q ne (record {
        unique = s.unique;
        ready = λ i b n h. s.ready i b h;
        real = s.real;
        busy = s.busy;
      })

-- `next` runs: it is current, RUNNING and not queued, and the state is sound.
pub record Running (next : ℕ) (s' : Kernel) : Type 0 where
  pub sound : IsSound s'.queue
  pub current : s'.current ≡ next
  pub running : state_of next s'.queue ≡ task_running
  pub absent : Absent s'.queue next

module _ (k now next : ℕ) (s : Kernel) (sound : IsSound s.queue) (ne : next ≢ 0) where
  -- `next` starts to run with no panic, its register x23 holding the time.
  pub start-Running :
      (s' : Kernel) × (start k now next s ≡ fine s')
      × Running next s'
      × ((s'.queue.tasks next).context.x 23 ≡ now)
  unfolding start refuse_queued
  start-Running = go (take_out-Off k next s.queue sound ne)
    where
      go :
          (p : RunQueue) × (take_out k next s.queue ≡ fine p) × Off next s.queue p
          → (s' : Kernel) × (start k now next s ≡ fine s')
            × Running next s'
            × ((s'.queue.tasks next).context.x 23 ≡ now)
      go (p, e, off) = (
        record s { queue = q4; current = next },
        rw (e, not_queued next q2 out2) refl,
        record {
          sound =
              put_task-IsSound next _ q3
                (put_task-IsSound next _ q2 (put_task-IsSound next _ p off.sound off.absent) out2)
                out3;
          current = refl;
          running = ground arith;
          absent = put_task-Absent next next _ q3 out3;
        },
        ground arith,
      )
        where
          q2 : RunQueue
          q2 = set_state next task_running p

          out2 : Absent q2 next
          out2 = put_task-Absent next next _ p off.absent

          q3 : RunQueue
          q3 = put_task next (set_start now (q2.tasks next)) q2

          out3 : Absent q3 next
          out3 = put_task-Absent next next _ q2 out2

          q4 : RunQueue
          q4 = put_task next (record (q3.tasks next) { time_slice = calc_slice next q3 }) q3

module _ (k a : ℕ) (q : RunQueue) (s : IsSound q) (ne : a ≢ 0) (r : state_of a q ≡ task_ready) where
  -- The READY task that stays is taken out and RUNNING again, with no panic.
  pub stay-Running :
      (p : RunQueue) × (stay k a q ≡ fine p)
      × IsSound p
      × (state_of a p ≡ task_running)
      × Absent p a
  unfolding stay refuse_queued
  stay-Running = (
    p,
    rw (ready, not_queued a p out.1) refl,
    out.0,
    ap (λ (t : ℕ → Task). (t a).state) (tasks-dequeue k a q1) ∙ ground arith,
    out.1,
  )
    where
      q1 : RunQueue
      q1 = set_state a task_running q

      p : RunQueue
      p = dequeue k a q1

      ready : (state_of a q == task_ready) ≡ true
      ready = ground arith

      old : {i b : ℕ} → Holds q1 i b → Holds q i b
      old h = record { inside = h.inside; used = h.used; task = h.task }

      out : IsSound p × Absent p a
      out = dequeue-IsSound k a q1 ne (record {
        unique = λ i j b h l. s.unique i j b (old h) (old l);
        ready = λ i b n h. ground (arith, s.ready i b (old h), n);
        real = λ i b h. s.real i b (old h);
        busy = λ i b h. ground (arith, s.busy i b (old h));
      })

  -- The same of `schedule_preempt`.
  pub preempt_stay-Running :
      (p : RunQueue) × (preempt_stay k a q ≡ fine p)
      × IsSound p
      × (state_of a p ≡ task_running)
      × Absent p a
  unfolding preempt_stay refuse_queued
  preempt_stay-Running = (
    p,
    rw (ready, not_queued a (dequeue k a q) out.1, not_queued a p gone) refl,
    put_task-IsSound a _ (dequeue k a q) out.0 out.1,
    ground arith,
    gone,
  )
    where
      p : RunQueue
      p = set_state a task_running (dequeue k a q)

      ready : (state_of a q == task_ready) ≡ true
      ready = ground arith

      out : IsSound (dequeue k a q) × Absent (dequeue k a q) a
      out = dequeue-IsSound k a q ne (record {
        unique = s.unique;
        ready = λ i b n h. s.ready i b h;
        real = s.real;
        busy = s.busy;
      })

      gone : Absent p a
      gone = put_task-Absent a a _ (dequeue k a q) out.1
