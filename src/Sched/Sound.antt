-- ===== src/Sched/Sound.antt =====
-- The invariant between the states of the tasks and the run queue, and the operations that keep it.
use arcline.Base.{ℕ, ◌≡◌, ◌≢◌, refl, ap, sym, ◌∙◌, true, false, inl, inr, Bool-cases, pos, eq_ℤ}
use arcline.Task.{Task, task_ready}
use arcline.Eevdf.{RunQueue, dequeue, is_queued}
use arcline.Eevdf.Pool.{
  Holds, Unique, Entered, SamePool, SamePool-Holds, is_queued_iff, is_queued_null,
}
use arcline.Eevdf.Membership.{dequeue_lem}
use arcline.Eevdf.Tasks.{SameTasks, tasks-dequeue}
use arcline.Sched.{state_of, is_idle}

-- A queued task has one node, is READY, is no NULL pointer and is not the idle task.
pub record IsSound (q : RunQueue) : Type 0 where
  pub unique : Unique q
  pub ready : (i a : ℕ) → Holds q i a → state_of a q ≡ task_ready
  pub real : (i a : ℕ) → Holds q i a → a ≢ 0
  pub busy : (i a : ℕ) → Holds q i a → is_idle a q ≡ false

-- No node holds the task.
abbrev pub Absent : RunQueue → ℕ → Type 0
Absent q a = (i : ℕ) → ¬ Holds q i a

pub not_queued : (a : ℕ) (q : RunQueue) → Absent q a → is_queued a q ≡ false
not_queued a q h = elim (Bool-cases (is_queued a q)) [
  | inl yes' ↦ absurd (h _ ((is_queued_iff a q (real yes')).0 yes').1)
  | inr no' ↦ no'
]
  where
    real : is_queued a q ≡ true → a ≢ 0
    real e z = is_queued_null q (rw z at e)

module _ {q p : RunQueue} where
  -- The invariant is about the pool, and the states and numbers of queued tasks.
  pub IsSound-SamePool :
      IsSound q
      → SamePool q p
      → ((i a : ℕ) → Holds q i a → (state_of a p ≡ task_ready) × (is_idle a p ≡ is_idle a q))
      → IsSound p
  IsSound-SamePool s e t = record {
    unique = λ i j a h k. s.unique i j a (old h) (old k);
    ready = λ i a h. (t i a (old h)).0;
    real = λ i a h. s.real i a (old h);
    busy = λ i a h. (t i a (old h)).1 ∙ s.busy i a (old h);
  }
    where
      old : {i a : ℕ} → Holds p i a → Holds q i a
      old h = (SamePool-Holds e).1 h

  pub IsSound-Entered :
      (a i : ℕ)
      → IsSound q
      → Absent q a
      → Entered q p a i
      → SameTasks q p
      → state_of a q ≡ task_ready
      → a ≢ 0
      → is_idle a q ≡ false
      → IsSound p
  IsSound-Entered a i s out e t r ne b = record {
    unique = λ j l c h k. elim (e.only j c h) [
      | inl x ↦ elim (e.only l c k) [
        | inl y ↦ x.0 ∙ sym y.0
        | inr y ↦ absurd (out l (rw (x.1) at y))
      ]
      | inr x ↦ elim (e.only l c k) [
        | inl y ↦ absurd (out j (rw (y.1) at x))
        | inr y ↦ s.unique j l c x y
      ]
    ];
    ready = λ j c h. t.state c ∙ elim (e.only j c h) [ inl x ↦ rw (x.1) r | inr x ↦ s.ready j c x ];
    real = λ j c h. elim (e.only j c h) [ inl x ↦ rw (x.1) ne | inr x ↦ s.real j c x ];
    busy = λ j c h.
        ap (λ n. eq_ℤ n (pos 0)) (t.pid c)
        ∙ elim (e.only j c h) [ inl x ↦ rw (x.1) b | inr x ↦ s.busy j c x ];
  }

-- The invariant, but for the state of the task `a`.
pub record IsSoundBut (a : ℕ) (q : RunQueue) : Type 0 where
  pub unique : Unique q
  pub ready : (i b : ℕ) → b ≢ a → Holds q i b → state_of b q ≡ task_ready
  pub real : (i b : ℕ) → Holds q i b → b ≢ 0
  pub busy : (i b : ℕ) → Holds q i b → is_idle b q ≡ false

-- Once `a` is taken out, the invariant holds and `a` is not queued.
pub dequeue-IsSound :
    (k a : ℕ) (q : RunQueue)
    → a ≢ 0
    → IsSoundBut a q
    → IsSound (dequeue k a q) × Absent (dequeue k a q) a
dequeue-IsSound k a q ne s = (
  record {
    unique = λ i j b h l. s.unique i j b (old h).0 (old l).0;
    ready = λ i b h.
        ap (λ (t : ℕ → Task). (t b).state) (tasks-dequeue k a q) ∙ s.ready i b (old h).1 (old h).0;
    real = λ i b h. s.real i b (old h).0;
    busy = λ i b h.
        ap (λ (t : ℕ → Task). eq_ℤ (t b).pid (pos 0)) (tasks-dequeue k a q) ∙ s.busy i b (old h).0;
  },
  λ i h. (old h).1 refl,
)
  where
    old : {j b : ℕ} → Holds (dequeue k a q) j b → Holds q j b × (b ≢ a)
    old {j} {b} h = (dequeue_lem k a q ne s.unique j b).0 h
