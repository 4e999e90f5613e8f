-- ===== src/Eevdf/Slice.antt =====
-- The time slice and the nice value of a task.
use arcline.Base.{
  ℕ, ◌≤◌, ◌≡◌, ◌≢◌, arith, ltb, ◌==◌, true, false, Bool-cases, inl, inr, ℤ, pos, negsuc,
}
use arcline.Eevdf.{RunQueue, clamp_nice, set_nice}

-- A nice value that has a place in the table of weights: -20 to 19.
abbrev pub HasWeight : ℤ → Type 0
HasWeight (pos n) = n ≤ 19
HasWeight (negsuc n) = n ≤ 19

clamp_nice-HasWeight : (nice : ℤ) → HasWeight (clamp_nice nice)
unfolding clamp_nice
clamp_nice-HasWeight (pos n) = elim (Bool-cases (ltb 19 n)) [
  | inl e ↦ rw e (omega arith)
  | inr e ↦ rw e (ground (arith, e))
]
clamp_nice-HasWeight (negsuc n) = elim (Bool-cases (ltb 19 n)) [
  | inl e ↦ rw e (omega arith)
  | inr e ↦ rw e (ground (arith, e))
]

-- `eevdf_set_nice` gives the task a nice value that has a place in the table of weights, for every
-- argument.
pub set_nice-HasWeight :
    (a : ℕ) (nice : ℤ) (q : RunQueue) → a ≢ 0 → HasWeight ((set_nice a nice q).tasks a).priority
unfolding set_nice
set_nice-HasWeight a nice q ne =
    let real : (a == 0) ≡ false = ground (arith, ne) in
    let here : (a == a) ≡ true = ground arith in rw (real, here) (clamp_nice-HasWeight nice)
