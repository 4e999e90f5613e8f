-- ===== src/Pid/Alloc.antt =====
-- pid_alloc returns the least free number from 1 on; pid_free gives it back.
use arcline.Base.{
  ℕ, zero, suc, ◌+◌, ◌-◌, ◌≤◌, ◌<◌, ◌≡◌, refl, true, false, ◌&&◌, arith, ltb, ◌==◌, if◌then◌else◌,
  inl, inr, Bool-cases, ℤ, pos, negsuc,
}
use arcline.Bitmap.{Words, masked, masked-include, masked-exclude}
use arcline.Pid.{max_pid, alloc_loop, alloc, free}

-- What a scan of the numbers from `lo` up to `hi` may answer.
abbrev pub Outcome : Words → ℕ → ℕ → ℤ × Words → Type 0
Outcome m lo hi (pos i, m') =
    (lo ≤ i)
    × (i < hi)
    × (masked 32 m i ≡ false)
    × ((j : ℕ) → lo ≤ j → j < i → masked 32 m j ≡ true)
    × ((j : ℕ) → masked 32 m' j ≡ (if j == i then true else masked 32 m j))
Outcome m lo hi (negsuc n, m') =
    (n ≡ 0) × (m' ≡ m) × ((j : ℕ) → lo ≤ j → j < hi → masked 32 m j ≡ true)

Outcome-taken :
    (m : Words) (lo hi : ℕ) (r : ℤ × Words)
    → masked 32 m lo ≡ true
    → Outcome m (lo + 1) hi r
    → Outcome m lo hi r
Outcome-taken m lo hi (pos i, m') t (a, b, c, d, e) = (
  omega arith,
  b,
  c,
  λ j p q. elim (Bool-cases (j == lo)) [
    | inl same ↦ ground (arith, t)
    | inr other ↦ d j (ground arith) q
  ],
  e,
)
Outcome-taken m lo hi (negsuc n, m') t (a, b, c) = (
  a,
  b,
  λ j p q. elim (Bool-cases (j == lo)) [
    | inl same ↦ ground (arith, t)
    | inr other ↦ c j (ground arith) q
  ],
)

alloc_loop-Outcome : (k i : ℕ) (m : Words) → Outcome m i (i + k) (alloc_loop k i m)
unfolding alloc_loop
alloc_loop-Outcome zero i m = (refl, refl, λ j p q. absurd (omega arith))
alloc_loop-Outcome (suc k) i m = elim (Bool-cases (masked 32 m i)) [
  | inl taken ↦ rw taken (
      Outcome-taken m i (i + suc k) (alloc_loop k (i + 1) m) taken
        (rw shift at (alloc_loop-Outcome k (i + 1) m)))
  | inr free ↦
      rw free (omega arith, omega arith, free, λ j p q. absurd (omega arith), masked-include 32 m i)
]
  where
    shift : i + 1 + k ≡ i + suc k
    shift = omega arith

-- `pid_alloc` returns the least free number of 1, ..., MAX_PID - 1 and marks it alone; it returns
-- -1 and changes nothing only if all of them are in use.
pub alloc-Outcome : (m : Words) → Outcome m 1 max_pid (alloc m)
unfolding alloc
alloc-Outcome m = alloc_loop-Outcome (max_pid - 1) 1 m

-- `pid_free` clears its number if that is in range, and changes nothing else.
pub free-masked :
    (m : Words) (pid : ℤ) (j : ℕ)
    → masked 32 (free m pid) j ≡ (elim pid [
      | pos p ↦ if (j == p) && (ltb 0 p && ltb p max_pid) then false else masked 32 m j
      | negsuc n ↦ masked 32 m j
    ])
unfolding free
free-masked m (pos p) j = ground (arith, masked-exclude 32 m p j)
free-masked m (negsuc n) j = refl

-- Freeing what `pid_alloc` returned brings back the set of numbers in use.
pub free-alloc : (m : Words) (j : ℕ) → masked 32 (free (alloc m).1 (alloc m).0) j ≡ masked 32 m j
free-alloc m j = go (alloc m) (alloc-Outcome m)
  where
    go : (r : ℤ × Words) → Outcome m 1 max_pid r → masked 32 (free r.1 r.0) j ≡ masked 32 m j
    go (pos i, m') o = ground (arith, free-masked m' (pos i) j, o.4 j)
    go (negsuc n, m') o = ground (arith, free-masked m' (negsuc n) j)
