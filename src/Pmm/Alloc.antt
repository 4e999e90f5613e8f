-- ===== src/Pmm/Alloc.antt =====
-- pmm_alloc_run: first fit over the bitmap.
use arcline.Base.{
  ℕ, zero, suc, ◌+◌, ◌-◌, ◌≤◌, ◌<◌, ◌≡◌, ◌≢◌, refl, ap, ◌∙◌, true, false, ◌&&◌, ◌||◌, arith, ltb,
  leb, ◌==◌, if◌then◌else◌, ◌⊎◌, inl, inr, Bool-cases,
}
use native.Mathlib.Decide.{dec_le}
use arcline.Bitmap.{Words, shifted, include, shifted-include}
use arcline.Pmm.{Pmm, page_to_addr, mark_run, take_run, alloc_loop, alloc_run}
use arcline.Pmm.Count.{clear_count, clear_count-include, clear_count-le}
use arcline.Pmm.Valid.{IsValid}

-- The pages `p`, ..., `p + n - 1` are free.
abbrev pub FreeRun : Words → ℕ → ℕ → Type 0
FreeRun m p n = (j : ℕ) → p ≤ j → j < p + n → shifted 8 m j ≡ false

-- No `n` free pages lie in a row below the page `i`.
abbrev pub Blocked : Words → ℕ → ℕ → Type 0
Blocked m i n = (q : ℕ) → q + n ≤ i → FreeRun m q n → ⊥

pub mark_run-bit :
    (n p : ℕ) (m : Words) (j : ℕ)
    → shifted 8 (mark_run n p m) j ≡ (if leb p j && ltb j (p + n) then true else shifted 8 m j)
unfolding mark_run
mark_run-bit zero p m j = ground arith
mark_run-bit (suc n) p m j =
    ground (arith, mark_run-bit n (p + 1) (include 8 m p) j, shifted-include 8 m p j)

pub clear_count-mark_run :
    (n p : ℕ) (m : Words) (t : ℕ)
    → p + n ≤ t
    → FreeRun m p n
    → clear_count (mark_run n p m) t + n ≡ clear_count m t
unfolding mark_run
clear_count-mark_run zero p m t h free = omega arith
clear_count-mark_run (suc n) p m t h free = ground (
  arith,
  clear_count-mark_run n (p + 1) (include 8 m p) t (omega arith) rest,
  clear_count-include m p t,
  free p,
)
  where
    rest : FreeRun (include 8 m p) (p + 1) n
    rest j lo hi = ground (arith, shifted-include 8 m p j, free j)

-- The allocation of the `n` pages from page `p` on, out of the state `s`.
pub record Granted (s : Pmm) (n p : ℕ) (r : ℕ × Pmm) : Type 0 where
  pub nonzero : n ≢ 0
  pub inside : p + n ≤ s.pages_total
  pub free : FreeRun s.bitmap p n
  pub first : (q : ℕ) → q + n ≤ s.pages_total → FreeRun s.bitmap q n → p ≤ q
  pub result : r ≡ (page_to_addr s p, take_run s n p)

-- The scan has reached page `i`: the last `run` pages are free, the page before them is not, and
-- no row of `n` pages was passed.
record Scanned (s : Pmm) (n i run start : ℕ) : Type 0 where
  short : run < n
  row : run ≢ 0 → start + run ≡ i
  within : run ≤ i
  free : (j : ℕ) → i ≤ j + run → j < i → shifted 8 s.bitmap j ≡ false
  edge : run ≡ i ⊎ (shifted 8 s.bitmap (i - run - 1) ≡ true)
  passed : Blocked s.bitmap i n

module _ (s : Pmm) (n : ℕ) where
  scan_taken :
      (i run start : ℕ)
      → Scanned s n i run start
      → shifted 8 s.bitmap i ≡ true
      → Scanned s n (i + 1) 0 start
  scan_taken i run start v h = record {
    short = omega (arith, v.short);
    row = λ ne. absurd (ne refl);
    within = omega arith;
    free = λ j lo hi. absurd (omega arith);
    edge = inr (ground (arith, h));
    passed = λ q le run. elim (dec_le (q + n) i) [
      | yes old ↦ v.passed q old run
      | no new ↦ ground (arith, run i, v.short)
    ];
  }

  scan_free :
      (i run start : ℕ)
      → Scanned s n i run start
      → shifted 8 s.bitmap i ≡ false
      → run + 1 ≢ n
      → Scanned s n (i + 1) (run + 1) (if run == 0 then i else start)
  scan_free i run start v h ne = record {
    short = omega (arith, v.short);
    row = λ _. ground (arith, v.row);
    within = omega (arith, v.within);
    free = λ j lo hi. ground (arith, v.free j, h);
    edge = elim v.edge [
      | inl e ↦ inl (omega arith)
      | inr e ↦ inr (ap (shifted 8 s.bitmap) (omega arith) ∙ e)
    ];
    passed = λ q le r. elim (dec_le (q + n) i) [
      | yes old ↦ v.passed q old r
      | no new ↦ elim v.edge [
        | inl e ↦ absurd (omega (arith, v.short))
        | inr e ↦ ground (arith, r (i - run - 1), v.short)
      ]
    ];
  }

  -- What the scan returns: a first fit, or nothing where there is none.
  abbrev Scan : ℕ × Pmm → Type 0
  Scan r = ((p : ℕ) × Granted s n p r) ⊎ ((r ≡ (0, s)) × Blocked s.bitmap s.pages_total n)

  scan_found :
      (i run start : ℕ)
      → Scanned s n i run start
      → shifted 8 s.bitmap i ≡ false
      → i < s.pages_total
      → run + 1 ≡ n
      → let p = if run == 0 then i else start in Granted s n p (page_to_addr s p, take_run s n p)
  scan_found i run start v h lt e = record {
    nonzero = omega arith;
    inside = omega (arith, at);
    free = λ j lo hi. ground (arith, at, v.free j, h);
    first = λ q le r. elim (dec_le (if run == 0 then i else start) q) [
      | yes ok ↦ ok
      | no low ↦ absurd (v.passed q (omega (arith, at)) r)
    ];
    result = refl;
  }
    where
      at : (if run == 0 then i else start) + run ≡ i
      at = ground (arith, v.row)

  alloc_loop-Scan :
      (k i run start : ℕ)
      → i + k ≡ s.pages_total
      → Scanned s n i run start
      → Scan (alloc_loop s n k i run start)
  unfolding alloc_loop
  alloc_loop-Scan zero i run start e v = inr (refl, λ q le. v.passed q (omega arith))
  alloc_loop-Scan (suc k) i run start e v = elim (Bool-cases (shifted 8 s.bitmap i)) [
    | inl taken ↦
        rw taken (alloc_loop-Scan k (i + 1) 0 start (omega arith) (scan_taken i run start v taken))
    | inr free ↦ rw free (elim (Bool-cases (run + 1 == n)) [
      | inl full ↦ rw full (inl (_, scan_found i run start v free (omega arith) (ground arith)))
      | inr short ↦ rw short (
          alloc_loop-Scan k (i + 1) (run + 1) _ (omega arith)
            (scan_free i run start v free (ground arith)))
    ])
  ]

clear_count_run : (m : Words) (p n t : ℕ) → p + n ≤ t → FreeRun m p n → n ≤ clear_count m t
clear_count_run m p n t h free = omega (arith, clear_count-mark_run n p m t h free)

-- What `pmm_alloc_run` may answer to a request for `n` pages.
abbrev pub AllocOutcome : Pmm → ℕ → ℕ × Pmm → Type 0
AllocOutcome s n r =
    ((p : ℕ) × Granted s n p r) ⊎ ((r ≡ (0, s)) × (n ≡ 0 ⊎ Blocked s.bitmap s.pages_total n))

-- In a valid state `pmm_alloc_run` grants the lowest row of `n` free pages; it returns NULL, and
-- changes nothing, only if `n` is 0 or there is no such row.
pub alloc_run_lem : (s : Pmm) (n : ℕ) → IsValid s → AllocOutcome s n (alloc_run s n)
unfolding alloc_run
alloc_run_lem s n v = elim (Bool-cases (n == 0 || ltb s.pages_free n)) [
  | inl refused ↦ rw refused (inr (refl, reason refused))
  | inr go ↦ rw go (elim (alloc_loop-Scan s n s.pages_total 0 0 0 (omega arith) (begin go)) [
    | inl g ↦ inl g
    | inr b ↦ inr (b.0, inr b.1)
  ])
]
  where
    reason : (n == 0 || ltb s.pages_free n) ≡ true → n ≡ 0 ⊎ Blocked s.bitmap s.pages_total n
    reason h = elim (Bool-cases (n == 0)) [
      | inl z ↦ inl (ground arith)
      | inr nz ↦
          inr λ q le r. ground (arith, v.counted, clear_count_run s.bitmap q n s.pages_total le r)
    ]

    begin : (n == 0 || ltb s.pages_free n) ≡ false → Scanned s n 0 0 0
    begin h = record {
      short = ground arith;
      row = λ ne. absurd (ne refl);
      within = omega arith;
      free = λ j lo hi. absurd (omega arith);
      edge = inl refl;
      passed = λ q le r. ground arith;
    }

module _ {s : Pmm} {n p : ℕ} {r : ℕ × Pmm} where
  -- A grant keeps the invariant, takes `n` pages off the counter, and marks its pages and no other.
  pub Granted-IsValid :
      IsValid s
      → Granted s n p r
      → IsValid r.1
        × (r.1.pages_free + n ≡ s.pages_free)
        × ((j : ℕ)
            → shifted 8 r.1.bitmap j
              ≡ (if leb p j && ltb j (p + n) then true else shifted 8 s.bitmap j))
  unfolding take_run
  Granted-IsValid v g = rw g.result (
    ground (arith, fewer, clear_count-le s.bitmap s.pages_total),
    ground (arith, fewer, clear_count-le s.bitmap s.pages_total),
    λ j. mark_run-bit n p s.bitmap j,
  )
    where
      fewer :
          clear_count (mark_run n p s.bitmap) s.pages_total + n ≡ clear_count s.bitmap s.pages_total
      fewer = clear_count-mark_run n p s.bitmap s.pages_total g.inside g.free
