-- ===== src/Vmalloc/Best.antt =====
-- The search of find_free_space is one for the best fit.
pub mod Whole
use arcline.Base.{
  ℕ, zero, suc, ◌+◌, ◌≤◌, ◌<◌, ltb, leb, ◌≡◌, ◌≢◌, refl, sym, ap, ◌∙◌, List, [], ◌∷◌, arith, ◌==◌,
  if◌then◌else◌, Array, Bool, true, false, ◌&&◌, ◌||◌, Bool-cases, inl, inr, is_null, length, ◌⊎◌,
  add64,
}
use mathlib.Core.Path.{subst}
use arcline.Rb.Insert.Order.{occurs}
use arcline.Vmalloc.{Space, find_best, use_block, fresh_space, find_free_space, vmalloc_end}

-- The blocks of a list linked by `next`.
abbrev pub Chain : Array ℕ → ℕ → List ℕ → Type 0
Chain next p [] = p ≡ 0
Chain next p (x ∷ xs) = (p ≡ x) × (x ≢ 0) × Chain next (next x) xs

module _ (size : ℕ) (s : Space) where
  -- `r` is NULL or the least block of `xs` that is large enough.
  pub record Least (xs : List ℕ) (r : ℕ) : Type 0 where
    pub from : 1 ≤ occurs r xs
    pub fits : r ≢ 0 → size ≤ s.size r
    pub least :
        (y : ℕ) → y ≢ 0 → 1 ≤ occurs y xs → size ≤ s.size y → (r ≢ 0) × (s.size r ≤ s.size y)

  better : ℕ → ℕ → Bool
  better b x = leb size (s.size x) && (is_null b || ltb (s.size x) (s.size b))

  -- One more block is looked at.
  look :
      (b x r : ℕ) (xs : List ℕ)
      → x ≢ 0
      → (b ≢ 0 → size ≤ s.size b)
      → Least ((if better b x then x else b) ∷ xs) r
      → Least (b ∷ (x ∷ xs)) r
  unfolding better
  look b x r xs nz ok h = elim (Bool-cases (better b x)) [
    | inl e ↦ taken e (subst (λ c. Least ((if c then x else b) ∷ xs) r) e h)
    | inr e ↦ kept e (subst (λ c. Least ((if c then x else b) ∷ xs) r) e h)
  ]
    where
      taken : better b x ≡ true → Least (x ∷ xs) r → Least (b ∷ (x ∷ xs)) r
      taken e h = record {
        from = let f = h.from in omega (arith, f);
        fits = h.fits;
        least = λ y yz m fit. elim (Bool-cases (y == b)) [
          | inl q ↦
              let l = h.least x nz (ground arith) (large (s.size x) (s.size b) e) in
              (l.0, smaller y b (s.size x) (s.size r) q yz e l.1)
          | inr q ↦ h.least y yz (ground (arith, m, q)) fit
        ];
      }
        where
          large : (n m : ℕ) → leb size n && (is_null b || ltb n m) ≡ true → size ≤ n
          large n m e = ground (arith, e)

          smaller :
              (y b n k : ℕ)
              → (y == b) ≡ true
              → y ≢ 0
              → leb size n && (is_null b || ltb n (s.size b)) ≡ true
              → k ≤ n
              → k ≤ s.size y
          smaller y b n k q yz e l =
              let p : y ≡ b = same y b q in
              let g = below n (s.size b) b e (subst (λ z. z ≢ 0) p yz) in
              let d = ap s.size p in omega (arith, g, d, l)
            where
              same : (y b : ℕ) → (y == b) ≡ true → y ≡ b
              same y b q = ground (arith, q)

              below : (n m b : ℕ) → leb size n && (is_null b || ltb n m) ≡ true → b ≢ 0 → n ≤ m
              below n m b e z = ground (arith, e, z)

      kept : better b x ≡ false → Least (b ∷ xs) r → Least (b ∷ (x ∷ xs)) r
      kept e h = record {
        from = let f = h.from in omega (arith, f);
        fits = h.fits;
        least = λ y yz m fit. elim (Bool-cases (y == x)) [
          | inl q ↦
              let p = same y x q in
              let g = held (s.size x) (s.size b) b e (subst (λ z. size ≤ s.size z) p fit) in
              let l = h.least b g.0 (ground arith) (ok g.0) in
              let d = ap s.size p in (l.0, omega (arith, l.1, g.1, d))
          | inr q ↦ h.least y yz (ground (arith, m, q)) fit
        ];
      }
        where
          same : (y b : ℕ) → (y == b) ≡ true → y ≡ b
          same y b q = ground (arith, q)

          held :
              (n m b : ℕ)
              → leb size n && (is_null b || ltb n m) ≡ false
              → size ≤ n
              → (b ≢ 0) × (m ≤ n)
          held n m b e z = ground (arith, e, z)

  pub find_best-Least :
      (k cur prev b bp : ℕ) (xs : List ℕ)
      → Chain s.next cur xs
      → length xs < k
      → (b ≢ 0 → size ≤ s.size b)
      → Least (b ∷ xs) (find_best k size cur prev b bp s).0
  unfolding find_best better
  find_best-Least zero cur prev b bp xs c fuel ok = absurd (omega (arith, fuel))
  find_best-Least (suc k) cur prev b bp [] c fuel ok =
      rw (ended cur c) (record {
        from = ground arith;
        fits = ok;
        least = λ y yz m fit. at y (ground (arith, m)) yz;
      })
    where
      ended : (n : ℕ) → n ≡ 0 → is_null n ≡ true
      ended n e = ground (arith, e)

      at : (y : ℕ) → y ≡ b → y ≢ 0 → (b ≢ 0) × (s.size b ≤ s.size y)
      at y e yz = (λ z. yz (e ∙ z), let d = ap s.size e in omega (arith, d))
  find_best-Least (suc k) cur prev b bp (x ∷ xs) c fuel ok = rw (going cur x c.0 c.1) (
      look b x r xs c.1 ok (
        subst (λ z. Least ((if better b z then z else b) ∷ xs) r) c.0
          (find_best-Least k (s.next cur) cur (if better b cur then cur else b)
            (if better b cur then prev else bp) xs
            (subst (λ z. Chain s.next (s.next z) xs) (sym c.0) c.2) (omega (arith, fuel))
            (still ok))))
    where
      r : ℕ
      r =
          (find_best k size (s.next cur) cur (if better b cur then cur else b)
            (if better b cur then prev else bp) s).0

      going : (n m : ℕ) → n ≡ m → m ≢ 0 → is_null n ≡ false
      going n m e z = ground (arith, e, z)

      still :
          (b ≢ 0 → size ≤ s.size b)
          → (if better b cur then cur else b) ≢ 0
          → size ≤ s.size (if better b cur then cur else b)
      still ok = elim (Bool-cases (better b cur)) [
        | inl e ↦ rw e (λ z. large (s.size cur) (s.size b) e)
        | inr e ↦ rw e ok
      ]
        where
          large : (n m : ℕ) → leb size n && (is_null b || ltb n m) ≡ true → size ≤ n
          large n m e = ground (arith, e)

-- The place that links a block: the head of the list, for `bp` 0, or the block `bp`.
abbrev pub Before : Space → ℕ → ℕ → Type 0
Before s b bp = (if is_null bp then s.free_list else s.next bp) ≡ b

pub find_best-Before :
    (k size cur prev b bp : ℕ) (s : Space)
    → Before s cur prev
    → (b ≢ 0 → Before s b bp)
    → (find_best k size cur prev b bp s).0 ≢ 0
    → Before s (find_best k size cur prev b bp s).0 (find_best k size cur prev b bp s).1
unfolding find_best
find_best-Before zero size cur prev b bp s c ok = ok
find_best-Before (suc k) size cur prev b bp s c ok = elim (Bool-cases (is_null cur)) [
  | inl e ↦ rw e ok
  | inr e ↦ rw e (
      find_best-Before k size (s.next cur) cur (if better then cur else b)
        (if better then prev else bp) s (rw e refl) chosen)
]
  where
    better : Bool
    better = leb size (s.size cur) && (is_null b || ltb (s.size cur) (s.size b))

    chosen :
        (if better then cur else b) ≢ 0
        → Before s (if better then cur else b) (if better then prev else bp)
    chosen = go better
      where
        go :
            (t : Bool)
            → (if t then cur else b) ≢ 0
            → Before s (if t then cur else b) (if t then prev else bp)
        go true ne = c
        go false ne = ok ne
