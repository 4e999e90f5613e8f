-- ===== src/Strings/Compare.antt =====
-- What the functions that measure and compare return.
use arcline.Base.{
  ℕ, zero, suc, ◌+◌, ◌≤◌, ◌<◌, ◌≡◌, ◌≢◌, ◌⊎◌, inl, inr, refl, sym, ap, ap₂, ◌∙◌, true, false, not,
  ◌&&◌, arith, ◌==◌, Array, Bool-cases, some, ℤ, pos,
}
use arcline.Strings.{difference, memcmp_loop, memcmp, strcmp, strlen_loop, strlen}

-- The first `n` bytes at two addresses are the same.
abbrev pub Same : ℕ → ℕ → ℕ → Array ℕ → Type 0
Same n a b m = (j : ℕ) → j < n → m (a + j) ≡ m (b + j)

-- How `n` bytes compare: they are the same, or the first two that differ decide.
pub data Compared (n a b : ℕ) (m : Array ℕ) : ℤ → Type 0 where
  equal : Same n a b m → Compared n a b m (pos 0)
  differ :
      (i : ℕ)
      → i < n
      → Same i a b m
      → m (a + i) ≢ m (b + i)
      → Compared n a b m (difference (m (a + i)) (m (b + i)))

Same-suc : (i a b : ℕ) (m : Array ℕ) → Same i a b m → m (a + i) ≡ m (b + i) → Same (i + 1) a b m
Same-suc i a b m h e = λ j l. elim (Bool-cases (j == i)) [
  | inl at ↦ ap (λ x. m (a + x)) (ground (arith, at)) ∙ e ∙ ap (λ x. m (b + x)) (ground (arith, at))
  | inr before ↦ h j (ground (arith, before, l))
]

memcmp_loop-Compared :
    (k i n a b : ℕ) (m : Array ℕ)
    → n ≡ i + k
    → Same i a b m
    → Compared n a b m (memcmp_loop k i a b m)
unfolding memcmp_loop
memcmp_loop-Compared zero i n a b m q h = equal (λ j l. h j (omega (arith, l, q)))
memcmp_loop-Compared (suc k) i n a b m q h = elim (Bool-cases (m (a + i) == m (b + i))) [
  | inl e ↦ rw e (
      memcmp_loop-Compared k (i + 1) n a b m (omega (arith, q))
        (Same-suc i a b m h (ground (arith, e))))
  | inr ne ↦ rw ne (differ i (omega (arith, q)) h (ground (arith, ne)))
]

-- `memcmp` answers 0 if all bytes are the same, and otherwise the difference of the first two that
-- are not.
pub memcmp-Compared : (a b n : ℕ) (m : Array ℕ) → Compared n a b m (memcmp a b n m)
unfolding memcmp
memcmp-Compared a b n m =
    memcmp_loop-Compared n 0 n a b m (omega arith) (λ j l. absurd (omega (arith, l)))

-- There is a NUL `n` bytes behind the address, and none before it.
pub record IsString (p n : ℕ) (m : Array ℕ) : Type 0 where
  pub bytes : (j : ℕ) → j < n → m (p + j) ≢ 0
  pub nul : m (p + n) ≡ 0

-- The test of the loops at a place of the string.
IsString-end : (p n i : ℕ) (m : Array ℕ) → IsString p n m → i ≡ n → (m (p + i) == 0) ≡ true
IsString-end p n i m s e =
    let nul : m (p + i) ≡ 0 = ap (λ x. m (p + x)) e ∙ s.nul in ground (arith, nul)

IsString-inside : (p n i : ℕ) (m : Array ℕ) → IsString p n m → i < n → (m (p + i) == 0) ≡ false
IsString-inside p n i m s l = let byte : m (p + i) ≢ 0 = s.bytes i l in ground (arith, byte)

strlen_loop_lem :
    (k n str len : ℕ) (m : Array ℕ)
    → IsString str n m
    → len ≤ n
    → n < len + k
    → strlen_loop k len str m ≡ some n
unfolding strlen_loop
strlen_loop_lem zero n str len m s l h = absurd (omega arith)
strlen_loop_lem (suc k) n str len m s l h = elim (Bool-cases (len == n)) [
  | inl at ↦ rw (IsString-end str n len m s (ground (arith, at))) (ap some (ground (arith, at)))
  | inr before ↦
      rw (IsString-inside str n len m s (ground (arith, before, l)))
        (strlen_loop_lem k n str (len + 1) m s (ground (arith, before, l)) (omega arith))
]

-- `strlen` of a string is the place of its first NUL.
pub strlen_lem :
    (k n str : ℕ) (m : Array ℕ) → str ≢ 0 → IsString str n m → n < k → strlen k str m ≡ some n
unfolding strlen
strlen_lem k n zero m ne s h = absurd (ne refl)
strlen_lem k n (suc str) m ne s h = strlen_loop_lem k n (suc str) 0 m s (omega arith) (omega arith)

-- The two strings agree before place `n` and go no further together: they differ there or end.
pub record Parts (a b n : ℕ) (m : Array ℕ) : Type 0 where
  pub before : (j : ℕ) → j < n → (m (a + j) ≢ 0) × (m (a + j) ≡ m (b + j))
  pub here : (m (a + n) ≡ 0) ⊎ (m (a + n) ≢ m (b + n))

Parts-suc : (a b n : ℕ) (m : Array ℕ) → Parts a b (suc n) m → Parts (a + 1) (b + 1) n m
Parts-suc a b n m s = record {
  before = λ j l.
      let old = s.before (suc j) (omega arith) in
      let shift = step a j in
      let shift_b = step b j in (λ z. old.0 (sym shift ∙ z), shift ∙ old.1 ∙ sym shift_b);
  here =
      let shift = step a n in
      let shift_b = step b n in
      elim s.here [ inl z ↦ inl (shift ∙ z) | inr ne ↦ inr (λ z. ne (sym shift ∙ z ∙ shift_b)) ];
}
  where
    step : (p j : ℕ) → m (p + 1 + j) ≡ m (p + suc j)
    step p j = ap m (omega arith)

-- `strcmp` answers the difference of the two strings at the first place where they differ or end.
pub strcmp_lem :
    (k n a b : ℕ) (m : Array ℕ)
    → Parts a b n m
    → n < k
    → strcmp k a b m ≡ some (difference (m (a + n)) (m (b + n)))
unfolding strcmp
strcmp_lem zero n a b m s h = absurd (omega arith)
strcmp_lem (suc k) zero a b m s h =
    rw (stop s.here) (ap₂ (λ x y. some (difference (m x) (m y))) (omega arith) (omega arith))
  where
    stop : (m (a + 0) ≡ 0) ⊎ (m (a + 0) ≢ m (b + 0)) → (not (m a == 0) && m a == m b) ≡ false
    stop e =
        let left : a + 0 ≡ a = omega arith in let right : b + 0 ≡ b = omega arith in grind arith
strcmp_lem (suc k) (suc n) a b m s h = rw (go (s.before 0 (omega arith))) (
    strcmp_lem k n (a + 1) (b + 1) m (Parts-suc a b n m s) (omega arith)
    ∙ ap₂ (λ x y. some (difference (m x) (m y))) (omega arith) (omega arith))
  where
    go : (m (a + 0) ≢ 0) × (m (a + 0) ≡ m (b + 0)) → (not (m a == 0) && m a == m b) ≡ true
    go e = grind arith
