-- ===== src/Strings/Words/Progress.antt =====
-- The progress of `strcpy` of lib/string.c, by bytes and by words.
use mathlib.Core.Path.{subst}
use arcline.Base.{
  ℕ, zero, suc, ◌+◌, ◌-◌, ◌<◌, ◌≤◌, ◌≡◌, ◌⊎◌, inl, inr, refl, sym, ap, ◌∙◌, false, arith, ◌==◌,
  Array, store, some, Bool-cases,
}
use arcline.Strings.{copy_string}
use arcline.Strings.Copy.{copied}
use arcline.Strings.Compare.{IsString}
use arcline.Strings.Words.{word64, store64}
use arcline.Strings.Words.Bytes.{byte0, byte1, byte2, byte3, byte4, byte5, byte6, byte7}

module _ (d s n : ℕ) (m : Array ℕ) (apart : (d + n < s) ⊎ (s + n < d)) where
  -- The first `i` bytes are copied.
  unfoldable pub Progress : ℕ → Array ℕ → Type 0
  Progress i m' = (j : ℕ) → m' j ≡ copied d s i m j

  -- One more byte.
  pub progress :
      (i a x : ℕ) (m' : Array ℕ)
      → i ≤ n
      → a ≡ d + i
      → x ≡ m (s + i)
      → Progress i m'
      → Progress (i + 1) (store m' a x)
  unfolding Progress
  progress i a x m' l e f p j = elim (Bool-cases (j == a)) [
    | inl here ↦
        let at : m (s + (j - d)) ≡ m (s + i) = ap m (ground (arith, here)) in
        ground (arith, here, at)
    | inr elsewhere ↦ ground (arith, p j, elsewhere)
  ]

  -- The source is as it was.
  pub source :
      (i a t : ℕ) (m' : Array ℕ) → i ≤ n → t ≤ n → a ≡ s + t → Progress i m' → m' a ≡ m (s + t)
  unfolding Progress
  source i a t m' k l e p = ground (arith, p a, ap m e)

  -- The loop over bytes, from the place `i` on.
  pub bytes_copied :
      (k i a b : ℕ) (m' : Array ℕ)
      → IsString s n m
      → a ≡ d + i
      → b ≡ s + i
      → i ≤ n
      → n < i + k
      → Progress i m'
      → (r : Array ℕ) × (copy_string k a b m' ≡ some r) × Progress (n + 1) r
  unfolding copy_string
  bytes_copied zero i a b m' st e f l h p = absurd (omega arith)
  bytes_copied (suc k) i a b m' st e f l h p = elim (Bool-cases (i == n)) [
    | inl at ↦
        let last : m' b ≡ 0 = value ∙ ap (λ t. m (s + t)) (ground (arith, at)) ∙ st.nul in
        (
          store m' a (m' b),
          rw last refl,
          subst (λ t. Progress (t + 1) (store m' a (m' b))) (ground (arith, at)) moved,
        )
    | inr before ↦
        let inside : i < n = ground (arith, before) in
        let more : (m' b == 0) ≡ false = ground (arith, value, st.bytes i inside) in
        rw more (
          bytes_copied k (i + 1) (a + 1) (b + 1) (store m' a (m' b)) st (omega arith) (omega arith)
            (omega (arith, inside)) (omega arith) moved)
  ]
    where
      value : m' b ≡ m (s + i)
      value = source i b i m' l l f p

      moved : Progress (i + 1) (store m' a (m' b))
      moved = progress i a (m' b) m' l e value p

  pub next :
      (i k a x : ℕ) (m' : Array ℕ)
      → k ≡ i + 1
      → i ≤ n
      → a ≡ d + i
      → x ≡ m (s + i)
      → Progress i m'
      → Progress k (store m' a x)
  next i k a x m' q l e f p =
      subst (λ t. Progress t (store m' a x)) (sym q) (progress i a x m' l e f p)

  pub progress_bytes :
      (i : ℕ) (m' : Array ℕ) → ((j : ℕ) → m j < 256) → Progress i m' → (j : ℕ) → m' j < 256
  unfolding Progress
  progress_bytes i m' bytes p j = ground (arith, p j, bytes j, bytes (s + (j - d)))

  -- Eight more bytes, by a word.
  pub word_copied :
      (i a b : ℕ) (m' : Array ℕ)
      → ((j : ℕ) → m j < 256)
      → i + 8 ≤ n
      → a ≡ d + i
      → b ≡ s + i
      → Progress i m'
      → Progress (i + 8) (store64 m' a (word64 m' b))
  word_copied i a b m' bytes l e f p =
      put _ 7 (a + 7) (b + 7) (omega arith) refl refl (byte7 m' b bytes') (
        put _ 6 (a + 6) (b + 6) (omega arith) refl refl (byte6 m' b bytes') (
          put _ 5 (a + 5) (b + 5) (omega arith) refl refl (byte5 m' b bytes') (
            put _ 4 (a + 4) (b + 4) (omega arith) refl refl (byte4 m' b bytes') (
              put _ 3 (a + 3) (b + 3) (omega arith) refl refl (byte3 m' b bytes') (
                put _ 2 (a + 2) (b + 2) (omega arith) refl refl (byte2 m' b bytes') (
                  put _ 1 (a + 1) (b + 1) (omega arith) refl refl (byte1 m' b bytes') (
                    put _ 0 a b (omega arith) (omega arith) (omega arith) (byte0 m' b bytes')
                      (subst (λ t. Progress t m') (omega arith) p))))))))
    where
      bytes' : (j : ℕ) → m' j < 256
      bytes' = progress_bytes i m' bytes p

      put :
          (q : Array ℕ) (t c y : ℕ) {x : ℕ}
          → t < 8
          → c ≡ a + t
          → y ≡ b + t
          → x ≡ m' y
          → Progress (i + t) q
          → Progress (i + (t + 1)) (store q c x)
      put q t c y {x} h u v g r =
          next (i + t) (i + (t + 1)) c x q (omega arith) (omega arith) (omega arith)
            (g ∙ source i y (i + t) m' (omega arith) (omega arith) (omega arith) p) r
