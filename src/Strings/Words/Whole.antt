-- ===== src/Strings/Words/Whole.antt =====
-- What `strcpy` of lib/string.c leaves at each address.
use mathlib.Core.Path.{subst}
use arcline.Base.{
  ℕ, zero, suc, ◌+◌, ◌-◌, ◌*◌, ◌%◌, ◌<◌, ◌≤◌, ◌≡◌, ◌≢◌, ◌⊎◌, inl, inr, refl, sym, ◌∙◌, true, false,
  ◌&&◌, ◌||◌, arith, ◌==◌, Array, store, some, Bool-cases, is_null, dec_lt,
}
use arcline.Strings.Copy.{copied}
use arcline.Strings.Compare.{IsString}
use arcline.Strings.Words.Progress.{
  Progress, progress, source, bytes_copied, progress_bytes, word_copied,
}
use arcline.Strings.Words.{word64, store64, has_zero_byte, word_loop, strcpy}
use arcline.Strings.Words.Bytes.{has_zero_byte_lem, nonzero_at}

module _ (d s n : ℕ) (m : Array ℕ) (apart : (d + n < s) ⊎ (s + n < d)) where
  live :
      (i b t c : ℕ) (m' : Array ℕ)
      → IsString s n m
      → b ≡ s + i
      → Progress d s n m apart i m'
      → i + 8 ≤ n
      → t < 8
      → c ≡ b + t
      → m' c ≢ 0
  live i b t c m' st f p l h e z =
      st.bytes (i + t) (omega arith)
        (sym (source d s n m apart i c (i + t) m' (omega arith) (omega arith) (omega arith) p) ∙ z)

  -- A zero among the next eight bytes ends the string there.
  ends_soon :
      (i b : ℕ) (m' : Array ℕ)
      → ((j : ℕ) → m' j < 256)
      → IsString s n m
      → b ≡ s + i
      → Progress d s n m apart i m'
      → i ≤ n
      → has_zero_byte (word64 m' b) ≡ true
      → n < i + 8
  ends_soon i b m' bytes st f p l h = elim (dec_lt n (i + 8)) [
    | yes soon ↦ soon
    | no late ↦ absurd (
        ground (
          arith,
          h,
          has_zero_byte_lem m' b bytes,
          live i b 0 b m' st f p (omega (arith, late)) (omega arith) (omega arith),
          live i b 1 (b + 1) m' st f p (omega (arith, late)) (omega arith) (omega arith),
          live i b 2 (b + 2) m' st f p (omega (arith, late)) (omega arith) (omega arith),
          live i b 3 (b + 3) m' st f p (omega (arith, late)) (omega arith) (omega arith),
          live i b 4 (b + 4) m' st f p (omega (arith, late)) (omega arith) (omega arith),
          live i b 5 (b + 5) m' st f p (omega (arith, late)) (omega arith) (omega arith),
          live i b 6 (b + 6) m' st f p (omega (arith, late)) (omega arith) (omega arith),
          live i b 7 (b + 7) m' st f p (omega (arith, late)) (omega arith) (omega arith),
        ))
  ]

  -- Without one it goes on.
  goes_on :
      (i b : ℕ) (m' : Array ℕ)
      → ((j : ℕ) → m' j < 256)
      → IsString s n m
      → b ≡ s + i
      → Progress d s n m apart i m'
      → i ≤ n
      → has_zero_byte (word64 m' b) ≡ false
      → i + 8 ≤ n
  goes_on i b m' bytes st f p l h = elim (dec_lt n (i + 8)) [
    | yes soon ↦ absurd (
        nonzero_at m' b bytes h (n - i) (omega arith)
          (source d s n m apart i (b + (n - i)) n m' l (omega arith) (omega arith) p ∙ st.nul))
    | no late ↦ omega arith
  ]

  words_copied :
      (k i a b : ℕ) (m' : Array ℕ)
      → ((j : ℕ) → m j < 256)
      → IsString s n m
      → a ≡ d + i
      → b ≡ s + i
      → i ≤ n
      → n < i + 8 * k
      → Progress d s n m apart i m'
      → (r : Array ℕ) × (word_loop k a b m' ≡ some r) × Progress d s n m apart (n + 1) r
  unfolding word_loop
  words_copied zero i a b m' bytes st e f l h p = absurd (omega arith)
  words_copied (suc k) i a b m' bytes st e f l h p = elim (Bool-cases (word64 m' b == 0)) [
    | inl zeros ↦ (
      store m' a 0,
      rw zeros refl,
      subst (λ t. Progress d s n m apart (t + 1) (store m' a 0)) (at_end zeros)
          (progress d s n m apart i a 0 m' l e
            (sym (sym (source d s n m apart i b i m' l l f p) ∙ lowest zeros)) p),
    )
    | inr some_byte ↦ elim (Bool-cases (has_zero_byte (word64 m' b))) [
      | inl soon ↦
          rw (some_byte, soon)
            (bytes_copied d s n m apart 8 i a b m' st e f l (ends_soon i b m' bytes' st f p l soon)
              p)
      | inr later ↦
          let room : i + 8 ≤ n = goes_on i b m' bytes' st f p l later in
          rw (some_byte, later)
            (words_copied k (i + 8) (a + 8) (b + 8) (store64 m' a (word64 m' b)) bytes st
              (omega arith) (omega arith) room (omega arith)
              (word_copied d s n m apart i a b m' bytes room e f p))
    ]
  ]
    where
      bytes' : (j : ℕ) → m' j < 256
      bytes' = progress_bytes d s n m apart i m' bytes p

      lowest : (word64 m' b == 0) ≡ true → m' b ≡ 0
      lowest zeros = ground (arith, zeros)

      at_end : (word64 m' b == 0) ≡ true → i ≡ n
      at_end zeros = elim (dec_lt i n) [
        | yes before ↦
            absurd (st.bytes i before (sym (source d s n m apart i b i m' l l f p) ∙ lowest zeros))
        | no not_before ↦ omega arith
      ]

both_given : (d s : ℕ) → d ≢ 0 → s ≢ 0 → is_null d || is_null s ≡ false
both_given zero s dn sn = absurd (dn refl)
both_given (suc d) zero dn sn = absurd (sn refl)
both_given (suc d) (suc s) dn sn = refl

-- In a memory of bytes below 256, `strcpy` of a string of `n` bytes and its NUL to a place that it does not overlap, at
-- addresses that are not 0, ends, given more rounds than bytes, and leaves the string there and everything else as it was; whether it copies by words, where both addresses are
-- multiples of 8, or by bytes.
pub strcpy-copied :
    (k n d s : ℕ) (m : Array ℕ)
    → d ≢ 0
    → s ≢ 0
    → ((j : ℕ) → m j < 256)
    → IsString s n m
    → (d + n < s) ⊎ (s + n < d)
    → n < k
    → (r : Array ℕ) × (strcpy k d s m ≡ some r) × ((j : ℕ) → r j ≡ copied d s (n + 1) m j)
unfolding strcpy Progress
strcpy-copied k n d s m dn sn bytes st apart h = elim (Bool-cases (d % 8 == 0 && s % 8 == 0)) [
  | inl aligned ↦
      rw (some_given, aligned)
        (words_copied d s n m apart k 0 d s m bytes st (omega arith) (omega arith) (omega arith)
          (omega arith) start)
  | inr unaligned ↦
      rw (some_given, unaligned)
        (bytes_copied d s n m apart k 0 d s m st (omega arith) (omega arith) (omega arith)
          (omega arith) start)
]
  where
    some_given : is_null d || is_null s ≡ false
    some_given = both_given d s dn sn

    start : (j : ℕ) → m j ≡ copied d s 0 m j
    start j = ground arith
