-- ===== src/Bitmap.antt =====
-- Arrays of words used as sets of numbers: the idiom `m[i / w] |= 1 << (i % w)` of
-- kernel/pid.c (`w` = 32), kernel/sched/eevdf.c (64) and mm/pmm.c (8).
use native.Mathlib.Nat.{div-add-mod, mod-lt, one-le-pow}
use arcline.Base.{
  ℕ, ◌-◌, ◌/◌, ◌%◌, ◌^◌, ◌<◌, bit_and, bit_or, ◌≡◌, ap, sym, ◌∙◌, Bool, true, false, arith, ◌==◌,
  if◌then◌else◌, not, Array, store,
}
use arcline.Bits.{
  bit, bit-lt-two, bit-bit_or, bit-bit_and, bit-pow, bit_mask, bit_shift, bit_and-pow, zero-bit_and,
}

abbrev pub Words : Type 0
Words = Array ℕ

module _ (w : ℕ) where
  -- `m[i / w] & (1 << (i % w))`, as a condition
  unfoldable pub masked : Words → ℕ → Bool
  masked m i = not (bit_and (m (i / w)) (2 ^ (i % w)) == 0)

  -- `(m[i / w] >> (i % w)) & 1`, as a condition
  unfoldable pub shifted : Words → ℕ → Bool
  shifted m i = not (bit_and (m (i / w) / 2 ^ (i % w)) 1 == 0)

  -- `m[i / w] |= 1 << (i % w)`
  unfoldable pub include : Words → ℕ → Words
  include m i = store m (i / w) (bit_or (m (i / w)) (2 ^ (i % w)))

  -- `m[i / w] &= ~(1 << (i % w))`
  unfoldable pub exclude : Words → ℕ → Words
  exclude m i = store m (i / w) (bit_and (m (i / w)) (2 ^ w - 1 - 2 ^ (i % w)))

  -- Nothing is in the empty set.
  pub masked_empty : (i : ℕ) → masked (λ _. 0) i ≡ false
  unfolding masked
  masked_empty i = ground (arith, zero-bit_and (2 ^ (i % w)))

  same-place : (i j : ℕ) → i / w ≡ j / w → i % w ≡ j % w → i ≡ j
  same-place i j p q = sym (div-add-mod i w) ∙ (rw (p, q) (div-add-mod j w))

  pub masked-eq-shifted : (m : Words) (i : ℕ) → masked m i ≡ shifted m i
  unfolding masked shifted
  masked-eq-shifted m i = ground (
    arith,
    bit_shift (m (i / w)) (i % w),
    bit_and-pow (i % w) (m (i / w)),
    one-le-pow (i % w) 2,
    bit-lt-two (i % w) (m (i / w)),
  )

  shifted-bit : (m : Words) (i : ℕ) → shifted m i ≡ (bit (m (i / w)) (i % w) == 1)
  unfolding shifted
  shifted-bit m i = ground (arith, bit_shift (m (i / w)) (i % w), bit-lt-two (i % w) (m (i / w)))

  -- after `include` the set has one more element
  pub shifted-include :
      (m : Words) (i j : ℕ) → shifted (include m i) j ≡ (if j == i then true else shifted m j)
  unfolding include
  shifted-include m i j = ground (
    arith,
    shifted-bit (include m i) j,
    shifted-bit m j,
    bit-bit_or (j % w) (m (i / w)) (2 ^ (i % w)),
    bit-pow (j % w) (i % w),
    bit-lt-two (j % w) (m (i / w)),
    same-place i j,
  )

  -- after `exclude` it has one less
  pub shifted-exclude :
      (m : Words) (i j : ℕ)
      → 0 < w
      → shifted (exclude m i) j ≡ (if j == i then false else shifted m j)
  unfolding exclude
  shifted-exclude m i j pos = ground (
    arith,
    shifted-bit (exclude m i) j,
    shifted-bit m j,
    bit-bit_and (j % w) (m (i / w)) (2 ^ w - 1 - 2 ^ (i % w)),
    bit_mask (j % w) (i % w) w,
    bit-lt-two (j % w) (m (i / w)),
    mod-lt i pos,
    mod-lt j pos,
    same-place i j,
  )

  pub masked-include :
      (m : Words) (i j : ℕ) → masked (include m i) j ≡ (if j == i then true else masked m j)
  masked-include m i j =
      masked-eq-shifted (include m i) j
      ∙ (shifted-include m i j ∙ ap (λ b. if j == i then true else b) (sym (masked-eq-shifted m j)))

  pub masked-exclude :
      (m : Words) (i j : ℕ)
      → 0 < w
      → masked (exclude m i) j ≡ (if j == i then false else masked m j)
  masked-exclude m i j pos =
      masked-eq-shifted (exclude m i) j
      ∙ (shifted-exclude m i j pos
          ∙ ap (λ b. if j == i then false else b) (sym (masked-eq-shifted m j)))
