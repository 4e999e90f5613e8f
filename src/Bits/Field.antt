-- ===== src/Bits/Field.antt =====
-- Fields of a word: `w & (0xFF << k)`, and `|` of words that share no bit.
use native.Mathlib.Nat.{pow-suc, div-div-eq-div-mul, pow-succ'}
use arcline.Base.{
  ℕ, zero, suc, ◌+◌, ◌*◌, ◌/◌, ◌%◌, ◌^◌, ◌<◌, ◌≤◌, bit_and, bit_or, ◌≡◌, refl, ap, ap₂, ◌∙◌, sym,
  arith,
}
use arcline.Bits.Step.{bit_and_step, bit_or_step, bit_and-one}

bit_or_zero : (n w : ℕ) → w ≤ n → bit_or w 0 ≡ w
bit_or_zero n zero h = refl
bit_or_zero zero (suc w) h = absurd (omega arith)
bit_or_zero (suc n) (suc w) h =
    omega (arith, bit_or_step (suc w) 0, bit_or_zero n (suc w / 2) (omega arith))

bit_and_three : (w : ℕ) → bit_and w 3 ≡ w % 4
bit_and_three w = omega (arith, bit_and_step w 3, bit_and-one (w / 2))

bit_and_nibble : (w : ℕ) → bit_and w 15 ≡ w % 16
bit_and_nibble w =
    omega (arith, bit_and_step w 15, bit_and_step (w / 2) 7, bit_and_three (w / 2 / 2))

bit_and_six : (w : ℕ) → bit_and w 63 ≡ w % 64
bit_and_six w =
    omega (arith, bit_and_step w 63, bit_and_step (w / 2) 31, bit_and_nibble (w / 2 / 2))

-- `w & 0xFF`
pub bit_and_byte : (w : ℕ) → bit_and w 0xFF ≡ w % 256
bit_and_byte w =
    omega (arith, bit_and_step w 255, bit_and_step (w / 2) 127, bit_and_six (w / 2 / 2))

-- `w & (c << k)`
pub bit_and_shift : (k c w : ℕ) → bit_and w (c * 2 ^ k) ≡ bit_and (w / 2 ^ k) c * 2 ^ k
bit_and_shift zero c w = omega (arith, ap₂ bit_and whole one)
  where
    one : c * 2 ^ 0 ≡ c
    one = omega arith

    whole : w ≡ w / 2 ^ 0
    whole = omega arith
bit_and_shift (suc k) c w = omega (
  arith,
  bit_and_step w (c * 2 ^ suc k),
  twice,
  ap (bit_and (w / 2)) half,
  bit_and_shift k c (w / 2),
  ap (λ t. bit_and t c) (div-div-eq-div-mul w 2 (2 ^ k) ∙ ap (λ t. w / t) (sym (pow-succ' 2 k))),
  ap (λ t. bit_and (w / 2 ^ suc k) c * t) (pow-suc 2 k),
  ap (λ t. t * 2 ^ k) same,
)
  where
    twice : c * 2 ^ suc k ≡ c * 2 ^ k * 2
    twice = omega (arith, ap (λ t. c * t) (pow-suc 2 k))

    half : c * 2 ^ suc k / 2 ≡ c * 2 ^ k
    half = omega (arith, twice)

    same : bit_and (w / 2 / 2 ^ k) c ≡ bit_and (w / 2 ^ suc k) c
    same =
        ap (λ t. bit_and t c)
          (div-div-eq-div-mul w 2 (2 ^ k) ∙ ap (λ t. w / t) (sym (pow-succ' 2 k)))

-- `w & (0xFF << k)`
pub bit_and_field : (k w : ℕ) → bit_and w (255 * 2 ^ k) ≡ w / 2 ^ k % 256 * 2 ^ k
bit_and_field k w = bit_and_shift k 255 w ∙ ap (λ t. t * 2 ^ k) (bit_and_byte (w / 2 ^ k))

-- `(x << k) | y`
pub bit_or_add : (k x y : ℕ) → y < 2 ^ k → bit_or (x * 2 ^ k) y ≡ x * 2 ^ k + y
bit_or_add zero x y h = omega (arith, ap₂ bit_or one nothing, bit_or_zero x x (omega arith))
  where
    one : x * 2 ^ 0 ≡ x
    one = omega arith

    nothing : y ≡ 0
    nothing = omega arith
bit_or_add (suc k) x y h = omega (
  arith,
  bit_or_step (x * 2 ^ suc k) y,
  twice,
  ap (λ t. bit_or t (y / 2)) half,
  bit_or_add k x (y / 2) (omega (arith, pow-suc 2 k)),
)
  where
    twice : x * 2 ^ suc k ≡ x * 2 ^ k * 2
    twice = omega (arith, ap (λ t. x * t) (pow-suc 2 k))

    half : x * 2 ^ suc k / 2 ≡ x * 2 ^ k
    half = omega (arith, twice)
