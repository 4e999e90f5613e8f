-- ===== src/Bits.antt =====
-- The `k`-th bit of a word, and what `|` and `&` do to it. The sources address bits by `1U << k`,
-- `~(1U << k)` and `(w >> k) & 1`.
mod Step
pub mod Field
use Step.{bit_or_step, bit_and_step, bit_and-one}
use Prim.Native.Nat.{bit_and-bitwise}
use native.Mathlib.Nat.{
  pow-suc, mul_comm, mul_assoc, pow-succ', one-le-pow, pow-le-pow_right, div-div-eq-div-mul,
}
use arcline.Base.{
  ℕ, zero, suc, ◌-◌, ◌/◌, ◌%◌, ◌^◌, ◌<◌, min, max, bit_and, bit_or, ◌≡◌, refl, ap, ◌*◌, ◌∙◌, ◌≤◌,
  true, false, arith, ltb, ◌==◌, if◌then◌else◌, not, ◌&&◌, ap₂, sym, page_down, ◌+◌, Bool-cases,
  inl, inr,
}

pub bit : ℕ → ℕ → ℕ
bit w zero = w % 2
bit w (suc k) = bit (w / 2) k

pub bit-lt-two : (k w : ℕ) → bit w k < 2
unfolding bit
bit-lt-two zero w = omega arith
bit-lt-two (suc k) w = bit-lt-two k (w / 2)

pub bit-bit_or : (k a b : ℕ) → bit (bit_or a b) k ≡ max (bit a k) (bit b k)
unfolding bit
bit-bit_or zero a b = omega (arith, bit_or_step a b)
bit-bit_or (suc k) a b = rw half (bit-bit_or k (a / 2) (b / 2))
  where
    half : bit_or a b / 2 ≡ bit_or (a / 2) (b / 2)
    half = omega (arith, bit_or_step a b)

pub bit-bit_and : (k a b : ℕ) → bit (bit_and a b) k ≡ min (bit a k) (bit b k)
unfolding bit
bit-bit_and zero a b = omega (arith, bit_and_step a b)
bit-bit_and (suc k) a b = rw half (bit-bit_and k (a / 2) (b / 2))
  where
    half : bit_and a b / 2 ≡ bit_and (a / 2) (b / 2)
    half = omega (arith, bit_and_step a b)

bit-zero : (k : ℕ) → bit 0 k ≡ 0
unfolding bit
bit-zero zero = refl
bit-zero (suc k) = bit-zero k

-- `1U << k` has the bit `k` and no other.
pub bit-pow : (j k : ℕ) → bit (2 ^ k) j ≡ (if j == k then 1 else 0)
unfolding bit
bit-pow zero zero = refl
bit-pow zero (suc k) = ground (arith, pow-suc 2 k)
bit-pow (suc j) zero = ground (arith, bit-zero j)
bit-pow (suc j) (suc k) = rw half (ground (arith, bit-pow j k))
  where
    half : 2 ^ suc k / 2 ≡ 2 ^ k
    half = omega (arith, pow-suc 2 k)

pow-lt : (k w : ℕ) → k < w → 2 ^ suc k ≤ 2 ^ w
pow-lt k w h = pow-le-pow_right (omega arith) h

mask-half : (w k : ℕ) → (2 ^ suc w - 1 - 2 ^ suc k) / 2 ≡ 2 ^ w - 1 - 2 ^ k
mask-half w k = omega (arith, pow-suc 2 k, pow-suc 2 w)

bit_ones : (j w : ℕ) → bit (2 ^ w - 1) j ≡ (if ltb j w then 1 else 0)
unfolding bit
bit_ones j zero = ground (arith, bit-zero j)
bit_ones zero (suc w) = ground (arith, pow-suc 2 w, one-le-pow w 2)
bit_ones (suc j) (suc w) = rw half (ground (arith, bit_ones j w))
  where
    half : (2 ^ suc w - 1) / 2 ≡ 2 ^ w - 1
    half = omega (arith, pow-suc 2 w, one-le-pow w 2)

-- `~(1U << k)` of a word of `w` bits has every bit but `k`.
pub bit_mask :
    (j k w : ℕ) → k < w → bit (2 ^ w - 1 - 2 ^ k) j ≡ (if ltb j w && not (j == k) then 1 else 0)
unfolding bit
bit_mask j k zero h = elim h [ ]
bit_mask zero zero (suc w) h = ground (arith, pow-suc 2 w, one-le-pow w 2)
bit_mask zero (suc k) (suc w) h = ground (arith, odd)
  where
    odd : (2 ^ suc w - 1 - 2 ^ suc k) % 2 ≡ 1
    odd =
        omega
          (arith, pow-suc 2 w, pow-suc 2 k, pow-lt k w (omega arith), one-le-pow w 2 (omega arith))
bit_mask (suc j) zero (suc w) h = rw half (ground (arith, bit_ones j w))
  where
    half : (2 ^ suc w - 1 - 2 ^ 0) / 2 ≡ 2 ^ w - 1
    half = omega (arith, pow-suc 2 w, one-le-pow w 2)
bit_mask (suc j) (suc k) (suc w) h = rw (mask-half w k) (ground (arith, bit_mask j k w))

bit-eq-div : (w k : ℕ) → w / 2 ^ k % 2 ≡ bit w k
unfolding bit
bit-eq-div w zero = omega arith
bit-eq-div w (suc k) = rw (pow-succ', ← div-div-eq-div-mul) (bit-eq-div (w / 2) k)

-- `(w >> k) & 1`
pub bit_shift : (w k : ℕ) → bit_and (w / 2 ^ k) 1 ≡ bit w k
unfolding bit
bit_shift w k = bit_and-one (w / 2 ^ k) ∙ bit-eq-div w k

-- `w & 1`
pub bit_and-low : (w : ℕ) → bit_and w 1 ≡ w % 2
bit_and-low w = bit_and-one w

-- `w & (1U << k)`
pub bit_and-pow : (k w : ℕ) → bit_and w (2 ^ k) ≡ bit w k * 2 ^ k
unfolding bit
bit_and-pow zero w = omega (arith, bit_and-one w)
bit_and-pow (suc k) w = omega (
  arith,
  pow-suc 2 k,
  bit_and_step w (2 ^ suc k),
  half,
  bit_and-pow k (w / 2),
  ap (λ (t : ℕ). bit (w / 2) k * t) (pow-suc 2 k),
)
  where
    half : bit_and (w / 2) (2 ^ suc k / 2) ≡ bit_and (w / 2) (2 ^ k)
    half = ap (bit_and (w / 2)) (omega (arith, pow-suc 2 k))

pub zero-bit_and : (b : ℕ) → bit_and 0 b ≡ 0
zero-bit_and b = bit_and-bitwise 0 b

-- The bits of a word from `n` on are those of the word shifted to the right.
bit_div : (n k w : ℕ) → bit w (n + k) ≡ bit (w / 2 ^ n) k
unfolding bit
bit_div zero k w = ap₂ bit same none_more
  where
    same : w ≡ w / 2 ^ 0
    same = omega arith

    none_more : 0 + k ≡ k
    none_more = omega arith
bit_div (suc n) k w = ap (bit w) more ∙ bit_div n k (w / 2) ∙ ap (λ t. bit t k) halves
  where
    more : suc n + k ≡ suc (n + k)
    more = omega arith

    halves : w / 2 / 2 ^ n ≡ w / 2 ^ suc n
    halves = div-div-eq-div-mul w 2 (2 ^ n) ∙ ap (λ t. w / t) (sym (pow-succ' 2 n))

pub bit-page_down : (k w : ℕ) → bit (page_down w) (12 + k) ≡ bit w (12 + k)
bit-page_down k w =
    bit_div 12 k (page_down w) ∙ ap (λ t. bit t k) (omega arith) ∙ sym (bit_div 12 k w)

double : (n w : ℕ) → 2 ^ suc n * w ≡ 2 * (2 ^ n * w)
double n w = ap (λ t. t * w) (pow-suc 2 n ∙ mul_comm (2 ^ n) 2) ∙ mul_assoc 2 (2 ^ n) w

bit_multiple : (n j w : ℕ) → j < n → bit (2 ^ n * w) j ≡ 0
unfolding bit
bit_multiple zero j w h = absurd (omega (arith, h))
bit_multiple (suc n) zero w h = omega (arith, double n w)
bit_multiple (suc n) (suc j) w h =
    ap (λ t. bit t j) (omega (arith, double n w)) ∙ bit_multiple n j w (omega (arith, h))

-- What is left of an entry's bits in its address.
pub bit_kept : (j w : ℕ) → bit (page_down w) j ≡ (if ltb j 12 then 0 else bit w j)
bit_kept j w = elim (Bool-cases (ltb j 12)) [
  | inl low ↦
      rw low (ap (λ t. bit t j) (omega arith) ∙ bit_multiple 12 j (w / 4096) (ground (arith, low)))
  | inr high ↦ rw high (above (j - 12) (ground (arith, high)))
]
  where
    above : (k : ℕ) → j ≡ 12 + k → bit (page_down w) j ≡ bit w j
    above k e = rw e (bit-page_down k w)
