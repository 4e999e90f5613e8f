-- ===== src/Bits/Step.antt =====
-- The native `|` and `&` are recursions on binary digits; here one equation for the lowest digit.
use Prim.Native.Nat.{digits, bitwise, bit_and-bitwise, bit_or-bitwise}
use arcline.Base.{
  ℕ, zero, suc, ◌+◌, ◌*◌, ◌/◌, ◌%◌, ◌≤◌, min, max, bit_and, bit_or, ◌≡◌, refl, ap, arith,
}

module _ (tail : ℕ → ℕ) (op : ℕ → ℕ → ℕ) where
  -- any fuel that covers the first number gives what its own value gives
  enough :
      (fuel x y : ℕ) → x ≤ fuel → (g : ℕ) → x ≤ g → digits tail op fuel x y ≡ digits tail op g x y
  enough zero zero y p zero q = refl
  enough zero zero y p (suc g) q = refl
  enough (suc fuel) zero y p zero q = refl
  enough (suc fuel) zero y p (suc g) q = refl
  enough zero (suc x) y p g q = absurd (omega arith)
  enough (suc fuel) (suc x) y p zero q = absurd (omega arith)
  enough (suc fuel) (suc x) y p (suc g) q =
      ap (λ r. r * 2 + op (suc x % 2) (y % 2))
        (enough fuel (suc x / 2) (y / 2) (omega arith) g (omega arith))

  lowest :
      (x y : ℕ)
      → bitwise tail op (suc x) y ≡ bitwise tail op (suc x / 2) (y / 2) * 2 + op (suc x % 2) (y % 2)
  lowest x y =
      ap (λ r. r * 2 + op (suc x % 2) (y % 2))
        (enough x (suc x / 2) (y / 2) (omega arith) (suc x / 2) (omega arith))

pub bit_and_step : (x y : ℕ) → bit_and x y ≡ bit_and (x / 2) (y / 2) * 2 + min (x % 2) (y % 2)
bit_and_step zero y = simp bit_and-bitwise (omega arith)
bit_and_step (suc x) y = simp bit_and-bitwise (lowest (λ _. 0) min x y)

pub bit_or_step : (x y : ℕ) → bit_or x y ≡ bit_or (x / 2) (y / 2) * 2 + max (x % 2) (y % 2)
bit_or_step zero y = simp bit_or-bitwise (omega arith)
bit_or_step (suc x) y = simp bit_or-bitwise (lowest (λ d. d) max x y)

bit_and-zero : (n x : ℕ) → x ≤ n → bit_and x 0 ≡ 0
bit_and-zero n zero h = refl
bit_and-zero zero (suc x) h = absurd (omega arith)
bit_and-zero (suc n) (suc x) h =
    omega (arith, bit_and_step (suc x) 0, bit_and-zero n (suc x / 2) (omega arith))

pub bit_and-one : (x : ℕ) → bit_and x 1 ≡ x % 2
bit_and-one x = omega (arith, bit_and_step x 1, bit_and-zero (x / 2) (x / 2) (omega arith))
