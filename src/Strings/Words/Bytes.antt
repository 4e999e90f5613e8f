-- ===== src/Strings/Words/Bytes.antt =====
-- The bytes of a word of eight (lib/string.c).
use native.Mathlib.Nat.{one-le-pow}
use arcline.Base.{
  ℕ, ◌+◌, ◌*◌, ◌/◌, ◌%◌, ◌^◌, zero, suc, ◌<◌, ◌≤◌, ◌≡◌, ◌≢◌, false, ◌||◌, arith, ◌==◌, Array,
  bit_and, refl, ap, ap₂, ◌∙◌,
}
use arcline.Bits.Field.{bit_and_field}
use arcline.Strings.Words.{word64, has_zero_byte}

zero_test : (x b p : ℕ) → 1 ≤ p → x ≡ b * p → (x == 0) ≡ (b == 0)
zero_test x zero p h e = ground (arith, e)
zero_test x (suc b) p h e = ground (arith, e)

module _ (m : Array ℕ) (a : ℕ) (bytes : (j : ℕ) → m j < 256) where
  pub byte0 : word64 m a % 256 ≡ m a
  byte0 = omega (arith, bytes a)

  pub byte1 : word64 m a / 2 ^ 8 % 256 ≡ m (a + 1)
  byte1 = omega (arith, bytes a, bytes (a + 1))

  pub byte2 : word64 m a / 2 ^ 16 % 256 ≡ m (a + 2)
  byte2 = omega (arith, bytes a, bytes (a + 1), bytes (a + 2))

  pub byte3 : word64 m a / 2 ^ 24 % 256 ≡ m (a + 3)
  byte3 = omega (arith, bytes a, bytes (a + 1), bytes (a + 2), bytes (a + 3))

  pub byte4 : word64 m a / 2 ^ 32 % 256 ≡ m (a + 4)
  byte4 = omega (arith, bytes a, bytes (a + 1), bytes (a + 2), bytes (a + 3), bytes (a + 4))

  pub byte5 : word64 m a / 2 ^ 40 % 256 ≡ m (a + 5)
  byte5 =
      omega
        (arith, bytes a, bytes (a + 1), bytes (a + 2), bytes (a + 3), bytes (a + 4), bytes (a + 5))

  pub byte6 : word64 m a / 2 ^ 48 % 256 ≡ m (a + 6)
  byte6 = omega (
    arith,
    bytes a,
    bytes (a + 1),
    bytes (a + 2),
    bytes (a + 3),
    bytes (a + 4),
    bytes (a + 5),
    bytes (a + 6),
  )

  pub byte7 : word64 m a / 2 ^ 56 % 256 ≡ m (a + 7)
  byte7 = omega (
    arith,
    bytes a,
    bytes (a + 1),
    bytes (a + 2),
    bytes (a + 3),
    bytes (a + 4),
    bytes (a + 5),
    bytes (a + 6),
    bytes (a + 7),
  )

  -- The test of one byte.
  field_test :
      (t c b : ℕ)
      → c ≡ 255 * 2 ^ t
      → word64 m a / 2 ^ t % 256 ≡ b
      → (bit_and (word64 m a) c == 0) ≡ (b == 0)
  field_test t c b e f =
      zero_test (bit_and (word64 m a) c) b (2 ^ t) (one-le-pow t 2 (omega arith)) masked
    where
      masked : bit_and (word64 m a) c ≡ b * 2 ^ t
      masked = ap (bit_and (word64 m a)) e ∙ (bit_and_field t (word64 m a) ∙ ap (λ x. x * 2 ^ t) f)

  -- The test finds whether one of the eight bytes is zero.
  pub has_zero_byte_lem : has_zero_byte (word64 m a) ≡ (
      m (a + 7) == 0
      || (m (a + 6) == 0
          || (m (a + 5) == 0
              || (m (a + 4) == 0
                  || (m (a + 3) == 0 || (m (a + 2) == 0 || (m (a + 1) == 0 || m a == 0)))))))
  unfolding has_zero_byte
  has_zero_byte_lem = ap₂ ◌||◌ (field_test 56 0xFF00000000000000 (m (a + 7)) refl byte7) (
      ap₂ ◌||◌ (field_test 48 0x00FF000000000000 (m (a + 6)) refl byte6) (
        ap₂ ◌||◌ (field_test 40 0x0000FF0000000000 (m (a + 5)) refl byte5) (
          ap₂ ◌||◌ (field_test 32 0x000000FF00000000 (m (a + 4)) refl byte4) (
            ap₂ ◌||◌ (field_test 24 0x00000000FF000000 (m (a + 3)) refl byte3) (
              ap₂ ◌||◌ (field_test 16 0x0000000000FF0000 (m (a + 2)) refl byte2) (
                ap₂ ◌||◌ (field_test 8 0x000000000000FF00 (m (a + 1)) refl byte1)
                  (field_test 0 0x00000000000000FF (m a) refl whole)))))))
    where
      whole : word64 m a / 2 ^ 0 % 256 ≡ m a
      whole = omega (arith, byte0)

  -- Eight bytes that are not zero.
  pub nonzero_at : has_zero_byte (word64 m a) ≡ false → (t : ℕ) → t < 8 → m (a + t) ≢ 0
  nonzero_at h zero l = ground (arith, has_zero_byte_lem)
  nonzero_at h (suc zero) l = ground (arith, has_zero_byte_lem)
  nonzero_at h (suc (suc zero)) l = ground (arith, has_zero_byte_lem)
  nonzero_at h (suc (suc (suc zero))) l = ground (arith, has_zero_byte_lem)
  nonzero_at h (suc (suc (suc (suc zero)))) l = ground (arith, has_zero_byte_lem)
  nonzero_at h (suc (suc (suc (suc (suc zero))))) l = ground (arith, has_zero_byte_lem)
  nonzero_at h (suc (suc (suc (suc (suc (suc zero)))))) l = ground (arith, has_zero_byte_lem)
  nonzero_at h (suc (suc (suc (suc (suc (suc (suc zero))))))) l = ground (arith, has_zero_byte_lem)
  nonzero_at h (suc (suc (suc (suc (suc (suc (suc (suc t)))))))) l = absurd (omega arith)
