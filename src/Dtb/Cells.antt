-- ===== src/Dtb/Cells.antt =====
-- The cells of the tree (drivers/dtb.c) as numbers of four bytes, the highest first.
use arcline.Base.{ℕ, ◌+◌, ◌*◌, ◌/◌, ◌^◌, ◌<◌, ◌≡◌, ap, ap₂, ◌∙◌, arith, bit_and, bit_or, Array}
use arcline.Bits.Field.{bit_and_byte, bit_and_field, bit_or_add}
use arcline.Dtb.{be32_to_cpu, cell}

-- Four fields that do not meet.
fields :
    (a b c d : ℕ)
    → a < 256
    → b < 256
    → c < 256
    → d < 256
    → bit_or (bit_or (bit_or (a * 2 ^ 24) (b * 2 ^ 16)) (c * 2 ^ 8)) d
      ≡ a * 2 ^ 24 + b * 2 ^ 16 + c * 2 ^ 8 + d
fields a b c d ha hb hc hd =
    ap (λ t. bit_or (bit_or t (c * 2 ^ 8)) d) first ∙ (ap (λ t. bit_or t d) second ∙ third)
  where
    first : bit_or (a * 2 ^ 24) (b * 2 ^ 16) ≡ (a * 256 + b) * 2 ^ 16
    first = omega (arith, bit_or_add 24 a (b * 2 ^ 16) (omega arith))

    second : bit_or ((a * 256 + b) * 2 ^ 16) (c * 2 ^ 8) ≡ ((a * 256 + b) * 256 + c) * 2 ^ 8
    second = omega (arith, bit_or_add 16 (a * 256 + b) (c * 2 ^ 8) (omega arith))

    third : bit_or (((a * 256 + b) * 256 + c) * 2 ^ 8) d ≡ a * 2 ^ 24 + b * 2 ^ 16 + c * 2 ^ 8 + d
    third = omega (arith, bit_or_add 8 ((a * 256 + b) * 256 + c) d hd)

-- `be32_to_cpu` reverses the four bytes of a word, so that a second time gives the word back.
pub be32_to_cpu_lem :
    (a b c d : ℕ)
    → a < 256
    → b < 256
    → c < 256
    → d < 256
    → (be32_to_cpu (d + c * 2 ^ 8 + b * 2 ^ 16 + a * 2 ^ 24)
        ≡ d * 2 ^ 24 + c * 2 ^ 16 + b * 2 ^ 8 + a)
unfolding be32_to_cpu
be32_to_cpu_lem a b c d ha hb hc hd = parts ∙ fields d c b a hd hc hb ha
  where
    v : ℕ
    v = d + c * 2 ^ 8 + b * 2 ^ 16 + a * 2 ^ 24

    lowest : bit_and v 0xFF * 2 ^ 24 ≡ d * 2 ^ 24
    lowest = omega (arith, bit_and_byte v)

    second : bit_and v 0xFF00 * 2 ^ 8 ≡ c * 2 ^ 16
    second = omega (arith, bit_and_field 8 v)

    third : bit_and v 0xFF0000 / 2 ^ 8 ≡ b * 2 ^ 8
    third = omega (arith, bit_and_field 16 v)

    highest : bit_and v 0xFF000000 / 2 ^ 24 ≡ a
    highest = omega (arith, bit_and_field 24 v)

    parts : be32_to_cpu v ≡ bit_or (bit_or (bit_or (d * 2 ^ 24) (c * 2 ^ 16)) (b * 2 ^ 8)) a
    parts = ap₂ bit_or (ap₂ bit_or (ap₂ bit_or lowest second) third) highest

-- A cell of four bytes, each below 256, is the number that they make with the highest first.
pub cell_lem :
    (m : Array ℕ) (p : ℕ)
    → m p < 256
    → m (p + 1) < 256
    → m (p + 2) < 256
    → m (p + 3) < 256
    → cell m p ≡ m p * 2 ^ 24 + m (p + 1) * 2 ^ 16 + m (p + 2) * 2 ^ 8 + m (p + 3)
unfolding cell
cell_lem m p h0 h1 h2 h3 = be32_to_cpu_lem (m (p + 3)) (m (p + 2)) (m (p + 1)) (m p) h3 h2 h1 h0
