-- ===== src/Serial/Tests.antt =====
-- A line and a number.
use arcline.Base.{ℕ, ◌+◌, ◌*◌, ◌≡◌, ◌≤◌, refl, arith, List, ◌++◌, codes}
use arcline.Serial.{puts, hex_text}
use arcline.Serial.Lines.{puts-with_returns, with_returns, hex_text-value, value}

hex_sample : hex_text 0x1f ≡ codes "0x1f"
unfolding hex_text
hex_sample = refl

hex_text-value_example : (ds : List ℕ) × (hex_text 0x1f ≡ codes "0x" ++ ds) × (value 0 ds ≡ 0x1f)
hex_text-value_example = hex_text-value 0x1f (omega arith)

puts-with_returns_example :
    ((puts (codes "ok\n") (λ i. 0) 0).1 ≡ with_returns (codes "ok\n"))
    × ((puts (codes "ok\n") (λ i. 0) 0).0 ≤ 0 + 3 * 2000000)
puts-with_returns_example = puts-with_returns (codes "ok\n") (λ i. 0) 0
