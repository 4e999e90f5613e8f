-- ===== src/Strings/Numbers/Tests.antt =====
-- Numbers as texts.
use arcline.Base.{◌+◌, ◌≡◌, ◌≤◌, refl, arith, [], codes, length, true}
use arcline.Decimal.{all_digits}
use arcline.Strings.Numbers.{htoa, itoa, itoa_loop, itoa_loop_lem, read_decimal}

third_digit : htoa 0xabc 8 (λ a. 0) 23 ≡ b'A'
unfolding htoa
third_digit = refl

decimal : itoa_loop 19 1024 [] ≡ codes "1024"
unfolding itoa
decimal = refl

itoa_loop_lem_example :
    (all_digits (itoa_loop (3 + 19) 1024 []) ≡ true)
    × (read_decimal 0 (itoa_loop (3 + 19) 1024 []) ≡ 1024)
    × (length (itoa_loop (3 + 19) 1024 []) + 1 ≤ 21)
itoa_loop_lem_example = itoa_loop_lem 1024 3 (omega arith)
