-- ===== src/Strings/Numbers.antt =====
-- `htoa` and `itoa` of lib/string.c.
mod Tests
use native.Mathlib.Nat.{pow-suc}
use arcline.Base.{
  ℕ, zero, suc, ◌+◌, ◌-◌, ◌*◌, ◌/◌, ◌%◌, ◌^◌, ◌<◌, ◌≤◌, ◌≡◌, refl, ap, ◌∙◌, arith, Bool, true,
  false, ltb, leb, is_null, ◌==◌, if◌then◌else◌, Array, store, List, [], ◌∷◌, Bool-cases, inl, inr,
  length,
}
use arcline.Decimal.{all_digits, digit-is_digit}

-- `hex_chars[d]`
unfoldable pub hex_digit : ℕ → ℕ
hex_digit d = if ltb d 10 then b'0' + d else b'A' + d - 10

-- The sixteen stores of `htoa`, `buffer[2 + i] = hex_chars[(n >> (60 - 4 * i)) & 0xF]`: those left and `i`.
unfoldable pub htoa_loop : ℕ → ℕ → ℕ → ℕ → Array ℕ → Array ℕ
unfolding hex_digit
htoa_loop zero i n buffer m = m
htoa_loop (suc k) i n buffer m =
    htoa_loop k (i + 1) n buffer (store m (buffer + 2 + i) (hex_digit (n / 2 ^ (60 - 4 * i) % 16)))

unfoldable pub htoa : ℕ → ℕ → Array ℕ → Array ℕ
unfolding htoa_loop
htoa n buffer m =
    let prefix = store (store m buffer b'0') (buffer + 1) b'x' in
    if is_null buffer then m else store (htoa_loop 16 0 n buffer prefix) (buffer + 18) 0

-- `while (n >= 10)` and the last digit: the rounds left, and the digits so far, from `p` on.
unfoldable pub itoa_loop : ℕ → ℕ → List ℕ → List ℕ
itoa_loop zero n p = (b'0' + n) ∷ p
itoa_loop (suc k) n p =
    let rest = itoa_loop k (n / 10) ((b'0' + (n - n / 10 * 10)) ∷ p) in
    if leb 10 n then rest else (b'0' + n) ∷ p

-- The `strcpy` from `temp_buffer`, which no other pointer reaches.
unfoldable pub put_text : ℕ → List ℕ → Array ℕ → Array ℕ
put_text a [] m = store m a 0
put_text a (c ∷ cs) m = put_text (a + 1) cs (store m a c)

-- A value of 64 bits has 20 digits at most.
unfoldable pub itoa : ℕ → ℕ → Array ℕ → Array ℕ
unfolding itoa_loop put_text
itoa n buffer m =
    if n == 0
    then store (store m buffer b'0') (buffer + 1) 0
    else put_text buffer (itoa_loop 19 n []) m

-- The value of a text of decimal digits, the highest first, behind those of value `v`.
unfoldable pub read_decimal : ℕ → List ℕ → ℕ
read_decimal v [] = v
read_decimal v (c ∷ cs) = read_decimal (v * 10 + (c - b'0')) cs

shift : (k : ℕ) → 10 ^ (suc k + 1) ≡ 10 * 10 ^ (k + 1)
shift k = ap (λ t. 10 ^ t) (omega arith) ∙ (pow-suc 10 (k + 1) ∙ omega arith)

itoa_loop-read :
    (k n : ℕ) (p : List ℕ) → n < 10 ^ (k + 1) → read_decimal 0 (itoa_loop k n p) ≡ read_decimal n p
unfolding itoa_loop read_decimal
itoa_loop-read zero n p h = ap (λ t. read_decimal t p) (omega arith)
itoa_loop-read (suc k) n p h = elim (Bool-cases (leb 10 n)) [
  | inl more ↦ rw more (
      itoa_loop-read k (n / 10) ((b'0' + (n - n / 10 * 10)) ∷ p)
        (omega (arith, h, pow-suc 10 (k + 1), shift k))
      ∙ ap (λ t. read_decimal t p) (omega arith))
  | inr last ↦ rw last (ap (λ t. read_decimal t p) (omega arith))
]

itoa_loop-digits :
    (k n : ℕ) (p : List ℕ)
    → n < 10 ^ (k + 1)
    → all_digits p ≡ true
    → all_digits (itoa_loop k n p) ≡ true
unfolding itoa_loop
itoa_loop-digits zero n p h d = rw (digit-is_digit n (omega (arith, h)), d) refl
itoa_loop-digits (suc k) n p h d = elim (Bool-cases (leb 10 n)) [
  | inl more ↦ rw more (
      itoa_loop-digits k (n / 10) ((b'0' + (n - n / 10 * 10)) ∷ p)
        (omega (arith, h, pow-suc 10 (k + 1), shift k))
        (rw (digit-is_digit (n - n / 10 * 10) (omega arith), d) refl))
  | inr last ↦ rw (last, digit-is_digit n (ground (arith, last)), d) refl
]

itoa_loop_last : (k n : ℕ) (p : List ℕ) → n < 10 → itoa_loop k n p ≡ (b'0' + n) ∷ p
unfolding itoa_loop
itoa_loop_last zero n p h = refl
itoa_loop_last (suc k) n p h = let last : leb 10 n ≡ false = ground (arith, h) in rw last refl

-- Rounds beyond the digits of the value change nothing: the loop ends by its own test.
itoa_loop-enough :
    (j k m n : ℕ) (p : List ℕ) → m ≡ j + k → n < 10 ^ (k + 1) → itoa_loop m n p ≡ itoa_loop k n p
unfolding itoa_loop
itoa_loop-enough j zero m n p e h = itoa_loop_last m n p (omega (arith, h))
itoa_loop-enough j (suc k) zero n p e h = absurd (omega (arith, e))
itoa_loop-enough j (suc k) (suc m) n p e h = elim (Bool-cases (leb 10 n)) [
  | inl more ↦ rw more (
      itoa_loop-enough j k m (n / 10) ((b'0' + (n - n / 10 * 10)) ∷ p) (omega (arith, e))
        (omega (arith, h, pow-suc 10 (k + 1), shift k)))
  | inr last ↦ rw last refl
]

itoa_loop-length : (k n : ℕ) (p : List ℕ) → length (itoa_loop k n p) ≤ length p + k + 1
unfolding itoa_loop
itoa_loop-length zero n p = omega arith
itoa_loop-length (suc k) n p =
    ground (arith, itoa_loop-length k (n / 10) ((b'0' + (n - n / 10 * 10)) ∷ p))

-- What `itoa` prints of a value of 64 bits that is not 0, however many rounds, from 19 on, the loop
-- may run: decimal digits only, which read back as the value, and with their NUL fit the 21 bytes of
-- `temp_buffer`.
pub itoa_loop_lem :
    (n j : ℕ)
    → n < 2 ^ 64
    → (all_digits (itoa_loop (j + 19) n []) ≡ true)
      × (read_decimal 0 (itoa_loop (j + 19) n []) ≡ n)
      × (length (itoa_loop (j + 19) n []) + 1 ≤ 21)
unfolding read_decimal
itoa_loop_lem n j h = rw (itoa_loop-enough j 19 (j + 19) n [] refl (omega arith)) (
  itoa_loop-digits 19 n [] (omega arith) refl,
  itoa_loop-read 19 n [] (omega arith),
  omega (arith, itoa_loop-length 19 n []),
)
