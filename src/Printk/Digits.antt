-- ===== src/Printk/Digits.antt =====
-- The digits that are printed, read back.
use arcline.Base.{
  ℕ, zero, suc, ◌+◌, ◌-◌, ◌*◌, ◌/◌, ◌%◌, ◌≤◌, ◌<◌, ◌≡◌, refl, ap, ◌∙◌, List, [], ◌∷◌, arith, ltb,
  leb, ◌==◌, if◌then◌else◌, length, Bool, true, false, Bool-cases, inl, inr,
}
use arcline.Decimal.{all_digits, digit-is_digit}
use native.Mathlib.Nat.{div-add-mod, mod-lt, div-lt_iff_lt-mul, mul_comm, mod-eq_of_lt}
use arcline.Printk.{
  digit_loop, fill_buf, emit_back, dec_char, hex_char, print_dec, print_hex, print_signed,
  most_digits,
}

-- The value of a digit, of either base.
abbrev pub digit_value : ℕ → ℕ
digit_value c = if ltb c b'a' then c - b'0' else c - b'a' + 10

-- A number read from its digits, the highest first, behind what was read before.
abbrev pub read_number : ℕ → ℕ → List ℕ → ℕ
read_number base acc [] = acc
read_number base acc (c ∷ cs) = read_number base (acc * base + digit_value c) cs

-- The same of digits that stand the lowest first.
abbrev low_first : ℕ → List ℕ → ℕ
low_first base [] = 0
low_first base (c ∷ cs) = low_first base cs * base + digit_value c

abbrev pub power : ℕ → ℕ → ℕ
power base zero = 1
power base (suc k) = power base k * base

read_number-emit_back :
    (base : ℕ) (buf out : List ℕ)
    → read_number base 0 (emit_back buf out) ≡ read_number base (low_first base buf) out
unfolding emit_back
read_number-emit_back base [] out = refl
read_number-emit_back base (c ∷ buf) out = read_number-emit_back base buf (c ∷ out)

module _ (char_of : ℕ → ℕ) (base : ℕ) (two : 2 ≤ base)
    (back : (d : ℕ) → d < base → digit_value (char_of d) ≡ d) where
  div_power : (k val : ℕ) → val < power base (suc k) → val / base < power base k
  div_power k val h = (div-lt_iff_lt-mul (omega arith)).1 h

  mod_base : (val : ℕ) → val % base < base
  mod_base val = mod-lt val (omega arith)

  digit_loop-low_first :
      (k val : ℕ) → val < power base k → low_first base (digit_loop char_of base k val) ≡ val
  unfolding digit_loop
  digit_loop-low_first zero val h = omega arith
  digit_loop-low_first (suc k) val h = elim (Bool-cases (val == 0)) [
    | inl e ↦ rw e (ground (arith, e))
    | inr e ↦
        rw
          (
            e,
            digit_loop-low_first k (val / base) (div_power k val h),
            back (val % base) (mod_base val),
          )
          (ap (λ t. t + val % base) (mul_comm (val / base) base) ∙ div-add-mod val base)
  ]

  digit_loop-length :
      (k n val : ℕ) → val < power base n → length (digit_loop char_of base k val) ≤ n
  unfolding digit_loop
  digit_loop-length zero n val h = omega arith
  digit_loop-length (suc k) zero val h =
      let none_left : (val == 0) ≡ true = ground (arith, h) in rw none_left (omega arith)
  digit_loop-length (suc k) (suc n) val h = elim (Bool-cases (val == 0)) [
    | inl e ↦ rw e (omega arith)
    | inr e ↦ rw e (omega (arith, digit_loop-length k n (val / base) (div_power n val h)))
  ]

  pub fill_buf-low_first :
      (val : ℕ)
      → digit_value b'0' ≡ 0
      → val < power base most_digits
      → low_first base (fill_buf char_of base val) ≡ val
  unfolding fill_buf
  fill_buf-low_first val z h = elim (Bool-cases (val == 0)) [
    | inl e ↦ rw e (ground (arith, e))
    | inr e ↦ rw e (digit_loop-low_first most_digits val h)
  ]

  pub fill_buf-length :
      (n val : ℕ) → val < power base (suc n) → length (fill_buf char_of base val) ≤ suc n
  unfolding fill_buf
  fill_buf-length n val h = elim (Bool-cases (val == 0)) [
    | inl e ↦ rw e (omega arith)
    | inr e ↦ rw e (digit_loop-length most_digits (suc n) val h)
  ]

dec_back : (d : ℕ) → d < 10 → digit_value (dec_char d) ≡ d
dec_back d h = ground (arith, h)

hex_back : (d : ℕ) → d < 16 → digit_value (hex_char d) ≡ d
hex_back d h = ground (arith, h)

pub print_dec-read : (val : ℕ) → val < 18446744073709551616 → read_number 10 0 (print_dec val) ≡ val
print_dec-read val h =
    read_number-emit_back 10 (fill_buf dec_char 10 val) []
    ∙ fill_buf-low_first dec_char 10 (omega arith) dec_back val refl (omega arith)

pub print_hex-read : (val : ℕ) → val < 18446744073709551616 → read_number 16 0 (print_hex val) ≡ val
print_hex-read val h =
    read_number-emit_back 16 (fill_buf hex_char 16 val) []
    ∙ fill_buf-low_first hex_char 16 (omega arith) hex_back val refl (omega arith)

-- The length of the digits of the value and of its low 32 bits.
pub record Fits (val : ℕ) : Type 0 where
  dec_int : length (fill_buf dec_char 10 (val % 4294967296)) ≤ 10
  dec_int64 : length (fill_buf dec_char 10 val) ≤ 20
  hex_int : length (fill_buf hex_char 16 (val % 4294967296)) ≤ 8
  hex_int64 : length (fill_buf hex_char 16 val) ≤ 16

-- The digits of a value of 64 bits take at most 20 bytes in base ten and 16 in base sixteen, those
-- of its low 32 bits at most 10 and 8.
pub fill_buf-Fits : (val : ℕ) → val < 18446744073709551616 → Fits val
fill_buf-Fits val h = record {
  dec_int = fill_buf-length dec_char 10 (omega arith) dec_back 9 (val % 4294967296) (omega arith);
  dec_int64 = fill_buf-length dec_char 10 (omega arith) dec_back 19 val (omega arith);
  hex_int = fill_buf-length hex_char 16 (omega arith) hex_back 7 (val % 4294967296) (omega arith);
  hex_int64 = fill_buf-length hex_char 16 (omega arith) hex_back 15 val (omega arith);
}

all_digits-digit_loop : (k val : ℕ) → all_digits (digit_loop dec_char 10 k val) ≡ true
unfolding digit_loop
all_digits-digit_loop zero val = refl
all_digits-digit_loop (suc k) val = elim (Bool-cases (val == 0)) [
  | inl e ↦ rw e refl
  | inr e ↦ rw (e, digit-is_digit (val % 10) (omega arith), all_digits-digit_loop k (val / 10)) refl
]

length-digit_loop :
    (k val : ℕ) → (val == 0) ≡ false → 1 ≤ length (digit_loop dec_char 10 (suc k) val)
unfolding digit_loop
length-digit_loop k val e = rw e (omega arith)

all_digits-emit_back :
    (buf out : List ℕ)
    → all_digits buf ≡ true
    → all_digits out ≡ true
    → all_digits (emit_back buf out) ≡ true
unfolding emit_back
all_digits-emit_back [] out h l = l
all_digits-emit_back (c ∷ buf) out h l =
    all_digits-emit_back buf (c ∷ out) (ground (arith, h)) (ground (arith, h, l))

length-emit_back : (buf out : List ℕ) → length (emit_back buf out) ≡ length buf + length out
unfolding emit_back
length-emit_back [] out = omega arith
length-emit_back (c ∷ buf) out = omega (arith, length-emit_back buf (c ∷ out))

-- The decimal number of a value: digits only, at least one, that read back as the value.
pub record Decimal (val : ℕ) (out : List ℕ) : Type 0 where
  digits : all_digits out ≡ true
  some_digit : 1 ≤ length out
  value : read_number 10 0 out ≡ val

print_dec-Decimal : (val : ℕ) → val < 18446744073709551616 → Decimal val (print_dec val)
unfolding fill_buf
print_dec-Decimal val h = record {
  digits = all_digits-emit_back (fill_buf dec_char 10 val) [] stored refl;
  some_digit = omega (arith, length-emit_back (fill_buf dec_char 10 val) [], filled);
  value = print_dec-read val h;
}
  where
    stored : all_digits (fill_buf dec_char 10 val) ≡ true
    stored = elim (Bool-cases (val == 0)) [
      | inl e ↦ rw e refl
      | inr e ↦ rw e (all_digits-digit_loop most_digits val)
    ]

    filled : 1 ≤ length (fill_buf dec_char 10 val)
    filled = elim (Bool-cases (val == 0)) [
      | inl e ↦ rw e (omega arith)
      | inr e ↦ rw e (length-digit_loop 63 val e)
    ]

-- How a signed value is printed: as a number below `limit`, as a minus and a number above it; at
-- `limit`, the least value, the minus stands alone.
pub data SignedPrint (limit val : ℕ) (out : List ℕ) : Type 0 where
  positive : val < limit → Decimal val out → SignedPrint limit val out
  negative :
      (cs : List ℕ)
      → limit < val
      → out ≡ b'-' ∷ cs
      → Decimal (2 * limit - val) cs
      → SignedPrint limit val out
  least : val ≡ limit → out ≡ b'-' ∷ [] → SignedPrint limit val out

-- `%d` and `%lld` of any value of two's complement: a value that is not
-- negative is printed as one or more decimal digits that read back as it, a negative one as a minus
-- and the digits of its absolute value; of the least value only the minus is printed.
pub print_signed-SignedPrint :
    (limit val : ℕ)
    → 0 < limit
    → limit ≤ 9223372036854775808
    → val < 2 * limit
    → SignedPrint limit val (print_signed limit val)
unfolding print_signed
print_signed-SignedPrint limit val p l h = elim (Bool-cases (leb limit val)) [
  | inr low ↦ rw low (positive (ground (arith, low)) (print_dec-Decimal val (ground (arith, low))))
  | inl high ↦
      rw (high, mod-eq_of_lt (inside (ground (arith, high))))
        (below (leb limit (2 * limit - val)) refl (ground (arith, high)))
]
  where
    inside : limit ≤ val → 2 * limit - val < 2 * limit
    inside q = omega arith

    below :
        (b : Bool)
        → leb limit (2 * limit - val) ≡ b
        → limit ≤ val
        → SignedPrint limit val (b'-' ∷ (if b then [] else print_dec (2 * limit - val)))
    below true e q = least (ground (arith, e, q)) refl
    below false e q =
        negative (print_dec (2 * limit - val)) (ground (arith, e, q)) refl
          (print_dec-Decimal (2 * limit - val) (omega (arith, q)))
