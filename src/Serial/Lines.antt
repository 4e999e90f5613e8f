-- ===== src/Serial/Lines.antt =====
-- What drivers/serial.c sends, whatever the flag register says.
use native.Mathlib.Nat.{pow-suc}
use arcline.Base.{
  ℕ, zero, suc, ◌+◌, ◌-◌, ◌*◌, ◌/◌, ◌%◌, ◌^◌, ◌<◌, ◌≤◌, ◌≡◌, refl, ap, ◌∙◌, arith, ◌==◌, ltb,
  if◌then◌else◌, List, [], ◌∷◌, ◌++◌, codes, length, Bool-cases, inl, inr,
}
use arcline.Serial.{wait_loop, putc, puts, hex_char, hex_loop, hex_text, wait_tx_space}

-- Every newline with a carriage return in front.
unfoldable pub with_returns : List ℕ → List ℕ
with_returns [] = []
with_returns (c ∷ cs) =
    let rest = with_returns cs in if c == b'\n' then b'\r' ∷ c ∷ rest else c ∷ rest

-- The wait ends after at least one reading and at most UART_SPIN_MAX.
wait_loop_lem :
    (k : ℕ) (flags : ℕ → ℕ) (i : ℕ) → (i ≤ wait_loop k flags i) × (wait_loop k flags i ≤ i + k)
unfolding wait_loop
wait_loop_lem zero flags i = (omega arith, omega arith)
wait_loop_lem (suc k) flags i = ground (arith, wait_loop_lem k flags (i + 1))

wait_tx_space_lem :
    (flags : ℕ → ℕ) (i : ℕ) → (i ≤ wait_tx_space flags i) × (wait_tx_space flags i ≤ i + 1000000)
unfolding wait_tx_space
wait_tx_space_lem flags i = wait_loop_lem 1000000 flags i

putc_lem :
    (c : ℕ) (cs : List ℕ) (flags : ℕ → ℕ) (i : ℕ)
    → ((putc c flags i).1 ++ with_returns cs ≡ with_returns (c ∷ cs))
      × ((putc c flags i).0 ≤ i + 2000000)
unfolding putc with_returns
putc_lem c cs flags i = elim (Bool-cases (c == b'\n')) [
  | inl line ↦ rw line (
    refl,
    omega (arith, wait_tx_space_lem flags i, wait_tx_space_lem flags (wait_tx_space flags i)),
  )
  | inr other ↦ rw other (refl, omega (arith, wait_tx_space_lem flags i))
]

-- Whatever the flag register says, `serial_puts` ends after two million readings of it for each byte at most, and sends
-- all bytes of the string in their order, each newline with a carriage return in front.
pub puts-with_returns :
    (cs : List ℕ) (flags : ℕ → ℕ) (i : ℕ)
    → ((puts cs flags i).1 ≡ with_returns cs) × ((puts cs flags i).0 ≤ i + length cs * 2000000)
unfolding puts with_returns
puts-with_returns [] flags i = (refl, omega arith)
puts-with_returns (c ∷ cs) flags i = (
  ap (λ t. (putc c flags i).1 ++ t) (puts-with_returns cs flags (putc c flags i).0).0
      ∙ (putc_lem c cs flags i).0,
  omega (arith, (puts-with_returns cs flags (putc c flags i).0).1, (putc_lem c cs flags i).1),
)

-- The value of a text of hexadecimal digits, the highest first, from the value of the digits before it.
unfoldable pub digit_of : ℕ → ℕ
digit_of c = if ltb c 97 then c - 48 else c - 87

unfoldable pub value : ℕ → List ℕ → ℕ
unfolding digit_of
value v [] = v
value v (c ∷ cs) = value (v * 16 + digit_of c) cs

digit_of-hex_char : (d : ℕ) → d < 16 → digit_of (hex_char d) ≡ d
unfolding digit_of hex_char
digit_of-hex_char d h = ground arith

digits_back : (val : ℕ) → val / 16 * 16 + digit_of (hex_char (val % 16)) ≡ val
digits_back val = omega (arith, digit_of-hex_char (val % 16) (omega arith))

hex_loop-value : (k val : ℕ) (p : List ℕ) → val < 16 ^ k → value 0 (hex_loop k val p) ≡ value val p
unfolding value hex_loop
hex_loop-value zero val p h = ap (λ t. value t p) (omega arith)
hex_loop-value (suc k) val p h = elim (Bool-cases (val == 0)) [
  | inl zero_left ↦ rw zero_left (ap (λ t. value t p) (ground (arith, zero_left)))
  | inr more ↦ rw more (
      hex_loop-value k (val / 16) (hex_char (val % 16) ∷ p) (omega (arith, h, pow-suc 16 k))
      ∙ ap (λ t. value t p) (digits_back val))
]

-- The text of a value of 64 bits is "0x" and digits of that value.
pub hex_text-value :
    (val : ℕ)
    → val < 2 ^ 64
    → (ds : List ℕ) × (hex_text val ≡ codes "0x" ++ ds) × (value 0 ds ≡ val)
unfolding hex_text value
hex_text-value val h = elim (Bool-cases (val == 0)) [
  | inl zero_val ↦ (codes "0", rw zero_val refl, ground (arith, zero_val))
  | inr more ↦ (hex_loop 16 val [], rw more refl, hex_loop-value 16 val [] h)
]
