-- ===== src/Serial.antt =====
-- drivers/serial.c: the PL011. A string is the list of its bytes. `flags i` is what the flag register reads at the
-- `i`-th reading, so that a function takes and returns the number of readings so far, beside what it writes.
pub mod Lines
mod Tests
use arcline.Base.{
  ℕ, zero, suc, ◌+◌, ◌-◌, ◌*◌, ◌/◌, ◌%◌, ◌^◌, Bool, true, false, not, ◌==◌, ltb, if◌then◌else◌,
  List, [], ◌∷◌, ◌++◌, Option, none, some, bit_and, bit_or, codes,
}

abbrev pub default_uart_base : ℕ
default_uart_base = 0x09000000

-- A write to a register of the device.
pub record Write : Type 0 where
  pub address : ℕ
  pub value : ℕ

-- `serial_init`, with the answer of `dtb_get_stdout_uart_base`: `uart_base` and the writes.
unfoldable pub init : Option ℕ → ℕ → ℕ × List Write
init found uart_base =
    let base : ℕ = elim found [ none ↦ uart_base | some b ↦ if b == 0 then uart_base else b ] in
    (
      base,
      record { address = base + 0x30; value = 0 }
          ∷ record { address = base + 0x2C; value = 3 * 2 ^ 5 }
          ∷ record { address = base + 0x30; value = bit_or (bit_or (2 ^ 0) (2 ^ 8)) (2 ^ 9) }
          ∷ [],
    )

-- UART_SPIN_MAX
abbrev pub spin_max : ℕ
spin_max = 1000000

-- The loop of `uart_wait_tx_space`: the rounds left, which are UART_SPIN_MAX - spins.
unfoldable pub wait_loop : ℕ → (ℕ → ℕ) → ℕ → ℕ
wait_loop zero flags i = i
wait_loop (suc k) flags i =
    let rest = wait_loop k flags (i + 1) in
    if not (bit_and (flags i) (2 ^ 5) == 0) then rest else i + 1

unfoldable pub wait_tx_space : (ℕ → ℕ) → ℕ → ℕ
wait_tx_space flags i = wait_loop spin_max flags i

-- The bytes that are written to the data register.
unfoldable pub putc : ℕ → (ℕ → ℕ) → ℕ → ℕ × List ℕ
putc c flags i =
    if c == b'\n'
    then (wait_tx_space flags (wait_tx_space flags i), b'\r' ∷ c ∷ [])
    else (wait_tx_space flags i, c ∷ [])

unfoldable pub puts : List ℕ → (ℕ → ℕ) → ℕ → ℕ × List ℕ
unfolding putc
puts [] flags i = (i, [])
puts (c ∷ cs) flags i =
    let first = putc c flags i in let rest = puts cs flags first.0 in (rest.0, first.1 ++ rest.1)

unfoldable pub hex_char : ℕ → ℕ
hex_char digit = if ltb digit 10 then b'0' + digit else b'a' + digit - 10

-- `while (val > 0)`: the rounds left and the digits so far.
unfoldable pub hex_loop : ℕ → ℕ → List ℕ → List ℕ
unfolding hex_char
hex_loop zero val p = p
hex_loop (suc k) val p =
    let rest = hex_loop k (val / 16) (hex_char (val % 16) ∷ p) in if val == 0 then p else rest

-- The string that `serial_print_hex` writes; a value of 64 bits has 16 digits at most.
unfoldable pub hex_text : ℕ → List ℕ
unfolding hex_loop
hex_text val = if val == 0 then codes "0x0" else codes "0x" ++ hex_loop 16 val []

unfoldable pub print_hex : ℕ → (ℕ → ℕ) → ℕ → ℕ × List ℕ
unfolding hex_text puts
print_hex val flags i = puts (hex_text val) flags i
