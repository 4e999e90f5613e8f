-- ===== src/Dtb/Uart/Ends.antt =====
-- `dtb_get_stdout_uart_base` ends on every well-formed block.
use arcline.Base.{
  ℕ, ◌+◌, ◌<◌, ◌≡◌, refl, true, not, ◌==◌, ◌||◌, Array, store, arith, List, [], length, Option,
  none, some, Bool-cases, inl, inr,
}
use arcline.Dtb.{Fdt, header, cell, magic}
use arcline.Dtb.Items.{Item, Block, are_short}
use arcline.Dtb.Uart.{First, Second, second_pass, locate, target_path, stdout_uart_base}
use arcline.Dtb.Uart.Path.{Ended}
use arcline.Dtb.Uart.FirstPass.{first_pass_ends}
use arcline.Dtb.Uart.SecondPass.{second_pass_ends}

module _ (m : Array ℕ) (h : Fdt) (k : ℕ) where
  locate_ends :
      {is : List Item}
      → Block m h h.off_struct is
      → are_short k is ≡ true
      → 255 + length is < k
      → (buf : Array ℕ) (first : First) → (o : Option ℕ) × (locate k m h buf first ≡ some o)
  unfolding locate
  locate_ends {is} b sh q buf first =
      elim (Bool-cases (first.stdout.0 == 0 || first.stdout.1 == 0)) [
        | inl unset ↦ (none, rw unset refl)
        | inr given ↦
            let c = found (target_path first.stdout first.aliases m buf) in (c.0, rw given c.1)
      ]
    where
      path : Array ℕ
      path = store (store buf 0 b'/') 1 0

      start : Second
      start = record { p = h.off_struct; depth = 0; path = path }

      path-Ended : Ended 255 path
      path-Ended = record { at = 1; near = omega arith; nul = refl }

      found :
          (target : Option (Array ℕ))
          → (o : Option ℕ) × ((elim target [
            | none ↦ some none
            | some t ↦ second_pass k k m h t start
          ])
              ≡ some o)
      found none = (none, refl)
      found (some t) =
          second_pass_ends m h k k 255 t start b sh (omega (arith, q)) path-Ended (omega arith)
            (omega (arith, q))

-- `dtb_get_stdout_uart_base` answers on every well-formed block, given rounds for the names, and for
-- 256 bytes of a path and one byte more for each item.
pub stdout_uart_base_ends :
    (k dtb : ℕ) (m buf : Array ℕ) (is : List Item)
    → Block m (header m dtb) (header m dtb).off_struct is
    → are_short k is ≡ true
    → 255 + length is < k
    → (o : Option ℕ) × (stdout_uart_base k m dtb buf ≡ some o)
unfolding stdout_uart_base
stdout_uart_base_ends k dtb m buf is b sh q = elim (Bool-cases (dtb == 0)) [
  | inl null ↦ (none, rw null refl)
  | inr real ↦ elim (Bool-cases (not (cell m dtb == magic))) [
    | inl odd ↦ (none, rw (real, odd) refl)
    | inr well ↦
        let c =
          first_pass_ends m (header m dtb) k k
            (record { p = (header m dtb).off_struct; depth = 0; aliases = []; stdout = (0, 0) }) b
            sh (omega (arith, q)) (omega (arith, q)) in
        let f = locate_ends m (header m dtb) k b sh q buf c.0 in (f.0, rw (real, well, c.1) f.1)
  ]
]
