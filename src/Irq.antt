-- ===== src/Irq.antt =====
-- kernel/irq.c, kernel/irq_handler.c and the registers of drivers/gic.c that belong to one
-- interrupt. A handler is named by its address, 0 is NULL.
pub mod Dispatch
mod Tests
use arcline.Base.{
  ℕ, ◌+◌, ◌*◌, ◌/◌, ◌%◌, ◌^◌, Bool, not, ◌&&◌, ◌||◌, ltb, leb, is_null, if◌then◌else◌, Array, store,
  Option, none, some, ℤ, pos, negsuc, to_ℕ, is_neg,
}

pub record Desc : Type 0 where
  pub handler : ℕ
  pub dev : ℕ

abbrev pub max_irqs : ℕ
max_irqs = 1024

-- `memset(irq_table, 0, sizeof(irq_table))`
pub init : Array Desc
init = λ i. record { handler = 0; dev = 0 }

-- `irq < 0 || irq >= limit`
abbrev pub outside : ℕ → ℤ → Bool
outside limit irq = is_neg irq || leb limit (to_ℕ irq)

pub install_handler : ℤ → ℕ → ℕ → Array Desc → ℤ × Array Desc
install_handler irq handler dev t =
    if outside max_irqs irq || is_null handler
    then (negsuc 0, t)
    else if not (is_null (t (to_ℕ irq)).handler)
    then (negsuc 1, t)
    else (pos 0, store t (to_ℕ irq) (record { handler = handler; dev = dev }))

pub uninstall_handler : ℤ → Array Desc → Array Desc
uninstall_handler irq t =
    if outside max_irqs irq then t else store t (to_ℕ irq) (record { handler = 0; dev = 0 })

-- The call that `irq_dispatch` makes: the handler and its device.
pub dispatch : ℤ → Array Desc → Option (ℕ × ℕ)
dispatch irq t =
    if outside max_irqs irq
    then none
    else if not (is_null (t (to_ℕ irq)).handler)
    then some ((t (to_ℕ irq)).handler, (t (to_ℕ irq)).dev)
    else none

-- `handle_irq`: the call, and the number that is written to end the interrupt.
pub handle_irq : ℕ → Array Desc → Option (ℕ × ℕ) × ℕ
handle_irq irq t = (if ltb irq 1020 then dispatch (pos irq) t else none, irq)

-- The write of `gic_enable_irq`: the offset of the register and the value.
pub gic_enable_irq : ℤ → Option (ℕ × ℕ)
gic_enable_irq irq =
    if outside 1020 irq then none else some (256 + to_ℕ irq / 32 * 4, 2 ^ (to_ℕ irq % 32))

pub gic_disable_irq : ℤ → Option (ℕ × ℕ)
gic_disable_irq irq =
    if outside 1020 irq then none else some (384 + to_ℕ irq / 32 * 4, 2 ^ (to_ℕ irq % 32))
