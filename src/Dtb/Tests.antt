-- ===== src/Dtb/Tests.antt =====
-- The walks over the sample.
use arcline.Base.{◌+◌, ◌*◌, ◌^◌, arith, ◌≡◌, refl, some}
use arcline.Dtb.{cell}
use arcline.Dtb.Sample.{sample}
use arcline.Dtb.Cells.{cell_lem}
use arcline.Dtb.Uart.{stdout_uart_base}

sample_magic : cell sample 8 ≡ 0xd00dfeed
unfolding cell
sample_magic = refl

uart_of_sample : stdout_uart_base 32 sample 8 (λ i. 0) ≡ some (some 0x9000000)
unfolding stdout_uart_base
uart_of_sample = refl

cell_lem_example : cell sample 8 ≡ 208 * 2 ^ 24 + 13 * 2 ^ 16 + 254 * 2 ^ 8 + 237
cell_lem_example = cell_lem sample 8 (omega arith) (omega arith) (omega arith) (omega arith)
