-- ===== src/Pmm/Boot.antt =====
-- `pmm_init_from_dtb` of mm/pmm.c and what it calls.
pub mod Reserves
pub mod Whole
mod Tests
use arcline.Base.{
  ℕ, zero, suc, ◌+◌, ◌-◌, ◌/◌, ◌%◌, ◌^◌, Bool, not, ltb, leb, ◌==◌, if◌then◌else◌, Array, store,
  Option, none, some, add64, sub64, page_down,
}
use arcline.Bitmap.{Words}
use arcline.Dtb.{◌>>=◌, cell}
use arcline.Dtb.Uart.{stdout_uart_base}
use arcline.Pmm.{Pmm, clear_bit, max_pages, page_size, reserve_range}
use arcline.Pmm.Region.{find_memory_region}
use arcline.Pmm.Reserved.{reserve_reserved_memory}

-- The symbols of the linker script.
pub record Image : Type 0 where
  pub kernel_start : ℕ
  pub kernel_end : ℕ
  pub stack_bottom : ℕ
  pub stack_top : ℕ

-- `for (i = 0; i < n; ++i) pmm_bitmap[i] = 0xFF`: the rounds left and `i`.
pub fill_loop : ℕ → ℕ → Words → Words
fill_loop zero i m = m
fill_loop (suc k) i m = fill_loop k (i + 1) (store m i 0xFF)

-- `for (i = 0; i < n; ++i) clear_bit(i)`: the rounds left and `i`.
pub clear_loop : ℕ → ℕ → Words → Words
clear_loop zero i m = m
clear_loop (suc k) i m = clear_loop k (i + 1) (clear_bit m i)

-- The base and the size of the memory, or those of the fallback.
pub chosen_region : Option (ℕ × ℕ) → ℕ × ℕ
chosen_region none = (0x40000000, 0x40000000)
chosen_region (some r) = if r.1 == 0 then (0x40000000, 0x40000000) else r

-- `aligned_base` and `aligned_end - aligned_base`.
pub managed_range : ℕ × ℕ → ℕ × ℕ
managed_range r =
    let aligned_base = page_down (add64 r.0 (page_size - 1)) in
    let aligned_end = page_down (add64 r.0 r.1) in
    if leb aligned_end aligned_base
    then (0x40000000, 0x40000000)
    else (aligned_base, aligned_end - aligned_base)

-- All pages of the range free, and no other.
pub manage : ℕ × ℕ → Pmm → Pmm
manage r s =
    let pages = r.1 / page_size in
    let total = if ltb max_pages pages then max_pages else pages in
    record {
      bitmap = clear_loop total 0 (fill_loop (max_pages / 8) 0 s.bitmap);
      mem_base = r.0;
      mem_size = r.1;
      pages_total = total;
      pages_free = total;
    }

pub reserve_image : Image → Pmm → Pmm
reserve_image i s =
    reserve_range (reserve_range s i.kernel_start (sub64 i.kernel_end i.kernel_start))
      i.stack_bottom (sub64 i.stack_top i.stack_bottom)

pub reserve_dtb_blob : Array ℕ → ℕ → Pmm → Pmm
reserve_dtb_blob m dtb s = if dtb == 0 then s else reserve_range s dtb (cell m (dtb + 4))

-- The page of the UART, where it is known.
pub reserve_uart : Option ℕ → Pmm → Pmm
reserve_uart none s = s
reserve_uart (some uart_base) s =
    if uart_base == 0 then s else reserve_range s (page_down uart_base) page_size

-- The first MiB.
pub reserve_low : Pmm → Pmm
reserve_low s =
    if ltb s.mem_base (add64 s.mem_base s.mem_size) then reserve_range s s.mem_base 0x100000 else s

-- `pmm_init_from_dtb`: `n` and `k` bound the rounds of the walks, and `buf` is what the local arrays of
-- `dtb_get_stdout_uart_base` hold at first.
pub init_from_dtb : ℕ → ℕ → Array ℕ → ℕ → Image → Array ℕ → Pmm → Option Pmm
init_from_dtb n k m dtb image buf s = find_memory_region n k m dtb >>= (λ found.
    reserve_reserved_memory n k m dtb (
      reserve_dtb_blob m dtb (reserve_image image (manage (managed_range (chosen_region found)) s)))
    >>= (λ s1.
        stdout_uart_base k m dtb buf >>= (λ uart. some (reserve_low (reserve_uart uart s1)))))
