-- ===== src/Mmu/Region.antt =====
-- `mmu_map_region` and `mmu_init` of mm/mmu.c. The flush of the TLB and the printing are left out.
use arcline.Base.{
  ℕ, zero, suc, ◌+◌, ◌*◌, ◌/◌, ◌-◌, ◌^◌, ◌||◌, is_null, is_neg, if◌then◌else◌, bit_or, page_down,
  add64, ℤ, pos, negsuc,
}
use arcline.Mmu.{Mmu, alloc_table, map_page}

-- `vmm_kernel_base()`
abbrev pub kernel_base : ℕ
kernel_base = 0xFFFF800000000000

-- The loop `for (a = start; a < end; a += 4096)` that maps the page at `pa_base + a` at `va_base + a` and stops at the
-- first failure: the rounds left and `a`.
pub map_loop : ℕ → ℕ → ℕ → ℕ → ℕ → ℕ → Mmu → ℤ × Mmu
map_loop zero a pgd va_base pa_base attrs s = (pos 0, s)
map_loop (suc k) a pgd va_base pa_base attrs s =
    let got = map_page pgd (add64 va_base a) (add64 pa_base a) attrs s in
    let rest = map_loop k (a + 4096) pgd va_base pa_base attrs got.1 in
    if is_neg got.0 then (negsuc 0, got.1) else rest

-- `mmu_map_region`, with the value of `ttbr1_pgd`.
pub map_region : ℕ → ℕ → ℕ → ℕ → Mmu → ℤ × Mmu
unfolding map_loop
map_region ttbr1_pgd pa size attrs s =
    let pa_aligned = page_down pa in
    let size_aligned = page_down (add64 size 4095) in
    let mapped =
      map_loop (size_aligned / 4096) 0 ttbr1_pgd (add64 kernel_base pa_aligned) pa_aligned attrs
        s in
    if is_null ttbr1_pgd then (negsuc 0, s) else mapped

-- The symbols of the linker script.
pub record Image : Type 0 where
  pub kernel_start : ℕ
  pub kernel_end : ℕ
  pub stack_bottom : ℕ
  pub stack_top : ℕ

-- `ttbr0_pgd` and `ttbr1_pgd`, beside the memory.
pub record Tables : Type 0 where
  pub ttbr0_pgd : ℕ
  pub ttbr1_pgd : ℕ
  pub mmu : Mmu

-- `PTE_PAGE | PTE_SH_INNER | PTE_ATTR_IDX(MAIR_IDX_NORMAL)`
abbrev pub normal_attrs : ℕ
normal_attrs = bit_or (bit_or 2 (3 * 2 ^ 8)) (2 * 2 ^ 2)

-- The pages that share a byte with [`start`, `end`), at their addresses above the kernel's base.
pub map_high : ℕ → ℕ → ℕ → Mmu → ℤ × Mmu
unfolding map_loop
map_high pgd start end s =
    let first = page_down start in
    let last = page_down (add64 end 4095) in
    map_loop ((last - first) / 4096) 0 pgd (add64 kernel_base first) first normal_attrs s

-- `mmu_init`: an identity mapping of 2 GiB, which may stay short, then the image and the stack.
pub init : Image → Mmu → Tables
unfolding map_high
init i s =
    let low = alloc_table s in
    let high = alloc_table low.1 in
    let identity = (map_loop 0x80000 0 low.0 0 0 normal_attrs high.1).1 in
    let kernel = map_high high.0 i.kernel_start i.kernel_end identity in
    let stack = map_high high.0 i.stack_bottom i.stack_top kernel.1 in
    record {
      ttbr0_pgd = low.0;
      ttbr1_pgd = high.0;
      mmu =
          if is_null low.0 || is_null high.0
          then high.1
          else if is_neg kernel.0
          then kernel.1
          else stack.1;
    }
