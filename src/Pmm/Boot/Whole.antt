-- ===== src/Pmm/Boot/Whole.antt =====
-- `pmm_init_from_dtb` of mm/pmm.c as a whole.
use arcline.Base.{ℕ, ◌-◌, ◌<◌, ◌≡◌, true, Array, Option, sub64}
use arcline.Bitmap.{shifted}
use arcline.Pmm.{Pmm, reserve_range}
use arcline.Pmm.Valid.{IsValid}
use arcline.Pmm.Range.{touches}
use arcline.Pmm.Boot.{Image, reserve_image, reserve_dtb_blob, reserve_uart, reserve_low}

-- Every managed page that shares a byte with [`start`, `start + size`) is in use.
pub IsReserved : Pmm → ℕ → ℕ → Type 0
IsReserved s start size =
    (j : ℕ) → j < s.pages_total → touches s start size j ≡ true → shifted 8 s.bitmap j ≡ true

-- The static variables after the boot: the range is `r`, and the regions that are in use are not free.
pub record Booted (r : ℕ × ℕ) (image : Image) (dtb blob_size : ℕ) (t : Pmm) : Type 0 where
  pub valid : IsValid t
  pub base : t.mem_base ≡ r.0
  pub size : t.mem_size ≡ r.1
  pub kernel : IsReserved t image.kernel_start (image.kernel_end - image.kernel_start)
  pub stack : IsReserved t image.stack_bottom (image.stack_top - image.stack_bottom)
  pub blob : IsReserved t dtb blob_size
  pub low : IsReserved t t.mem_base 0x100000

module _ (image : Image) (m : Array ℕ) (dtb : ℕ) (uart : Option ℕ) (s : Pmm) where
  with_kernel : Pmm
  with_kernel = reserve_range s image.kernel_start (sub64 image.kernel_end image.kernel_start)

  with_image : Pmm
  with_image = reserve_image image s

  with_blob : Pmm
  with_blob = reserve_dtb_blob m dtb with_image

  with_uart : Pmm
  with_uart = reserve_uart uart with_blob

  with_low : Pmm
  with_low = reserve_low with_uart
