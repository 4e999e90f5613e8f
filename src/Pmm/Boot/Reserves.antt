-- ===== src/Pmm/Boot/Reserves.antt =====
-- The state of the allocator of mm/pmm.c after `pmm_init_from_dtb`.
use arcline.Base.{
  ℕ, zero, suc, ◌+◌, ◌-◌, ◌/◌, ◌%◌, ◌^◌, ◌<◌, ◌≡◌, refl, true, false, ◌&&◌, ltb, leb, arith, ◌==◌,
  if◌then◌else◌, Array, Option, none, some, inl, inr, Bool-cases, ◌∙◌, sym, add64, page_down,
}
use arcline.Bitmap.{Words, shifted, exclude, shifted-exclude}
use arcline.Dtb.{cell}
use arcline.Pmm.{Pmm, reserve_range, first_page, last_page}
use arcline.Pmm.Count.{clear_count}
use arcline.Pmm.Valid.{IsValid, SameRange, reserve_loop-bit, reserve_loop-SameRange}
use arcline.Pmm.Range.{reserve_range-IsValid}
use arcline.Pmm.Boot.{
  fill_loop, clear_loop, managed_range, manage, reserve_dtb_blob, reserve_uart, reserve_low,
}

clear_loop-bit :
    (k i j : ℕ) (m : Words)
    → shifted 8 (clear_loop k i m) j ≡ (if leb i j && ltb j (i + k) then false else shifted 8 m j)
unfolding clear_loop
clear_loop-bit zero i j m = ground arith
clear_loop-bit (suc k) i j m =
    ground (arith, clear_loop-bit k (i + 1) j (exclude 8 m i), shifted-exclude 8 m i j)

reserve_range-keeps :
    (s : Pmm) (start size j : ℕ)
    → shifted 8 s.bitmap j ≡ true
    → shifted 8 (reserve_range s start size).bitmap j ≡ true
unfolding reserve_range
reserve_range-keeps s start size j h =
    ground (
      arith,
      reserve_loop-bit (last_page s start size - first_page s start) (first_page s start) j s,
    )

reserve_range-SameRange : (s : Pmm) (start size : ℕ) → SameRange s (reserve_range s start size)
unfolding reserve_range
reserve_range-SameRange s start size = ground (
  arith,
  reserve_loop-SameRange (last_page s start size - first_page s start) (first_page s start) s,
)

-- What only reserves pages.
pub record Extends (s t : Pmm) : Type 0 where
  pub same : SameRange s t
  pub valid : IsValid s → IsValid t
  pub keeps : (j : ℕ) → shifted 8 s.bitmap j ≡ true → shifted 8 t.bitmap j ≡ true

pub Extends-refl : (s : Pmm) → Extends s s
Extends-refl s = record {
  same = record { base = refl; size = refl; total = refl };
  valid = λ v. v;
  keeps = λ j h. h;
}

pub Extends-trans : {s t u : Pmm} → Extends s t → Extends t u → Extends s u
Extends-trans a b = record {
  same = record {
    base = b.same.base ∙ a.same.base;
    size = b.same.size ∙ a.same.size;
    total = b.same.total ∙ a.same.total;
  };
  valid = λ v. b.valid (a.valid v);
  keeps = λ j h. b.keeps j (a.keeps j h);
}

pub reserve_range-Extends : (s : Pmm) (start size : ℕ) → Extends s (reserve_range s start size)
reserve_range-Extends s start size = record {
  same = reserve_range-SameRange s start size;
  valid = reserve_range-IsValid s start size;
  keeps = reserve_range-keeps s start size;
}

pub reserve_dtb_blob-Extends :
    (m : Array ℕ) (dtb : ℕ) (s : Pmm) → Extends s (reserve_dtb_blob m dtb s)
unfolding reserve_dtb_blob
reserve_dtb_blob-Extends m dtb s = elim (Bool-cases (dtb == 0)) [
  | inl none_given ↦ rw none_given (Extends-refl s)
  | inr given ↦ rw given (reserve_range-Extends s dtb (cell m (dtb + 4)))
]

pub reserve_uart-Extends : (uart : Option ℕ) (s : Pmm) → Extends s (reserve_uart uart s)
unfolding reserve_uart
reserve_uart-Extends none s = Extends-refl s
reserve_uart-Extends (some base) s = elim (Bool-cases (base == 0)) [
  | inl none_given ↦ rw none_given (Extends-refl s)
  | inr given ↦ rw given (reserve_range-Extends s (page_down base) 4096)
]

pub reserve_low-Extends : (s : Pmm) → Extends s (reserve_low s)
unfolding reserve_low
reserve_low-Extends s = elim (Bool-cases (ltb s.mem_base (add64 s.mem_base s.mem_size))) [
  | inl fits ↦ rw fits (reserve_range-Extends s s.mem_base 0x100000)
  | inr wraps ↦ rw wraps (Extends-refl s)
]

-- A range of whole pages that does not wrap.
pub managed_range_lem :
    (r : ℕ × ℕ)
    → ((managed_range r).0 % 4096 ≡ 0)
      × ((managed_range r).1 % 4096 ≡ 0)
      × ((managed_range r).0 + (managed_range r).1 < 2 ^ 64)
      × (0 < (managed_range r).1)
unfolding managed_range
managed_range_lem r = ground arith

all_clear : (m : Words) (n : ℕ) → ((j : ℕ) → j < n → shifted 8 m j ≡ false) → clear_count m n ≡ n
unfolding clear_count
all_clear m zero h = refl
all_clear m (suc n) h = ground (arith, h n (omega arith), all_clear m n (λ j k. h j (omega arith)))

cleared : (k : ℕ) (m : Words) → clear_count (clear_loop k 0 m) k ≡ k
cleared k m = all_clear (clear_loop k 0 m) k (λ j h. ground (arith, clear_loop-bit k 0 j m))

pub manage-IsValid :
    (r : ℕ × ℕ) (s : Pmm)
    → r.0 % 4096 ≡ 0
    → r.1 % 4096 ≡ 0
    → r.0 + r.1 < 2 ^ 64
    → IsValid (manage r s)
unfolding manage
manage-IsValid r s a b f = record {
  counted = sym (cleared total (fill_loop 131072 0 s.bitmap));
  capped = ground arith;
  sized = ground arith;
  fits = f;
  base_aligned = a;
  end_aligned = omega arith;
}
  where
    total : ℕ
    total = if ltb 1048576 (r.1 / 4096) then 1048576 else r.1 / 4096
