-- ===== src/Pmm/Tests.antt =====
-- The allocator at four pages from 0x40000000 on, of which the second is in use.
use arcline.Base.{
  ℕ, ◌+◌, ◌*◌, ◌≡◌, ◌≢◌, ◌≤◌, refl, true, false, arith, leb, ltb, ◌&&◌, if◌then◌else◌, pos, ◌↔◌,
  zero, suc,
}
use arcline.Bitmap.{shifted, include}
use arcline.Pmm.{Pmm, page_to_addr, alloc_run, take_run, free_pages, reserve_range, check}
use arcline.Pmm.Count.{clear_count}
use arcline.Pmm.Valid.{IsValid}
use arcline.Pmm.Alloc.{AllocOutcome, Granted, FreeRun, alloc_run_lem, Granted-IsValid}
use arcline.Pmm.Range.{touches, reserve_range-bit, free_pages-bit, check_iff}
use arcline.Pmm.Cycle.{SameUse, free_pages-alloc_run}

abbrev four_pages : Pmm
four_pages = record {
  bitmap = λ _. 2;
  mem_base = 0x4000_0000;
  mem_size = 4 * 4096;
  pages_total = 4;
  pages_free = 3;
}

four_pages-IsValid : IsValid four_pages
unfolding clear_count shifted
four_pages-IsValid = record {
  counted = refl;
  capped = omega arith;
  sized = omega arith;
  fits = omega arith;
  base_aligned = refl;
  end_aligned = refl;
}

first_fit : (alloc_run four_pages 2).0 ≡ 0x4000_2000
unfolding alloc_run shifted include
first_fit = refl

no_row_of_three : (alloc_run four_pages 3).0 ≡ 0
unfolding alloc_run shifted include
no_row_of_three = refl

checked : check four_pages ≡ pos 0
unfolding check shifted
checked = refl

alloc_run_lem_example : AllocOutcome four_pages 2 (alloc_run four_pages 2)
alloc_run_lem_example = alloc_run_lem four_pages 2 four_pages-IsValid

granted : Granted four_pages 2 2 (page_to_addr four_pages 2, take_run four_pages 2 2)
unfolding shifted
granted = record {
  nonzero = omega arith;
  inside = omega arith;
  free = free;
  first = first;
  result = refl;
}
  where
    free : FreeRun (λ _. 2) 2 2
    free (suc (suc zero)) lo hi = refl
    free (suc (suc (suc zero))) lo hi = refl
    free zero lo hi = absurd (omega arith)
    free (suc zero) lo hi = absurd (omega arith)
    free (suc (suc (suc (suc j)))) lo hi = absurd (omega arith)

    first : (q : ℕ) → q + 2 ≤ 4 → FreeRun (λ _. 2) q 2 → 2 ≤ q
    first zero le r = cc (r 1 (omega arith) (omega arith))
    first (suc zero) le r = cc (r 1 (omega arith) (omega arith))
    first (suc (suc q)) le r = omega arith

Granted-IsValid_example :
    IsValid (take_run four_pages 2 2)
    × ((take_run four_pages 2 2).pages_free + 2 ≡ 3)
    × ((j : ℕ)
        → shifted 8 (take_run four_pages 2 2).bitmap j
          ≡ (if leb 2 j && ltb j 4 then true else shifted 8 (λ _. 2) j))
Granted-IsValid_example = Granted-IsValid four_pages-IsValid granted

free_pages-alloc_run_example :
    SameUse four_pages (free_pages (alloc_run four_pages 2).1 (alloc_run four_pages 2).0 2)
free_pages-alloc_run_example = free_pages-alloc_run four_pages 2 four_pages-IsValid granted_address
  where
    granted_address : (alloc_run four_pages 2).0 ≢ 0
    granted_address e = absurd (omega (arith, first_fit, e))

reserve_range-bit_example :
    shifted 8 (reserve_range four_pages 0x4000_2800 4096).bitmap 3
    ≡ (if touches four_pages 0x4000_2800 4096 3 then true else shifted 8 (λ _. 2) 3)
reserve_range-bit_example =
    reserve_range-bit four_pages 0x4000_2800 4096 four_pages-IsValid (omega arith) 3 (omega arith)

free_pages-bit_example :
    shifted 8 (free_pages four_pages (page_to_addr four_pages 1) 2).bitmap 1
    ≡ (if leb 1 1 && (ltb 1 3 && ltb 1 4) then false else shifted 8 (λ _. 2) 1)
free_pages-bit_example =
    free_pages-bit four_pages 1 2 1 four_pages-IsValid (omega arith) (omega arith)

check_iff_example : (check four_pages ≡ pos 0) ↔ (3 ≡ clear_count (λ _. 2) 4)
check_iff_example = check_iff four_pages (omega arith) (omega arith)
