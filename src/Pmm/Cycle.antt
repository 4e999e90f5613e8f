-- ===== src/Pmm/Cycle.antt =====
-- Allocation followed by release of the same pages.
use arcline.Base.{ℕ, ◌≡◌, ◌≢◌, ap, arith, inl, inr}
use arcline.Bitmap.{shifted}
use arcline.Pmm.{Pmm, page_to_addr, take_run, alloc_run, free_pages}
use arcline.Pmm.Count.{clear_count_cong}
use arcline.Pmm.Valid.{IsValid, SameRange}
use arcline.Pmm.Alloc.{Granted, Granted-IsValid, alloc_run_lem}
use arcline.Pmm.Range.{free_pages-IsValid, free_pages-bit, free_pages-SameRange}

-- The same pages are in use, and as many are free.
pub record SameUse (s t : Pmm) : Type 0 where
  pub bits : (j : ℕ) → shifted 8 t.bitmap j ≡ shifted 8 s.bitmap j
  pub free : t.pages_free ≡ s.pages_free

module _ (s : Pmm) (n p : ℕ) (v : IsValid s) (ne : page_to_addr s p ≢ 0) where
  same : SameRange s (take_run s n p)
  unfolding take_run
  same = ground arith

  back :
      (j : ℕ)
      → Granted s n p (page_to_addr s p, take_run s n p)
      → shifted 8 (free_pages (take_run s n p) (page_to_addr s p) n).bitmap j ≡ shifted 8 s.bitmap j
  unfolding take_run
  back j g = ground (
    arith,
    g.nonzero,
    free_pages-bit (take_run s n p) p n j,
    Granted-IsValid v g,
    (Granted-IsValid v g).2 j,
    g.free j,
    g.inside,
  )

  released :
      Granted s n p (page_to_addr s p, take_run s n p)
      → SameUse s (free_pages (take_run s n p) (page_to_addr s p) n)
  released g = record {
    bits = λ j. back j g;
    free = ground (
      arith,
      same,
      valid,
      range,
      clear_count_cong s.bitmap (free_pages (take_run s n p) (page_to_addr s p) n).bitmap
          s.pages_total (λ j h. back j g),
    );
  }
    where
      range : SameRange (take_run s n p) (free_pages (take_run s n p) (page_to_addr s p) n)
      range = free_pages-SameRange (take_run s n p) (page_to_addr s p) n

      valid : IsValid (free_pages (take_run s n p) (page_to_addr s p) n)
      valid = free_pages-IsValid (take_run s n p) (page_to_addr s p) n (Granted-IsValid v g).0

-- Freeing what a successful `pmm_alloc_pages` returned brings back the bitmap and the counter.
pub free_pages-alloc_run :
    (s : Pmm) (n : ℕ)
    → IsValid s
    → (alloc_run s n).0 ≢ 0
    → SameUse s (free_pages (alloc_run s n).1 (alloc_run s n).0 n)
free_pages-alloc_run s n v ne = elim (alloc_run_lem s n v) [
  | inl (p, g) ↦ rw g.result (released s n p v (rw g.result at ne) (rw g.result at g))
  | inr r ↦ absurd (ne (ap (λ (x : ℕ × Pmm). x.0) r.0))
]
