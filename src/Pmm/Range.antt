-- ===== src/Pmm/Range.antt =====
-- reserve_range and pmm_free_pages on whole ranges, the page addresses, and pmm_check.
use native.Mathlib.Decide.{dec_le}
use arcline.Base.{
  ℕ, ◌+◌, ◌-◌, ◌*◌, ◌^◌, ◌≤◌, ◌<◌, ◌≡◌, ◌≢◌, Bool, true, false, ◌&&◌, not, arith, ltb, leb, ◌==◌,
  if◌then◌else◌, pos, ◌↔◌,
}
use arcline.Bitmap.{shifted}
use arcline.Pmm.{
  Pmm, page_to_addr, addr_to_page, reserve_loop, reserve_range, first_page, last_page, free_pages,
  check,
}
use arcline.Pmm.Count.{clear_count, clear_count-le, clear_zero, count_set-clear_count}
use arcline.Pmm.Valid.{
  IsValid, SameRange, reserve_loop-IsValid, reserve_loop-bit, free_loop-IsValid, free_loop-bit,
  free_loop-SameRange,
}

-- Pages and addresses of the managed range correspond, with no wrap.
pub page_to_addr_lem :
    (s : Pmm) (p : ℕ)
    → IsValid s
    → p < s.pages_total
    → (page_to_addr s p ≡ s.mem_base + p * 4096)
      × (page_to_addr s p < s.mem_base + s.mem_size)
      × (addr_to_page s (page_to_addr s p) ≡ p)
page_to_addr_lem s p v h = omega arith

module _ {s : Pmm} (v : IsValid s) (start size : ℕ) (small : start + size < 2 ^ 64) where
  first_page-le :
      (j : ℕ)
      → start < s.mem_base + s.mem_size
      → leb (first_page s start) j ≡ ltb start (s.mem_base + (j + 1) * 4096)
  unfolding first_page
  first_page-le j h = ground arith

  last_page-lt :
      (j : ℕ)
      → j < s.pages_total
      → s.mem_base < start + size
      → ltb j (last_page s start size) ≡ ltb (s.mem_base + j * 4096) (start + size)
  unfolding last_page
  last_page-lt j h k = ground arith

last_page-le : (s : Pmm) (start size : ℕ) → last_page s start size ≤ s.pages_total
unfolding last_page
last_page-le s start size = ground arith

-- The pages that share a byte with [`start`, `start + size`).
abbrev pub touches : Pmm → ℕ → ℕ → ℕ → Bool
touches s start size j =
    not (size == 0)
    && (ltb (s.mem_base + j * 4096) (start + size) && ltb start (s.mem_base + (j + 1) * 4096))

reserved_loop-IsValid :
    (first last : ℕ) {s : Pmm}
    → last ≤ s.pages_total
    → IsValid s
    → IsValid (reserve_loop (last - first) first s)
unfolding reserve_loop
reserved_loop-IsValid first last {s} h v = elim (dec_le first last) [
  | yes le ↦ reserve_loop-IsValid (last - first) first s (omega arith) v
  | no gt ↦ rw (none_left gt) v
]
  where
    none_left : ¬ (first ≤ last) → last - first ≡ 0
    none_left gt = omega arith

-- `reserve_range` keeps the invariant, whatever the range.
pub reserve_range-IsValid :
    (s : Pmm) (start size : ℕ) → IsValid s → IsValid (reserve_range s start size)
unfolding reserve_range
reserve_range-IsValid s start size v = ground (
  arith,
  reserved_loop-IsValid (first_page s start) (last_page s start size) {s = s},
  last_page-le s start size,
)

-- In a valid state and for a range that does not wrap round, `reserve_range` marks exactly the managed
-- pages that share a byte with the range, and frees none.
pub reserve_range-bit :
    (s : Pmm) (start size : ℕ)
    → IsValid s
    → start + size < 2 ^ 64
    → (j : ℕ) → j < s.pages_total
    → shifted 8 (reserve_range s start size).bitmap j
      ≡ (if touches s start size j then true else shifted 8 s.bitmap j)
unfolding reserve_range
reserve_range-bit s start size v small j h = ground (
  arith,
  reserve_loop-bit (last_page s start size - first_page s start) (first_page s start) j s,
  first_page-le v start size small j,
  last_page-lt v start size small j h,
)

-- `pmm_free_pages` keeps the invariant, whatever it is given: a double free is ignored.
pub free_pages-IsValid : (s : Pmm) (a n : ℕ) → IsValid s → IsValid (free_pages s a n)
unfolding free_pages
free_pages-IsValid s a n v = ground (arith, free_loop-IsValid n (addr_to_page s a) s v)

pub free_pages-SameRange : (s : Pmm) (a n : ℕ) → SameRange s (free_pages s a n)
unfolding free_pages
free_pages-SameRange s a n = ground (arith, free_loop-SameRange n (addr_to_page s a) s)

-- In a valid state, on a page address of the range that is not 0, `pmm_free_pages` frees exactly the `n` pages from there on, up to the end.
pub free_pages-bit :
    (s : Pmm) (p n j : ℕ)
    → IsValid s
    → p < s.pages_total
    → page_to_addr s p ≢ 0
    → shifted 8 (free_pages s (page_to_addr s p) n).bitmap j
      ≡ (if leb p j && (ltb j (p + n) && ltb j s.pages_total) then false else shifted 8 s.bitmap j)
unfolding free_pages
free_pages-bit s p n j v h ne = ground (arith, page_to_addr_lem s p v h, free_loop-bit n p j s)

-- With at most 1048576 pages, `pmm_check` answers 0 exactly when the counter, any number of 64 bits,
-- is the number of clear bits among the managed pages.
pub check_iff :
    (s : Pmm)
    → s.pages_total ≤ 1048576
    → s.pages_free < 2 ^ 64
    → (check s ≡ pos 0) ↔ (s.pages_free ≡ clear_count s.bitmap s.pages_total)
unfolding check
check_iff s h k = ground (
  arith,
  count_set-clear_count s.bitmap s.pages_total 0,
  clear_zero s.bitmap,
  clear_count-le s.bitmap s.pages_total,
)
