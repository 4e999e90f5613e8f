-- ===== src/Pmm/Valid.antt =====
-- The invariant of the allocator's static variables, and the operations that reserve and free pages.
use arcline.Base.{
  ℕ, zero, suc, ◌+◌, ◌*◌, ◌%◌, ◌^◌, ◌≤◌, ◌<◌, ◌≡◌, true, false, ◌&&◌, arith, ltb, leb, ◌==◌,
  if◌then◌else◌, inl, inr, Bool-cases,
}
use arcline.Bitmap.{shifted, exclude, shifted-include, shifted-exclude}
use arcline.Pmm.{Pmm, reserve_page, reserve_loop, release_page, free_loop}
use arcline.Pmm.Count.{clear_count, clear_count-include, clear_count-exclude, clear_count-le}

pub record IsValid (s : Pmm) : Type 0 where
  pub counted : s.pages_free ≡ clear_count s.bitmap s.pages_total
  pub capped : s.pages_total ≤ 1048576
  pub sized : s.pages_total * 4096 ≤ s.mem_size
  pub fits : s.mem_base + s.mem_size < 2 ^ 64
  pub base_aligned : s.mem_base % 4096 ≡ 0
  pub end_aligned : (s.mem_base + s.mem_size) % 4096 ≡ 0

-- What an operation may not change.
pub record SameRange (s t : Pmm) : Type 0 where
  pub base : t.mem_base ≡ s.mem_base
  pub size : t.mem_size ≡ s.mem_size
  pub total : t.pages_total ≡ s.pages_total

reserve_page-IsValid :
    (i : ℕ) {s : Pmm} → i < s.pages_total → IsValid s → IsValid (reserve_page s i)
unfolding reserve_page
reserve_page-IsValid i {s} h v = ground (arith, clear_count-include s.bitmap i s.pages_total)

reserve_page-SameRange : (s : Pmm) (i : ℕ) → SameRange s (reserve_page s i)
unfolding reserve_page
reserve_page-SameRange s i = ground arith

reserve_page-bit :
    (s : Pmm) (i j : ℕ)
    → shifted 8 (reserve_page s i).bitmap j ≡ (if j == i then true else shifted 8 s.bitmap j)
unfolding reserve_page
reserve_page-bit s i j = ground (arith, shifted-include 8 s.bitmap i j)

pub reserve_loop-SameRange : (k i : ℕ) (s : Pmm) → SameRange s (reserve_loop k i s)
unfolding reserve_loop
reserve_loop-SameRange zero i s = ground arith
reserve_loop-SameRange (suc k) i s =
    ground (arith, reserve_loop-SameRange k (i + 1) (reserve_page s i), reserve_page-SameRange s i)

pub reserve_loop-IsValid :
    (k i : ℕ) (s : Pmm) → i + k ≤ s.pages_total → IsValid s → IsValid (reserve_loop k i s)
unfolding reserve_loop
reserve_loop-IsValid zero i s h v = v
reserve_loop-IsValid (suc k) i s h v =
    reserve_loop-IsValid k (i + 1) (reserve_page s i)
      (omega (arith, (reserve_page-SameRange s i).total)) (reserve_page-IsValid i (omega arith) v)

pub reserve_loop-bit :
    (k i j : ℕ) (s : Pmm)
    → shifted 8 (reserve_loop k i s).bitmap j
      ≡ (if leb i j && ltb j (i + k) then true else shifted 8 s.bitmap j)
unfolding reserve_loop
reserve_loop-bit zero i j s = ground arith
reserve_loop-bit (suc k) i j s =
    ground (arith, reserve_loop-bit k (i + 1) j (reserve_page s i), reserve_page-bit s i j)

release_page-IsValid :
    (i : ℕ) {s : Pmm} → i < s.pages_total → IsValid s → IsValid (release_page s i)
unfolding release_page
release_page-IsValid i {s} h v = ground (
  arith,
  clear_count-exclude s.bitmap i s.pages_total,
  clear_count-le s.bitmap s.pages_total,
  clear_count-le (exclude 8 s.bitmap i) s.pages_total,
)

release_page-SameRange : (s : Pmm) (i : ℕ) → SameRange s (release_page s i)
unfolding release_page
release_page-SameRange s i = ground arith

release_page-bit :
    (s : Pmm) (i j : ℕ)
    → shifted 8 (release_page s i).bitmap j ≡ (if j == i then false else shifted 8 s.bitmap j)
unfolding release_page
release_page-bit s i j = ground (arith, shifted-exclude 8 s.bitmap i j)

pub free_loop-SameRange : (k i : ℕ) (s : Pmm) → SameRange s (free_loop k i s)
unfolding free_loop
free_loop-SameRange zero i s = ground arith
free_loop-SameRange (suc k) i s =
    ground (arith, free_loop-SameRange k (i + 1) (release_page s i), release_page-SameRange s i)

pub free_loop-IsValid : (k i : ℕ) (s : Pmm) → IsValid s → IsValid (free_loop k i s)
unfolding free_loop
free_loop-IsValid zero i s v = v
free_loop-IsValid (suc k) i s v = elim (Bool-cases (ltb i s.pages_total)) [
  | inl more ↦
      rw more
        (free_loop-IsValid k (i + 1) (release_page s i) (release_page-IsValid i (ground arith) v))
  | inr done ↦ rw done v
]

pub free_loop-bit :
    (k i j : ℕ) (s : Pmm)
    → shifted 8 (free_loop k i s).bitmap j
      ≡ (if leb i j && (ltb j (i + k) && ltb j s.pages_total) then false else shifted 8 s.bitmap j)
unfolding free_loop
free_loop-bit zero i j s = ground arith
free_loop-bit (suc k) i j s = ground (
  arith,
  free_loop-bit k (i + 1) j (release_page s i),
  release_page-bit s i j,
  release_page-SameRange s i,
)
