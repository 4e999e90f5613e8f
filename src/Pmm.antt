-- ===== src/Pmm.antt =====
-- mm/pmm.c: the bitmap allocator of physical pages. The static variables are the fields of `Pmm`;
-- the lock makes each function one step, so it does not appear. Addresses and counts are `uint64_t`.
pub mod Count
pub mod Valid
pub mod Alloc
pub mod Range
pub mod Cycle
pub mod Region
pub mod Reserved
pub mod Boot
mod Tests
use arcline.Base.{
  ℕ, zero, suc, ◌+◌, ◌-◌, ◌/◌, ◌%◌, Bool, true, false, ◌||◌, not, arith, ltb, leb, ◌==◌,
  if◌then◌else◌, add64, sub64, mul64, page_down, ℤ, pos, negsuc,
}
use arcline.Bitmap.{Words, shifted, include, exclude}

-- A set bit is a page in use.
pub record Pmm : Type 0 where
  pub bitmap : Words
  pub mem_base : ℕ
  pub mem_size : ℕ
  pub pages_total : ℕ
  pub pages_free : ℕ

abbrev pub page_size : ℕ
page_size = 4096

abbrev pub max_pages : ℕ
max_pages = 1048576

abbrev pub set_bit : Words → ℕ → Words
set_bit m idx = include 8 m idx

abbrev pub clear_bit : Words → ℕ → Words
clear_bit m idx = exclude 8 m idx

abbrev pub test_bit : Words → ℕ → Bool
test_bit m idx = shifted 8 m idx

abbrev pub addr_to_page : Pmm → ℕ → ℕ
addr_to_page s addr = sub64 addr s.mem_base / page_size

abbrev pub page_to_addr : Pmm → ℕ → ℕ
page_to_addr s page = add64 s.mem_base (mul64 page page_size)

-- The body of the loop of `reserve_range`.
pub reserve_page : Pmm → ℕ → Pmm
reserve_page s i = if test_bit s.bitmap i then s else record s {
  bitmap = set_bit s.bitmap i;
  pages_free = if s.pages_free == 0 then s.pages_free else s.pages_free - 1;
}

-- `for (i = first; i < last; ++i)`: the rounds left and `i`.
pub reserve_loop : ℕ → ℕ → Pmm → Pmm
reserve_loop zero i s = s
reserve_loop (suc k) i s = reserve_loop k (i + 1) (reserve_page s i)

pub first_page : Pmm → ℕ → ℕ
first_page s start = addr_to_page s (page_down (if ltb start s.mem_base then s.mem_base else start))

pub last_page : Pmm → ℕ → ℕ → ℕ
last_page s start size =
    let limit = add64 s.mem_base s.mem_size in
    let rend = if ltb limit (add64 start size) then limit else add64 start size in
    let last = addr_to_page s (page_down (add64 rend (page_size - 1))) in
    if ltb s.pages_total last then s.pages_total else last

pub reserve_range : Pmm → ℕ → ℕ → Pmm
reserve_range s start size =
    if size == 0
    then s
    else if leb (add64 start size) s.mem_base
    then s
    else if leb (add64 s.mem_base s.mem_size) start
    then s
    else reserve_loop (last_page s start size - first_page s start) (first_page s start) s

-- `for (j = 0; j < count; ++j) set_bit(run_start + j)`: the rounds left and `run_start + j`.
pub mark_run : ℕ → ℕ → Words → Words
mark_run zero p m = m
mark_run (suc n) p m = mark_run n (p + 1) (set_bit m p)

pub take_run : Pmm → ℕ → ℕ → Pmm
unfolding mark_run
take_run s count p = record s {
  bitmap = mark_run count p s.bitmap;
  pages_free = sub64 s.pages_free count;
}

-- The scan of `pmm_alloc_run`: the rounds left, `i`, `run` and `run_start`. The result is the
-- address, 0 for NULL.
pub alloc_loop : Pmm → ℕ → ℕ → ℕ → ℕ → ℕ → ℕ × Pmm
unfolding take_run
alloc_loop s count zero i run run_start = (0, s)
alloc_loop s count (suc k) i run run_start =
    let start = if run == 0 then i else run_start in
    let restart = alloc_loop s count k (i + 1) 0 run_start in
    let longer = alloc_loop s count k (i + 1) (run + 1) start in
    if test_bit s.bitmap i
    then restart
    else if run + 1 == count
    then (page_to_addr s start, take_run s count start)
    else longer

pub alloc_run : Pmm → ℕ → ℕ × Pmm
unfolding alloc_loop
alloc_run s count =
    if count == 0 || ltb s.pages_free count then (0, s) else alloc_loop s count s.pages_total 0 0 0

pub alloc_pages : Pmm → ℕ → ℕ × Pmm
unfolding alloc_run
alloc_pages s count = alloc_run s count

pub alloc_page : Pmm → ℕ × Pmm
unfolding alloc_run
alloc_page s = alloc_run s 1

-- The body of the loop of `pmm_free_pages`; a free page is left alone (the warning is output).
pub release_page : Pmm → ℕ → Pmm
release_page s idx =
    if not (test_bit s.bitmap idx)
    then s
    else record s { bitmap = clear_bit s.bitmap idx; pages_free = add64 s.pages_free 1 }

-- `for (i = 0; i < count && first + i < total; ++i)`: the rounds left and `first + i`.
pub free_loop : ℕ → ℕ → Pmm → Pmm
unfolding release_page
free_loop zero idx s = s
free_loop (suc k) idx s =
    let rest = free_loop k (idx + 1) (release_page s idx) in
    if ltb idx s.pages_total then rest else s

pub free_pages : Pmm → ℕ → ℕ → Pmm
unfolding free_loop
free_pages s a count =
    if a == 0 || count == 0
    then s
    else if ltb a s.mem_base || leb (add64 s.mem_base s.mem_size) a
    then s
    else if not (a % page_size == 0)
    then s
    else free_loop count (addr_to_page s a) s

pub free_page : Pmm → ℕ → Pmm
unfolding free_pages
free_page s a = free_pages s a 1

-- `for (i = 0; i < total; ++i) if (test_bit(i)) set_count++`: the rounds left and `i`.
pub count_set : Words → ℕ → ℕ → ℕ
count_set m zero i = 0
count_set m (suc k) i = (if test_bit m i then 1 else 0) + count_set m k (i + 1)

pub check : Pmm → ℤ
unfolding count_set
check s =
    if count_set s.bitmap s.pages_total 0 == sub64 s.pages_total s.pages_free
    then pos 0
    else negsuc 0
