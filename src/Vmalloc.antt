-- ===== src/Vmalloc.antt =====
-- mm/vmalloc.c: ranges of kernel addresses between guard pages. A block of `free_pool` is named by its
-- place plus one, 0 is NULL. `Space` holds the static variables; `Vmalloc` adds the areas and, in
-- them, the page tables and the physical memory.
pub mod Best
mod Tests
use arcline.Base.{
  ℕ, zero, suc, ◌+◌, ◌-◌, ◌*◌, ◌/◌, ◌%◌, ◌^◌, Bool, true, false, not, ◌&&◌, ◌||◌, ltb, leb, ◌==◌,
  is_null, if◌then◌else◌, Array, store, add64, sub64, mul64, Option, none, some, ℤ, pos, negsuc,
}
use arcline.Pmm.{alloc_page, free_page}
use arcline.Vmm.{Vmm, virt_to_phys}
use arcline.Vmm as Vmm

pub record Space : Type 0 where
  pub va : Array ℕ
  pub size : Array ℕ
  pub next : Array ℕ
  pub prev : Array ℕ
  pub free_list : ℕ
  pub pool_list : ℕ
  pub initialized : Bool
  pub vmalloc_next : ℕ

abbrev pub vmalloc_start : ℕ
vmalloc_start = 0xFFFFFF8080000000

abbrev pub vmalloc_end : ℕ
vmalloc_end = 0xFFFFFF80C0000000

abbrev pub set_next : ℕ → ℕ → Space → Space
set_next n v s = record s { next = store s.next n v }

abbrev pub set_prev : ℕ → ℕ → Space → Space
set_prev n v s = record s { prev = store s.prev n v }

-- The loop of `init_pool`: the rounds left and `i`.
unfoldable pub pool_loop : ℕ → ℕ → Space → Space
pool_loop zero i s = s
pool_loop (suc k) i s =
    pool_loop k (i + 1) (record s { next = store s.next (suc i) s.pool_list; pool_list = suc i })

-- `alloc_block`: the block, 0 for NULL.
unfoldable pub alloc_block : Space → ℕ × Space
unfolding pool_loop
alloc_block s =
    let s1 =
      if is_null s.pool_list && not s.initialized
      then record (pool_loop 512 0 s) { initialized = true }
      else s in
    let blk = s1.pool_list in
    if is_null blk
    then (0, s1)
    else (blk, set_prev blk 0 (set_next blk 0 (record s1 { pool_list = s1.next blk })))

unfoldable pub free_block : ℕ → Space → Space
free_block blk s = record s { next = store s.next blk s.pool_list; pool_list = blk }

-- `if (b->prev) b->prev->next = b->next; else free_list = b->next;
-- if (b->next) b->next->prev = b->prev`
unfoldable pub unlink : ℕ → Space → Space
unlink b s =
    let s1 =
      if is_null (s.prev b)
      then record s { free_list = s.next b }
      else set_next (s.prev b) (s.next b) s in
    if is_null (s1.next b) then s1 else set_prev (s1.next b) (s1.prev b) s1

-- `a->size += b->size`
abbrev pub grow : ℕ → ℕ → Space → Space
grow a b s = record s { size = store s.size a (add64 (s.size a) (s.size b)) }

-- One round of the loop over `next`: `cur`, `next`, `changed` and the static variables.
unfoldable pub merge : ℕ → ℕ → Bool → Space → ℕ × ℕ × Bool × Space
unfolding unlink free_block
merge cur next changed s =
    if add64 (s.va cur) (s.size cur) == s.va next
    then (let s1 = unlink next (unlink cur (grow cur next s)) in
        (cur, s1.next next, true, free_block next s1))
    else if add64 (s.va next) (s.size next) == s.va cur
    then (let s1 = unlink cur (unlink next (grow next cur s)) in
        (next, s1.next next, true, free_block cur s1))
    else (cur, s.next next, changed, s)

unfoldable pub merge_loop : ℕ → ℕ → ℕ → Bool → Space → ℕ × Bool × Space
unfolding merge
merge_loop zero cur next changed s = (cur, changed, s)
merge_loop (suc k) cur next changed s =
    let r = merge cur next changed s in
    let rest = merge_loop k r.0 r.1 r.2 r.3 in if is_null next then (cur, changed, s) else rest

-- The loop over `cur`.
unfoldable pub sweep : ℕ → ℕ → Bool → Space → Bool × Space
unfolding merge_loop
sweep zero cur changed s = (changed, s)
sweep (suc k) cur changed s =
    let r = merge_loop k cur (s.next cur) changed s in
    let rest = sweep k (r.2.next r.0) r.1 r.2 in if is_null cur then (changed, s) else rest

-- `while (changed)`
unfoldable pub sweeps : ℕ → Space → Space
unfolding sweep
sweeps zero s = s
sweeps (suc k) s =
    let r = sweep k s.free_list false s in let rest = sweeps k r.1 in if r.0 then rest else r.1

-- `k` bounds the rounds of each loop over the list.
unfoldable pub coalesce : ℕ → Space → Space
unfolding sweeps
coalesce k s = if is_null s.free_list then s else sweeps k s

-- The search for the best block: the rounds left, `cur`, the block whose `next` is `*prev` (0 for
-- the head of the list), `best` and the like for `best_prev`.
unfoldable pub find_best : ℕ → ℕ → ℕ → ℕ → ℕ → ℕ → Space → ℕ × ℕ
find_best zero size cur prev best best_prev s = (best, best_prev)
find_best (suc k) size cur prev best best_prev s =
    let better = leb size (s.size cur) && (is_null best || ltb (s.size cur) (s.size best)) in
    let rest =
      find_best k size (s.next cur) cur (if better then cur else best)
        (if better then prev else best_prev) s in
    if is_null cur then (best, best_prev) else rest

-- `*best_prev = best->next; if (best->next) best->next->prev = best->prev; free_block(best)`
unfoldable pub take_block : ℕ → ℕ → Space → Space
unfolding free_block
take_block best best_prev s =
    let s1 =
      if is_null best_prev
      then record s { free_list = s.next best }
      else set_next best_prev (s.next best) s in
    let s2 = if is_null (s1.next best) then s1 else set_prev (s1.next best) (s1.prev best) s1 in
    free_block best s2

-- The best block is taken, or what is asked for is taken off its start.
unfoldable pub use_block : ℕ → ℕ → ℕ → Space → ℕ × Space
unfolding take_block
use_block size best best_prev s =
    if s.size best == size then (s.va best, take_block best best_prev s) else (
      s.va best,
      record s {
        va = store s.va best (add64 (s.va best) size);
        size = store s.size best (sub64 (s.size best) size);
      },
    )

-- Fresh addresses, 0 at the end of the range.
unfoldable pub fresh_space : ℕ → Space → ℕ × Space
fresh_space size s =
    if ltb vmalloc_end (add64 s.vmalloc_next size)
    then (0, s)
    else (s.vmalloc_next, record s { vmalloc_next = add64 s.vmalloc_next size })

-- The address, 0 for failure.
unfoldable pub find_free_space : ℕ → ℕ → Space → ℕ × Space
unfolding find_best use_block fresh_space
find_free_space k size s =
    let found = find_best k size s.free_list 0 0 0 s in
    if not (is_null found.0) then use_block size found.0 found.1 s else fresh_space size s

unfoldable pub add_free_space : ℕ → ℕ → ℕ → Space → Space
unfolding alloc_block coalesce
add_free_space k va size s =
    let got = alloc_block s in
    let blk = got.0 in
    let s1 = record (got.1) {
      va = store got.1.va blk va;
      size = store got.1.size blk size;
      next = store got.1.next blk got.1.free_list;
      prev = store got.1.prev blk 0;
    } in
    let s2 = if is_null s1.free_list then s1 else set_prev s1.free_list blk s1 in
    if is_null blk then got.1 else coalesce k (record s2 { free_list = blk })

pub record Vmalloc : Type 0 where
  pub space : Space
  pub vmm : Vmm

-- `pmm_alloc_page` and `pmm_free_page`, on the physical memory of the page tables.
abbrev pub take_page : Vmm → ℕ × Vmm
take_page v =
    let got = alloc_page v.mmu.pmm in (got.0, record v { mmu = record (v.mmu) { pmm = got.1 } })

abbrev pub give_page : ℕ → Vmm → Vmm
give_page p v = record v { mmu = record (v.mmu) { pmm = free_page v.mmu.pmm p } }

-- What `vmm_virt_to_phys` wrote into the variable `pa`.
abbrev pub written : Option ℕ → ℕ
written none = 0
written (some pa) = pa

-- `vmm_virt_to_phys(va, &pa); vmm_unmap(va, 4096); pmm_free_page(pa)`; the call with a pointer to a
-- local variable answers 0.
unfoldable pub release : ℕ → ℕ → Vmm → Vmm
release k va v =
    let pa = written (virt_to_phys k va 1 v).1 in give_page pa (Vmm.unmap k va 4096 v).1

-- The loop over the pages from `va` on: the pages left.
unfoldable pub release_loop : ℕ → ℕ → ℕ → Vmm → Vmm
unfolding release
release_loop k zero va v = v
release_loop k (suc n) va v = release_loop k n (add64 va 4096) (release k va v)

-- The loop that maps the pages: the pages left, `i` and the areas. The result is `some i` where no
-- page was left for the page `i`.
unfoldable pub map_loop : ℕ → ℕ → ℕ → ℕ → Vmm → Option ℕ × Vmm
map_loop k zero i data_va v = (none, v)
map_loop k (suc n) i data_va v =
    let got = take_page v in
    let rest =
      map_loop k n (i + 1) data_va (Vmm.map k (add64 data_va (i * 4096)) got.0 4096 83 got.1).1 in
    if is_null got.0 then (some i, got.1) else rest

-- `vmm_unmap(base_va, GUARD_SIZE); pmm_free_page(guard1); add_free_space(base_va, total_size)`
unfoldable pub give_up : ℕ → ℕ → ℕ → ℕ → ℕ → Space → Vmm → Vmalloc
unfolding add_free_space release_loop
give_up k pages base_va guard1 total_size s v =
    let v1 = release_loop k pages (add64 base_va 4096) v in
    record {
      space = add_free_space k base_va total_size s;
      vmm = give_page guard1 (Vmm.unmap k base_va 4096 v1).1;
    }

abbrev pub pages_of : ℕ → ℕ
pages_of size = add64 size 4095 / 4096

abbrev pub total_of : ℕ → ℕ
total_of size = add64 (mul64 (pages_of size) 4096) 8192

-- The part of `vmalloc` after the first guard page is mapped.
unfoldable pub fill_range : ℕ → ℕ → ℕ → ℕ → Space → Vmm → ℕ × Vmalloc
unfolding map_loop give_up
fill_range k size base_va guard1 s v =
    let pages = pages_of size in
    let data_va = add64 base_va 4096 in
    let filled = map_loop k pages 0 data_va v in
    let got = take_page filled.1 in
    let end_va = add64 data_va (mul64 pages 4096) in
    let mapped = (Vmm.map k end_va got.0 4096 64 got.1).1 in
    let guarded =
      if is_null got.0
      then (0, give_up k pages base_va guard1 (total_of size) s got.1)
      else (data_va, record { space = s; vmm = mapped }) in
    elim filled.0 [
      | some i ↦ (0, give_up k i base_va guard1 (total_of size) s filled.1)
      | none ↦ guarded
    ]

-- The address, 0 for NULL.
unfoldable pub vmalloc : ℕ → ℕ → Vmalloc → ℕ × Vmalloc
unfolding find_free_space add_free_space fill_range
vmalloc k size m =
    let found = find_free_space k (total_of size) m.space in
    let base_va = found.0 in
    let guard = take_page m.vmm in
    let mapped = (Vmm.map k base_va guard.0 4096 64 guard.1).1 in
    if size == 0
    then (0, m)
    else if is_null base_va
    then (0, record m { space = found.1 })
    else if is_null guard.0
    then (0, record { space = add_free_space k base_va (total_of size) found.1; vmm = guard.1 })
    else fill_range k size base_va guard.0 found.1 mapped

unfoldable pub vfree : ℕ → ℕ → ℕ → Vmalloc → Vmalloc
unfolding release_loop release add_free_space
vfree k ptr size m =
    let pages = pages_of size in
    let base_va = sub64 ptr 4096 in
    let v1 = release_loop k pages ptr m.vmm in
    let v2 = release k base_va v1 in
    let v3 = release k (add64 ptr (mul64 pages 4096)) v2 in
    if ptr == 0 || size == 0
    then m
    else record { space = add_free_space k base_va (total_of size) m.space; vmm = v3 }
