-- ===== src/Vmm.antt =====
-- mm/vmm.c: the virtual memory areas, the `vma_node_t` of `vma_pool`, in a red-black tree by their
-- first address. A node is named by its place in the pool plus one, 0 is NULL. The flushes of the
-- caches and of the TLB, and the lock, change nothing that is modelled.
pub mod Links
pub mod Errors
pub mod Rotate
pub mod Search
pub mod Disjoint
pub mod Mapped
pub mod Translate
mod Tests
use arcline.Base.{
  ℕ, zero, suc, ◌+◌, ◌-◌, ◌*◌, ◌/◌, ◌%◌, ◌^◌, Bool, true, false, not, ◌&&◌, ◌||◌, ltb, leb, ◌==◌,
  is_null, if◌then◌else◌, Array, store, bit_and, bit_or, add64, sub64, Option, none, some, ℤ, pos,
  negsuc,
}
use arcline.Rb.{Tree, set_root, set_left, set_right, set_parent, set_color, Side, on_left}
use arcline.Rb.Insert
use arcline.Mmu.{Mmu, map_page, unmap_page, update_page_attrs}
use Links.{insert_fixup, rb_delete}

pub record Areas : Type 0 where
  pub tree : Tree
  pub va : Array ℕ
  pub pa : Array ℕ
  pub size : Array ℕ
  pub attrs : Array ℕ
  pub free_list : ℕ
  pub initialized : Bool

-- `ttbr1` is what `mmu_get_ttbr1` returns.
pub record Vmm : Type 0 where
  pub areas : Areas
  pub mmu : Mmu
  pub ttbr1 : ℕ

abbrev pub pool_cap : ℕ
pool_cap = 256

abbrev pub with_tree : Tree → Areas → Areas
with_tree t s = record s { tree = t }

-- The loop of `init_vma_pool`: the rounds left and `i`.
unfoldable pub init_loop : ℕ → ℕ → Areas → Areas
init_loop zero i s = s
init_loop (suc k) i s =
    init_loop k (i + 1) (record s { tree = set_left (suc i) s.free_list s.tree; free_list = suc i })

unfoldable pub init_pool : Areas → Areas
unfolding init_loop
init_pool s = init_loop pool_cap 0 s

-- `vma_alloc_node` fills an empty list once.
unfoldable pub refill : Areas → Areas
unfolding init_pool
refill s =
    if is_null s.free_list && not s.initialized
    then record (init_pool s) { initialized = true }
    else s

-- The first node of the list, 0 for NULL.
unfoldable pub take_node : Areas → ℕ × Areas
take_node s =
    let n = s.free_list in
    let cleared = set_color n 0 (set_parent n 0 (set_right n 0 (set_left n 0 s.tree))) in
    if is_null n then (0, s) else (n, record s { tree = cleared; free_list = s.tree.left n })

unfoldable pub alloc_node : Areas → ℕ × Areas
unfolding refill take_node
alloc_node s = take_node (refill s)

unfoldable pub free_node : ℕ → Areas → Areas
free_node n s =
    if is_null n then s else record s { tree = set_left n s.free_list s.tree; free_list = n }

unfoldable pub init : Areas → ℤ × Areas
unfolding init_pool
init s = (pos 0, init_pool (with_tree (set_root 0 s.tree) s))

-- The greatest area that starts at or below `va`: the rounds left, `root` and `res`.
unfoldable pub find_le : ℕ → ℕ → ℕ → ℕ → Areas → ℕ
find_le zero root va res s = res
find_le (suc k) root va res s =
    let below = ltb va (s.va root) in
    let rest =
      find_le k (if below then s.tree.left root else s.tree.right root) va
        (if below then res else root) s in
    if is_null root then res else rest

-- The least area that starts at or above `va`.
unfoldable pub find_ge : ℕ → ℕ → ℕ → ℕ → Areas → ℕ
find_ge zero root va res s = res
find_ge (suc k) root va res s =
    let at_most = leb va (s.va root) in
    let rest =
      find_ge k (if at_most then s.tree.left root else s.tree.right root) va
        (if at_most then root else res) s in
    if is_null root then res else rest

unfoldable pub find_exact : ℕ → ℕ → ℕ → Areas → ℕ
find_exact zero root va s = 0
find_exact (suc k) root va s =
    let rest =
      find_exact k (if ltb va (s.va root) then s.tree.left root else s.tree.right root) va s in
    if is_null root then 0 else if ltb va (s.va root) || ltb (s.va root) va then rest else root

unfoldable pub overlaps : ℕ → ℕ → ℕ → Areas → Bool
overlaps n va size s =
    let a1 = add64 (s.va n) (s.size n) in
    let b1 = add64 va size in not (is_null n) && not (leb b1 (s.va n) || leb a1 va)

abbrev pub unaligned : ℕ → Bool
unaligned x = not (bit_and x 4095 == 0)

-- The attributes of the pages of an area.
abbrev pub has : ℕ → ℕ → Bool
has attrs bit = not (bit_and attrs bit == 0)

unfoldable pub pte_attrs : ℕ → ℕ
pte_attrs attrs =
    let base = bit_or (bit_or 2 (2 ^ 10)) (3 * 2 ^ 8) in
    let a = bit_or base (if has attrs 8 then 0 else 2 * 2 ^ 2) in
    let b = if has attrs 2 then a else bit_or a (2 ^ 7) in
    let c = if has attrs 32 then bit_or b (2 ^ 54) else b in
    if has attrs 64 then bit_or c (2 ^ 53) else c

-- `for (off = 0; off < size; off += VMM_PAGE_SIZE)`, with the rounds left.
unfoldable pub each_page : (ℕ → Mmu → Mmu) → ℕ → ℕ → ℕ → Mmu → Mmu
each_page f zero off size m = m
each_page f (suc k) off size m =
    let rest = each_page f k (add64 off 4096) size (f off m) in if ltb off size then rest else m

-- The area is written into the node `n`, which is linked into the tree.
unfoldable pub insert_area : ℕ → ℕ → ℕ → ℕ → ℕ → ℕ → Areas → Areas
unfolding Insert.descend Insert.set_link insert_fixup
insert_area k n va pa size attrs s =
    let s1 = record s {
      va = store s.va n va;
      pa = store s.pa n pa;
      size = store s.size n size;
      attrs = store s.attrs n attrs;
      tree = set_color n 0 s.tree;
    } in
    let (parent, side, leftmost) = Insert.descend s1.va va k s1.tree.root 0 on_left true s1.tree in
    let t1 = set_parent n parent (Insert.set_link parent side n s1.tree) in
    let t2 = set_color n 0 (set_right n 0 (set_left n 0 t1)) in with_tree (insert_fixup k n t2) s1

abbrev pub map_pages : ℕ → ℕ → ℕ → ℕ → Vmm → Mmu
unfolding each_page
map_pages va pa size attrs v =
    if v.ttbr1 == 0
    then v.mmu
    else each_page (λ off m. (map_page v.ttbr1 (add64 va off) (add64 pa off) (pte_attrs attrs) m).1)
        (size / 4096) 0 size v.mmu

-- `k` bounds the rounds of each loop over the tree.
unfoldable pub map : ℕ → ℕ → ℕ → ℕ → ℕ → Vmm → ℤ × Vmm
unfolding find_le find_ge overlaps alloc_node insert_area
map k va pa size attrs v =
    let s = v.areas in
    let got = alloc_node s in
    let mapped = record v {
      areas = insert_area k got.0 va pa size attrs got.1;
      mmu = map_pages va pa size attrs v;
    } in
    if size == 0
    then (negsuc 0, v)
    else if unaligned va || unaligned pa || unaligned size
    then (negsuc 1, v)
    else if overlaps (find_le k s.tree.root va 0 s) va size s
    then (negsuc 2, v)
    else if overlaps (find_ge k s.tree.root va 0 s) va size s
    then (negsuc 2, v)
    else if is_null got.0
    then (negsuc 3, record v { areas = got.1 })
    else (pos 0, mapped)

unfoldable pub unmap : ℕ → ℕ → ℕ → Vmm → ℤ × Vmm
unfolding find_exact each_page rb_delete free_node
unmap k va size v =
    let s = v.areas in
    let cur = find_exact k s.tree.root va s in
    let pages =
      if v.ttbr1 == 0
      then v.mmu
      else each_page (λ off m. (unmap_page v.ttbr1 (add64 va off) m).1) (size / 4096) 0 size
          v.mmu in
    if size == 0
    then (negsuc 0, v)
    else if unaligned va || unaligned size
    then (negsuc 1, v)
    else if is_null cur || not (s.size cur == size)
    then (negsuc 2, v)
    else (
      pos 0,
      record v { areas = free_node cur (with_tree (rb_delete k cur s.tree) s); mmu = pages },
    )

unfoldable pub protect : ℕ → ℕ → ℕ → ℕ → Vmm → ℤ × Vmm
unfolding find_exact each_page pte_attrs
protect k va size attrs v =
    let s = v.areas in
    let cur = find_exact k s.tree.root va s in
    let pages =
      if v.ttbr1 == 0
      then v.mmu
      else each_page (λ off m. (update_page_attrs v.ttbr1 (add64 va off) (pte_attrs attrs) m).1)
          (size / 4096) 0 size v.mmu in
    if size == 0
    then (negsuc 0, v)
    else if unaligned va || unaligned size
    then (negsuc 1, v)
    else if is_null cur || not (s.size cur == size)
    then (negsuc 2, v)
    else (pos 0, record v { areas = record s { attrs = store s.attrs cur attrs }; mmu = pages })

-- The code, and what is written to `*pa_out`.
unfoldable pub virt_to_phys : ℕ → ℕ → ℕ → Vmm → ℤ × Option ℕ
unfolding find_le
virt_to_phys k va pa_out v =
    let s = v.areas in
    let n = find_le k s.tree.root va 0 s in
    if is_null pa_out
    then (negsuc 0, none)
    else if not (is_null n) && (leb (s.va n) va && ltb va (add64 (s.va n) (s.size n)))
    then (pos 0, some (add64 (s.pa n) (va - s.va n)))
    else (pos 0, some va)
