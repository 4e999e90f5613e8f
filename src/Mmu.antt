-- ===== src/Mmu.antt =====
-- mm/mmu.c: the page tables. The memory is a function from the address of a word of 64 bits to the
-- word; physical addresses are used as pointers, as under the identity mapping.
pub mod Walk
pub mod Unmap
pub mod Region
mod Tests
use arcline.Base.{
  ℕ, ◌+◌, ◌*◌, ◌/◌, ◌%◌, ◌^◌, Bool, not, ◌&&◌, ltb, leb, ◌==◌, is_null, if◌then◌else◌, Array, store,
  bit_and, bit_or, page_down, Option, none, some, ℤ, pos, negsuc,
}
use arcline.Pmm.{Pmm, alloc_page}

pub record Mmu : Type 0 where
  pub mem : Array ℕ
  pub pmm : Pmm

abbrev pub pte_valid : ℕ
pte_valid = 1

abbrev pub pte_table : ℕ
pte_table = 2

abbrev pub pte_af : ℕ
pte_af = 2 ^ 10

-- `alloc_table`: a page of zeros, 0 for NULL.
pub alloc_table : Mmu → ℕ × Mmu
alloc_table s =
    let got = alloc_page s.pmm in
    let p = got.0 in
    let cleared = λ (a : ℕ). if leb p a && ltb a (p + 4096) then 0 else s.mem a in
    (p, if is_null p then record s { pmm = got.1 } else record { mem = cleared; pmm = got.1 })

abbrev pub pgd_index : ℕ → ℕ
pgd_index va = va / 2 ^ 39 % 512

abbrev pub pud_index : ℕ → ℕ
pud_index va = va / 2 ^ 30 % 512

abbrev pub pmd_index : ℕ → ℕ
pmd_index va = va / 2 ^ 21 % 512

abbrev pub pte_index : ℕ → ℕ
pte_index va = va / 2 ^ 12 % 512

-- `&table[idx]`
abbrev pub slot : ℕ → ℕ → ℕ
slot table idx = table + 8 * idx

-- `entry & PTE_VALID`
abbrev pub is_valid : ℕ → Bool
is_valid entry = not (bit_and entry pte_valid == 0)

-- One level of `mmu_map_page`: the next table, made if there is none.
pub next_or_new : ℕ → ℕ → Mmu → Option ℕ × Mmu
next_or_new table idx s =
    let a = slot table idx in
    let got = alloc_table s in
    let made = record (got.1) {
      mem = store got.1.mem a (bit_or (bit_or got.0 pte_table) pte_valid);
    } in
    if is_valid (s.mem a)
    then (some (page_down (s.mem a)), s)
    else if is_null got.0
    then (none, got.1)
    else (some (page_down (made.mem a)), made)

-- `return -1` when a level is missing.
infixl 5 ◌>>=◌
abbrev pub ◌>>=◌ : Option ℕ × Mmu → (ℕ × Mmu → ℤ × Mmu) → ℤ × Mmu
(some table, s) >>= f = f (table, s)
(none, s) >>= f = (negsuc 0, s)

-- `(pa & ~MMU_PAGE_MASK) | attrs | PTE_AF | PTE_VALID`
abbrev pub leaf : ℕ → ℕ → ℕ
leaf pa attrs = bit_or (bit_or (bit_or (page_down pa) attrs) pte_af) pte_valid

pub map_page : ℕ → ℕ → ℕ → ℕ → Mmu → ℤ × Mmu
map_page pgd va pa attrs s = do
  l1 ← next_or_new pgd (pgd_index va) s
  l2 ← next_or_new l1.0 (pud_index va) l1.1
  l3 ← next_or_new l2.0 (pmd_index va) l2.1
  (pos 0, record (l3.1) { mem = store l3.1.mem (slot l3.0 (pte_index va)) (leaf pa attrs) })

-- One level of `mmu_unmap_page` and of `mmu_update_page_attrs`.
pub next : ℕ → ℕ → Mmu → Option ℕ × Mmu
next table idx s =
    let entry = s.mem (slot table idx) in
    if is_valid entry then (some (page_down entry), s) else (none, s)

-- The last level: the address of a valid entry.
pub last : ℕ → ℕ → Mmu → Option ℕ × Mmu
last table idx s =
    if is_valid (s.mem (slot table idx)) then (some (slot table idx), s) else (none, s)

pub unmap_page : ℕ → ℕ → Mmu → ℤ × Mmu
unmap_page pgd va s = do
  l1 ← next pgd (pgd_index va) s
  l2 ← next l1.0 (pud_index va) s
  l3 ← next l2.0 (pmd_index va) s
  pte ← last l3.0 (pte_index va) s
  (pos 0, record s { mem = store s.mem pte.0 0 })

pub update_page_attrs : ℕ → ℕ → ℕ → Mmu → ℤ × Mmu
update_page_attrs pgd va attrs s = do
  l1 ← next pgd (pgd_index va) s
  l2 ← next l1.0 (pud_index va) s
  l3 ← next l2.0 (pmd_index va) s
  pte ← last l3.0 (pte_index va) s
  (pos 0, record s { mem = store s.mem pte.0 (leaf (s.mem pte.0) attrs) })
