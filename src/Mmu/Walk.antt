-- ===== src/Mmu/Walk.antt =====
-- The walk of the hardware, which the functions on page tables are compared with.
use arcline.Base.{
  ℕ, ◌+◌, ◌*◌, ◌/◌, ◌%◌, ◌≡◌, refl, ap, ◌∙◌, Bool, true, false, List, [], ◌∷◌, arith, ◌==◌,
  if◌then◌else◌, Array, store, page_down, Bool-cases, inl, inr, Option, none, some, ℤ, pos, negsuc,
}
use arcline.Bits.{bit_and-low}
use arcline.Mmu.{Mmu, slot, is_valid, pgd_index, pud_index, pmd_index, pte_index, next, last, ◌>>=◌}

-- The address of a table's entry, of 8 bytes.
abbrev entry_at : ℕ → ℕ → ℕ
entry_at table i = table + 8 * i

-- A descriptor is valid by its lowest bit.
abbrev descriptor_valid : ℕ → Bool
descriptor_valid d = d % 2 == 1

-- The table that a descriptor names, by its bits from 12 on.
abbrev table_of : ℕ → ℕ
table_of d = d / 4096 * 4096

-- The address of the entry that the indices lead to, if every entry on the way, itself included, is
-- valid. Every descriptor above the last level is read as one of a table.
unfoldable pub walk : Array ℕ → ℕ → List ℕ → Option ℕ
walk mem table [] = none
walk mem table (i ∷ []) =
    if descriptor_valid (mem (entry_at table i)) then some (entry_at table i) else none
walk mem table (i ∷ j ∷ rest) =
    let deeper = walk mem (table_of (mem (entry_at table i))) (j ∷ rest) in
    if descriptor_valid (mem (entry_at table i)) then deeper else none

-- The four indices of an address: its bits 39 to 47, 30 to 38, 21 to 29 and 12 to 20.
abbrev pub indices : ℕ → List ℕ
indices va =
    va / 549755813888 % 512 ∷ va / 1073741824 % 512 ∷ va / 2097152 % 512 ∷ va / 4096 % 512 ∷ []

-- The address of the valid entry of a page, and the entry.
unfoldable pub pte_of : ℕ → ℕ → Array ℕ → Option ℕ
pte_of pgd va mem = walk mem pgd (indices va)

-- What both functions do with the entry of a page: fail without one, or change the state.
abbrev pub with_pte : Option ℕ → (ℕ → Mmu) → Mmu → ℤ × Mmu
with_pte none change s = (negsuc 0, s)
with_pte (some a) change s = (pos 0, change a)

-- The walk of the code, by its own tests and indices, is the same.
code_walk : Array ℕ → ℕ → List ℕ → Option ℕ
code_walk mem table [] = none
code_walk mem table (i ∷ []) = if is_valid (mem (slot table i)) then some (slot table i) else none
code_walk mem table (i ∷ j ∷ rest) =
    let deeper = code_walk mem (page_down (mem (slot table i))) (j ∷ rest) in
    if is_valid (mem (slot table i)) then deeper else none

abbrev code_indices : ℕ → List ℕ
code_indices va = pgd_index va ∷ pud_index va ∷ pmd_index va ∷ pte_index va ∷ []

valid_same : (d : ℕ) → is_valid d ≡ descriptor_valid d
valid_same d = let low = bit_and-low d in ground (arith, low)

table_same : (d : ℕ) → page_down d ≡ table_of d
table_same d = omega arith

code_walk-walk :
    (mem : Array ℕ) (table : ℕ) (is : List ℕ) → code_walk mem table is ≡ walk mem table is
unfolding code_walk walk
code_walk-walk mem table [] = refl
code_walk-walk mem table (i ∷ []) = rw (valid_same (mem (slot table i))) refl
code_walk-walk mem table (i ∷ j ∷ rest) =
    rw
      (
        valid_same (mem (slot table i)),
        table_same (mem (slot table i)),
        code_walk-walk mem (table_of (mem (slot table i))) (j ∷ rest),
      )
      refl

one_level :
    (v : Bool) (t : ℕ) (s : Mmu) (change : ℕ → Mmu) (f : ℕ × Mmu → ℤ × Mmu) (o : Option ℕ)
    → f (t, s) ≡ with_pte o change s
    → ((if v then (some t, s) else (none, s)) >>= f) ≡ with_pte (if v then o else none) change s
one_level true t s change f o h = h
one_level false t s change f o h = refl

-- The chain of levels that both functions go down, as one walk.
code_walk-levels :
    (pgd va : ℕ) (s : Mmu) (change : ℕ → Mmu)
    → (next pgd (pgd_index va) s >>= λ l1. next l1.0 (pud_index va) s >>= λ l2.
        next l2.0 (pmd_index va) s >>= λ l3.
        last l3.0 (pte_index va) s >>= λ pte. (pos 0, change pte.0))
      ≡ with_pte (code_walk s.mem pgd (code_indices va)) change s
unfolding next last code_walk
code_walk-levels pgd va s change = search one_level

pub levels-walk :
    (pgd va : ℕ) (s : Mmu) (change : ℕ → Mmu)
    → (next pgd (pgd_index va) s >>= λ l1. next l1.0 (pud_index va) s >>= λ l2.
        next l2.0 (pmd_index va) s >>= λ l3.
        last l3.0 (pte_index va) s >>= λ pte. (pos 0, change pte.0))
      ≡ with_pte (pte_of pgd va s.mem) change s
unfolding pte_of
levels-walk pgd va s change =
    code_walk-levels pgd va s change
    ∙ ap (λ o. with_pte o change s) (code_walk-walk s.mem pgd (indices va))

-- The entry that a walk leads to is invalid once it is cleared, whatever the tables share.
pub walk_cleared :
    (table : ℕ) (is : List ℕ) (a : ℕ) (mem : Array ℕ)
    → walk mem table is ≡ some a
    → walk (store mem a 0) table is ≡ none
unfolding walk
walk_cleared table [] a mem e = refl
walk_cleared table (i ∷ []) a mem e = elim (Bool-cases (entry_at table i == a)) [
  | inl at ↦ rw at refl
  | inr off ↦ rw off (unmet (descriptor_valid (mem (entry_at table i))) off e)
]
  where
    unmet :
        (v : Bool)
        → (entry_at table i == a) ≡ false
        → (if v then some (entry_at table i) else none) ≡ some a
        → (if v then some (entry_at table i) else none) ≡ none
    unmet true ne q = let same : entry_at table i ≡ a = cc in absurd (ground (arith, ne, same))
    unmet false ne q = refl
walk_cleared table (i ∷ j ∷ is) a mem e = elim (Bool-cases (entry_at table i == a)) [
  | inl at ↦ rw at refl
  | inr off ↦ rw off (
      deeper (descriptor_valid (mem (entry_at table i))) e
        (walk_cleared (table_of (mem (entry_at table i))) (j ∷ is) a mem))
]
  where
    deeper :
        (v : Bool)
        → (if v then walk mem (table_of (mem (entry_at table i))) (j ∷ is) else none) ≡ some a
        → (walk mem (table_of (mem (entry_at table i))) (j ∷ is) ≡ some a
            → walk (store mem a 0) (table_of (mem (entry_at table i))) (j ∷ is) ≡ none)
        → (if v then walk (store mem a 0) (table_of (mem (entry_at table i))) (j ∷ is) else none)
          ≡ none
    deeper true q ih = ih q
    deeper false q ih = refl
