-- ===== src/Mmu/Unmap.antt =====
-- `mmu_unmap_page` and `mmu_update_page_attrs` beside the walk of the hardware.
use arcline.Base.{
  ℕ, ◌≡◌, refl, arith, store, page_down, Option, none, some, max, bit_or, ltb, ◌==◌, ◌||◌,
  if◌then◌else◌, ℤ, pos, negsuc,
}
use arcline.Bits.{bit, bit-lt-two, bit-bit_or, bit-pow, bit_kept}
use arcline.Mmu.{Mmu, unmap_page, update_page_attrs, leaf, pte_af, pte_valid}
use arcline.Mmu.Walk.{walk, pte_of, indices, with_pte, walk_cleared, levels-walk}

-- How `mmu_unmap_page` ends.
pub data Unmapped (pgd va : ℕ) (s : Mmu) : ℤ × Mmu → Type 0 where
  unmapped : pte_of pgd va s.mem ≡ none → Unmapped pgd va s (negsuc 0, s)
  cleared :
      (a : ℕ)
      → pte_of pgd va s.mem ≡ some a
      → pte_of pgd va (store s.mem a 0) ≡ none
      → Unmapped pgd va s (pos 0, record s { mem = store s.mem a 0 })

-- `mmu_unmap_page` fails and changes nothing if the walk of the architecture, which reads every entry
-- above the last level as one of a table, finds no valid entry for the page. Otherwise it clears the
-- entry that the walk finds and nothing else, and after it the walk finds none, whatever the page
-- tables share.
pub unmap_page-Unmapped : (pgd va : ℕ) (s : Mmu) → Unmapped pgd va s (unmap_page pgd va s)
unfolding unmap_page pte_of
unmap_page-Unmapped pgd va s =
    rw (levels-walk pgd va s (λ a. record s { mem = store s.mem a 0 }))
      (done (walk s.mem pgd (indices va)) refl)
  where
    done :
        (o : Option ℕ)
        → walk s.mem pgd (indices va) ≡ o
        → Unmapped pgd va s (with_pte o (λ a. record s { mem = store s.mem a 0 }) s)
    done none e = unmapped e
    done (some a) e = cleared a e (walk_cleared pgd (indices va) a s.mem e)

-- The bits of an entry that is rewritten with attributes.
abbrev pub rewritten_bit : ℕ → ℕ → ℕ → ℕ
rewritten_bit entry attrs j =
    if j == 0 || j == 10
    then 1
    else if ltb j 12
    then bit attrs j
    else max (bit entry j) (bit attrs j)

-- How `mmu_update_page_attrs` ends.
pub data Rewritten (pgd va attrs : ℕ) (s : Mmu) : ℤ × Mmu → Type 0 where
  missing : pte_of pgd va s.mem ≡ none → Rewritten pgd va attrs s (negsuc 0, s)
  rewritten :
      (a w : ℕ)
      → pte_of pgd va s.mem ≡ some a
      → ((j : ℕ) → bit w j ≡ rewritten_bit (s.mem a) attrs j)
      → Rewritten pgd va attrs s (pos 0, record s { mem = store s.mem a w })

leaf-bit : (entry attrs j : ℕ) → bit (leaf entry attrs) j ≡ rewritten_bit entry attrs j
leaf-bit entry attrs j =
    rw
      (
        bit-bit_or j (bit_or (bit_or (page_down entry) attrs) pte_af) pte_valid,
        bit-bit_or j (bit_or (page_down entry) attrs) pte_af,
        bit-bit_or j (page_down entry) attrs,
        bit-pow j 10,
        bit-pow j 0,
      )
      (ground (arith, bit-lt-two j attrs, bit-lt-two j entry, bit_kept j entry))

-- `mmu_update_page_attrs` fails and changes nothing if the page has no valid entry. Otherwise it
-- writes this entry and nothing else: bits 0 and 10, valid and accessed, are set, the others below
-- 12 are those of the attributes, and every bit from 12 on is set if it was set before or is set in
-- the attributes, which so can add but not take away the bits 53 and 54.
pub update_page_attrs-Rewritten :
    (pgd va attrs : ℕ) (s : Mmu) → Rewritten pgd va attrs s (update_page_attrs pgd va attrs s)
unfolding update_page_attrs
update_page_attrs-Rewritten pgd va attrs s =
    rw (levels-walk pgd va s (λ a. record s { mem = store s.mem a (leaf (s.mem a) attrs) }))
      (done (pte_of pgd va s.mem) refl)
  where
    done :
        (o : Option ℕ)
        → pte_of pgd va s.mem ≡ o
        → Rewritten pgd va attrs s
            (with_pte o (λ a. record s { mem = store s.mem a (leaf (s.mem a) attrs) }) s)
    done none e = missing e
    done (some a) e = rewritten a (leaf (s.mem a) attrs) e (leaf-bit (s.mem a) attrs)
