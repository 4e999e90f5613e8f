-- ===== src/Pmm/Reserved/Walked.antt =====
-- What `reserve_reserved_memory` of mm/pmm.c does to the allocator.
use mathlib.Core.Path.{subst}
use arcline.Base.{
  ℕ, zero, suc, ◌+◌, ◌%◌, ◌^◌, ◌<◌, ◌≡◌, refl, true, arith, Array, List, length, some, add64, add32,
  sym,
}
use arcline.Dtb.{Fdt, header, token, name_len, align4}
use arcline.Dtb.Items.{Item, Block, done, enters, holds, leaves, skips, are_short, name_len_lem}
use arcline.Pmm.{Pmm}
use arcline.Pmm.Reserved.{
  Walk, reserve_value, reserve_prop, reserve_entry, reserve_leave, reserve_walk,
  reserve_reserved_memory,
}

-- No property reserves anything.
reserve_prop-same : (m : Array ℕ) (h : Fdt) (w : Walk) (s : Pmm) → (reserve_prop m h w s).1 ≡ s
unfolding reserve_prop reserve_value
reserve_prop-same m h w s = ground arith

reserve_prop-p :
    (m : Array ℕ) (h : Fdt) (w : Walk) (s : Pmm)
    → (reserve_prop m h w s).0.p ≡ add32 (add32 w.p 12) (align4 (token m h (add32 w.p 4)))
unfolding reserve_prop reserve_value
reserve_prop-p m h w s = ground arith

reserve_entry-p :
    (m : Array ℕ) (h : Fdt) (len : ℕ) (w : Walk)
    → (reserve_entry m h len w).p ≡ add32 (add32 w.p 4) (align4 ((len + 1) % 2 ^ 32))
unfolding reserve_entry
reserve_entry-p m h len w = ground arith

moved : (m : Array ℕ) (h : Fdt) (p q : ℕ) (is : List Item) → q ≡ p → Block m h p is → Block m h q is
moved m h p q is e b = subst (λ t. Block m h t is) (sym e) b

-- The loop ends in any state of the walk, given a round for each item and one for the end, and changes nothing.
reserve_walk-same :
    (n k : ℕ) (m : Array ℕ) (h : Fdt) (w : Walk) (s : Pmm) {is : List Item}
    → Block m h w.p is
    → are_short k is ≡ true
    → length is < n
    → reserve_walk n k m h w s ≡ some s
unfolding reserve_walk are_short reserve_leave
reserve_walk-same zero k m h w s b sh l = absurd (omega arith)
reserve_walk-same (suc n) k m h w s (done e) sh l = rw e refl
reserve_walk-same (suc n) k m h w s (enters {name = name} {is = is} e t b) sh l =
    rw (e, named)
      (reserve_walk-same n k m h (reserve_entry m h (length name + 0) w) s
        (moved m h (add32 (add32 w.p 4) (align4 ((length name + 1) % 2 ^ 32)))
          (reserve_entry m h (length name + 0) w).p is
          (ground (arith, reserve_entry-p m h (length name + 0) w)) b)
        (ground arith) (omega arith))
  where
    named : name_len k 0 (add64 h.fdt (add32 w.p 4)) m ≡ some (length name + 0)
    named =
        name_len_lem k 0 (add64 h.fdt (add32 w.p 4)) (add64 h.fdt (add32 w.p 4)) m (omega arith) t
          (ground arith)
reserve_walk-same (suc n) k m h w s (holds {is = is} e t b) sh l =
    rw (e, reserve_prop-same m h w s)
      (reserve_walk-same n k m h (reserve_prop m h w s).0 s
        (moved m h (add32 (add32 w.p 12) (align4 (token m h (add32 w.p 4))))
          (reserve_prop m h w s).0.p is (reserve_prop-p m h w s) b)
        sh (omega arith))
reserve_walk-same (suc n) k m h w s (leaves e b) sh l =
    rw e (reserve_walk-same n k m h (reserve_leave w) s b sh (omega arith))
reserve_walk-same (suc n) k m h w s (skips e b) sh l =
    rw e (reserve_walk-same n k m h (record w { p = add32 w.p 4 }) s b sh (omega arith))

-- `reserve_reserved_memory` ends where a well-formed block of items stands in memory, given a round for each item and
-- one for the end, and names shorter than its bound; and it reserves nothing, whatever the block says.
pub reserve_reserved_memory-same :
    (n k dtb : ℕ) (m : Array ℕ) (s : Pmm) (is : List Item)
    → Block m (header m dtb) (header m dtb).off_struct is
    → are_short k is ≡ true
    → length is < n
    → reserve_reserved_memory n k m dtb s ≡ some s
unfolding reserve_reserved_memory
reserve_reserved_memory-same n k dtb m s is b sh l = ground (
  arith,
  reserve_walk-same n k m (header m dtb)
      (record {
        p = (header m dtb).off_struct;
        depth = 0;
        in_reserved = 0;
        addr_cells = 2;
        size_cells = 2;
      })
      s b sh l,
)
