-- ===== src/Vmm/Tests.antt =====
-- Runs of mm/vmm.c: two areas are mapped, translated and unmapped.
use arcline.Base.{
  ◌+◌, ◌≤◌, ◌≡◌, ◌≢◌, refl, sym, ap, ◌∙◌, [], ◌∷◌, arith, ◌==◌, if◌then◌else◌, true, false, ◌⊎◌,
  pos, negsuc, some,
}
use arcline.Rb.{replace_child}
use arcline.Rb.Shape.{leaf}
use arcline.Rb.Insert
use arcline.Rb.Insert.Link.{insert_sorted}
use arcline.Rb.Insert.Order.{occurs}
use arcline.Vmm.{
  Vmm, init, init_pool, init_loop, refill, take_node, alloc_node, free_node, find_le, find_ge,
  find_exact, overlaps, insert_area, map, unmap, virt_to_phys,
}
use arcline.Vmm.Links.{
  insert_fixup, rb_delete, transplant, replace_by_min, tree_min, delete_fixup, delete_side,
  delete_step,
}
use arcline.Vmm.Errors.{map-error}
use arcline.Vmm.Search.{InOrder}
use arcline.Vmm.Disjoint.{end_of, map-disjoint}
use arcline.Vmm.Mapped.{map-InOrder}
use arcline.Vmm.Translate.{virt_to_phys-map}

-- No area; the nodes 1 and 2 are free.
abbrev start : Vmm
start = record {
  areas = record {
    tree = record {
      root = 0;
      left = λ n. if n == 1 then 2 else 0;
      right = λ _. 0;
      parent = λ _. 0;
      color = λ _. 0;
    };
    va = λ _. 0;
    pa = λ _. 0;
    size = λ _. 0;
    attrs = λ _. 0;
    free_list = 1;
    initialized = true;
  };
  mmu = record {
    mem = λ _. 0;
    pmm = record { bitmap = λ _. 0; mem_base = 0; mem_size = 0; pages_total = 0; pages_free = 0 };
  };
  ttbr1 = 0;
}

one : Vmm
one = (map 4 8192 4096 4096 3 start).1

two : Vmm
two = (map 4 4096 16384 4096 3 one).1

code_one : (map 4 8192 4096 4096 3 start).0 ≡ pos 0
unfolding map find_le find_ge overlaps alloc_node refill take_node
code_one = refl

code_two : (map 4 4096 16384 4096 3 one).0 ≡ pos 0
unfolding one map find_le find_ge overlaps alloc_node refill take_node insert_area insert_fixup
    Insert.insert_fixup Insert.descend Insert.set_link
code_two = refl

-- An overlap is refused.
code_overlap : (map 4 8192 0 8192 3 one).0 ≡ negsuc 2
unfolding one map find_le find_ge overlaps alloc_node refill take_node insert_area insert_fixup
    Insert.insert_fixup Insert.descend Insert.set_link
code_overlap = refl

unmapped_tree : (unmap 4 8192 4096 two).1.areas.tree.root ≡ 2
unfolding two one map find_le find_ge overlaps alloc_node refill take_node insert_area insert_fixup
    Insert.insert_fixup Insert.descend Insert.set_link unmap find_exact rb_delete transplant
    replace_by_min tree_min delete_fixup delete_step delete_side free_node replace_child
unmapped_tree = refl

-- `vmm_init` leaves `initialized` alone, so that an allocation from an exhausted pool hands out the
-- node 256 again, though it is in use.
exhausted :
    (alloc_node (record (init start.areas).1 { free_list = 0; initialized = false })).0 ≡ 256
unfolding alloc_node refill take_node init init_pool init_loop
exhausted = refl

start-InOrder : InOrder start.areas []
start-InOrder = record {
  tree = record {
    links = record {
      shape = leaf;
      at = record {
        around = refl;
        links = tt;
        apart = record { once = λ a. omega arith; real = refl };
      };
      same = refl;
    };
    root = λ h. absurd (h refl);
  };
  separate = tt;
}

one-InOrder : InOrder one.areas (1 ∷ [])
unfolding one
one-InOrder =
    map-InOrder 4 8192 4096 4096 3 start [] start-InOrder (omega arith) (λ e. omega (arith, e)) refl
      (omega arith) code_one

free_two : one.areas.free_list ≡ 2
unfolding one map find_le find_ge overlaps alloc_node refill take_node insert_area insert_fixup
    Insert.insert_fixup Insert.descend Insert.set_link
free_two = refl

free_real : one.areas.free_list ≢ 0
free_real e = omega (arith, e, free_two)

fresh : occurs one.areas.free_list (1 ∷ []) ≡ 0
fresh = ap (λ n. occurs n (1 ∷ [])) free_two

map-InOrder_example :
    InOrder
      (map 4 4096 16384 4096 3 one).1.areas
      (insert_sorted (map 4 4096 16384 4096 3 one).1.areas.va 4096 one.areas.free_list (1 ∷ []))
map-InOrder_example =
    map-InOrder 4 4096 16384 4096 3 one (1 ∷ []) one-InOrder (omega arith) free_real fresh
      (omega arith) code_two

map-disjoint_example : (4096 + 4096 ≤ one.areas.va 1) ⊎ (end_of one.areas 1 ≤ 4096)
map-disjoint_example =
    map-disjoint 4 4096 16384 4096 3 one (1 ∷ []) 1 one-InOrder (omega arith) (omega arith) code_two
      (omega arith)

virt_to_phys-map_example :
    virt_to_phys 4 (4096 + 5) 1 (map 4 4096 16384 4096 3 one).1 ≡ (pos 0, some (16384 + 5))
virt_to_phys-map_example =
    virt_to_phys-map 4 4096 16384 4096 3 5 1 one (1 ∷ []) one-InOrder (omega arith) free_real fresh
      (omega arith) (omega arith) code_two (omega arith) (omega arith)

map-error_example : (map 4 8192 0 8192 3 one).1 ≡ one
map-error_example = map-error 4 8192 0 8192 3 one (λ e. not_ok (sym code_overlap ∙ e))
  where
    not_ok : (negsuc 2) ≡ pos 0 → ⊥
    not_ok e = cc
