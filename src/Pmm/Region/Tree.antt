-- ===== src/Pmm/Region/Tree.antt =====
-- What `dtb_find_memory_region` of mm/pmm.c finds in a device tree: the first tuple of the first property "reg" of a
-- node whose name begins with "memory".
use arcline.Base.{
  ℕ, suc, ◌-◌, ◌≡◌, refl, Bool, true, false, arith, ◌==◌, if◌then◌else◌, Array, List, [], ◌∷◌,
  Option, none, some, inl, inr, Bool-cases, ◌∙◌, codes, ap,
}
use arcline.Dtb.Items.{Item, leave, starts, same}
use arcline.Dtb.Tree.{
  Property, Node, Nodes, node, none_left, first_then, flatten_props, flatten, flatten_all,
}
use arcline.Pmm.Region.{first_tuple}
use arcline.Pmm.Region.Items.{cells_after, find_items}

-- The first of two answers.
abbrev or_else : Option (ℕ × ℕ) → Option (ℕ × ℕ) → Option (ℕ × ℕ)
or_else none y = y
or_else (some r) y = some r

-- The numbers of cells that the root's properties give.
unfoldable pub root_cells : Array ℕ → List Property → ℕ × ℕ → ℕ × ℕ
root_cells m [] c = c
root_cells m (p ∷ ps) c = root_cells m ps (cells_after m p.name p.address p.len c)

unfoldable pub reg_of : Array ℕ → ℕ × ℕ → List Property → Option (ℕ × ℕ)
reg_of m c [] = none
reg_of m c (p ∷ ps) =
    let rest = reg_of m c ps in
    if same (codes "reg") p.name then some (first_tuple m p.address p.len c.0 c.1) else rest

unfoldable mutual
  pub memory_in : Array ℕ → ℕ × ℕ → Node → Option (ℕ × ℕ)
  memory_in m c (node name props children) =
      or_else (if starts (codes "memory") name then reg_of m c props else none)
        (memory_among m c children)

  pub memory_among : Array ℕ → ℕ × ℕ → Nodes → Option (ℕ × ℕ)
  memory_among m c none_left = none
  memory_among m c (first_then n ns) = or_else (memory_in m c n) (memory_among m c ns)

deep : (d : ℕ) → (suc (suc d) == 1) ≡ false
deep d = ground arith

up_down : (d : ℕ) → suc d - 1 ≡ d
up_down d = omega arith

-- Below the root, properties are only looked at for "reg" in a memory node.
find_props :
    (m : Array ℕ) (d : ℕ) (b : Bool) (c : ℕ × ℕ) (ps : List Property) (is : List Item)
    → find_items m (flatten_props ps is) (suc (suc d)) b c
      ≡ or_else (if b then reg_of m c ps else none) (find_items m is (suc (suc d)) b c)
unfolding find_items flatten_props reg_of
find_props m d true c [] is = refl
find_props m d false c [] is = refl
find_props m d false c (p ∷ ps) is = rw (deep d) (find_props m d false c ps is)
find_props m d true c (p ∷ ps) is = elim (Bool-cases (same (codes "reg") p.name)) [
  | inl reg ↦ rw (deep d, reg) refl
  | inr other ↦ rw (deep d, other) (find_props m d true c ps is)
]

or_else_assoc : (x y z : Option (ℕ × ℕ)) → or_else x (or_else y z) ≡ or_else (or_else x y) z
or_else_assoc none y z = refl
or_else_assoc (some r) y z = refl

mutual
  unfolding find_items flatten flatten_all memory_in memory_among

  find_in :
      (m : Array ℕ) (d : ℕ) (b : Bool) (c : ℕ × ℕ) (n : Node) (is : List Item)
      → find_items m (flatten n is) (suc d) b c
        ≡ or_else (memory_in m c n) (find_items m is (suc d) false c)
  find_in m d b c (node name props children) is =
      find_props m d memory c props (flatten_all children (leave ∷ is))
      ∙ (ap (or_else reg) (find_among m (suc d) memory c children is)
          ∙ or_else_assoc reg (memory_among m c children) (find_items m is (suc d) false c))
    where
      memory : Bool
      memory = starts (codes "memory") name

      reg : Option (ℕ × ℕ)
      reg = if memory then reg_of m c props else none

  find_among :
      (m : Array ℕ) (d : ℕ) (b : Bool) (c : ℕ × ℕ) (ns : Nodes) (is : List Item)
      → find_items m (flatten_all ns (leave ∷ is)) (suc d) b c
        ≡ or_else (memory_among m c ns) (find_items m is d false c)
  find_among m d b c none_left is = ap (λ t. find_items m is t false c) (up_down d)
  find_among m d b c (first_then n ns) is =
      find_in m d b c n (flatten_all ns (leave ∷ is))
      ∙ (ap (or_else (memory_in m c n)) (find_among m d false c ns is)
          ∙ or_else_assoc (memory_in m c n) (memory_among m c ns) (find_items m is d false c))
