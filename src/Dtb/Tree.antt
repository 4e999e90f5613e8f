-- ===== src/Dtb/Tree.antt =====
-- A device tree, and the items that it is flattened to: the properties of a node stand before its children.
use arcline.Base.{ℕ, List, [], ◌∷◌}
use arcline.Dtb.Items.{Item, enter, property, leave}

-- A property: its name, and the address and the length of its value.
pub record Property : Type 0 where
  pub name : List ℕ
  pub address : ℕ
  pub len : ℕ

mutual
  pub data Node : Type 0 where
    node : List ℕ → List Property → Nodes → Node

  pub data Nodes : Type 0 where
    none_left : Nodes
    first_then : Node → Nodes → Nodes

unfoldable pub flatten_props : List Property → List Item → List Item
flatten_props [] is = is
flatten_props (p ∷ ps) is = property p.name p.address p.len ∷ flatten_props ps is

unfoldable mutual
  -- The items of a node, with any items behind them.
  pub flatten : Node → List Item → List Item
  flatten (node name props children) is =
      enter name ∷ flatten_props props (flatten_all children (leave ∷ is))

  pub flatten_all : Nodes → List Item → List Item
  flatten_all none_left is = is
  flatten_all (first_then n ns) is = flatten n (flatten_all ns is)
