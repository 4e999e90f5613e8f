-- ===== src/Vmm/Links.antt =====
-- The red-black tree of mm/vmm.c, where red is 0 and black is 1. Each loop is given the number of
-- rounds that it may take. `p ? p->left : NULL` is written out; what follows NULL all the same, as
-- in a rotation at NULL, reads and writes the node 0.
use arcline.Base.{ℕ, zero, suc, Bool, not, ◌&&◌, ◌||◌, ◌==◌, if◌then◌else◌}
use arcline.Rb.{
  Tree, set_left, set_right, set_parent, set_color, adopt, replace_child, rotate_left, Side,
  on_left, on_right, opposite, child, descend_left,
}
use arcline.Rb.Insert

abbrev pub is_red : Tree → ℕ → Bool
is_red t n = Insert.is_red 0 t n

abbrev pub is_black : Tree → ℕ → Bool
is_black t n = n == 0 || t.color n == 1

unfoldable pub rotate_right : ℕ → Tree → Tree
unfolding replace_child
rotate_right y t =
    let x = t.left y in
    let t1 = set_left y (t.right x) t in
    let t2 = adopt (t1.right x) y t1 in
    let t3 = set_parent x (t2.parent y) t2 in
    let t4 = replace_child y x t3 in set_parent y x (set_right x y t4)

abbrev pub rotate : Side → ℕ → Tree → Tree
rotate on_left x t = rotate_left x t
rotate on_right x t = rotate_right x t

unfoldable pub insert_fixup : ℕ → ℕ → Tree → Tree
unfolding Insert.insert_fixup
insert_fixup k z t = Insert.insert_fixup 0 1 rotate k z t

unfoldable pub tree_min : ℕ → ℕ → Tree → ℕ
unfolding descend_left
tree_min k n t = if n == 0 then 0 else descend_left k n t

unfoldable pub transplant : ℕ → ℕ → Tree → Tree
unfolding replace_child
transplant u v t = let t1 = replace_child u v t in adopt v (t1.parent u) t1

-- `p ? p->left : NULL`, and with right
abbrev pub child_or_null : Side → Tree → ℕ → ℕ
child_or_null d t p = if p == 0 then 0 else child d t p

-- `if (n) n->color = v`
abbrev pub paint : ℕ → ℕ → Tree → Tree
paint n v t = if n == 0 then t else set_color n v t

-- The body of the loop of `delete_fixup` with `x` on side `d` of `x_parent`: the next `x`, the next
-- `x_parent` and the tree. After `x = *root` the loop would end without the `break` too.
unfoldable pub delete_side : Side → ℕ → ℕ → Tree → ℕ × ℕ × Tree
delete_side d x x_parent t =
    let w0 = child_or_null (opposite d) t x_parent in
    let t1 = if is_red t w0 then rotate d x_parent (paint x_parent 0 (set_color w0 1 t)) else t in
    let w = if is_red t w0 then child_or_null (opposite d) t1 x_parent else w0 in
    let near = child_or_null d t1 w in
    let far_black = is_black t1 (child_or_null (opposite d) t1 w) in
    if is_black t1 near && far_black
    then (x_parent, (if x_parent == 0 then 0 else t1.parent x_parent), paint w 0 t1)
    else let t2 = if far_black then rotate (opposite d) w (paint w 0 (paint near 1 t1)) else t1 in
      let w2 = if far_black then child_or_null (opposite d) t2 x_parent else w in
      let t3 = paint w2 (if x_parent == 0 then 1 else t2.color x_parent) t2 in
      let t4 = paint x_parent 1 t3 in
      let t5 = paint (child_or_null (opposite d) t4 w2) 1 t4 in
      let t6 = rotate d x_parent t5 in (t6.root, x_parent, t6)

unfoldable pub delete_step : ℕ → ℕ → Tree → ℕ × ℕ × Tree
unfolding delete_side
delete_step x x_parent t =
    if x == child_or_null on_left t x_parent
    then delete_side on_left x x_parent t
    else delete_side on_right x x_parent t

unfoldable pub delete_fixup : ℕ → ℕ → ℕ → Tree → Tree
unfolding delete_step
delete_fixup zero x x_parent t = t
delete_fixup (suc k) x x_parent t =
    let next = delete_step x x_parent t in
    let rest = delete_fixup k next.0 next.1 next.2 in
    if not (x == t.root) && is_black t x then rest else paint x 1 t

-- `y`, the least node right of `z`, takes the place of `z`, which has two children.
unfoldable pub replace_by_min : ℕ → ℕ → Tree → Tree
unfolding transplant
replace_by_min z y t =
    let x = t.right y in
    let t1 =
      if t.parent y == z
      then adopt x y t
      else let a = transplant y x t in let b = set_right y (a.right z) a in adopt (b.right y) y b in
    let t2 = transplant z y t1 in
    let t3 = set_left y (t2.left z) t2 in
    let t4 = adopt (t3.left y) y t3 in set_color y (t4.color z) t4

-- `if (y_orig == RB_BLACK) delete_fixup(root, x, x_parent)`
abbrev pub rebalance : ℕ → ℕ → ℕ → ℕ → Tree → Tree
unfolding delete_fixup
rebalance k y_orig x x_parent t = if y_orig == 1 then delete_fixup k x x_parent t else t

unfoldable pub rb_delete : ℕ → ℕ → Tree → Tree
unfolding transplant replace_by_min tree_min delete_fixup
rb_delete k z t =
    let y = tree_min k (t.right z) t in
    if t.left z == 0
    then rebalance k (t.color z) (t.right z) (t.parent z) (transplant z (t.right z) t)
    else if t.right z == 0
    then rebalance k (t.color z) (t.left z) (t.parent z) (transplant z (t.left z) t)
    else rebalance k (t.color y) (t.right y) (if t.parent y == z then y else t.parent y)
        (replace_by_min z y t)
