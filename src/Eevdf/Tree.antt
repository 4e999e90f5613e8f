-- ===== src/Eevdf/Tree.antt =====
-- The red-black tree of kernel/sched/eevdf.c, where red is 1 and black is 0. Each loop is given the
-- number of rounds that it may take.
use arcline.Base.{ℕ, zero, suc, Bool, not, ◌&&◌, ◌||◌, ◌==◌, if◌then◌else◌}
use arcline.Rb.{
  Tree, set_left, set_right, set_parent, set_color, adopt, replace_child, Side, on_left, on_right,
  opposite, child, rotate, descend_left,
}
use arcline.Rb.Insert

-- `n && n->color == 1`, and `!n || n->color == 0`
abbrev pub red : Tree → ℕ → Bool
red t n = not (n == 0) && t.color n == 1

abbrev pub black : Tree → ℕ → Bool
black t n = n == 0 || t.color n == 0

pub insert_fixup : ℕ → ℕ → Tree → Tree
unfolding Insert.insert_fixup
insert_fixup k z t = Insert.insert_fixup 1 0 rotate k z t

-- `rb_first` of a node that is not NULL.
pub rb_first : ℕ → ℕ → Tree → ℕ
unfolding descend_left
rb_first k n t = if n == 0 then 0 else descend_left k n t

-- The body of the loop of `delete_fixup` with `x` on side `d` of `parent`: the next `x`, the next
-- `parent` and the tree.
pub delete_side : Side → ℕ → ℕ → Tree → ℕ × ℕ × Tree
delete_side d x parent t =
    let w0 = child (opposite d) t parent in
    let t1 = if red t w0 then rotate d parent (set_color parent 1 (set_color w0 0 t)) else t in
    let w = child (opposite d) t1 parent in
    if not (w == 0) && (black t1 (child d t1 w) && black t1 (child (opposite d) t1 w))
    then (parent, t1.parent parent, set_color w 1 t1)
    else let far_black = not (w == 0) && black t1 (child (opposite d) t1 w) in
      let near = child d t1 w in
      let t2 = if near == 0 then t1 else set_color near 0 t1 in
      let t3 = if far_black then rotate (opposite d) w (set_color w 1 t2) else t1 in
      let w3 = if far_black then child (opposite d) t3 parent else w in
      let t4 = set_color parent 0 (set_color w3 (t3.color parent) t3) in
      let far = child (opposite d) t4 w3 in
      let t5 = if far == 0 then t4 else set_color far 0 t4 in
      let t6 = rotate d parent (if w3 == 0 then t3 else t5) in (t6.root, parent, t6)

pub delete_step : ℕ → ℕ → Tree → ℕ × ℕ × Tree
unfolding delete_side
delete_step x parent t =
    if x == t.left parent then delete_side on_left x parent t else delete_side on_right x parent t

pub delete_fixup : ℕ → ℕ → ℕ → Tree → Tree
unfolding delete_step
delete_fixup zero x parent t = t
delete_fixup (suc k) x parent t =
    let next = delete_step x parent t in
    let rest = delete_fixup k next.0 next.1 next.2 in
    if not (x == t.root) && black t x then rest else if x == 0 then t else set_color x 0 t

-- The part of `eevdf_enqueue` that works on the tree: whether the node is the new leftmost one, and
-- the tree. `key` gives the virtual runtime of a node's task.
unfoldable pub insert_node : (ℕ → ℕ) → ℕ → ℕ → ℕ → Tree → Bool × Tree
unfolding Insert.link_node insert_fixup
insert_node key v k n t =
    let linked = Insert.link_node 1 key v k n t in (linked.0, insert_fixup k n linked.1)

-- `while (parent && current == parent->right) { current = parent; parent = parent->parent; }`
pub climb : ℕ → ℕ → ℕ → Tree → ℕ
climb zero current parent t = parent
climb (suc k) current parent t =
    let rest = climb k parent (t.parent parent) t in
    if not (parent == 0) && current == t.right parent then rest else parent

-- The leftmost node once `node`, which is leftmost, is gone.
unfoldable pub next_leftmost : ℕ → ℕ → Tree → ℕ
unfolding rb_first climb
next_leftmost k node t =
    if not (t.right node == 0) then rb_first k (t.right node) t else climb k node (t.parent node) t

-- `eevdf_dequeue` puts the next node `y` in the place of a node with two children.
pub splice : ℕ → ℕ → Tree → Tree
splice node y t =
    let t1 =
      if t.parent y == node
      then t
      else let a = adopt (t.right y) (t.parent y) t in
        let b = set_left (a.parent y) (a.right y) a in
        let c = set_right y (b.right node) b in set_parent (c.right y) y c in
    let t2 = replace_child node y t1 in
    let t3 = set_color y (t2.color node) (set_parent y (t2.parent node) t2) in
    let t4 = set_left y (t3.left node) t3 in set_parent (t4.left y) y t4

-- `if (y_color == 0) delete_fixup(&runqueue.root, x, x_parent)`
pub rebalance : ℕ → ℕ → ℕ → ℕ → Tree → Tree
unfolding delete_fixup
rebalance k y_color x x_parent t = if y_color == 0 then delete_fixup k x x_parent t else t

-- The part of `eevdf_dequeue` that works on the tree.
unfoldable pub remove_node : ℕ → ℕ → Tree → Tree
unfolding splice rebalance
remove_node k node t =
    let l = t.left node in
    let r = t.right node in
    if l == 0
    then rebalance k (t.color node) r (t.parent node)
        (adopt r (t.parent node) (replace_child node r t))
    else if r == 0
    then rebalance k (t.color node) l (t.parent node)
        (set_parent l (t.parent node) (replace_child node l t))
    else let y = descend_left k r t in
      rebalance k (t.color y) (t.right y) (if t.parent y == node then y else t.parent y)
        (splice node y t)
