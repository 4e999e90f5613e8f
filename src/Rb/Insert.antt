-- ===== src/Rb/Insert.antt =====
-- Insertion in a red-black tree, for both files: `red` and `black` are the numbers of the colours,
-- `rotate` the rotations of the file.
-- Each loop is given the number of rounds that it may take.
pub mod Fixup
pub mod Round
pub mod Turn
pub mod Loop
pub mod Link
pub mod Attach
pub mod Order
pub mod Sorted
pub mod Whole
use arcline.Base.{ℕ, zero, suc, Bool, true, false, not, ◌&&◌, ltb, ◌==◌, if◌then◌else◌}
use arcline.Rb.{
  Tree, set_root, set_left, set_right, set_parent, set_color, Side, on_left, on_right, opposite,
  child,
}

-- `n && n->color == RED`
abbrev pub is_red : ℕ → Tree → ℕ → Bool
is_red red t n = not (n == 0) && t.color n == red

module _ (red black : ℕ) (rotate : Side → ℕ → Tree → Tree) where
  -- The colours and the rotation at the grandparent.
  pub straighten : Side → ℕ → Tree → Tree
  straighten d z t =
      let t2 = set_color (t.parent z) black t in
      let t3 = set_color (t2.parent (t2.parent z)) red t2 in
      rotate (opposite d) (t3.parent (t3.parent z)) t3

  -- The body of the loop of `insert_fixup`, where the parent of `z` is the child of its own parent on
  -- side `d`. The result is the next `z`.
  pub fixup_side : Side → ℕ → Tree → ℕ × Tree
  fixup_side d z t =
      let p = t.parent z in
      let g = t.parent p in
      let y = child (opposite d) t g in
      if is_red red t y
      then (g, set_color g red (set_color y black (set_color p black t)))
      else if z == child (opposite d) t p
      then (p, straighten d p (rotate d p t))
      else (z, straighten d z t)

  pub fixup_step : ℕ → Tree → ℕ × Tree
  fixup_step z t =
      if t.parent z == t.left (t.parent (t.parent z))
      then fixup_side on_left z t
      else fixup_side on_right z t

  unfoldable pub insert_fixup : ℕ → ℕ → Tree → Tree
  unfolding fixup_step fixup_side straighten
  insert_fixup zero z t = t
  insert_fixup (suc k) z t =
      let rest = insert_fixup k (fixup_step z t).0 (fixup_step z t).1 in
      if is_red red t (t.parent z) then rest else set_color t.root black t

-- The descent: `*link`, the node and side whose child it is, and whether every turn was to the
-- left. `key` gives what the nodes are ordered by.
unfoldable pub descend : (ℕ → ℕ) → ℕ → ℕ → ℕ → ℕ → Side → Bool → Tree → ℕ × Side × Bool
descend key v zero link parent side leftmost t = (parent, side, leftmost)
descend key v (suc k) link parent side leftmost t =
    let below = ltb v (key link) in
    let next = if below then t.left link else t.right link in
    let turn = if below then on_left else on_right in
    let rest = descend key v k next link turn (if below then leftmost else false) t in
    if link == 0 then (parent, side, leftmost) else rest

-- `*link = node`
unfoldable pub set_link : ℕ → Side → ℕ → Tree → Tree
set_link zero side n t = set_root n t
set_link (suc p) on_left n t = set_left (suc p) n t
set_link (suc p) on_right n t = set_right (suc p) n t

-- A node of key `v` is linked as a red leaf: whether it is the new leftmost one, and the tree.
unfoldable pub link_node : ℕ → (ℕ → ℕ) → ℕ → ℕ → ℕ → Tree → Bool × Tree
unfolding descend set_link
link_node red key v k n t =
    let fresh = set_color n red (set_parent n 0 (set_right n 0 (set_left n 0 t))) in
    let (parent, side, leftmost) = descend key v k fresh.root 0 on_left true fresh in
    (leftmost, set_link parent side n (set_parent n parent fresh))
