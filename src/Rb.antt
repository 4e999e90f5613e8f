-- ===== src/Rb.antt =====
-- The links of the red-black trees of mm/vmm.c and kernel/sched/eevdf.c, and the rotations of the
-- latter; that of mm/vmm.c to the right differs in the order of its tests. A node is named by its place in the pool plus one, 0 is NULL. The
-- identity map of the kernel covers address 0, so a read or write through NULL is one of a node 0.
pub mod Shape
pub mod Rotate
pub mod Mirror
pub mod Zipper
pub mod Insert
use arcline.Base.{ℕ, zero, suc, ◌==◌, if◌then◌else◌, Array, store}

pub record Tree : Type 0 where
  pub root : ℕ
  pub left : Array ℕ
  pub right : Array ℕ
  pub parent : Array ℕ
  pub color : Array ℕ

abbrev pub set_root : ℕ → Tree → Tree
set_root v t = record t { root = v }

abbrev pub set_left : ℕ → ℕ → Tree → Tree
set_left p v t = record t { left = store t.left p v }

abbrev pub set_right : ℕ → ℕ → Tree → Tree
set_right p v t = record t { right = store t.right p v }

abbrev pub set_parent : ℕ → ℕ → Tree → Tree
set_parent p v t = record t { parent = store t.parent p v }

abbrev pub set_color : ℕ → ℕ → Tree → Tree
set_color p v t = record t { color = store t.color p v }

-- `if (p) p->parent = v`
abbrev pub adopt : ℕ → ℕ → Tree → Tree
adopt p v t = if p == 0 then t else set_parent p v t

-- `if (!u->parent) *root = v; else if (u == u->parent->left) u->parent->left = v;
-- else u->parent->right = v`
unfoldable pub replace_child : ℕ → ℕ → Tree → Tree
replace_child u v t =
    let p = t.parent u in
    if p == 0 then set_root v t else if u == t.left p then set_left p v t else set_right p v t

unfoldable pub rotate_left : ℕ → Tree → Tree
unfolding replace_child
rotate_left x t =
    let y = t.right x in
    let t1 = set_right x (t.left y) t in
    let t2 = adopt (t1.left y) x t1 in
    let t3 = set_parent y (t2.parent x) t2 in
    let t4 = replace_child x y t3 in set_parent x y (set_left y x t4)

unfoldable pub rotate_right : ℕ → Tree → Tree
unfolding replace_child
rotate_right y t =
    let x = t.left y in
    let t1 = set_left y (t.right x) t in
    let t2 = adopt (t1.right x) y t1 in
    let t3 = set_parent x (t2.parent y) t2 in
    let p = t3.parent y in
    let t4 =
      if p == 0
      then set_root x t3
      else if y == t3.right p
      then set_right p x t3
      else set_left p x t3 in
    set_parent y x (set_right x y t4)

-- The side on which a fixup works; the sources write each case twice, with left and right exchanged.
pub data Side : Type 0 where
  on_left on_right : Side

abbrev pub opposite : Side → Side
opposite on_left = on_right
opposite on_right = on_left

abbrev pub child : Side → Tree → ℕ → ℕ
child on_left t p = t.left p
child on_right t p = t.right p

abbrev pub rotate : Side → ℕ → Tree → Tree
rotate on_left x t = rotate_left x t
rotate on_right x t = rotate_right x t

-- `while (root->left) root = root->left`, with the rounds left.
unfoldable pub descend_left : ℕ → ℕ → Tree → ℕ
descend_left zero p t = p
descend_left (suc k) p t =
    let rest = descend_left k (t.left p) t in if t.left p == 0 then p else rest
