-- ===== src/Vmm/Rotate.antt =====
-- The `rotate_right` of mm/vmm.c tests the other child of the parent first than that of
-- kernel/sched/eevdf.c.
use arcline.Base.{ℕ, ◌+◌, ◌≤◌, ◌≡◌, ◌≢◌, refl, sym, ◌∙◌, arith, ◌==◌, if◌then◌else◌, ◌⊎◌, inl, inr}
use mathlib.Core.Path.{subst}
use arcline.Rb.{Tree, replace_child, Side, on_left, on_right, rotate_left}
use arcline.Rb as Rb
use arcline.Rb.Shape.{
  Shape, node, Context, whole, in_left, in_right, top, above, count, count_in, At, top-ne,
}
use arcline.Rb.Mirror.{
  mirror, mirror_in, top-mirror, above-mirror_in, At-flip, color-rotate_left, rotate_left-At,
  rotate_right-At, Lawful,
}
use arcline.Rb.Rotate.{facts, only_x}
use arcline.Vmm.Links.{rotate_right, rotate}

-- `y` is one of the two children of its parent, if it has one.
OneChild : ℕ → ℕ → Tree → Type 0
OneChild y p t = (p ≡ 0) ⊎ (((t.left p ≡ y) × (t.right p ≢ y)) ⊎ ((t.left p ≢ y) × (t.right p ≡ y)))

agree :
    (y x b p : ℕ) (t : Tree)
    → t.left y ≡ x
    → t.right x ≡ b
    → t.parent y ≡ p
    → y ≢ x
    → b ≢ y
    → p ≢ y
    → OneChild y p t
    → Rb.rotate_right y t ≡ rotate_right y t
unfolding Rb.rotate_right rotate_right replace_child OneChild
agree y x b p t ex eb ep yx by py (inl e) = ground arith
agree y x b p t ex eb ep yx by py (inr (inl (l, r))) = ground arith
agree y x b p t ex eb ep yx by py (inr (inr (l, r))) = ground arith

y_real : (c : Context) (l : Shape) (y : ℕ) (r : Shape) (t : Tree) → At t c (node l y r) → y ≢ 0
y_real c l y r t i = let h = i.apart.real in at (count_in 0 c) (count 0 l) (count 0 r) h
  where
    at : (m n o : ℕ) → m + (n + (if 0 == y then 1 else 0) + o) ≡ 0 → y ≢ 0
    at m n o h = ground (arith, h)

one_child :
    (c : Context) (l : Shape) (y : ℕ) (r : Shape) (t : Tree)
    → At t c (node l y r)
    → OneChild y (above c) t
unfolding OneChild
one_child whole l y r t i = inl refl
one_child (in_left c a o) l y r t i = inr (
    inl (
      i.around.1,
      λ e.
          top-ne y o
            (split (count_in y c) (count y o) (count y l) (count y r) (if y == a then 1 else 0)
              (i.apart.once y))
            (y_real (in_left c a o) l y r t i) (sym i.around.2 ∙ e),
    ))
  where
    split : (m n k j b : ℕ) → m + b + n + (k + (if y == y then 1 else 0) + j) ≤ 1 → n ≡ 0
    split m n k j b h = ground (arith, h)
one_child (in_right o a c) l y r t i = inr (
    inr (
      λ e.
          top-ne y o
            (split (count_in y c) (count y o) (count y l) (count y r) (if y == a then 1 else 0)
              (i.apart.once y))
            (y_real (in_right o a c) l y r t i) (sym i.around.1 ∙ e),
      i.around.2,
    ))
  where
    split : (m n k j b : ℕ) → n + b + m + (k + (if y == y then 1 else 0) + j) ≤ 1 → n ≡ 0
    split m n k j b h = ground (arith, h)

rotate_right-agree :
    (c : Context) (l : Shape) (x : ℕ) (m : Shape) (y : ℕ) (r : Shape) (t : Tree)
    → At t c (node (node l x m) y r)
    → Rb.rotate_right y t ≡ rotate_right y t
rotate_right-agree c l x m y r t i =
    let j = At-flip t c (node (node l x m) y r) i in
    let f = facts (mirror_in c) (mirror r) y (mirror m) x (mirror l) j.apart in
    agree y x (top m) (above c) t i.links.1 i.links.3.2 i.links.0
      (only_x (mirror_in c) (mirror r) y (mirror m) x (mirror l) j.apart).0
      (λ e. f.b_x (top-mirror m ∙ e)) (λ e. f.p_x (above-mirror_in c ∙ e))
      (one_child c (node l x m) y r t i)

color-rotate_right : (x : ℕ) (t : Tree) → (rotate_right x t).color ≡ t.color
unfolding rotate_right
color-rotate_right x t = ground arith

-- The rotations of mm/vmm.c do what an insertion needs.
pub rotate-Lawful : Lawful rotate
rotate-Lawful = record {
  left_at = rotate_left-At;
  right_at = λ c l x m y r t i.
      subst (λ u. At u c (node l x (node m y r))) (rotate_right-agree c l x m y r t i)
        (rotate_right-At c l x m y r t i);
  colors = both;
}
  where
    both : (d : Side) (x : ℕ) (t : Tree) → (rotate d x t).color ≡ t.color
    both on_left x t = color-rotate_left x t
    both on_right x t = color-rotate_right x t
