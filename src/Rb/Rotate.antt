-- ===== src/Rb/Rotate.antt =====
-- Rotations keep the nodes in their order.
use arcline.Base.{ℕ, ◌+◌, ◌≤◌, ◌≡◌, ◌≢◌, sym, ap, ◌∙◌, arith, ◌==◌, if◌then◌else◌, not, ◌&&◌}
use arcline.Rb.{Tree, rotate_left}
use arcline.Rb.Shape.{
  Shape, node, Context, top, above, count, count_in, Links, Around, Apart, Links-move, Links-frame,
  Around-replace, top-ne, above-ne, count-top,
}

-- The links of `t'` are those of `t` once `y` has taken the place of its parent `x`, and `x` that of
-- the left child `b` of `y`; `p` is the parent of `x`.
pub record Turned (x y b p : ℕ) (t t' : Tree) : Type 0 where
  pub root : t'.root ≡ (if p == 0 then y else t.root)
  pub parent :
      (a : ℕ)
      → t'.parent a ≡ (
          if a == x
          then y
          else if a == y
          then p
          else if a == b && not (b == 0)
          then x
          else t.parent a)
  pub left :
      (a : ℕ)
      → t'.left a
        ≡ (if a == y then x else if not (p == 0) && a == p && x == t.left p then y else t.left a)
  pub right :
      (a : ℕ)
      → t'.right a ≡ (
          if not (p == 0) && a == p && not (x == t.left p)
          then y
          else if a == x
          then b
          else t.right a)

pub rotate_left-Turned :
    (x y b p : ℕ) (t : Tree)
    → t.right x ≡ y
    → t.left y ≡ b
    → t.parent x ≡ p
    → x ≢ y
    → p ≢ x
    → p ≢ y
    → b ≢ x
    → b ≢ y
    → (b ≢ 0 → b ≢ p)
    → Turned x y b p t (rotate_left x t)
unfolding rotate_left
rotate_left-Turned x y b p t ey eb ep a b' c d e f = record {
  root = ground arith;
  parent = λ n. ground arith;
  left = λ n. ground arith;
  right = λ n. ground arith;
}

-- How often an address stands in the four parts round the two nodes of a rotation.
abbrev total : (a x y : ℕ) → (o l m r : ℕ) → ℕ
total a x y o l m r = o + (l + (if a == x then 1 else 0) + (m + (if a == y then 1 else 0) + r))

at_x : (x y o l m r : ℕ) → total x x y o l m r ≤ 1 → (x ≢ y) × (o ≡ 0) × (l ≡ 0) × (m ≡ 0) × (r ≡ 0)
at_x x y o l m r h = ground arith

at_y : (x y o l m r : ℕ) → total y x y o l m r ≤ 1 → (o ≡ 0) × (l ≡ 0) × (m ≡ 0) × (r ≡ 0)
at_y x y o l m r h = ground arith

elsewhere :
    (a x y o l m r : ℕ)
    → total a x y o l m r ≤ 1
    → 1 ≤ o + l + m + r
    → (a ≢ x) × (a ≢ y) × (o + l + m + r ≤ 1)
elsewhere a x y o l m r h k = ground arith

at_null : (x y o l m r : ℕ) → total 0 x y o l m r ≡ 0 → (x ≢ 0) × (y ≢ 0) × (o + l + m + r ≡ 0)
at_null x y o l m r h = ground arith

-- A rotation at `x`: the node above it and the order of the nodes stay.
module _ (c : Context) (l : Shape) (x : ℕ) (m : Shape) (y : ℕ) (r : Shape)
    (apart : Apart c (node l x (node m y r))) where
  null : (x ≢ 0) × (y ≢ 0) × (count_in 0 c + count 0 l + count 0 m + count 0 r ≡ 0)
  null = at_null x y (count_in 0 c) (count 0 l) (count 0 m) (count 0 r) apart.real

  pub only_x : (x ≢ y) × (count_in x c ≡ 0) × (count x l ≡ 0) × (count x m ≡ 0) × (count x r ≡ 0)
  only_x = at_x x y (count_in x c) (count x l) (count x m) (count x r) (apart.once x)

  only_y : (count_in y c ≡ 0) × (count y l ≡ 0) × (count y m ≡ 0) × (count y r ≡ 0)
  only_y = at_y x y (count_in y c) (count y l) (count y m) (count y r) (apart.once y)

  -- A node in one of the four parts.
  part :
      (a : ℕ)
      → 1 ≤ count_in a c + count a l + count a m + count a r
      → (a ≢ x) × (a ≢ y) × (count_in a c + count a l + count a m + count a r ≤ 1) × (a ≢ 0)
  part a h =
      let e = elsewhere a x y (count_in a c) (count a l) (count a m) (count a r) (apart.once a) h in
      (e.0, e.1, e.2, λ z. positive a (count_in_all z) h)
    where
      count_in_all : a ≡ 0 → count_in a c + count a l + count a m + count a r ≡ 0
      count_in_all z = ap (λ n. count_in n c + count n l + count n m + count n r) z ∙ null.2

      positive :
          (n : ℕ)
          → count_in a c + count a l + count a m + count a r ≡ 0
          → 1 ≤ count_in a c + count a l + count a m + count a r
          → ⊥
      positive n z k = omega arith

  pub record Facts : Type 0 where
    pub p_x : above c ≢ x
    pub p_y : above c ≢ y
    pub b_x : top m ≢ x
    pub b_y : top m ≢ y
    pub b_p : top m ≢ 0 → top m ≢ above c

  pub facts : Facts
  facts = record {
    p_x = above-ne x c only_x.1 null.0;
    p_y = above-ne y c only_y.0 null.1;
    b_x = top-ne x m only_x.3 null.0;
    b_y = top-ne y m only_y.2 null.1;
    b_p = λ nz e.
        let k = count-top m nz in
        above-ne (top m) c (outside (part (top m) (omega (arith, k))).2 k) nz (sym e);
  }
    where
      outside :
          count_in (top m) c + count (top m) l + count (top m) m + count (top m) r ≤ 1
          → 1 ≤ count (top m) m
          → count_in (top m) c ≡ 0
      outside h k = omega arith

  -- A node of the context or of an outer part is not the top of the inner part.
  not_b : (a : ℕ) → 1 ≤ count_in a c + count a l + count a r → a ≢ top m
  not_b a h e = let q = part a (omega (arith, h)) in top-ne a m (omega (arith, h, q.2)) q.3 (sym e)

  not_p : (a : ℕ) → 1 ≤ count a l + count a m + count a r → a ≢ above c
  not_p a h e =
      let q = part a (omega (arith, h)) in above-ne a c (omega (arith, h, q.2)) q.3 (sym e)

  module _ (t t' : Tree) (w : Turned x y (top m) (above c) t t') where
    same_left : (a : ℕ) → a ≢ y → a ≢ above c → t'.left a ≡ t.left a
    same_left a e f = w.left a ∙ ground (arith, e, f)

    same_right : (a : ℕ) → a ≢ x → a ≢ above c → t'.right a ≡ t.right a
    same_right a e f = w.right a ∙ ground (arith, e, f)

    same_parent : (a : ℕ) → a ≢ x → a ≢ y → a ≢ top m → t'.parent a ≡ t.parent a
    same_parent a e f g = w.parent a ∙ ground (arith, e, f, g)

    -- What the rotation leaves alone.
    spare :
        (a : ℕ)
        → 1 ≤ count a l + count a r
        → (t'.left a ≡ t.left a) × (t'.right a ≡ t.right a) × (t'.parent a ≡ t.parent a)
    spare a h =
        let q = part a (omega (arith, h)) in
        let np : a ≢ above c = not_p a (omega (arith, h)) in
        (
          same_left a q.1 np,
          same_right a q.0 np,
          same_parent a q.0 q.1 (not_b a (omega (arith, h))),
        )

    pub Turned-Around :
        Around t.root t.left t.right t.parent x c → Around t'.root t'.left t'.right t'.parent y c
    Turned-Around k =
        Around-replace t.root t'.root t.left t.right t.parent t'.left t'.right t'.parent x y c k
          (λ a. let h = apart.once a in omega (arith, h)) (λ e. w.root ∙ ground (arith, e))
          (λ e. w.root ∙ ground (arith, e)) (omega (arith, null.2))
          (λ a h.
            let q = part a (omega (arith, h)) in
            (
              same_parent a q.0 q.1 (not_b a (omega (arith, h))),
              λ ne. (same_left a q.1 ne, same_right a q.0 ne),
            ))
          (λ nz e. (
            w.left (above c) ∙ ground (arith, nz, e, facts.p_x, facts.p_y),
            w.right (above c) ∙ ground (arith, nz, e, facts.p_x, facts.p_y),
          ))
          (λ nz e. (
            w.left (above c) ∙ ground (arith, nz, e, facts.p_x, facts.p_y),
            w.right (above c) ∙ ground (arith, nz, e, facts.p_x, facts.p_y),
          ))
          null.0 only_x.1

    pub Turned-Links :
        Links t.left t.right t.parent (above c) (node l x (node m y r))
        → Links t'.left t'.right t'.parent (above c) (node (node l x m) y r)
    Turned-Links k = (
      w.parent y ∙ ground (arith, only_x.0),
      w.left y ∙ ground arith,
      w.right y ∙ ground (arith, only_x.0, facts.p_y) ∙ k.4.2,
      (
        w.parent x ∙ ground arith,
        w.left x ∙ ground (arith, only_x.0, facts.p_x) ∙ k.1,
        w.right x ∙ ground (arith, facts.p_x),
        Links-frame t.left t.right t.parent t'.left t'.right t'.parent x l k.3
            (λ a h. spare a (omega (arith, h))),
        Links-move t.left t.right t.parent t'.left t'.right t'.parent y x m k.4.3
            (λ a. let h = apart.once a in omega (arith, h)) (omega (arith, null.2))
            (λ a h.
              let q = part a (omega (arith, h)) in
              let np = not_p a (omega (arith, h)) in
              (same_left a q.1 np, same_right a q.0 np, λ ne. same_parent a q.0 q.1 ne))
            (λ nz. w.parent (top m) ∙ ground (arith, nz, facts.b_x, facts.b_y)),
      ),
      Links-frame t.left t.right t.parent t'.left t'.right t'.parent y r k.4.4
          (λ a h. spare a (omega (arith, h))),
    )

    pub Turned-Apart : Apart c (node (node l x m) y r)
    Turned-Apart = record {
      once = λ a. let h = apart.once a in omega (arith, h);
      real = let h = apart.real in omega (arith, h);
    }
