-- ===== src/Rb/Insert/Round.antt =====
-- One round of `insert_fixup` keeps the nodes in their order, when the parent is a left child.
use arcline.Base.{
  ℕ, ◌+◌, ◌≤◌, ◌<◌, ◌≡◌, ◌≢◌, refl, sym, ap, ◌∙◌, ◌∷◌, arith, ◌==◌, if◌then◌else◌, Array, store,
  true, false, Bool-cases, inl, inr,
}
use mathlib.Core.Path.{subst}
use mathlib.Core.List.{append_assoc}
use arcline.Rb.{Tree, set_color, Side, on_left}
use arcline.Rb.Shape.{
  Shape, node, Context, in_left, in_right, top, above, plug, nodes, count, count_in, At, Links-top,
  count-top,
}
use arcline.Rb.Mirror.{Lawful}
use arcline.Rb.Zipper.{up_left, down_left, up_right, At-color, root-ne, nodes-plug}
use arcline.Rb.Insert.{is_red, straighten, fixup_side}
use arcline.Rb.Insert.Fixup.{
  Fixed, levels, straighten_done, straighten-At, straighten-root, root-At,
}

module _ (red black : ℕ) (turn : Side → ℕ → Tree → Tree) (law : Lawful turn) where
  recolored : ℕ → ℕ → ℕ → Tree → Tree
  recolored p g y t = set_color g red (set_color y black (set_color p black t))

  fixup_left_red :
      (z p g y : ℕ) (t : Tree)
      → t.parent z ≡ p
      → t.parent p ≡ g
      → t.right g ≡ y
      → is_red red t y ≡ true
      → fixup_side red black turn on_left z t ≡ (g, recolored p g y t)
  unfolding fixup_side recolored
  fixup_left_red z p g y t ep eg ey h = rw (ep, eg, ey, h) refl

  fixup_left_outer :
      (z p g y : ℕ) (t : Tree)
      → t.parent z ≡ p
      → t.parent p ≡ g
      → t.right g ≡ y
      → is_red red t y ≡ false
      → (z == t.right p) ≡ false
      → fixup_side red black turn on_left z t ≡ (z, straighten red black turn on_left z t)
  unfolding fixup_side
  fixup_left_outer z p g y t ep eg ey h k = rw (ep, eg, ey, h, k) refl

  fixup_left_inner :
      (z p g y : ℕ) (t : Tree)
      → t.parent z ≡ p
      → t.parent p ≡ g
      → t.right g ≡ y
      → is_red red t y ≡ false
      → (z == t.right p) ≡ true
      → fixup_side red black turn on_left z t
        ≡ (p, straighten red black turn on_left p (turn on_left p t))
  unfolding fixup_side
  fixup_left_inner z p g y t ep eg ey h k = rw (ep, eg, ey, h, k) refl

  -- The uncle is red: only colours change.
  recolored-Fixed :
      (distinct : red ≢ black) (c d : Context) (g p y : ℕ) (l u s : Shape) (t : Tree)
      → At t c (node l g u)
      → t.color t.root ≢ red
      → nodes (plug c (node l g u)) ≡ nodes (plug d s)
      → levels c < levels d
      → Fixed red black d s g (recolored p g y t)
  unfolding recolored
  recolored-Fixed distinct c d g p y l u s t i old e lower = record {
    ctx = c;
    sub = node l g u;
    at = At-color g red (set_color y black (set_color p black t)) c (node l g u) (
        At-color y black (set_color p black t) c (node l g u)
          (At-color p black t c (node l g u) i));
    is_top = refl;
    real = g_real;
    same = e;
    root = λ inner. color_kept t.color t.root (root-ne t c (node l g u) i inner g_real) old;
    progress = inl lower;
  }
    where
      g_real : g ≢ 0
      g_real = let h = i.apart.real in split (count_in 0 c) (count 0 l) (count 0 u) h
        where
          split : (m n o : ℕ) → m + (n + (if 0 == g then 1 else 0) + o) ≡ 0 → g ≢ 0
          split m n o h = ground arith

      color_kept :
          (col : Array ℕ) (n : ℕ)
          → n ≢ g
          → col n ≢ red
          → store (store (store col p black) y black) g red n ≢ red
      color_kept col n ne k = ground (arith, ne, k, distinct)

  straighten-Fixed :
      (distinct : red ≢ black) (t : Tree) (c : Context) (g : ℕ) (u : Shape) (p : ℕ) (r s : Shape)
      (i : At t (in_left (in_left c g u) p r) s) (real : top s ≢ 0)
      → (above c ≢ 0 → t.color t.root ≢ red)
      → Fixed red black
          (in_left (in_left c g u) p r)
          s
          (top s)
          (straighten red black turn on_left (top s) t)
  straighten-Fixed distinct t c g u p r s i real old = record {
    ctx = in_left c p (node r g u);
    sub = s;
    at = straighten-At red black turn law distinct t c g u p r s i real;
    is_top = refl;
    real = real;
    same =
        nodes-plug c (node s p (node r g u)) (node (node s p r) g u)
          (sym (append_assoc (nodes s) (p ∷ nodes r) (g ∷ nodes u)));
    root = λ x. straighten-root red black turn law distinct t c g u p r s i real old;
    progress = inr (straighten_done red black turn law distinct t c g u p r s i real);
  }

  apart_tops :
      (c : Context) (r s : Shape) (p : ℕ)
      → ((a : ℕ) → count_in a c + (count a s + (if a == p then 1 else 0) + count a r) ≤ 1)
      → top s ≢ 0
      → (top s == top r) ≡ false
  apart_tops c r s p once real = elim (Bool-cases (top s == top r)) [
    | inl e ↦ absurd (clash (same (top s) (top r) e))
    | inr e ↦ e
  ]
    where
      same : (a b : ℕ) → (a == b) ≡ true → a ≡ b
      same a b e = ground (arith, e)

      clash : top s ≡ top r → ⊥
      clash e =
          let k = count-top s real in
          let j = subst (λ n. 1 ≤ count n r) (sym e) (count-top r (λ z. real (e ∙ z))) in
          let h = once (top s) in omega (arith, k, j, h)

  -- One round with the parent a left child, and `z` on either side of it.
  pub outer-Fixed :
      (distinct : red ≢ black) (t : Tree) (c : Context) (g : ℕ) (u : Shape) (p : ℕ) (r s : Shape)
      → At t (in_left (in_left c g u) p r) s
      → top s ≢ 0
      → t.color t.root ≢ red
      → Fixed red black
          (in_left (in_left c g u) p r)
          s
          (fixup_side red black turn on_left (top s) t).0
          (fixup_side red black turn on_left (top s) t).1
  outer-Fixed distinct t c g u p r s i real old = elim (Bool-cases (is_red red t (top u))) [
    | inl e ↦
        subst (λ q. Fixed red black (in_left (in_left c g u) p r) s q.0 q.1)
          (sym (fixup_left_red (top s) p g (top u) t ep i.around.0 i.around.4.2 e))
          (recolored-Fixed distinct c (in_left (in_left c g u) p r) g p (top u) (node s p r) u s t
            (up_left t c g u (node s p r) (up_left t (in_left c g u) p r s i)) old refl
            (omega arith))
    | inr e ↦
        subst (λ q. Fixed red black (in_left (in_left c g u) p r) s q.0 q.1)
          (sym (fixup_left_outer (top s) p g (top u) t ep i.around.0 i.around.4.2 e apart))
          (straighten-Fixed distinct t c g u p r s i real (λ x. old))
  ]
    where
      ep : t.parent (top s) ≡ p
      ep = Links-top t.left t.right t.parent p s i.links real

      apart : (top s == t.right p) ≡ false
      apart =
          ap (λ n. top s == n) i.around.2
          ∙ apart_tops (in_left c g u) r s p (λ a. let h = i.apart.once a in omega (arith, h)) real

  pub inner-Fixed :
      (distinct : red ≢ black) (t : Tree) (c : Context) (g : ℕ) (u : Shape) (p : ℕ) (r a : Shape)
      (z : ℕ) (b : Shape)
      → At t (in_right r p (in_left c g u)) (node a z b)
      → t.color t.root ≢ red
      → Fixed red black
          (in_right r p (in_left c g u))
          (node a z b)
          (fixup_side red black turn on_left z t).0
          (fixup_side red black turn on_left z t).1
  inner-Fixed distinct t c g u p r a z b i old = elim (Bool-cases (is_red red t (top u))) [
    | inl e ↦
        subst (λ q. Fixed red black (in_right r p (in_left c g u)) (node a z b) q.0 q.1)
          (sym (fixup_left_red z p g (top u) t i.links.0 i.around.0 i.around.4.2 e))
          (recolored-Fixed distinct c (in_right r p (in_left c g u)) g p (top u)
            (node r p (node a z b)) u (node a z b) t (up_left t c g u (node r p (node a z b)) up)
            old refl (omega arith))
    | inr e ↦
        subst (λ q. Fixed red black (in_right r p (in_left c g u)) (node a z b) q.0 q.1)
          (sym (
            fixup_left_inner z p g (top u) t i.links.0 i.around.0 i.around.4.2 e
              (same z (t.right p) i.around.2)))
          (moved (
            straighten-Fixed distinct (turn on_left p t) c g u z b (node r p a) turned p_real
              black_root))
  ]
    where
      up : At t (in_left c g u) (node r p (node a z b))
      up = up_right t (in_left c g u) r p (node a z b) i

      same : (z y : ℕ) → y ≡ z → (z == y) ≡ true
      same z y e = ground (arith, e)

      turned : At (turn on_left p t) (in_left (in_left c g u) z b) (node r p a)
      turned =
          down_left (turn on_left p t) (in_left c g u) z b (node r p a)
            (law.left_at (in_left c g u) r p a z b t up)

      p_real : p ≢ 0
      p_real e =
          let h =
            subst (λ n. count_in n (in_right r p (in_left c g u)) + count n (node a z b) ≡ 0)
              (sym e) i.apart.real in
          split p (count p r) (count_in p (in_left c g u)) (count p (node a z b)) h
        where
          split : (p m n o : ℕ) → m + (if p == p then 1 else 0) + n + o ≡ 0 → ⊥
          split p m n o h = ground (arith, h)

      root_same : (turn on_left p t).root ≡ t.root
      root_same =
          root-At (turn on_left p t) (in_left (in_left c g u) z b) (node r p a) turned
          ∙ sym (root-At t (in_right r p (in_left c g u)) (node a z b) i)

      black_root : above c ≢ 0 → (turn on_left p t).color (turn on_left p t).root ≢ red
      black_root inner e = old (
          ap t.color (sym root_same)
          ∙ ap (λ f. f (turn on_left p t).root) (sym (law.colors on_left p t))
          ∙ e)

      moved :
          {z' : ℕ} {t' : Tree}
          → Fixed red black (in_left (in_left c g u) z b) (node r p a) z' t'
          → Fixed red black (in_right r p (in_left c g u)) (node a z b) z' t'
      moved f = record {
        ctx = f.ctx;
        sub = f.sub;
        at = f.at;
        is_top = f.is_top;
        real = f.real;
        root = f.root;
        progress = f.progress;
        same =
            f.same
            ∙ nodes-plug (in_left c g u) (node (node r p a) z b) (node r p (node a z b))
                (append_assoc (nodes r) (p ∷ nodes a) (z ∷ nodes b));
      }
