-- ===== src/Rb/Insert/Fixup.antt =====
-- `insert_fixup` keeps the nodes in their order.
use arcline.Base.{
  ℕ, suc, ◌+◌, ◌≤◌, ◌<◌, ◌≡◌, ◌≢◌, refl, sym, ap, ◌∙◌, arith, ◌==◌, if◌then◌else◌, Array, store,
  ◌⊎◌, inl, inr, false, not, ◌&&◌,
}
use mathlib.Core.Path.{subst}
use arcline.Rb.{Tree, set_color, Side, on_left, on_right}
use arcline.Rb.Shape.{
  Shape, node, Context, whole, in_left, in_right, top, above, plug, nodes, count, count_in, At,
  Links-top,
}
use arcline.Rb.Mirror.{Lawful}
use arcline.Rb.Zipper.{
  up_left, down_left, At-color, outermost, Around-outermost, outermost-cases, above-real,
}
use arcline.Rb.Insert.{is_red, straighten}

pub root-At : (t : Tree) (c : Context) (s : Shape) → At t c s → t.root ≡ outermost c (top s)
root-At t c s i = Around-outermost t.root t.left t.right t.parent (top s) c i.around

-- How many nodes stand above a hole.
abbrev pub levels : Context → ℕ
levels whole = 0
levels (in_left c a r) = suc (levels c)
levels (in_right l a c) = suc (levels c)

module _ (red black : ℕ) where
  -- The tree holds the same nodes in the same order, and we look at `z'`.
  pub record Fixed (c : Context) (s : Shape) (z' : ℕ) (t' : Tree) : Type 0 where
    pub ctx : Context
    pub sub : Shape
    pub at : At t' ctx sub
    pub is_top : top sub ≡ z'
    pub real : z' ≢ 0
    pub same : nodes (plug ctx sub) ≡ nodes (plug c s)
    pub root : above ctx ≢ 0 → t'.color t'.root ≢ red
    pub progress : (levels ctx < levels c) ⊎ (is_red red t' (t'.parent z') ≡ false)

  module _ (turn : Side → ℕ → Tree → Tree) (law : Lawful turn) (distinct : red ≢ black) (t : Tree)
      (c : Context) (g : ℕ) (u : Shape) (p : ℕ) (r s : Shape)
      (i : At t (in_left (in_left c g u) p r) s) (real : top s ≢ 0) where
    colored : Tree
    colored = set_color g red (set_color p black t)

    straighten_lem : straighten red black turn on_left (top s) t ≡ turn on_right g colored
    unfolding straighten colored
    straighten_lem = rw (Links-top t.left t.right t.parent p s i.links real, i.around.0) refl

    colored-At : At colored c (node (node s p r) g u)
    unfolding colored
    colored-At = At-color g red (set_color p black t) c (node (node s p r) g u) (
        At-color p black t c (node (node s p r) g u)
          (up_left t c g u (node s p r) (up_left t (in_left c g u) p r s i)))

    turned-At : At (turn on_right g colored) c (node s p (node r g u))
    turned-At = law.right_at c s p r g u colored colored-At

    p_g : (p ≢ g) × (count_in g c ≡ 0)
    p_g = let h = i.apart.once g in split p g (count_in g c) (count g u) (count g r) (count g s) h
      where
        split :
            (p g m n o q : ℕ)
            → m + (if g == g then 1 else 0) + n + (if g == p then 1 else 0) + o + q ≤ 1
            → (p ≢ g) × (m ≡ 0)
        split p g m n o q h = ground arith

    pub straighten-At :
        At (straighten red black turn on_left (top s) t) (in_left c p (node r g u)) s
    straighten-At =
        subst (λ x. At x (in_left c p (node r g u)) s) (sym straighten_lem)
          (down_left (turn on_right g colored) c p (node r g u) s turned-At)

    -- The root is black if it was, since `p` is black and `g` is not the root.
    pub straighten-root :
        (above c ≢ 0 → t.color t.root ≢ red)
        → (straighten red black turn on_left (top s) t).color
            (straighten red black turn on_left (top s) t).root
          ≢ red
    unfolding colored
    straighten-root old =
        subst (λ x. x.color x.root ≢ red) (sym straighten_lem)
          (elim (outermost-cases c p g) [
            | inl h ↦ λ e. at_p (root' ∙ h.1) (
                sym (ap (λ f. f (turn on_right g colored).root) (law.colors on_right g colored))
                ∙ e)
            | inr h ↦ λ e. kept (root' ∙ h.0) h.1 (
                sym (ap (λ f. f (turn on_right g colored).root) (law.colors on_right g colored))
                ∙ e)
          ])
      where
        root' : (turn on_right g colored).root ≡ outermost c p
        root' = root-At (turn on_right g colored) c (node s p (node r g u)) turned-At

        at_p :
            (turn on_right g colored).root ≡ p → colored.color (turn on_right g colored).root ≢ red
        at_p e = color_black t.color (turn on_right g colored).root e
          where
            color_black : (col : Array ℕ) (n : ℕ) → n ≡ p → store (store col p black) g red n ≢ red
            color_black col n e = ground (arith, e, p_g.0, distinct)

        kept :
            (turn on_right g colored).root ≡ outermost c g
            → 1 ≤ count_in (outermost c p) c
            → colored.color (turn on_right g colored).root ≢ red
        kept e h = color_kept t.color (turn on_right g colored).root not_g (
            subst (λ n. t.color n ≢ red) (root-At t (in_left (in_left c g u) p r) s i ∙ sym e)
              (old (above-real c (outermost c p) c_real h)))
          where
            c_real : count_in 0 c ≡ 0
            c_real = let h = i.apart.real in omega (arith, h)

            not_g : (turn on_right g colored).root ≢ g
            not_g q =
                let k = subst (λ n. 1 ≤ count_in n c) (sym root' ∙ q) h in omega (arith, k, p_g.1)

            color_kept :
                (col : Array ℕ) (n : ℕ)
                → n ≢ g
                → col n ≢ red
                → store (store col p black) g red n ≢ red
            color_kept col n e k = ground (arith, e, k, distinct)

    -- The next test of the loop fails.
    pub straighten_done :
        is_red red
          (straighten red black turn on_left (top s) t)
          ((straighten red black turn on_left (top s) t).parent (top s))
        ≡ false
    unfolding colored
    straighten_done =
        subst (λ x. is_red red x (x.parent (top s)) ≡ false) (sym straighten_lem)
          (subst (λ n. is_red red (turn on_right g colored) n ≡ false)
            (sym (
              Links-top (turn on_right g colored).left (turn on_right g colored).right
                (turn on_right g colored).parent p s
                (down_left (turn on_right g colored) c p (node r g u) s turned-At).links real))
            (subst (λ f. not (p == 0) && f p == red ≡ false) (sym (law.colors on_right g colored))
              (ground (arith, p_g.0, distinct))))
