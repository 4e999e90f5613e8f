-- ===== src/Rb/Insert/Loop.antt =====
-- The loop of `insert_fixup` keeps the nodes in their order.
use arcline.Base.{
  ℕ, zero, suc, ◌≤◌, ◌<◌, ◌≡◌, ◌≢◌, refl, sym, ◌∙◌, List, arith, false, Bool-cases, inl, inr,
}
use mathlib.Core.Path.{subst}
use arcline.Rb.{Tree, set_color, Side}
use arcline.Rb.Shape.{Shape, node, Context, whole, in_left, in_right, top, above, plug, nodes, At}
use arcline.Rb.Mirror.{Lawful}
use arcline.Rb.Zipper.{up_left, up_right, At-color}
use arcline.Rb.Insert.{is_red, fixup_step, insert_fixup}
use arcline.Rb.Insert.Fixup.{Fixed, levels}
use arcline.Rb.Insert.Turn.{round}

-- The tree holds these nodes in this order, each once.
pub record HasNodes (xs : List ℕ) (t : Tree) : Type 0 where
  pub shape : Shape
  pub at : At t whole shape
  pub same : nodes shape ≡ xs

pub assemble : (t : Tree) (c : Context) (s : Shape) → At t c s → HasNodes (nodes (plug c s)) t
assemble t whole s i = record { shape = s; at = i; same = refl }
assemble t (in_left c a r) s i = assemble t c (node s a r) (up_left t c a r s i)
assemble t (in_right l a c) s i = assemble t c (node l a s) (up_right t c l a s i)

module _ (red black : ℕ) (turn : Side → ℕ → Tree → Tree) (law : Lawful turn) where
  pub insert_fixup-HasNodes :
      (distinct : red ≢ black) (k : ℕ) (t : Tree) (c : Context) (s : Shape)
      → At t c s
      → top s ≢ 0
      → (above c ≢ 0 → t.color t.root ≢ red)
      → HasNodes (nodes (plug c s)) (insert_fixup red black turn k (top s) t)
  unfolding insert_fixup
  insert_fixup-HasNodes distinct zero t c s i real old = assemble t c s i
  insert_fixup-HasNodes distinct (suc k) t c s i real old =
      elim (Bool-cases (is_red red t (t.parent (top s)))) [
        | inl e ↦
            let f = (round red black turn law distinct t c s i real old e).1 in
            rw e (
              ending f (
                insert_fixup-HasNodes distinct k (fixup_step red black turn (top s) t).1 f.ctx f.sub
                  f.at (λ y. f.real (sym f.is_top ∙ y)) f.root))
        | inr e ↦ rw e (assemble (set_color t.root black t) c s (At-color t.root black t c s i))
      ]
    where
      ending :
          (f : Fixed red black c s
            (fixup_step red black turn (top s) t).0
            (fixup_step red black turn (top s) t).1)
          → HasNodes
              (nodes (plug f.ctx f.sub))
              (insert_fixup red black turn k (top f.sub) (fixup_step red black turn (top s) t).1)
          → HasNodes (nodes (plug c s)) (
              insert_fixup red black turn k
                (fixup_step red black turn (top s) t).0
                (fixup_step red black turn (top s) t).1)
      ending f h =
          subst
            (λ n.
              HasNodes (nodes (plug c s))
                (insert_fixup red black turn k n (fixup_step red black turn (top s) t).1))
            f.is_top (record { shape = h.shape; at = h.at; same = h.same ∙ f.same })

  insert_fixup_end :
      (k z : ℕ) (t : Tree)
      → 1 ≤ k
      → is_red red t (t.parent z) ≡ false
      → insert_fixup red black turn k z t ≡ set_color t.root black t
  unfolding insert_fixup
  insert_fixup_end zero z t h e = absurd (omega (arith, h))
  insert_fixup_end (suc k) z t h e = rw e refl

  painted : (t : Tree) → (set_color t.root black t).color (set_color t.root black t).root ≡ black
  painted t = ground arith

  inside : (c : Context) → above c ≢ 0 → 1 ≤ levels c
  inside whole h = absurd (h refl)
  inside (in_left c a r) h = omega arith
  inside (in_right l a c) h = omega arith

  -- As many rounds as nodes above are enough: the loop ends by itself and paints the root.
  pub insert_fixup-root :
      (distinct : red ≢ black) (k : ℕ) (t : Tree) (c : Context) (s : Shape)
      → At t c s
      → top s ≢ 0
      → (above c ≢ 0 → t.color t.root ≢ red)
      → levels c < k
      → (insert_fixup red black turn k (top s) t).color
          (insert_fixup red black turn k (top s) t).root
        ≡ black
  unfolding insert_fixup
  insert_fixup-root distinct zero t c s i real old fuel = absurd (omega (arith, fuel))
  insert_fixup-root distinct (suc k) t c s i real old fuel =
      elim (Bool-cases (is_red red t (t.parent (top s)))) [
        | inl e ↦
            let w = round red black turn law distinct t c s i real old e in
            let f = w.1 in
            let z' = (fixup_step red black turn (top s) t).0 in
            let t' = (fixup_step red black turn (top s) t).1 in
            rw e (elim f.progress [
              | inl h ↦
                  subst
                    (λ n.
                      (insert_fixup red black turn k n t').color
                        (insert_fixup red black turn k n t').root
                      ≡ black)
                    f.is_top
                    (insert_fixup-root distinct k t' f.ctx f.sub f.at
                      (λ y. f.real (sym f.is_top ∙ y)) f.root (omega (arith, h, fuel)))
              | inr d ↦
                  subst (λ u. u.color u.root ≡ black)
                    (sym
                      (insert_fixup_end k z' t' (let g = inside c w.0 in omega (arith, g, fuel)) d))
                    (painted t')
            ])
        | inr e ↦ rw e (painted t)
      ]
