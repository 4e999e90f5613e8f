-- ===== src/Rb/Insert/Turn.antt =====
-- One round of `insert_fixup` keeps the nodes in their order, with the parent on either side.
use arcline.Base.{
  ℕ, suc, ◌+◌, ◌≤◌, ◌≡◌, ◌≢◌, refl, sym, ap, ap₂, ◌∙◌, [], ◌∷◌, ◌++◌, arith, ◌==◌, if◌then◌else◌,
  true, false, Bool-cases, inl, inr,
}
use mathlib.Core.Path.{subst}
use mathlib.Core.List.{append_assoc, reverse, reverse-cons, reverse-append, reverse-reverse}
use arcline.Rb.{Tree, Side, on_left, on_right}
use arcline.Rb.Shape.{
  Shape, leaf, node, Context, whole, in_left, in_right, top, above, plug, nodes, count, count_in,
  At, Links-top, ne-top,
}
use arcline.Rb.Mirror.{
  Lawful, mirrored, mirrored-Lawful, flip, mirror, mirror_in, top-mirror, above-mirror_in, At-flip,
}
use arcline.Rb.Insert.{is_red, straighten, fixup_side, fixup_step}
use arcline.Rb.Insert.Fixup.{Fixed, levels}
use arcline.Rb.Insert.Round.{outer-Fixed, inner-Fixed}

nodes-mirror : (s : Shape) → nodes (mirror s) ≡ reverse (nodes s)
nodes-mirror leaf = refl
nodes-mirror (node l a r) =
    ap₂ (λ xs ys. xs ++ (a ∷ ys)) (nodes-mirror r) (nodes-mirror l)
    ∙ sym (append_assoc (reverse (nodes r)) (a ∷ []) (reverse (nodes l)))
    ∙ ap (λ xs. xs ++ reverse (nodes l)) (sym (reverse-cons a (nodes r)))
    ∙ sym (reverse-append (nodes l) (a ∷ nodes r))

plug-mirror_in : (c : Context) (s : Shape) → plug (mirror_in c) (mirror s) ≡ mirror (plug c s)
plug-mirror_in whole s = refl
plug-mirror_in (in_left c a r) s = plug-mirror_in c (node s a r)
plug-mirror_in (in_right l a c) s = plug-mirror_in c (node l a s)

nodes-plug-mirror :
    (c : Context) (s : Shape) → nodes (plug (mirror_in c) (mirror s)) ≡ reverse (nodes (plug c s))
nodes-plug-mirror c s = ap nodes (plug-mirror_in c s) ∙ nodes-mirror (plug c s)

levels-mirror_in : (c : Context) → levels (mirror_in c) ≡ levels c
levels-mirror_in whole = refl
levels-mirror_in (in_left c a r) = ap suc (levels-mirror_in c)
levels-mirror_in (in_right l a c) = ap suc (levels-mirror_in c)

module _ (red black : ℕ) (turn : Side → ℕ → Tree → Tree) (law : Lawful turn) where
  Fixed-flip :
      (c : Context) (s : Shape) (z : ℕ) (t : Tree)
      → Fixed red black (mirror_in c) (mirror s) z t
      → Fixed red black c s z (flip t)
  Fixed-flip c s z t f = record {
    ctx = mirror_in f.ctx;
    sub = mirror f.sub;
    at = At-flip t f.ctx f.sub f.at;
    is_top = top-mirror f.sub ∙ f.is_top;
    real = f.real;
    same =
        nodes-plug-mirror f.ctx f.sub
        ∙ ap reverse (f.same ∙ nodes-plug-mirror c s)
        ∙ reverse-reverse (nodes (plug c s));
    root = λ inner. f.root (λ e. inner (above-mirror_in f.ctx ∙ e));
    progress = elim f.progress [
      | inl h ↦ inl (omega (arith, h, levels-mirror_in f.ctx, levels-mirror_in c))
      | inr e ↦ inr e
    ];
  }

  straighten-flip :
      (z : ℕ) (t : Tree)
      → straighten red black turn on_right z t
        ≡ flip (straighten red black (mirrored turn) on_left z (flip t))
  unfolding straighten
  straighten-flip z t = refl

  fixup_side-flip :
      (z : ℕ) (t : Tree)
      → fixup_side red black turn on_right z t
        ≡ (let q = fixup_side red black (mirrored turn) on_left z (flip t) in (q.0, flip q.1))
  unfolding fixup_side
  fixup_side-flip z t = elim (Bool-cases (is_red red t (t.left (t.parent (t.parent z))))) [
    | inl e ↦ rw e refl
    | inr e ↦ elim (Bool-cases (z == t.left (t.parent z))) [
      | inl f ↦
          rw (e, f)
            (ap (λ u. (t.parent z, u))
              (straighten-flip (t.parent z) (turn on_right (t.parent z) t)))
      | inr f ↦ rw (e, f) (ap (λ u. (z, u)) (straighten-flip z t))
    ]
  ]

  step_left :
      (z : ℕ) (t : Tree)
      → (t.parent z == t.left (t.parent (t.parent z))) ≡ true
      → fixup_side red black turn on_left z t ≡ fixup_step red black turn z t
  unfolding fixup_step
  step_left z t e = rw e refl

  step_right :
      (z : ℕ) (t : Tree)
      → (t.parent z == t.left (t.parent (t.parent z))) ≡ false
      → fixup_side red black turn on_right z t ≡ fixup_step red black turn z t
  unfolding fixup_step
  step_right z t e = rw e refl

  -- Which side the parent is on is read off its own parent.
  left_test :
      (z p g : ℕ) (t : Tree)
      → t.parent z ≡ p
      → t.parent p ≡ g
      → t.left g ≡ p
      → (t.parent z == t.left (t.parent (t.parent z))) ≡ true
  left_test z p g t ez ep eg = rw (ez, ep, eg) (ground arith)

  right_test :
      (z p g y : ℕ) (t : Tree)
      → t.parent z ≡ p
      → t.parent p ≡ g
      → t.left g ≡ y
      → y ≢ p
      → (t.parent z == t.left (t.parent (t.parent z))) ≡ false
  right_test z p g y t ez ep eg ne = rw (ez, ep, eg) (ground (arith, ne))

  is_red-above : (t : Tree) (n : ℕ) → is_red red t n ≡ true → (n ≢ 0) × (t.color n ≡ red)
  is_red-above t n e = ground (arith, e)

  left-Fixed :
      (distinct : red ≢ black) (t : Tree) (c : Context) (p : ℕ) (r s : Shape)
      → At t (in_left c p r) s
      → top s ≢ 0
      → p ≢ 0
      → t.color p ≡ red
      → t.color t.root ≢ red
      → Fixed red black
          (in_left c p r)
          s
          (fixup_step red black turn (top s) t).0
          (fixup_step red black turn (top s) t).1
  left-Fixed distinct t whole p r s i real p_real e old = absurd (old (ap t.color i.around.4 ∙ e))
  left-Fixed distinct t (in_left c g u) p r s i real p_real e old =
      subst (λ q. Fixed red black (in_left (in_left c g u) p r) s q.0 q.1)
        (step_left (top s) t (
          left_test (top s) p g t (Links-top t.left t.right t.parent p s i.links real) i.around.0
            i.around.4.1))
        (outer-Fixed red black turn law distinct t c g u p r s i real old)
  left-Fixed distinct t (in_right u g c) p r leaf i real p_real e old = absurd (real refl)
  left-Fixed distinct t (in_right u g c) p r (node a z b) i real p_real e old =
      subst (λ q. Fixed red black (in_left (in_right u g c) p r) (node a z b) q.0 q.1)
        (sym (fixup_side-flip z t)
          ∙ step_right z t (right_test z p g (top u) t i.links.0 i.around.0 i.around.4.1 (other u)))
        (Fixed-flip (in_left (in_right u g c) p r) (node a z b)
          (fixup_side red black (mirrored turn) on_left z (flip t)).0
          (fixup_side red black (mirrored turn) on_left z (flip t)).1
          (inner-Fixed red black (mirrored turn) (mirrored-Lawful turn law) distinct (flip t)
            (mirror_in c) g (mirror u) p (mirror r) (mirror b) z (mirror a)
            (At-flip t (in_left (in_right u g c) p r) (node a z b) i) old))
    where
      other : (u' : Shape) → top u ≢ p
      other u' =
          let h = i.apart.once p in
          ne_p (count p u) (if p == g then 1 else 0) (count_in p c) (count p r)
            (count p (node a z b)) h
        where
          ne_p :
              (k m n o q : ℕ)
              → count p u + m + n + (if p == p then 1 else 0) + o + q ≤ 1
              → top u ≢ p
          ne_p k m n o q h e = ne-top p u (ground (arith, h)) (λ y. p_real (sym e ∙ y)) e

  right-Fixed :
      (distinct : red ≢ black) (t : Tree) (c : Context) (p : ℕ) (r s : Shape)
      → At t (in_right r p c) s
      → top s ≢ 0
      → p ≢ 0
      → t.color p ≡ red
      → t.color t.root ≢ red
      → Fixed red black
          (in_right r p c)
          s
          (fixup_step red black turn (top s) t).0
          (fixup_step red black turn (top s) t).1
  right-Fixed distinct t whole p r s i real p_real e old = absurd (old (ap t.color i.around.4 ∙ e))
  right-Fixed distinct t (in_left c g u) p r leaf i real p_real e old = absurd (real refl)
  right-Fixed distinct t (in_left c g u) p r (node a z b) i real p_real e old =
      subst (λ q. Fixed red black (in_right r p (in_left c g u)) (node a z b) q.0 q.1)
        (step_left z t (left_test z p g t i.links.0 i.around.0 i.around.4.1))
        (inner-Fixed red black turn law distinct t c g u p r a z b i old)
  right-Fixed distinct t (in_right u g c) p r s i real p_real e old =
      subst (λ q. Fixed red black (in_right r p (in_right u g c)) s q.0 q.1)
        (sym (fixup_side-flip (top s) t)
          ∙ step_right (top s) t (
              right_test (top s) p g (top u) t (Links-top t.left t.right t.parent p s i.links real)
                i.around.0 i.around.4.1 other))
        (Fixed-flip (in_right r p (in_right u g c)) s
          (fixup_side red black (mirrored turn) on_left (top s) (flip t)).0
          (fixup_side red black (mirrored turn) on_left (top s) (flip t)).1
          (subst
            (λ n.
              Fixed red black (mirror_in (in_right r p (in_right u g c))) (mirror s)
                (fixup_side red black (mirrored turn) on_left n (flip t)).0
                (fixup_side red black (mirrored turn) on_left n (flip t)).1)
            (top-mirror s)
            (outer-Fixed red black (mirrored turn) (mirrored-Lawful turn law) distinct (flip t)
              (mirror_in c) g (mirror u) p (mirror r) (mirror s)
              (At-flip t (in_right r p (in_right u g c)) s i) (λ y. real (sym (top-mirror s) ∙ y))
              old)))
    where
      other : top u ≢ p
      other =
          let h = i.apart.once p in
          ne_p (if p == g then 1 else 0) (count_in p c) (count p r) (count p s) h
        where
          ne_p :
              (m n o q : ℕ)
              → o + (if p == p then 1 else 0) + (count p u + m + n) + q ≤ 1
              → top u ≢ p
          ne_p m n o q h e = ne-top p u (ground (arith, h)) (λ y. p_real (sym e ∙ y)) e

  step-Fixed :
      (distinct : red ≢ black) (t : Tree) (c : Context) (s : Shape)
      → At t c s
      → top s ≢ 0
      → above c ≢ 0
      → t.color (above c) ≡ red
      → (above c ≢ 0 → t.color t.root ≢ red)
      → Fixed red black c s
          (fixup_step red black turn (top s) t).0
          (fixup_step red black turn (top s) t).1
  step-Fixed distinct t whole s i real inner e old = absurd (inner refl)
  step-Fixed distinct t (in_left c p r) s i real inner e old =
      left-Fixed distinct t c p r s i real inner e (old inner)
  step-Fixed distinct t (in_right r p c) s i real inner e old =
      right-Fixed distinct t c p r s i real inner e (old inner)

  parent-top :
      (t : Tree) (c : Context) (s : Shape) → At t c s → top s ≢ 0 → t.parent (top s) ≡ above c
  parent-top t c s i real = Links-top t.left t.right t.parent (above c) s i.links real

  pub round :
      (distinct : red ≢ black) (t : Tree) (c : Context) (s : Shape)
      → At t c s
      → top s ≢ 0
      → (above c ≢ 0 → t.color t.root ≢ red)
      → is_red red t (t.parent (top s)) ≡ true
      → (above c ≢ 0)
        × Fixed red black c s
            (fixup_step red black turn (top s) t).0
            (fixup_step red black turn (top s) t).1
  round distinct t c s i real old e =
      let h = is_red-above t (t.parent (top s)) e in
      let q = parent-top t c s i real in
      let inner : above c ≢ 0 = λ y. h.0 (q ∙ y) in
      (inner, step-Fixed distinct t c s i real inner (ap t.color (sym q) ∙ h.1) old)
