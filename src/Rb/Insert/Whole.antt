-- ===== src/Rb/Insert/Whole.antt =====
-- An insertion as a whole: descent, link and fixup.
use arcline.Base.{
  ℕ, suc, ◌+◌, ◌≤◌, ◌<◌, ltb, ◌≡◌, ◌≢◌, refl, sym, ap, ◌∙◌, List, [], ◌∷◌, arith, ◌==◌,
  if◌then◌else◌, Bool, inl, inr, Bool-cases, length,
}
use mathlib.Core.Path.{subst}
use arcline.Rb.{Tree, Side}
use arcline.Rb.Mirror.{Lawful}
use arcline.Rb.Shape.{
  Shape, leaf, node, Context, whole, in_left, in_right, above, plug, nodes, count, At,
}
use arcline.Rb.Insert.{link_node, insert_fixup}
use arcline.Rb.Insert.Fixup.{levels}
use arcline.Rb.Insert.Loop.{HasNodes, insert_fixup-HasNodes, insert_fixup-root}
use arcline.Rb.Insert.Link.{Sorted, insert_sorted, size}
use arcline.Rb.Insert.Order.{occurs, occurs-nodes, starts_with, Linked, link_node-Linked}
use arcline.Rb.Insert.Sorted.{length-nodes}

-- The tree holds these nodes in this order, and its root is black.
pub record IsTree (black : ℕ) (xs : List ℕ) (t : Tree) : Type 0 where
  pub links : HasNodes xs t
  pub root : t.root ≢ 0 → t.color t.root ≡ black

levels-size : (c : Context) (s : Shape) → levels c + size s ≤ size (plug c s)
levels-size whole s = omega arith
levels-size (in_left c a r) s = let h = levels-size c (node s a r) in omega (arith, h)
levels-size (in_right l a c) s = let h = levels-size c (node l a s) in omega (arith, h)

pub length-insert_sorted :
    (key : ℕ → ℕ) (v n : ℕ) (xs : List ℕ) → length (insert_sorted key v n xs) ≡ suc (length xs)
length-insert_sorted key v n [] = refl
length-insert_sorted key v n (x ∷ xs) = elim (Bool-cases (ltb v (key x))) [
  | inl e ↦ rw e refl
  | inr e ↦ rw e (ap suc (length-insert_sorted key v n xs))
]

above_of_levels : (c : Context) → levels c ≡ 0 → above c ≡ 0
above_of_levels whole h = refl
above_of_levels (in_left c a r) h = absurd (omega (arith, h))
above_of_levels (in_right l a c) h = absurd (omega (arith, h))

size-empty : (t : Tree) (s : Shape) → At t whole s → t.root ≡ 0 → size s ≡ 0
size-empty t leaf i z = refl
size-empty t (node l a r) i z =
    absurd (null a (count 0 l) (count 0 r) i.apart.real (sym i.around ∙ z))
  where
    null : (a m n : ℕ) → 0 + (m + (if 0 == a then 1 else 0) + n) ≡ 0 → a ≡ 0 → ⊥
    null a m n h e = ground (arith, h, e)

-- An insertion in the list of the nodes sorted by key, after those of the same one; the flag says
-- whether the node comes first.
pub inserted-IsTree :
    (red black : ℕ) (turn : Side → ℕ → Tree → Tree) (law : Lawful turn) (distinct : red ≢ black)
    (key : ℕ → ℕ) (v k n : ℕ) (xs : List ℕ) (t : Tree)
    → IsTree black xs t
    → Sorted key xs
    → n ≢ 0
    → occurs n xs ≡ 0
    → length xs < k
    → IsTree black
        (insert_sorted key v n xs)
        (insert_fixup red black turn k n (link_node red key v k n t).1)
      × ((link_node red key v k n t).0 ≡ starts_with n (insert_sorted key v n xs))
inserted-IsTree red black turn law distinct key v k n xs t h sorted nz out fuel = (
  record {
    links = record {
      shape = fixed.shape;
      at = fixed.at;
      same = fixed.same ∙ w.same ∙ ap (insert_sorted key v n) same;
    };
    root = λ r.
        insert_fixup-root red black turn law distinct k linked.1 w.ctx (node leaf n leaf) w.at nz
          red_root enough;
  },
  w.first ∙ ap (λ ys. starts_with n (insert_sorted key v n ys)) same,
)
  where
    s : Shape
    s = h.links.shape

    same : nodes s ≡ xs
    same = h.links.same

    linked : Bool × Tree
    linked = link_node red key v k n t

    w : Linked red key v n nz (nodes s) t (link_node red key v k n t)
    w =
        link_node-Linked red key v n nz k t s h.links.at
          (sym (occurs-nodes n s) ∙ ap (occurs n) same ∙ out) (subst (Sorted key) (sym same) sorted)
          (omega (arith, fuel, length-nodes s, ap length same))

    red_root : above w.ctx ≢ 0 → linked.1.color linked.1.root ≢ red
    red_root inner e = distinct (sym e ∙ w.root inner ∙ h.root (λ z. alone z inner))
      where
        alone : t.root ≡ 0 → above w.ctx ≢ 0 → ⊥
        alone z inner = inner (
            above_of_levels w.ctx (
              omega (
                arith,
                levels-size w.ctx (node leaf n leaf),
                length-nodes (plug w.ctx (node leaf n leaf)),
                ap length w.same,
                length-insert_sorted key v n (nodes s),
                length-nodes s,
                size-empty t s h.links.at z,
              )))

    fixed :
        HasNodes
          (nodes (plug w.ctx (node leaf n leaf)))
          (insert_fixup red black turn k n (link_node red key v k n t).1)
    fixed =
        insert_fixup-HasNodes red black turn law distinct k linked.1 w.ctx (node leaf n leaf) w.at
          nz red_root

    enough : levels w.ctx < k
    enough = omega (
      arith,
      fuel,
      levels-size w.ctx (node leaf n leaf),
      length-nodes (plug w.ctx (node leaf n leaf)),
      ap length (w.same ∙ ap (insert_sorted key v n) same),
      length-insert_sorted key v n xs,
    )
