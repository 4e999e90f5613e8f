-- ===== src/Rb/Insert/Order.antt =====
-- `link_node` is an insertion in a sorted list.
use arcline.Base.{
  ℕ, zero, suc, ◌+◌, ◌<◌, ◌≡◌, ◌≢◌, refl, sym, ap, ap₂, ◌∙◌, List, [], ◌∷◌, ◌++◌, arith, ◌==◌,
  if◌then◌else◌, Array, store, Bool, true, false,
}
use mathlib.Core.Path.{subst}
use arcline.Rb.{Tree, set_parent, Side, on_left, on_right}
use arcline.Rb.Shape.{
  Shape, leaf, node, Context, whole, in_left, in_right, above, plug, nodes, count, count_in, At,
  top-ne, above-ne,
}
use arcline.Rb.Insert.{descend, set_link, link_node}
use arcline.Rb.Insert.Link.{
  Sorted, insert_sorted, insert_sorted-append, before, after, nodes-parts, is_empty, side_of, size,
  Place, descend-Place,
}
use arcline.Rb.Insert.Attach.{prepared, prepared-At, attach-At, store_ne}

-- How often a node stands in a list.
abbrev pub occurs : ℕ → List ℕ → ℕ
occurs a [] = 0
occurs a (x ∷ xs) = (if a == x then 1 else 0) + occurs a xs

abbrev pub starts_with : ℕ → List ℕ → Bool
starts_with n [] = false
starts_with n (x ∷ xs) = x == n

occurs-append : (a : ℕ) (xs ys : List ℕ) → occurs a (xs ++ ys) ≡ occurs a xs + occurs a ys
occurs-append a [] ys = omega arith
occurs-append a (x ∷ xs) ys = omega (arith, occurs-append a xs ys)

pub occurs-nodes : (a : ℕ) (s : Shape) → occurs a (nodes s) ≡ count a s
occurs-nodes a leaf = refl
occurs-nodes a (node l b r) =
    occurs-append a (nodes l) (b ∷ nodes r) ∙ omega (arith, occurs-nodes a l, occurs-nodes a r)

pub count-plug : (a : ℕ) (c : Context) (s : Shape) → count a (plug c s) ≡ count_in a c + count a s
count-plug a whole s = omega arith
count-plug a (in_left c b r) s = count-plug a c (node s b r) ∙ omega arith
count-plug a (in_right l b c) s = count-plug a c (node l b s) ∙ omega arith

starts_with_parts :
    (n : ℕ) (xs ys : List ℕ)
    → occurs n (xs ++ ys) ≡ 0
    → starts_with n (xs ++ (n ∷ ys)) ≡ is_empty xs
starts_with_parts n [] ys h = ground arith
starts_with_parts n (x ∷ xs) ys h = at (occurs n (xs ++ ys)) h
  where
    at : (m : ℕ) → (if n == x then 1 else 0) + m ≡ 0 → (x == n) ≡ false
    at m h = ground (arith, h)

root-set_link : (p : ℕ) (d : Side) (n : ℕ) (t : Tree) → p ≢ 0 → (set_link p d n t).root ≡ t.root
unfolding set_link
root-set_link zero d n t h = absurd (h refl)
root-set_link (suc p) on_left n t h = refl
root-set_link (suc p) on_right n t h = refl

color-set_link : (p : ℕ) (d : Side) (n : ℕ) (t : Tree) → (set_link p d n t).color ≡ t.color
unfolding set_link
color-set_link zero d n t = refl
color-set_link (suc p) on_left n t = refl
color-set_link (suc p) on_right n t = refl

module _ (red : ℕ) (key : ℕ → ℕ) (v n : ℕ) (n_real : n ≢ 0) where
  -- The node `n` is a new leaf of the tree that held the nodes `xs`.
  pub record Linked (xs : List ℕ) (t : Tree) (q : Bool × Tree) : Type 0 where
    pub ctx : Context
    pub at : At q.1 ctx (node leaf n leaf)
    pub same : nodes (plug ctx (node leaf n leaf)) ≡ insert_sorted key v n xs
    pub first : q.0 ≡ starts_with n (insert_sorted key v n xs)
    pub root : above ctx ≢ 0 → q.1.color q.1.root ≡ t.color t.root

  -- The end of `link_node`, once the descent has found `q`.
  abbrev pub attached : Tree → ℕ × Side × Bool → Bool × Tree
  attached t q = (q.2, set_link q.0 q.1 n (set_parent n q.0 (prepared t n n_real red)))

  pub link_node_lem :
      (k : ℕ) (t : Tree)
      → link_node red key v k n t
        ≡ attached t (descend key v k t.root 0 on_left true (prepared t n n_real red))
  unfolding link_node
  link_node_lem k t = refl

  Place-out :
      (t : Tree) (s : Shape) (q : ℕ × Side × Bool)
      → count n s ≡ 0
      → (w : Place key v (prepared t n n_real red) (nodes s) q) → count_in n w.ctx ≡ 0
  Place-out t s q out w =
      let e =
        sym (count-plug n w.ctx leaf)
        ∙ sym (occurs-nodes n (plug w.ctx leaf))
        ∙ ap (occurs n) w.same
        ∙ occurs-nodes n s
        ∙ out in
      omega (arith, e)

  attached-Linked :
      (t : Tree) (s : Shape) (q : ℕ × Side × Bool)
      → t.root ≢ n
      → count n s ≡ 0
      → Place key v (prepared t n n_real red) (nodes s) q
      → Linked (nodes s) t (attached t q)
  attached-Linked t s q other out w = record {
    ctx = w.ctx;
    at =
        subst (λ u. At u w.ctx (node leaf n leaf)) (sym place)
          (attach-At (prepared t n n_real red) n n_real w.ctx w.hole out_ctx (store_own t.left)
            (store_own t.right));
    same = whole_list ∙ sym listed;
    first =
        w.first
        ∙ sym (
            ap (starts_with n) listed
            ∙ starts_with_parts n (before w.ctx) (after w.ctx)
                (ap (occurs n) (sym halves ∙ w.same) ∙ occurs-nodes n s ∙ out));
    root = λ inner.
        ap (λ u. u.color u.root) place
        ∙ ap₂ (λ f m. f m)
            (color-set_link (above w.ctx) (side_of w.ctx) n
              (set_parent n (above w.ctx) (prepared t n n_real red)))
            (root-set_link (above w.ctx) (side_of w.ctx) n
              (set_parent n (above w.ctx) (prepared t n n_real red)) inner)
        ∙ store_ne t.color n red t.root other;
  }
    where
      place :
          set_link q.0 q.1 n (set_parent n q.0 (prepared t n n_real red))
          ≡ set_link
              (above w.ctx)
              (side_of w.ctx)
              n
              (set_parent n (above w.ctx) (prepared t n n_real red))
      place = ap₂ (λ p d. set_link p d n (set_parent n p (prepared t n n_real red))) w.parent w.side

      store_own : (f : Array ℕ) → store f n 0 n ≡ 0
      store_own f = ground arith

      out_ctx : count_in n w.ctx ≡ 0
      out_ctx = Place-out t s q out w

      halves : nodes (plug w.ctx leaf) ≡ before w.ctx ++ after w.ctx
      halves = nodes-parts w.ctx leaf

      whole_list : nodes (plug w.ctx (node leaf n leaf)) ≡ before w.ctx ++ (n ∷ after w.ctx)
      whole_list = nodes-parts w.ctx (node leaf n leaf)

      listed : insert_sorted key v n (nodes s) ≡ before w.ctx ++ (n ∷ after w.ctx)
      listed =
          ap (insert_sorted key v n) (sym w.same ∙ halves)
          ∙ insert_sorted-append key v n (before w.ctx) (after w.ctx) w.low w.high

  -- The descent from the root.
  from_root : ℕ → Tree → ℕ × Side × Bool
  from_root k t = descend key v k t.root 0 on_left true (prepared t n n_real red)

  from_root-Place :
      (k : ℕ) (t : Tree) (s : Shape)
      → At t whole s
      → count n s ≡ 0
      → Sorted key (nodes s)
      → size s < k
      → Place key v (prepared t n n_real red) (nodes s) (from_root k t)
  unfolding from_root
  from_root-Place k t s i out sorted fuel =
      subst
        (λ m.
          Place key v (prepared t n n_real red) (nodes s)
            (descend key v k m 0 on_left true (prepared t n n_real red)))
        (sym i.around)
        (descend-Place key v (prepared t n n_real red) k whole s on_left true fuel
          (prepared-At t n n_real red s out i) refl refl tt tt sorted)

  -- The descent does not end at the fresh node itself.
  pub descend-ne :
      (k : ℕ) (t : Tree) (s : Shape)
      → At t whole s
      → count n s ≡ 0
      → Sorted key (nodes s)
      → size s < k
      → (descend key v k t.root 0 on_left true (prepared t n n_real red)).0 ≢ n
  unfolding from_root
  descend-ne k t s i out sorted fuel e =
      let w = from_root-Place k t s i out sorted fuel in
      above-ne n w.ctx (Place-out t s (from_root k t) out w) n_real (sym w.parent ∙ e)

  pub link_node-Linked :
      (k : ℕ) (t : Tree) (s : Shape)
      → At t whole s
      → count n s ≡ 0
      → Sorted key (nodes s)
      → size s < k
      → Linked (nodes s) t (link_node red key v k n t)
  unfolding from_root
  link_node-Linked k t s i out sorted fuel = subst (Linked (nodes s) t) (sym (link_node_lem k t)) (
      attached-Linked t s (descend key v k t.root 0 on_left true (prepared t n n_real red))
        (λ e. top-ne n s out n_real (sym i.around ∙ e)) out
        (from_root-Place k t s i out sorted fuel))
