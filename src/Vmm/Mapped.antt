-- ===== src/Vmm/Mapped.antt =====
-- `vmm_map` keeps the areas in order.
use arcline.Base.{
  ℕ, zero, suc, ◌+◌, ◌≤◌, ◌<◌, ltb, ◌≡◌, ◌≢◌, refl, sym, ap, ap₂, ◌∙◌, List, [], ◌∷◌, arith, ◌==◌,
  Array, store, Bool, true, false, Bool-cases, inl, inr, is_null, length, ◌^◌, ◌⊎◌, pos,
}
use mathlib.Core.Path.{subst}
use arcline.Rb.{Tree, set_left, set_right, set_parent, set_color, Side, on_left, on_right}
use arcline.Rb.Shape.{count}
use arcline.Rb.Insert.{set_link, descend, link_node}
use arcline.Rb.Insert as Insertion
use arcline.Rb.Insert.Link.{All, All-map, Sorted, insert_sorted}
use arcline.Rb.Insert.Sorted.{All-occurs, All-insert_sorted, Sorted-ext, length-nodes}
use arcline.Rb.Insert.Order.{occurs, occurs-nodes, link_node_lem, descend-ne}
use arcline.Rb.Insert.Attach.{prepared, store_ne, store_eq}
use arcline.Rb.Insert.Whole.{IsTree, inserted-IsTree}
use arcline.Vmm.{Areas, Vmm, refill, take_node, alloc_node, insert_area, map}
use arcline.Vmm.Links.{insert_fixup, rotate}
use arcline.Vmm.Rotate.{rotate-Lawful}
use arcline.Vmm.Search.{Separate, InOrder, Separate-Sorted}
use arcline.Vmm.Disjoint.{end_of, passed, size_real, map-disjoint}

-- A write of the value that is there.
store_same : (f : Array ℕ) (n v : ℕ) → f n ≡ v → store f n v ≡ f
store_same f n v e = λ i a. at a i
  where
    at : (a : ℕ) → store f n v a ≡ f a
    at a = elim (Bool-cases (a == n)) [ inl h ↦ ground (arith, h, e) | inr h ↦ ground (arith, h) ]

-- The links of a fresh node, written again after it is linked.
written : ℕ → Tree → Tree
written n t = set_color n 0 (set_right n 0 (set_left n 0 t))

written-id : (n : ℕ) (t : Tree) → t.left n ≡ 0 → t.right n ≡ 0 → t.color n ≡ 0 → written n t ≡ t
unfolding written
written-id n t l r c =
    ap₂ (λ f g. record t { left = f; right = g; color = store t.color n 0 })
      (store_same t.left n 0 l) (store_same t.right n 0 r)
    ∙ ap (λ f. record t { color = f }) (store_same t.color n 0 c)

own_link :
    (p n : ℕ) (d : Side) (t : Tree)
    → p ≢ n
    → t.left n ≡ 0
    → t.right n ≡ 0
    → t.color n ≡ 0
    → written n (set_parent n p (set_link p d n t)) ≡ set_link p d n (set_parent n p t)
unfolding set_link
own_link zero n d t ne l r c = written-id n (set_parent n 0 (set_link 0 d n t)) l r c
own_link (suc p) n on_left t ne l r c =
    written-id n (set_parent n (suc p) (set_link (suc p) on_left n t))
      (other t.left (suc p) n ne ∙ l) r c
  where
    other : (f : Array ℕ) (p n : ℕ) → p ≢ n → store f p n n ≡ f n
    other f p n ne = ground (arith, ne)
own_link (suc p) n on_right t ne l r c =
    written-id n (set_parent n (suc p) (set_link (suc p) on_right n t)) l
      (other t.right (suc p) n ne ∙ r) c
  where
    other : (f : Array ℕ) (p n : ℕ) → p ≢ n → store f p n n ≡ f n
    other f p n ne = ground (arith, ne)

Separate-ext :
    (s s' : Areas) (xs : List ℕ)
    → All (λ y. (s'.va y ≡ s.va y) × (s'.size y ≡ s.size y)) xs
    → Separate s xs
    → Separate s' xs
Separate-ext s s' [] e h = tt
Separate-ext s s' (x ∷ xs) (e, es) (p, f, h, hs) =
    (omega (arith, e.1, p), omega (arith, e.0, e.1, f), after xs es h, Separate-ext s s' xs es hs)
  where
    after :
        (ys : List ℕ)
        → All (λ y. (s'.va y ≡ s.va y) × (s'.size y ≡ s.size y)) ys
        → All (λ y. s.va x + s.size x ≤ s.va y) ys
        → All (λ y. s'.va x + s'.size x ≤ s'.va y) ys
    after [] d g = tt
    after (y ∷ ys) (d, ds) (g, gs) = (omega (arith, e.0, e.1, d.0, g), after ys ds gs)

-- An area that is disjoint from all others goes to the place of its first address.
Separate-insert :
    (s : Areas) (n : ℕ) (xs : List ℕ)
    → 0 < s.size n
    → end_of s n < 2 ^ 64
    → All (λ y. (end_of s n ≤ s.va y) ⊎ (end_of s y ≤ s.va n)) xs
    → Separate s xs
    → Separate s (insert_sorted s.va (s.va n) n xs)
Separate-insert s n [] p f d h = (p, f, tt, tt)
Separate-insert s n (x ∷ xs) p f (d, ds) (q, g, h, hs) = elim (Bool-cases (ltb (s.va n) (s.va x))) [
  | inl e ↦ rw e (
    p,
    f,
    (
      before e d,
      All-map (λ y. end_of s x ≤ s.va y) (λ y. end_of s n ≤ s.va y)
          (λ y k. let b = before e d in omega (arith, b, k)) xs h,
    ),
    (q, g, h, hs),
  )
  | inr e ↦ rw e (
    q,
    g,
    All-insert_sorted s.va n (λ y. end_of s x ≤ s.va y) (s.va n) xs (after e d) h,
    Separate-insert s n xs p f ds hs,
  )
]
  where
    before :
        ltb (s.va n) (s.va x) ≡ true
        → (end_of s n ≤ s.va x) ⊎ (end_of s x ≤ s.va n)
        → end_of s n ≤ s.va x
    before e (inl k) = k
    before e (inr k) = absurd (clash (s.va n) (s.va x) (s.size x) e k)
      where
        clash : (a b z : ℕ) → ltb a b ≡ true → b + z ≤ a → ⊥
        clash a b z e k = ground (arith, e, k)

    after :
        ltb (s.va n) (s.va x) ≡ false
        → (end_of s n ≤ s.va x) ⊎ (end_of s x ≤ s.va n)
        → end_of s x ≤ s.va n
    after e (inr k) = k
    after e (inl k) = absurd (clash (s.va n) (s.va x) (s.size n) e k p)
      where
        clash : (a b z : ℕ) → ltb a b ≡ false → a + z ≤ b → 0 < z → ⊥
        clash a b z e k p = ground (arith, e, k, p)

module _ (k va pa size attrs n : ℕ) (n_real : n ≢ 0) (s : Areas) (xs : List ℕ) (o : InOrder s xs)
    (out : occurs n xs ≡ 0) (fuel : length xs < k) where
  key : ℕ → ℕ
  key = store s.va n va

  base : Tree
  base = prepared s.tree n n_real 0

  taken : Areas
  taken = record s { tree = base; free_list = s.tree.left n }

  shape_out : count n o.tree.links.shape ≡ 0
  shape_out = sym (occurs-nodes n o.tree.links.shape) ∙ ap (occurs n) o.tree.links.same ∙ out

  same_keys : (y : ℕ) → 1 ≤ occurs y xs → (key y ≡ s.va y) × (store s.size n size y ≡ s.size y)
  unfolding key
  same_keys y m =
      let ne : y ≢ n = λ e. absurd (differ e) in
      (store_ne s.va n va y ne, store_ne s.size n size y ne)
    where
      differ : y ≡ n → ⊥
      differ e = let g = subst (λ b. 1 ≤ occurs b xs) e m in omega (arith, g, out)

  sorted : Sorted key xs
  sorted =
      Sorted-ext s.va key xs (All-occurs (λ y. key y ≡ s.va y) xs (λ y m. (same_keys y m).0))
        (Separate-Sorted s xs o.separate)

  -- The tree of the areas with the new one.
  area_tree :
      (insert_area k n va pa size attrs taken).tree
      ≡ Insertion.insert_fixup 0 1 rotate k n (link_node 0 key va k n s.tree).1
  unfolding insert_area insert_fixup taken base key written
  area_tree =
      ap
        (λ b.
          let q = descend key va k s.tree.root 0 on_left true b in
          insert_fixup k n (written n (set_parent n q.0 (set_link q.0 q.1 n b))))
        painted
      ∙ ap (insert_fixup k n) (
          own_link (found base).0 n (found base).1 base parent_ne (own s.tree.left)
            (own s.tree.right) (own s.tree.color))
      ∙ sym (ap (λ w. insert_fixup k n w.1) (link_node_lem 0 key va n n_real k s.tree))
    where
      found : Tree → ℕ × Side × Bool
      found b = descend key va k s.tree.root 0 on_left true b

      own : (f : Array ℕ) → store f n 0 n ≡ 0
      own f = ground arith

      painted : set_color n 0 base ≡ base
      painted = ap (λ f. record base { color = f }) (store_same base.color n 0 (own s.tree.color))

      parent_ne : (found base).0 ≢ n
      parent_ne =
          descend-ne 0 key va n n_real k s.tree o.tree.links.shape o.tree.links.at shape_out
            (subst (Sorted key) (sym o.tree.links.same) sorted)
            (omega (arith, fuel, length-nodes o.tree.links.shape, ap length o.tree.links.same))

  insert_area-IsTree :
      IsTree 1 (insert_sorted key va n xs) (insert_area k n va pa size attrs taken).tree
  insert_area-IsTree =
      subst (IsTree 1 (insert_sorted key va n xs)) (sym area_tree)
        (inserted-IsTree 0 1 rotate rotate-Lawful (λ e. omega (arith, e)) key va k n xs s.tree
          o.tree sorted n_real out fuel).0

  insert_area-Separate :
      0 < size
      → va + size < 2 ^ 64
      → ((y : ℕ) → 1 ≤ occurs y xs → (va + size ≤ s.va y) ⊎ (end_of s y ≤ va))
      → Separate (insert_area k n va pa size attrs taken) (insert_sorted key va n xs)
  unfolding insert_area taken key
  insert_area-Separate pos_size fit apart =
      subst (λ m. Separate s' (insert_sorted s'.va m n xs)) own_va
        (Separate-insert s' n xs (rw own_size pos_size) (omega (arith, own_size, own_va, fit))
          (All-occurs (λ y. (end_of s' n ≤ s'.va y) ⊎ (end_of s' y ≤ s'.va n)) xs
            (λ y m.
              let e = same_keys y m in
              elim (apart y m) [
                | inl h ↦ inl (omega (arith, own_size, own_va, e.0, h))
                | inr h ↦ inr (omega (arith, own_va, e.0, e.1, h))
              ]))
          (Separate-ext s s' xs
            (All-occurs (λ y. (s'.va y ≡ s.va y) × (s'.size y ≡ s.size y)) xs same_keys)
            o.separate))
    where
      s' : Areas
      s' = insert_area k n va pa size attrs taken

      own_va : s'.va n ≡ va
      own_va = store_eq s.va n va

      own_size : s'.size n ≡ size
      own_size = store_eq s.size n size

-- A call of `vmm_map` that finds a free node.
pub ran :
    (k va pa size attrs : ℕ) (v : Vmm)
    → (map k va pa size attrs v).0 ≡ pos 0
    → (map k va pa size attrs v).1.areas
      ≡ insert_area k (alloc_node v.areas).0 va pa size attrs (alloc_node v.areas).1
ran k va pa size attrs v e = ap (λ w. w.areas) (passed k va pa size attrs v e).3

still : (s : Areas) → s.free_list ≢ 0 → refill s ≡ s
unfolding refill
still s nz = rw (none s.free_list nz) refl
  where
    none : (n : ℕ) → n ≢ 0 → is_null n ≡ false
    none n nz = ground (arith, nz)

pub took :
    (s : Areas)
    → s.free_list ≢ 0
    → alloc_node s ≡ (
      s.free_list,
      record s {
        tree =
            set_color s.free_list 0
              (set_parent s.free_list 0 (set_right s.free_list 0 (set_left s.free_list 0 s.tree)));
        free_list = s.tree.left s.free_list;
      },
    )
unfolding alloc_node take_node
took s nz = ap take_node (still s nz) ∙ rw (none s.free_list nz) refl
  where
    none : (n : ℕ) → n ≢ 0 → is_null n ≡ false
    none n nz = ground (arith, nz)

-- From areas in order, for a range that does not wrap round: when `vmm_map` succeeds and the free
-- list gave a node that is not in the tree, the areas are in order again, with the new one at the
-- place of its first address.
pub map-InOrder :
    (k va pa size attrs : ℕ) (v : Vmm) (xs : List ℕ)
    → InOrder v.areas xs
    → length xs < k
    → v.areas.free_list ≢ 0
    → occurs v.areas.free_list xs ≡ 0
    → va + size < 2 ^ 64
    → (map k va pa size attrs v).0 ≡ pos 0
    → InOrder
        (map k va pa size attrs v).1.areas
        (insert_sorted (map k va pa size attrs v).1.areas.va va v.areas.free_list xs)
unfolding insert_area key taken base
map-InOrder k va pa size attrs v xs o fuel nz out fit ok =
    subst (λ a. InOrder a (insert_sorted a.va va v.areas.free_list xs))
      (sym (
        ran k va pa size attrs v ok
        ∙ ap (λ g. insert_area k g.0 va pa size attrs g.1) (took v.areas nz)))
      (record {
        tree = insert_area-IsTree k va pa size attrs v.areas.free_list nz v.areas xs o out fuel;
        separate =
            insert_area-Separate k va pa size attrs v.areas.free_list nz v.areas xs o out fuel
              size_pos fit (λ y m. map-disjoint k va pa size attrs v xs y o fuel fit ok m);
      })
  where
    size_pos : 0 < size
    size_pos = let h = size_real size (passed k va pa size attrs v ok).0 in omega (arith, h)
