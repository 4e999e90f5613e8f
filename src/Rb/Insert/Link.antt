-- ===== src/Rb/Insert/Link.antt =====
-- `link_node` puts a node where the keys say: after the keys that are at most its own.
use arcline.Base.{
  ℕ, zero, suc, ◌+◌, ◌≤◌, ◌<◌, ltb, ◌≡◌, ◌≢◌, refl, sym, ap, ◌∙◌, List, [], ◌∷◌, ◌++◌, arith, ◌==◌,
  if◌then◌else◌, Bool, true, false, Bool-cases, inl, inr,
}
use mathlib.Core.Path.{subst}
use mathlib.Core.List.{append_assoc, append-nil}
use arcline.Rb.{Tree, Side, on_left, on_right}
use arcline.Rb.Shape.{
  Shape, leaf, node, Context, whole, in_left, in_right, top, above, plug, nodes, count, count_in,
  At,
}
use arcline.Rb.Zipper.{down_left, down_right}
use arcline.Rb.Insert.{descend}

abbrev pub All : (ℕ → Type 0) → List ℕ → Type 0
All f [] = Unit
All f (x ∷ xs) = f x × All f xs

abbrev pub Sorted : (ℕ → ℕ) → List ℕ → Type 0
Sorted key [] = Unit
Sorted key (x ∷ xs) = All (λ y. key x ≤ key y) xs × Sorted key xs

All-append : (f : ℕ → Type 0) (xs ys : List ℕ) → All f xs → All f ys → All f (xs ++ ys)
All-append f [] ys h k = k
All-append f (x ∷ xs) ys (h, hs) k = (h, All-append f xs ys hs k)

pub All-map : (f g : ℕ → Type 0) → ((x : ℕ) → f x → g x) → (xs : List ℕ) → All f xs → All g xs
All-map f g m [] h = tt
All-map f g m (x ∷ xs) (h, hs) = (m x h, All-map f g m xs hs)

-- The parts of a sorted list.
pub All-left : (f : ℕ → Type 0) (xs ys : List ℕ) → All f (xs ++ ys) → All f xs × All f ys
All-left f [] ys h = (tt, h)
All-left f (x ∷ xs) ys (h, hs) = let r = All-left f xs ys hs in ((h, r.0), r.1)

pub Sorted-parts :
    (key : ℕ → ℕ) (xs ys : List ℕ) → Sorted key (xs ++ ys) → Sorted key xs × Sorted key ys
Sorted-parts key [] ys h = (tt, h)
Sorted-parts key (x ∷ xs) ys (h, hs) =
    let r = Sorted-parts key xs ys hs in (((All-left (λ y. key x ≤ key y) xs ys h).0, r.0), r.1)

pub Sorted-before :
    (key : ℕ → ℕ) (xs : List ℕ) (a : ℕ) (ys : List ℕ)
    → Sorted key (xs ++ (a ∷ ys))
    → All (λ y. key y ≤ key a) xs
Sorted-before key [] a ys h = tt
Sorted-before key (x ∷ xs) a ys (h, hs) =
    ((All-left (λ y. key x ≤ key y) xs (a ∷ ys) h).1.0, Sorted-before key xs a ys hs)

-- The reference: the node goes before the first one with a greater key.
abbrev pub insert_sorted : (ℕ → ℕ) → ℕ → ℕ → List ℕ → List ℕ
insert_sorted key v n [] = n ∷ []
insert_sorted key v n (x ∷ xs) =
    if ltb v (key x) then n ∷ (x ∷ xs) else x ∷ insert_sorted key v n xs

pub insert_sorted-append :
    (key : ℕ → ℕ) (v n : ℕ) (xs ys : List ℕ)
    → All (λ y. key y ≤ v) xs
    → All (λ y. v < key y) ys
    → insert_sorted key v n (xs ++ ys) ≡ xs ++ (n ∷ ys)
insert_sorted-append key v n [] [] h k = refl
insert_sorted-append key v n [] (y ∷ ys) h (k, ks) = ground (arith, k)
insert_sorted-append key v n (x ∷ xs) ys (h, hs) k =
    at (key x) h (n ∷ (x ∷ (xs ++ ys))) (x ∷ insert_sorted key v n (xs ++ ys))
      (x ∷ (xs ++ (n ∷ ys))) (ap (λ zs. x ∷ zs) (insert_sorted-append key v n xs ys hs k))
  where
    at : (m : ℕ) → m ≤ v → (us bs cs : List ℕ) → bs ≡ cs → (if ltb v m then us else bs) ≡ cs
    at m h us bs cs e = ground (arith, h, e)

-- The nodes on either side of a hole.
abbrev pub before : Context → List ℕ
before whole = []
before (in_left c a r) = before c
before (in_right l a c) = (before c ++ nodes l) ++ (a ∷ [])

abbrev pub after : Context → List ℕ
after whole = []
after (in_left c a r) = a ∷ (nodes r ++ after c)
after (in_right l a c) = after c

pub nodes-parts : (c : Context) (s : Shape) → nodes (plug c s) ≡ before c ++ (nodes s ++ after c)
nodes-parts whole s = sym (append-nil (nodes s))
nodes-parts (in_left c a r) s =
    nodes-parts c (node s a r)
    ∙ ap (λ xs. before c ++ xs) (append_assoc (nodes s) (a ∷ nodes r) (after c))
nodes-parts (in_right l a c) s =
    nodes-parts c (node l a s)
    ∙ ap (λ xs. before c ++ xs) (append_assoc (nodes l) (a ∷ nodes s) (after c))
    ∙ sym (append_assoc (before c) (nodes l) (a ∷ (nodes s ++ after c)))
    ∙ sym (append_assoc (before c ++ nodes l) (a ∷ []) (nodes s ++ after c))

abbrev pub is_empty : List ℕ → Bool
is_empty [] = true
is_empty (x ∷ xs) = false

is_empty-snoc : (xs : List ℕ) (a : ℕ) → is_empty (xs ++ (a ∷ [])) ≡ false
is_empty-snoc [] a = refl
is_empty-snoc (x ∷ xs) a = refl

-- The side of the node above on which the hole is.
abbrev pub side_of : Context → Side
side_of whole = on_left
side_of (in_left c a r) = on_left
side_of (in_right l a c) = on_right

abbrev pub size : Shape → ℕ
size leaf = 0
size (node l a r) = size l + suc (size r)

module _ (key : ℕ → ℕ) (v : ℕ) (t : Tree) where
  -- Where a node of key `v` belongs, between the nodes `xs`.
  pub record Place (xs : List ℕ) (q : ℕ × Side × Bool) : Type 0 where
    pub ctx : Context
    pub hole : At t ctx leaf
    pub same : nodes (plug ctx leaf) ≡ xs
    pub parent : q.0 ≡ above ctx
    pub side : q.1 ≡ side_of ctx
    pub first : q.2 ≡ is_empty (before ctx)
    pub low : All (λ y. key y ≤ v) (before ctx)
    pub high : All (λ y. v < key y) (after ctx)

  left_turn :
      (k a p : ℕ) (d : Side) (b : Bool)
      → a ≢ 0
      → ltb v (key a) ≡ true
      → descend key v k (t.left a) a on_left b t ≡ descend key v (suc k) a p d b t
  unfolding descend
  left_turn k a p d b nz e = rw e (ground (arith, nz))

  right_turn :
      (k a p : ℕ) (d : Side) (b : Bool)
      → a ≢ 0
      → ltb v (key a) ≡ false
      → descend key v k (t.right a) a on_right false t ≡ descend key v (suc k) a p d b t
  unfolding descend
  right_turn k a p d b nz e = rw e (ground (arith, nz))

  -- Enough rounds are given.
  pub descend-Place :
      (k : ℕ) (c : Context) (s : Shape) (d : Side) (b : Bool)
      → size s < k
      → At t c s
      → d ≡ side_of c
      → b ≡ is_empty (before c)
      → All (λ y. key y ≤ v) (before c)
      → All (λ y. v < key y) (after c)
      → Sorted key (nodes s)
      → Place (nodes (plug c s)) (descend key v k (top s) (above c) d b t)
  unfolding descend
  descend-Place zero c s d b fuel i ed eb low high sorted = absurd (omega (arith, fuel))
  descend-Place (suc k) c leaf d b fuel i ed eb low high sorted = record {
    ctx = c;
    hole = i;
    same = refl;
    parent = refl;
    side = ed;
    first = eb;
    low = low;
    high = high;
  }
  descend-Place (suc k) c (node l a r) d b fuel i ed eb low high sorted =
      elim (Bool-cases (ltb v (key a))) [
        | inl e ↦
            subst (Place (nodes (plug c (node l a r))))
              (ap (λ n. descend key v k n a on_left b t) (sym i.links.1)
                ∙ left_turn k a (above c) d b a_real e)
              (descend-Place k (in_left c a r) l on_left b (omega (arith, fuel))
                (down_left t c a r l i) refl eb low
                (
                  above_v e,
                  All-append (λ y. v < key y) (nodes r) (after c)
                      (All-map (λ y. key a ≤ key y) (λ y. v < key y)
                        (λ y h. let g = above_v e in omega (arith, g, h)) (nodes r) parts.1.0)
                      high,
                )
                parts.0)
        | inr e ↦
            subst (Place (nodes (plug c (node l a r))))
              (ap (λ n. descend key v k n a on_right false t) (sym i.links.2)
                ∙ right_turn k a (above c) d b a_real e)
              (descend-Place k (in_right l a c) r on_right false (omega (arith, fuel))
                (down_right t c l a r i) refl (sym (is_empty-snoc (before c ++ nodes l) a))
                (All-append (λ y. key y ≤ v) (before c ++ nodes l) (a ∷ [])
                  (All-append (λ y. key y ≤ v) (before c) (nodes l) low
                    (All-map (λ y. key y ≤ key a) (λ y. key y ≤ v)
                      (λ y h. let g = below_v e in omega (arith, g, h)) (nodes l)
                      (Sorted-before key (nodes l) a (nodes r) sorted)))
                  (below_v e, tt))
                high parts.1.1)
      ]
    where
      parts : Sorted key (nodes l) × Sorted key (a ∷ nodes r)
      parts = Sorted-parts key (nodes l) (a ∷ nodes r) sorted

      above_v : ltb v (key a) ≡ true → v < key a
      above_v e = ground (arith, e)

      below_v : ltb v (key a) ≡ false → key a ≤ v
      below_v e = ground (arith, e)

      a_real : a ≢ 0
      a_real = let h = i.apart.real in split (count_in 0 c) (count 0 l) (count 0 r) h
        where
          split : (m n o : ℕ) → m + (n + (if 0 == a then 1 else 0) + o) ≡ 0 → a ≢ 0
          split m n o h = ground (arith, h)
