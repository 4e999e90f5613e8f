-- ===== src/Rb/Insert/Sorted.antt =====
-- What `insert_sorted` does to a sorted list.
use arcline.Base.{
  ℕ, suc, ◌+◌, ◌≤◌, ltb, ◌≡◌, refl, ◌∙◌, List, [], ◌∷◌, ◌++◌, arith, ◌==◌, if◌then◌else◌, true,
  false, Bool-cases, inl, inr, length,
}
use arcline.Rb.Shape.{Shape, leaf, node, nodes}
use arcline.Rb.Insert.Link.{All, All-map, Sorted, insert_sorted, size}
use arcline.Rb.Insert.Order.{occurs, starts_with}

pub All-occurs : (f : ℕ → Type 0) (xs : List ℕ) → ((y : ℕ) → 1 ≤ occurs y xs → f y) → All f xs
All-occurs f [] h = tt
All-occurs f (x ∷ xs) h = (h x (ground arith), All-occurs f xs (λ y m. h y (ground (arith, m))))

pub occurs-All : (f : ℕ → Type 0) (xs : List ℕ) → All f xs → (y : ℕ) → 1 ≤ occurs y xs → f y
occurs-All f [] h y m = absurd (omega arith)
occurs-All f (x ∷ xs) (h, hs) y m = elim (Bool-cases (y == x)) [
  | inl e ↦ here (same y x e)
  | inr e ↦ occurs-All f xs hs y (there y x e (occurs y xs) m)
]
  where
    same : (y x : ℕ) → (y == x) ≡ true → x ≡ y
    same y x e = ground (arith, e)

    here : x ≡ y → f y
    here e = rw (← e) h

    there : (y x : ℕ) → (y == x) ≡ false → (n : ℕ) → 1 ≤ (if y == x then 1 else 0) + n → 1 ≤ n
    there y x e n m = ground (arith, e, m)

pub Sorted-ext :
    (key key' : ℕ → ℕ) (xs : List ℕ) → All (λ y. key' y ≡ key y) xs → Sorted key xs → Sorted key' xs
Sorted-ext key key' [] e h = tt
Sorted-ext key key' (x ∷ xs) (e, es) (h, hs) =
    (both key key' x xs e es h, Sorted-ext key key' xs es hs)
  where
    both :
        (key key' : ℕ → ℕ) (x : ℕ) (xs : List ℕ)
        → key' x ≡ key x
        → All (λ y. key' y ≡ key y) xs
        → All (λ y. key x ≤ key y) xs
        → All (λ y. key' x ≤ key' y) xs
    both key key' x [] e es h = tt
    both key key' x (y ∷ ys) e (ey, es) (hy, hs) =
        (omega (arith, e, ey, hy), both key key' x ys e es hs)

-- The first node, 0 for none.
abbrev pub first_node : List ℕ → ℕ
first_node [] = 0
first_node (x ∷ xs) = x

module _ (key : ℕ → ℕ) (n : ℕ) where
  pub All-insert_sorted :
      (f : ℕ → Type 0) (v : ℕ) (xs : List ℕ) → f n → All f xs → All f (insert_sorted key v n xs)
  All-insert_sorted f v [] h k = (h, tt)
  All-insert_sorted f v (x ∷ xs) h (k, ks) = elim (Bool-cases (ltb v (key x))) [
    | inl e ↦ rw e (h, (k, ks))
    | inr e ↦ rw e (k, All-insert_sorted f v xs h ks)
  ]

  -- A node goes into a sorted list at the place of its key.
  pub Sorted-insert_sorted :
      (xs : List ℕ) → Sorted key xs → Sorted key (insert_sorted key (key n) n xs)
  Sorted-insert_sorted [] h = (tt, tt)
  Sorted-insert_sorted (x ∷ xs) (h, hs) = elim (Bool-cases (ltb (key n) (key x))) [
    | inl e ↦ rw e (
      (
        below (key n) (key x) e,
        All-map (λ y. key x ≤ key y) (λ y. key n ≤ key y)
            (λ y g. let b = below (key n) (key x) e in omega (arith, b, g)) xs h,
      ),
      (h, hs),
    )
    | inr e ↦ rw e (
      All-insert_sorted (λ y. key x ≤ key y) (key n) xs (beyond (key n) (key x) e) h,
      Sorted-insert_sorted xs hs,
    )
  ]
    where
      below : (a b : ℕ) → ltb a b ≡ true → a ≤ b
      below a b e = ground (arith, e)

      beyond : (a b : ℕ) → ltb a b ≡ false → b ≤ a
      beyond a b e = ground (arith, e)

  pub occurs-insert_sorted :
      (v a : ℕ) (xs : List ℕ)
      → occurs a (insert_sorted key v n xs) ≡ (if a == n then 1 else 0) + occurs a xs
  occurs-insert_sorted v a [] = omega arith
  occurs-insert_sorted v a (x ∷ xs) = elim (Bool-cases (ltb v (key x))) [
    | inl e ↦ rw e refl
    | inr e ↦ rw e (omega (arith, occurs-insert_sorted v a xs))
  ]

  pub first_node-insert_sorted :
      (v : ℕ) (xs : List ℕ)
      → occurs n xs ≡ 0
      → first_node (insert_sorted key v n xs)
        ≡ (if starts_with n (insert_sorted key v n xs) then n else first_node xs)
  first_node-insert_sorted v [] out = ground arith
  first_node-insert_sorted v (x ∷ xs) out = elim (Bool-cases (ltb v (key x))) [
    | inl e ↦ rw e (ground arith)
    | inr e ↦ rw e (ground arith)
  ]

-- The list of a shape has as many nodes as the shape.
pub length-nodes : (s : Shape) → length (nodes s) ≡ size s
length-nodes leaf = refl
length-nodes (node l a r) =
    length_parts (nodes l) (nodes r) ∙ omega (arith, length-nodes l, length-nodes r)
  where
    length_parts : (xs ys : List ℕ) → length (xs ++ (a ∷ ys)) ≡ length xs + suc (length ys)
    length_parts [] ys = omega arith
    length_parts (x ∷ xs) ys = omega (arith, length_parts xs ys)
