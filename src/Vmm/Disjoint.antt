-- ===== src/Vmm/Disjoint.antt =====
-- `vmm_map` looks only at the two neighbours of the new area, and that is enough.
use arcline.Base.{
  ℕ, ◌+◌, ◌≤◌, ◌<◌, ltb, leb, ◌≡◌, ◌≢◌, refl, sym, ap, ap₂, ◌∙◌, List, [], ◌∷◌, arith, ◌==◌,
  if◌then◌else◌, true, false, not, ◌&&◌, ◌||◌, Bool-cases, inl, inr, is_null, length, ◌^◌, ◌⊎◌, pos,
  add64,
}
use mathlib.Core.Path.{subst}
use arcline.Rb.Insert.Link.{All}
use arcline.Rb.Insert.Sorted.{occurs-All}
use arcline.Rb.Insert.Order.{occurs, occurs-nodes}
use arcline.Vmm.{
  Areas, Vmm, find_le, find_ge, overlaps, map, unaligned, alloc_node, insert_area, map_pages,
}
use arcline.Vmm.Errors.{chosen_ok}
use arcline.Vmm.Search.{last_le, first_ge, Separate, InOrder, find-InOrder}

-- The first address after an area.
abbrev pub end_of : Areas → ℕ → ℕ
end_of s y = s.va y + s.size y

pub Separate-end :
    (s : Areas) (xs : List ℕ) → Separate s xs → (z : ℕ) → 1 ≤ occurs z xs → end_of s z < 2 ^ 64
Separate-end s xs h = occurs-All (λ z. end_of s z < 2 ^ 64) xs (ends xs h)
  where
    ends : (xs : List ℕ) → Separate s xs → All (λ z. end_of s z < 2 ^ 64) xs
    ends [] h = tt
    ends (x ∷ xs) (p, e, h, hs) = (e, ends xs hs)

module _ (s : Areas) (va : ℕ) where
  -- What holds of the start value and of every area that starts at or below `va` holds of the result.
  last_le-All :
      (f : ℕ → Type 0) (res : ℕ) (xs : List ℕ)
      → f res
      → ((z : ℕ) → 1 ≤ occurs z xs → s.va z ≤ va → f z)
      → f (last_le s.va va res xs)
  last_le-All f res [] h k = h
  last_le-All f res (x ∷ xs) h k =
      last_le-All f (if ltb va (s.va x) then res else x) xs
        (elim (Bool-cases (ltb va (s.va x))) [
          | inl e ↦ rw e h
          | inr e ↦ rw e (k x (ground arith) (ground (arith, e)))
        ])
        (λ z m. k z (ground (arith, m)))

  -- The area found below `va` is `y` or stands after it.
  abbrev pub Below : ℕ → ℕ → Type 0
  Below y p = (p ≢ 0) × (end_of s p < 2 ^ 64) × (s.va p ≤ va) × ((end_of s y ≤ s.va p) ⊎ (y ≡ p))

  pub below :
      (res y : ℕ) (xs : List ℕ)
      → Separate s xs
      → occurs 0 xs ≡ 0
      → 1 ≤ occurs y xs
      → s.va y ≤ va
      → Below y (last_le s.va va res xs)
  below res y [] sep nz m le = absurd (omega (arith, m))
  below res y (x ∷ xs) (p, e, h, hs) nz m le = elim (Bool-cases (y == x)) [
    | inl same ↦
        subst (λ w. Below w (last_le s.va va (if ltb va (s.va x) then res else x) xs)) (eq x y same)
          (last_le-All (Below x) (if ltb va (s.va x) then res else x) xs (start (eq x y same))
            (λ z mz lz. (
              null z mz,
              Separate-end s xs hs z mz,
              lz,
              inl (occurs-All (λ y. s.va x + s.size x ≤ s.va y) xs h z mz),
            )))
    | inr other ↦
        below (if ltb va (s.va x) then res else x) y xs hs (ground (arith, nz))
          (ground (arith, m, other)) le
  ]
    where
      eq : (x y : ℕ) → (y == x) ≡ true → x ≡ y
      eq x y e = ground (arith, e)

      null : (z : ℕ) → 1 ≤ occurs z xs → z ≢ 0
      null z m e = let k = subst (λ n. 1 ≤ occurs n xs) e m in ground (arith, k, nz)

      at_x : (x y : ℕ) (f : ℕ → ℕ) → x ≡ y → f y ≤ va → ltb va (f x) ≡ false
      at_x x y f e le = let l = subst (λ n. f n ≤ va) (sym e) le in ground (arith, l)

      e_x : end_of s x < 2 ^ 64
      e_x = e

      start : x ≡ y → Below x (if ltb va (s.va x) then res else x)
      start e =
          rw (at_x x y s.va e le)
            (ground (arith, nz), e_x, subst (λ n. s.va n ≤ va) (sym e) le, inr refl)

  -- The area found above `va` is `y` or stands before it.
  abbrev Above : ℕ → ℕ → Type 0
  Above y q =
      (q ≢ 0)
      × (end_of s q < 2 ^ 64)
      × (va ≤ s.va q)
      × (0 < s.size q)
      × ((end_of s q ≤ s.va y) ⊎ (y ≡ q))

  beyond :
      (res y : ℕ) (xs : List ℕ)
      → Separate s xs
      → occurs 0 xs ≡ 0
      → 1 ≤ occurs y xs
      → va ≤ s.va y
      → Above y (first_ge s.va va res xs)
  beyond res y [] sep nz m le = absurd (omega (arith, m))
  beyond res y (x ∷ xs) (p, e, h, hs) nz m le = elim (Bool-cases (leb va (s.va x))) [
    | inl b ↦ rw b (
      ground (arith, nz),
      e,
      ground (arith, b),
      p,
      elim (Bool-cases (y == x)) [
        | inl same ↦ inr (ground (arith, same))
        | inr other ↦
            inl (occurs-All (λ y. s.va x + s.size x ≤ s.va y) xs h y (ground (arith, m, other)))
      ],
    )
    | inr b ↦ rw b (
        beyond res y xs hs (ground (arith, nz))
          (later (occurs y xs) (λ q. low (subst (λ n. va ≤ s.va n) q le) b) m) le)
  ]
    where
      low : {n : ℕ} → va ≤ n → leb va n ≡ false → ⊥
      low le b = ground (arith, le, b)

      later : (n : ℕ) → y ≢ x → 1 ≤ (if y == x then 1 else 0) + n → 1 ≤ n
      later n ne m = ground (arith, ne, m)

-- What the test of two areas says when nothing wraps round.
overlaps-false :
    (n va size : ℕ) (s : Areas)
    → overlaps n va size s ≡ false
    → n ≢ 0
    → end_of s n < 2 ^ 64
    → va + size < 2 ^ 64
    → (va + size ≤ s.va n) ⊎ (end_of s n ≤ va)
unfolding overlaps
overlaps-false n va size s e nz fit new =
    let w = wraps (s.va n) (s.size n) fit in
    let z = wraps va size new in
    decide (s.va n) (end_of s n) (va + size) n
      (ap₂ (λ a b. not (is_null n) && not (leb b (s.va n) || leb a va)) (sym w) (sym z) ∙ e) nz
  where
    wraps : (a b : ℕ) → a + b < 2 ^ 64 → add64 a b ≡ a + b
    wraps a b h = ground arith

    decide :
        (a0 a1 b1 n : ℕ)
        → not (is_null n) && not (leb b1 a0 || leb a1 va) ≡ false
        → n ≢ 0
        → (b1 ≤ a0) ⊎ (a1 ≤ va)
    decide a0 a1 b1 n e nz = elim (Bool-cases (leb b1 a0)) [
      | inl h ↦ inl (ground (arith, h))
      | inr h ↦ inr (ground (arith, h, e, nz))
    ]

-- A call of `vmm_map` that succeeds has passed all its tests, and has linked the area.
pub passed :
    (k va pa size attrs : ℕ) (v : Vmm)
    → (map k va pa size attrs v).0 ≡ pos 0
    → ((size == 0) ≡ false)
      × (overlaps (find_le k v.areas.tree.root va 0 v.areas) va size v.areas ≡ false)
      × (overlaps (find_ge k v.areas.tree.root va 0 v.areas) va size v.areas ≡ false)
      × ((map k va pa size attrs v).1 ≡ record v {
        areas = insert_area k (alloc_node v.areas).0 va pa size attrs (alloc_node v.areas).1;
        mmu = map_pages va pa size attrs v;
      })
unfolding map
passed k va pa size attrs v =
    chosen_ok (size == 0) (unaligned va || unaligned pa || unaligned size)
      (overlaps (find_le k v.areas.tree.root va 0 v.areas) va size v.areas)
      (overlaps (find_ge k v.areas.tree.root va 0 v.areas) va size v.areas)
      (is_null (alloc_node v.areas).0) v _ _

pub size_real : (n : ℕ) → (n == 0) ≡ false → n ≢ 0
size_real n e = ground (arith, e)

-- From areas in order, and for a range that does not wrap round: when `vmm_map` succeeds, the new
-- area is disjoint from every area there was. More rounds than areas are enough.
pub map-disjoint :
    (k va pa size attrs : ℕ) (v : Vmm) (xs : List ℕ) (y : ℕ)
    → InOrder v.areas xs
    → length xs < k
    → va + size < 2 ^ 64
    → (map k va pa size attrs v).0 ≡ pos 0
    → 1 ≤ occurs y xs
    → (va + size ≤ v.areas.va y) ⊎ (end_of v.areas y ≤ va)
map-disjoint k va pa size attrs v xs y o fuel fit ok m = elim (Bool-cases (leb (v.areas.va y) va)) [
  | inl e ↦ pred (below s va 0 y xs o.separate nz m (ground (arith, e)))
  | inr e ↦ succ (beyond s va 0 y xs o.separate nz m (ground (arith, e)))
]
  where
    s : Areas
    s = v.areas

    found :
        (find_le k s.tree.root va 0 s ≡ last_le s.va va 0 xs)
        × (find_ge k s.tree.root va 0 s ≡ first_ge s.va va 0 xs)
    found = find-InOrder k va s xs o fuel

    tests :
        (size ≢ 0)
        × (overlaps (find_le k s.tree.root va 0 s) va size s ≡ false)
        × (overlaps (find_ge k s.tree.root va 0 s) va size s ≡ false)
    tests = let t = passed k va pa size attrs v ok in (size_real size t.0, t.1, t.2)

    nz : occurs 0 xs ≡ 0
    nz =
        let h = o.tree.links.at.apart.real in
        omega (arith, ap (occurs 0) o.tree.links.same, occurs-nodes 0 o.tree.links.shape, h)

    pred : Below s va y (last_le s.va va 0 xs) → (va + size ≤ s.va y) ⊎ (end_of s y ≤ va)
    pred (p_real, p_end, p_le, order) =
        let clear =
          overlaps-false (last_le s.va va 0 xs) va size s
            (ap (λ n. overlaps n va size s) (sym found.0) ∙ tests.1) p_real p_end fit in
        elim order [
          | inl before ↦ inr (omega (arith, before, p_le))
          | inr same ↦ elim clear [
            | inl h ↦ absurd (tests.0 (omega (arith, h, p_le)))
            | inr h ↦ inr (omega (arith, h, ap (end_of s) same))
          ]
        ]

    succ : Above s va y (first_ge s.va va 0 xs) → (va + size ≤ s.va y) ⊎ (end_of s y ≤ va)
    succ (q_real, q_end, q_ge, q_size, order) =
        let clear =
          overlaps-false (first_ge s.va va 0 xs) va size s
            (ap (λ n. overlaps n va size s) (sym found.1) ∙ tests.2) q_real q_end fit in
        elim clear [
          | inr h ↦ absurd (omega (arith, h, q_ge, q_size))
          | inl h ↦ elim order [
            | inl after ↦ inl (omega (arith, h, after, q_size))
            | inr same ↦ inl (omega (arith, h, ap s.va same))
          ]
        ]
