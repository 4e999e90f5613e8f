-- ===== src/Vmm/Search.antt =====
-- The searches of mm/vmm.c find what a scan of all areas finds.
use arcline.Base.{
  ℕ, zero, suc, ◌+◌, ◌≤◌, ◌<◌, ltb, leb, ◌≡◌, ◌≢◌, refl, sym, ap, ◌∙◌, List, [], ◌∷◌, ◌++◌, arith,
  ◌==◌, if◌then◌else◌, true, false, Bool-cases, inl, inr, length, ◌^◌,
}
use mathlib.Core.Path.{subst}
use arcline.Rb.Shape.{Shape, leaf, node, top, nodes, count, Links}
use arcline.Rb.Insert.Link.{All, All-map, Sorted, Sorted-parts, Sorted-before, size}
use arcline.Rb.Insert.Sorted.{length-nodes}
use arcline.Rb.Insert.Whole.{IsTree}
use arcline.Vmm.{Areas, find_le, find_ge}

-- The last node of a list whose area starts at or below `va`, and the first one whose area starts at
-- or above it.
abbrev pub last_le : (ℕ → ℕ) → ℕ → ℕ → List ℕ → ℕ
last_le key va res [] = res
last_le key va res (x ∷ xs) = last_le key va (if ltb va (key x) then res else x) xs

abbrev pub first_ge : (ℕ → ℕ) → ℕ → ℕ → List ℕ → ℕ
first_ge key va res [] = res
first_ge key va res (x ∷ xs) = if leb va (key x) then x else first_ge key va res xs

module _ (key : ℕ → ℕ) (va : ℕ) where
  last_le-append :
      (res : ℕ) (xs ys : List ℕ)
      → last_le key va res (xs ++ ys) ≡ last_le key va (last_le key va res xs) ys
  last_le-append res [] ys = refl
  last_le-append res (x ∷ xs) ys = last_le-append (if ltb va (key x) then res else x) xs ys

  last_le-none : (res : ℕ) (xs : List ℕ) → All (λ y. va < key y) xs → last_le key va res xs ≡ res
  last_le-none res [] h = refl
  last_le-none res (x ∷ xs) (h, hs) =
      ap (λ r. last_le key va r xs) (at (key x) h) ∙ last_le-none res xs hs
    where
      at : (m : ℕ) → va < m → (if ltb va m then res else x) ≡ res
      at m h = ground (arith, h)

  first_ge-append :
      (res : ℕ) (xs ys : List ℕ)
      → first_ge key va res (xs ++ ys) ≡ first_ge key va (first_ge key va res ys) xs
  first_ge-append res [] ys = refl
  first_ge-append res (x ∷ xs) ys =
      ap (λ r. if leb va (key x) then x else r) (first_ge-append res xs ys)

  first_ge-none : (res : ℕ) (xs : List ℕ) → All (λ y. key y < va) xs → first_ge key va res xs ≡ res
  first_ge-none res [] h = refl
  first_ge-none res (x ∷ xs) (h, hs) =
      at (key x) h (first_ge key va res xs) ∙ first_ge-none res xs hs
    where
      at : (m : ℕ) → m < va → (r : ℕ) → (if leb va m then x else r) ≡ r
      at m h r = ground (arith, h)

-- The searches, on the part of the tree below a node.
module _ (s : Areas) (va : ℕ) where
  le_left :
      (k a res : ℕ)
      → a ≢ 0
      → ltb va (s.va a) ≡ true
      → find_le (suc k) a va res s ≡ find_le k (s.tree.left a) va res s
  unfolding find_le
  le_left k a res nz e = rw e (ground (arith, nz))

  le_right :
      (k a res : ℕ)
      → a ≢ 0
      → ltb va (s.va a) ≡ false
      → find_le (suc k) a va res s ≡ find_le k (s.tree.right a) va a s
  unfolding find_le
  le_right k a res nz e = rw e (ground (arith, nz))

  le_end : (k res : ℕ) → find_le k 0 va res s ≡ res
  unfolding find_le
  le_end zero res = refl
  le_end (suc k) res = refl

  find_le-Links :
      (k p res : ℕ) (t : Shape)
      → Links s.tree.left s.tree.right s.tree.parent p t
      → count 0 t ≡ 0
      → Sorted s.va (nodes t)
      → size t < k
      → find_le k (top t) va res s ≡ last_le s.va va res (nodes t)
  find_le-Links k p res leaf l nz sorted fuel = le_end k res
  find_le-Links zero p res (node l a r) k nz sorted fuel = absurd (omega (arith, fuel))
  find_le-Links (suc n) p res (node l a r) k nz sorted fuel = elim (Bool-cases (ltb va (s.va a))) [
    | inl e ↦
        le_left n a res a_real e
        ∙ ap (λ m. find_le n m va res s) k.1
        ∙ find_le-Links n a res l k.3 (omega (arith, nz)) parts.0 (omega (arith, fuel))
        ∙ sym (
            last_le-append s.va va res (nodes l) (a ∷ nodes r)
            ∙ ap (λ b. last_le s.va va (if b then last_le s.va va res (nodes l) else a) (nodes r)) e
            ∙ last_le-none s.va va (last_le s.va va res (nodes l)) (nodes r) (
                All-map (λ y. s.va a ≤ s.va y) (λ y. va < s.va y)
                  (λ y h. beyond (s.va a) (s.va y) e h) (nodes r) parts.1.0))
    | inr e ↦
        le_right n a res a_real e
        ∙ ap (λ m. find_le n m va a s) k.2
        ∙ find_le-Links n a a r k.4 (omega (arith, nz)) parts.1.1 (omega (arith, fuel))
        ∙ sym (
            last_le-append s.va va res (nodes l) (a ∷ nodes r)
            ∙ ap (λ b. last_le s.va va (if b then last_le s.va va res (nodes l) else a) (nodes r))
                e)
  ]
    where
      parts : Sorted s.va (nodes l) × Sorted s.va (a ∷ nodes r)
      parts = Sorted-parts s.va (nodes l) (a ∷ nodes r) sorted

      beyond : (m n : ℕ) → ltb va m ≡ true → m ≤ n → va < n
      beyond m n e h = ground (arith, e, h)

      a_real : a ≢ 0
      a_real = at (count 0 l) (count 0 r) nz
        where
          at : (m n : ℕ) → m + (if 0 == a then 1 else 0) + n ≡ 0 → a ≢ 0
          at m n h = ground (arith, h)

  ge_left :
      (k a res : ℕ)
      → a ≢ 0
      → leb va (s.va a) ≡ true
      → find_ge (suc k) a va res s ≡ find_ge k (s.tree.left a) va a s
  unfolding find_ge
  ge_left k a res nz e = rw e (ground (arith, nz))

  ge_right :
      (k a res : ℕ)
      → a ≢ 0
      → leb va (s.va a) ≡ false
      → find_ge (suc k) a va res s ≡ find_ge k (s.tree.right a) va res s
  unfolding find_ge
  ge_right k a res nz e = rw e (ground (arith, nz))

  ge_end : (k res : ℕ) → find_ge k 0 va res s ≡ res
  unfolding find_ge
  ge_end zero res = refl
  ge_end (suc k) res = refl

  find_ge-Links :
      (k p res : ℕ) (t : Shape)
      → Links s.tree.left s.tree.right s.tree.parent p t
      → count 0 t ≡ 0
      → Sorted s.va (nodes t)
      → size t < k
      → find_ge k (top t) va res s ≡ first_ge s.va va res (nodes t)
  find_ge-Links k p res leaf l nz sorted fuel = ge_end k res
  find_ge-Links zero p res (node l a r) k nz sorted fuel = absurd (omega (arith, fuel))
  find_ge-Links (suc n) p res (node l a r) k nz sorted fuel = elim (Bool-cases (leb va (s.va a))) [
    | inl e ↦
        ge_left n a res a_real e
        ∙ ap (λ m. find_ge n m va a s) k.1
        ∙ find_ge-Links n a a l k.3 (omega (arith, nz)) parts.0 (omega (arith, fuel))
        ∙ sym (
            first_ge-append s.va va res (nodes l) (a ∷ nodes r)
            ∙ ap (λ b. first_ge s.va va (if b then a else first_ge s.va va res (nodes r)) (nodes l))
                e)
    | inr e ↦
        ge_right n a res a_real e
        ∙ ap (λ m. find_ge n m va res s) k.2
        ∙ find_ge-Links n a res r k.4 (omega (arith, nz)) parts.1.1 (omega (arith, fuel))
        ∙ sym (
            first_ge-append s.va va res (nodes l) (a ∷ nodes r)
            ∙ ap (λ b. first_ge s.va va (if b then a else first_ge s.va va res (nodes r)) (nodes l))
                e
            ∙ first_ge-none s.va va (first_ge s.va va res (nodes r)) (nodes l) (
                All-map (λ y. s.va y ≤ s.va a) (λ y. s.va y < va)
                  (λ y h. before (s.va a) (s.va y) e h) (nodes l)
                  (Sorted-before s.va (nodes l) a (nodes r) sorted)))
  ]
    where
      parts : Sorted s.va (nodes l) × Sorted s.va (a ∷ nodes r)
      parts = Sorted-parts s.va (nodes l) (a ∷ nodes r) sorted

      before : (m n : ℕ) → leb va m ≡ false → n ≤ m → n < va
      before m n e h = ground (arith, e, h)

      a_real : a ≢ 0
      a_real = at (count 0 l) (count 0 r) nz
        where
          at : (m n : ℕ) → m + (if 0 == a then 1 else 0) + n ≡ 0 → a ≢ 0
          at m n h = ground (arith, h)

-- The areas are in order: the tree holds `xs`, by first address, and no area is empty or reaches
-- into the next or past the end of the address space.
abbrev pub Separate : Areas → List ℕ → Type 0
Separate s [] = Unit
Separate s (x ∷ xs) =
    (0 < s.size x)
    × (s.va x + s.size x < 2 ^ 64)
    × All (λ y. s.va x + s.size x ≤ s.va y) xs
    × Separate s xs

pub record InOrder (s : Areas) (xs : List ℕ) : Type 0 where
  pub tree : IsTree 1 xs s.tree
  pub separate : Separate s xs

pub Separate-Sorted : (s : Areas) (xs : List ℕ) → Separate s xs → Sorted s.va xs
Separate-Sorted s [] h = tt
Separate-Sorted s (x ∷ xs) (p, e, h, hs) = (
  All-map (λ y. s.va x + s.size x ≤ s.va y) (λ y. s.va x ≤ s.va y) (λ y g. omega (arith, g)) xs h,
  Separate-Sorted s xs hs,
)

-- Both searches of `vmm_map` agree with a scan of all areas in order of their addresses, when they
-- are given more rounds than there are areas.
pub find-InOrder :
    (k va : ℕ) (s : Areas) (xs : List ℕ)
    → InOrder s xs
    → length xs < k
    → (find_le k s.tree.root va 0 s ≡ last_le s.va va 0 xs)
      × (find_ge k s.tree.root va 0 s ≡ first_ge s.va va 0 xs)
find-InOrder k va s xs o fuel = (
  ap (λ r. find_le k r va 0 s) o.tree.links.at.around
      ∙ find_le-Links s va k 0 0 o.tree.links.shape o.tree.links.at.links real sorted enough
      ∙ ap (last_le s.va va 0) o.tree.links.same,
  ap (λ r. find_ge k r va 0 s) o.tree.links.at.around
      ∙ find_ge-Links s va k 0 0 o.tree.links.shape o.tree.links.at.links real sorted enough
      ∙ ap (first_ge s.va va 0) o.tree.links.same,
)
  where
    real : count 0 o.tree.links.shape ≡ 0
    real = let h = o.tree.links.at.apart.real in omega (arith, h)

    sorted : Sorted s.va (nodes o.tree.links.shape)
    sorted = subst (Sorted s.va) (sym o.tree.links.same) (Separate-Sorted s xs o.separate)

    enough : size o.tree.links.shape < k
    enough = omega (arith, fuel, length-nodes o.tree.links.shape, ap length o.tree.links.same)
