-- ===== src/Vmm/Translate.antt =====
-- `vmm_virt_to_phys` translates the addresses of the areas.
use arcline.Base.{
  ℕ, suc, ◌+◌, ◌-◌, ◌≤◌, ◌<◌, ltb, leb, ◌≡◌, ◌≢◌, refl, sym, ap, ◌∙◌, List, arith, ◌==◌,
  if◌then◌else◌, true, false, not, ◌&&◌, inl, inr, is_null, length, ◌^◌, ℤ, pos, negsuc, Option,
  none, some, add64,
}
use mathlib.Core.Path.{subst}
use arcline.Rb.Insert.Link.{insert_sorted}
use arcline.Rb.Insert.Sorted.{occurs-insert_sorted}
use arcline.Rb.Insert.Whole.{length-insert_sorted}
use arcline.Rb.Insert.Order.{occurs, occurs-nodes}
use arcline.Rb.Insert.Attach.{store_eq}
use arcline.Vmm.{Areas, Vmm, find_le, insert_area, alloc_node, map, virt_to_phys}
use arcline.Vmm.Search.{last_le, InOrder, find-InOrder}
use arcline.Vmm.Disjoint.{end_of, Below, below, Separate-end}
use arcline.Vmm.Mapped.{map-InOrder, ran, took}

not_null : (s : Areas) (xs : List ℕ) → InOrder s xs → occurs 0 xs ≡ 0
not_null s xs o =
    let h = o.tree.links.at.apart.real in
    omega (arith, ap (occurs 0) o.tree.links.same, occurs-nodes 0 o.tree.links.shape, h)

-- The area that covers an address is the one that the search finds.
find_le-covered :
    (k va : ℕ) (s : Areas) (xs : List ℕ) (y : ℕ)
    → InOrder s xs
    → length xs < k
    → 1 ≤ occurs y xs
    → s.va y ≤ va
    → va < end_of s y
    → find_le k s.tree.root va 0 s ≡ y
find_le-covered k va s xs y o fuel m low high =
    (find-InOrder k va s xs o fuel).0 ∙ same (below s va 0 y xs o.separate (not_null s xs o) m low)
  where
    same : Below s va y (last_le s.va va 0 xs) → last_le s.va va 0 xs ≡ y
    same (nz, fit, le, inl after) = absurd (omega (arith, after, high, le))
    same (nz, fit, le, inr e) = sym e

-- An address inside an area is translated by the area's offset.
pub virt_to_phys-covered :
    (k va out : ℕ) (v : Vmm) (xs : List ℕ) (y : ℕ)
    → InOrder v.areas xs
    → length xs < k
    → out ≢ 0
    → 1 ≤ occurs y xs
    → v.areas.va y ≤ va
    → va < end_of v.areas y
    → virt_to_phys k va out v ≡ (pos 0, some (add64 (v.areas.pa y) (va - v.areas.va y)))
unfolding virt_to_phys
virt_to_phys-covered k va out v xs y o fuel nz m low high =
    ap (λ n. answer n) (find_le-covered k va v.areas xs y o fuel m low high)
    ∙ at out y (v.areas.va y) (v.areas.size y) (add64 (v.areas.pa y) (va - v.areas.va y)) nz y_real
        low high (Separate-end v.areas xs o.separate y m)
  where
    answer : ℕ → ℤ × Option ℕ
    answer n =
        if is_null out
        then (negsuc 0, none)
        else if not (is_null n)
            && (leb (v.areas.va n) va && ltb va (add64 (v.areas.va n) (v.areas.size n)))
        then (pos 0, some (add64 (v.areas.pa n) (va - v.areas.va n)))
        else (pos 0, some va)

    y_real : y ≢ 0
    y_real e = let g = subst (λ n. 1 ≤ occurs n xs) e m in omega (arith, g, not_null v.areas xs o)

    at :
        (out y a z r : ℕ)
        → out ≢ 0
        → y ≢ 0
        → a ≤ va
        → va < a + z
        → a + z < 2 ^ 64
        → (◌≡◌ {A = ℤ × Option ℕ})
            (if is_null out
              then (negsuc 0, none)
              else if not (is_null y) && (leb a va && ltb va (add64 a z))
              then (pos 0, some r)
              else (pos 0, some va))
            (pos 0, some r)
    at out y a z r nz yz low high fit = rw (is_false out nz, is_false y yz, covered) refl
      where
        is_false : (n : ℕ) → n ≢ 0 → is_null n ≡ false
        is_false n h = ground (arith, h)

        covered : (leb a va && ltb va (add64 a z)) ≡ true
        covered = ground (arith, low, high, fit)

-- From areas in order, with a fresh node at the head of the free list and ranges that do not wrap
-- round: each address that `vmm_map` has mapped is translated by `vmm_virt_to_phys` to its physical
-- address.
pub virt_to_phys-map :
    (k va pa size attrs off out : ℕ) (v : Vmm) (xs : List ℕ)
    → InOrder v.areas xs
    → suc (length xs) < k
    → v.areas.free_list ≢ 0
    → occurs v.areas.free_list xs ≡ 0
    → va + size < 2 ^ 64
    → pa + size < 2 ^ 64
    → (map k va pa size attrs v).0 ≡ pos 0
    → off < size
    → out ≢ 0
    → virt_to_phys k (va + off) out (map k va pa size attrs v).1 ≡ (pos 0, some (pa + off))
unfolding insert_area
virt_to_phys-map k va pa size attrs off out v xs o fuel nz fresh fit fit_pa ok inside out_nz =
    virt_to_phys-covered k (va + off) out v' (insert_sorted v'.areas.va va n xs) n
      (map-InOrder k va pa size attrs v xs o (omega (arith, fuel)) nz fresh fit ok)
      (omega (arith, fuel, length-insert_sorted v'.areas.va va n xs)) out_nz
      (counted (occurs n (insert_sorted v'.areas.va va n xs)) (occurs n xs)
        (occurs-insert_sorted v'.areas.va n va n xs))
      (omega (arith, fields.0)) (omega (arith, fields.0, fields.2, inside))
    ∙ ap (λ m. (pos 0, some m)) (sum fields.0 fields.1)
  where
    n : ℕ
    n = v.areas.free_list

    v' : Vmm
    v' = (map k va pa size attrs v).1

    areas : v'.areas ≡ insert_area k n va pa size attrs (alloc_node v.areas).1
    areas =
        ran k va pa size attrs v ok
        ∙ ap (λ m. insert_area k m va pa size attrs (alloc_node v.areas).1)
            (ap (λ g. g.0) (took v.areas nz))

    fields : (v'.areas.va n ≡ va) × (v'.areas.pa n ≡ pa) × (v'.areas.size n ≡ size)
    fields =
        subst (λ s. (s.va n ≡ va) × (s.pa n ≡ pa) × (s.size n ≡ size)) (sym areas)
          (written_fields (alloc_node v.areas).1)
      where
        written_fields :
            (s : Areas)
            → ((insert_area k n va pa size attrs s).va n ≡ va)
              × ((insert_area k n va pa size attrs s).pa n ≡ pa)
              × ((insert_area k n va pa size attrs s).size n ≡ size)
        written_fields s = (store_eq s.va n va, store_eq s.pa n pa, store_eq s.size n size)

    counted : (a b : ℕ) → a ≡ (if n == n then 1 else 0) + b → 1 ≤ a
    counted a b e = ground (arith, e)

    sum :
        v'.areas.va n ≡ va
        → v'.areas.pa n ≡ pa
        → add64 (v'.areas.pa n) (va + off - v'.areas.va n) ≡ pa + off
    sum e f =
        rw (e, f) (plain (pa + off) (va + off - va) (omega (arith, fit_pa, inside)) (omega arith))
      where
        plain : (m d : ℕ) → pa + off < 2 ^ 64 → d ≡ off → add64 pa d ≡ pa + off
        plain m d h e = ground (arith, h, e)
