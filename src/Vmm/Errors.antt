-- ===== src/Vmm/Errors.antt =====
-- What the calls of mm/vmm.c do when they fail.
use arcline.Base.{
  ℕ, ◌≡◌, ◌≢◌, refl, ap, ◌∙◌, arith, Bool, true, false, not, ◌&&◌, ◌||◌, ◌==◌, if◌then◌else◌,
  is_null, Bool-cases, inl, inr, ℤ, pos, negsuc,
}
use arcline.Vmm.{
  Areas, Vmm, init_loop, init_pool, refill, take_node, alloc_node, find_le, find_ge, find_exact,
  overlaps, unaligned, map, unmap, protect,
}

init_pool-free_list : (s : Areas) → (init_pool s).free_list ≡ 256
unfolding init_pool init_loop
init_pool-free_list s = refl

-- `vma_alloc_node` fails only with the pool as it was.
take_node-null : (s : Areas) → (take_node s).0 ≡ 0 → (s.free_list ≡ 0) × ((take_node s).1 ≡ s)
unfolding take_node
take_node-null s e = elim (Bool-cases (is_null s.free_list)) [
  | inl h ↦ (ground (arith, h), rw h refl)
  | inr h ↦ absurd (ground (arith, h, e))
]

refill-null : (s : Areas) → (refill s).free_list ≡ 0 → refill s ≡ s
unfolding refill
refill-null s z = elim (Bool-cases (is_null s.free_list && not s.initialized)) [
  | inl c ↦ absurd (filled (init_pool s).free_list (init_pool-free_list s) (rw c at z))
  | inr c ↦ rw c refl
]
  where
    filled : (n : ℕ) → n ≡ 256 → n ≡ 0 → ⊥
    filled n e f = omega (arith, e, f)

alloc_node-null : (s : Areas) → (alloc_node s).0 ≡ 0 → (alloc_node s).1 ≡ s
unfolding alloc_node
alloc_node-null s e = let h = take_node-null (refill s) e in h.1 ∙ refill-null s h.0

-- The branches of `vmm_map`, and of `vmm_unmap` and `vmm_protect`, in their order.
abbrev pub chosen : (empty crooked before after full : Bool) → Vmm → Vmm → Vmm → ℤ × Vmm
chosen empty crooked before after full v refused done =
    if empty
    then (negsuc 0, v)
    else if crooked
    then (negsuc 1, v)
    else if before
    then (negsuc 2, v)
    else if after
    then (negsuc 2, v)
    else if full
    then (negsuc 3, refused)
    else (pos 0, done)

negative : (n m : ℕ) → negsuc n ≡ pos m → ⊥
negative n m e = ground (arith, e)

chosen-error :
    (empty crooked before after full : Bool) (v refused done : Vmm)
    → (full ≡ true → refused ≡ v)
    → (chosen empty crooked before after full v refused done).0 ≢ pos 0
    → (chosen empty crooked before after full v refused done).1 ≡ v
chosen-error true c b a f v r d same h = refl
chosen-error false true b a f v r d same h = refl
chosen-error false false true a f v r d same h = refl
chosen-error false false false true f v r d same h = refl
chosen-error false false false false true v r d same h = same refl
chosen-error false false false false false v r d same h = absurd (h refl)

pub chosen_ok :
    (empty crooked before after full : Bool) (v refused done : Vmm)
    → (chosen empty crooked before after full v refused done).0 ≡ pos 0
    → (empty ≡ false)
      × (before ≡ false)
      × (after ≡ false)
      × ((chosen empty crooked before after full v refused done).1 ≡ done)
chosen_ok true c b a f v r d e = absurd (negative 0 0 e)
chosen_ok false true b a f v r d e = absurd (negative 1 0 e)
chosen_ok false false true a f v r d e = absurd (negative 2 0 e)
chosen_ok false false false true f v r d e = absurd (negative 2 0 e)
chosen_ok false false false false true v r d e = absurd (negative 3 0 e)
chosen_ok false false false false false v r d e = (refl, refl, refl, refl)

-- A call of `vmm_map` that fails changes nothing.
pub map-error :
    (k va pa size attrs : ℕ) (v : Vmm)
    → (map k va pa size attrs v).0 ≢ pos 0
    → (map k va pa size attrs v).1 ≡ v
unfolding map
map-error k va pa size attrs v =
    chosen-error (size == 0) (unaligned va || unaligned pa || unaligned size)
      (overlaps (find_le k v.areas.tree.root va 0 v.areas) va size v.areas)
      (overlaps (find_ge k v.areas.tree.root va 0 v.areas) va size v.areas)
      (is_null (alloc_node v.areas).0) v _ _
      (λ e.
        ap (λ s. record v { areas = s }) (alloc_node-null v.areas (null (alloc_node v.areas).0 e)))
  where
    null : (n : ℕ) → is_null n ≡ true → n ≡ 0
    null n e = ground (arith, e)

pub unmap-error :
    (k va size : ℕ) (v : Vmm) → (unmap k va size v).0 ≢ pos 0 → (unmap k va size v).1 ≡ v
unfolding unmap
unmap-error k va size v =
    chosen-error (size == 0) (unaligned va || unaligned size)
      (is_null (find_exact k v.areas.tree.root va v.areas)
        || not (v.areas.size (find_exact k v.areas.tree.root va v.areas) == size))
      false false v v _ (λ e. refl)

pub protect-error :
    (k va size attrs : ℕ) (v : Vmm)
    → (protect k va size attrs v).0 ≢ pos 0
    → (protect k va size attrs v).1 ≡ v
unfolding protect
protect-error k va size attrs v =
    chosen-error (size == 0) (unaligned va || unaligned size)
      (is_null (find_exact k v.areas.tree.root va v.areas)
        || not (v.areas.size (find_exact k v.areas.tree.root va v.areas) == size))
      false false v v _ (λ e. refl)
