-- ===== src/Vmalloc/Best/Whole.antt =====
-- What `find_free_space` answers, and what it takes from the free list or the fresh addresses.
use arcline.Base.{
  ℕ, ◌+◌, ◌≤◌, ◌<◌, ltb, leb, ◌≡◌, ◌≢◌, refl, sym, ap, ◌∙◌, List, [], ◌∷◌, arith, ◌==◌,
  if◌then◌else◌, Array, store, true, false, Bool-cases, inl, inr, is_null, length, add64, sub64,
}
use arcline.Rb.Insert.Order.{occurs}
use arcline.Vmalloc.{
  Space, find_best, take_block, use_block, fresh_space, find_free_space, vmalloc_end,
}
use arcline.Vmalloc.Best.{Chain, Least, find_best-Least, Before, find_best-Before}

-- The least free block that is large enough.
pub record BestFit (size : ℕ) (s : Space) (xs : List ℕ) (b : ℕ) : Type 0 where
  pub listed : 1 ≤ occurs b xs
  pub fits : size ≤ s.size b
  pub least : (y : ℕ) → 1 ≤ occurs y xs → size ≤ s.size y → s.size b ≤ s.size y

-- The block `b`, which `bp` linked, has left the free list: what linked it links the block behind it,
-- which links back to what `b` did, and `b` is the first of the pool. Every other link and every range
-- is the same.
pub record Taken (b bp : ℕ) (s s' : Space) : Type 0 where
  pub passed : (if is_null bp then s'.free_list else s'.next bp) ≡ s.next b
  pub head : bp ≢ 0 → s'.free_list ≡ s.free_list
  pub others : (y : ℕ) → y ≢ b → y ≢ bp → s'.next y ≡ s.next y
  pub back : (y : ℕ) → y ≢ 0 → s'.prev y ≡ (if y == s.next b then s.prev b else s.prev y)
  pub pool : s'.pool_list ≡ b
  pub pooled : s'.next b ≡ s.pool_list
  pub va : s'.va ≡ s.va
  pub size : s'.size ≡ s.size
  pub vmalloc_next : s'.vmalloc_next ≡ s.vmalloc_next

take_block-Taken : (b bp : ℕ) (s : Space) → b ≢ 0 → bp ≢ b → Taken b bp s (take_block b bp s)
unfolding take_block
take_block-Taken b bp s nz ne = record {
  passed = ground (arith, ne, nz);
  head = λ real. ground (arith, real);
  others = λ y p q. ground (arith, p, q);
  back = λ y real. ground (arith, ne, nz, real);
  pool = ground arith;
  pooled = ground arith;
  va = ground arith;
  size = ground arith;
  vmalloc_next = ground arith;
}

-- How `find_free_space` ends.
pub data Found (size : ℕ) (s : Space) (xs : List ℕ) : ℕ × Space → Type 0 where
  whole :
      (b bp : ℕ) (s' : Space)
      → BestFit size s xs b
      → s.size b ≡ size
      → Before s b bp
      → Taken b bp s s'
      → Found size s xs (s.va b, s')
  part :
      (b : ℕ)
      → BestFit size s xs b
      → s.size b ≢ size
      → Found size s xs (
        s.va b,
        record s {
          va = store s.va b (add64 (s.va b) size);
          size = store s.size b (sub64 (s.size b) size);
        },
      )
  fresh :
      ((y : ℕ) → 1 ≤ occurs y xs → s.size y < size)
      → add64 s.vmalloc_next size ≤ vmalloc_end
      → Found size s xs (s.vmalloc_next, record s { vmalloc_next = add64 s.vmalloc_next size })
  failed :
      ((y : ℕ) → 1 ≤ occurs y xs → s.size y < size)
      → vmalloc_end < add64 s.vmalloc_next size
      → Found size s xs (0, s)

Chain-real :
    (next : Array ℕ) (p : ℕ) (xs : List ℕ) → Chain next p xs → (y : ℕ) → 1 ≤ occurs y xs → y ≢ 0
Chain-real next p [] c y m = absurd (omega (arith, m))
Chain-real next p (x ∷ xs) c y m = elim (Bool-cases (y == x)) [
  | inl e ↦ ground (arith, e, c.1)
  | inr e ↦ Chain-real next (next x) xs c.2 y (ground (arith, m, e))
]

-- A block that links itself is in no list that ends.
self_link : (next : Array ℕ) (b p : ℕ) (xs : List ℕ) → next b ≡ b → p ≡ b → Chain next p xs → b ≡ 0
self_link next b p [] e q c = sym q ∙ c
self_link next b p (x ∷ xs) e q c =
    let at : x ≡ b = sym c.0 ∙ q in self_link next b (next x) xs e (ap next at ∙ e) c.2

self_link_listed :
    (next : Array ℕ) (b p : ℕ) (xs : List ℕ)
    → next b ≡ b
    → Chain next p xs
    → 1 ≤ occurs b xs
    → b ≡ 0
self_link_listed next b p [] e c m = absurd (omega (arith, m))
self_link_listed next b p (x ∷ xs) e c m = elim (Bool-cases (b == x)) [
  | inl here ↦ self_link next b p (x ∷ xs) e (c.0 ∙ ground (arith, here)) c
  | inr past ↦ self_link_listed next b (next x) xs e c.2 (ground (arith, past, m))
]

use_block-Found :
    (size b bp : ℕ) (s : Space) (xs : List ℕ)
    → Chain s.next s.free_list xs
    → b ≢ 0
    → Before s b bp
    → BestFit size s xs b
    → Found size s xs (use_block size b bp s)
unfolding use_block
use_block-Found size b bp s xs c nz at best = elim (Bool-cases (s.size b == size)) [
  | inl e ↦ rw e (
      whole b bp (take_block b bp s) best (ground (arith, e)) at (take_block-Taken b bp s nz apart))
  | inr e ↦ rw e (part b best (λ z. ground (arith, e, z)))
]
  where
    apart : bp ≢ b
    apart z = nz (self_link_listed s.next b s.free_list xs (looped z) c best.listed)
      where
        looped : bp ≡ b → s.next b ≡ b
        looped z =
            let real : is_null bp ≡ false = ground (arith, z, nz) in
            ap s.next (sym z) ∙ (sym (ap (λ t. if t then s.free_list else s.next bp) real) ∙ at)

fresh_space-Found :
    (size : ℕ) (s : Space) (xs : List ℕ)
    → ((y : ℕ) → 1 ≤ occurs y xs → s.size y < size)
    → Found size s xs (fresh_space size s)
unfolding fresh_space
fresh_space-Found size s xs none_fits =
    elim (Bool-cases (ltb vmalloc_end (add64 s.vmalloc_next size))) [
      | inl e ↦ rw e (failed none_fits (ground (arith, e)))
      | inr e ↦ rw e (fresh none_fits (ground (arith, e)))
    ]

-- On a free list that ends within `k` blocks, `find_free_space` answers the start of the least free
-- block that is large enough: one of the very size leaves the list for the pool and nothing else is
-- changed, from a larger one the range is taken off its start. With no block large enough it answers
-- and takes fresh addresses, or fails at the end of the range and changes nothing.
pub find_free_space-Found :
    (k size : ℕ) (s : Space) (xs : List ℕ)
    → Chain s.next s.free_list xs
    → length xs < k
    → Found size s xs (find_free_space k size s)
unfolding find_free_space
find_free_space-Found k size s xs c fuel = elim (Bool-cases (is_null b)) [
  | inl e ↦ rw e (fresh_space-Found size s xs (none_fits (null b e)))
  | inr e ↦ rw e (
      use_block-Found size b (find_best k size s.free_list 0 0 0 s).1 s xs c (real b e)
        (find_best-Before k size s.free_list 0 0 0 s refl (λ z. absurd (z refl)) (real b e))
        (record {
          listed = among (real b e);
          fits = h.fits (real b e);
          least = λ y m fit. (h.least y (Chain-real s.next s.free_list xs c y m) (later y m) fit).1;
        }))
]
  where
    b : ℕ
    b = (find_best k size s.free_list 0 0 0 s).0

    h : Least size s (0 ∷ xs) (find_best k size s.free_list 0 0 0 s).0
    h = find_best-Least size s k s.free_list 0 0 0 xs c fuel (λ z. absurd (z refl))

    null : (n : ℕ) → is_null n ≡ true → n ≡ 0
    null n e = ground (arith, e)

    real : (n : ℕ) → is_null n ≡ false → n ≢ 0
    real n e = ground (arith, e)

    later : (y : ℕ) → 1 ≤ occurs y xs → 1 ≤ occurs y (0 ∷ xs)
    later y m = omega (arith, m)

    among : b ≢ 0 → 1 ≤ occurs b xs
    among nz = at b nz (occurs b xs) h.from
      where
        at : (n : ℕ) → n ≢ 0 → (m : ℕ) → 1 ≤ (if n == 0 then 1 else 0) + m → 1 ≤ m
        at n nz m f = ground (arith, nz, f)

    none_fits : b ≡ 0 → (y : ℕ) → 1 ≤ occurs y xs → s.size y < size
    none_fits e y m = elim (Bool-cases (leb size (s.size y))) [
      | inl l ↦ absurd (
          (h.least y (Chain-real s.next s.free_list xs c y m) (later y m) (small (s.size y) l)).0 e)
      | inr g ↦ big (s.size y) g
    ]
      where
        small : (n : ℕ) → leb size n ≡ true → size ≤ n
        small n e = ground (arith, e)

        big : (n : ℕ) → leb size n ≡ false → n < size
        big n e = ground (arith, e)
