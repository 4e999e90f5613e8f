-- ===== src/Strings/Copy.antt =====
-- What the functions that fill and copy memory leave at each address.
use arcline.Base.{
  ℕ, zero, suc, ◌+◌, ◌-◌, ◌%◌, ◌≤◌, ◌≡◌, ◌⊎◌, inl, inr, ◌∙◌, Bool, ◌&&◌, arith, ltb, leb,
  if◌then◌else◌, Array, store, Bool-cases,
}
use arcline.Strings.{set_loop, memset, copy_up, memcpy, copy_down, memmove}

-- The address is one of the `n` from `p` on.
abbrev pub within : ℕ → ℕ → ℕ → Bool
within p n j = leb p j && ltb j (p + n)

set_loop_lem :
    (k i p byte j : ℕ) (m : Array ℕ)
    → set_loop k i p byte m j ≡ (if within (p + i) k j then byte else m j)
unfolding set_loop
set_loop_lem zero i p byte j m = ground arith
set_loop_lem (suc k) i p byte j m =
    set_loop_lem k (i + 1) p byte j (store m (p + i) byte) ∙ ground arith

-- `memset` sets the bytes of its range to the low byte of `c` and no other.
pub memset_lem :
    (s c n j : ℕ) (m : Array ℕ) → memset s c n m j ≡ (if within s n j then c % 256 else m j)
unfolding memset
memset_lem s c n j m = set_loop_lem n 0 s (c % 256) j m ∙ ground arith

-- The memory after a copy whose source is read before it is written over.
abbrev pub copied : ℕ → ℕ → ℕ → Array ℕ → Array ℕ
copied d s n m = λ j. if within d n j then m (s + (j - d)) else m j

copy_up_lem :
    (k i d s j : ℕ) (m : Array ℕ)
    → (d ≤ s) ⊎ (s + (i + k) ≤ d)
    → copy_up k i d s m j ≡ (if within (d + i) k j then m (s + (j - d)) else m j)
unfolding copy_up
copy_up_lem zero i d s j m h = ground arith
copy_up_lem (suc k) i d s j m h =
    copy_up_lem k (i + 1) d s j (store m (d + i) (m (s + i))) (omega (arith, h)) ∙ grind arith

copy_down_lem : (n d s j : ℕ) (m : Array ℕ) → s ≤ d → copy_down n d s m j ≡ copied d s n m j
unfolding copy_down
copy_down_lem zero d s j m h = ground arith
copy_down_lem (suc n) d s j m h =
    copy_down_lem n d s j (store m (d + n) (m (s + n))) h ∙ grind arith

-- `memcpy` of ranges that do not overlap copies the source.
pub memcpy-copied :
    (d s n j : ℕ) (m : Array ℕ) → (d + n ≤ s) ⊎ (s + n ≤ d) → memcpy d s n m j ≡ copied d s n m j
unfolding memcpy
memcpy-copied d s n j m h = copy_up_lem n 0 d s j m (omega (arith, h)) ∙ ground arith

-- `memmove` copies the source, whether or not the ranges overlap.
pub memmove-copied : (d s n j : ℕ) (m : Array ℕ) → memmove d s n m j ≡ copied d s n m j
unfolding memmove
memmove-copied d s n j m = elim (Bool-cases (ltb d s)) [
  | inl below ↦ rw below (copy_up_lem n 0 d s j m (inl (ground (arith, below))) ∙ ground arith)
  | inr not_below ↦ elim (Bool-cases (ltb s d)) [
    | inl above ↦ rw (not_below, above) (copy_down_lem n d s j m (ground (arith, above)))
    | inr same ↦ rw (not_below, same) (grind arith)
  ]
]
