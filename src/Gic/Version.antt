-- ===== src/Gic/Version.antt =====
-- The version that `gic_detect_version` of drivers/gic.c finds in a well-formed block of items.
use mathlib.Core.Path.{subst}
use arcline.Base.{
  ℕ, zero, suc, ◌+◌, ◌%◌, ◌^◌, ◌<◌, ◌≡◌, ◌≢◌, ◌↔◌, ◌⊎◌, inl, inr, Bool-cases, ==_of_ne, ap, ◌∙◌,
  refl, Bool, true, false, ◌&&◌, arith, if◌then◌else◌, Array, List, [], ◌∷◌, sym, length, Option,
  some, add64, add32, codes,
}
use arcline.Dtb.{Fdt, header, token, name_len, begins, align4}
use arcline.Dtb.Items.{
  Text, Item, enter, property, leave, skip, Block, done, enters, holds, leaves, skips, same,
  is_plain, are_short, name_len_lem, is_text_lem,
}
use arcline.Gic.{down4, is_gicv3, detect_loop, detect_version}

-- A property says that the controller is a GICv3.
unfoldable pub says_gicv3 : Array ℕ → Item → Bool
says_gicv3 m (enter name) = false
says_gicv3 m (property name address len) =
    same (codes "compatible") name && begins m address (codes "arm,gic-v3")
says_gicv3 m leave = false
says_gicv3 m skip = false

-- The first item that says so or is a NOP decides.
unfoldable pub version_of : Array ℕ → List Item → ℕ
unfolding says_gicv3
version_of m [] = 2
version_of m (skip ∷ is) = 2
version_of m (i ∷ is) = let rest = version_of m is in if says_gicv3 m i then 3 else rest

is_gicv3-says_gicv3 :
    (m : Array ℕ) (pname compat len : ℕ) {name : List ℕ}
    → Text m pname name
    → is_gicv3 m pname compat ≡ says_gicv3 m (property name compat len)
unfolding is_gicv3 says_gicv3 is_plain
is_gicv3-says_gicv3 m pname compat len t =
    ground (arith, is_text_lem (codes "compatible") pname m refl t)

moved : (m : Array ℕ) (h : Fdt) (p q : ℕ) (is : List Item) → q ≡ p → Block m h p is → Block m h q is
moved m h p q is e b = subst (λ t. Block m h t is) (sym e) b

aligned-add : (p x : ℕ) → p % 4 ≡ 0 → x % 4 ≡ 0 → add32 p x % 4 ≡ 0
aligned-add p x h g = omega arith

aligned-down4 : (x : ℕ) → down4 x % 4 ≡ 0
aligned-down4 x = omega arith

entered-p :
    (p len : ℕ)
    → p % 4 ≡ 0
    → down4 (add32 (add32 p 4) (len + 0 + 4)) ≡ add32 (add32 p 4) (align4 ((len + 1) % 2 ^ 32))
entered-p p len h = omega arith

passed-p :
    (p len : ℕ) → p % 4 ≡ 0 → down4 (add32 (add32 p 12) (len + 3)) ≡ add32 (add32 p 12) (align4 len)
passed-p p len h = omega arith

decided :
    (b b' : Bool) (x : Option ℕ) (v : ℕ)
    → b ≡ b'
    → x ≡ some v
    → (if b then some 3 else x) ≡ some (if b' then 3 else v)
decided b b' x v e f = ground arith

detect_loop-version_of :
    (n k : ℕ) (m : Array ℕ) (h : Fdt) (p : ℕ) {is : List Item}
    → p % 4 ≡ 0
    → Block m h p is
    → are_short k is ≡ true
    → length is < n
    → detect_loop n k m h p ≡ some (version_of m is)
unfolding detect_loop version_of are_short
detect_loop-version_of zero k m h p al b sh l = absurd (omega arith)
detect_loop-version_of (suc n) k m h p al (done e) sh l = rw e refl
detect_loop-version_of (suc n) k m h p al (skips e b) sh l = rw e refl
detect_loop-version_of (suc n) k m h p al (leaves e b) sh l =
    rw e (detect_loop-version_of n k m h (add32 p 4) (aligned-add p 4 al refl) b sh (omega arith))
detect_loop-version_of (suc n) k m h p al (enters {name = name} {is = is} e t b) sh l =
    rw (e, named)
      (detect_loop-version_of n k m h (down4 (add32 (add32 p 4) (length name + 0 + 4)))
        (aligned-down4 (add32 (add32 p 4) (length name + 0 + 4)))
        (moved m h (add32 (add32 p 4) (align4 ((length name + 1) % 2 ^ 32)))
          (down4 (add32 (add32 p 4) (length name + 0 + 4))) is (entered-p p (length name) al) b)
        (ground arith) (omega arith))
  where
    named : name_len k 0 (add64 h.fdt (add32 p 4)) m ≡ some (length name + 0)
    named =
        name_len_lem k 0 (add64 h.fdt (add32 p 4)) (add64 h.fdt (add32 p 4)) m (omega arith) t
          (ground arith)
detect_loop-version_of (suc n) k m h p al (holds {name = name} {is = is} e t b) sh l = rw e (
    decided (is_gicv3 m (add64 h.strings (token m h (add32 p 8))) (add64 h.fdt (add32 p 12))) _ _ _
      (is_gicv3-says_gicv3 m (add64 h.strings (token m h (add32 p 8))) (add64 h.fdt (add32 p 12))
        (token m h (add32 p 4)) t)
      (detect_loop-version_of n k m h (down4 (add32 (add32 p 12) (token m h (add32 p 4) + 3)))
        (aligned-down4 (add32 (add32 p 12) (token m h (add32 p 4) + 3)))
        (moved m h (add32 (add32 p 12) (align4 (token m h (add32 p 4))))
          (down4 (add32 (add32 p 12) (token m h (add32 p 4) + 3))) is
          (passed-p p (token m h (add32 p 4)) al) b)
        sh (omega arith)))

-- Some property before the first NOP says that the controller is a GICv3.
pub data IsGicv3 (m : Array ℕ) : List Item → Type 0 where
  here : {i : Item} {is : List Item} → says_gicv3 m i ≡ true → IsGicv3 m (i ∷ is)
  later : {i : Item} {is : List Item} → i ≢ skip → IsGicv3 m is → IsGicv3 m (i ∷ is)

version_of-IsGicv3 : (m : Array ℕ) (is : List Item) → (version_of m is ≡ 3) ↔ IsGicv3 m is
unfolding version_of says_gicv3
version_of-IsGicv3 m is = (to is, from is)
  where
    to : (is : List Item) → version_of m is ≡ 3 → IsGicv3 m is
    to [] e = absurd (omega arith)
    to (skip ∷ is) e = absurd (omega arith)
    to (enter name ∷ is) e = later (λ q. cc q) (to is e)
    to (leave ∷ is) e = later (λ q. cc q) (to is e)
    to (property name a l ∷ is) e = elim (Bool-cases (says_gicv3 m (property name a l))) [
      | inl said ↦ here said
      | inr unsaid ↦ later (λ q. cc q) (to is (ground arith))
    ]

    from : (is : List Item) → IsGicv3 m is → version_of m is ≡ 3
    from [] g = elim g [ ]
    from (enter name ∷ is) (here e) = cc e
    from (leave ∷ is) (here e) = cc e
    from (skip ∷ is) (here e) = cc e
    from (property name a l ∷ is) (here e) = rw e refl
    from (enter name ∷ is) (later ne g) = from is g
    from (leave ∷ is) (later ne g) = from is g
    from (skip ∷ is) (later ne g) = absurd (ne refl)
    from (property name a l ∷ is) (later ne g) = ground (arith, from is g)

three_or_two : (m : Array ℕ) (is : List Item) → (version_of m is ≡ 3) ⊎ (version_of m is ≡ 2)
unfolding version_of says_gicv3
three_or_two m [] = inr refl
three_or_two m (skip ∷ is) = inr refl
three_or_two m (enter name ∷ is) = three_or_two m is
three_or_two m (leave ∷ is) = three_or_two m is
three_or_two m (property name a l ∷ is) = ground (arith, three_or_two m is)

-- Where a well-formed block of items stands in memory from an offset on that is a multiple of 4, behind a header that is
-- not at 0, given a round for each item and one for
-- the end, and names shorter than its bound, `gic_detect_version` ends, and answers 3 if some property "compatible"
-- before the first NOP has a value that begins with "arm,gic-v3", and 2 otherwise.
pub detect_version-IsGicv3 :
    (n k dtb : ℕ) (m : Array ℕ) (is : List Item)
    → dtb ≢ 0
    → (header m dtb).off_struct % 4 ≡ 0
    → Block m (header m dtb) (header m dtb).off_struct is
    → are_short k is ≡ true
    → length is < n
    → (IsGicv3 m is × (detect_version n k m dtb ≡ some 3))
      ⊎ ((¬ IsGicv3 m is) × (detect_version n k m dtb ≡ some 2))
unfolding detect_version
detect_version-IsGicv3 n k dtb m is nz al b sh l = elim (three_or_two m is) [
  | inl three ↦
      inl ((version_of-IsGicv3 m is).0 three, rw (==_of_ne dtb 0 nz) (walked ∙ ap some three))
  | inr two ↦ inr (
    λ g. absurd (omega (arith, two, (version_of-IsGicv3 m is).1 g)),
    rw (==_of_ne dtb 0 nz) (walked ∙ ap some two),
  )
]
  where
    walked : detect_loop n k m (header m dtb) (header m dtb).off_struct ≡ some (version_of m is)
    walked = detect_loop-version_of n k m (header m dtb) (header m dtb).off_struct al b sh l
