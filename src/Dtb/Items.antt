-- ===== src/Dtb/Items.antt =====
-- A well-formed structure block (drivers/dtb.c): the items that stand in it, and what the walks read there.
use arcline.Base.{
  ℕ, zero, suc, ◌+◌, ◌%◌, ◌^◌, ◌<◌, ◌≡◌, ◌≢◌, refl, Bool, true, false, ◌&&◌, ltb, ◌≤◌, not, arith,
  ◌==◌, Array, List, [], ◌∷◌, length, some, add64, add32, ap,
}
use arcline.Dtb.{
  Fdt, token, name_len, begins, is_text, align4, begin_node, end_node, prop, nop, end_tree,
}

-- The bytes of a text stand at an address, with a NUL behind them.
pub data Text (m : Array ℕ) : ℕ → List ℕ → Type 0 where
  ended : {a : ℕ} → m a ≡ 0 → Text m a []
  byte : {a c : ℕ} {cs : List ℕ} → m a ≡ c → c ≢ 0 → Text m (a + 1) cs → Text m a (c ∷ cs)

-- The address of the text is fixed by where it stands, so it is no part of the item.
pub data Item : Type 0 where
  enter : List ℕ → Item
  -- a property, with the address and the length of its value
  property : List ℕ → ℕ → ℕ → Item
  leave : Item
  skip : Item

-- The items that stand from the offset `p` on, up to the end of the block.
pub data Block (m : Array ℕ) (h : Fdt) : ℕ → List Item → Type 0 where
  done : {p : ℕ} → token m h p ≡ end_tree → Block m h p []
  enters :
      {p : ℕ} {name : List ℕ} {is : List Item}
      → token m h p ≡ begin_node
      → Text m (add64 h.fdt (add32 p 4)) name
      → Block m h (add32 (add32 p 4) (align4 ((length name + 1) % 2 ^ 32))) is
      → Block m h p (enter name ∷ is)
  holds :
      {p : ℕ} {name : List ℕ} {is : List Item}
      → token m h p ≡ prop
      → Text m (add64 h.strings (token m h (add32 p 8))) name
      → Block m h (add32 (add32 p 12) (align4 (token m h (add32 p 4)))) is
      → Block m h p (property name (add64 h.fdt (add32 p 12)) (token m h (add32 p 4)) ∷ is)
  leaves :
      {p : ℕ} {is : List Item}
      → token m h p ≡ end_node
      → Block m h (add32 p 4) is
      → Block m h p (leave ∷ is)
  skips :
      {p : ℕ} {is : List Item}
      → token m h p ≡ nop
      → Block m h (add32 p 4) is
      → Block m h p (skip ∷ is)

-- The loop over a name finds its length, given a round for each byte and one for the NUL.
pub name_len_lem :
    (k len a b : ℕ) (m : Array ℕ) {cs : List ℕ}
    → b ≡ a + len
    → Text m b cs
    → length cs < k
    → name_len k len a m ≡ some (length cs + len)
unfolding name_len
name_len_lem zero len a b m e t h = absurd (omega arith)
name_len_lem (suc k) len a b m e (ended z) h = ground (arith, ap m e)
name_len_lem (suc k) len a b m e (byte z n t) h =
    ground (arith, ap m e, name_len_lem k (len + 1) a (b + 1) m (omega arith) t (omega arith))

-- A text begins with the bytes of a literal.
unfoldable pub starts : List ℕ → List ℕ → Bool
starts [] cs = true
starts (l ∷ ls) [] = false
starts (l ∷ ls) (c ∷ cs) = c == l && starts ls cs

unfoldable pub same : List ℕ → List ℕ → Bool
same [] [] = true
same [] (c ∷ cs) = false
same (l ∷ ls) [] = false
same (l ∷ ls) (c ∷ cs) = c == l && same ls cs

-- No NUL is among the bytes.
unfoldable pub is_plain : List ℕ → Bool
is_plain [] = true
is_plain (l ∷ ls) = not (l == 0) && is_plain ls

plain_tail : (l : ℕ) (ls : List ℕ) → is_plain (l ∷ ls) ≡ true → is_plain ls ≡ true
unfolding is_plain
plain_tail l ls p = ground arith

-- `strncmp` with the length of a literal compares beginnings.
pub begins_lem :
    (ls : List ℕ) (a : ℕ) (m : Array ℕ) {cs : List ℕ}
    → is_plain ls ≡ true
    → Text m a cs
    → begins m a ls ≡ starts ls cs
unfolding begins starts is_plain
begins_lem [] a m p t = refl
begins_lem (l ∷ ls) a m p (ended z) = ground arith
begins_lem (l ∷ ls) a m p (byte z n t) =
    ground (arith, begins_lem ls (a + 1) m (plain_tail l ls p) t)

-- `strcmp` with a literal compares the whole text.
pub is_text_lem :
    (ls : List ℕ) (a : ℕ) (m : Array ℕ) {cs : List ℕ}
    → is_plain ls ≡ true
    → Text m a cs
    → is_text m a ls ≡ same ls cs
unfolding begins same is_plain
is_text_lem [] a m p (ended z) = ground arith
is_text_lem [] a m p (byte z n t) = ground arith
is_text_lem (l ∷ ls) a m p (ended z) = ground arith
is_text_lem (l ∷ ls) a m p (byte z n t) =
    ground (arith, is_text_lem ls (a + 1) m (plain_tail l ls p) t)

pub starts-length : (ls cs : List ℕ) → starts ls cs ≡ true → length ls ≤ length cs
unfolding starts
starts-length [] cs h = omega arith
starts-length (l ∷ ls) [] h = cc h
starts-length (l ∷ ls) (c ∷ cs) h = ground (arith, starts-length ls cs)

-- Every name among the items is shorter than `k` bytes.
unfoldable pub are_short : ℕ → List Item → Bool
are_short k [] = true
are_short k (enter name ∷ is) = ltb (length name) k && are_short k is
are_short k (property name a len ∷ is) = are_short k is
are_short k (leave ∷ is) = are_short k is
are_short k (skip ∷ is) = are_short k is
