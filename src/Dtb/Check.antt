-- ===== src/Dtb/Check.antt =====
-- A test of whether items stand in memory, for concrete trees.
use mathlib.Core.Path.{subst}
use arcline.Base.{
  ℕ, ◌+◌, ◌%◌, ◌^◌, ◌≡◌, Bool, true, ◌&&◌, not, arith, ◌==◌, Array, List, [], ◌∷◌, length, add64,
  add32,
}
use arcline.Dtb.{Fdt, token, align4, begin_node, end_node, prop, nop, end_tree}
use arcline.Dtb.Items.{
  Text, ended, byte, Item, enter, property, leave, skip, Block, done, enters, holds, leaves, skips,
}

unfoldable pub has_text : Array ℕ → ℕ → List ℕ → Bool
has_text m a [] = m a == 0
has_text m a (c ∷ cs) = not (c == 0) && (m a == c && has_text m (a + 1) cs)

unfoldable pub has_block : Array ℕ → Fdt → ℕ → List Item → Bool
unfolding has_text
has_block m h p [] = token m h p == end_tree
has_block m h p (enter name ∷ is) =
    token m h p == begin_node
    && (has_text m (add64 h.fdt (add32 p 4)) name
        && has_block m h (add32 (add32 p 4) (align4 ((length name + 1) % 2 ^ 32))) is)
has_block m h p (property name address len ∷ is) =
    token m h p == prop
    && (has_text m (add64 h.strings (token m h (add32 p 8))) name
        && (address == add64 h.fdt (add32 p 12)
            && (len == token m h (add32 p 4)
                && has_block m h (add32 (add32 p 12) (align4 (token m h (add32 p 4)))) is)))
has_block m h p (leave ∷ is) = token m h p == end_node && has_block m h (add32 p 4) is
has_block m h p (skip ∷ is) = token m h p == nop && has_block m h (add32 p 4) is

pub has_text-Text : (m : Array ℕ) (a : ℕ) (cs : List ℕ) → has_text m a cs ≡ true → Text m a cs
unfolding has_text
has_text-Text m a [] h = ended (ground arith)
has_text-Text m a (c ∷ cs) h =
    byte (ground arith) (ground arith) (has_text-Text m (a + 1) cs (ground arith))

pub has_block-Block :
    (m : Array ℕ) (h : Fdt) (p : ℕ) (is : List Item) → has_block m h p is ≡ true → Block m h p is
unfolding has_block
has_block-Block m h p [] e = done (ground arith)
has_block-Block m h p (enter name ∷ is) e =
    enters (ground arith) (has_text-Text m (add64 h.fdt (add32 p 4)) name (ground arith)) (
      has_block-Block m h (add32 (add32 p 4) (align4 ((length name + 1) % 2 ^ 32))) is
        (ground arith))
has_block-Block m h p (property name address len ∷ is) e =
    subst (λ l. Block m h p (property name address l ∷ is)) same_len
      (subst (λ a. Block m h p (property name a (token m h (add32 p 4)) ∷ is)) same_address
        (holds (ground arith)
          (has_text-Text m (add64 h.strings (token m h (add32 p 8))) name (ground arith))
          (has_block-Block m h (add32 (add32 p 12) (align4 (token m h (add32 p 4)))) is
            (ground arith))))
  where
    same_address : add64 h.fdt (add32 p 12) ≡ address
    same_address = ground arith

    same_len : token m h (add32 p 4) ≡ len
    same_len = ground arith
has_block-Block m h p (leave ∷ is) e =
    leaves (ground arith) (has_block-Block m h (add32 p 4) is (ground arith))
has_block-Block m h p (skip ∷ is) e =
    skips (ground arith) (has_block-Block m h (add32 p 4) is (ground arith))
