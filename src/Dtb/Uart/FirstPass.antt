-- ===== src/Dtb/Uart/FirstPass.antt =====
-- The first pass of `dtb_get_stdout_uart_base` ends on every well-formed block.
use mathlib.Core.Path.{subst}
use arcline.Base.{
  ℕ, zero, suc, ◌+◌, ◌-◌, ◌%◌, ◌^◌, ◌<◌, ◌≤◌, ◌≡◌, refl, Bool, true, false, ◌&&◌, ltb, ◌==◌,
  if◌then◌else◌, Array, arith, List, ◌∷◌, length, some, add64, add32, sym, codes,
}
use arcline.Dtb.{begins, Fdt, align4}
use arcline.Dtb.Items.{Text, Item, enter, Block, done, enters, holds, leaves, skips, are_short}
use arcline.Dtb.Uart.{First, first_props, first_node, first_pass, note_prop, after_prop}
use arcline.Dtb.Uart.Path.{named}

module _ (m : Array ℕ) (h : Fdt) (k : ℕ) where
  -- Where a loop over a node of the first pass may stop: the pass is over, or no more items are left
  -- than before.
  data Halts (n : ℕ) : Bool × First → Type 0 where
    over : (s : First) → Halts n (true, s)
    on :
        (s : First) (is : List Item)
        → Block m h s.p is
        → are_short k is ≡ true
        → length is ≤ n
        → Halts n (false, s)

  Halts-more : (n n' : ℕ) (o : Bool × First) → n ≤ n' → Halts n o → Halts n' o
  Halts-more n n' (true, s) le (over s') = over s
  Halts-more n n' (false, s) le (on s' is b sh q) = on s is b sh (omega (arith, q, le))

  note_prop-p : (c a : Bool) (s : First) → (note_prop m h c a s).p ≡ after_prop m h s.p
  unfolding note_prop
  note_prop-p c a s = refl

  first_props_ends :
      (n : ℕ) (c a : Bool) (s : First) {is : List Item}
      → Block m h s.p is
      → are_short k is ≡ true
      → length is < n
      → (o : Bool × First) × (first_props n m h c a s ≡ some o) × Halts (length is) o
  unfolding first_props are_short
  first_props_ends zero c a s b sh q = absurd (omega (arith, q))
  first_props_ends (suc n) c a s (done t) sh q =
      ((true, record s { p = add32 s.p 4 }), rw t refl, over (record s { p = add32 s.p 4 }))
  first_props_ends (suc n) c a s (enters {name = name} {is = is} t x b) sh q =
      ((false, s), rw t refl, on s (enter name ∷ is) (enters t x b) sh (omega arith))
  first_props_ends (suc n) c a s (holds {is = is} t x b) sh q =
      let r =
        first_props_ends n c a (note_prop m h c a s)
          (subst (λ p. Block m h p is) (sym (note_prop-p c a s)) b) sh (omega (arith, q)) in
      (r.0, rw t r.1, Halts-more (length is) (suc (length is)) r.0 (omega arith) r.2)
  first_props_ends (suc n) c a s (leaves {is = is} t b) sh q = (
    (false, record s { p = add32 s.p 4; depth = s.depth - 1 }),
    rw t refl,
    on (record s { p = add32 s.p 4; depth = s.depth - 1 }) is b sh (omega arith),
  )
  first_props_ends (suc n) c a s (skips {is = is} t b) sh q =
      let r = first_props_ends n c a (record s { p = add32 s.p 4 }) b sh (omega (arith, q)) in
      (r.0, rw t r.1, Halts-more (length is) (suc (length is)) r.0 (omega arith) r.2)

  first_node_ends :
      (s : First) {name : List ℕ} {is : List Item}
      → Text m (add64 h.fdt (add32 s.p 4)) name
      → Block m h (add32 (add32 s.p 4) (align4 ((length name + 1) % 2 ^ 32))) is
      → length name < k
      → are_short k is ≡ true
      → length is < k
      → (o : Bool × First) × (first_node k m h s ≡ some o) × Halts (length is) o
  unfolding first_node
  first_node_ends s {name} {is} t b ln sh q =
      let o =
        first_props_ends k ((depth == 2) && begins m (add64 h.fdt (add32 s.p 4)) (codes "chosen"))
          ((depth == 2) && begins m (add64 h.fdt (add32 s.p 4)) (codes "aliases"))
          (record s {
            p = add32 (add32 s.p 4) (align4 ((length name + 1) % 2 ^ 32));
            depth = depth;
          })
          b sh q in
      (o.0, rw (named m k (add64 h.fdt (add32 s.p 4)) t ln) o.1, o.2)
    where
      depth : ℕ
      depth = if ltb s.depth 16 then s.depth + 1 else s.depth

  pub first_pass_ends :
      (n : ℕ) (s : First) {is : List Item}
      → Block m h s.p is
      → are_short k is ≡ true
      → length is < n
      → length is < k
      → (o : First) × (first_pass k n m h s ≡ some o)
  unfolding first_pass are_short
  first_pass_ends zero s b sh q r = absurd (omega (arith, q))
  first_pass_ends (suc n) s (done t) sh q r = (record s { p = add32 s.p 4 }, ground (arith, t))
  first_pass_ends (suc n) s (enters {name = name} {is = is} t x b) sh q r =
      let c = first_node_ends s x b (ground (arith, sh)) (ground (arith, sh)) (omega (arith, r)) in
      go c.0 c.1 c.2 (λ s' is' b' sh' q'.
        first_pass_ends n s' b' sh' (omega (arith, q, q')) (omega (arith, r, q')))
    where
      go :
          (o : Bool × First)
          → first_node k m h s ≡ some o
          → Halts (length is) o
          → ((s' : First) (is' : List Item)
              → Block m h s'.p is'
              → are_short k is' ≡ true
              → length is' ≤ length is
              → (o : First) × (first_pass k n m h s' ≡ some o))
          → (o : First) × (first_pass k (suc n) m h s ≡ some o)
      go (true, s') w (over s'') deeper = (s', ground (arith, t, w))
      go (false, s') w (on s'' is' b' sh' q') deeper =
          let c = deeper s' is' b' sh' q' in (c.0, ground (arith, t, w, c.1))
  first_pass_ends (suc n) s (holds t x b) sh q r =
      let c =
        first_pass_ends n (record s { p = after_prop m h s.p }) b sh (omega (arith, q))
          (omega (arith, r)) in
      (c.0, ground (arith, t, c.1))
  first_pass_ends (suc n) s (leaves t b) sh q r =
      let c =
        first_pass_ends n (record s { p = add32 s.p 4; depth = s.depth - 1 }) b sh
          (omega (arith, q)) (omega (arith, r)) in
      (c.0, ground (arith, t, c.1))
  first_pass_ends (suc n) s (skips t b) sh q r =
      let c =
        first_pass_ends n (record s { p = add32 s.p 4 }) b sh (omega (arith, q))
          (omega (arith, r)) in
      (c.0, ground (arith, t, c.1))
