-- ===== src/Dtb/Uart/SecondPass.antt =====
-- The second pass of `dtb_get_stdout_uart_base` ends on every well-formed block.
use arcline.Base.{
  ℕ, zero, suc, ◌+◌, ◌-◌, ◌%◌, ◌^◌, ◌<◌, ◌≤◌, ◌≡◌, refl, Bool, true, ◌&&◌, ◌==◌, if◌then◌else◌,
  Array, arith, List, ◌∷◌, length, Option, none, some, add64, add32, Bool-cases, inl, inr, codes,
}
use arcline.Dtb.{begins, Fdt, token, align4}
use arcline.Dtb.Items.{Text, Item, Block, done, enters, holds, leaves, skips, are_short}
use arcline.Dtb.Uart.{
  after_prop, append_name, Second, Outcome, returns, goes_on, reg_base, second_props, second_node,
  second_pass,
}
use arcline.Dtb.Uart.Path.{Ended, named, path_equals_ends, append_name_ends, pop_name_ends}

module _ (m : Array ℕ) (h : Fdt) (k : ℕ) where
  -- Where a loop over a node of the second pass may stop: no more items are left than before, and the
  -- path has its end.
  data Stops (l n : ℕ) : Outcome Second → Type 0 where
    over : (base : Option ℕ) → Stops l n (returns base)
    on :
        (s : Second) (is : List Item)
        → Block m h s.p is
        → are_short k is ≡ true
        → length is ≤ n
        → Ended l s.path
        → Stops l n (goes_on s)

  Stops-more : (l n n' : ℕ) (o : Outcome Second) → n ≤ n' → Stops l n o → Stops l n' o
  Stops-more l n n' (returns base) le (over base') = over base
  Stops-more l n n' (goes_on s) le (on s' is b sh q e) = on s is b sh (omega (arith, q, le)) e

  second_props_ends :
      (n l : ℕ) (target : Bool) (s : Second) {is : List Item}
      → Block m h s.p is
      → are_short k is ≡ true
      → length is < n
      → Ended l s.path
      → 255 ≤ l
      → l < k
      → (o : Outcome Second) × (second_props k n m h target s ≡ some o) × Stops l (length is) o
  unfolding second_props are_short
  second_props_ends zero l target s b sh q e g r = absurd (omega (arith, q))
  second_props_ends (suc n) l target s (done t) sh q e g r = (returns none, rw t refl, over none)
  second_props_ends (suc n) l target s (enters {name = name} {is = is} t x b) sh q e g r =
      (goes_on s, rw t refl, on s (_ ∷ is) (enters t x b) sh (omega arith) e)
  second_props_ends (suc n) l target s (leaves {is = is} t b) sh q e g r =
      let c = pop_name_ends k s.path l e g r in
      (
        goes_on (record { p = add32 s.p 4; depth = s.depth - 1; path = c.0 }),
        rw (t, c.1) refl,
        on (record { p = add32 s.p 4; depth = s.depth - 1; path = c.0 }) is b sh (omega arith) c.2,
      )
  second_props_ends (suc n) l target s (skips {is = is} t b) sh q e g r =
      let c =
        second_props_ends n l target (record s { p = add32 s.p 4 }) b sh (omega (arith, q)) e g r in
      (c.0, rw t c.1, Stops-more l (length is) (suc (length is)) c.0 (omega arith) c.2)
  second_props_ends (suc n) l target s (holds {is = is} t x b) sh q e g r =
      elim (Bool-cases (target && begins m pname (codes "reg"))) [
        | inl reg ↦ (returns base, rw (t, reg) refl, over base)
        | inr other ↦
            let c =
              second_props_ends n l target (record s { p = after_prop m h s.p }) b sh
                (omega (arith, q)) e g r in
            (
              c.0,
              rw (t, other) c.1,
              Stops-more l (length is) (suc (length is)) c.0 (omega arith) c.2,
            )
      ]
    where
      pname : ℕ
      pname = add64 h.strings (token m h (add32 s.p 8))

      base : Option ℕ
      base = reg_base m (add64 h.fdt (add32 s.p 12)) (token m h (add32 s.p 4))

  second_node_ends :
      (l : ℕ) (target : Array ℕ) (s : Second) {name : List ℕ} {is : List Item}
      → Text m (add64 h.fdt (add32 s.p 4)) name
      → Block m h (add32 (add32 s.p 4) (align4 ((length name + 1) % 2 ^ 32))) is
      → length name < k
      → are_short k is ≡ true
      → length is < k
      → Ended l s.path
      → 255 ≤ l
      → l + 1 < k
      → (o : Outcome Second) × (second_node k m h target s ≡ some o) × Stops (l + 1) (length is) o
  unfolding second_node
  second_node_ends l target s {name} {is} t b ln sh q e g r =
      let c = path_after in
      let f =
        path_equals_ends k 0 c.0 target c.2.at c.2.nul (omega arith)
          (let near = c.2.near in omega (arith, near, r)) in
      let o =
        second_props_ends k (l + 1) f.0
          (record {
            p = add32 (add32 s.p 4) (align4 ((length name + 1) % 2 ^ 32));
            depth = s.depth + 1;
            path = c.0;
          })
          b sh q c.2 (omega (arith, g)) r in
      (o.0, rw (named m k (add64 h.fdt (add32 s.p 4)) t ln, c.1, f.1) o.1, o.2)
    where
      path_after :
          (p : Array ℕ) × ((if s.depth == 0 && length name == 0
              then some s.path
              else append_name k (add64 h.fdt (add32 s.p 4)) (length name) m s.path)
            ≡ some p)
          × Ended (l + 1) p
      path_after = elim (Bool-cases (s.depth == 0 && length name == 0)) [
        | inl root ↦ (
          s.path,
          rw root refl,
          record { at = e.at; near = (let near = e.near in omega (arith, near)); nul = e.nul },
        )
        | inr deep ↦
            let c =
              append_name_ends k (add64 h.fdt (add32 s.p 4)) (length name) m s.path l e g
                (omega (arith, r)) in
            (c.0, rw deep c.1, c.2)
      ]

  pub second_pass_ends :
      (n l : ℕ) (target : Array ℕ) (s : Second) {is : List Item}
      → Block m h s.p is
      → are_short k is ≡ true
      → length is < n
      → Ended l s.path
      → 255 ≤ l
      → l + length is < k
      → (o : Option ℕ) × (second_pass k n m h target s ≡ some o)
  unfolding second_pass are_short
  second_pass_ends zero l target s b sh q e g r = absurd (omega (arith, q))
  second_pass_ends (suc n) l target s (done t) sh q e g r = (none, ground (arith, t))
  second_pass_ends (suc n) l target s (enters {name = name} {is = is} t x b) sh q e g r =
      let c =
        second_node_ends l target s x b (ground (arith, sh)) (ground (arith, sh)) (omega (arith, r))
          e g (omega (arith, r)) in
      go c.0 c.1 c.2 (λ s' is' b' sh' q' e'.
        second_pass_ends n (l + 1) target s' b' sh' (omega (arith, q, q')) e' (omega (arith, g))
          (omega (arith, r, q')))
    where
      go :
          (o : Outcome Second)
          → second_node k m h target s ≡ some o
          → Stops (l + 1) (length is) o
          → ((s' : Second) (is' : List Item)
              → Block m h s'.p is'
              → are_short k is' ≡ true
              → length is' ≤ length is
              → Ended (l + 1) s'.path
              → (o : Option ℕ) × (second_pass k n m h target s' ≡ some o))
          → (o : Option ℕ) × (second_pass k (suc n) m h target s ≡ some o)
      go (returns base) w (over base') deeper = (base, ground (arith, t, w))
      go (goes_on s') w (on s'' is' b' sh' q' e') deeper =
          let c = deeper s' is' b' sh' q' e' in (c.0, ground (arith, t, w, c.1))
  second_pass_ends (suc n) l target s (holds {is = is} t x b) sh q e g r =
      let c =
        second_pass_ends n l target (record s { p = after_prop m h s.p }) b sh (omega (arith, q)) e
          g (omega (arith, r)) in
      (c.0, ground (arith, t, c.1))
  second_pass_ends (suc n) l target s (leaves t b) sh q e g r =
      let c =
        second_pass_ends n l target (record s { p = add32 s.p 4 }) b sh (omega (arith, q)) e g
          (omega (arith, r)) in
      (c.0, ground (arith, t, c.1))
  second_pass_ends (suc n) l target s (skips t b) sh q e g r =
      let c =
        second_pass_ends n l target (record s { p = add32 s.p 4 }) b sh (omega (arith, q)) e g
          (omega (arith, r)) in
      (c.0, ground (arith, t, c.1))
