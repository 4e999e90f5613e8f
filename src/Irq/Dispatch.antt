-- ===== src/Irq/Dispatch.antt =====
-- Which handler an interrupt calls, and which interrupt a register's bit belongs to.
use arcline.Base.{
  ℕ, zero, suc, ◌+◌, ◌*◌, ◌/◌, ◌%◌, ◌^◌, ◌≡◌, ◌≢◌, ◌<◌, ◌≤◌, refl, sym, ap, ◌∙◌, Bool, true, false,
  not, arith, leb, ◌==◌, is_null, if◌then◌else◌, Array, store, Option, none, some, ℤ, pos, negsuc,
  Bool-cases, inl, inr, ◌⊎◌,
}
use arcline.Bits.{bit, bit-pow}
use arcline.Irq.{Desc, install_handler, dispatch, gic_enable_irq}

-- How `irq_install_handler` ends.
pub data Installed (handler dev : ℕ) (t : Array Desc) : ℤ → ℤ × Array Desc → Type 0 where
  negative : (n : ℕ) → Installed handler dev t (negsuc n) (negsuc 0, t)
  refused : {i : ℕ} → (1024 ≤ i) ⊎ (handler ≡ 0) → Installed handler dev t (pos i) (negsuc 0, t)
  busy : {i : ℕ} → i < 1024 → (t i).handler ≢ 0 → Installed handler dev t (pos i) (negsuc 1, t)
  installed :
      {i : ℕ} (t' : Array Desc)
      → i < 1024
      → handler ≢ 0
      → dispatch (pos i) t ≡ none
      → dispatch (pos i) t' ≡ some (handler, dev)
      → ((j : ℕ) → j ≢ i → dispatch (pos j) t' ≡ dispatch (pos j) t)
      → Installed handler dev t (pos i) (pos 0, t')

dispatch_free : (j : ℕ) (t : Array Desc) → (t j).handler ≡ 0 → dispatch (pos j) t ≡ none
unfolding dispatch
dispatch_free j t e = elim (Bool-cases (leb 1024 j)) [
  | inl far ↦ rw far refl
  | inr near ↦ rw (near, e) refl
]

dispatch_set :
    (j h : ℕ) (t : Array Desc)
    → j < 1024
    → (t j).handler ≡ suc h
    → dispatch (pos j) t ≡ some (suc h, (t j).dev)
unfolding dispatch
dispatch_set j h t l e = let near : leb 1024 j ≡ false = ground arith in rw (near, e) refl

-- A number's handler depends on its own place of the table only.
dispatch_cong : (j : ℕ) (t t' : Array Desc) → t' j ≡ t j → dispatch (pos j) t' ≡ dispatch (pos j) t
unfolding dispatch
dispatch_cong j t t' e = rw e refl

-- The table with a place changed, at this place and at another.
at_place : (t : Array Desc) (i : ℕ) (d : Desc) → store t i d i ≡ d
at_place t i d = let here : (i == i) ≡ true = ground arith in rw here refl

beside : (t : Array Desc) (i j : ℕ) (d : Desc) → j ≢ i → store t i d j ≡ t j
beside t i j d ne = let other : (j == i) ≡ false = ground (arith, ne) in rw other refl

-- `irq_install_handler` refuses a number that is negative or from 1024 on and a NULL handler, and a number that has a
-- handler; otherwise interrupts of this number, which called nothing, call the new handler with its
-- device, and every other number calls what it did.
pub install_handler-Installed :
    (irq : ℤ) (handler dev : ℕ) (t : Array Desc)
    → Installed handler dev t irq (install_handler irq handler dev t)
unfolding install_handler
install_handler-Installed (negsuc n) handler dev t = negative n
install_handler-Installed (pos irq) handler dev t = elim (Bool-cases (leb 1024 irq)) [
  | inl far ↦ rw far (refused (inl (ground (arith, far))))
  | inr near ↦ rw near (given handler (t irq).handler refl (ground (arith, near)))
]
  where
    given :
        (h old : ℕ)
        → (t irq).handler ≡ old
        → irq < 1024
        → Installed h dev t (pos irq) (
            if is_null h
            then (negsuc 0, t)
            else if not (is_null old)
            then (negsuc 1, t)
            else (pos 0, store t irq (record { handler = h; dev = dev })))
    given zero old e l = refused (inr refl)
    given (suc h) (suc old) e l = busy l (λ z. ground (arith, e, z))
    given (suc h) zero e l =
        installed (store t irq (record { handler = suc h; dev = dev })) l (λ z. ground (arith, z))
          (dispatch_free irq t e)
          (let here = at_place t irq (record { handler = suc h; dev = dev }) in
            dispatch_set irq h (store t irq (record { handler = suc h; dev = dev })) l
              (ap (λ d. d.handler) here)
            ∙ ap (λ d. some (suc h, d.dev)) here)
          (λ j ne.
            dispatch_cong j t (store t irq (record { handler = suc h; dev = dev }))
              (beside t irq j (record { handler = suc h; dev = dev }) ne))

power_injective : (i j : ℕ) → 2 ^ i ≡ 2 ^ j → i ≡ j
power_injective i j e =
    let one : (if i == i then 1 else 0) ≡ (if i == j then 1 else 0) =
      sym (bit-pow i i) ∙ ap (λ w. bit w i) e ∙ bit-pow i j in
    ground (arith, one)

-- No two interrupts share a bit of the enable registers.
pub gic_enable_irq-injective :
    (i j : ℕ) → i < 1020 → gic_enable_irq (pos i) ≡ gic_enable_irq (pos j) → i ≡ j
unfolding gic_enable_irq
gic_enable_irq-injective i j l e =
    let near : leb 1020 i ≡ false = ground arith in
    let first : gic_enable_irq (pos i) ≡ some (256 + i / 32 * 4, 2 ^ (i % 32)) = rw near refl in
    same (leb 1020 j) (sym first ∙ e)
  where
    written : Option (ℕ × ℕ) → ℕ × ℕ
    written (some w) = w
    written none = (0, 0)

    same :
        (b : Bool)
        → ◌≡◌ {A = Option (ℕ × ℕ)}
            (some (256 + i / 32 * 4, 2 ^ (i % 32)))
            (if b then none else some (256 + j / 32 * 4, 2 ^ (j % 32)))
        → i ≡ j
    same true q = let offset = ap (λ o. (written o).0) q in omega (arith, offset)
    same false q =
        let offset = ap (λ o. (written o).0) q in
        let place = power_injective (i % 32) (j % 32) (ap (λ o. (written o).1) q) in
        omega (arith, offset, place)
