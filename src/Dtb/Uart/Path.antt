-- ===== src/Dtb/Uart/Path.antt =====
-- The loops of `dtb_get_stdout_uart_base` over a path and over a name end.
use arcline.Base.{
  ℕ, zero, suc, ◌+◌, ◌-◌, ◌<◌, ◌≤◌, ◌≡◌, refl, Bool, true, false, not, ◌&&◌, ltb, ◌==◌, ◌∙◌, ap,
  if◌then◌else◌, Array, store, arith, List, length, some, Bool-cases, inl, inr,
}
use arcline.Dtb.{name_len, path_equals}
use arcline.Dtb.Items.{Text, name_len_lem}
use arcline.Dtb.Uart.{append_loop, append_name, last_slash, pop_name}

-- A NUL stands in the path at one of its first places.
pub record Ended (l : ℕ) (path : Array ℕ) : Type 0 where
  pub at : ℕ
  pub near : at ≤ l
  pub nul : path at ≡ 0

name_len_ends :
    (k j : ℕ) (path : Array ℕ) (i : ℕ)
    → path i ≡ 0
    → j ≤ i
    → i < j + k
    → (n : ℕ) × (name_len k j 0 path ≡ some n) × (n ≤ i)
unfolding name_len
name_len_ends zero j path i z h l = absurd (omega (arith, h, l))
name_len_ends (suc k) j path i z h l = elim (Bool-cases (path (0 + j) == 0)) [
  | inl e ↦ (j, rw e refl, h)
  | inr e ↦
      let more : j + 1 ≤ i = further e in
      let r = name_len_ends k (j + 1) path i z more (omega (arith, l)) in (r.0, rw e r.1, r.2)
]
  where
    further : (path (0 + j) == 0) ≡ false → j + 1 ≤ i
    further e = elim (Bool-cases (j == i)) [
      | inl q ↦ absurd (clash (ground (arith, q)))
      | inr q ↦ ground (arith, q, h)
    ]
      where
        clash : 0 + j ≡ i → ⊥
        clash q = let w = ap path q in ground (arith, w, z, e)

pub path_equals_ends :
    (k j : ℕ) (path target : Array ℕ) (i : ℕ)
    → path i ≡ 0
    → j ≤ i
    → i < j + k
    → (b : Bool) × (path_equals k j path target ≡ some b)
unfolding path_equals
path_equals_ends zero j path target i z h l = absurd (omega (arith, h, l))
path_equals_ends (suc k) j path target i z h l =
    elim (Bool-cases (not (path j == 0) && not (target j == 0))) [
      | inr e ↦ (path j == 0 && target j == 0, rw e refl)
      | inl e ↦ elim (Bool-cases (not (path j == target j))) [
        | inl d ↦ (false, rw (e, d) refl)
        | inr d ↦
            let r = path_equals_ends k (j + 1) path target i z (further e) (omega (arith, l)) in
            (r.0, rw (e, d) r.1)
      ]
    ]
  where
    further : not (path j == 0) && not (target j == 0) ≡ true → j + 1 ≤ i
    further e = elim (Bool-cases (j == i)) [
      | inl q ↦ absurd (clash (ground (arith, q)))
      | inr q ↦ ground (arith, q, h)
    ]
      where
        clash : j ≡ i → ⊥
        clash q = let w = ap path q in ground (arith, w, z, e)

append_loop-Ended :
    (k i cur name : ℕ) (m path : Array ℕ) (l : ℕ)
    → cur ≤ l
    → 255 ≤ l
    → Ended l (append_loop k i cur name m path)
unfolding append_loop
append_loop-Ended zero i cur name m path l h g = record { at = cur; near = h; nul = ground arith }
append_loop-Ended (suc k) i cur name m path l h g = elim (Bool-cases (ltb cur 255)) [
  | inl e ↦ rw e (
      append_loop-Ended k (i + 1) (cur + 1) name m (store path cur (m (name + i))) l
        (ground (arith, e, g)) g)
  | inr e ↦ rw e (record { at = cur; near = h; nul = ground arith })
]

pub append_name_ends :
    (k name len : ℕ) (m path : Array ℕ) (l : ℕ)
    → Ended l path
    → 255 ≤ l
    → l < k
    → (p : Array ℕ) × (append_name k name len m path ≡ some p) × Ended (l + 1) p
unfolding append_name
append_name_ends k name len m path l e g b =
    let r = name_len_ends k 0 path e.at e.nul (omega arith) (omega (arith, e.near, b)) in
    (
      grown r.0,
      rw r.1 refl,
      append_loop-Ended len 0 (if ltb 1 r.0 then r.0 + 1 else r.0) name m (slashed r.0) (l + 1)
          (start r.0 (omega (arith, r.2, e.near))) (omega (arith, g)),
    )
  where
    slashed : ℕ → Array ℕ
    slashed n = if ltb 1 n then store path n b'/' else path

    grown : ℕ → Array ℕ
    grown n = append_loop len 0 (if ltb 1 n then n + 1 else n) name m (slashed n)

    start : (n : ℕ) → n ≤ l → (if ltb 1 n then n + 1 else n) ≤ l + 1
    start n h = ground (arith, h)

last_slash-le : (n : ℕ) (path : Array ℕ) → last_slash n path ≤ n
unfolding last_slash
last_slash-le zero path = omega arith
last_slash-le (suc n) path = ground (arith, last_slash-le n path)

pub pop_name_ends :
    (k : ℕ) (path : Array ℕ) (l : ℕ)
    → Ended l path
    → 255 ≤ l
    → l < k
    → (p : Array ℕ) × (pop_name k path ≡ some p) × Ended l p
unfolding pop_name
pop_name_ends k path l e g b =
    let r = name_len_ends k 0 path e.at e.nul (omega arith) (omega (arith, e.near, b)) in
    (
      shorter (last_slash r.0 path),
      rw r.1 refl,
      cut (last_slash r.0 path) (omega (arith, last_slash-le r.0 path, r.2, e.near)),
    )
  where
    shorter : ℕ → Array ℕ
    shorter n = store path (if ltb 1 n then n - 1 else 1) 0

    cut : (n : ℕ) → n ≤ l → Ended l (shorter n)
    cut n h = record {
      at = if ltb 1 n then n - 1 else 1;
      near = ground (arith, h, g);
      nul = ground arith;
    }

-- A name that stands in memory has its length.
pub named :
    (m : Array ℕ) (k a : ℕ) {name : List ℕ}
    → Text m a name
    → length name < k
    → name_len k 0 a m ≡ some (length name)
named m k a {name} t q =
    let zero_more : length name + 0 ≡ length name = omega arith in
    name_len_lem k 0 a a m (omega arith) t q ∙ ap some zero_more
