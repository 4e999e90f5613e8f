-- ===== src/Printk/Format.antt =====
-- The loop over the format: it ends, keeps literal text, and the buffer keeps its first bytes.
use arcline.Base.{
  ℕ, zero, suc, ◌-◌, ◌≤◌, ◌≡◌, ◌≢◌, refl, ap, Bool, List, [], ◌∷◌, ◌++◌, arith, ltb, ◌==◌,
  if◌then◌else◌, length, take, true, false, Bool-cases, inl, inr, Option, none, some, ℤ,
}
use arcline.Log.{Log, write_str}
use arcline.Printk.{
  Arg, word, text, Piece, number, string, long_directive, directive, piece, format_loop, do_printf,
  buf_puts, vroute, ◌>>=◌,
}

-- A step, if it is defined, leaves at most `n` bytes of the format.
abbrev Left : ℕ → Option Piece → Type 0
Left n none = Unit
Left n (some p) = length p.fmt ≤ n

record Leaves (n : ℕ) (p : Option Piece) : Type 0 where
  left : Left n p

number-Leaves :
    (n : ℕ) (print : ℕ → List ℕ) (fmt : List ℕ) (args : List Arg)
    → length fmt ≤ n
    → Leaves n (number print fmt args)
unfolding number
number-Leaves n print fmt [] h = record { left = tt }
number-Leaves n print fmt (word w ∷ args) h = record { left = h }
number-Leaves n print fmt (text t ∷ args) h = record { left = tt }

string-Leaves :
    (n : ℕ) (fmt : List ℕ) (args : List Arg) → length fmt ≤ n → Leaves n (string fmt args)
unfolding string
string-Leaves n fmt [] h = record { left = tt }
string-Leaves n fmt (text t ∷ args) h = record { left = h }
string-Leaves n fmt (word w ∷ args) h = elim (Bool-cases (w == 0)) [
  | inl e ↦ rw e (record { left = h })
  | inr e ↦ rw e (record { left = tt })
]

plain : (n : ℕ) (p : Piece) → length p.fmt ≤ n → Leaves n (some p)
plain n p h = record { left = h }

-- A choice leaves what its branches leave.
choice :
    (n : ℕ) (b : Bool) (x y : Option Piece)
    → Leaves n x
    → Leaves n y
    → Leaves n (if b then x else y)
choice n true x y p q = p
choice n false x y p q = q

long_directive-Leaves :
    (n : ℕ) (fmt : List ℕ) (args : List Arg) → length fmt ≤ n → Leaves n (long_directive fmt args)
unfolding long_directive
long_directive-Leaves n [] args h = record { left = h }
long_directive-Leaves n (c ∷ []) args h = record { left = h }
long_directive-Leaves n (c ∷ d ∷ fmt) args h =
    let shorter : length fmt ≤ n = omega arith in search (choice, number-Leaves, plain, h, shorter)

directive-Leaves :
    (n c : ℕ) (fmt : List ℕ) (args : List Arg) → length fmt ≤ n → Leaves n (directive c fmt args)
unfolding directive
directive-Leaves n c fmt args h =
    search (choice, number-Leaves, string-Leaves, long_directive-Leaves, plain, h) depth 12

piece-Leaves : (c : ℕ) (fmt : List ℕ) (args : List Arg) → Leaves (length fmt) (piece c fmt args)
unfolding piece
piece-Leaves c [] args = record { left = omega arith }
piece-Leaves c (d ∷ fmt) args =
    let shorter : length fmt ≤ suc (length fmt) = omega arith in
    let same : suc (length fmt) ≤ suc (length fmt) = omega arith in
    search (choice, directive-Leaves, plain, shorter, same)

-- A run of the formatter, with no bound on its steps: it ends with the format, or at a step that is
-- not defined.
pub data Printed : List ℕ → List Arg → Option (List ℕ) → Type 0 where
  ended : (args : List Arg) → Printed [] args (some [])
  undefined :
      (c : ℕ) (fmt : List ℕ) (args : List Arg)
      → piece c fmt args ≡ none
      → Printed (c ∷ fmt) args none
  stepped :
      (c : ℕ) (fmt : List ℕ) (args : List Arg) (q : Piece) (r : Option (List ℕ))
      → piece c fmt args ≡ some q
      → Printed q.fmt q.args r
      → Printed (c ∷ fmt) args (r >>= λ rest. some (q.out ++ rest))

format_loop-Printed :
    (k : ℕ) (fmt : List ℕ) (args : List Arg)
    → length fmt ≤ k
    → Printed fmt args (format_loop k fmt args)
unfolding format_loop
format_loop-Printed zero [] args h = ended args
format_loop-Printed (suc k) [] args h = ended args
format_loop-Printed zero (c ∷ fmt) args h = absurd (omega arith)
format_loop-Printed (suc k) (c ∷ fmt) args h =
    go (piece c fmt args) refl (piece-Leaves c fmt args)
      (λ q u. format_loop-Printed k q.fmt q.args (omega (arith, u)))
  where
    go :
        (p : Option Piece)
        → piece c fmt args ≡ p
        → Leaves (length fmt) p
        → ((q : Piece)
            → length q.fmt ≤ length fmt
            → Printed q.fmt q.args (format_loop k q.fmt q.args))
        → Printed
            (c ∷ fmt)
            args
            (p >>= λ q. format_loop k q.fmt q.args >>= λ rest. some (q.out ++ rest))
    go none e u deeper = undefined c fmt args e
    go (some q) e u deeper = stepped c fmt args q (format_loop k q.fmt q.args) e (deeper q u.left)

-- The formatter runs to an end on every format and all arguments: it has no result only if its run
-- comes to a directive for which the arguments give the C code no defined behaviour, and otherwise it
-- outputs what the steps of its run output, one after the other.
pub do_printf-Printed : (fmt : List ℕ) (args : List Arg) → Printed fmt args (do_printf fmt args)
unfolding do_printf
do_printf-Printed fmt args = format_loop-Printed (length fmt) fmt args (omega arith)

-- The bytes have no percent sign.
abbrev pub Literal : List ℕ → Type 0
Literal [] = Unit
Literal (c ∷ cs) = (c ≢ b'%') × Literal cs

piece-literal :
    (c : ℕ) (fmt : List ℕ) (args : List Arg)
    → c ≢ b'%'
    → piece c fmt args ≡ some (record { out = c ∷ []; fmt = fmt; args = args })
unfolding piece
piece-literal c [] args h = refl
piece-literal c (d ∷ fmt) args h =
    let other : (c == b'%') ≡ false = ground (arith, h) in rw other refl

-- `do_printf` outputs the bytes before the first percent sign as they are, and then what it outputs
-- for the rest of the format.
pub do_printf-append :
    (lit fmt : List ℕ) (args : List Arg)
    → Literal lit
    → do_printf (lit ++ fmt) args ≡ (do_printf fmt args >>= λ rest. some (lit ++ rest))
unfolding do_printf format_loop
do_printf-append [] fmt args h = unchanged (do_printf fmt args)
  where
    unchanged : (r : Option (List ℕ)) → r ≡ (r >>= λ rest. some rest)
    unchanged none = refl
    unchanged (some out) = refl
do_printf-append (c ∷ lit) fmt args h =
    rw (piece-literal c (lit ++ fmt) args h.0, do_printf-append lit fmt args h.1)
      (joined (do_printf fmt args))
  where
    joined :
        (r : Option (List ℕ))
        → (r >>= (λ rest. some (lit ++ rest)) >>= λ rest. some (c ∷ rest))
          ≡ (r >>= λ rest. some (c ∷ (lit ++ rest)))
    joined none = refl
    joined (some out) = refl

-- `printk_buf` holds the first bytes of the output, one less than it has places.
pub buf_puts-take : (room : ℕ) (out : List ℕ) → buf_puts (suc room) out ≡ take room out
unfolding buf_puts
buf_puts-take zero [] = refl
buf_puts-take (suc room) [] = refl
buf_puts-take zero (c ∷ out) = buf_puts-take zero out
buf_puts-take (suc room) (c ∷ out) =
    let more : ltb 1 (suc (suc room)) ≡ true = ground arith in
    let less : suc (suc room) - 1 ≡ suc room = omega arith in
    rw (more, less) (ap (λ t. c ∷ t) (buf_puts-take room out))

-- The output of `fprintk` and `printk`: the log gets its first 511 bytes, the caller the count of
-- them all.
pub vroute_lem :
    (level : ℤ) (fmt out : List ℕ) (args : List Arg) (s : Log)
    → do_printf fmt args ≡ some out
    → vroute level fmt args s ≡ some (length out, (write_str level (take 511 out) s).1)
unfolding vroute
vroute_lem level fmt out args s e = rw (e, buf_puts-take 511 out) refl
