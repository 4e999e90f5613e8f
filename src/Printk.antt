-- ===== src/Printk.antt =====
-- kernel/printk.c: the formatter. A format is the list of its bytes before the NUL; where the C
-- code has no defined behaviour, as when an argument is missing, the result is `none`.
pub mod Digits
pub mod Format
mod Tests
use arcline.Base.{
  ℕ, zero, suc, ◌+◌, ◌-◌, ◌*◌, ◌/◌, ◌%◌, Bool, true, false, ◌&&◌, List, [], ◌∷◌, ◌++◌, ltb, leb,
  ◌==◌, if◌then◌else◌, length, take, Option, none, some, ℤ, pos, negsuc,
}
use arcline.Log.{Log, write_str}

infixl 5 ◌>>=◌
abbrev pub ◌>>=◌ : {A B : Type 0} → Option A → (A → Option B) → Option B
some a >>= f = f a
none >>= f = none

-- What `va_arg` takes: a word of 64 bits, or a string or NULL.
pub data Arg : Type 0 where
  word : ℕ → Arg
  text : List ℕ → Arg

-- `'0' + (val % 10)`
abbrev pub dec_char : ℕ → ℕ
dec_char d = b'0' + d

-- `(digit < 10) ? '0' + digit : 'a' + digit - 10`
abbrev pub hex_char : ℕ → ℕ
hex_char d = if ltb d 10 then b'0' + d else b'a' + d - 10

-- `while (val > 0)`: what is stored in `buf`, the lowest digit first, and the rounds left.
pub digit_loop : (ℕ → ℕ) → ℕ → ℕ → ℕ → List ℕ
digit_loop char_of base zero val = []
digit_loop char_of base (suc k) val =
    let rest = digit_loop char_of base k (val / base) in
    if val == 0 then [] else char_of (val % base) ∷ rest

-- No value of 64 bits has more digits.
abbrev pub most_digits : ℕ
most_digits = 64

-- The contents of `buf`.
pub fill_buf : (ℕ → ℕ) → ℕ → ℕ → List ℕ
fill_buf char_of base val = if val == 0 then b'0' ∷ [] else digit_loop char_of base most_digits val

-- `while (i > 0) output(buf[--i])`: the buffer from its end, before what follows.
pub emit_back : List ℕ → List ℕ → List ℕ
emit_back [] out = out
emit_back (c ∷ buf) out = emit_back buf (c ∷ out)

abbrev pub print_dec : ℕ → List ℕ
print_dec val = emit_back (fill_buf dec_char 10 val) []

abbrev pub print_hex : ℕ → List ℕ
print_hex val = emit_back (fill_buf hex_char 16 val) []

-- A signed value of two's complement: `limit` is half the number of its values. A value that is
-- still negative after `val = -val` leaves the buffer empty.
pub print_signed : ℕ → ℕ → List ℕ
print_signed limit val =
    let negated = (2 * limit - val) % (2 * limit) in
    if leb limit val
    then b'-' ∷ (if leb limit negated then [] else print_dec negated)
    else print_dec val

abbrev pub int_limit : ℕ
int_limit = 2147483648

abbrev pub int64_limit : ℕ
int64_limit = 9223372036854775808

-- One step of `do_printf`: what it outputs, and the format and the arguments that are left.
pub record Piece : Type 0 where
  pub out : List ℕ
  pub fmt : List ℕ
  pub args : List Arg

-- `va_arg` of a number
pub number : (ℕ → List ℕ) → List ℕ → List Arg → Option Piece
number print fmt (word w ∷ args) = some (record { out = print w; fmt = fmt; args = args })
number print fmt (text t ∷ args) = none
number print fmt [] = none

-- `case 's'`: NULL is printed as "(null)".
pub string : List ℕ → List Arg → Option Piece
string fmt (text t ∷ args) = some (record { out = t; fmt = fmt; args = args })
string fmt (word w ∷ args) =
    if w == 0
    then some
        (record { out = b'(' ∷ b'n' ∷ b'u' ∷ b'l' ∷ b'l' ∷ b')' ∷ []; fmt = fmt; args = args })
    else none
string fmt [] = none

-- `case 'l'`: after the `l` come `lu`, `ld`, or something else, for which nothing is printed.
pub long_directive : List ℕ → List Arg → Option Piece
long_directive (c ∷ d ∷ fmt) args =
    if c == b'l' && d == b'u'
    then number print_dec fmt args
    else if c == b'l' && d == b'd'
    then number (print_signed int64_limit) fmt args
    else some (record { out = []; fmt = c ∷ d ∷ fmt; args = args })
long_directive (c ∷ []) args = some (record { out = []; fmt = c ∷ []; args = args })
long_directive [] args = some (record { out = []; fmt = []; args = args })

-- The `switch` on the character behind a `%`. `unsigned int` and `int` are the low 32 bits.
pub directive : ℕ → List ℕ → List Arg → Option Piece
directive c fmt args =
    if c == b'u'
    then number (λ w. print_dec (w % 4294967296)) fmt args
    else if c == b'd'
    then number (λ w. print_signed int_limit (w % 4294967296)) fmt args
    else if c == b'l'
    then long_directive fmt args
    else if c == b'x'
    then number (λ w. print_hex (w % 4294967296)) fmt args
    else if c == b'p'
    then number (λ w. b'0' ∷ b'x' ∷ print_hex w) fmt args
    else if c == b's'
    then string fmt args
    else if c == b'c'
    then number (λ w. w % 256 ∷ []) fmt args
    else if c == b'%'
    then some (record { out = b'%' ∷ []; fmt = fmt; args = args })
    else some (record { out = b'%' ∷ c ∷ []; fmt = fmt; args = args })

-- The body of `while (*fmt)`.
pub piece : ℕ → List ℕ → List Arg → Option Piece
piece c [] args = some (record { out = c ∷ []; fmt = []; args = args })
piece c (d ∷ fmt) args =
    if c == b'%'
    then directive d fmt args
    else some (record { out = c ∷ []; fmt = d ∷ fmt; args = args })

-- The output of `do_printf`, with the rounds that its loop may take.
pub format_loop : ℕ → List ℕ → List Arg → Option (List ℕ)
format_loop k [] args = some []
format_loop zero (c ∷ fmt) args = none
format_loop (suc k) (c ∷ fmt) args = do
  p ← piece c fmt args
  rest ← format_loop k p.fmt p.args
  some (p.out ++ rest)

-- Every round takes a byte of the format at least.
pub do_printf : List ℕ → List Arg → Option (List ℕ)
do_printf fmt args = format_loop (length fmt) fmt args

-- `buf_putc` for each byte: what is in `printk_buf` when `rem` places are left.
pub buf_puts : ℕ → List ℕ → List ℕ
buf_puts rem [] = []
buf_puts rem (c ∷ cs) = if ltb 1 rem then c ∷ buf_puts (rem - 1) cs else buf_puts rem cs

abbrev pub buf_size : ℕ
buf_size = 512

-- `printk_vroute`: the value is the count of the bytes that were output, cut or not.
pub vroute : ℤ → List ℕ → List Arg → Log → Option (ℕ × Log)
vroute level fmt args s = do
  out ← do_printf fmt args
  some (length out, (write_str level (buf_puts buf_size out) s).1)

abbrev pub stderr_fd : ℕ
stderr_fd = 2

pub vfprintk : ℕ → List ℕ → List Arg → Log → Option (ℕ × Log)
vfprintk fd fmt args s = vroute (if fd == stderr_fd then pos 3 else pos 6) fmt args s
