-- ===== src/Printk/Tests.antt =====
-- Runs of the formatter, and the properties at concrete values.
use arcline.Base.{ℕ, true, ◌≡◌, refl, List, [], ◌∷◌, arith, some, pos}
use arcline.Log.{Log}
use arcline.Printk.{
  word, do_printf, format_loop, piece, directive, number, string, long_directive, digit_loop,
  fill_buf, emit_back, print_dec, print_signed, int_limit,
}
use arcline.Printk.Digits.{Fits, fill_buf-Fits, SignedPrint, print_signed-SignedPrint}
use arcline.Printk.Format.{Printed, do_printf-Printed}

abbrev pid_format : List ℕ
pid_format = b'p' ∷ b'=' ∷ b'%' ∷ b'd' ∷ b'!' ∷ []

minus_seven :
    do_printf pid_format (word 4294967289 ∷ []) ≡ some (b'p' ∷ b'=' ∷ b'-' ∷ b'7' ∷ b'!' ∷ [])
unfolding do_printf format_loop piece directive number print_signed fill_buf digit_loop emit_back
minus_seven = refl

pointer :
    do_printf (b'%' ∷ b'p' ∷ []) (word 4096 ∷ [])
    ≡ some (b'0' ∷ b'x' ∷ b'1' ∷ b'0' ∷ b'0' ∷ b'0' ∷ [])
unfolding do_printf format_loop piece directive number fill_buf digit_loop emit_back
pointer = refl

long_word :
    do_printf (b'%' ∷ b'l' ∷ b'l' ∷ b'u' ∷ []) (word 4294967296 ∷ []) ≡ some (print_dec 4294967296)
unfolding do_printf format_loop piece directive number long_directive fill_buf digit_loop emit_back
long_word = refl

null_string :
    do_printf (b'%' ∷ b's' ∷ []) (word 0 ∷ []) ≡ some (b'(' ∷ b'n' ∷ b'u' ∷ b'l' ∷ b'l' ∷ b')' ∷ [])
unfolding do_printf format_loop piece directive string
null_string = refl

fill_buf-Fits_example : Fits 18446744073709551615
fill_buf-Fits_example = fill_buf-Fits 18446744073709551615 (omega arith)

print_signed-SignedPrint_example :
    SignedPrint int_limit 2147483648 (print_signed int_limit 2147483648)
print_signed-SignedPrint_example =
    print_signed-SignedPrint int_limit 2147483648 (omega arith) (omega arith) (omega arith)

do_printf-Printed_example : Printed pid_format (word 7 ∷ []) (do_printf pid_format (word 7 ∷ []))
do_printf-Printed_example = do_printf-Printed pid_format (word 7 ∷ [])

percent : do_printf (b'%' ∷ b'%' ∷ []) [] ≡ some (b'%' ∷ [])
unfolding do_printf format_loop piece directive
percent = refl

abbrev quiet : Log
quiet = record {
  ring = λ _. 0;
  head = 0;
  tail = 0;
  level = pos 6;
  console_level = pos 6;
  sink = true;
  inited = true;
  console = [];
}
