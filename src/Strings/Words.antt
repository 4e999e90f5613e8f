-- ===== src/Strings/Words.antt =====
-- `strcpy` of lib/string.c, which copies aligned strings by words of eight bytes, and `strcat`.
pub mod Bytes
pub mod Progress
pub mod Whole
mod Tests
use arcline.Base.{
  ℕ, zero, suc, ◌+◌, ◌*◌, ◌/◌, ◌%◌, ◌^◌, Bool, not, ◌&&◌, ◌||◌, ◌==◌, is_null, if◌then◌else◌, Array,
  store, Option, none, some, bit_and,
}
use arcline.Strings.{copy_string}

-- `*(uint64_t *)a`, on a little-endian machine.
abbrev pub word64 : Array ℕ → ℕ → ℕ
word64 m a =
    m a
    + m (a + 1) * 2 ^ 8
    + m (a + 2) * 2 ^ 16
    + m (a + 3) * 2 ^ 24
    + m (a + 4) * 2 ^ 32
    + m (a + 5) * 2 ^ 40
    + m (a + 6) * 2 ^ 48
    + m (a + 7) * 2 ^ 56

-- `*(uint64_t *)a = v`
abbrev pub store64 : Array ℕ → ℕ → ℕ → Array ℕ
store64 m a v =
    let m1 = store (store m a (v % 256)) (a + 1) (v / 2 ^ 8 % 256) in
    let m3 = store (store m1 (a + 2) (v / 2 ^ 16 % 256)) (a + 3) (v / 2 ^ 24 % 256) in
    let m5 = store (store m3 (a + 4) (v / 2 ^ 32 % 256)) (a + 5) (v / 2 ^ 40 % 256) in
    store (store m5 (a + 6) (v / 2 ^ 48 % 256)) (a + 7) (v / 2 ^ 56 % 256)

-- The test of the eight bytes.
pub has_zero_byte : ℕ → Bool
has_zero_byte v =
    bit_and v 0xFF00000000000000 == 0
    || (bit_and v 0x00FF000000000000 == 0
        || (bit_and v 0x0000FF0000000000 == 0
            || (bit_and v 0x000000FF00000000 == 0
                || (bit_and v 0x00000000FF000000 == 0
                    || (bit_and v 0x0000000000FF0000 == 0
                        || (bit_and v 0x000000000000FF00 == 0
                            || bit_and v 0x00000000000000FF == 0))))))

-- The loop over words: the rounds left, `d64` and `s64`.
pub word_loop : ℕ → ℕ → ℕ → Array ℕ → Option (Array ℕ)
unfolding copy_string
word_loop zero d s m = none
word_loop (suc k) d s m =
    let val = word64 m s in
    let rest = word_loop k (d + 8) (s + 8) (store64 m d val) in
    if val == 0 then some (store m d 0) else if has_zero_byte val then copy_string 8 d s m else rest

pub strcpy : ℕ → ℕ → ℕ → Array ℕ → Option (Array ℕ)
unfolding word_loop
strcpy k dest src m =
    let words = word_loop k dest src m in
    let bytes = copy_string k dest src m in
    if is_null dest || is_null src
    then some m
    else if dest % 8 == 0 && src % 8 == 0
    then words
    else bytes

-- `while (*dest) dest++`
pub end_of : ℕ → ℕ → Array ℕ → Option ℕ
end_of zero dest m = none
end_of (suc k) dest m =
    let rest = end_of k (dest + 1) m in if not (m dest == 0) then rest else some dest

pub strcat : ℕ → ℕ → ℕ → Array ℕ → Option (Array ℕ)
unfolding end_of strcpy
strcat k dest src m =
    let appended : Option (Array ℕ) = elim (end_of k dest m) [
      | none ↦ none
      | some end ↦ strcpy k end src m
    ] in
    if is_null dest || is_null src then some m else appended
