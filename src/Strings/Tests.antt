-- ===== src/Strings/Tests.antt =====
-- Runs of the string functions, and the properties at a concrete memory.
use arcline.Base.{
  ℕ, zero, suc, ◌+◌, ◌<◌, ◌≡◌, ◌≢◌, refl, inr, [], ◌∷◌, arith, get_or, Array, some, pos, negsuc,
}
use arcline.Strings.{
  accepted, strspn, strspn_loop, strpbrk, strsep, copy_up, copy_down, memmove, difference, strcmp,
  strncmp, strncmp_loop, strchr, strchr_loop, strncpy, strncpy_loop, strnlen, strnlen_loop,
}
use arcline.Strings.Copy.{copied, memmove-copied}
use arcline.Strings.Compare.{IsString, Parts}

-- "ab" at 1, "ac" at 4.
abbrev bytes : Array ℕ
bytes = λ a. get_or (9 ∷ b'a' ∷ b'b' ∷ 0 ∷ b'a' ∷ b'c' ∷ 0 ∷ []) a 9

less : strcmp 3 1 4 bytes ≡ some (negsuc 0)
unfolding strcmp difference
less = refl

same_prefix : strncmp 1 4 1 bytes ≡ pos 0
unfolding strncmp strncmp_loop difference
same_prefix = refl

found : strchr 3 4 b'c' bytes ≡ some 5
unfolding strchr strchr_loop
found = refl

cut : strnlen 1 (strncpy 4 1 2 bytes 5 + 7) bytes ≡ 2
unfolding strnlen strnlen_loop strncpy strncpy_loop
cut = refl

moved : memmove 2 1 2 bytes 3 ≡ b'b'
unfolding memmove copy_up copy_down
moved = refl

memmove-copied_example : memmove 2 1 2 bytes 3 ≡ copied 2 1 2 bytes 3
memmove-copied_example = memmove-copied 2 1 2 3 bytes

bytes-IsString : IsString 1 2 bytes
bytes-IsString = record { bytes = letters; nul = refl }
  where
    letters : (j : ℕ) → j < 2 → bytes (1 + j) ≢ 0
    letters zero l = λ e. absurd (omega (arith, e))
    letters (suc zero) l = λ e. absurd (omega (arith, e))
    letters (suc (suc j)) l = absurd (omega arith)

bytes-Parts : Parts 1 4 1 bytes
bytes-Parts = record { before = first; here = inr (omega arith) }
  where
    first : (j : ℕ) → j < 1 → (bytes (1 + j) ≢ 0) × (bytes (1 + j) ≡ bytes (4 + j))
    first zero l = (λ e. absurd (omega (arith, e)), refl)
    first (suc j) l = absurd (omega arith)

both_letters : strspn 4 4 1 1 bytes ≡ some 2
unfolding strspn strspn_loop accepted
both_letters = refl

c_found : strpbrk 4 4 4 5 bytes ≡ some 5
unfolding strpbrk accepted
c_found = refl

no_token : strsep 4 4 0 1 bytes ≡ some (0, 0, bytes)
unfolding strsep
no_token = refl
