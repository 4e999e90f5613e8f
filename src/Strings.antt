-- ===== src/Strings.antt =====
-- lib/string.c. The memory is a function from addresses to bytes; a pointer is an address, 0 is
-- NULL. A loop over a string takes the rounds that it may take; `none` is a loop that is not done.
pub mod Copy
pub mod Compare
pub mod Words
pub mod Numbers
mod Tests
use arcline.Base.{
  ℕ, zero, suc, ◌+◌, ◌-◌, ◌%◌, Bool, true, false, not, ◌&&◌, ◌||◌, ltb, ◌==◌, is_null,
  if◌then◌else◌, Array, store, Option, none, some, ℤ, pos, negsuc,
}

-- `(int)a - (int)b`
pub difference : ℕ → ℕ → ℤ
difference a b = if ltb a b then negsuc (b - a - 1) else pos (a - b)

-- The loop of `memset`: the rounds left and `i`.
pub set_loop : ℕ → ℕ → ℕ → ℕ → Array ℕ → Array ℕ
set_loop zero i p byte m = m
set_loop (suc k) i p byte m = set_loop k (i + 1) p byte (store m (p + i) byte)

pub memset : ℕ → ℕ → ℕ → Array ℕ → Array ℕ
memset s c n m = set_loop n 0 s (c % 256) m

-- `for (i = 0; i < n; ++i) d[i] = s[i]`: the rounds left and `i`.
pub copy_up : ℕ → ℕ → ℕ → ℕ → Array ℕ → Array ℕ
copy_up zero i d s m = m
copy_up (suc k) i d s m = copy_up k (i + 1) d s (store m (d + i) (m (s + i)))

pub memcpy : ℕ → ℕ → ℕ → Array ℕ → Array ℕ
memcpy d s n m = copy_up n 0 d s m

-- `for (i = n; i > 0; --i) d[i - 1] = s[i - 1]`
pub copy_down : ℕ → ℕ → ℕ → Array ℕ → Array ℕ
copy_down zero d s m = m
copy_down (suc i) d s m = copy_down i d s (store m (d + i) (m (s + i)))

pub memmove : ℕ → ℕ → ℕ → Array ℕ → Array ℕ
memmove d s n m = if ltb d s then copy_up n 0 d s m else if ltb s d then copy_down n d s m else m

-- The loop of `memcmp`: the rounds left and `i`.
pub memcmp_loop : ℕ → ℕ → ℕ → ℕ → Array ℕ → ℤ
memcmp_loop zero i a b m = pos 0
memcmp_loop (suc k) i a b m =
    let rest = memcmp_loop k (i + 1) a b m in
    if not (m (a + i) == m (b + i)) then difference (m (a + i)) (m (b + i)) else rest

pub memcmp : ℕ → ℕ → ℕ → Array ℕ → ℤ
memcmp a b n m = memcmp_loop n 0 a b m

-- The loop of `strncmp`: the rounds left and `i`.
pub strncmp_loop : ℕ → ℕ → ℕ → ℕ → Array ℕ → ℤ
strncmp_loop zero i a b m = pos 0
strncmp_loop (suc k) i a b m =
    let rest = strncmp_loop k (i + 1) a b m in
    if not (m (a + i) == m (b + i))
    then difference (m (a + i)) (m (b + i))
    else if m (a + i) == 0
    then pos 0
    else rest

pub strncmp : ℕ → ℕ → ℕ → Array ℕ → ℤ
strncmp a b n m = strncmp_loop n 0 a b m

-- `strcmp`, with the rounds that it may take.
pub strcmp : ℕ → ℕ → ℕ → Array ℕ → Option ℤ
strcmp zero a b m = none
strcmp (suc k) a b m =
    let rest = strcmp k (a + 1) (b + 1) m in
    if not (m a == 0) && m a == m b then rest else some (difference (m a) (m b))

-- The loop of `strlen`: the rounds left and `len`.
pub strlen_loop : ℕ → ℕ → ℕ → Array ℕ → Option ℕ
strlen_loop zero len str m = none
strlen_loop (suc k) len str m =
    let rest = strlen_loop k (len + 1) str m in if not (m (str + len) == 0) then rest else some len

pub strlen : ℕ → ℕ → Array ℕ → Option ℕ
strlen k str m = if is_null str then some 0 else strlen_loop k 0 str m

-- The loop of `strnlen`: the rounds left and `len`.
pub strnlen_loop : ℕ → ℕ → ℕ → Array ℕ → ℕ
strnlen_loop zero len str m = len
strnlen_loop (suc k) len str m =
    let rest = strnlen_loop k (len + 1) str m in if not (m (str + len) == 0) then rest else len

pub strnlen : ℕ → ℕ → Array ℕ → ℕ
strnlen str max m = strnlen_loop max 0 str m

-- `strchr`, with the rounds that it may take.
pub strchr_loop : ℕ → ℕ → ℕ → Array ℕ → Option ℕ
strchr_loop zero str target m = none
strchr_loop (suc k) str target m =
    let rest = strchr_loop k (str + 1) target m in
    if not (m str == 0)
    then (if m str == target then some str else rest)
    else if target == 0
    then some str
    else some 0

pub strchr : ℕ → ℕ → ℕ → Array ℕ → Option ℕ
strchr k str c m = strchr_loop k str (c % 256) m

-- The loop of `strncpy` and the NUL behind it: the rounds left, which are `max_len - 1`, and `i`.
pub strncpy_loop : ℕ → ℕ → ℕ → ℕ → Array ℕ → Array ℕ
strncpy_loop zero i d s m = store m (d + i) 0
strncpy_loop (suc k) i d s m =
    let rest = strncpy_loop k (i + 1) d s (store m (d + i) (m (s + i))) in
    if not (m (s + i) == 0) then rest else store m (d + i) 0

pub strncpy : ℕ → ℕ → ℕ → Array ℕ → Array ℕ
strncpy d s max_len m = if is_null d || is_null s then m else strncpy_loop (max_len - 1) 0 d s m

-- `while ((*d++ = *s++))`, with the rounds that it may take.
pub copy_string : ℕ → ℕ → ℕ → Array ℕ → Option (Array ℕ)
copy_string zero d s m = none
copy_string (suc k) d s m =
    let rest = copy_string k (d + 1) (s + 1) (store m d (m s)) in
    if not (m s == 0) then rest else some (store m d (m s))

-- The first address of the string at which one of the characters of `ct` stands, 0 if there is
-- none: the two loops of `strpbrk`. The inner one ends with whether the character was found.
pub accepted : ℕ → ℕ → ℕ → Array ℕ → Option Bool
accepted zero c ct m = none
accepted (suc k) c ct m =
    let rest = accepted k c (ct + 1) m in
    if m ct == 0 then some false else if c == m ct then some true else rest

-- What follows a search of the accepted characters.
abbrev pick : Option Bool → Option ℕ → Option ℕ → Option ℕ
pick none found missing = none
pick (some true) found missing = found
pick (some false) found missing = missing

-- `strspn`: the rounds of the inner and of the outer loop, and `count`.
pub strspn_loop : ℕ → ℕ → ℕ → ℕ → ℕ → Array ℕ → Option ℕ
strspn_loop n zero s accept count m = none
strspn_loop n (suc k) s accept count m =
    let rest = strspn_loop n k (s + 1) accept (count + 1) m in
    if m s == 0 then some count else pick (accepted n (m s) accept m) rest (some count)

pub strspn : ℕ → ℕ → ℕ → ℕ → Array ℕ → Option ℕ
strspn n k s accept m = strspn_loop n k s accept 0 m

-- `strpbrk`: the rounds of the inner and of the outer loop.
pub strpbrk : ℕ → ℕ → ℕ → ℕ → Array ℕ → Option ℕ
strpbrk n zero cs ct m = none
strpbrk n (suc k) cs ct m =
    let rest = strpbrk n k (cs + 1) ct m in
    if m cs == 0 then some 0 else pick (accepted n (m cs) ct m) (some cs) rest

-- The end of the token, once it is known: the token, the new `*s` and the memory.
abbrev cut_token : ℕ → Array ℕ → Option ℕ → Option (ℕ × ℕ × Array ℕ)
cut_token begin m none = none
cut_token begin m (some zero) = some (begin, 0, m)
cut_token begin m (some (suc e)) = some (begin, suc e + 1, store m (suc e) 0)

-- `strsep` of the string at `begin`, which is `*s`.
pub strsep : ℕ → ℕ → ℕ → ℕ → Array ℕ → Option (ℕ × ℕ × Array ℕ)
strsep n k begin ct m =
    if is_null begin then some (0, begin, m) else cut_token begin m (strpbrk n k begin ct m)
