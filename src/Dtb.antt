-- ===== src/Dtb.antt =====
-- drivers/dtb.c and include/dtb.h: the flattened device tree. The memory is a function from addresses
-- to bytes. A loop that is not bounded by the source is given the rounds that it may take, and
-- answers `none` when they run out. Printing is left out.
pub mod Items
pub mod Tree
pub mod Uart
pub mod Cells
pub mod Check
pub mod Sample
mod Tests
use arcline.Base.{
  ℕ, zero, suc, ◌+◌, ◌-◌, ◌*◌, ◌/◌, ◌%◌, ◌^◌, Bool, true, false, not, ◌&&◌, ◌||◌, ltb, leb, ◌==◌,
  is_null, if◌then◌else◌, Array, List, [], ◌∷◌, ◌++◌, Option, none, some, add64, add32, bit_and,
  bit_or, codes,
}

-- What follows a loop that may not be done.
infixl 5 ◌>>=◌
abbrev pub ◌>>=◌ {ℓ κ} : {A : Type ℓ} {B : Type κ} → Option A → (A → Option B) → Option B
none >>= f = none
(some a) >>= f = f a

-- `*(uint32_t *)a`, on a little-endian machine.
abbrev pub word32 : Array ℕ → ℕ → ℕ
word32 m a = m a + m (a + 1) * 2 ^ 8 + m (a + 2) * 2 ^ 16 + m (a + 3) * 2 ^ 24

unfoldable pub be32_to_cpu : ℕ → ℕ
be32_to_cpu v =
    bit_or
      (bit_or (bit_or (bit_and v 0xFF * 2 ^ 24) (bit_and v 0xFF00 * 2 ^ 8))
        (bit_and v 0xFF0000 / 2 ^ 8))
      (bit_and v 0xFF000000 / 2 ^ 24)

-- `be32_to_cpu(*(uint32_t *)a)`
unfoldable pub cell : Array ℕ → ℕ → ℕ
unfolding be32_to_cpu
cell m a = be32_to_cpu (word32 m a)

-- `(x + 3) & ~3u`
abbrev pub align4 : ℕ → ℕ
align4 x = let y = add32 x 3 in y - y % 4

abbrev pub magic : ℕ
magic = 0xd00dfeed

abbrev pub begin_node : ℕ
begin_node = 1

abbrev pub end_node : ℕ
end_node = 2

abbrev pub prop : ℕ
prop = 3

abbrev pub nop : ℕ
nop = 4

abbrev pub end_tree : ℕ
end_tree = 9

-- The static variables `dtb_ptr` and `boot_x0`.
pub record Boot : Type 0 where
  pub dtb_ptr : ℕ
  pub boot_x0 : ℕ

-- Where the tree is: `fdt`, and `off_struct` and `strings` as every walk reads them.
pub record Fdt : Type 0 where
  pub fdt : ℕ
  pub off_struct : ℕ
  pub strings : ℕ

unfoldable pub header : Array ℕ → ℕ → Fdt
unfolding cell
header m ptr = record {
  fdt = ptr;
  off_struct = cell m (ptr + 8);
  strings = add64 ptr (cell m (ptr + 12));
}

-- `be32_to_cpu(*(uint32_t *)(fdt + p))`
unfoldable pub token : Array ℕ → Fdt → ℕ → ℕ
unfolding cell
token m h p = cell m (add64 h.fdt p)

-- `while (name[len] != '\0') len++`
unfoldable pub name_len : ℕ → ℕ → ℕ → Array ℕ → Option ℕ
name_len zero len name m = none
name_len (suc k) len name m =
    let rest = name_len k (len + 1) name m in if m (name + len) == 0 then some len else rest

-- The bytes of a literal stand at `a`: `strncmp(a, text, n) == 0` with the length of the literal, or
-- `strcmp(a, text) == 0` with its NUL.
unfoldable pub begins : Array ℕ → ℕ → List ℕ → Bool
begins m a [] = true
begins m a (c ∷ cs) = m a == c && begins m (a + 1) cs

abbrev pub is_text : Array ℕ → ℕ → List ℕ → Bool
unfolding begins
is_text m a cs = begins m a (cs ++ (0 ∷ []))

-- `path_equals`, from the index `i` of both arrays on.
unfoldable pub path_equals : ℕ → ℕ → Array ℕ → Array ℕ → Option Bool
path_equals zero i a b = none
path_equals (suc k) i a b =
    let rest = path_equals k (i + 1) a b in
    if not (a i == 0) && not (b i == 0)
    then (if not (a i == b i) then some false else rest)
    else some (a i == 0 && b i == 0)

-- The loop of `extract_path_token`: the rounds left, which are `len - l`, and `l`.
unfoldable pub token_loop : ℕ → ℕ → ℕ → Array ℕ → ℕ
token_loop zero l val m = l
token_loop (suc k) l val m =
    let rest = token_loop k (l + 1) val m in
    let c = m (val + l) in if not (c == 0) && (not (c == b':') && not (c == b',')) then rest else l

-- `extract_path_token`: `*out_start` and `*out_len`.
unfoldable pub extract_path_token : ℕ → ℕ → Array ℕ → ℕ × ℕ
unfolding token_loop
extract_path_token val len m = (val, token_loop len 0 val m)

-- The loop over the fixed locations.
unfoldable pub search_fixed : List ℕ → Array ℕ → ℕ
unfolding cell
search_fixed [] m = 0
search_fixed (a ∷ as') m = let rest = search_fixed as' m in if cell m a == magic then a else rest

abbrev pub locations : List ℕ
locations = 0x48000000 ∷ 0x7ff00000 ∷ 0x44000000 ∷ 0x50000000 ∷ []

-- The scan in steps of 4 KiB: the rounds left and `addr`.
unfoldable pub scan : ℕ → ℕ → Array ℕ → ℕ
unfolding cell
scan zero addr m = 0
scan (suc k) addr m =
    let rest = scan k (add64 addr 0x1000) m in
    if ltb addr 0x50000000 then (if cell m addr == magic then addr else rest) else 0

abbrev pub scan_start : ℕ → ℕ
scan_start kernel_end = let e = add64 kernel_end 0xfffff in e - e % 2 ^ 20

-- `dtb_search`, with the rounds of the scan.
unfoldable pub search : ℕ → ℕ → Array ℕ → ℕ
unfolding search_fixed scan
search k kernel_end m =
    let fixed = search_fixed locations m in
    let scanned = scan k (scan_start kernel_end) m in if fixed == 0 then scanned else fixed

-- `dtb_init`; a wrong magic number is only reported.
unfoldable pub init : ℕ → ℕ → Array ℕ → Boot → Boot
unfolding search
init k kernel_end m b =
    let given = if b.dtb_ptr == 0 then b.boot_x0 else b.dtb_ptr in
    let addr = if given == 0 then search k kernel_end m else given in
    if addr == 0 then b else record b { dtb_ptr = addr }
