-- ===== src/Dtb/Uart.antt =====
-- `dtb_get_stdout_uart_base` of drivers/dtb.c. `k` bounds the rounds of each loop.
mod Path
mod FirstPass
mod SecondPass
pub mod Ends
use arcline.Base.{
  ℕ, zero, suc, ◌+◌, ◌-◌, ◌*◌, ◌%◌, ◌^◌, Bool, true, false, not, ◌&&◌, ◌||◌, ltb, leb, ◌==◌,
  if◌then◌else◌, Array, store, List, [], ◌∷◌, ◌++◌, length, Option, none, some, add64, add32,
  bit_or, codes,
}
use arcline.Dtb.{
  ◌>>=◌, Fdt, header, token, cell, name_len, begins, align4, magic, begin_node, end_node, prop, nop,
  path_equals, extract_path_token,
}

-- The local variables of the first pass: `aliases` are the names and paths, `stdout` is
-- `stdout_token` with its length.
pub record First : Type 0 where
  pub p : ℕ
  pub depth : ℕ
  pub aliases : List (ℕ × ℕ)
  pub stdout : ℕ × ℕ

abbrev pub advance : ℕ → First → First
advance n s = record s { p = add32 s.p n }

-- `p += 4; p += 4; p += 4; p += align4(len)` after the token of a property at `p`.
abbrev pub after_prop : Array ℕ → Fdt → ℕ → ℕ
unfolding token
after_prop m h p = add32 (add32 p 12) (align4 (token m h (add32 p 4)))

-- A property inside a node of the first pass, whose token is at `p`.
unfoldable pub note_prop : Array ℕ → Fdt → Bool → Bool → First → First
unfolding token begins extract_path_token
note_prop m h in_chosen in_aliases s =
    let len = token m h (add32 s.p 4) in
    let pname = add64 h.strings (token m h (add32 s.p 8)) in
    let pdata = add64 h.fdt (add32 s.p 12) in
    let s1 =
      if in_chosen && (begins m pname (codes "stdout-path") || begins m pname (codes "stdout"))
      then record s { stdout = extract_path_token pdata len m }
      else if in_aliases && ltb (length s.aliases) 16
      then record s { aliases = s.aliases ++ ((pname, pdata) ∷ []) }
      else s in
    record s1 { p = after_prop m h s.p }

-- The loop over the properties of a node: whether the pass is over, and the variables.
unfoldable pub first_props : ℕ → Array ℕ → Fdt → Bool → Bool → First → Option (Bool × First)
unfolding token note_prop
first_props zero m h in_chosen in_aliases s = none
first_props (suc k) m h in_chosen in_aliases s =
    let t = token m h s.p in
    let noted = first_props k m h in_chosen in_aliases (note_prop m h in_chosen in_aliases s) in
    let skipped = first_props k m h in_chosen in_aliases (advance 4 s) in
    if t == prop
    then noted
    else if t == end_node
    then some (false, record (advance 4 s) { depth = s.depth - 1 })
    else if t == nop
    then skipped
    else if t == begin_node
    then some (false, s)
    else some (true, advance 4 s)

-- A node of the first pass, whose token is at `p`.
unfoldable pub first_node : ℕ → Array ℕ → Fdt → First → Option (Bool × First)
unfolding name_len begins first_props
first_node k m h s = do
  let name = add64 h.fdt (add32 s.p 4)
  len ← name_len k 0 name m
  let depth = if ltb s.depth 16 then s.depth + 1 else s.depth
  let inner = depth == 2
  first_props k m h (inner && begins m name (codes "chosen"))
      (inner && begins m name (codes "aliases"))
      (record s { p = add32 (add32 s.p 4) (align4 ((len + 1) % 2 ^ 32)); depth = depth })

-- The first pass.
unfoldable pub first_pass : ℕ → ℕ → Array ℕ → Fdt → First → Option First
unfolding token first_node
first_pass n zero m h s = none
first_pass n (suc k) m h s =
    let t = token m h s.p in
    let next = λ (s' : First). first_pass n k m h s' in
    elim (t == begin_node) [
      | true ↦ first_node n m h s >>= (λ r. elim r.0 [ true ↦ some r.1 | false ↦ next r.1 ])
      | false ↦ elim (t == end_node) [
        | true ↦ next (record (advance 4 s) { depth = s.depth - 1 })
        | false ↦ elim (t == prop) [
          | true ↦ next (record s { p = after_prop m h s.p })
          | false ↦ elim (t == nop) [ true ↦ next (advance 4 s) | false ↦ some (advance 4 s) ]
        ]
      ]
    ]

-- `dst[i] = src[i]`: the rounds left and `i`.
unfoldable pub copy_bytes : ℕ → ℕ → (ℕ → ℕ) → Array ℕ → Array ℕ
copy_bytes zero i src dst = dst
copy_bytes (suc k) i src dst = copy_bytes k (i + 1) src (store dst i (src i))

-- The length of the common part of an alias name and the token: the rounds left, which are `len - j`,
-- and `j`.
unfoldable pub common : ℕ → ℕ → ℕ → ℕ → Array ℕ → ℕ
common zero j an tok m = j
common (suc k) j an tok m =
    let rest = common k (j + 1) an tok m in
    if not (m (an + j) == 0) && (not (m (tok + j) == 0) && m (an + j) == m (tok + j))
    then rest
    else j

-- `while (ap[k] && k < 255) buf[k] = ap[k]` and the NUL: the rounds left, which are `255 - k`, and `k`.
unfoldable pub copy_path : ℕ → ℕ → ℕ → Array ℕ → Array ℕ → Array ℕ
copy_path zero i ap m buf = store buf i 0
copy_path (suc k) i ap m buf =
    let rest = copy_path k (i + 1) ap m (store buf i (m (ap + i))) in
    if not (m (ap + i) == 0) then rest else store buf i 0

-- The search of the alias: `resolved_path_buf`, if there is one.
unfoldable pub resolve_alias : ℕ × ℕ → Array ℕ → Array ℕ → List (ℕ × ℕ) → Option (Array ℕ)
unfolding common copy_path
resolve_alias tok m buf [] = none
resolve_alias tok m buf ((name, path) ∷ as') =
    let rest = resolve_alias tok m buf as' in
    let j = common tok.1 0 name tok.0 m in
    if j == tok.1 && m (name + j) == 0 then some (copy_path 255 0 path m buf) else rest

-- `target_path`; what stood in the buffer before is `buf`.
unfoldable pub target_path : ℕ × ℕ → List (ℕ × ℕ) → Array ℕ → Array ℕ → Option (Array ℕ)
unfolding copy_bytes resolve_alias
target_path tok aliases m buf =
    let n = if ltb tok.1 255 then tok.1 else 255 in
    let copied = store (copy_bytes n 0 (λ i. m (tok.0 + i)) buf) n 0 in
    if m tok.0 == b'/' then some copied else resolve_alias tok m buf aliases

-- The local variables of the second pass.
pub record Second : Type 0 where
  pub p : ℕ
  pub depth : ℕ
  pub path : Array ℕ

-- The loop that appends a name to `current_path`: the rounds left, `i` and `cur_len`; then the NUL.
unfoldable pub append_loop : ℕ → ℕ → ℕ → ℕ → Array ℕ → Array ℕ → Array ℕ
append_loop zero i cur_len name m path = store path cur_len 0
append_loop (suc k) i cur_len name m path =
    let rest = append_loop k (i + 1) (cur_len + 1) name m (store path cur_len (m (name + i))) in
    if ltb cur_len 255 then rest else store path cur_len 0

unfoldable pub append_name : ℕ → ℕ → ℕ → Array ℕ → Array ℕ → Option (Array ℕ)
unfolding name_len append_loop
append_name k name len m path = do
  cur_len ← name_len k 0 0 path
  let slash = ltb 1 cur_len
  some (
      append_loop len 0 (if slash then cur_len + 1 else cur_len) name m
        (if slash then store path cur_len b'/' else path))

-- `while (cur_len > 1 && current_path[cur_len - 1] != '/') cur_len--`
unfoldable pub last_slash : ℕ → Array ℕ → ℕ
last_slash zero path = zero
last_slash (suc n) path =
    let rest = last_slash n path in if ltb 1 (suc n) && not (path n == b'/') then rest else suc n

unfoldable pub pop_name : ℕ → Array ℕ → Option (Array ℕ)
unfolding name_len last_slash
pop_name k path = do
  len ← name_len k 0 0 path
  let cur_len = last_slash len path
  some (store path (if ltb 1 cur_len then cur_len - 1 else 1) 0)

-- The base that a property "reg" of `len` bytes at `pdata` gives.
unfoldable pub reg_base : Array ℕ → ℕ → ℕ → Option ℕ
unfolding cell
reg_base m pdata len =
    if leb 8 len
    then some (bit_or (cell m pdata * 2 ^ 32) (cell m (pdata + 4)))
    else if leb 4 len
    then some (cell m pdata)
    else none

-- The loop over the properties of a node: what is returned, `none` for -1, or the variables. `b` bounds
-- the loops over the path.
pub data Outcome (A : Type 0) : Type 0 where
  returns : Option ℕ → Outcome A
  goes_on : A → Outcome A

unfoldable pub second_props : ℕ → ℕ → Array ℕ → Fdt → Bool → Second → Option (Outcome Second)
unfolding token begins reg_base pop_name
second_props b zero m h at_target s = none
second_props b (suc k) m h at_target s =
    let t = token m h s.p in
    let pname = add64 h.strings (token m h (add32 s.p 8)) in
    let base = reg_base m (add64 h.fdt (add32 s.p 12)) (token m h (add32 s.p 4)) in
    let passed = second_props b k m h at_target (record s { p = after_prop m h s.p }) in
    let skipped = second_props b k m h at_target (record s { p = add32 s.p 4 }) in
    let popped =
      pop_name b s.path
      >>= (λ path. some (goes_on (record { p = add32 s.p 4; depth = s.depth - 1; path = path }))) in
    if t == prop
    then (if at_target && begins m pname (codes "reg") then some (returns base) else passed)
    else if t == end_node
    then popped
    else if t == nop
    then skipped
    else if t == begin_node
    then some (goes_on s)
    else some (returns none)

unfoldable pub second_node : ℕ → Array ℕ → Fdt → Array ℕ → Second → Option (Outcome Second)
unfolding name_len append_name path_equals second_props
second_node k m h target s = do
  let name = add64 h.fdt (add32 s.p 4)
  len ← name_len k 0 name m
  path ← (if s.depth == 0 && len == 0 then some s.path else append_name k name len m s.path)
  at_target ← path_equals k 0 path target
  second_props k k m h at_target (record {
    p = add32 (add32 s.p 4) (align4 ((len + 1) % 2 ^ 32));
    depth = s.depth + 1;
    path = path;
  })

-- The second pass: the base, `none` for -1.
unfoldable pub second_pass : ℕ → ℕ → Array ℕ → Fdt → Array ℕ → Second → Option (Option ℕ)
unfolding token second_node
second_pass n zero m h target s = none
second_pass n (suc k) m h target s =
    let t = token m h s.p in
    let next = λ (s' : Second). second_pass n k m h target s' in
    elim (t == begin_node) [
      | true ↦
          second_node n m h target s
          >>= (λ r. elim r [ returns base ↦ some base | goes_on s' ↦ next s' ])
      | false ↦ elim (t == prop) [
        | true ↦ next (record s { p = after_prop m h s.p })
        | false ↦ elim (t == end_node || t == nop) [
          | true ↦ next (record s { p = add32 s.p 4 })
          | false ↦ some none
        ]
      ]
    ]

-- From the end of the first pass on.
unfoldable pub locate : ℕ → Array ℕ → Fdt → Array ℕ → First → Option (Option ℕ)
unfolding target_path second_pass
locate k m h buf first =
    let path = store (store buf 0 b'/') 1 0 in
    let start : Second = record { p = h.off_struct; depth = 0; path = path } in
    let found : Option (Option ℕ) = elim (target_path first.stdout first.aliases m buf) [
      | none ↦ some none
      | some t ↦ second_pass k k m h t start
    ] in
    if first.stdout.0 == 0 || first.stdout.1 == 0 then some none else found

-- `dtb_get_stdout_uart_base`: the base that it writes, `none` where it returns -1. `buf` is what the
-- local arrays hold at first.
unfoldable pub stdout_uart_base : ℕ → Array ℕ → ℕ → Array ℕ → Option (Option ℕ)
unfolding cell header first_pass locate
stdout_uart_base k m dtb_ptr buf =
    let h = header m dtb_ptr in
    let start : First = record { p = h.off_struct; depth = 0; aliases = []; stdout = (0, 0) } in
    let located = first_pass k k m h start >>= locate k m h buf in
    if dtb_ptr == 0 then some none else if not (cell m dtb_ptr == magic) then some none else located
