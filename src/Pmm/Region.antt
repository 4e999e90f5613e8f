-- ===== src/Pmm/Region.antt =====
-- `dtb_find_memory_region` of mm/pmm.c.
pub mod Items
pub mod Tree
use arcline.Base.{
  ℕ, zero, suc, ◌+◌, ◌-◌, ◌*◌, ◌%◌, ◌^◌, Bool, true, false, not, ◌&&◌, ◌||◌, ltb, leb, ◌==◌,
  if◌then◌else◌, Array, List, [], ◌∷◌, ◌++◌, Option, none, some, add64, add32, bit_or, codes,
}
use arcline.Dtb.{
  ◌>>=◌, Fdt, header, token, cell, name_len, begins, is_text, align4, magic, begin_node, end_node,
  prop, nop,
}

-- The local variables of the walk. `in_memory` is `in_memory_node`; the numbers of cells are the 32 bits of
-- an `int`.
pub record Walk : Type 0 where
  pub p : ℕ
  pub depth : ℕ
  pub in_memory : Bool
  pub device_type_memory : Bool
  pub addr_cells : ℕ
  pub size_cells : ℕ

-- What a token leads to.
pub data Outcome (A : Type 0) : Type 0 where
  goes_on : A → Outcome A
  found : ℕ × ℕ → Outcome A
  stops : Outcome A

-- An `int` of these bits is greater than 0.
abbrev pub is_positive : ℕ → Bool
is_positive c = not (c == 0) && ltb c (2 ^ 31)

-- `for (c = 0; c < n && q + 4 <= end; ++c)`: the rounds left, `q` and the value; both at the end.
unfoldable pub read_cells : ℕ → ℕ → ℕ → ℕ → Array ℕ → ℕ × ℕ
unfolding cell
read_cells zero end q value m = (q, value)
read_cells (suc k) end q value m =
    let rest = read_cells k end (add64 q 4) (bit_or (value * 2 ^ 32 % 2 ^ 64) (cell m q)) m in
    if leb (add64 q 4) end then rest else (q, value)

-- The first tuple of a property "reg" of `len` bytes at `pdata`: base and size.
unfoldable pub first_tuple : Array ℕ → ℕ → ℕ → ℕ → ℕ → ℕ × ℕ
unfolding read_cells
first_tuple m pdata len addr_cells size_cells =
    let ac = if is_positive addr_cells then addr_cells else 2 in
    let sc = if is_positive size_cells then size_cells else 2 in
    let base = read_cells ac (add64 pdata len) pdata 0 m in
    let size = read_cells sc (add64 pdata len) base.0 0 m in (base.1, size.1)

-- The root's numbers of cells.
unfoldable pub note_cells : Array ℕ → ℕ → ℕ → ℕ → Walk → Walk
unfolding begins cell
note_cells m pname pdata len w =
    if is_text m pname (codes "#address-cells") && leb 4 len
    then record w { addr_cells = cell m pdata }
    else if is_text m pname (codes "#size-cells") && leb 4 len
    then record w { size_cells = cell m pdata }
    else w

-- `device_type` of a memory node.
unfoldable pub note_type : Array ℕ → ℕ → ℕ → ℕ → Walk → Walk
unfolding begins
note_type m pname pdata len w =
    if w.in_memory
      && is_text m pname (codes "device_type")
      && (leb 6 len && begins m pdata (codes "memory"))
    then record w { device_type_memory = true }
    else w

-- A property of `len` bytes at `pdata`, behind which the next token is at `after`.
unfoldable pub find_value : Array ℕ → ℕ → ℕ → ℕ → ℕ → Walk → Outcome Walk
unfolding begins note_type note_cells first_tuple
find_value m pname pdata len after w =
    let w1 = note_type m pname pdata len w in
    let w2 = if w1.depth == 1 then note_cells m pname pdata len w1 else w1 in
    let reg = w2.in_memory && is_text m pname (codes "reg") in
    if reg && (w2.in_memory || w2.device_type_memory)
    then found (first_tuple m pdata len w2.addr_cells w2.size_cells)
    else goes_on (record w2 { p = after })

-- A property, whose token is at `p`.
unfoldable pub find_prop : Array ℕ → Fdt → Walk → Outcome Walk
unfolding token find_value
find_prop m h w =
    let len = token m h (add32 w.p 4) in
    find_value m (add64 h.strings (token m h (add32 w.p 8))) (add64 h.fdt (add32 w.p 12)) len
      (add32 (add32 w.p 12) (align4 len)) w

-- A node, whose token is at `p`.
unfoldable pub find_node : ℕ → Array ℕ → Fdt → Walk → Option (Outcome Walk)
unfolding name_len begins
find_node k m h w = do
  let name = add64 h.fdt (add32 w.p 4)
  len ← name_len k 0 name m
  some (
      goes_on (record w {
        p = add32 (add32 w.p 4) (align4 ((len + 1) % 2 ^ 32));
        depth = w.depth + 1;
        in_memory = leb 6 len && begins m name (codes "memory");
        device_type_memory = false;
      }))

-- The body of the loop.
unfoldable pub find_step : ℕ → Array ℕ → Fdt → Walk → Option (Outcome Walk)
unfolding token find_node find_prop
find_step k m h w =
    let t = token m h w.p in
    let after = add32 w.p 4 in
    if t == begin_node
    then find_node k m h w
    else if t == prop
    then some (find_prop m h w)
    else if t == end_node
    then some (
        goes_on (record w {
          p = after;
          depth = w.depth - 1;
          in_memory = false;
          device_type_memory = false;
        }))
    else if t == nop
    then some (goes_on (record w { p = after }))
    else some stops

-- The loop, with its rounds; `k` bounds the length of a name. `none` inside is -1.
unfoldable pub find_loop : ℕ → ℕ → Array ℕ → Fdt → Walk → Option (Option (ℕ × ℕ))
unfolding find_step
find_loop zero k m h w = none
find_loop (suc n) k m h w = find_step k m h w >>= (λ o. elim o [
  | goes_on w' ↦ find_loop n k m h w'
  | found r ↦ some (some r)
  | stops ↦ some none
])

unfoldable pub find_memory_region : ℕ → ℕ → Array ℕ → ℕ → Option (Option (ℕ × ℕ))
unfolding header cell find_loop
find_memory_region n k m dtb =
    let h = header m dtb in
    let w : Walk = record {
      p = h.off_struct;
      depth = 0;
      in_memory = false;
      device_type_memory = false;
      addr_cells = 2;
      size_cells = 2;
    } in
    let walked = find_loop n k m h w in
    if dtb == 0 then some none else if not (cell m dtb == magic) then some none else walked
