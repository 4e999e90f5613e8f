-- ===== src/Pmm/Reserved.antt =====
-- `reserve_reserved_memory` of mm/pmm.c.
pub mod Walked
use arcline.Base.{
  ℕ, zero, suc, ◌+◌, ◌-◌, ◌*◌, ◌/◌, ◌%◌, ◌^◌, Bool, true, false, not, ◌&&◌, ◌||◌, ltb, leb, ◌==◌,
  if◌then◌else◌, Array, List, [], ◌∷◌, ◌++◌, Option, none, some, add64, sub64, add32, bit_or, codes,
  page_down,
}
use arcline.Dtb.{
  ◌>>=◌, Fdt, header, token, cell, name_len, begins, is_text, align4, magic, begin_node, end_node,
  prop, nop,
}
use arcline.Pmm.{Pmm, reserve_range}

-- The local variables of the walk. The numbers of cells are the 32 bits of an `int`.
pub record Walk : Type 0 where
  pub p : ℕ
  pub depth : ℕ
  pub in_reserved : ℕ
  pub addr_cells : ℕ
  pub size_cells : ℕ

-- The rounds of a loop that counts from 0 to the `int` of these bits.
abbrev pub rounds : ℕ → ℕ
rounds c = if ltb c (2 ^ 31) then c else 0

-- `for (c = 0; c < n; ++c)`: the rounds left, `q` and the value; both at the end.
pub gather_cells : ℕ → ℕ → ℕ → Array ℕ → ℕ × ℕ
gather_cells zero q value m = (q, value)
gather_cells (suc k) q value m =
    gather_cells k (add64 q 4) (bit_or (value * 2 ^ 32 % 2 ^ 64) (cell m q)) m

-- The range of a tuple, whole pages of it.
pub reserve_tuple : ℕ → ℕ → Pmm → Pmm
reserve_tuple base size s =
    let aligned_base = page_down base in
    let aligned_end = page_down (add64 (add64 base size) 4095) in
    if size == 0
    then s
    else reserve_range s aligned_base
        (if ltb aligned_base aligned_end then aligned_end - aligned_base else 0)

-- The loop over the tuples: those left, and `q`.
pub tuple_loop : ℕ → ℕ → Array ℕ → Walk → Pmm → Pmm
unfolding gather_cells reserve_tuple
tuple_loop zero q m w s = s
tuple_loop (suc t) q m w s =
    let base = gather_cells (rounds w.addr_cells) q 0 m in
    let size = gather_cells (rounds w.size_cells) base.0 0 m in
    tuple_loop t size.0 m w (reserve_tuple base.1 size.1 s)

-- The number of tuples in a property of `len` bytes.
abbrev pub tuples : ℕ → Walk → ℕ
tuples len w =
    let sum = rounds (add32 w.addr_cells w.size_cells) in
    let tuple_cells = if sum == 0 then 4 else sum in rounds len / (4 * tuple_cells)

-- A property of `len` bytes at `pdata`, behind which the next token is at `after`.
pub reserve_value : Array ℕ → ℕ → ℕ → ℕ → ℕ → Walk → Pmm → Walk × Pmm
unfolding tuple_loop
reserve_value m pname pdata len after w s =
    let w1 =
      if is_text m pname (codes "#address-cells") && leb 4 len
      then record w { addr_cells = cell m pdata }
      else if is_text m pname (codes "#size-cells") && leb 4 len
      then record w { size_cells = cell m pdata }
      else w in
    if not (w.in_reserved == 0)
    then (record w1 { p = after }, s)
    else if w.in_reserved == 2 && is_text m pname (codes "reg")
    then (record w { p = after }, tuple_loop (tuples len w) pdata m w s)
    else (record w { p = after }, s)

pub reserve_prop : Array ℕ → Fdt → Walk → Pmm → Walk × Pmm
unfolding reserve_value
reserve_prop m h w s =
    let len = token m h (add32 w.p 4) in
    reserve_value m (add64 h.strings (token m h (add32 w.p 8))) (add64 h.fdt (add32 w.p 12)) len
      (add32 (add32 w.p 12) (align4 len)) w s

-- A node whose name has `len` bytes, with the entry of a child at the end of the round.
pub reserve_entry : Array ℕ → Fdt → ℕ → Walk → Walk
reserve_entry m h len w =
    let after = add32 (add32 w.p 4) (align4 ((len + 1) % 2 ^ 32)) in
    let w1 = record w { p = after; depth = w.depth + 1 } in
    let w2 =
      if w1.depth == 2 && begins m (add64 h.fdt (add32 w.p 4)) (codes "reserved-memory")
      then record w1 { in_reserved = 1; addr_cells = 2; size_cells = 2 }
      else w1 in
    if w2.in_reserved == 1 && leb 3 w2.depth then record w2 { in_reserved = 2 } else w2

pub reserve_leave : Walk → Walk
reserve_leave w = record w {
  p = add32 w.p 4;
  in_reserved = if w.in_reserved == 2 then 1 else if w.in_reserved == 1 then 0 else w.in_reserved;
  depth = w.depth - 1;
}

-- The loop, with its rounds; `k` bounds the length of a name.
pub reserve_walk : ℕ → ℕ → Array ℕ → Fdt → Walk → Pmm → Option Pmm
unfolding reserve_prop reserve_entry reserve_leave
reserve_walk zero k m h w s = none
reserve_walk (suc n) k m h w s =
    let t = token m h w.p in
    let entered =
      name_len k 0 (add64 h.fdt (add32 w.p 4)) m
      >>= (λ len. reserve_walk n k m h (reserve_entry m h len w) s) in
    let noted = reserve_walk n k m h (reserve_prop m h w s).0 (reserve_prop m h w s).1 in
    let left = reserve_walk n k m h (reserve_leave w) s in
    let skipped = reserve_walk n k m h (record w { p = add32 w.p 4 }) s in
    if t == begin_node
    then entered
    else if t == prop
    then noted
    else if t == end_node
    then left
    else if t == nop
    then skipped
    else some s

pub reserve_reserved_memory : ℕ → ℕ → Array ℕ → ℕ → Pmm → Option Pmm
unfolding reserve_walk
reserve_reserved_memory n k m dtb s =
    let h = header m dtb in
    let w : Walk = record {
      p = h.off_struct;
      depth = 0;
      in_reserved = 0;
      addr_cells = 2;
      size_cells = 2;
    } in
    let walked = reserve_walk n k m h w s in
    if dtb == 0 then some s else if not (cell m dtb == magic) then some s else walked
