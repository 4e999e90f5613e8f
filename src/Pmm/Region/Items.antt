-- ===== src/Pmm/Region/Items.antt =====
-- What `dtb_find_memory_region` finds among the items of a well-formed block.
use arcline.Base.{
  ℕ, zero, suc, ◌+◌, ◌-◌, ◌%◌, ◌^◌, ◌<◌, ◌≡◌, refl, Bool, true, false, ◌&&◌, leb, arith, ◌==◌,
  if◌then◌else◌, Array, List, [], ◌∷◌, length, Option, none, some, add64, add32, codes,
}
use arcline.Dtb.{Fdt, token, cell, begins, align4}
use arcline.Dtb.Items.{
  Text, Item, enter, property, leave, skip, Block, done, enters, holds, leaves, skips, starts, same,
  is_plain, are_short, name_len_lem, begins_lem, is_text_lem, starts-length,
}
use arcline.Pmm.Region.{
  Walk, Outcome, goes_on, found, stops, first_tuple, note_cells, note_type, find_value, find_prop,
  find_node, find_step, find_loop,
}

-- The numbers of cells after a property of the root.
unfoldable pub cells_after : Array ℕ → List ℕ → ℕ → ℕ → ℕ × ℕ → ℕ × ℕ
cells_after m name pdata len c =
    if same (codes "#address-cells") name && leb 4 len
    then (cell m pdata, c.1)
    else if same (codes "#size-cells") name && leb 4 len
    then (c.0, cell m pdata)
    else c

-- The walk over items, at a depth, in a memory node or not, with the numbers of cells.
unfoldable pub find_items : Array ℕ → List Item → ℕ → Bool → ℕ × ℕ → Option (ℕ × ℕ)
unfolding cells_after starts same
find_items m [] depth in_memory c = none
find_items m (enter name ∷ is) depth in_memory c =
    find_items m is (suc depth) (starts (codes "memory") name) c
find_items m (property name pdata len ∷ is) depth in_memory c =
    let c1 = if depth == 1 then cells_after m name pdata len c else c in
    let rest = find_items m is depth in_memory c1 in
    if in_memory && same (codes "reg") name then some (first_tuple m pdata len c1.0 c1.1) else rest
find_items m (leave ∷ is) depth in_memory c = find_items m is (depth - 1) false c
find_items m (skip ∷ is) depth in_memory c = find_items m is depth in_memory c

note_cells-cells_after :
    (m : Array ℕ) (pname pdata len : ℕ) (w : Walk) {name : List ℕ}
    → Text m pname name
    → note_cells m pname pdata len w ≡ (record w {
      addr_cells = (cells_after m name pdata len (w.addr_cells, w.size_cells)).0;
      size_cells = (cells_after m name pdata len (w.addr_cells, w.size_cells)).1;
    })
unfolding note_cells cells_after is_plain
note_cells-cells_after m pname pdata len w t = ground (
  arith,
  is_text_lem (codes "#address-cells") pname m refl t,
  is_text_lem (codes "#size-cells") pname m refl t,
)

note_type_lem :
    (m : Array ℕ) (pname pdata len : ℕ) (w : Walk)
    → note_type m pname pdata len w
      ≡ (record w { device_type_memory = (note_type m pname pdata len w).device_type_memory })
unfolding note_type
note_type_lem m pname pdata len w = ground arith

-- The numbers of cells after a property, at a depth.
abbrev pub noted : Array ℕ → List ℕ → ℕ → ℕ → ℕ → ℕ × ℕ → ℕ × ℕ
noted m name pdata len depth c = if depth == 1 then cells_after m name pdata len c else c

find_value_lem :
    (m : Array ℕ) (pname pdata len after : ℕ) (w : Walk) {name : List ℕ}
    → Text m pname name
    → (c : ℕ × ℕ) → noted m name pdata len w.depth (w.addr_cells, w.size_cells) ≡ c
    → find_value m pname pdata len after w ≡ (
        if w.in_memory && same (codes "reg") name
        then found (first_tuple m pdata len c.0 c.1)
        else goes_on (record w {
          p = after;
          device_type_memory = (note_type m pname pdata len w).device_type_memory;
          addr_cells = c.0;
          size_cells = c.1;
        }))
unfolding find_value is_plain
find_value_lem m pname pdata len after w {name} t c g = ground (
  arith,
  is_text_lem (codes "reg") pname m refl t,
  note_type_lem m pname pdata len w,
  note_cells-cells_after m pname pdata len (note_type m pname pdata len w) t,
)

node_named :
    (ls cs : List ℕ) (a : ℕ) (m : Array ℕ)
    → is_plain ls ≡ true
    → Text m a cs
    → leb (length ls) (length cs) && begins m a ls ≡ starts ls cs
node_named ls cs a m p t = ground (arith, begins_lem ls a m p t, starts-length ls cs)

find_node_lem :
    (k : ℕ) (m : Array ℕ) (h : Fdt) (w : Walk) {name : List ℕ}
    → Text m (add64 h.fdt (add32 w.p 4)) name
    → length name < k
    → find_node k m h w
      ≡ some (
          goes_on (record w {
            p = add32 (add32 w.p 4) (align4 ((length name + 1) % 2 ^ 32));
            depth = suc w.depth;
            in_memory = starts (codes "memory") name;
            device_type_memory = false;
          }))
unfolding find_node is_plain
find_node_lem k m h w {name} t s = ground (
  arith,
  name_len_lem k 0 (add64 h.fdt (add32 w.p 4)) (add64 h.fdt (add32 w.p 4)) m (omega arith) t s,
  node_named (codes "memory") name (add64 h.fdt (add32 w.p 4)) m refl t,
)

abbrev after_step : ℕ → ℕ → Array ℕ → Fdt → Outcome Walk → Option (Option (ℕ × ℕ))
after_step n k m h (goes_on w') = find_loop n k m h w'
after_step n k m h (found r) = some (some r)
after_step n k m h stops = some none

found_or :
    (n k : ℕ) (m : Array ℕ) (h : Fdt) (b : Bool) (r : ℕ × ℕ) (w' : Walk) (x : Option (ℕ × ℕ))
    → find_loop n k m h w' ≡ some x
    → after_step n k m h (if b then found r else goes_on w') ≡ some (if b then some r else x)
found_or n k m h true r w' x e = refl
found_or n k m h false r w' x e = e

-- The loop finds what the walk over the items does, given a round for each item and one for the end.
pub find_loop-find_items :
    (n k : ℕ) (m : Array ℕ) (h : Fdt) (w : Walk) {is : List Item}
    → Block m h w.p is
    → are_short k is ≡ true
    → length is < n
    → find_loop n k m h w ≡ some (find_items m is w.depth w.in_memory (w.addr_cells, w.size_cells))
unfolding find_loop find_step find_items are_short find_prop
find_loop-find_items zero k m h w b s l = absurd (omega arith)
find_loop-find_items (suc n) k m h w (done e) s l = ground arith
find_loop-find_items (suc n) k m h w (enters {name} e t b) s l =
    rw (e, find_node_lem k m h w t (ground arith))
      (find_loop-find_items n k m h
        (record w {
          p = add32 (add32 w.p 4) (align4 ((length name + 1) % 2 ^ 32));
          depth = suc w.depth;
          in_memory = starts (codes "memory") name;
          device_type_memory = false;
        })
        b (ground arith) (omega arith))
find_loop-find_items (suc n) k m h w (holds {name = name} {is = is} e t b) s l =
    rw (e, find_value_lem m pname pdata len after w t c refl)
      (found_or n k m h (w.in_memory && same (codes "reg") name) (first_tuple m pdata len c.0 c.1)
        w' (find_items m is w.depth w.in_memory c)
        (find_loop-find_items n k m h w' b s (omega arith)))
  where
    pname : ℕ
    pname = add64 h.strings (token m h (add32 w.p 8))

    len : ℕ
    len = token m h (add32 w.p 4)

    pdata : ℕ
    pdata = add64 h.fdt (add32 w.p 12)

    after : ℕ
    after = add32 (add32 w.p 12) (align4 len)

    c : ℕ × ℕ
    c = noted m name pdata len w.depth (w.addr_cells, w.size_cells)

    w' : Walk
    w' = record w {
      p = after;
      device_type_memory = (note_type m pname pdata len w).device_type_memory;
      addr_cells = c.0;
      size_cells = c.1;
    }
find_loop-find_items (suc n) k m h w (leaves e b) s l = rw e (
    find_loop-find_items n k m h
      (record w {
        p = add32 w.p 4;
        depth = w.depth - 1;
        in_memory = false;
        device_type_memory = false;
      })
      b s (omega arith))
find_loop-find_items (suc n) k m h w (skips e b) s l =
    rw e (find_loop-find_items n k m h (record w { p = add32 w.p 4 }) b s (omega arith))
