-- ===== src/Dtb/Sample.antt =====
-- A device tree in memory, at the address 8: a root with a memory node, /chosen and a UART.
use arcline.Base.{ℕ, Array, List, [], ◌∷◌, get_or, codes}
use arcline.Dtb.Tree.{Nodes, none_left, first_then, node}

abbrev bytes : List ℕ
bytes =
    0 ∷ 0 ∷ 0 ∷ 0 ∷ 0 ∷ 0 ∷ 0 ∷ 0 ∷ 208 ∷ 13 ∷ 254 ∷ 237 ∷ 0 ∷ 0 ∷ 0 ∷ 176 ∷ 0 ∷ 0 ∷ 0 ∷ 16 ∷ 0 ∷ 0
    ∷ 0 ∷ 160 ∷ 0 ∷ 0 ∷ 0 ∷ 1 ∷ 0 ∷ 0 ∷ 0 ∷ 0 ∷ 0 ∷ 0 ∷ 0 ∷ 1 ∷ 109 ∷ 101 ∷ 109 ∷ 111 ∷ 114 ∷ 121
    ∷ 64 ∷ 52 ∷ 0 ∷ 0 ∷ 0 ∷ 0 ∷ 0 ∷ 0 ∷ 0 ∷ 3 ∷ 0 ∷ 0 ∷ 0 ∷ 16 ∷ 0 ∷ 0 ∷ 0 ∷ 0 ∷ 0 ∷ 0 ∷ 0 ∷ 0 ∷ 64
    ∷ 0 ∷ 0 ∷ 0 ∷ 0 ∷ 0 ∷ 0 ∷ 0 ∷ 0 ∷ 64 ∷ 0 ∷ 0 ∷ 0 ∷ 0 ∷ 0 ∷ 2 ∷ 0 ∷ 0 ∷ 0 ∷ 1 ∷ 99 ∷ 104 ∷ 111
    ∷ 115 ∷ 101 ∷ 110 ∷ 0 ∷ 0 ∷ 0 ∷ 0 ∷ 0 ∷ 3 ∷ 0 ∷ 0 ∷ 0 ∷ 6 ∷ 0 ∷ 0 ∷ 0 ∷ 4 ∷ 47 ∷ 112 ∷ 108 ∷ 64
    ∷ 57 ∷ 0 ∷ 0 ∷ 0 ∷ 0 ∷ 0 ∷ 0 ∷ 2 ∷ 0 ∷ 0 ∷ 0 ∷ 1 ∷ 112 ∷ 108 ∷ 64 ∷ 57 ∷ 0 ∷ 0 ∷ 0 ∷ 0 ∷ 0 ∷ 0
    ∷ 0 ∷ 3 ∷ 0 ∷ 0 ∷ 0 ∷ 16 ∷ 0 ∷ 0 ∷ 0 ∷ 0 ∷ 0 ∷ 0 ∷ 0 ∷ 0 ∷ 9 ∷ 0 ∷ 0 ∷ 0 ∷ 0 ∷ 0 ∷ 0 ∷ 0 ∷ 0 ∷ 0
    ∷ 16 ∷ 0 ∷ 0 ∷ 0 ∷ 0 ∷ 2 ∷ 0 ∷ 0 ∷ 0 ∷ 2 ∷ 0 ∷ 0 ∷ 0 ∷ 9 ∷ 114 ∷ 101 ∷ 103 ∷ 0 ∷ 115 ∷ 116 ∷ 100
    ∷ 111 ∷ 117 ∷ 116 ∷ 45 ∷ 112 ∷ 97 ∷ 116 ∷ 104 ∷ 0 ∷ []

abbrev pub sample : Array ℕ
sample = λ a. get_or bytes a 0

-- The children of the root, which has no properties.
abbrev pub sample_nodes : Nodes
sample_nodes =
    first_then
      (node (codes "memory@4") (record { name = codes "reg"; address = 60; len = 16 } ∷ [])
        none_left)
      (first_then
        (node (codes "chosen") (record { name = codes "stdout-path"; address = 104; len = 6 } ∷ [])
          none_left)
        (first_then
          (node (codes "pl@9") (record { name = codes "reg"; address = 140; len = 16 } ∷ [])
            none_left)
          none_left))
