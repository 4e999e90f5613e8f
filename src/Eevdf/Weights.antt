-- ===== src/Eevdf/Weights.antt =====
-- eevdf_nice_to_weight: the load of each nice value.
use arcline.Base.{ℕ, ◌+◌, ◌-◌, List, [], ◌∷◌, get_or, ℤ, pos, negsuc}

abbrev pub nice_to_weight : List ℕ
nice_to_weight =
    88761 ∷ 71755 ∷ 56483 ∷ 46273 ∷ 36291 ∷ 29154 ∷ 23254 ∷ 18705 ∷ 14949 ∷ 11916 ∷ 9548 ∷ 7620
    ∷ 6100 ∷ 4904 ∷ 3906 ∷ 3121 ∷ 2501 ∷ 1991 ∷ 1586 ∷ 1277 ∷ 1024 ∷ 820 ∷ 655 ∷ 526 ∷ 423 ∷ 335
    ∷ 272 ∷ 215 ∷ 172 ∷ 137 ∷ 110 ∷ 87 ∷ 70 ∷ 56 ∷ 45 ∷ 36 ∷ 29 ∷ 23 ∷ 18 ∷ 15 ∷ []

-- `priority + 20`, for a priority of -20 to 19.
abbrev pub nice_index : ℤ → ℕ
nice_index (pos n) = n + 20
nice_index (negsuc n) = 19 - n

-- `eevdf_nice_to_weight[task->priority + 20]`
unfoldable pub weight_of : ℤ → ℕ
weight_of nice = get_or nice_to_weight (nice_index nice) 0
