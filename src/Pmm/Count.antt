-- ===== src/Pmm/Count.antt =====
-- Counting the free pages of a bitmap.
use arcline.Base.{ℕ, zero, suc, ◌+◌, ◌≤◌, ◌<◌, ◌≡◌, refl, ◌&&◌, not, arith, ltb, if◌then◌else◌}
use native.Mathlib.Numerals.{add-one}
use arcline.Pmm.{count_set}
use arcline.Bitmap.{Words, shifted, include, exclude, shifted-include, shifted-exclude}

-- The clear bits below `n`.
unfoldable pub clear_count : Words → ℕ → ℕ
clear_count m zero = 0
clear_count m (suc n) = (if shifted 8 m n then 0 else 1) + clear_count m n

pub clear_count-include :
    (m : Words) (i n : ℕ)
    → clear_count (include 8 m i) n + (if ltb i n && not (shifted 8 m i) then 1 else 0)
      ≡ clear_count m n
unfolding clear_count
clear_count-include m i zero = ground arith
clear_count-include m i (suc n) = ground (arith, clear_count-include m i n, shifted-include 8 m i n)

pub clear_count-exclude :
    (m : Words) (i n : ℕ)
    → clear_count (exclude 8 m i) n ≡ clear_count m n + (if ltb i n && shifted 8 m i then 1 else 0)
unfolding clear_count
clear_count-exclude m i zero = ground arith
clear_count-exclude m i (suc n) = ground (arith, clear_count-exclude m i n, shifted-exclude 8 m i n)

pub clear_count-le : (m : Words) (n : ℕ) → clear_count m n ≤ n
unfolding clear_count
clear_count-le m zero = omega arith
clear_count-le m (suc n) = ground (arith, clear_count-le m n)

pub clear_zero : (m : Words) → clear_count m 0 ≡ 0
unfolding clear_count
clear_zero m = refl

pub count_set-clear_count :
    (m : Words) (k i : ℕ) → count_set m k i + clear_count m (i + k) ≡ k + clear_count m i
unfolding count_set clear_count
count_set-clear_count m zero i = ground arith
count_set-clear_count m (suc k) i = ground (arith, count_set-clear_count m k (i + 1), shift)
  where
    shift : clear_count m (i + 1) ≡ (if shifted 8 m i then 0 else 1) + clear_count m i
    shift = rw add-one refl

pub clear_count_cong :
    (m l : Words) (n : ℕ)
    → ((j : ℕ) → j < n → shifted 8 l j ≡ shifted 8 m j)
    → clear_count l n ≡ clear_count m n
unfolding clear_count
clear_count_cong m l zero h = refl
clear_count_cong m l (suc n) h =
    ground (arith, clear_count_cong m l n (λ j k. h j (omega arith)), h n (omega arith))
