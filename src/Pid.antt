-- ===== src/Pid.antt =====
-- kernel/pid.c: process numbers as a bitmap of 32-bit words. The lock makes each call one step.
pub mod Alloc
mod Tests
use arcline.Base.{
  ℕ, zero, suc, ◌+◌, ◌-◌, Bool, not, ◌||◌, bit_or, ltb, ◌==◌, if◌then◌else◌, store, ℤ, pos, negsuc,
  to_ℕ, ltb_ℤ,
}
use arcline.Bitmap.{Words, masked, include, exclude}

abbrev pub max_pid : ℕ
max_pid = 32768

-- The `memset`, then `pid_bitmap[0] |= 1`.
pub init : Words
init = store (λ _. 0) 0 (bit_or 0 1)

-- The loop of `pid_alloc`: the rounds left and `i`.
pub alloc_loop : ℕ → ℕ → Words → ℤ × Words
alloc_loop zero i m = (negsuc 0, m)
alloc_loop (suc k) i m =
    let rest = alloc_loop k (i + 1) m in
    if not (masked 32 m i) then (pos i, include 32 m i) else rest

pub alloc : Words → ℤ × Words
unfolding alloc_loop
alloc m = alloc_loop (max_pid - 1) 1 m

pub free : Words → ℤ → Words
free m pid =
    if not (ltb_ℤ (pos 0) pid) || not (ltb_ℤ pid (pos max_pid)) then m else exclude 32 m (to_ℕ pid)
