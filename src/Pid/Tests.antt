-- ===== src/Pid/Tests.antt =====
-- Process numbers after initialisation, with number 0 in use.
use arcline.Base.{◌≡◌, refl, pos}
use arcline.Bitmap.{masked}
use arcline.Pid.{init, alloc, free, max_pid}
use arcline.Pid.Alloc.{Outcome, alloc-Outcome, free-alloc}

first_number : (alloc init).0 ≡ pos 1
unfolding alloc init masked
first_number = refl

alloc-Outcome_example : Outcome init 1 max_pid (alloc init)
alloc-Outcome_example = alloc-Outcome init

free-alloc_example : masked 32 (free (alloc init).1 (alloc init).0) 7 ≡ masked 32 init 7
free-alloc_example = free-alloc init 7
