-- ===== src/Syscall/Tests.antt =====
-- Calls by number.
use arcline.Base.{◌≡◌, refl}
use arcline.Syscall.{do_syscall, sys_kill_call, invalid, unimplemented}

kill_number : do_syscall 129 ≡ sys_kill_call
unfolding do_syscall
kill_number = refl

too_high : do_syscall 130 ≡ invalid
unfolding do_syscall
too_high = refl

hole_in_table : do_syscall 2 ≡ unimplemented
unfolding do_syscall
hole_in_table = refl
