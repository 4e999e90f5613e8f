-- ===== src/Syscall.antt =====
-- kernel/syscall.c: the table of system calls, and kill. exit is `Sched.exit`, and write prints.
mod Tests
use arcline.Base.{ℕ, ltb, leb, ◌==◌, is_null, if◌then◌else◌, ℤ, negsuc}
use arcline.Sched.{Kernel, Run, fine, find_by_pid, kill, Killed, value}

-- The function that a number calls, or the messages of `do_syscall`, which returns -1.
pub data Call : Type 0 where
  sys_kill_call sys_exit_call sys_write_call invalid unimplemented : Call

-- One more than the highest number in `syscall_table`.
abbrev pub table_size : ℕ
table_size = 130

pub do_syscall : ℕ → Call
do_syscall num =
    if leb table_size num
    then invalid
    else if num == 129
    then sys_kill_call
    else if num == 60
    then sys_exit_call
    else if num == 1
    then sys_write_call
    else unimplemented

pub sys_kill : ℕ → ℕ → ℤ → Kernel → Run Killed
sys_kill k now pid s =
    let task = find_by_pid k s.task_list pid s.queue.tasks in
    if is_null task then fine (value (negsuc 0) s) else kill k now task s
