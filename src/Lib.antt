-- ===== src/Lib.antt =====
-- Arcline is a small AArch64 kernel. These modules model its memory and task management and state
-- what makes them correct.
--
-- Parts and how they interact. The physical memory manager (mm/pmm.c) hands out pages of 4 KiB
-- from a bitmap. Process numbers (kernel/pid.c) come from a second bitmap. The run queue
-- (kernel/sched/eevdf.c) keeps the READY tasks in a red-black tree over a pool of 64 nodes,
-- ordered by virtual runtime; the scheduler (kernel/sched/sched.c) moves tasks between the queue
-- and the processor, and kernel/sched/task.c finds, ends and kills tasks through it. The page
-- tables (mm/mmu.c) take their pages from the physical memory manager; mm/vmm.c keeps the virtual
-- memory areas in a second red-black tree and maps their pages there, and vmalloc (mm/vmalloc.c)
-- maps ranges between guard pages through them. At boot the device tree (drivers/dtb.c) says where
-- the memory is, where the serial port (drivers/serial.c) and which interrupt controller
-- (drivers/gic.c). printk (kernel/printk.c) formats into a buffer and hands it to the log
-- (kernel/log.c), a ring of records. kernel/irq.c calls the handler of an interrupt, and
-- lib/string.c serves them all.
--
-- Which file models which part:
--   Base          names of the libraries, Boolean tests, C integers and arrays
--   Bits, Bitmap  `|`, `&`, `1 << k` on words, and arrays of words as sets of numbers
--   Pmm           mm/pmm.c: `Pmm` holds the static variables, `alloc_run` is pmm_alloc_run,
--                 `free_pages` is pmm_free_pages, `reserve_range` and `check` keep their names;
--                 Pmm/Region, Pmm/Reserved and Pmm/Boot have its boot: `find_memory_region`,
--                 `reserve_reserved_memory` and `init_from_dtb`
--   Pid           kernel/pid.c: `init`, `alloc` and `free` are pid_init, pid_alloc and pid_free
--   Rb            the links and rotations of the red-black trees of mm/vmm.c and kernel/sched/eevdf.c,
--                 and in Rb/Insert the insertion, for the colours and rotations of either file.
--                 Rb/Shape says which shape the links have, seen from a place in it: `At t c s` holds
--                 where the tree `t` has the shape `s` in the context `c`, a shape with a hole
--   Task          include/kernel/sched/task.h: the fields of a task and of a saved context
--   Eevdf         kernel/sched/eevdf.c: `RunQueue` holds the static variables and the tasks, and a
--                 function eevdf_f is `f`; Eevdf/Tree has the tree part of enqueue and dequeue
--   Sched         kernel/sched/sched.c and kernel/sched/task.c: `Kernel` adds current_task, task_list
--                 and the process numbers; `schedule`, `preempt` (schedule_preempt), `kill` (task_kill)
--                 and `exit` (task_exit) return how they end, a panic included; Sched/Create has
--                 task_create as `create` and task_init as `init`, over the memory of vmalloc
--   Syscall       kernel/syscall.c: the table by number, and sys_kill
--   Log           kernel/log.c: `Log` holds the static variables and what the console was sent;
--                 `write_str` and `read` are log_write_str and log_read, `put` and `get` the copies
--                 that may wrap; Log/Queue says which records a ring represents
--   Printk        kernel/printk.c: `format_loop` is the loop of do_printf, `directive` its switch, and
--                 `vroute` printk_vroute
--   Serial        drivers/serial.c: `putc`, `puts` and `print_hex` give the bytes that are sent and count
--                 the readings of the flag register
--   Strings       lib/string.c: the memory functions and the functions on strings, under their names;
--                 Strings/Words has the copy by words, Strings/Numbers `htoa` and `itoa`
--   Mmu           mm/mmu.c: `map_page`, `unmap_page` and `update_page_attrs` on a memory of words; Mmu/Walk
--                 has the walk of the architecture, Mmu/Region mmu_map_region and mmu_init
--   Dtb           drivers/dtb.c: `init` is dtb_init, Dtb/Uart has dtb_get_stdout_uart_base as
--                 `stdout_uart_base`; Dtb/Items says which items stand in a block, and Dtb/Tree which
--                 items a tree is flattened to
--   Gic           drivers/gic.c: `detect_version`, `init`, `ack_irq` and `eoi_irq`
--   Vmm           mm/vmm.c: `Areas` holds the static variables and the pool of areas, `Vmm` adds the page
--                 tables; a function vmm_f is `f`, and `alloc_node` and `free_node` are
--                 vma_alloc_node and vma_free_node; Vmm/Links has the red-black tree
--   Vmalloc       mm/vmalloc.c: `Space` holds the static variables, `Vmalloc` adds the areas; `coalesce`
--                 is coalesce_free_list, the others keep their names
--   Irq           kernel/irq.c, kernel/irq_handler.c, and gic_enable_irq and gic_disable_irq of
--                 drivers/gic.c
--
-- Conventions. Unsigned words are natural numbers with the wrap-around written out; `int` is ℤ. A
-- pointer is a number, 0 for NULL; a node of a pool is its place plus one. Static arrays are
-- functions from the index. A function that changes static variables takes and returns their
-- record. A spinlock makes the function that holds it one step, so it does not appear. Printing is
-- left out.
--
-- Bounds and fuel. The loops over bitmaps and pools are given the rounds that their bounds fix, so
-- they never run short. The loops over the trees and over the list of tasks take a bound `k` on
-- their rounds as an argument; more rounds than nodes are enough for a search and for an
-- insertion. The loop of rb_drop_oldest gets 4096 rounds, enough since each removes three bytes at
-- least; the loop over a format gets one round for each byte; the loop over digits gets 64, enough
-- for a value of 64 bits in any base. A loop over a string takes its rounds as an argument, and
-- answers `none` when they run out. A walk over a device tree takes the rounds of its loops too:
-- one for each item and one for the end are enough on a well-formed block. The loops over a path in
-- dtb_get_stdout_uart_base take 256 rounds and one more for each item. The wait for the serial
-- port has the rounds of UART_SPIN_MAX.
--
-- Not modelled: reading the hardware's clock (an argument), the assembly of switch_to and of
-- mmu_enable, the flushes of caches and TLB, the timer, and the panics themselves. The start-up
-- sequence of init/main.c only calls the parts one after the other. The deletions from the two
-- trees are modelled, but not yet shown to keep the order of the nodes.
pub mod Base
pub mod Decimal
pub mod Bits
pub mod Bitmap
pub mod Pmm
pub mod Pid
pub mod Rb
pub mod Task
pub mod Eevdf
pub mod Sched
pub mod Syscall
pub mod Log
pub mod Printk
pub mod Serial
pub mod Strings
pub mod Mmu
pub mod Dtb
pub mod Gic
pub mod Irq
pub mod Vmm
pub mod Vmalloc
