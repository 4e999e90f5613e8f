-- ===== src/Sched/Create/Tests.antt =====
-- A task is created where no task exists.
use arcline.Base.{◌+◌, true}
use arcline.Eevdf
use arcline.Pid
use arcline.Vmalloc.{Vmalloc, vmalloc_start}
use arcline.Sched.Create.{System, Symbols, zero_task}

-- One page is left, which is not enough.
abbrev memory : Vmalloc
memory = record {
  space = record {
    va = λ n. vmalloc_start;
    size = λ n. 65536;
    next = λ n. 0;
    prev = λ n. 0;
    free_list = 1;
    pool_list = 3;
    initialized = true;
    vmalloc_next = vmalloc_start + 65536;
  };
  vmm = record {
    areas = record {
      tree = record { root = 0; left = λ n. 0; right = λ _. 0; parent = λ _. 0; color = λ _. 0 };
      va = λ _. 0;
      pa = λ _. 0;
      size = λ _. 0;
      attrs = λ _. 0;
      free_list = 1;
      initialized = true;
    };
    mmu = record {
      mem = λ _. 0;
      pmm = record {
        bitmap = λ _. 0;
        mem_base = 0x40000000;
        mem_size = 4096;
        pages_total = 1;
        pages_free = 1;
      };
    };
    ttbr1 = 0;
  };
}

abbrev system : System
system = record {
  kernel = record {
    queue = Eevdf.init (λ _. zero_task);
    current = 0;
    task_list = 0;
    pids = Pid.init;
  };
  memory = memory;
}

abbrev symbols : Symbols
symbols = record { entry_wrapper = 0x40080100; exit = 0x40080200; ttbr1 = 0x40100000 }
