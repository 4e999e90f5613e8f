-- ===== src/Vmalloc/Tests.antt =====
-- Runs of mm/vmalloc.c.
use arcline.Base.{◌+◌, ◌≡◌, refl, [], ◌∷◌, arith, ◌==◌, if◌then◌else◌, true}
use arcline.Vmalloc.{
  Space, vmalloc_start, alloc_block, free_block, unlink, merge, merge_loop, sweep, sweeps, coalesce,
  add_free_space, find_best, take_block, use_block, fresh_space, find_free_space,
}
use arcline.Vmalloc.Best.Whole.{Found, find_free_space-Found}

-- The blocks 1 and 2 are free, with 5 and 3 pages.
abbrev space : Space
space = record {
  va = λ n. if n == 1 then vmalloc_start else vmalloc_start + 65536;
  size = λ n. if n == 1 then 20480 else 12288;
  next = λ n. if n == 1 then 2 else 0;
  prev = λ n. if n == 2 then 1 else 0;
  free_list = 1;
  pool_list = 3;
  initialized = true;
  vmalloc_next = vmalloc_start + 131072;
}

best_taken : (find_free_space 3 12288 space).0 ≡ vmalloc_start + 65536
unfolding find_free_space find_best use_block take_block free_block
best_taken = refl

fresh_taken : (find_free_space 3 40960 space).0 ≡ vmalloc_start + 131072
unfolding find_free_space find_best fresh_space
fresh_taken = refl

-- Two ranges that touch are merged, and then both blocks leave the list.
merged_lost :
    (add_free_space 3 4096 4096 (
      add_free_space 3 8192 4096
        (record space { free_list = 0; next = λ n. if n == 3 then 4 else 0 }))).free_list
    ≡ 0
unfolding add_free_space alloc_block coalesce sweeps sweep merge_loop merge unlink free_block
merged_lost = refl

find_free_space-Found_example : Found 12288 space (1 ∷ 2 ∷ []) (find_free_space 3 12288 space)
find_free_space-Found_example =
    find_free_space-Found 3 12288 space (1 ∷ 2 ∷ [])
      (refl, λ e. omega (arith, e), (refl, λ e. omega (arith, e), refl)) (omega arith)
