-- ===== src/Pmm/Boot/Tests.antt =====
-- The boot of the allocator of mm/pmm.c with the sample tree.
use arcline.Base.{◌≡◌, refl, arith, [], some, true}
use arcline.Dtb.{header, token}
use arcline.Dtb.Items.{Block, are_short}
use arcline.Dtb.Tree.{node, flatten, flatten_props}
use arcline.Dtb.Check.{has_block, has_block-Block}
use arcline.Dtb.Sample.{sample, sample_nodes}
use arcline.Pmm.{Pmm}
use arcline.Pmm.Reserved.{reserve_reserved_memory}
use arcline.Pmm.Reserved.Walked.{reserve_reserved_memory-same}
use arcline.Pmm.Boot.{Image}

abbrev before : Pmm
before = record { bitmap = λ i. 0; mem_base = 0; mem_size = 0; pages_total = 0; pages_free = 0 }

abbrev image : Image
image = record {
  kernel_start = 0x40080000;
  kernel_end = 0x400a1234;
  stack_bottom = 0x400a2000;
  stack_top = 0x400a6000;
}

sample-Block :
    Block sample
      (header sample 8)
      (header sample 8).off_struct
      (flatten (node [] [] sample_nodes) [])
unfolding has_block flatten flatten_props token header
sample-Block =
    has_block-Block sample (header sample 8) (header sample 8).off_struct
      (flatten (node [] [] sample_nodes) []) refl

sample_short : are_short 32 (flatten (node [] [] sample_nodes) []) ≡ true
unfolding are_short flatten flatten_props
sample_short = refl

reserve_reserved_memory-same_example : reserve_reserved_memory 12 32 sample 8 before ≡ some before
unfolding flatten flatten_props
reserve_reserved_memory-same_example =
    reserve_reserved_memory-same 12 32 8 sample before (flatten (node [] [] sample_nodes) [])
      sample-Block sample_short (omega arith)
