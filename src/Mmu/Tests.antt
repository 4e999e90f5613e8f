-- ===== src/Mmu/Tests.antt =====
-- Runs on a small set of page tables, and the properties there.
use arcline.Base.{◌+◌, ◌≡◌, refl, ◌==◌, if◌then◌else◌, some, pos, negsuc}
use arcline.Mmu.{Mmu, unmap_page, update_page_attrs, map_page, next_or_new, next, last}
use arcline.Mmu.Walk.{pte_of, walk}
use arcline.Mmu.Unmap.{Unmapped, unmap_page-Unmapped, Rewritten, update_page_attrs-Rewritten}

-- Tables at 4096, 8192, 12288 and 16384 that map the page 0 to the frame 20480.
abbrev tables : Mmu
tables = record {
  mem = λ a.
      if a == 4096
      then 8195
      else if a == 8192
      then 12291
      else if a == 12288
      then 16387
      else if a == 16384
      then 20480 + 1027
      else 0;
  pmm = record { bitmap = λ _. 0; mem_base = 0; mem_size = 0; pages_total = 0; pages_free = 0 };
}

found : pte_of 4096 0 tables.mem ≡ some 16384
unfolding pte_of walk
found = refl

unmapped : (unmap_page 4096 0 tables).0 ≡ pos 0
unfolding unmap_page next last
unmapped = refl

not_mapped : (unmap_page 4096 4096 tables).0 ≡ negsuc 0
unfolding unmap_page next last
not_mapped = refl

mapped_beside : (map_page 4096 4096 24576 2 tables).1.mem 16392 ≡ 24576 + 1027
unfolding map_page next_or_new
mapped_beside = refl

unmap_page-Unmapped_example : Unmapped 4096 0 tables (unmap_page 4096 0 tables)
unmap_page-Unmapped_example = unmap_page-Unmapped 4096 0 tables

update_page_attrs-Rewritten_example : Rewritten 4096 0 2 tables (update_page_attrs 4096 0 2 tables)
update_page_attrs-Rewritten_example = update_page_attrs-Rewritten 4096 0 2 tables
