-- ===== src/Vm/Tests.antt =====
-- Runs of the functions of src/vm.cc, and the theorems about them at concrete inputs.
use babyos.Prelude.{
  false, ℕ, ◌≡◌, refl, true, Option, none, some, [], ◌∷◌, arith, ltb, if◌then◌else◌,
}
use babyos.Vm.{
  Area, Vmm, find_vma, find_vma_prev, insert_vma, insert_scan, insert_link, merge_next, relink,
  get_unmapped_area, unmapped_walk, do_mmap, mmap_aligned, mmap_place, mmap_at, mmap_insert,
  do_munmap, unmap_found, unmap_cut, drop_empty, free_page_range, free_loop,
}
use babyos.Vm.View.{view, Ordered}
use babyos.Vm.Insert.{view-insert_vma}
use babyos.Vm.Mmap.{IsValid, view-do_mmap}
use babyos.Vm.Unmap.{view-do_munmap}
use babyos.Vm.Fault.{
  mapped, copied, null_copied, do_protection_fault, is_stack, do_page_fault, fault_found,
  expand_stack, good_area, Faulted, do_page_fault-Faulted,
}

-- Two pages from the base of mappings, for reading and writing.
abbrev low : Area
low = record { start = 0x4000_0000; end = 0x4000_2000; page_prot = 3; flags = 3 }

-- The page behind them.
abbrev next_page : Area
next_page = record { start = 0x4000_2000; end = 0x4000_3000; page_prot = 3; flags = 3 }

abbrev space : Vmm
space = record { mmap = low ∷ []; live = 1 }

abbrev joined : Vmm
joined = record { mmap = record low { end = 0x4000_3000 } ∷ []; live = 1 }

-- An object of the pool that held a read-only area.
abbrev stale : Area
stale = record { start = 0; end = 0; page_prot = 1; flags = 1 }

space-IsValid : IsValid space
space-IsValid = omega arith

insert_joins : insert_vma next_page (record space { live = 2 }) ≡ some joined
unfolding insert_vma insert_scan insert_link merge_next relink
insert_joins = refl

view-insert_vma_example : Ordered 0 joined.mmap × (view 0x4000_2abc joined.mmap ≡ some (3, 3))
view-insert_vma_example =
    view-insert_vma next_page (record space { live = 2 }) joined 0x4000_2abc (omega arith)
      (omega arith) insert_joins

area_behind : get_unmapped_area 0x1000 (low ∷ []) ≡ 0x4000_2000
unfolding get_unmapped_area unmapped_walk find_vma
area_behind = refl

maps_behind : do_mmap 0 0x1000 3 0 true space ≡ (some 0x4000_2000, joined)
unfolding do_mmap mmap_aligned mmap_place mmap_at mmap_insert get_unmapped_area unmapped_walk
    find_vma insert_vma insert_scan insert_link merge_next relink
maps_behind = refl

view-do_mmap_example : IsValid joined × (view 0x4000_2abc joined.mmap ≡ some (3, 3))
view-do_mmap_example =
    view-do_mmap 0 0x1000 3 0 true space 0x4000_2000 joined 0x4000_2abc space-IsValid maps_behind
      (omega arith) (omega arith)

-- The first of three pages is present.
abbrev one_page : ℕ → Option ℕ
one_page va = if ltb va 0x4000_1000 then some 0x0070_0000 else none

abbrev cut : Vmm
cut = record {
  mmap =
      record low { end = 0x4000_1000 }
      ∷ record stale { start = 0x4000_2000; end = 0x4000_3000 }
      ∷ [];
  live = 2;
}

unmaps_middle : do_munmap one_page 0x4000_1000 0x1000 (some stale) joined ≡ some (cut, [])
unfolding do_munmap unmap_found unmap_cut drop_empty find_vma_prev relink free_page_range free_loop
unmaps_middle = refl

view-do_munmap_example : IsValid cut × (view 0x4000_2abc cut.mmap ≡ some (1, 1))
unfolding find_vma
view-do_munmap_example =
    view-do_munmap one_page 0x4000_1000 0x1000 (record low { end = 0x4000_3000 }) stale [] joined
      cut [] 0x4000_2abc (omega arith) (omega arith) refl unmaps_middle

-- A shared page is copied, and where there is no memory its copy goes to NULL.
shared_page :
    (do_protection_fault low true (some 7) 2 true ≡ copied 7)
    × (do_protection_fault low true (some 7) 2 false ≡ null_copied)
unfolding do_protection_fault
shared_page = (refl, refl)

-- A user access just below the area, which grows.
grown_stack :
    do_page_fault (low ∷ []) 0x3fff_fff0 6 0x3fff_fff8 none 0 true
    ≡ (record low { start = 0x3fff_f000 } ∷ [], mapped 0x3fff_f000)
unfolding do_page_fault fault_found find_vma_prev relink expand_stack good_area is_stack
grown_stack = refl

do_page_fault-Faulted_example :
    Faulted 0x3fff_fff0 (low ∷ []) (do_page_fault (low ∷ []) 0x3fff_fff0 6 0x3fff_fff8 none 0 true)
do_page_fault-Faulted_example =
    do_page_fault-Faulted 0x3fff_fff0 6 0x3fff_fff8 none 0 true (low ∷ []) (omega arith)
      (omega arith)
