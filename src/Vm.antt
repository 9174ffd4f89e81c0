-- ===== src/Vm.antt =====
-- The address space of a process: class vmm_t of src/vm.h and src/vm.cc, its list of areas.
-- The linked list `m_mmap` is a list of areas, and the walk that keeps `prev` behind `p` is a
-- walk with the areas passed, latest first. `live` counts the vm_area_t objects that this address
-- space has taken from VMA_POOL and not returned. Whether the pool returns an object is an argument.
pub mod View
pub mod Insert
pub mod Find
pub mod Mmap
pub mod Unmap
pub mod Release
pub mod Fault
mod Tests
use babyos.Prelude.{
  ℕ, zero, suc, ◌+◌, ◌-◌, ◌*◌, ◌/◌, ◌%◌, Bool, true, false, ◌&&◌, ◌||◌, not, Option, none, some,
  List, [], ◌∷◌, ltb, leb, ◌==◌, if◌then◌else◌, add32, sub32, page_size, page_floor, page_offset,
  page_align,
}

-- `vm_area_t`
pub record Area : Type 0 where
  pub start : ℕ
  pub end : ℕ
  pub page_prot : ℕ
  pub flags : ℕ

pub record Vmm : Type 0 where
  pub mmap : List Area
  pub live : ℕ

-- `USER_VM_SIZE`
abbrev pub user_vm_size : ℕ
user_vm_size = 0xc000_0000

-- `VM_UNMAPPED_BASE`
abbrev pub unmapped_base : ℕ
unmapped_base = user_vm_size / 3

-- `find_vma(addr)`. The pointer that it returns is the list from that area on; NULL is `[]`.
pub find_vma : ℕ → List Area → List Area
find_vma addr [] = []
find_vma addr (vma ∷ rest) = if ltb addr vma.end then vma ∷ rest else find_vma addr rest

-- `find_vma(addr, prev)`: beside it the areas passed, latest first; `prev` is the first of them.
pub find_vma_prev : ℕ → List Area → List Area → List Area × List Area
find_vma_prev addr front [] = (front, [])
find_vma_prev addr front (vma ∷ rest) =
    if ltb addr vma.end then (front, vma ∷ rest) else find_vma_prev addr (vma ∷ front) rest

-- The first loop of `insert_vma`: the areas before `p`, latest first, and those from `p` on.
pub insert_scan : Area → List Area → List Area → List Area × List Area
insert_scan vma front [] = (front, [])
insert_scan vma front (p ∷ rest) =
    if leb vma.end p.start then (front, p ∷ rest) else insert_scan vma (p ∷ front) rest

abbrev pub same_attributes : Area → Area → Bool
same_attributes a b = a.page_prot == b.page_prot && a.flags == b.flags

-- The areas of a walk put back: `prev` and those before it, then the rest.
pub relink : List Area → List Area → List Area
relink [] back = back
relink (prev ∷ front) back = relink front (prev ∷ back)

-- "merge vma and p", with the number of objects returned to the pool
pub merge_next : Area → List Area → List Area × ℕ
merge_next vma [] = (vma ∷ [], 0)
merge_next vma (p ∷ rest) =
    if vma.end == p.start && same_attributes vma p
    then (record vma { end = p.end } ∷ rest, 1)
    else (vma ∷ p ∷ rest, 0)

-- The overlap check, "merge prev and vma", and the second merge.
pub insert_link : Area → List Area → List Area → Option (List Area × ℕ)
insert_link vma [] back = let (tail, freed) = merge_next vma back in some (tail, freed)
insert_link vma (prev ∷ front) back =
    if ltb vma.start prev.end
    then none
    else if prev.end == vma.start && same_attributes prev vma
    then (let (tail, freed) = merge_next (record prev { end = vma.end }) back in
        some (relink front tail, freed + 1))
    else (let (tail, freed) = merge_next vma back in some (relink (prev ∷ front) tail, freed))

-- `insert_vma`: `none` for the return of -1. The object `vma` is already counted by `live`.
pub insert_vma : Area → Vmm → Option Vmm
insert_vma vma m =
    let (front, back) = insert_scan vma [] m.mmap in
    elim (insert_link vma front back) [
      | none ↦ none
      | some (areas, freed) ↦ some (record { mmap = areas; live = m.live - freed })
    ]

-- The loop of `get_unmapped_area`; 0 is its failure.
pub unmapped_walk : ℕ → ℕ → List Area → ℕ
unmapped_walk len addr [] = addr
unmapped_walk len addr (vma ∷ rest) =
    if ltb (sub32 user_vm_size len) addr
    then 0
    else if leb (add32 addr len) vma.start
    then addr
    else unmapped_walk len vma.end rest

pub get_unmapped_area : ℕ → List Area → ℕ
get_unmapped_area len areas = unmapped_walk len unmapped_base (find_vma unmapped_base areas)

-- `flags & MAP_FIXED`
abbrev pub map_fixed : ℕ → Bool
map_fixed flags = flags / 16 % 2 == 1

-- "check [addr, addr+len] not in a vm_area"
pub overlaps_next : ℕ → ℕ → List Area → Bool
overlaps_next addr len [] = false
overlaps_next addr len (p ∷ rest) = ltb p.start (add32 addr len)

-- Where `do_mmap` puts the area; `none` for its returns of -1.
pub mmap_place : ℕ → ℕ → ℕ → List Area → Option ℕ
mmap_place addr len flags areas =
    if map_fixed flags
    then (if page_offset addr == 0
        then (if overlaps_next addr len (find_vma addr areas) then none else some addr)
        else none)
    else (let got = get_unmapped_area len areas in if got == 0 then none else some got)

-- "setup vma"; every field of the object is written.
abbrev pub mmap_area : ℕ → ℕ → ℕ → Area
mmap_area addr len prot = record {
  start = addr;
  end = add32 addr len;
  page_prot = prot;
  flags = prot % 8;
}

-- From "alloc a vma from pool" on. An insertion that fails keeps the object.
pub mmap_insert : ℕ → ℕ → ℕ → Bool → Vmm → Option ℕ × Vmm
mmap_insert addr len prot false m = (none, m)
mmap_insert addr len prot true m =
    let taken = record m { live = m.live + 1 } in
    elim (insert_vma (mmap_area addr len prot) taken) [
      | none ↦ (none, taken)
      | some m' ↦ (some addr, m')
    ]

pub mmap_at : Option ℕ → ℕ → ℕ → Bool → Vmm → Option ℕ × Vmm
mmap_at none len prot pool m = (none, m)
mmap_at (some addr) len prot pool m = mmap_insert addr len prot pool m

-- "len is 0, nothing to do" and "out of range"
abbrev pub mmap_out_of_range : ℕ → ℕ → Bool
mmap_out_of_range addr len =
    ltb user_vm_size len || ltb user_vm_size addr || ltb (user_vm_size - len) addr

-- The part of `do_mmap` after `len = PAGE_ALIGN(len)`
pub mmap_aligned : ℕ → ℕ → ℕ → ℕ → Bool → Vmm → Option ℕ × Vmm
mmap_aligned addr len prot flags pool m =
    if len == 0
    then (some addr, m)
    else if mmap_out_of_range addr len
    then (none, m)
    else mmap_at (mmap_place addr len flags m.mmap) len prot pool m

-- `do_mmap`: `none` for -1. `pool` says whether VMA_POOL returns an object.
pub do_mmap : ℕ → ℕ → ℕ → ℕ → Bool → Vmm → Option ℕ × Vmm
do_mmap addr len prot flags pool m = mmap_aligned addr (page_align len) prot flags pool m

-- `remove_vma` of an area that has become empty, with the number of objects returned.
pub drop_empty : Area → List Area → List Area × ℕ
drop_empty vma rest = if vma.start == vma.end then (rest, 1) else (vma ∷ rest, 0)

-- The area cut at `addr` and `addr + len`: its lower part, and a new object for the upper part, of
-- which only `m_start`, `m_end` and `m_next` are written. The other fields are those of `fresh`.
pub unmap_cut : ℕ → ℕ → Area → List Area → Area → List Area × ℕ
unmap_cut addr len vma rest fresh =
    let (upper, freed) = drop_empty (record fresh { start = add32 addr len; end = vma.end }) rest in
    let (both, freed') = drop_empty (record vma { end = addr }) upper in (both, freed + freed')

-- From "find the vma" on. `pool` is the object that VMA_POOL returns, with what it still holds.
pub unmap_found : ℕ → ℕ → List Area → List Area → Option Area → Vmm → Option Vmm
unmap_found addr len front [] pool m = none
unmap_found addr len front (vma ∷ rest) pool m =
    if ltb addr vma.start || ltb vma.end (add32 addr len) then none else elim pool [
      | none ↦ none
      | some fresh ↦
          let (areas, freed) = unmap_cut addr len vma rest fresh in
          some (record { mmap = relink front areas; live = m.live + 1 - freed })
    ]

-- `free_pages` of the page that `va_2_pa` finds, in front of the pages freed after it
abbrev pub free_present : Option ℕ → List ℕ → List ℕ
free_present none rest = rest
free_present (some pa) rest = pa ∷ rest

-- The loop of `free_page_range`: the physical pages handed to `free_pages`, in order.
-- `pages` is what `va_2_pa` answers. The fuel counts rounds.
pub free_loop : ℕ → (ℕ → Option ℕ) → ℕ → ℕ → List ℕ
free_loop zero pages addr end = []
free_loop (suc fuel) pages addr end =
    let rest = free_loop fuel pages (add32 addr page_size) end in
    if ltb addr end then free_present (pages addr) rest else []

pub free_page_range : (ℕ → Option ℕ) → ℕ → ℕ → List ℕ
free_page_range pages start end =
    free_loop (suc ((end - page_floor start) / page_size)) pages (page_floor start) end

-- "addr should align with PAGE_SIZE" and the range checks
abbrev pub unmap_bad_range : ℕ → ℕ → Bool
unmap_bad_range addr len =
    not (page_offset addr == 0) || ltb user_vm_size addr || ltb (user_vm_size - addr) len

-- `do_munmap`: `none` for -1, else the new address space and the physical pages freed.
pub do_munmap : (ℕ → Option ℕ) → ℕ → ℕ → Option Area → Vmm → Option (Vmm × List ℕ)
do_munmap pages addr len pool m =
    let len' = page_align len in
    let (front, back) = find_vma_prev addr [] m.mmap in
    if unmap_bad_range addr len
    then none
    else if len' == 0
    then some (m, [])
    else elim (unmap_found addr len' front back pool m) [
      | none ↦ none
      | some m' ↦ some (m', free_page_range pages addr (add32 addr len'))
    ]
