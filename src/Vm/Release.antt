-- ===== src/Vm/Release.antt =====
-- `free_page_range` and the conditions of `do_munmap` of src/vm.cc.
use babyos.Prelude.{
  ℕ, zero, suc, ◌+◌, ◌≤◌, ◌≡◌, ◌≢◌, ◌∙◌, Option, none, some, List, [], ◌∷◌, arith, page_align,
  page_offset, page_size,
}
use babyos.Vm.{
  Area, Vmm, find_vma, find_vma_prev, unmap_found, do_munmap, user_vm_size, free_present,
}
use babyos.Vm.Unmap.{find_vma_prev-find_vma}

-- The physical pages of `n` pages from `addr` on, where one is present.
pub present_pages : (ℕ → Option ℕ) → ℕ → ℕ → List ℕ
present_pages pages addr zero = []
present_pages pages addr (suc n) =
    free_present (pages addr) (present_pages pages (addr + page_size) n)

-- An aligned range inside one area of user space is unmapped, if the pool has an object.
do_munmap_total :
    (pages : ℕ → Option ℕ) (addr len : ℕ) (vma fresh : Area) (rest : List Area) (m : Vmm)
    → page_offset addr ≡ 0
    → addr + len ≤ user_vm_size
    → find_vma addr m.mmap ≡ vma ∷ rest
    → vma.start ≤ addr
    → addr + page_align len ≤ vma.end
    → do_munmap pages addr len (some fresh) m ≢ none
unfolding do_munmap unmap_found
do_munmap_total pages addr len vma fresh rest m o h at from to =
    let here : (find_vma_prev addr [] m.mmap).1 ≡ vma ∷ rest =
      find_vma_prev-find_vma addr [] m.mmap ∙ at in
    rw here (ground arith)
