-- ===== src/Vm/Fault.antt =====
-- `do_page_fault`, `do_protection_fault` and `expand_stack` of src/vm.cc. The fault address and the
-- error code of the trap frame are arguments, and so is what mm_t says of the page: where it is and
-- how many share it. The effect on the page table is the outcome's.
use Prim.Native.Nat.{bit_and}
use babyos.Prelude.{
  ℕ, zero, suc, ◌/◌, ◌%◌, ◌<◌, ◌≡◌, ◌≢◌, refl, sym, subst, ◌∙◌, Bool, true, false, ◌&&◌, not, ◌⊎◌,
  Option, none, some, List, [], ◌∷◌, leb, ◌==◌, if◌then◌else◌, arith, add32, page_size, page_floor,
  inl, inr, Bool-cases,
}
use babyos.Vm.{Area, find_vma_prev, relink, mmap_area}
use babyos.Vm.View.{
  view, Ordered, Behind, relink-Ordered, view-relink, view-relink_above, view_below,
}
use babyos.Vm.Find.{EndsAbove, find_vma-Found}
use babyos.Vm.Unmap.{find_vma_prev-Stopped, find_vma_prev-find_vma}

pub data Outcome : Type 0 where
  -- `current->exit()` after a segmentation fault
  exited : Outcome
  -- do_protection_fault returned -1
  refused : Outcome
  -- `make_pte_write`
  made_writable : Outcome
  -- a new page with the old one's contents, mapped writable at the page of the address; the old
  -- page, at this physical address, handed to `free_pages`
  copied : ℕ → Outcome
  -- a new page mapped at this page
  mapped : ℕ → Outcome
  -- `alloc_pages` returned NULL, which is not checked: NULL is copied to, or mapped at this page
  null_copied : Outcome
  null_mapped : ℕ → Outcome

-- `vma->m_flags & VM_STACK`
unfoldable pub is_stack : Area → Bool
is_stack vma = not (bit_and vma.flags 0x0177 == 0)

-- `vma->m_flags & VM_WRITE`
abbrev pub may_write : Area → Bool
may_write vma = vma.flags / 2 % 2 == 1

-- `frame->err & 1`, `& 2` and `& 4`
abbrev pub err_present : ℕ → Bool
err_present err = err % 2 == 1

abbrev pub err_write : ℕ → Bool
err_write err = err / 2 % 2 == 1

abbrev pub err_user : ℕ → Bool
err_user err = err / 4 % 2 == 1

-- `page` is what `va_2_pa` answers for the address, `refs` the count of that page, and `memory` whether
-- `alloc_pages` finds a page.
unfoldable pub do_protection_fault : Area → Bool → Option ℕ → ℕ → Bool → Outcome
do_protection_fault vma write none refs memory = refused
do_protection_fault vma write (some pa) refs memory =
    if write && not (may_write vma)
    then refused
    else if refs == 1
    then made_writable
    else if memory
    then copied pa
    else null_copied

-- `expand_stack`
unfoldable pub expand_stack : Area → ℕ → Area
expand_stack vma addr = record vma { start = page_floor addr }

-- "good_area"
unfoldable pub good_area : Area → ℕ → ℕ → Option ℕ → ℕ → Bool → Outcome
good_area vma addr err page refs memory =
    if err_present err
    then do_protection_fault vma (err_write err) page refs memory
    else if memory
    then mapped (page_floor addr)
    else null_mapped (page_floor addr)

-- The test before `expand_stack`; `esp` is the stack pointer of the trap frame.
abbrev pub grows : Area → ℕ → ℕ → ℕ → Bool
grows vma addr err esp = err_user err && is_stack vma && leb esp (add32 addr 32)

-- `do_page_fault` where `find_vma` stopped, with the areas as they are left.
unfoldable pub fault_found :
    List Area → List Area → ℕ → ℕ → ℕ → Option ℕ → ℕ → Bool → List Area × Outcome
fault_found front [] addr err esp page refs memory = (relink front [], exited)
fault_found front (vma ∷ rest) addr err esp page refs memory =
    if leb vma.start addr
    then (relink front (vma ∷ rest), good_area vma addr err page refs memory)
    else if grows vma addr err esp
    then (
      relink front (expand_stack vma addr ∷ rest),
      good_area (expand_stack vma addr) addr err page refs memory,
    )
    else (relink front (vma ∷ rest), exited)

unfoldable pub do_page_fault : List Area → ℕ → ℕ → ℕ → Option ℕ → ℕ → Bool → List Area × Outcome
do_page_fault areas addr err esp page refs memory =
    let (front, back) = find_vma_prev addr [] areas in
    fault_found front back addr err esp page refs memory

-- Every area ends at a page.
abbrev pub EndsAligned : List Area → Type 0
EndsAligned [] = Unit {0}
EndsAligned (vma ∷ rest) = (vma.end % page_size ≡ 0) × EndsAligned rest

relink-EndsAligned :
    (front back : List Area)
    → EndsAligned (relink front back)
    → EndsAligned front × EndsAligned back
unfolding relink
relink-EndsAligned [] back h = (tt, h)
relink-EndsAligned (vma ∷ front) back h =
    let (f, b) = relink-EndsAligned front (vma ∷ back) h in ((b.0, f), b.1)

-- An area that grows down to the page of the address stays clear of those before it.
Behind-floor :
    (addr : ℕ) (front : List Area)
    → Behind addr front
    → EndsAligned front
    → Behind (page_floor addr) front
Behind-floor addr [] b e = tt
Behind-floor addr (vma ∷ front) b e = (omega arith, b.1, b.2)

-- What a page fault at `addr` leaves of the areas.
pub record Faulted (addr : ℕ) (areas : List Area) (out : List Area × Outcome) : Type 0 where
  pub ordered : Ordered 0 out.0
  pub landed : (out.1 ≡ exited) ⊎ (view addr out.0 ≢ none)
  pub kept : (a : ℕ) (q : ℕ × ℕ) → view a areas ≡ some q → view a out.0 ≡ some q
  pub fatal : out.1 ≡ exited → (view addr areas ≡ none) × (out.0 ≡ areas)

good_area-ne-exited :
    (vma : Area) (addr err : ℕ) (page : Option ℕ) (refs : ℕ) (memory : Bool)
    → good_area vma addr err page refs memory ≢ exited
unfolding good_area do_protection_fault
good_area-ne-exited vma addr err none refs memory = ground arith
good_area-ne-exited vma addr err (some pa) refs memory = ground arith

-- The growth of the area that the walk stopped at.
view-expand :
    (a addr : ℕ) (vma : Area) (front rest : List Area) (q : ℕ × ℕ)
    → Behind (page_floor addr) front
    → addr < vma.start
    → view a (relink front (vma ∷ rest)) ≡ some q
    → Ordered vma.start (vma ∷ rest)
    → view a (relink front (expand_stack vma addr ∷ rest)) ≡ some q
unfolding expand_stack
view-expand a addr vma front rest q b h e o = elim (Bool-cases (leb (page_floor addr) a)) [
  | inl f ↦
      let was =
        sym (view-relink_above a (page_floor addr) front (vma ∷ rest) b (ground arith)) ∙ e in
      view-relink_above a (page_floor addr) front _ b (ground arith)
      ∙ ground (arith, view_below a vma.end rest o.2)
  | inr f ↦ view-relink a front _ (vma ∷ rest) (ground (arith, view_below a vma.end rest o.2)) ∙ e
]

module _ (addr err esp : ℕ) (page : Option ℕ) (refs : ℕ) (memory : Bool) where
  fault_found-Faulted :
      (mid : ℕ) (front back : List Area)
      → Behind mid front
      → Ordered mid back
      → Behind addr front
      → EndsAligned front
      → EndsAbove addr back
      → Faulted addr (relink front back) (fault_found front back addr err esp page refs memory)
  unfolding fault_found expand_stack
  fault_found-Faulted mid front [] b o p al ea = record {
    ordered = relink-Ordered mid front [] b o;
    landed = inl refl;
    kept = λ a q e. e;
    fatal = λ e. (view-relink_above addr addr front [] p (omega arith), refl);
  }
  fault_found-Faulted mid front (vma ∷ rest) b o p al ea = elim (Bool-cases (leb vma.start addr)) [
    | inl e ↦ rw e (record {
      ordered = relink-Ordered mid front (vma ∷ rest) b o;
      landed =
          inr (λ n. ground (arith, view-relink_above addr addr front (vma ∷ rest) p (omega arith)));
      kept = λ a q h. h;
      fatal = λ h. absurd (good_area-ne-exited vma addr err page refs memory h);
    })
    | inr e ↦ elim (Bool-cases (grows vma addr err esp)) [
      | inl g ↦
          rw (e, g)
            (record {
              ordered =
                  relink-Ordered (page_floor addr) front (expand_stack vma addr ∷ rest)
                    (Behind-floor addr front p al) (omega arith, ground arith, o.2);
              landed = inr (λ n. ground (
                arith,
                view-relink_above addr (page_floor addr) front (expand_stack vma addr ∷ rest)
                    (Behind-floor addr front p al) (omega arith),
              ));
              kept = λ a q h.
                  view-expand a addr vma front rest q (Behind-floor addr front p al) (ground arith)
                    h (omega arith, o.1, o.2);
              fatal = λ h.
                  absurd (good_area-ne-exited (expand_stack vma addr) addr err page refs memory h);
            })
      | inr g ↦
          rw (e, g)
            (record {
              ordered = relink-Ordered mid front (vma ∷ rest) b o;
              landed = inl refl;
              kept = λ a q h. h;
              fatal = λ h. (
                view-relink_above addr addr front (vma ∷ rest) p (omega arith)
                    ∙ view_below addr vma.start (vma ∷ rest) (omega arith, o.1, o.2) (ground arith),
                refl,
              );
            })
    ]
  ]

  -- A page fault leaves an ordered address space of page-aligned areas ordered. Unless the process exits,
  -- the address is inside an area when the fault has been handled. What was mapped stays mapped, with
  -- its protection and flags, also when the stack grows. The process exits only at an address that is
  -- not mapped, and then no area changes.
  pub do_page_fault-Faulted :
      (areas : List Area)
      → Ordered 0 areas
      → EndsAligned areas
      → Faulted addr areas (do_page_fault areas addr err esp page refs memory)
  unfolding do_page_fault relink
  do_page_fault-Faulted areas o al =
      let stop = find_vma_prev-Stopped addr 0 [] areas tt o tt in
      let (front, back) = find_vma_prev addr [] areas in
      let ends =
        rw (← find_vma_prev-find_vma addr [] areas) at (find_vma-Found addr 0 areas o).ends in
      subst (λ l. Faulted addr l (fault_found front back addr err esp page refs memory)) stop.whole
        (fault_found-Faulted stop.mid front back stop.behind stop.ahead stop.passed
          (relink-EndsAligned front back (rw stop.whole al)).0 ends)

permission_table : (p : ℕ) → p < 8 → p ≢ 0 → (bit_and p 0x0177 == 0) ≡ false
permission_table zero h n = absurd (n refl)
permission_table (suc zero) h n = refl
permission_table (suc (suc zero)) h n = refl
permission_table (suc (suc (suc zero))) h n = refl
permission_table (suc (suc (suc (suc zero)))) h n = refl
permission_table (suc (suc (suc (suc (suc zero))))) h n = refl
permission_table (suc (suc (suc (suc (suc (suc zero)))))) h n = refl
permission_table (suc (suc (suc (suc (suc (suc (suc zero))))))) h n = refl
permission_table (suc (suc (suc (suc (suc (suc (suc (suc p)))))))) h n = absurd (omega arith)

-- VM_STACK shares its low bits with VM_READ, VM_WRITE and VM_EXEC: every area that `do_mmap` makes
-- with some permission passes for a stack, and grows.
is_stack-mmap_area : (addr len prot : ℕ) → prot % 8 ≢ 0 → is_stack (mmap_area addr len prot) ≡ true
unfolding is_stack
is_stack-mmap_area addr len prot n = rw (permission_table (prot % 8) (omega arith) n)
