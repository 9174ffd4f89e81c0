-- ===== src/Vm/Mmap.antt =====
-- `do_mmap` of src/vm.cc.
use babyos.Prelude.{
  ℕ, ◌+◌, ◌-◌, ◌%◌, ◌≤◌, ◌<◌, ◌≡◌, ◌≢◌, refl, sym, subst, ◌∙◌, Bool, true, false, ◌&&◌, Option,
  none, some, List, [], ◌∷◌, ltb, leb, if◌then◌else◌, arith, Bool-cases, Option-cases, inl, inr,
  add32, page_align, page_offset, length,
}
use babyos.Vm.{
  Area, Vmm, find_vma, get_unmapped_area, unmapped_walk, insert_vma, insert_scan, insert_link,
  merge_next, mmap_place, mmap_area, mmap_insert, mmap_at, mmap_out_of_range, mmap_aligned, do_mmap,
  map_fixed, overlaps_next, user_vm_size, unmapped_base,
}
use babyos.Vm.View.{view, Ordered, view_below}
use babyos.Vm.Insert.{insert_vma_ok, insert_vma-eq-none_iff}
use babyos.Vm.Find.{find_vma-Found, EndsAbove, get_unmapped_area_clear}

-- The areas are in order and apart, and each holds one object of the pool.
pub record IsValid (m : Vmm) : Type 0 where
  pub ordered : Ordered 0 m.mmap
  pub counted : m.live ≡ length m.mmap

overlaps_next_clear :
    (addr len a : ℕ) (areas : List Area)
    → Ordered 0 areas
    → addr + len ≤ user_vm_size
    → overlaps_next addr len areas ≡ false
    → a < addr + len
    → view a areas ≡ none
unfolding overlaps_next
overlaps_next_clear addr len a [] o h e q = refl
overlaps_next_clear addr len a (p ∷ rest) o h e q =
    view_below a p.start (p ∷ rest) (omega arith, o.1, o.2) (ground arith)

-- A place that `do_mmap` has settled on is free.
mmap_place_clear :
    (addr len flags got a : ℕ) (areas : List Area)
    → Ordered 0 areas
    → addr + len ≤ user_vm_size
    → mmap_place addr len flags areas ≡ some got
    → got ≤ a
    → a < got + len
    → view a areas ≡ none
unfolding mmap_place
mmap_place_clear addr len flags got a areas o h e p q = elim (Bool-cases (map_fixed flags)) [
  | inl f ↦
      let found = find_vma-Found addr 0 areas o in
      let e' = rw f at e in
      found.same a (ground arith)
      ∙ overlaps_next_clear addr len a (find_vma addr areas) found.ordered h (ground arith)
          (ground arith)
  | inr f ↦
      let e' = rw f at e in
      (get_unmapped_area_clear len a areas (omega arith) o (ground arith) (ground arith)
        (ground arith)).1
]

overlaps_next-free :
    (addr len : ℕ) (areas : List Area)
    → Ordered 0 areas
    → EndsAbove addr areas
    → 0 < len
    → addr + len ≤ user_vm_size
    → ((a : ℕ) → addr ≤ a → a < addr + len → view a areas ≡ none)
    → overlaps_next addr len areas ≡ false
unfolding overlaps_next
overlaps_next-free addr len [] o ea p h free = refl
overlaps_next-free addr len (x ∷ rest) o ea p h free =
    elim (Bool-cases (ltb x.start (add32 addr len))) [
      | inl e ↦ elim (Bool-cases (leb x.start addr)) [
        | inl f ↦ ground (arith, free addr (omega arith) (omega arith))
        | inr f ↦ ground (arith, free x.start (ground arith) (ground arith))
      ]
      | inr e ↦ e
    ]

fixed_place :
    (addr len flags : ℕ) (areas : List Area)
    → Ordered 0 areas
    → map_fixed flags ≡ true
    → page_offset addr ≡ 0
    → 0 < len
    → addr + len ≤ user_vm_size
    → ((a : ℕ) → addr ≤ a → a < addr + len → view a areas ≡ none)
    → mmap_place addr len flags areas ≡ some addr
unfolding mmap_place
fixed_place addr len flags areas o f z p h free =
    let found = find_vma-Found addr 0 areas o in
    let clear =
      overlaps_next-free addr len (find_vma addr areas) found.ordered found.ends p h
        (λ a q r. sym (found.same a q) ∙ free a q r) in
    rw (f, clear) (ground arith)

-- What a mapping of `len` bytes at `got` leaves.
record Mapped (got len prot : ℕ) (m m' : Vmm) : Type 0 where
  valid : IsValid m'
  same :
      (a : ℕ)
      → view a m'.mmap
        ≡ (if leb got a && ltb a (got + len) then some (prot, prot % 8) else view a m.mmap)

-- At a free place inside user space the insertion cannot fail.
mmap_insert_total :
    (got len prot : ℕ) (m : Vmm)
    → IsValid m
    → 0 < len
    → got + len ≤ user_vm_size
    → ((a : ℕ) → got ≤ a → a < got + len → view a m.mmap ≡ none)
    → (m' : Vmm) × (mmap_insert got len prot true m ≡ (some got, m')) × Mapped got len prot m m'
unfolding mmap_insert
mmap_insert_total got len prot m v p h free = elim (Option-cases (insert_vma vma taken)) [
  | inl e ↦
      let (a, i, n) = (insert_vma-eq-none_iff vma taken (omega arith) v.ordered).0 e in
      absurd (n (free a (ground arith) (ground arith)))
  | inr (m', e) ↦
      let k = insert_vma_ok vma taken m' (omega arith) v.ordered e in
      (
        m',
        rw (e, mmap_insert),
        record {
          valid = record { ordered = k.ordered; counted = k.counted (omega arith) };
          same = λ a. k.same a ∙ ground arith;
        },
      )
]
  where
    vma : Area
    vma = mmap_area got len prot

    taken : Vmm
    taken = record m { live = m.live + 1 }

mmap_at_inv :
    (place : Option ℕ) (len prot : ℕ) (pool : Bool) (m : Vmm) (got : ℕ) (m' : Vmm)
    → mmap_at place len prot pool m ≡ (some got, m')
    → (place ≡ some got) × (pool ≡ true) × (mmap_insert got len prot true m ≡ (some got, m'))
unfolding mmap_at mmap_insert
mmap_at_inv none len prot pool m got m' e = cc
mmap_at_inv (some addr) len prot false m got m' e = cc
mmap_at_inv (some addr) len prot true m got m' e = ground arith

mmap_at_error :
    (place : Option ℕ) (len prot : ℕ) (pool : Bool) (m m' : Vmm)
    → mmap_at place len prot pool m ≡ (none, m')
    → m'.mmap ≡ m.mmap
unfolding mmap_at mmap_insert
mmap_at_error none len prot pool m m' e = ground arith
mmap_at_error (some addr) len prot false m m' e = ground arith
mmap_at_error (some addr) len prot true m m' e = ground arith

module _ (addr len prot flags : ℕ) (pool : Bool) (m : Vmm) where
  -- A result other than -1 comes from a place and an insertion.
  mmap_aligned_inv :
      (got : ℕ) (m' : Vmm)
      → mmap_aligned addr len prot flags pool m ≡ (some got, m')
      → len ≢ 0
      → (mmap_out_of_range addr len ≡ false)
        × (mmap_place addr len flags m.mmap ≡ some got)
        × (pool ≡ true)
        × (mmap_insert got len prot true m ≡ (some got, m'))
  unfolding mmap_aligned
  mmap_aligned_inv got m' e n =
      ground (arith, mmap_at_inv (mmap_place addr len flags m.mmap) len prot pool m got m')

  mmap_aligned_at :
      (got : ℕ)
      → len ≢ 0
      → mmap_out_of_range addr len ≡ false
      → mmap_place addr len flags m.mmap ≡ some got
      → mmap_aligned addr len prot flags pool m ≡ mmap_insert got len prot pool m
  unfolding mmap_aligned mmap_at
  mmap_aligned_at got n r p = ground (arith)

  -- Where `do_mmap` returns -1 the areas are as before.
  mmap_aligned_error :
      (m' : Vmm) → mmap_aligned addr len prot flags pool m ≡ (none, m') → m'.mmap ≡ m.mmap
  unfolding mmap_aligned
  mmap_aligned_error m' e =
      ground (arith, mmap_at_error (mmap_place addr len flags m.mmap) len prot pool m m')

-- A successful `do_mmap` of a valid address space, at a place inside user space, leaves it valid,
-- with the addresses of the page-aligned range mapped as asked and every other one as before.
pub view-do_mmap :
    (addr len prot flags : ℕ) (pool : Bool) (m : Vmm) (got : ℕ) (m' : Vmm) (a : ℕ)
    → IsValid m
    → do_mmap addr len prot flags pool m ≡ (some got, m')
    → page_align len ≢ 0
    → got + page_align len ≤ user_vm_size
    → IsValid m'
      × (view a m'.mmap ≡ (
          if leb got a && ltb a (got + page_align len)
          then some (prot, prot % 8)
          else view a m.mmap))
unfolding do_mmap
view-do_mmap addr len prot flags pool m got m' a v e n h =
    let size : ℕ = page_align len in
    let (in_range, place, _, done) = mmap_aligned_inv addr size prot flags pool m got m' e n in
    let (m'', done', k) =
      mmap_insert_total got size prot m v (omega arith) h
        (λ b. mmap_place_clear addr size flags got b m.mmap v.ordered (ground arith) place) in
    let same : m'' ≡ m' = cc in
    let k' = subst (Mapped got size prot m) same k in (k'.valid, k'.same a)

-- `do_mmap` never fails at the insertion, where it would keep the pool's object: with a place
-- inside user space and an object it returns that place.
do_mmap_total :
    (addr len prot flags : ℕ) (m : Vmm) (got : ℕ)
    → IsValid m
    → page_align len ≢ 0
    → addr + page_align len ≤ user_vm_size
    → mmap_place addr (page_align len) flags m.mmap ≡ some got
    → got + page_align len ≤ user_vm_size
    → (do_mmap addr len prot flags true m).0 ≡ some got
unfolding do_mmap
do_mmap_total addr len prot flags m got v n r p h =
    let size : ℕ = page_align len in
    let (m', done, k) =
      mmap_insert_total got size prot m v (omega arith) h
        (λ b. mmap_place_clear addr size flags got b m.mmap v.ordered r p) in
    rw (mmap_aligned_at addr size prot flags true m got n (ground arith) p, done)

-- With MAP_FIXED and an object of the pool, `do_mmap` maps a free page-aligned range of user space
-- where it is asked to.
do_mmap_fixed :
    (addr len prot flags : ℕ) (m : Vmm)
    → IsValid m
    → map_fixed flags ≡ true
    → page_offset addr ≡ 0
    → page_align len ≢ 0
    → addr + page_align len ≤ user_vm_size
    → ((a : ℕ) → addr ≤ a → a < addr + page_align len → view a m.mmap ≡ none)
    → (do_mmap addr len prot flags true m).0 ≡ some addr
do_mmap_fixed addr len prot flags m v f o n r free =
    do_mmap_total addr len prot flags m addr v n r
      (fixed_place addr (page_align len) flags m.mmap v.ordered f o (omega arith) r free) r

-- Where `do_mmap` returns -1 the areas are as before, whatever the cause.
do_mmap_error :
    (addr len prot flags : ℕ) (pool : Bool) (m m' : Vmm)
    → do_mmap addr len prot flags pool m ≡ (none, m')
    → m'.mmap ≡ m.mmap
unfolding do_mmap
do_mmap_error addr len prot flags pool m m' e =
    mmap_aligned_error addr (page_align len) prot flags pool m m' e

empty_place : (len : ℕ) → mmap_place 0 len 0 [] ≡ some unmapped_base
unfolding mmap_place get_unmapped_area unmapped_walk find_vma
empty_place len = refl

mmap_insert_empty :
    (got len prot live : ℕ)
    → (mmap_insert got len prot true (record { mmap = []; live = live })).0 ≡ some got
unfolding mmap_insert insert_vma insert_scan insert_link merge_next
mmap_insert_empty got len prot live = refl

-- With no area above the base of mappings `get_unmapped_area` checks nothing: in an empty address
-- space every page-aligned length between the room that is left and the size of user space is
-- mapped beyond the end of user space.
do_mmap_escapes :
    (len prot live : ℕ)
    → page_offset len ≡ 0
    → user_vm_size - unmapped_base < len
    → len ≤ user_vm_size
    → ((do_mmap 0 len prot 0 true (record { mmap = []; live = live })).0 ≡ some unmapped_base)
      × (user_vm_size < unmapped_base + len)
unfolding do_mmap
do_mmap_escapes len prot live o p h =
    let whole : page_align len ≡ len = omega arith in
    (
      rw
          (
            whole,
            mmap_aligned_at 0 len prot 0 true (record { mmap = []; live = live }) unmapped_base
                (omega arith) (ground arith) (empty_place len),
          )
          (mmap_insert_empty unmapped_base len prot live),
      omega arith,
    )
