-- ===== src/Vm/Unmap.antt =====
-- `do_munmap` of src/vm.cc: which addresses it unmaps, and what it makes of the rest.
use babyos.Prelude.{
  ℕ, ◌+◌, ◌-◌, ◌≤◌, ◌<◌, ◌≡◌, ◌≢◌, refl, ◌∙◌, false, ◌&&◌, ◌||◌, Option, none, some, List, [], ◌∷◌,
  ltb, leb, ◌==◌, if◌then◌else◌, arith, Bool-cases, Option-cases, inl, inr, add32, page_align,
  length,
}
use babyos.Vm.{
  Area, Vmm, find_vma, find_vma_prev, free_page_range, relink, drop_empty, unmap_cut, unmap_found,
  unmap_bad_range, do_munmap, user_vm_size,
}
use babyos.Vm.View.{
  view, inside, attributes, Ordered, Behind, Behind-mono, Ordered-mono, relink-Ordered, view_below,
  view-relink_above, view-relink, length-relink,
}
use babyos.Vm.Mmap.{IsValid}

-- What the walk with `prev` has established when it stops.
pub record Stopped (addr : ℕ) (areas : List Area) (out : List Area × List Area) : Type 0 where
  pub mid : ℕ
  pub behind : Behind mid out.0
  pub ahead : Ordered mid out.1
  pub passed : Behind addr out.0
  pub whole : relink out.0 out.1 ≡ areas

pub find_vma_prev-Stopped :
    (addr mid : ℕ) (front back : List Area)
    → Behind mid front
    → Ordered mid back
    → Behind addr front
    → Stopped addr (relink front back) (find_vma_prev addr front back)
unfolding find_vma_prev relink
find_vma_prev-Stopped addr mid front [] b o p = record {
  mid = mid;
  behind = b;
  ahead = tt;
  passed = p;
  whole = refl;
}
find_vma_prev-Stopped addr mid front (vma ∷ rest) b o p = elim (Bool-cases (ltb addr vma.end)) [
  | inl e ↦ rw e (record { mid = mid; behind = b; ahead = o; passed = p; whole = refl })
  | inr e ↦ rw e (
      find_vma_prev-Stopped addr vma.end (vma ∷ front) rest
        (omega arith, o.1, Behind-mono {lo = mid} {hi = vma.start} front o.0 b) o.2
        (ground arith, o.1, Behind-mono {lo = mid} {hi = vma.start} front o.0 b))
]

-- Both walks stop at the same area.
pub find_vma_prev-find_vma :
    (addr : ℕ) (front areas : List Area) → (find_vma_prev addr front areas).1 ≡ find_vma addr areas
unfolding find_vma_prev find_vma
find_vma_prev-find_vma addr front [] = refl
find_vma_prev-find_vma addr front (vma ∷ rest) = elim (Bool-cases (ltb addr vma.end)) [
  | inl e ↦ rw e
  | inr e ↦ rw e (find_vma_prev-find_vma addr (vma ∷ front) rest)
]

drop_empty-Ordered :
    (lo : ℕ) (vma : Area) (rest : List Area)
    → lo ≤ vma.start
    → vma.start ≤ vma.end
    → Ordered vma.end rest
    → Ordered lo (drop_empty vma rest).0
unfolding drop_empty
drop_empty-Ordered lo vma rest h k o = elim (Bool-cases (vma.start == vma.end)) [
  | inl e ↦ rw e (Ordered-mono {lo = lo} {hi = vma.end} rest (omega arith) o)
  | inr e ↦ rw e (h, ground arith, o)
]

module _ (addr len : ℕ) (vma fresh : Area) (rest : List Area) (from : vma.start ≤ addr)
    (some_len : 0 < len) (to : addr + len ≤ vma.end) (in_user : addr + len ≤ user_vm_size)
    (o : Ordered vma.end rest) where
  unmap_cut-Ordered : Ordered vma.start (unmap_cut addr len vma rest fresh).0
  unfolding unmap_cut
  unmap_cut-Ordered =
      drop_empty-Ordered vma.start (record vma { end = addr }) _ (omega arith) from
        (drop_empty-Ordered addr (record fresh { start = add32 addr len; end = vma.end }) rest
          (omega arith) (omega arith) o)

  length-unmap_cut :
      length (unmap_cut addr len vma rest fresh).0 + (unmap_cut addr len vma rest fresh).1
      ≡ length rest + 2
  unfolding unmap_cut drop_empty
  length-unmap_cut = ground arith

  -- The range is gone, the lower part is as it was, the upper part has what the new object held.
  view-unmap_cut :
      (a : ℕ)
      → view a (unmap_cut addr len vma rest fresh).0 ≡ (
          if leb addr a && ltb a (addr + len)
          then none
          else if leb (addr + len) a && inside vma a
          then some (attributes fresh)
          else view a (vma ∷ rest))
  unfolding unmap_cut drop_empty
  view-unmap_cut a = ground (arith, view_below a vma.end rest o)

-- What an unmapping of [addr, addr + len) in the area `vma` leaves at `a`, where the new object
-- held the attributes of `fresh`.
abbrev pub unmapped_view : ℕ → ℕ → Area → Area → List Area → ℕ → Option (ℕ × ℕ)
unmapped_view addr len vma fresh areas a =
    if leb addr a && ltb a (addr + len)
    then none
    else if leb (addr + len) a && inside vma a
    then some (attributes fresh)
    else view a areas

module _ (addr len mid : ℕ) (vma fresh : Area) (front rest : List Area) (m : Vmm)
    (some_len : 0 < len) (in_user : addr + len ≤ user_vm_size) (behind : Behind mid front)
    (o : Ordered mid (vma ∷ rest)) where
  below : Behind vma.start front
  below = Behind-mono {lo = mid} {hi = vma.start} front o.0 behind

  view-relink_cut :
      (a : ℕ)
      → vma.start ≤ addr
      → addr + len ≤ vma.end
      → view a (relink front (unmap_cut addr len vma rest fresh).0)
        ≡ unmapped_view addr len vma fresh (relink front (vma ∷ rest)) a
  view-relink_cut a from to =
      let cut = view-unmap_cut addr len vma fresh rest from some_len to in_user o.2 a in
      elim (Bool-cases (leb vma.start a)) [
        | inl e ↦
            view-relink_above a vma.start front _ below (ground arith)
            ∙ cut
            ∙ rw (view-relink_above a vma.start front (vma ∷ rest) below (ground arith)) refl
        | inr e ↦ view-relink a front _ (vma ∷ rest) (cut ∙ ground arith) ∙ ground arith
      ]

  unmap_found_lem :
      (m' : Vmm) (a : ℕ)
      → m.live ≡ length (relink front (vma ∷ rest))
      → unmap_found addr len front (vma ∷ rest) (some fresh) m ≡ some m'
      → IsValid m'
        × (view a m'.mmap ≡ unmapped_view addr len vma fresh (relink front (vma ∷ rest)) a)
  unfolding unmap_found
  unmap_found_lem m' a c e =
      elim (Bool-cases (ltb addr vma.start || ltb vma.end (add32 addr len))) [
        | inl f ↦ let e' = rw f at e in cc
        | inr f ↦
            let e' = rw f at e in
            let left : Vmm = record {
              mmap = relink front (unmap_cut addr len vma rest fresh).0;
              live = m.live + 1 - (unmap_cut addr len vma rest fresh).1;
            } in
            let same : left ≡ m' = cc in
            rw (← same) (
              record {
                ordered = relink-Ordered vma.start front _ below (
                    unmap_cut-Ordered addr len vma fresh rest (ground arith) some_len (ground arith)
                      in_user o.2);
                counted = omega (
                  arith,
                  c,
                  length-relink front (vma ∷ rest),
                  length-relink front (unmap_cut addr len vma rest fresh).0,
                  length-unmap_cut addr len vma fresh rest (ground arith) some_len (ground arith)
                      in_user o.2,
                );
              },
              view-relink_cut a (ground arith) (ground arith),
            )
      ]

-- The parts of a successful `do_munmap`.
pub do_munmap_inv :
    (pages : ℕ → Option ℕ) (addr len : ℕ) (pool : Option Area) (m m' : Vmm) (freed : List ℕ)
    → page_align len ≢ 0
    → do_munmap pages addr len pool m ≡ some (m', freed)
    → let (front, back) = find_vma_prev addr [] m.mmap in
      (unmap_bad_range addr len ≡ false)
      × (unmap_found addr (page_align len) front back pool m ≡ some m')
      × (freed ≡ free_page_range pages addr (add32 addr (page_align len)))
unfolding do_munmap
do_munmap_inv pages addr len pool m m' freed n e =
    elim (Option-cases (
      unmap_found addr (page_align len) (find_vma_prev addr [] m.mmap).0
        (find_vma_prev addr [] m.mmap).1 pool m)) [
          | inl f ↦ ground arith
          | inr (m'', f) ↦ ground arith
        ]

-- A successful `do_munmap` of a valid address space leaves it valid. The page-aligned range is
-- unmapped; what the area had above the range takes the protection and flags that the pool's new
-- object held before; every other address is as it was.
pub view-do_munmap :
    (pages : ℕ → Option ℕ) (addr len : ℕ) (vma fresh : Area) (rest : List Area) (m m' : Vmm)
    (freed : List ℕ) (a : ℕ)
    → IsValid m
    → page_align len ≢ 0
    → find_vma addr m.mmap ≡ vma ∷ rest
    → do_munmap pages addr len (some fresh) m ≡ some (m', freed)
    → IsValid m' × (view a m'.mmap ≡ unmapped_view addr (page_align len) vma fresh m.mmap a)
unfolding relink
view-do_munmap pages addr len vma fresh rest m m' freed a v n at e =
    let (ok, done, _) = do_munmap_inv pages addr len (some fresh) m m' freed n e in
    let stop = find_vma_prev-Stopped addr 0 [] m.mmap tt v.ordered tt in
    let front : List Area = (find_vma_prev addr [] m.mmap).0 in
    let here : (find_vma_prev addr [] m.mmap).1 ≡ vma ∷ rest =
      find_vma_prev-find_vma addr [] m.mmap ∙ at in
    let whole : relink front (vma ∷ rest) ≡ m.mmap = rw (← here) stop.whole in
    rw (← whole) (
      unmap_found_lem addr (page_align len) stop.mid vma fresh front rest m (omega arith)
        (ground arith) stop.behind (rw here at stop.ahead) m' a (rw whole v.counted)
        (rw here at done))
