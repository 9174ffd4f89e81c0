-- ===== src/Vm/Insert.antt =====
-- `insert_vma` of src/vm.cc.
use babyos.Prelude.{
  ℕ, suc, ◌+◌, ◌-◌, ◌<◌, ◌≡◌, ◌≢◌, ◌⊎◌, ◌↔◌, refl, subst, ap, sym, ◌∙◌, true, ◌&&◌, Option, none,
  some, List, [], ◌∷◌, ltb, leb, ◌==◌, if◌then◌else◌, arith, length, Bool-cases, inl, inr,
}
use babyos.Vm.{Area, Vmm, relink, insert_scan, insert_link, merge_next, insert_vma, same_attributes}
use babyos.Vm.View.{
  inside, attributes, view, Ordered, Behind, Behind-mono, relink-Ordered, view_below,
  view-relink_above, view-relink, length-relink,
}

-- The area where the walk stopped, `prev`, begins before the end of `vma`.
abbrev PrevBelow : ℕ → List Area → Type 0
PrevBelow hi [] = Unit {0}
PrevBelow hi (prev ∷ front) = prev.start < hi

-- What the first loop has established when it stops.
record Scanned (vma : Area) (areas : List Area) (out : List Area × List Area) : Type 0 where
  mid : ℕ
  behind : Behind mid out.0
  ahead : Ordered mid out.1
  beyond : Ordered vma.end out.1
  prev : PrevBelow vma.end out.0
  whole : relink out.0 out.1 ≡ areas

insert_scan-Scanned :
    (vma : Area) (mid : ℕ) (front back : List Area)
    → Behind mid front
    → Ordered mid back
    → PrevBelow vma.end front
    → Scanned vma (relink front back) (insert_scan vma front back)
unfolding insert_scan relink
insert_scan-Scanned vma mid front [] b o p = record {
  mid = mid;
  behind = b;
  ahead = tt;
  beyond = tt;
  prev = p;
  whole = refl;
}
insert_scan-Scanned vma mid front (x ∷ rest) b o p = elim (Bool-cases (leb vma.end x.start)) [
  | inl e ↦ rw e (record {
    mid = mid;
    behind = b;
    ahead = o;
    beyond = (ground arith, o.1, o.2);
    prev = p;
    whole = refl;
  })
  | inr e ↦ rw e (
      insert_scan-Scanned vma x.end (x ∷ front) rest
        (omega arith, o.1, Behind-mono {lo = mid} {hi = x.start} front o.0 b) o.2 (ground arith))
]

-- Merging with the next area keeps the order and the view.
merge_next-Ordered :
    (vma : Area) (lo : ℕ) (back : List Area)
    → Ordered lo (vma ∷ back)
    → Ordered lo (merge_next vma back).0
unfolding merge_next
merge_next-Ordered vma lo [] o = o
merge_next-Ordered vma lo (p ∷ rest) o = ground arith

view-merge_next :
    (a : ℕ) (vma : Area) (back : List Area)
    → Ordered vma.start (vma ∷ back)
    → view a (merge_next vma back).0 ≡ view a (vma ∷ back)
unfolding merge_next
view-merge_next a vma [] o = refl
view-merge_next a vma (p ∷ rest) o = ground arith

length-merge_next :
    (vma : Area) (back : List Area)
    → length (merge_next vma back).0 + (merge_next vma back).1 ≡ suc (length back)
unfolding merge_next
length-merge_next vma [] = omega arith
length-merge_next vma (p ∷ rest) = ground arith

-- The list that the merges and links make, of which the theorems below speak.
record Linked (vma : Area) (front back : List Area) (out : List Area × ℕ) : Type 0 where
  ordered : Ordered 0 out.0
  counted : length out.0 + out.1 ≡ suc (length front + length back)
  clear : (a : ℕ) → inside vma a ≡ true → view a (relink front back) ≡ none
  same :
      (a : ℕ)
      → view a out.0 ≡ (if inside vma a then some (attributes vma) else view a (relink front back))

-- Linking `vma` in front of the rest, with or without a merge behind it.
view-link :
    (a : ℕ) (vma : Area) (front back : List Area)
    → Behind vma.start front
    → vma.start < vma.end
    → Ordered vma.end back
    → view a (relink front (vma ∷ back))
      ≡ (if inside vma a then some (attributes vma) else view a (relink front back))
view-link a vma front back b h o = elim (Bool-cases (inside vma a)) [
  | inl e ↦
      view-relink_above a vma.start front (vma ∷ back) b (ground arith)
      ∙ ground (arith, view-relink_above a vma.start front back b)
  | inr e ↦ rw e (view-relink a front (vma ∷ back) back (rw e))
]

-- Where `vma` fits, nothing was mapped.
view-gap :
    (a : ℕ) (vma : Area) (front back : List Area)
    → Behind vma.start front
    → Ordered vma.end back
    → inside vma a ≡ true
    → view a (relink front back) ≡ none
view-gap a vma front back b o e =
    view-relink_above a vma.start front back b (ground arith)
    ∙ view_below a vma.end back o (ground arith)

-- No merge with the area before.
link-Linked :
    (vma : Area) (front back : List Area)
    → Behind vma.start front
    → vma.start < vma.end
    → Ordered vma.end back
    → Linked vma front back (relink front (merge_next vma back).0, (merge_next vma back).1)
link-Linked vma front back b h o = record {
  ordered =
      relink-Ordered vma.start front _ b
        (merge_next-Ordered vma vma.start back (omega arith, h, o));
  counted = omega (arith, length-relink front (merge_next vma back).0, length-merge_next vma back);
  clear = λ a e. view-gap a vma front back b o e;
  same = λ a.
      view-relink a front _ (vma ∷ back) (view-merge_next a vma back (omega arith, h, o))
      ∙ view-link a vma front back b h o;
}

-- A merge with the area before, which has the same attributes and ends where `vma` begins.
merge-Linked :
    (vma prev : Area) (front back : List Area)
    → Behind prev.start front
    → prev.start < prev.end
    → prev.end ≡ vma.start
    → attributes prev ≡ attributes vma
    → vma.start < vma.end
    → Ordered vma.end back
    → let (tail, freed) = merge_next (record prev { end = vma.end }) back in
      Linked vma (prev ∷ front) back (relink front tail, freed + 1)
unfolding relink
merge-Linked vma prev front back b hp e s h o = record {
  ordered = relink-Ordered prev.start front _ b (merge_next-Ordered joined prev.start back fits);
  counted =
      omega (arith, length-relink front (merge_next joined back).0, length-merge_next joined back);
  clear = λ a i. view-gap a vma (prev ∷ front) back (omega arith, hp, b) o i;
  same = λ a.
      view-relink a front _ (prev ∷ vma ∷ back) (view-merge_next a joined back fits ∙ split a)
      ∙ view-link a vma (prev ∷ front) back (omega arith, hp, b) h o;
}
  where
    joined : Area
    joined = record prev { end = vma.end }

    fits : Ordered prev.start (joined ∷ back)
    fits = (omega arith, omega arith, o)

    split : (a : ℕ) → view a (joined ∷ back) ≡ view a (prev ∷ vma ∷ back)
    split a = ground arith

-- An address that both hold.
abbrev pub Overlap : Area → List Area → Type 0
Overlap vma areas = (a : ℕ) × (inside vma a ≡ true) × (view a areas ≢ none)

abbrev Outcome : Area → List Area → List Area → Option (List Area × ℕ) → Type 0
Outcome vma front back r =
    ((r ≡ none) × Overlap vma (relink front back))
    ⊎ ((out : List Area × ℕ) × (r ≡ some out) × Linked vma front back out)

-- `prev` reaches into `vma`: the later of the two starts lies in both.
Overlap-prev :
    (vma prev : Area) (front back : List Area)
    → Behind prev.start front
    → prev.start < prev.end
    → vma.start < vma.end
    → prev.start < vma.end
    → vma.start < prev.end
    → Overlap vma (relink front (prev ∷ back))
Overlap-prev vma prev front back b hp h p q = elim (Bool-cases (leb prev.start vma.start)) [
  | inl e ↦ (
    vma.start,
    ground arith,
    λ n. cc (
      view-relink_above vma.start prev.start front (prev ∷ back) b (ground arith),
      hit vma.start (ground arith),
    ),
  )
  | inr e ↦ (
    prev.start,
    ground arith,
    λ n. cc (
      view-relink_above prev.start prev.start front (prev ∷ back) b (omega arith),
      hit prev.start (ground arith),
    ),
  )
]
  where
    hit : (a : ℕ) → inside prev a ≡ true → view a (prev ∷ back) ≡ some (attributes prev)
    hit a i = rw i

insert_link-Outcome :
    (vma : Area) (mid : ℕ) (front back : List Area)
    → vma.start < vma.end
    → Behind mid front
    → Ordered vma.end back
    → PrevBelow vma.end front
    → Outcome vma front back (insert_link vma front back)
unfolding insert_link relink
insert_link-Outcome vma mid [] back h b o p =
    inr ((merge_next vma back), refl, link-Linked vma [] back tt h o)
insert_link-Outcome vma mid (prev ∷ front) back h b o p =
    elim (Bool-cases (ltb vma.start prev.end)) [
      | inl e ↦ inl (rw e, Overlap-prev vma prev front back b.2 b.1 h p (ground arith))
      | inr e ↦ elim (Bool-cases (prev.end == vma.start && same_attributes prev vma)) [
        | inl m ↦ inr (
          _,
          rw (e, m),
          merge-Linked vma prev front back b.2 b.1 (ground arith) (ground arith) h o,
        )
        | inr m ↦
            inr (_, rw (e, m), link-Linked vma (prev ∷ front) back (ground arith, b.1, b.2) h o)
      ]
    ]

-- `insert_vma` on an ordered address space: it fails and leaves an overlap to show for it, or links.
pub record Inserted (vma : Area) (m m' : Vmm) : Type 0 where
  pub ordered : Ordered 0 m'.mmap
  pub counted : m.live ≡ suc (length m.mmap) → m'.live ≡ length m'.mmap
  pub clear : (a : ℕ) → inside vma a ≡ true → view a m.mmap ≡ none
  pub same :
      (a : ℕ) → view a m'.mmap ≡ (if inside vma a then some (attributes vma) else view a m.mmap)

insert_vma-Inserted :
    (vma : Area) (m : Vmm)
    → vma.start < vma.end
    → Ordered 0 m.mmap
    → ((insert_vma vma m ≡ none) × Overlap vma m.mmap)
      ⊎ ((m' : Vmm) × (insert_vma vma m ≡ some m') × Inserted vma m m')
unfolding insert_vma relink
insert_vma-Inserted vma m h o =
    elim (insert_link-Outcome vma scan.mid front back h scan.behind scan.beyond scan.prev) [
      | inl (e, w) ↦ inl (rw (e, insert_vma), subst (Overlap vma) scan.whole w)
      | inr (out, e, k) ↦ inr (
        record { mmap = out.0; live = m.live - out.1 },
        rw (e, insert_vma),
        record {
          ordered = k.ordered;
          counted = λ c. omega (arith, k.counted, whole_length);
          clear = λ a i. rw (← scan.whole) (k.clear a i);
          same = λ a. rw (← scan.whole) (k.same a);
        },
      )
    ]
  where
    front : List Area
    front = (insert_scan vma [] m.mmap).0

    back : List Area
    back = (insert_scan vma [] m.mmap).1

    scan : Scanned vma m.mmap (front, back)
    scan = insert_scan-Scanned vma 0 [] m.mmap tt o tt

    whole_length : length m.mmap ≡ length front + length back
    whole_length = ap length (sym scan.whole) ∙ length-relink front back

pub insert_vma_ok :
    (vma : Area) (m m' : Vmm)
    → vma.start < vma.end
    → Ordered 0 m.mmap
    → insert_vma vma m ≡ some m'
    → Inserted vma m m'
insert_vma_ok vma m m' h o e = elim (insert_vma-Inserted vma m h o) [
  | inl (e', w) ↦ cc
  | inr (m'', e', k) ↦ subst (Inserted vma m) (cc) k
]

-- On an ordered address space `insert_vma` returns -1 exactly when some address of the new area is
-- mapped already.
pub insert_vma-eq-none_iff :
    (vma : Area) (m : Vmm)
    → vma.start < vma.end
    → Ordered 0 m.mmap
    → (insert_vma vma m ≡ none) ↔ Overlap vma m.mmap
insert_vma-eq-none_iff vma m h o = elim (insert_vma-Inserted vma m h o) [
  | inl (e, w) ↦ (λ _. w, λ _. e)
  | inr (m', e, k) ↦ (λ n. cc, λ w. absurd (w.2 (k.clear w.0 w.1)))
]

-- When `insert_vma` succeeds on an ordered address space, the areas stay ordered and apart, the
-- new area's addresses have its protection and flags, whatever is merged, and every other address
-- has what it had.
pub view-insert_vma :
    (vma : Area) (m m' : Vmm) (a : ℕ)
    → vma.start < vma.end
    → Ordered 0 m.mmap
    → insert_vma vma m ≡ some m'
    → Ordered 0 m'.mmap
      × (view a m'.mmap ≡ (if inside vma a then some (attributes vma) else view a m.mmap))
view-insert_vma vma m m' a h o e =
    ((insert_vma_ok vma m m' h o e).ordered, (insert_vma_ok vma m m' h o e).same a)
