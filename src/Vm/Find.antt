-- ===== src/Vm/Find.antt =====
-- `find_vma` and `get_unmapped_area` of src/vm.cc.
use babyos.Prelude.{
  ℕ, ◌+◌, ◌≤◌, ◌<◌, ◌≡◌, ◌≢◌, ◌⊎◌, refl, sym, ◌∙◌, true, none, List, [], ◌∷◌, ltb, leb, arith,
  Bool-cases, inl, inr, add32, sub32,
}
use babyos.Vm.{Area, find_vma, unmapped_walk, get_unmapped_area, user_vm_size, unmapped_base}
use babyos.Vm.View.{view, Ordered, view_below}

-- The first area ends above `addr`.
abbrev pub EndsAbove : ℕ → List Area → Type 0
EndsAbove addr [] = Unit {0}
EndsAbove addr (vma ∷ rest) = addr < vma.end

-- What the pointer that `find_vma` returns is good for.
pub record Found (addr : ℕ) (areas out : List Area) : Type 0 where
  pub ordered : Ordered 0 out
  pub ends : EndsAbove addr out
  pub same : (a : ℕ) → addr ≤ a → view a areas ≡ view a out

pub find_vma-Found :
    (addr lo : ℕ) (areas : List Area) → Ordered lo areas → Found addr areas (find_vma addr areas)
unfolding find_vma
find_vma-Found addr lo [] o = record { ordered = tt; ends = tt; same = λ a h. refl }
find_vma-Found addr lo (vma ∷ rest) o = elim (Bool-cases (ltb addr vma.end)) [
  | inl e ↦
      rw e (record { ordered = (omega arith, o.1, o.2); ends = ground arith; same = λ a h. refl })
  | inr e ↦
      let r = find_vma-Found addr vma.end rest o.2 in
      rw e (record { ordered = r.ordered; ends = r.ends; same = λ a h. ground (arith, r.same a h) })
]

EndsAbove-next : (addr : ℕ) (areas : List Area) → Ordered addr areas → EndsAbove addr areas
EndsAbove-next addr [] o = tt
EndsAbove-next addr (vma ∷ rest) o = omega arith

-- Room for `len` bytes at `got`.
pub record Fits (len addr : ℕ) (areas : List Area) (got : ℕ) : Type 0 where
  pub from : addr ≤ got
  pub clear : (a : ℕ) → got ≤ a → a < got + len → view a areas ≡ none

unmapped_walk-Fits :
    (len addr lo : ℕ) (areas : List Area)
    → len ≤ user_vm_size
    → Ordered lo areas
    → EndsAbove addr areas
    → (unmapped_walk len addr areas ≡ 0) ⊎ Fits len addr areas (unmapped_walk len addr areas)
unfolding unmapped_walk
unmapped_walk-Fits len addr lo [] h o ea =
    inr (record { from = omega arith; clear = λ a p q. refl })
unmapped_walk-Fits len addr lo (vma ∷ rest) h o ea =
    elim (Bool-cases (ltb (sub32 user_vm_size len) addr)) [
      | inl e ↦ inl (rw e)
      | inr e ↦ elim (Bool-cases (leb (add32 addr len) vma.start)) [
        | inl f ↦
            rw (e, f)
              (inr (record {
                from = omega arith;
                clear = λ a p q.
                    view_below a vma.start (vma ∷ rest) (omega arith, o.1, o.2) (ground arith);
              }))
        | inr f ↦
            rw (e, f)
              (step (
                unmapped_walk-Fits len vma.end vma.end rest h o.2
                  (EndsAbove-next vma.end rest o.2)))
      ]
    ]
  where
    step :
        {got : ℕ}
        → (got ≡ 0) ⊎ Fits len vma.end rest got
        → (got ≡ 0) ⊎ Fits len addr (vma ∷ rest) got
    step (inl z) = inl z
    step (inr k) = inr (record {
      from = omega (arith, k.from);
      clear = λ a p q. ground (arith, k.from, k.clear a p q);
    })

-- Some address of [x, x + len) is mapped.
abbrev pub Taken : ℕ → ℕ → List Area → Type 0
Taken x len areas = (a : ℕ) × (x ≤ a) × (a < x + len) × (view a areas ≢ none)

unmapped_walk_first :
    (len addr lo x : ℕ) (areas : List Area)
    → 0 < len
    → len ≤ user_vm_size
    → 0 < addr
    → Ordered lo areas
    → EndsAbove addr areas
    → addr ≤ x
    → (x < unmapped_walk len addr areas)
      ⊎ ((unmapped_walk len addr areas ≡ 0) × (x + len ≤ user_vm_size))
    → Taken x len areas
unfolding unmapped_walk
unmapped_walk_first len addr lo x [] p h z o ea hx g = absurd (omega arith)
unmapped_walk_first len addr lo x (vma ∷ rest) p h z o ea hx g =
    elim (Bool-cases (ltb (sub32 user_vm_size len) addr)) [
      | inl e ↦ absurd (early (rw e at g) (ground arith))
      | inr e ↦ elim (Bool-cases (leb (add32 addr len) vma.start)) [
        | inl f ↦ absurd (placed (rw (e, f) at g))
        | inr f ↦ elim (Bool-cases (ltb x vma.end)) [
          | inl q ↦ here q (ground arith)
          | inr q ↦ later (ground arith) (
              unmapped_walk_first len vma.end vma.end x rest p h (omega arith) o.2
                (EndsAbove-next vma.end rest o.2) (ground arith) (rw (e, f) at g))
        ]
      ]
    ]
  where
    early : (x < 0) ⊎ (◌≡◌ {A = ℕ} 0 0 × (x + len ≤ user_vm_size)) → user_vm_size < addr + len → ⊥
    early (inl q) e = omega arith
    early (inr q) e = omega arith

    placed : (x < addr) ⊎ ((addr ≡ 0) × (x + len ≤ user_vm_size)) → ⊥
    placed (inl q) = omega arith
    placed (inr q) = omega arith

    here : ltb x vma.end ≡ true → vma.start < x + len → Taken x len (vma ∷ rest)
    here q f = elim (Bool-cases (leb vma.start x)) [
      | inl r ↦ (x, omega arith, omega arith, ground arith)
      | inr r ↦ (vma.start, ground arith, omega arith, ground arith)
    ]

    later : vma.end ≤ x → Taken x len rest → Taken x len (vma ∷ rest)
    later q (a, lo', hi, n) = (a, lo', hi, ground arith)

-- A place that `get_unmapped_area` returns is above the base of mappings, and the `len` bytes from
-- it on are free.
pub get_unmapped_area_clear :
    (len a : ℕ) (areas : List Area)
    → len ≤ user_vm_size
    → Ordered 0 areas
    → get_unmapped_area len areas ≢ 0
    → get_unmapped_area len areas ≤ a
    → a < get_unmapped_area len areas + len
    → (unmapped_base ≤ get_unmapped_area len areas) × (view a areas ≡ none)
unfolding get_unmapped_area
get_unmapped_area_clear len a areas h o n p q =
    let found = find_vma-Found unmapped_base 0 areas o in
    elim (unmapped_walk-Fits len unmapped_base 0 _ h found.ordered found.ends) [
      | inl z ↦ absurd (n z)
      | inr k ↦ (k.from, found.same a (omega (arith, k.from)) ∙ k.clear a p q)
    ]

-- It is the first place with room: from every `x` between the base and it, and from every `x` that
-- leaves `len` bytes of user space if it fails, some address of [x, x + len) is mapped.
get_unmapped_area_first :
    (len x : ℕ) (areas : List Area)
    → 0 < len
    → len ≤ user_vm_size
    → Ordered 0 areas
    → unmapped_base ≤ x
    → (x < get_unmapped_area len areas)
      ⊎ ((get_unmapped_area len areas ≡ 0) × (x + len ≤ user_vm_size))
    → Taken x len areas
unfolding get_unmapped_area
get_unmapped_area_first len x areas p h o b g =
    let found = find_vma-Found unmapped_base 0 areas o in
    let (a, from, to, n) =
      unmapped_walk_first len unmapped_base 0 x _ p h (omega arith) found.ordered found.ends b g in
    (a, from, to, λ e. n (sym (found.same a (omega arith)) ∙ e))
