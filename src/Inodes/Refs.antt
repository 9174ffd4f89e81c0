-- ===== src/Inodes/Refs.antt =====
-- The references that the cache of inodes of src/fs.cc counts.
use babyos.Prelude.{
  code, ℕ, suc, ◌+◌, ◌≤◌, ◌<◌, ◌≡◌, ◌≢◌, ◌⊎◌, inl, inr, refl, ◌∙◌, sym, ap, subst, true, false,
  Bool-cases, ◌&&◌, none, some, Option-cases, List, [], ◌∷◌, ltb, ◌==◌, if◌then◌else◌, if_true,
  if_false, u32_mod, arith, ℕ_discrete, get_elem?,
}
use mathlib.Core.Option
use babyos.Fs.{Inode}
use babyos.Inodes.{is_inode, find_inode, find_empty, update, add_ref, claimed, get_found, get_inode}

-- How many references there are to an inode, over all places of the cache.
abbrev pub refs_at : ℕ → ℕ → Inode → ℕ
refs_at dev inum inode = if is_inode dev inum inode then inode.ref else 0

abbrev pub refs : ℕ → ℕ → List Inode → ℕ
refs dev inum [] = 0
refs dev inum (inode ∷ rest) = refs_at dev inum inode + refs dev inum rest

-- No inode is in use in two places.
abbrev pub Apart : List Inode → Type 0
Apart [] = Unit {0}
Apart (inode ∷ rest) = ((inode.ref ≡ 0) ⊎ (refs inode.dev inode.inum rest ≡ 0)) × Apart rest

find_inode-nil : (dev inum : ℕ) → find_inode dev inum [] ≡ none
unfolding find_inode
find_inode-nil dev inum = refl

find_inode-head :
    (dev inum : ℕ) (inode : Inode) (rest : List Inode)
    → (ltb 0 inode.ref && is_inode dev inum inode) ≡ true
    → find_inode dev inum (inode ∷ rest) ≡ some 0
unfolding find_inode
find_inode-head dev inum inode rest t = if_true _ _ t

find_inode-tail :
    (dev inum : ℕ) (inode : Inode) (rest : List Inode)
    → (ltb 0 inode.ref && is_inode dev inum inode) ≡ false
    → find_inode dev inum (inode ∷ rest) ≡ Option.map suc (find_inode dev inum rest)
unfolding find_inode
find_inode-tail dev inum inode rest t = if_false _ _ t

-- Where the loop finds nothing there is no reference.
find_inode-none :
    (dev inum : ℕ) (inodes : List Inode)
    → find_inode dev inum inodes ≡ none
    → refs dev inum inodes ≡ 0
find_inode-none dev inum [] e = refl
find_inode-none dev inum (inode ∷ rest) e =
    elim (Bool-cases (ltb 0 inode.ref && is_inode dev inum inode)) [
      | inl t ↦ absurd (omega (arith, ap code (sym (find_inode-head dev inum inode rest t) ∙ e)))
      | inr t ↦ elim (Option-cases (find_inode dev inum rest)) [
        | inl e' ↦ let ih = find_inode-none dev inum rest e' in ground (arith, t, ih)
        | inr (i, e') ↦ absurd (
            omega (
              arith,
              ap code
                  (sym (ap (Option.map suc) e') ∙ sym (find_inode-tail dev inum inode rest t) ∙ e),
            ))
      ]
    ]

-- One reference more to the inode at place `i`, in a cache that stays good.
pub record Referenced (dev inum i : ℕ) (inodes inodes' : List Inode) : Type 0 where
  pub here : Option.map (is_inode dev inum) (get_elem? inodes' i) ≡ some true
  pub apart : Apart inodes'
  pub counted : refs dev inum inodes' ≡ refs dev inum inodes + 1
  pub others :
      (dev' inum' : ℕ)
      → (dev' ≢ dev) ⊎ (inum' ≢ inum)
      → refs dev' inum' inodes' ≡ refs dev' inum' inodes

same_key :
    (dev inum dev' inum' : ℕ) → ((dev' ≢ dev) ⊎ (inum' ≢ inum)) ⊎ ((dev' ≡ dev) × (inum' ≡ inum))
same_key dev inum dev' inum' = elim (ℕ_discrete dev' dev) [
  | no ne ↦ inl (inl ne)
  | yes e ↦ elim (ℕ_discrete inum' inum) [ no ne ↦ inl (inr ne) | yes e' ↦ inr (e, e') ]
]

refs_same :
    (dev inum dev' inum' : ℕ) (inodes : List Inode)
    → dev' ≡ dev
    → inum' ≡ inum
    → refs dev' inum' inodes ≡ refs dev inum inodes
refs_same dev inum dev' inum' inodes e e' =
    ap (λ x. refs x inum' inodes) e ∙ ap (λ x. refs dev x inodes) e'

-- An inode that is kept in front of a cache with one reference more.
Referenced-cons :
    (dev inum i : ℕ) (inode : Inode) (rest rest' : List Inode)
    → Apart (inode ∷ rest)
    → (1 ≤ refs dev inum rest) ⊎ (refs_at dev inum inode ≡ 0)
    → Referenced dev inum i rest rest'
    → Referenced dev inum (suc i) (inode ∷ rest) (inode ∷ rest')
Referenced-cons dev inum i inode rest rest' (here, later) known r = record {
  here = r.here;
  apart = (
    elim here [
      | inl z ↦ inl z
      | inr z ↦ elim (same_key dev inum inode.dev inode.inum) [
        | inl ne ↦ inr (r.others inode.dev inode.inum ne ∙ z)
        | inr (e, e') ↦ elim known [
          | inl pos ↦
              absurd (omega (arith, z, refs_same dev inum inode.dev inode.inum rest e e', pos))
          | inr unused ↦ inl (ground (arith, unused, e, e'))
        ]
      ]
    ],
    r.apart,
  );
  counted = omega (arith, r.counted);
  others = λ dev' inum' ne. ap (λ x. refs_at dev' inum' inode + x) (r.others dev' inum' ne);
}

found-Referenced :
    (dev inum : ℕ) (inodes : List Inode) (i : ℕ)
    → find_inode dev inum inodes ≡ some i
    → Apart inodes
    → refs dev inum inodes + 1 < u32_mod
    → (1 ≤ refs dev inum inodes) × Referenced dev inum i inodes (update i add_ref inodes)
found-Referenced dev inum [] i e a small =
    absurd (omega (arith, ap code (sym (find_inode-nil dev inum) ∙ e)))
found-Referenced dev inum (inode ∷ rest) i e (here, later) small =
    elim (Bool-cases (ltb 0 inode.ref && is_inode dev inum inode)) [
      | inl t ↦
          let first : i ≡ 0 =
            omega (arith, ap code (sym e ∙ find_inode-head dev inum inode rest t)) in
          let alone : refs inode.dev inode.inum rest ≡ 0 = elim here [
            | inl z ↦ absurd (ground (arith, t, z))
            | inr z ↦ z
          ] in
          (
            ground (arith, t),
            subst (λ x. Referenced dev inum x (inode ∷ rest) (update x add_ref (inode ∷ rest)))
                (sym first)
                (record {
                  here = ground (arith, t);
                  apart = (inr alone, later);
                  counted = ground (arith, t, small);
                  others = λ dev' inum' ne. ground (arith, t, ne);
                }),
          )
      | inr t ↦ elim (Option-cases (find_inode dev inum rest)) [
        | inl e' ↦ absurd (
            omega (
              arith,
              ap code
                  (sym (ap (Option.map suc) e') ∙ sym (find_inode-tail dev inum inode rest t) ∙ e),
            ))
        | inr (j, e') ↦
            let next : i ≡ suc j = omega (
              arith,
              ap code
                  (sym (ap (Option.map suc) e') ∙ sym (find_inode-tail dev inum inode rest t) ∙ e),
            ) in
            let (pos, r) = found-Referenced dev inum rest j e' later (omega arith) in
            (
              omega (arith, pos),
              subst (λ x. Referenced dev inum x (inode ∷ rest) (update x add_ref (inode ∷ rest)))
                  (sym next)
                  (Referenced-cons dev inum j inode rest (update j add_ref rest) (here, later)
                    (inl pos) r),
            )
      ]
    ]

find_empty-nil : find_empty [] ≡ none
unfolding find_empty
find_empty-nil = refl

find_empty-head :
    (inode : Inode) (rest : List Inode)
    → (inode.ref == 0) ≡ true
    → find_empty (inode ∷ rest) ≡ some 0
unfolding find_empty
find_empty-head inode rest t = if_true _ _ t

find_empty-tail :
    (inode : Inode) (rest : List Inode)
    → (inode.ref == 0) ≡ false
    → find_empty (inode ∷ rest) ≡ Option.map suc (find_empty rest)
unfolding find_empty
find_empty-tail inode rest t = if_false _ _ t

empty-Referenced :
    (dev inum : ℕ) (inodes : List Inode) (i : ℕ)
    → find_empty inodes ≡ some i
    → Apart inodes
    → refs dev inum inodes ≡ 0
    → Referenced dev inum i inodes (update i (claimed dev inum) inodes)
empty-Referenced dev inum [] i e a z = absurd (omega (arith, ap code (sym find_empty-nil ∙ e)))
empty-Referenced dev inum (inode ∷ rest) i e (here, later) z = elim (Bool-cases (inode.ref == 0)) [
  | inl t ↦
      let first : i ≡ 0 = omega (arith, ap code (sym e ∙ find_empty-head inode rest t)) in
      subst (λ x. Referenced dev inum x (inode ∷ rest) (update x (claimed dev inum) (inode ∷ rest)))
        (sym first)
        (record {
          here = ground (arith, t);
          apart = (inr (omega (arith, z)), later);
          counted = ground (arith, z);
          others = λ dev' inum' ne. ground (arith, t, ne);
        })
  | inr t ↦ elim (Option-cases (find_empty rest)) [
    | inl e' ↦ absurd (
        omega
          (arith, ap code (sym (ap (Option.map suc) e') ∙ sym (find_empty-tail inode rest t) ∙ e)))
    | inr (j, e') ↦
        let next : i ≡ suc j = omega (
          arith,
          ap code (sym (ap (Option.map suc) e') ∙ sym (find_empty-tail inode rest t) ∙ e),
        ) in
        let r = empty-Referenced dev inum rest j e' later (omega (arith, z)) in
        subst
          (λ x. Referenced dev inum x (inode ∷ rest) (update x (claimed dev inum) (inode ∷ rest)))
          (sym next)
          (Referenced-cons dev inum j inode rest (update j (claimed dev inum) rest) (here, later)
            (inr (omega (arith, z))) r)
  ]
]

-- Every place of the cache is in use.
abbrev pub AllUsed : List Inode → Type 0
AllUsed [] = Unit {0}
AllUsed (inode ∷ rest) = (1 ≤ inode.ref) × AllUsed rest

find_empty-AllUsed : (inodes : List Inode) → find_empty inodes ≡ none → AllUsed inodes
find_empty-AllUsed [] e = tt
find_empty-AllUsed (inode ∷ rest) e = elim (Bool-cases (inode.ref == 0)) [
  | inl t ↦ absurd (omega (arith, ap code (sym (find_empty-head inode rest t) ∙ e)))
  | inr t ↦ elim (Option-cases (find_empty rest)) [
    | inl e' ↦ ((let h : 1 ≤ inode.ref = ground arith in h), find_empty-AllUsed rest e')
    | inr (i, e') ↦ absurd (
        omega
          (arith, ap code (sym (ap (Option.map suc) e') ∙ sym (find_empty-tail inode rest t) ∙ e)))
  ]
]

-- Where no inode is in use in two places and the count does not wrap, `get_inode` keeps every inode that is in use in one place of the cache. It returns a place that holds the
-- inode, which has one reference more, while every other inode has as many as before; it returns NULL
-- only where the inode has no reference and no place is empty, and then changes nothing.
pub get_inode-Referenced :
    (dev inum : ℕ) (inodes : List Inode)
    → Apart inodes
    → refs dev inum inodes + 1 < u32_mod
    → ((i : ℕ) × (inodes' : List Inode) × (get_inode dev inum inodes ≡ (some i, inodes'))
        × Referenced dev inum i inodes inodes')
      ⊎ ((get_inode dev inum inodes ≡ (none, inodes)) × (refs dev inum inodes ≡ 0) × AllUsed inodes)
unfolding get_inode get_found
get_inode-Referenced dev inum inodes a small = elim (Option-cases (find_inode dev inum inodes)) [
  | inr (i, e) ↦ inl (
    i,
    update i add_ref inodes,
    rw (e, get_found) refl,
    (found-Referenced dev inum inodes i e a small).1,
  )
  | inl e ↦
      let unused = find_inode-none dev inum inodes e in
      elim (Option-cases (find_empty inodes)) [
        | inr (i, e') ↦ inl (
          i,
          update i (claimed dev inum) inodes,
          rw (e, e', get_found) refl,
          empty-Referenced dev inum inodes i e' a unused,
        )
        | inl e' ↦ inr (rw (e, e', get_found) refl, unused, find_empty-AllUsed inodes e')
      ]
]
