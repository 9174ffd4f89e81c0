-- ===== src/Mm/Alloc.antt =====
-- `expand` and `alloc_pages` of src/mm.cc.
use babyos.Prelude.{
  ℕ, zero, suc, ◌+◌, ◌-◌, ◌/◌, ◌^◌, ◌≤◌, ◌<◌, ◌≡◌, refl, ◌∙◌, sym, ap, subst, Option, none, some,
  List, [], ◌∷◌, arith, ℕ_discrete, ◌⊎◌, inl, inr, sub32, length, dec_lt,
}
use babyos.Mm.{
  Mm, max_order, shift_right, shift_left, change_bit, mark_used, expand_split, expand, inc_refs,
  alloc_round, alloc_search, alloc_pages,
}
use babyos.Mm.Blocks.{same, count}
use babyos.Mm.Expand.{
  inside, Taken, expand_split-Split, inc_refs-lists, inc_refs-ref, expand_split-ref, change_bit-ref,
}
use babyos.Mm.Cover.{IsValid, cover, Outside, transport-IsValid, transport-cover}
use babyos.Mm.Mark.{with_list, mark_take-cover, mark_take-IsValid}

List-cases : (l : List ℕ) → (l ≡ []) ⊎ ((x : ℕ) × (rest : List ℕ) × (l ≡ x ∷ rest))
List-cases [] = inl refl
List-cases (x ∷ rest) = inr (x, rest, refl)

-- The first block of a list is taken and split down to the order that is asked for.
round_first :
    (m : Mm) (order k next : ℕ) (rest : List ℕ) (more : Option ℕ × Mm)
    → order ≤ k
    → k ≤ max_order
    → IsValid m
    → m.free_list k ≡ next ∷ rest
    → (block : ℕ) × (m' : Mm) × (alloc_round (next ∷ rest) order k m more
        ≡ (some (shift_left order block), m'))
      × Taken m order block m'
unfolding alloc_round expand mark_used
round_first m order k next rest more h h' v e =
    let taken : (x : ℕ) → count x rest + same x next ≡ count x (m.free_list k) =
      λ x. rw e (omega arith) in
    let v0 = mark_take-IsValid m k next rest h' v taken in
    let m0 = change_bit k (next / 2) (with_list k rest m) in
    let c0 : (page : ℕ) → cover m0 page + same (shift_right k page) next ≡ cover m page =
      mark_take-cover m k next rest h' taken in
    let up : order + (k - order) ≡ k = omega arith in
    let out : Outside m0 (order + (k - order)) next = λ page q.
      let q' : shift_right k page ≡ next = subst (λ x. shift_right x page ≡ next) up q in
      ground (arith, c0 page, v.covered page, q') in
    let s = expand_split-Split (k - order) order next m0 (omega arith) v0 out in
    let r = expand_split (k - order) order next m0 in
    let (el, eb) = inc_refs-lists (2 ^ order) (shift_left order r.0) r.1 in
    (
      r.0,
      inc_refs (2 ^ order) (shift_left order r.0) r.1,
      refl,
      record {
        valid = transport-IsValid _ _ el eb s.valid;
        cover_eq = λ page. omega (
          arith,
          transport-cover r.1 (inc_refs (2 ^ order) (shift_left order r.0) r.1) el page,
          s.cover_eq page,
          c0 page,
          ap (λ x. same (shift_right x page) next) up,
        );
        refs = λ page.
            inc_refs-ref (2 ^ order) (shift_left order r.0) r.1 page
            ∙ ap (λ f. f page + inside (2 ^ order) (shift_left order r.0) page)
                (expand_split-ref (k - order) order next m0
                  ∙ change_bit-ref k (next / 2) (with_list k rest m));
      },
    )

-- No list from `order` on has a block.
abbrev pub NoneFrom : Mm → ℕ → Type 0
NoneFrom m order = (k : ℕ) → (k < order) ⊎ (max_order < k) ⊎ (m.free_list k ≡ [])

NoneFrom-suc : (m : Mm) (k : ℕ) → m.free_list k ≡ [] → NoneFrom m (suc k) → NoneFrom m k
NoneFrom-suc m k e n i = elim (n i) [
  | inl q ↦ elim (ℕ_discrete i k) [ yes q' ↦ rw q' (inr (inr e)) | no q' ↦ inl (omega arith) ]
  | inr q ↦ inr q
]

alloc_search-Outcome :
    (rounds order new_order : ℕ) (m : Mm)
    → new_order + rounds ≡ suc max_order
    → order ≤ new_order
    → IsValid m
    → ((alloc_search rounds order new_order m ≡ (none, m)) × NoneFrom m new_order)
      ⊎ ((block : ℕ) × (m' : Mm) × (alloc_search rounds order new_order m
            ≡ (some (shift_left order block), m'))
          × Taken m order block m'
          × ¬ NoneFrom m new_order)
unfolding alloc_search alloc_round
alloc_search-Outcome zero order new_order m h h' v =
    inl (refl, λ k. elim (dec_lt k new_order) [ yes q ↦ inl q | no q ↦ inr (inl (omega arith)) ])
alloc_search-Outcome (suc rounds) order new_order m h h' v =
    elim (List-cases (m.free_list new_order)) [
      | inl e ↦
          elim (alloc_search-Outcome rounds order (suc new_order) m (omega arith) (omega arith) v) [
            | inl (f, n) ↦ inl (rw e f, NoneFrom-suc m new_order e n)
            | inr (block, m', f, t, some_left) ↦ inr (
              block,
              m',
              rw e f,
              t,
              λ n. some_left (λ k. elim (n k) [ inl q ↦ inl (omega arith) | inr q ↦ inr q ]),
            )
          ]
      | inr (next, rest, e) ↦
          let (block, m', f, t) =
            round_first m order new_order next rest (alloc_search rounds order (suc new_order) m) h'
              (omega arith) v e in
          inr (
            block,
            m',
            rw e f,
            t,
            λ n. elim (n new_order) [
              | inl q ↦ omega arith
              | inr (inl q) ↦ omega arith
              | inr (inr q) ↦ omega (arith, ap length (sym q ∙ e))
            ],
          )
    ]

-- `alloc_pages` returns NULL only where no list from the order on has a block. Else it returns the
-- first page of a block of that order all of whose pages were free, and after it exactly the other
-- pages are free, and the lists and maps are sound.
pub alloc_pages_takes :
    (order : ℕ) (m : Mm)
    → order ≤ max_order
    → IsValid m
    → (((alloc_pages order m).0 ≡ none) × NoneFrom m order)
      ⊎ ((block : ℕ) × (m' : Mm) × (alloc_pages order m ≡ (some (shift_left order block), m'))
          × Taken m order block m'
          × ¬ NoneFrom m order)
unfolding alloc_pages
alloc_pages_takes order m h v =
    let m0 : Mm = record m { free_page_num = sub32 m.free_page_num (2 ^ order) } in
    let v0 : IsValid m0 = transport-IsValid m m0 refl refl v in
    elim (alloc_search-Outcome (suc max_order - order) order order m0 (omega arith) (omega arith)
      v0) [
        | inl (e, n) ↦ inl (ap (λ r. r.0) e, n)
        | inr (block, m', e, t, n) ↦ inr (
          block,
          m',
          e,
          record {
            valid = t.valid;
            cover_eq = λ page. t.cover_eq page ∙ transport-cover m m0 refl page;
            refs = t.refs;
          },
          n,
        )
      ]
