-- ===== src/Mm/Free.antt =====
-- `free_pages` of src/mm.cc: the merging of buddies.
use babyos.Prelude.{
  ℕ, zero, suc, ◌+◌, ◌-◌, ◌/◌, ◌^◌, ◌≤◌, ◌<◌, ◌≡◌, refl, ◌∙◌, sym, ap, subst, true, false, none,
  some, ◌∷◌, ◌==◌, arith, ℕ_discrete, ◌⊎◌, inl, inr, Bool-cases, if_true, if_false, add32, leb,
}
use babyos.Mm.{
  Mm, max_order, update, shift_right, unlink, add_to_head, remove_head, change_bit, get_buddy,
  free_merge, free_pages,
}
use babyos.Mm.Blocks.{
  same, update_self, update_ne, half-get_buddy, count-get_buddy, count, count-unlink,
  same-get_buddy,
}
use babyos.Mm.Cover.{
  IsValid, bit, pair, cover, Outside, Outside-count, transport-IsValid, transport-cover,
}
use babyos.Mm.Mark.{
  Outside-same, with_list, cover-with_list, mark_add-cover, mark_add-IsValid, mark_take-cover,
  mark_take-IsValid,
}

-- What putting a block back into `m` comes to.
pub record Returned (m : Mm) (order block : ℕ) (m' : Mm) : Type 0 where
  pub valid : IsValid m'
  pub cover_eq : (page : ℕ) → cover m' page ≡ cover m page + same (shift_right order page) block

-- A block of the largest order goes to its list; there is no map of that order to keep.
add_top :
    (m : Mm) (k e : ℕ)
    → k ≡ max_order
    → IsValid m
    → Outside m k e
    → Returned m k e (add_to_head k e m)
unfolding add_to_head
add_top m k e h v out = record {
  valid = record {
    covered = λ page. omega (
      arith,
      cover-with_list m k (e ∷ m.free_list k) page (omega arith),
      Outside-same m k e v out page,
    );
    bits = λ k' j lt.
        rw (update_ne m.free_list k (e ∷ m.free_list k) k' (omega arith)) (v.bits k' j lt);
  };
  cover_eq = λ page. omega (arith, cover-with_list m k (e ∷ m.free_list k) page (omega arith));
}

add_mark :
    (m : Mm) (k e : ℕ)
    → k < max_order
    → IsValid m
    → Outside m k e
    → m.bitmap k (e / 2) ≡ false
    → Returned m k e (add_to_head k e (change_bit k (e / 2) m))
unfolding add_to_head change_bit
add_mark m k e h v out b =
    let none_free : pair (e / 2) (m.free_list k) ≡ 0 = sym (v.bits k (e / 2) h) ∙ ap bit b in
    record {
      valid = mark_add-IsValid m k e (omega arith) v out (λ lt. none_free);
      cover_eq = mark_add-cover m k e (omega arith);
    }

-- The buddy of a block that is in use is taken out of its list when the bit of the two is set.
take_buddy :
    (m : Mm) (k e : ℕ)
    → k < max_order
    → IsValid m
    → Outside m k e
    → m.bitmap k (e / 2) ≡ true
    → (let m' = remove_head k (get_buddy e) (change_bit k (e / 2) m) in
        IsValid m'
        × Outside m' (suc k) (e / 2)
        × ((page : ℕ) → cover m' page + same (shift_right k page) (get_buddy e) ≡ cover m page))
unfolding remove_head change_bit shift_right
take_buddy m k e h v out b =
    let one_free : pair (e / 2) (m.free_list k) ≡ 1 = sym (v.bits k (e / 2) h) ∙ ap bit b in
    let buddy_free : 1 ≤ count (get_buddy e) (m.free_list k) =
      omega (
        arith,
        one_free,
        count-get_buddy e (m.free_list k),
        Outside-count m k e (omega arith) out,
      ) in
    let l = unlink (get_buddy e) (m.free_list k) in
    let taken : (x : ℕ) → count x l + same x (get_buddy e) ≡ count x (m.free_list k) =
      λ x. count-unlink x (get_buddy e) (m.free_list k) buddy_free in
    let c : (page : ℕ)
        → cover (change_bit k (e / 2) (with_list k l m)) page
            + same (shift_right k page) (get_buddy e)
          ≡ cover m page =
      subst
        (λ i.
          (page : ℕ)
          → cover (change_bit k i (with_list k l m)) page + same (shift_right k page) (get_buddy e)
            ≡ cover m page)
        (half-get_buddy e) (mark_take-cover m k (get_buddy e) l (omega arith) taken) in
    (
      subst (λ i. IsValid (change_bit k i (with_list k l m))) (half-get_buddy e)
          (mark_take-IsValid m k (get_buddy e) l (omega arith) v taken),
      λ page q. elim (ℕ_discrete (shift_right k page) e) [
        | yes q' ↦ omega (arith, c page, out page q')
        | no q' ↦ ground (arith, c page, v.covered page, same-get_buddy (shift_right k page) e, q)
      ],
      c,
    )

free_merge-Returned :
    (rounds order entry : ℕ) (m : Mm)
    → order + rounds ≡ max_order
    → IsValid m
    → Outside m order entry
    → Returned m order entry (free_merge rounds order entry m)
unfolding free_merge shift_right
free_merge-Returned zero order entry m h v out = add_top m order entry (omega arith) v out
free_merge-Returned (suc rounds) order entry m h v out =
    elim (Bool-cases (m.bitmap order (entry / 2))) [
      | inl b ↦
          let (v', out', c) = take_buddy m order entry (omega arith) v out b in
          let r =
            free_merge-Returned rounds (suc order) (entry / 2)
              (remove_head order (get_buddy entry) (change_bit order (entry / 2) m)) (omega arith)
              v' out' in
          rw b (record {
            valid = r.valid;
            cover_eq = λ page.
                omega
                  (arith, r.cover_eq page, c page, same-get_buddy (shift_right order page) entry);
          })
      | inr b ↦ rw b (add_mark m order entry (omega arith) v out b)
    ]

free_merge-ref : (rounds order entry : ℕ) (m : Mm) → (free_merge rounds order entry m).ref ≡ m.ref
unfolding free_merge add_to_head remove_head change_bit
free_merge-ref zero order entry m = refl
free_merge-ref (suc rounds) order entry m = elim (Bool-cases (m.bitmap order (entry / 2))) [
  | inl b ↦ rw b (free_merge-ref rounds (suc order) (entry / 2) _)
  | inr b ↦ rw b refl
]

-- The count of one page lowered.
abbrev pub lowered : ℕ → Mm → ℕ → ℕ
lowered page m = update m.ref page (m.ref page - 1)

-- A block that can be given back: it has an order that exists, the lists and maps are sound, and no page of
-- it is free.
pub record Freeable (m : Mm) (page order : ℕ) : Type 0 where
  pub small : order ≤ max_order
  pub valid : IsValid m
  pub outside : Outside m order (shift_right order page)

-- In any state, `free_pages` of a page whose count is 0 panics, also where the page is free, and with a count above 1 it
-- only lowers the count. Of a page with one reference, at the start of a block of an existing order in a sound
-- state of which no page is free, it lowers the count and leaves a sound state in which the pages of the block are free
-- besides those that were.
pub free_pages_returns :
    (page order : ℕ) (m : Mm)
    → (m.ref page ≡ 1 → Freeable m page order)
    → ((m.ref page ≡ 0) × (free_pages page order m ≡ none))
      ⊎ ((1 < m.ref page) × (free_pages page order m ≡ some (record m { ref = lowered page m })))
      ⊎ ((m.ref page ≡ 1)
          × (m' : Mm) × (free_pages page order m ≡ some m')
          × Returned m order (shift_right order page) m'
          × (m'.ref ≡ lowered page m))
unfolding free_pages
free_pages_returns page order m good = elim (ℕ_discrete (m.ref page) 0) [
  | yes z ↦ inl (z, if_true _ _ (let t : leb (m.ref page) 0 ≡ true = ground arith in t))
  | no z ↦
      let some_ref : leb (m.ref page) 0 ≡ false = ground arith in
      let now : lowered page m page ≡ m.ref page - 1 = update_self m.ref page (m.ref page - 1) in
      elim (ℕ_discrete (m.ref page) 1) [
        | no o ↦
            let shared : (lowered page m page == 0) ≡ false = ground arith in
            inr (inl (omega arith, if_false _ _ some_ref ∙ if_false _ _ shared))
        | yes o ↦
            let block = good o in
            let h = block.small in
            let v = block.valid in
            let out = block.outside in
            let last : (lowered page m page == 0) ≡ true = ground arith in
            let m0 : Mm = record m {
              ref = lowered page m;
              free_page_num = add32 m.free_page_num (2 ^ order);
            } in
            let r =
              free_merge-Returned (max_order - order) order (shift_right order page) m0
                (omega arith) (transport-IsValid m m0 refl refl v)
                (λ p q. transport-cover m m0 refl p ∙ out p q) in
            inr (
              inr (
                o,
                free_merge (max_order - order) order (shift_right order page) m0,
                if_false _ _ some_ref ∙ if_true _ _ last,
                record {
                  valid = r.valid;
                  cover_eq = λ p.
                      r.cover_eq p
                      ∙ ap (λ x. x + same (shift_right order p) (shift_right order page))
                          (transport-cover m m0 refl p);
                },
                free_merge-ref (max_order - order) order (shift_right order page) m0,
              ))
      ]
]
