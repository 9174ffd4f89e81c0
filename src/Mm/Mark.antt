-- ===== src/Mm/Mark.antt =====
-- How the operations of src/mm.cc change a free list together with the bit of the pair.
use babyos.Prelude.{
  ℕ, suc, ◌+◌, ◌*◌, ◌/◌, ◌≤◌, ◌<◌, ◌≡◌, ◌≢◌, subst, Bool, true, false, not, List, ◌∷◌, arith,
  ℕ_discrete,
}
use babyos.Mm.{Mm, max_order, update, shift_right, add_to_head, change_bit}
use babyos.Mm.Blocks.{same, count, update_self, update_ne}
use babyos.Mm.Cover.{IsValid, bit, pair, cover, cover_below-update, Outside}

-- The lists with one of them replaced, as the operations of the code leave them.
abbrev pub with_list : ℕ → List ℕ → Mm → Mm
with_list k l m = record m { free_list = update m.free_list k l }

pub bit_le : (b : Bool) → bit b ≤ 1
bit_le true = omega arith
bit_le false = omega arith

pub bit-not : (b : Bool) (x y : ℕ) → bit b ≡ y → x + y ≡ 1 → bit (not b) ≡ x
bit-not true x y e h = omega arith
bit-not false x y e h = omega arith

-- A list changed by one entry, together with the bit of its pair.
pub change_bit-bits :
    (m : Mm) (k j : ℕ) (l : List ℕ)
    → IsValid m
    → ((i : ℕ) → i ≢ j → pair i l ≡ pair i (m.free_list k))
    → (k < max_order → pair j l + pair j (m.free_list k) ≡ 1)
    → (k' j' : ℕ) → k' < max_order
    → bit ((change_bit k j (with_list k l m)).bitmap k' j')
      ≡ pair j' ((with_list k l m).free_list k')
unfolding change_bit
change_bit-bits m k j l v others this k' j' h = elim (ℕ_discrete k' k) [
  | no ne ↦
      rw
        (
          update_ne m.bitmap k (update (m.bitmap k) j (not (m.bitmap k j))) k' ne,
          update_ne m.free_list k l k' ne,
        )
        (v.bits k' j' h)
  | yes e ↦ elim (ℕ_discrete j' j) [
    | yes e' ↦
        rw
          (
            e,
            e',
            update_self m.bitmap k (update (m.bitmap k) j (not (m.bitmap k j))),
            update_self (m.bitmap k) j (not (m.bitmap k j)),
            update_self m.free_list k l,
          )
          (bit-not (m.bitmap k j) _ _ (v.bits k j (subst (λ x. x < max_order) e h))
            (this (subst (λ x. x < max_order) e h)))
    | no ne ↦
        rw
          (
            e,
            update_self m.bitmap k (update (m.bitmap k) j (not (m.bitmap k j))),
            update_ne (m.bitmap k) j (not (m.bitmap k j)) j' ne,
            update_self m.free_list k l,
            others j' ne,
          )
          (v.bits k j' (subst (λ x. x < max_order) e h))
  ]
]

-- The cover after a list is changed, and the two ways the code changes one with its bit.
pub cover-with_list :
    (m : Mm) (k : ℕ) (l : List ℕ) (page : ℕ)
    → k ≤ max_order
    → cover (with_list k l m) page + count (shift_right k page) (m.free_list k)
      ≡ cover m page + count (shift_right k page) l
unfolding cover
cover-with_list m k l page h = cover_below-update (suc max_order) m.free_list k l page (omega arith)

pub pair-cons : (j e : ℕ) (l : List ℕ) → pair j (e ∷ l) ≡ pair j l + same (e / 2) j
pair-cons j e l = ground arith

pub Outside-same :
    (m : Mm) (k e : ℕ)
    → IsValid m
    → Outside m k e
    → (page : ℕ) → cover m page + same (shift_right k page) e ≤ 1
Outside-same m k e v out page = elim (ℕ_discrete (shift_right k page) e) [
  | yes q ↦ ground (arith, out page q)
  | no q ↦ ground (arith, v.covered page)
]

-- A block that becomes free while its buddy is not.
pub mark_add-IsValid :
    (m : Mm) (k e : ℕ)
    → k ≤ max_order
    → IsValid m
    → Outside m k e
    → (k < max_order → pair (e / 2) (m.free_list k) ≡ 0)
    → IsValid (change_bit k (e / 2) (add_to_head k e m))
unfolding add_to_head change_bit cover
mark_add-IsValid m k e h v out p = record {
  covered = λ page.
      omega (arith, cover-with_list m k (e ∷ m.free_list k) page h, Outside-same m k e v out page);
  bits =
      change_bit-bits m k (e / 2) (e ∷ m.free_list k) v
        (λ i ne. ground (arith, pair-cons i e (m.free_list k)))
        (λ lt. ground (arith, pair-cons (e / 2) e (m.free_list k), p lt));
}

pub mark_add-cover :
    (m : Mm) (k e : ℕ)
    → k ≤ max_order
    → (page : ℕ)
    → cover (change_bit k (e / 2) (add_to_head k e m)) page
      ≡ cover m page + same (shift_right k page) e
unfolding add_to_head change_bit cover
mark_add-cover m k e h page = omega (arith, cover-with_list m k (e ∷ m.free_list k) page h)

pub mark_take-cover :
    (m : Mm) (k e : ℕ) (l : List ℕ)
    → k ≤ max_order
    → ((x : ℕ) → count x l + same x e ≡ count x (m.free_list k))
    → (page : ℕ)
    → cover (change_bit k (e / 2) (with_list k l m)) page + same (shift_right k page) e
      ≡ cover m page
unfolding change_bit cover
mark_take-cover m k e l h taken page =
    omega (arith, cover-with_list m k l page h, taken (shift_right k page))

-- A free block whose buddy is not free is taken out of its list.
pub mark_take-IsValid :
    (m : Mm) (k e : ℕ) (l : List ℕ)
    → k ≤ max_order
    → IsValid m
    → ((x : ℕ) → count x l + same x e ≡ count x (m.free_list k))
    → IsValid (change_bit k (e / 2) (with_list k l m))
unfolding change_bit cover
mark_take-IsValid m k e l h v taken = record {
  covered = λ page.
      omega (arith, cover-with_list m k l page h, v.covered page, taken (shift_right k page));
  bits =
      change_bit-bits m k (e / 2) l v (λ i ne. ground (arith, taken (2 * i), taken (2 * i + 1)))
        (λ lt. ground (
          arith,
          taken (2 * (e / 2)),
          taken (2 * (e / 2) + 1),
          v.bits k (e / 2) lt,
          bit_le (m.bitmap k (e / 2)),
        ));
}
