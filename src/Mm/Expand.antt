-- ===== src/Mm/Expand.antt =====
-- `expand` of src/mm.cc: a block split down to the order asked for, and the counts of its pages.
use babyos.Prelude.{
  ℕ, zero, suc, ◌+◌, ◌*◌, ◌/◌, ◌^◌, ◌≤◌, ◌<◌, ◌≡◌, refl, ap, subst, arith, ℕ_discrete,
}
use babyos.Mm.{
  Mm, max_order, shift_right, shift_left, add_to_head, change_bit, mark_used, expand_split,
  inc_refs, inc_page_ref,
}
use babyos.Mm.Blocks.{same, update_self, update_ne, count, same_halves}
use babyos.Mm.Cover.{IsValid, cover, Outside, Outside-pair}
use babyos.Mm.Mark.{mark_add-cover, mark_add-IsValid}

-- 1 for the pages of a run of `n` from `first` on.
abbrev pub inside : ℕ → ℕ → ℕ → ℕ
inside zero first page = 0
inside (suc n) first page = same page first + inside n (first + 1) page

-- What taking a block of `order` out of `m` leaves: its pages are free no more, and each of them
-- has one reference more.
pub record Taken (m : Mm) (order block : ℕ) (m' : Mm) : Type 0 where
  pub valid : IsValid m'
  pub cover_eq : (page : ℕ) → cover m' page + same (shift_right order page) block ≡ cover m page
  pub refs :
      (page : ℕ) → m'.ref page ≡ m.ref page + inside (2 ^ order) (shift_left order block) page

-- A block that is no one's is split: the part kept is no one's, the rest is free.
pub record Split (m : Mm) (high addr low : ℕ) (r : ℕ × Mm) : Type 0 where
  pub valid : IsValid r.1
  pub cover_eq :
      (page : ℕ)
      → cover r.1 page + same (shift_right low page) r.0
        ≡ cover m page + same (shift_right high page) addr

pub split_half :
    (m : Mm) (k addr : ℕ)
    → k < max_order
    → IsValid m
    → Outside m (suc k) addr
    → (let m' = mark_used (2 * addr) k (add_to_head k (2 * addr) m) in
        IsValid m'
        × Outside m' k (2 * addr + 1)
        × ((page : ℕ) → cover m' page ≡ cover m page + same (shift_right k page) (2 * addr)))
unfolding mark_used shift_right
split_half m k addr h v out =
    let half : Outside m k (2 * addr) = λ page e. out page (omega (arith, e)) in
    (
      mark_add-IsValid m k (2 * addr) (omega arith) v half (λ lt.
          subst (λ x. count (2 * x) (m.free_list k) + count (2 * x + 1) (m.free_list k) ≡ 0)
            {x = addr} (omega arith) (Outside-pair m k addr (omega arith) out)),
      λ page e.
          ground (
            arith,
            mark_add-cover m k (2 * addr) (omega arith) page,
            out page (omega (arith, e)),
            e,
          ),
      mark_add-cover m k (2 * addr) (omega arith),
    )

pub shift_right-suc : (k n page : ℕ) → shift_right (k + suc n) page ≡ shift_right (k + n) page / 2
unfolding shift_right
shift_right-suc k n page =
    ap (λ x. shift_right x page) (let e : k + suc n ≡ suc (k + n) = omega arith in e)

pub expand_split-Split :
    (n low addr : ℕ) (m : Mm)
    → low + n ≤ max_order
    → IsValid m
    → Outside m (low + n) addr
    → Split m (low + n) addr low (expand_split n low addr m)
unfolding expand_split
expand_split-Split zero low addr m h v out = record {
  valid = v;
  cover_eq = λ page.
      ap (λ k. cover m page + same (shift_right k page) addr)
        (let e : low ≡ low + 0 = omega arith in e);
}
expand_split-Split (suc n) low addr m h v out =
    let out0 : Outside m (suc (low + n)) addr =
      subst (λ k. Outside m k addr) (let e : low + suc n ≡ suc (low + n) = omega arith in e) out in
    let (v', out', c) = split_half m (low + n) addr (omega arith) v out0 in
    let s = expand_split-Split n low (2 * addr + 1) _ (omega arith) v' out' in
    record {
      valid = s.valid;
      cover_eq = λ page.
          rw (shift_right-suc low n page)
            (omega (arith, s.cover_eq page, c page, same_halves (shift_right (low + n) page) addr));
    }

pub inc_refs-lists :
    (n page : ℕ) (m : Mm)
    → ((inc_refs n page m).free_list ≡ m.free_list) × ((inc_refs n page m).bitmap ≡ m.bitmap)
unfolding inc_refs inc_page_ref
inc_refs-lists zero page m = (refl, refl)
inc_refs-lists (suc n) page m = inc_refs-lists n (page + 1) (inc_page_ref page m)

pub one_more :
    (first : ℕ) (m : Mm) (page : ℕ) → (inc_page_ref first m).ref page ≡ m.ref page + same page first
unfolding inc_page_ref
one_more first m page = elim (ℕ_discrete page first) [
  | yes q ↦ rw (q, update_self m.ref first (m.ref first + 1)) (ground arith)
  | no q ↦ rw (update_ne m.ref first (m.ref first + 1) page q) (ground arith)
]

pub inc_refs-ref :
    (n first : ℕ) (m : Mm) (page : ℕ)
    → (inc_refs n first m).ref page ≡ m.ref page + inside n first page
unfolding inc_refs inc_page_ref
inc_refs-ref zero first m page = omega arith
inc_refs-ref (suc n) first m page =
    omega (arith, inc_refs-ref n (first + 1) (inc_page_ref first m) page, one_more first m page)

pub expand_split-ref : (n low addr : ℕ) (m : Mm) → (expand_split n low addr m).1.ref ≡ m.ref
unfolding expand_split mark_used change_bit add_to_head
expand_split-ref zero low addr m = refl
expand_split-ref (suc n) low addr m = expand_split-ref n low (2 * addr + 1) _

pub change_bit-ref : (k j : ℕ) (m : Mm) → (change_bit k j m).ref ≡ m.ref
unfolding change_bit
change_bit-ref k j m = refl
