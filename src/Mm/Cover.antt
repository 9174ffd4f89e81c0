-- ===== src/Mm/Cover.antt =====
-- What the free lists of src/mm.cc mean: how many free blocks a page lies in, and the state of the
-- maps that goes with it.
use babyos.Prelude.{
  ℕ, zero, suc, ◌+◌, ◌*◌, ◌≤◌, ◌<◌, ◌≡◌, refl, sym, ap, subst, Bool, true, false, List, arith,
  ℕ_discrete,
}
use babyos.Mm.{Mm, max_order, update, shift_right, shift_left}
use babyos.Mm.Blocks.{count, update_self, update_ne, shift_right-shift_left}

-- How many blocks of the first `n` orders contain the page.
unfoldable pub cover_below : ℕ → (ℕ → List ℕ) → ℕ → ℕ
cover_below zero lists page = 0
cover_below (suc k) lists page = cover_below k lists page + count (shift_right k page) (lists k)

-- How many free blocks contain the page: it is free where this is 1.
unfoldable pub cover : Mm → ℕ → ℕ
cover m page = cover_below (suc max_order) m.free_list page

abbrev pub bit : Bool → ℕ
bit true = 1
bit false = 0

-- How many of the two halves of block `j` of the next size a list holds.
abbrev pub pair : ℕ → List ℕ → ℕ
pair j l = count (2 * j) l + count (2 * j + 1) l

-- No page is free twice, and the bit of a pair of buddies says that exactly one of them is free.
pub record IsValid (m : Mm) : Type 0 where
  pub covered : (page : ℕ) → cover m page ≤ 1
  pub bits : (k j : ℕ) → k < max_order → bit (m.bitmap k j) ≡ pair j (m.free_list k)

pub cover_below-update_above :
    (n : ℕ) (lists : ℕ → List ℕ) (k : ℕ) (l : List ℕ) (page : ℕ)
    → n ≤ k
    → cover_below n (update lists k l) page ≡ cover_below n lists page
unfolding cover_below
cover_below-update_above zero lists k l page h = refl
cover_below-update_above (suc n) lists k l page h =
    rw
      (cover_below-update_above n lists k l page (omega arith), update_ne lists k l n (omega arith))
      refl

pub cover_below-update :
    (n : ℕ) (lists : ℕ → List ℕ) (k : ℕ) (l : List ℕ) (page : ℕ)
    → k < n
    → cover_below n (update lists k l) page + count (shift_right k page) (lists k)
      ≡ cover_below n lists page + count (shift_right k page) l
unfolding cover_below
cover_below-update zero lists k l page h = absurd (omega arith)
cover_below-update (suc n) lists k l page h = elim (ℕ_discrete n k) [
  | yes e ↦
      rw (e, update_self lists k l, cover_below-update_above k lists k l page (omega arith))
        (omega arith)
  | no ne ↦
      rw (update_ne lists k l n ne)
        (omega (arith, cover_below-update n lists k l page (omega arith)))
]

pub count-cover_below :
    (n : ℕ) (lists : ℕ → List ℕ) (k page : ℕ)
    → k < n
    → count (shift_right k page) (lists k) ≤ cover_below n lists page
unfolding cover_below
count-cover_below zero lists k page h = absurd (omega arith)
count-cover_below (suc n) lists k page h = elim (ℕ_discrete k n) [
  | yes e ↦ rw e (omega arith)
  | no ne ↦ omega (arith, count-cover_below n lists k page (omega arith))
]

-- Every page of the block is outside the free blocks.
abbrev pub Outside : Mm → ℕ → ℕ → Type 0
Outside m k i = (page : ℕ) → shift_right k page ≡ i → cover m page ≡ 0

pub Outside-count : (m : Mm) (k i : ℕ) → k ≤ max_order → Outside m k i → count i (m.free_list k) ≡ 0
unfolding cover
Outside-count m k i h out =
    let e = shift_right-shift_left k i in
    let c = count-cover_below (suc max_order) m.free_list k (shift_left k i) (omega arith) in
    let c' : count i (m.free_list k) ≤ cover_below (suc max_order) m.free_list (shift_left k i) =
      subst
        (λ x. count x (m.free_list k) ≤ cover_below (suc max_order) m.free_list (shift_left k i)) e
        c in
    omega (arith, c', out (shift_left k i) e)

pub Outside-pair :
    (m : Mm) (k i : ℕ) → k ≤ max_order → Outside m (suc k) i → pair i (m.free_list k) ≡ 0
unfolding shift_right
Outside-pair m k i h out =
    let left : Outside m k (2 * i) = λ page e. out page (omega (arith, e)) in
    let right : Outside m k (2 * i + 1) = λ page e. out page (omega (arith, e)) in
    omega (arith, Outside-count m k _ h left, Outside-count m k _ h right)

-- Validity and cover look at the lists and the maps only.
pub transport-IsValid :
    (m m' : Mm) → m'.free_list ≡ m.free_list → m'.bitmap ≡ m.bitmap → IsValid m → IsValid m'
unfolding cover
transport-IsValid m m' e f v = record {
  covered = λ page. subst (λ l. cover_below (suc max_order) l page ≤ 1) (sym e) (v.covered page);
  bits = λ k j h.
      subst (λ l. bit (m'.bitmap k j) ≡ pair j (l k)) (sym e)
        (subst (λ b. bit (b k j) ≡ pair j (m.free_list k)) (sym f) (v.bits k j h));
}

pub transport-cover :
    (m m' : Mm) → m'.free_list ≡ m.free_list → (page : ℕ) → cover m' page ≡ cover m page
unfolding cover
transport-cover m m' e page = ap (λ l. cover_below (suc max_order) l page) e
