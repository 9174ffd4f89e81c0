-- ===== src/Mm/Blocks.antt =====
-- Arithmetic of blocks and the pages they cover, and lists of blocks counted, for src/mm.cc.
use babyos.Prelude.{
  ℕ, zero, suc, ◌+◌, ◌-◌, ◌*◌, ◌/◌, ◌%◌, ◌≤◌, ◌≡◌, ◌≢◌, refl, ap, Bool-cases, inl, inr, true, false,
  List, [], ◌∷◌, ◌==◌, if◌then◌else◌, arith, if_true, if_false, ℕ_discrete,
}
use babyos.Mm.{update, shift_right, shift_left, unlink, get_buddy}

-- 1 for the same number and 0 for others.
abbrev pub same : ℕ → ℕ → ℕ
same a b = if a == b then 1 else 0

abbrev pub count : ℕ → List ℕ → ℕ
count e [] = 0
count e (x ∷ rest) = same e x + count e rest

pub count-unlink :
    (e x : ℕ) (l : List ℕ) → 1 ≤ count x l → count e (unlink x l) + same e x ≡ count e l
unfolding unlink
count-unlink e x [] h = absurd (omega arith)
count-unlink e x (y ∷ rest) h = elim (Bool-cases (y == x)) [
  | inl t ↦ rw t (ground arith)
  | inr t ↦ rw t (omega (arith, count-unlink e x rest (ground arith)))
]

pub update_self : {A : Type 0} (f : ℕ → A) (i : ℕ) (a : A) → update f i a i ≡ a
unfolding update
update_self f i a = if_true a (f i) (ground arith)

pub update_ne : {A : Type 0} (f : ℕ → A) (i : ℕ) (a : A) (j : ℕ) → j ≢ i → update f i a j ≡ f j
unfolding update
update_ne f i a j h = if_false a (f j) (ground arith)

pub shift_right-shift_left : (k n : ℕ) → shift_right k (shift_left k n) ≡ n
unfolding shift_right shift_left
shift_right-shift_left zero n = refl
shift_right-shift_left (suc k) n = rw (shift_right-shift_left k (2 * n)) (omega arith)

-- A block is its two halves.
pub same_halves : (q i : ℕ) → same (q / 2) i ≡ same q (2 * i) + same q (2 * i + 1)
same_halves q i = ground arith

pub same-get_buddy : (q e : ℕ) → same (q / 2) (e / 2) ≡ same q e + same q (get_buddy e)
unfolding get_buddy
same-get_buddy q e = ground arith

pub half-get_buddy : (e : ℕ) → get_buddy e / 2 ≡ e / 2
unfolding get_buddy
half-get_buddy e = ground arith

get_buddy_even : (e : ℕ) → e % 2 ≡ 0 → get_buddy e ≡ e + 1
unfolding get_buddy
get_buddy_even e h = if_true (e + 1) (e - 1) (let t : (e % 2 == 0) ≡ true = ground arith in t)

get_buddy_odd : (e : ℕ) → e % 2 ≢ 0 → get_buddy e ≡ e - 1
unfolding get_buddy
get_buddy_odd e h = if_false (e + 1) (e - 1) (let t : (e % 2 == 0) ≡ false = ground arith in t)

-- The two halves of a block are either of them and its buddy.
pub count-get_buddy :
    (e : ℕ) (l : List ℕ)
    → count (2 * (e / 2)) l + count (2 * (e / 2) + 1) l ≡ count e l + count (get_buddy e) l
count-get_buddy e l = elim (ℕ_discrete (e % 2) 0) [
  | yes q ↦ let even : 2 * (e / 2) ≡ e = omega arith in rw (get_buddy_even e q, even) refl
  | no q ↦
      let odd : 2 * (e / 2) + 1 ≡ e = omega arith in
      let low : 2 * (e / 2) ≡ e - 1 = omega arith in
      omega (
        arith,
        ap (λ x. count x l) odd,
        ap (λ x. count x l) low,
        ap (λ x. count x l) (get_buddy_odd e q),
      )
]
