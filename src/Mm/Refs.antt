-- ===== src/Mm/Refs.antt =====
-- Allocating and freeing together, and what becomes of the counts of the pages, for src/mm.cc.
use babyos.Prelude.{
  ℕ, zero, suc, ◌+◌, ◌-◌, ◌^◌, ◌≤◌, ◌<◌, ◌≡◌, refl, ◌∙◌, sym, ap, subst, Option, none, some, arith,
  ℕ_discrete, inl, inr,
}
use Prim.Native.Nat.pow
use babyos.Mm.{Mm, max_order, shift_right, shift_left, alloc_pages, free_pages}
use babyos.Mm.Blocks.{same, update_self, update_ne, shift_right-shift_left}
use babyos.Mm.Cover.{IsValid, cover, Outside}
use babyos.Mm.Alloc.{alloc_pages_takes}
use babyos.Mm.Expand.{inside, Taken}
use babyos.Mm.Free.{lowered, free_pages_returns}

inside_before : (n first page : ℕ) → page < first → inside n first page ≡ 0
inside_before zero first page h = refl
inside_before (suc n) first page h = ground (arith, inside_before n (first + 1) page (omega arith))

inside_first : (n first : ℕ) → 1 ≤ n → inside n first first ≡ 1
inside_first zero first h = absurd (omega arith)
inside_first (suc n) first h = ground (arith, inside_before n (first + 1) first (omega arith))

Taken-Outside :
    (m : Mm) (order block : ℕ) (m' : Mm)
    → IsValid m
    → Taken m order block m'
    → Outside m' order (shift_right order (shift_left order block))
Taken-Outside m order block m' v t page q =
    let q' = q ∙ shift_right-shift_left order block in
    ground (arith, t.cover_eq page, v.covered page, q')

lowered-same :
    (page : ℕ) (m : Mm) (p : ℕ) → 1 ≤ m.ref page → lowered page m p + same p page ≡ m.ref p
lowered-same page m p h = elim (ℕ_discrete p page) [
  | yes q ↦ rw (q, update_self m.ref page (m.ref page - 1)) (ground arith)
  | no q ↦ rw (update_ne m.ref page (m.ref page - 1) p q) (ground arith)
]

pow_pos : (k : ℕ) → 1 ≤ 2 ^ k
pow_pos zero = omega arith
pow_pos (suc k) = omega (arith, pow_pos k, pow.suc 2 k)

abbrev get_page : Option ℕ → ℕ
get_page none = 0
get_page (some page) = suc page

freed :
    (order : ℕ) (m m' : Mm) (block : ℕ)
    → order ≤ max_order
    → IsValid m
    → Taken m order block m'
    → m.ref (shift_left order block) ≡ 0
    → (m'' : Mm) × (free_pages (shift_left order block) order m' ≡ some m'')
      × IsValid m''
      × ((p : ℕ) → cover m'' p ≡ cover m p)
      × ((p : ℕ)
          → m''.ref p + same p (shift_left order block)
            ≡ m.ref p + inside (2 ^ order) (shift_left order block) p)
freed order m m' block h v t z =
    let page = shift_left order block in
    let one_ref : m'.ref page ≡ 1 =
      omega (arith, t.refs page, inside_first (2 ^ order) page (pow_pos order)) in
    elim (free_pages_returns page order m'
      (λ o. record { small = h; valid = t.valid; outside = Taken-Outside m order block m' v t })) [
        | inl (a, _) ↦ absurd (omega arith)
        | inr (inl (a, _)) ↦ absurd (omega arith)
        | inr (inr (_, m'', e, r, refs)) ↦ (
          m'',
          e,
          r.valid,
          λ p. omega (
            arith,
            r.cover_eq p,
            t.cover_eq p,
            ap (λ x. same (shift_right order p) x) (shift_right-shift_left order block),
          ),
          λ p. ap (λ f. f p + same p page) refs ∙ lowered-same page m' p (omega arith) ∙ t.refs p,
        )
      ]

-- `alloc_pages` and then `free_pages` of what it returned, a page with no reference before, give
-- back a sound state with the same pages free. The counts of the pages of the block behind the
-- first one stay one higher than they were.
pub alloc_pages-free_pages :
    (order page : ℕ) (m m' : Mm)
    → order ≤ max_order
    → IsValid m
    → alloc_pages order m ≡ (some page, m')
    → m.ref page ≡ 0
    → (m'' : Mm) × (free_pages page order m' ≡ some m'')
      × IsValid m''
      × ((p : ℕ) → cover m'' p ≡ cover m p)
      × ((p : ℕ) → m''.ref p + same p page ≡ m.ref p + inside (2 ^ order) page p)
alloc_pages-free_pages order page m m' h v e z = elim (alloc_pages_takes order m h v) [
  | inl (n, none_left) ↦ absurd (omega (arith, ap (λ r. get_page r) (sym (ap (λ r. r.0) e) ∙ n)))
  | inr (block, m1, e1, t, _) ↦
      let same_state : m1 ≡ m' = ap (λ r. r.1) (sym e1 ∙ e) in
      let same_page : shift_left order block ≡ page =
        let next : suc (shift_left order block) ≡ suc page = ap (λ r. get_page r.0) (sym e1 ∙ e) in
        omega (arith, next) in
      rw (sym same_page, sym same_state)
        (freed order m m1 block h v t (subst (λ p. m.ref p ≡ 0) (sym same_page) z))
]
