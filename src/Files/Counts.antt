-- ===== src/Files/Counts.antt =====
-- The reference counts of open files, for src/file_table.cc and src/fs.cc.
use babyos.Prelude.{
  code, ℕ, zero, suc, ◌+◌, ◌-◌, ◌≤◌, ◌<◌, ◌≡◌, inl, inr, refl, ◌∙◌, sym, ap, subst, Bool, true,
  false, Option, none, some, List, [], ◌∷◌, ltb, ◌==◌, if◌then◌else◌, get_or, set, add32, arith,
  length, length-set, ℕ_discrete, u32_mod, get_or-set_self, get_or-set_ne, if_true, if_false,
  Option-cases,
}
use babyos.Files.{
  File, Files, no_file, Released, nothing, free, dup_file, fd_scan, alloc_fd, get_file, free_fd,
  do_close, do_dup, next_place,
}

abbrev pub refers : Option ℕ → ℕ → ℕ
refers none f = 0
refers (some g) f = if g == f then 1 else 0

-- How many descriptors refer to the file.
abbrev pub refs : ℕ → List (Option ℕ) → ℕ
refs f [] = 0
refs f (fd ∷ rest) = refers fd f + refs f rest

abbrev pub count_at : List File → ℕ → ℕ
count_at table f = (get_or table f no_file).ref

-- The count of every file is the number of descriptors that refer to it, in this process and in
-- `others`.
pub record Counted (others : ℕ → ℕ) (s : Files) : Type 0 where
  pub counts : (f : ℕ) → count_at s.table f ≡ refs f s.fds + others f
  pub room : (f : ℕ) → length s.fds + others f < u32_mod

refs-set :
    (f : ℕ) (fds : List (Option ℕ)) (i : ℕ) (v : Option ℕ)
    → i < length fds
    → refs f (set fds i v) + refers (get_or fds i none) f ≡ refs f fds + refers v f
refs-set f [] i v h = absurd (omega arith)
refs-set f (fd ∷ rest) zero v h = omega arith
refs-set f (fd ∷ rest) (suc i) v h = omega (arith, refs-set f rest i v (omega arith))

refs_le : (f : ℕ) (fds : List (Option ℕ)) → refs f fds ≤ length fds
refs_le f [] = omega arith
refs_le f (none ∷ rest) = omega (arith, refs_le f rest)
refs_le f (some g ∷ rest) = ground (arith, refs_le f rest)

pub next_place_inv :
    (o : Option ℕ) (i : ℕ) → next_place o ≡ some i → (j : ℕ) × (o ≡ some j) × (i ≡ suc j)
next_place_inv none i h = absurd (omega (arith, ap code h))
next_place_inv (some j) i h = (j, refl, omega (arith, ap code h))

-- A descriptor that refers to a file is in the array.
get_some-lt : (fds : List (Option ℕ)) (i f : ℕ) → get_or fds i none ≡ some f → i < length fds
get_some-lt [] i f h = absurd (omega (arith, ap code h))
get_some-lt (fd ∷ rest) zero f h = omega arith
get_some-lt (fd ∷ rest) (suc i) f h = omega (arith, get_some-lt rest i f h)

fd_scan-some :
    (fds : List (Option ℕ)) (i : ℕ)
    → fd_scan fds ≡ some i
    → (get_or fds i none ≡ none) × (i < length fds)
unfolding fd_scan
fd_scan-some [] i h = absurd (omega (arith, ap code h))
fd_scan-some (none ∷ rest) i h =
    let first : i ≡ 0 = omega (arith, ap code h) in rw first (refl, omega arith)
fd_scan-some (some f ∷ rest) i h =
    let (j, e, first) = next_place_inv (fd_scan rest) i h in
    let (free_one, lt) = fd_scan-some rest j e in rw first (free_one, omega arith)

pub count_at-set :
    (table : List File) (f : ℕ) (v : File) (g : ℕ)
    → f < length table
    → count_at (set table f v) g ≡ (if g == f then v.ref else count_at table g)
count_at-set table f v g h = elim (ℕ_discrete g f) [
  | yes e ↦
      subst (λ x. count_at (set table f v) x ≡ (if x == f then v.ref else count_at table x)) (sym e)
        (ap (λ x. x.ref) (get_or-set_self table f v no_file h) ∙ ground arith)
  | no ne ↦ ap (λ x. x.ref) (get_or-set_ne table f g v no_file (λ q. ne (sym q))) ∙ ground arith
]

count_at-lt : (table : List File) (f : ℕ) → 1 ≤ count_at table f → f < length table
count_at-lt [] f h = absurd (omega arith)
count_at-lt (file ∷ rest) zero h = omega arith
count_at-lt (file ∷ rest) (suc f) h = omega (arith, count_at-lt rest f h)

-- A file's count moved together with the descriptors keeps the counts right.
pub moved :
    (others : ℕ → ℕ) (table : List File) (f : ℕ) (v : File) (fds fds' : List (Option ℕ))
    → Counted others (record { table = table; fds = fds })
    → f < length table
    → length fds' ≡ length fds
    → ((g : ℕ) → (if g == f then v.ref else count_at table g) ≡ refs g fds' + others g)
    → Counted others (record { table = set table f v; fds = fds' })
moved others table f v fds fds' c lt same_length h = record {
  counts = λ g. count_at-set table f v g lt ∙ h g;
  room = λ g. omega (arith, c.room g);
}

pub free-some :
    (f : ℕ) (table : List File)
    → 1 ≤ count_at table f
    → (r : Released) × (v : File) × (free f table ≡ some (r, set table f v))
      × (v.ref ≡ count_at table f - 1)
unfolding free
free-some f table own = elim (ℕ_discrete (count_at table f) 1) [
  | yes e ↦ (
    _,
    _,
    if_false _ _ (let t : ltb (count_at table f) 1 ≡ false = ground arith in t)
        ∙ if_false _ _ (let t : ltb 0 (count_at table f - 1) ≡ false = ground arith in t),
    refl,
  )
  | no ne ↦ (
    _,
    _,
    if_false _ _ (let t : ltb (count_at table f) 1 ≡ false = ground arith in t)
        ∙ if_true _ _ (let t : ltb 0 (count_at table f - 1) ≡ true = ground arith in t),
    refl,
  )
]

dup_file-some :
    (f : ℕ) (table : List File)
    → 1 ≤ count_at table f
    → dup_file f table
      ≡ some (set table f (record (get_or table f no_file) { ref = add32 (count_at table f) 1 }))
unfolding dup_file
dup_file-some f table own =
    if_false _ _ (let t : ltb (count_at table f) 1 ≡ false = ground arith in t)

-- A descriptor given up, and one taken.
refs-free :
    (fds : List (Option ℕ)) (fd f : ℕ)
    → get_or fds fd none ≡ some f
    → (g : ℕ) → refs g (set fds fd none) + refers (some f) g ≡ refs g fds
refs-free fds fd f e g =
    let h = refs-set g fds fd none (get_some-lt fds fd f e) in
    omega (arith, h, ap (λ o. refers o g) e)

pub fd_scan-refs :
    (fds : List (Option ℕ)) (fd f : ℕ)
    → fd_scan fds ≡ some fd
    → (g : ℕ) → refs g (set fds fd (some f)) ≡ refs g fds + refers (some f) g
fd_scan-refs fds fd f e g =
    let (free_one, lt) = fd_scan-some fds fd e in
    omega (arith, refs-set g fds fd (some f) lt, ap (λ o. refers o g) free_one)

refs_own :
    (others : ℕ → ℕ) (s : Files) (f fd : ℕ)
    → Counted others s
    → get_or s.fds fd none ≡ some f
    → 1 ≤ count_at s.table f
refs_own others s f fd c e = ground (arith, refs-free s.fds fd f e f, c.counts f)

-- `do_close` never panics where the counts are right, and keeps them right.
pub do_close-Counted :
    (others : ℕ → ℕ) (fd : ℕ) (s : Files)
    → Counted others s
    → (r : Released) × (s' : Files) × (do_close fd s ≡ some (r, s')) × Counted others s'
unfolding do_close get_file free_fd
do_close-Counted others fd s c = elim (Option-cases (get_or s.fds fd none)) [
  | inl e ↦ (nothing, s, rw (e, do_close) refl, c)
  | inr (f, e) ↦
      let change = refs-free s.fds fd f e in
      let own = refs_own others s f fd c e in
      let (r, v, fe, ve) = free-some f s.table own in
      (
        r,
        record { table = set s.table f v; fds = set s.fds fd none },
        rw (e, do_close, fe) refl,
        moved others s.table f v s.fds _ c (count_at-lt s.table f own) (length-set s.fds fd none)
            (λ g. ground (arith, change g, c.counts g, ve)),
      )
]

pub do_dup-Counted :
    (others : ℕ → ℕ) (fd : ℕ) (s : Files)
    → Counted others s
    → (done : Bool) × (s' : Files) × (do_dup fd s ≡ some (done, s')) × Counted others s'
unfolding do_dup get_file alloc_fd
do_dup-Counted others fd s c = elim (Option-cases (get_or s.fds fd none)) [
  | inl e ↦ (false, s, rw (e, do_dup) refl, c)
  | inr (f, e) ↦
      let own = refs_own others s f fd c e in
      elim (Option-cases (fd_scan s.fds)) [
        | inl e' ↦ (false, s, rw (e, e', do_dup) refl, c)
        | inr (fd', e') ↦
            let change = fd_scan-refs s.fds fd' f e' in
            let v : File = record (get_or s.table f no_file) {
              ref = add32 (count_at s.table f) 1;
            } in
            (
              true,
              record { table = set s.table f v; fds = set s.fds fd' (some f) },
              rw (e, e', do_dup, dup_file-some f s.table own) refl,
              moved others s.table f v s.fds _ c (count_at-lt s.table f own)
                  (length-set s.fds fd' (some f))
                  (λ g. ground (
                    arith,
                    change g,
                    c.counts g,
                    change f,
                    c.counts f,
                    c.room f,
                    refs_le f (set s.fds fd' (some f)),
                    length-set s.fds fd' (some f),
                  )),
            )
      ]
]
