-- ===== src/Fs/Alloc.antt =====
-- `alloc_block` and `free_block` of src/fs.cc: what they do to the bitmap, and how many blocks are free.
use babyos.Prelude.{
  add32, ℕ, zero, suc, ◌+◌, ◌-◌, ◌*◌, ◌/◌, ◌≤◌, ◌<◌, ◌≡◌, ◌≢◌, ◌⊎◌, inl, inr, refl, ◌∙◌, sym, ap,
  true, false, Bool-cases, Option-cases, ltb, ◌==◌, if◌then◌else◌, if_true, if_false, arith,
  ℕ_discrete, dec_lt,
}
use babyos.Fs.{
  Disk, bsize, bitmap_block, nblocks, scan_bits, round_bits, take_bit, alloc_round, alloc_loop,
  alloc_block,
}
use babyos.Fs.Bitmap.{
  in_use, in_use_le, free_count, first_data, IsFormatted, Allocated, scan_bits-some, scan_bits-none,
  take_bit-Allocated, same_super, in_use_at, bitmap_block_ge,
}

-- No block below `n` is free.
abbrev pub Full : Disk → ℕ → Type 0
Full d n = (c : ℕ) → c < n → in_use d c ≡ 1

nonzero : (n : ℕ) → n ≤ 1 → n ≢ 0 → n ≡ 1
nonzero n h h' = omega arith

alloc_loop-Outcome :
    (rounds q : ℕ) (d : Disk)
    → IsFormatted d
    → nblocks d < bsize * 8 * (q + rounds)
    → ((c : ℕ) → c < bsize * 8 * q → c < nblocks d → in_use d c ≡ 1)
    → ((alloc_loop rounds (bsize * 8 * q) (bitmap_block d + q) (nblocks d) d ≡ (0, d))
        × Full d (nblocks d))
      ⊎ ((lba : ℕ) × (d' : Disk) × (alloc_loop rounds
              (bsize * 8 * q)
              (bitmap_block d + q)
              (nblocks d)
              d
            ≡ (lba, d'))
          × Allocated d lba d')
unfolding alloc_loop
alloc_loop-Outcome zero q d f enough before = inl (refl, λ c lt. before c (omega arith) lt)
alloc_loop-Outcome (suc rounds) q d f enough before =
    elim (Bool-cases (ltb (bsize * 8 * q) (nblocks d))) [
      | inr t ↦ inl (if_false _ _ t, λ c lt. before c (ground arith) lt)
      | inl t ↦
          elim (Option-cases
            (scan_bits (round_bits (bsize * 8 * q) (nblocks d)) 0 (d (bitmap_block d + q)))) [
              | inr (bit, e) ↦
                  let (z, lo, hi) = scan_bits-some _ 0 _ bit e in
                  inr (
                    _,
                    _,
                    if_true _ _ t ∙ rw e (unfold alloc_round take_bit in refl),
                    take_bit-Allocated d q bit f (ground (arith, hi, t, f.small))
                        (ground (arith, hi, t, f.small)) z,
                  )
              | inl e ↦
                  let full = scan_bits-none _ 0 _ e in
                  let next : add32 (bsize * 8 * q) (bsize * 8) ≡ bsize * 8 * (q + 1) =
                    ground (arith, t, f.small) in
                  let next' : bitmap_block d + q + 1 ≡ bitmap_block d + (q + 1) = omega arith in
                  let goes : alloc_loop (suc rounds) (bsize * 8 * q) (bitmap_block d + q)
                        (nblocks d) d
                      ≡ alloc_loop rounds (bsize * 8 * (q + 1)) (bitmap_block d + (q + 1))
                          (nblocks d) d =
                    if_true _ _ t
                    ∙ rw e (unfold alloc_round in refl)
                    ∙ ap (λ x. alloc_loop rounds x (bitmap_block d + q + 1) (nblocks d) d) next
                    ∙ ap (λ x. alloc_loop rounds (bsize * 8 * (q + 1)) x (nblocks d) d) next' in
                  let ih = alloc_loop-Outcome rounds (q + 1) d f (omega arith) (λ c lt below.
                    elim (dec_lt c (bsize * 8 * q)) [
                      | yes l ↦ before c l below
                      | no n ↦
                          let bit = c - bsize * 8 * q in
                          let same : bsize * 8 * q + bit ≡ c = omega arith in
                          let set_bit = full bit (omega arith) (ground arith) in
                          ap (in_use d) (sym same)
                          ∙ nonzero (in_use d (bsize * 8 * q + bit))
                              (in_use_le d (bsize * 8 * q + bit))
                              (λ z. set_bit (sym (in_use_at d q bit (omega arith)) ∙ z))
                    ]) in
                  elim ih [
                    | inl (r, all) ↦ inl (goes ∙ r, all)
                    | inr (lba, d', r, a) ↦ inr (lba, d', goes ∙ r, a)
                  ]
            ]
    ]

free_count-Full : (d : Disk) (n : ℕ) → Full d n → free_count d n ≡ 0
unfolding free_count
free_count-Full d zero h = refl
free_count-Full d (suc n) h =
    omega (arith, free_count-Full d n (λ c lt. h c (omega arith)), h n (omega arith))

-- The count of free blocks after one block below `n` has changed.
pub free_count-same :
    (d d' : Disk) (n : ℕ)
    → ((c : ℕ) → c < n → in_use d' c ≡ in_use d c)
    → free_count d' n ≡ free_count d n
unfolding free_count
free_count-same d d' zero h = refl
free_count-same d d' (suc n) h =
    omega (arith, free_count-same d d' n (λ c lt. h c (omega arith)), h n (omega arith))

pub free_count-taken :
    (d d' : Disk) (n lba : ℕ)
    → lba < n
    → in_use d lba ≡ 0
    → ((c : ℕ) → c < n → in_use d' c ≡ (if c == lba then 1 else in_use d c))
    → free_count d' n + 1 ≡ free_count d n
unfolding free_count
free_count-taken d d' zero lba lt z h = absurd (omega arith)
free_count-taken d d' (suc n) lba lt z h = elim (ℕ_discrete lba n) [
  | yes e ↦
      let same = free_count-same d d' n (λ c l.
        h c (omega arith) ∙ if_false _ _ (let t : (c == lba) ≡ false = ground arith in t)) in
      let now : in_use d' n ≡ 1 =
        h n (omega arith) ∙ if_true _ _ (let t : (n == lba) ≡ true = ground arith in t) in
      omega (arith, same, now, ap (in_use d) e)
  | no ne ↦
      let ih = free_count-taken d d' n lba (omega arith) z (λ c l. h c (omega arith)) in
      let now : in_use d' n ≡ in_use d n =
        h n (omega arith) ∙ if_false _ _ (let t : (n == lba) ≡ false = ground arith in t) in
      omega (arith, ih, now)
]

pub Allocated-super :
    (d : Disk) (lba : ℕ) (d' : Disk) → IsFormatted d → Allocated d lba d' → d' 1 ≡ d 1
unfolding first_data
Allocated-super d lba d' f a =
    a.kept 1 (omega (arith, a.data_block, bitmap_block_ge d)) (omega (arith, bitmap_block_ge d))

pub Allocated-IsFormatted :
    (d : Disk) (lba : ℕ) (d' : Disk) → IsFormatted d → Allocated d lba d' → IsFormatted d'
Allocated-IsFormatted d lba d' f a =
    let (bb, nb) = same_super d d' (Allocated-super d lba d' f a) in
    let fd : first_data d' ≡ first_data d =
      unfold first_data in
      ap (λ x. x + nblocks d' / (bsize * 8) + 1) bb
      ∙ ap (λ x. bitmap_block d + x / (bsize * 8) + 1) nb in
    record {
      marked = λ c lt.
          a.now_used c (omega (arith, f.fits, fd))
          ∙ if_false _ _ (let t : (c == lba) ≡ false = ground (arith, a.data_block, fd) in t)
          ∙ f.marked c (omega (arith, fd));
      small = omega (arith, f.small, nb);
      fits = omega (arith, f.fits, fd, nb);
    }

-- `alloc_block` returns 0 and changes nothing where no block is free. Else it returns a block that
-- was free and is none of those of the super block, the inodes and the bitmap: it is zeroed and in
-- use, no other block of data and no other mark changes, one block fewer is free, and the disk is still
-- formatted.
pub alloc_block_takes :
    (d : Disk)
    → IsFormatted d
    → ((alloc_block d ≡ (0, d)) × (free_count d (nblocks d) ≡ 0))
      ⊎ ((lba : ℕ) × (d' : Disk) × (alloc_block d ≡ (lba, d'))
          × Allocated d lba d'
          × (free_count d' (nblocks d') + 1 ≡ free_count d (nblocks d))
          × IsFormatted d')
unfolding alloc_block
alloc_block_takes d f =
    let start : bitmap_block d + 0 ≡ bitmap_block d = omega arith in
    let run : alloc_loop (suc (nblocks d / (bsize * 8))) 0 (bitmap_block d) (nblocks d) d
        ≡ alloc_loop (suc (nblocks d / (bsize * 8))) (bsize * 8 * 0) (bitmap_block d + 0)
            (nblocks d) d =
      ap (λ x. alloc_loop (suc (nblocks d / (bsize * 8))) 0 x (nblocks d) d) (sym start) in
    elim (alloc_loop-Outcome (suc (nblocks d / (bsize * 8))) 0 d f (omega arith)
      (λ c lt. absurd (omega arith))) [
        | inl (r, all) ↦ inl (run ∙ r, free_count-Full d (nblocks d) all)
        | inr (lba, d', r, a) ↦
            let (_, nb) = same_super d d' (Allocated-super d lba d' f a) in
            inr (
              lba,
              d',
              run ∙ r,
              a,
              ap (λ x. free_count d' x + 1) nb
                  ∙ free_count-taken d d' (nblocks d) lba a.below a.was_free a.now_used,
              Allocated-IsFormatted d lba d' f a,
            )
      ]
