-- ===== src/Fs/Bitmap.antt =====
-- `alloc_block` and `free_block` of src/fs.cc on the bitmap of blocks.
use babyos.Prelude.{
  code, ℕ, zero, suc, ◌+◌, ◌-◌, ◌*◌, ◌/◌, ◌%◌, ◌≤◌, ◌<◌, ◌≡◌, ◌≢◌, inl, inr, ◌∙◌, sym, ap, subst,
  false, Bool-cases, none, some, ◌==◌, if◌then◌else◌, if_false, u32_mod, arith, ℕ_discrete, dec_lt,
}
use babyos.BlockDev.{put}
use babyos.BlockDev.Held.{put_self, put_ne}
use babyos.Fs.{
  Disk, bsize, bitmap_block, nblocks, ninodes, word, flag_at, set_flag, scan_bits, take_bit,
  zero_block,
}
use babyos.Fs.Bits.{bit_at_le, flag_at-set_flag}

-- Whether the bitmap has a block in use, 1 or 0.
unfoldable pub in_use : Disk → ℕ → ℕ
in_use d lba = flag_at (lba % (bsize * 8)) (d (bitmap_block d + lba / (bsize * 8)))

pub in_use_le : (d : Disk) (lba : ℕ) → in_use d lba ≤ 1
unfolding in_use
in_use_le d lba = bit_at_le _ _

-- How many of the first `n` blocks are free.
unfoldable pub free_count : Disk → ℕ → ℕ
free_count d zero = 0
free_count d (suc n) = free_count d n + (1 - in_use d n)

-- The first block behind the super block, the inodes and the bitmap.
unfoldable pub first_data : Disk → ℕ
first_data d = bitmap_block d + nblocks d / (bsize * 8) + 1

-- A disk whose blocks of its own are all marked, with numbers that fit their types.
pub record IsFormatted (d : Disk) : Type 0 where
  pub marked : (lba : ℕ) → lba < first_data d → in_use d lba ≡ 1
  pub small : nblocks d + bsize * 8 < u32_mod
  pub fits : first_data d ≤ nblocks d

pub scan_bits-some :
    (n bit : ℕ) (block : ℕ → ℕ) (found : ℕ)
    → scan_bits n bit block ≡ some found
    → (flag_at found block ≡ 0) × (bit ≤ found) × (found < bit + n)
unfolding scan_bits
scan_bits-some zero bit block found h = absurd (omega (arith, ap code h))
scan_bits-some (suc n) bit block found h = elim (Bool-cases (flag_at bit block == 0)) [
  | inl t ↦
      let h' : some bit ≡ some found = rw t at h in
      let e : bit ≡ found = omega (arith, ap code h') in
      (subst (λ x. flag_at x block ≡ 0) e (ground arith), omega arith, omega arith)
  | inr t ↦
      let h' : scan_bits n (bit + 1) block ≡ some found = rw t at h in
      let (z, lo, hi) = scan_bits-some n (bit + 1) block found h' in (z, omega arith, omega arith)
]

pub scan_bits-none :
    (n bit : ℕ) (block : ℕ → ℕ)
    → scan_bits n bit block ≡ none
    → (c : ℕ) → bit ≤ c
    → c < bit + n
    → flag_at c block ≢ 0
unfolding scan_bits
scan_bits-none zero bit block h c lo hi = absurd (omega arith)
scan_bits-none (suc n) bit block h c lo hi = elim (Bool-cases (flag_at bit block == 0)) [
  | inl t ↦ let h' : some bit ≡ none = rw t at h in absurd (omega (arith, ap code h'))
  | inr t ↦
      let h' : scan_bits n (bit + 1) block ≡ none = rw t at h in
      elim (ℕ_discrete c bit) [
        | yes e ↦ subst (λ x. flag_at x block ≢ 0) (sym e) (ground arith)
        | no ne ↦ scan_bits-none n (bit + 1) block h' c (omega arith) (omega arith)
      ]
]

-- What taking a block out of the bitmap leaves.
pub record Allocated (d : Disk) (lba : ℕ) (d' : Disk) : Type 0 where
  pub was_free : in_use d lba ≡ 0
  pub below : lba < nblocks d
  pub zeroed : d' lba ≡ (λ j. 0)
  pub data_block : first_data d ≤ lba
  pub kept :
      (other : ℕ) → other ≢ lba → other ≢ bitmap_block d + lba / (bsize * 8) → d' other ≡ d other
  pub now_used : (c : ℕ) → c < nblocks d → in_use d' c ≡ (if c == lba then 1 else in_use d c)

put_twice : (d : Disk) (i j : ℕ) (x y : ℕ → ℕ) (k : ℕ) → k ≢ i → k ≢ j → put (put d i x) j y k ≡ d k
put_twice d i j x y k h h' = put_ne (put d i x) j y k h' ∙ put_ne d i x k h

pub bitmap_block_ge : (d : Disk) → 3 ≤ bitmap_block d
unfolding bitmap_block
bitmap_block_ge d = omega arith

pub same_super :
    (d d' : Disk) → d' 1 ≡ d 1 → (bitmap_block d' ≡ bitmap_block d) × (nblocks d' ≡ nblocks d)
unfolding bitmap_block nblocks ninodes
same_super d d' e = (ap (λ b. 3 + word b 2 * 64 % u32_mod / bsize) e, ap (λ b. word b 1) e)

pub in_use_at :
    (d : Disk) (q bit : ℕ)
    → bit < bsize * 8
    → in_use d (bsize * 8 * q + bit) ≡ flag_at bit (d (bitmap_block d + q))
unfolding in_use
in_use_at d q bit h =
    ap (λ x. flag_at x (d (bitmap_block d + (bsize * 8 * q + bit) / (bsize * 8))))
      (let e : (bsize * 8 * q + bit) % (bsize * 8) ≡ bit = omega arith in e)
    ∙ ap (λ x. flag_at bit (d (bitmap_block d + x)))
        (let e : (bsize * 8 * q + bit) / (bsize * 8) ≡ q = omega arith in e)

-- One bit of a block of the bitmap is changed.
pub in_use-changed :
    (d d' : Disk) (q bit v : ℕ) (block : ℕ → ℕ)
    → d' 1 ≡ d 1
    → bit < bsize * 8
    → d' (bitmap_block d + q) ≡ block
    → ((c : ℕ) → flag_at c block ≡ (if c == bit then v else flag_at c (d (bitmap_block d + q))))
    → (c : ℕ)
    → (c / (bsize * 8) ≢ q
        → d' (bitmap_block d + c / (bsize * 8)) ≡ d (bitmap_block d + c / (bsize * 8)))
    → in_use d' c ≡ (if c == bsize * 8 * q + bit then v else in_use d c)
unfolding in_use
in_use-changed d d' q bit v block super lt here flags c other =
    let (bb, _) = same_super d d' super in
    ap (λ x. flag_at (c % (bsize * 8)) (d' (x + c / (bsize * 8)))) bb
    ∙ elim (ℕ_discrete (c / (bsize * 8)) q) [
      | yes e ↦
          ap (λ x. flag_at (c % (bsize * 8)) (d' (bitmap_block d + x))) e
          ∙ ap (flag_at (c % (bsize * 8))) here
          ∙ flags (c % (bsize * 8))
          ∙ ground (arith, ap (λ x. flag_at (c % (bsize * 8)) (d (bitmap_block d + x))) e)
      | no ne ↦
          ap (flag_at (c % (bsize * 8))) (other ne)
          ∙ sym (if_false _ _ (let t : (c == bsize * 8 * q + bit) ≡ false = ground arith in t))
    ]

pub take_bit-Allocated :
    (d : Disk) (q bit : ℕ)
    → IsFormatted d
    → bit < bsize * 8
    → bsize * 8 * q + bit < nblocks d
    → flag_at bit (d (bitmap_block d + q)) ≡ 0
    → Allocated d (bsize * 8 * q + bit) (take_bit (bsize * 8 * q) bit (bitmap_block d + q) d).1
unfolding take_bit zero_block first_data
take_bit-Allocated d q bit f lt below z =
    let lba = bsize * 8 * q + bit in
    let index = bitmap_block d + q in
    let free : in_use d lba ≡ 0 = in_use_at d q bit lt ∙ z in
    let data_block : first_data d ≤ lba = elim (dec_lt lba (first_data d)) [
      | yes l ↦ absurd (omega (arith, f.marked lba l, free))
      | no n ↦ omega arith
    ] in
    let ge = bitmap_block_ge d in
    let here : put (put d index (set_flag bit (d index))) lba (λ j. 0) index
        ≡ set_flag bit (d index) =
      put_ne (put d index (set_flag bit (d index))) lba (λ j. 0) index (omega (arith, data_block))
      ∙ put_self d index (set_flag bit (d index)) in
    record {
      was_free = free;
      below = below;
      zeroed = put_self (put d index (set_flag bit (d index))) lba (λ j. 0);
      data_block = data_block;
      kept = λ other ne ne'. put_twice d index lba _ _ other (omega (arith, ne')) ne;
      now_used = λ c lc.
          in_use-changed d _ q bit 1 (set_flag bit (d index))
            (put_twice d index lba _ _ 1 (omega (arith, ge)) (omega (arith, ge, data_block))) lt
            here (λ x. flag_at-set_flag bit (d index) x z) c
            (λ ne.
              put_twice d index lba _ _ (bitmap_block d + c / (bsize * 8)) (omega (arith, ne))
                (omega (arith, data_block)));
    }
