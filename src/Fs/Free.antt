-- ===== src/Fs/Free.antt =====
-- `free_block` of src/fs.cc on the bitmap of blocks.
use babyos.Prelude.{
  ℕ, ◌+◌, ◌*◌, ◌/◌, ◌%◌, ◌≤◌, ◌<◌, ◌≡◌, ◌≢◌, ◌∙◌, sym, ap, true, false, ◌==◌, if◌then◌else◌,
  if_true, if_false, arith,
}
use babyos.BlockDev.{put}
use babyos.BlockDev.Held.{put_self, put_ne}
use babyos.Fs.{Disk, bsize, bitmap_block, nblocks, flag_at, clear_flag, free_block}
use babyos.Fs.Bits.{flag_at-clear_flag}
use babyos.Fs.Bitmap.{
  in_use, free_count, first_data, IsFormatted, same_super, in_use-changed, bitmap_block_ge,
}
use babyos.Fs.Alloc.{free_count-taken}
use babyos.Fs.Fresh.{same_first_data}

-- What giving a block back to the bitmap leaves.
pub record Freed (d : Disk) (lba : ℕ) (d' : Disk) : Type 0 where
  pub formatted : IsFormatted d'
  pub now_free : in_use d' lba ≡ 0
  pub marks : (c : ℕ) → in_use d' c ≡ (if c == lba then 0 else in_use d c)
  pub kept : (other : ℕ) → other ≢ bitmap_block d + lba / (bsize * 8) → d' other ≡ d other
  pub count : free_count d' (nblocks d') ≡ free_count d (nblocks d) + 1

cleared-Freed :
    (d : Disk) (lba : ℕ)
    → IsFormatted d
    → first_data d ≤ lba
    → lba < nblocks d
    → in_use d lba ≡ 1
    → Freed d lba (
        put d
          (bitmap_block d + lba / (bsize * 8))
          (clear_flag (lba % (bsize * 8)) (d (bitmap_block d + lba / (bsize * 8)))))
cleared-Freed d lba f above below used =
    let index = bitmap_block d + lba / (bsize * 8) in
    let bit = lba % (bsize * 8) in
    let block = clear_flag bit (d index) in
    let d' : Disk = put d index block in
    let super : d' 1 ≡ d 1 = put_ne d index block 1 (omega (arith, bitmap_block_ge d)) in
    let (bb, nb) = same_super d d' super in
    let fd = same_first_data d d' super in
    let whole : bsize * 8 * (lba / (bsize * 8)) + bit ≡ lba = omega arith in
    let marks : (c : ℕ) → in_use d' c ≡ (if c == lba then 0 else in_use d c) = λ c.
      in_use-changed d d' (lba / (bsize * 8)) bit 0 block super (omega arith)
        (put_self d index block) (λ x. flag_at-clear_flag bit (d index) x (unfold in_use in used)) c
        (λ ne. put_ne d index block (bitmap_block d + c / (bsize * 8)) (omega (arith, ne)))
      ∙ ap (λ x. if c == x then 0 else in_use d c) whole in
    let now_free : in_use d' lba ≡ 0 =
      marks lba ∙ if_true 0 (in_use d lba) (let t : (lba == lba) ≡ true = ground arith in t) in
    record {
      formatted = record {
        marked = λ c lt.
            marks c
            ∙ if_false _ _ (let t : (c == lba) ≡ false = ground (arith, fd) in t)
            ∙ f.marked c (omega (arith, fd));
        small = omega (arith, f.small, nb);
        fits = omega (arith, f.fits, fd, nb);
      };
      now_free = now_free;
      marks = marks;
      kept = λ other ne. put_ne d index block other ne;
      count =
          let taken =
            free_count-taken d' d (nblocks d) lba below now_free
              (λ c lt. ground (arith, marks c, used)) in
          ap (free_count d') nb ∙ sym taken;
    }

clears :
    (d : Disk) (lba : ℕ)
    → in_use d lba ≡ 1
    → free_block lba d ≡ (
      true,
      put d
          (bitmap_block d + lba / (bsize * 8))
          (clear_flag (lba % (bsize * 8)) (d (bitmap_block d + lba / (bsize * 8)))),
    )
unfolding free_block in_use
clears d lba h = if_false _ _ (
    let t : (flag_at (lba % (bsize * 8)) (d (bitmap_block d + lba / (bsize * 8))) == 0) ≡ false =
      ground arith in
    t)

already_free : (d : Disk) (lba : ℕ) → in_use d lba ≡ 0 → free_block lba d ≡ (false, d)
unfolding free_block in_use
already_free d lba h = if_true _ _ (
    let t : (flag_at (lba % (bsize * 8)) (d (bitmap_block d + lba / (bsize * 8))) == 0) ≡ true =
      ground arith in
    t)

-- `free_block` of a block of data that is in use clears its mark and nothing else: one block more is
-- free and the disk is still formatted. Freed again, the block changes nothing, and the buffer of the
-- bitmap is not released.
free_block-Freed :
    (d : Disk) (lba : ℕ)
    → IsFormatted d
    → first_data d ≤ lba
    → lba < nblocks d
    → in_use d lba ≡ 1
    → (d' : Disk) × (free_block lba d ≡ (true, d'))
      × Freed d lba d'
      × (free_block lba d' ≡ (false, d'))
free_block-Freed d lba f above below used =
    let freed = cleared-Freed d lba f above below used in
    (_, clears d lba used, freed, already_free _ lba freed.now_free)
