-- ===== src/Fs/Grown.antt =====
-- What a step of `block_map` of src/fs.cc does to a file and the disk.
use babyos.Prelude.{
  ℕ, ◌+◌, ◌-◌, ◌*◌, ◌/◌, ◌%◌, ◌≤◌, ◌<◌, ◌≡◌, ◌≢◌, ◌⊎◌, inl, refl, ◌∙◌, sym, ap, true, false, ◌==◌,
  if_true, if_false, ltb, arith, get_or, set, get_or-set_ne,
}
use babyos.BlockDev.{put}
use babyos.BlockDev.Held.{put_ne}
use babyos.Fs.{Disk, Inode, bsize, ndirect, max_file_size, word, nblocks, flag_at, bitmap_block}
use babyos.Fs.Bitmap.{in_use, free_count, IsFormatted, same_super}
use babyos.Fs.Alloc.{free_count-same}
use babyos.Fs.Owner.{lba_at, IsData, Owned}
use babyos.Fs.Fresh.{first_data_ge, first_data_pos, same_first_data}

abbrev pub table_of : Inode → ℕ
table_of inode = get_or inode.addrs ndirect 0

-- A file after a step that gives it at most the blocks `n` and a table.
pub record Grown (cost : ℕ) (inode : Inode) (d : Disk) (inode' : Inode) (d' : Disk) : Type 0 where
  pub formatted : IsFormatted d'
  pub owned : Owned inode' d'
  pub super : d' 1 ≡ d 1
  pub same_fields : inode' ≡ record inode { addrs = inode'.addrs }
  pub kept : (x : ℕ) → IsData d x → x ≢ table_of inode → d' x ≡ d x
  pub still : (x : ℕ) → IsData d x → IsData d' x
  pub count : free_count d (nblocks d) ≤ free_count d' (nblocks d') + cost
  pub table : (table_of inode' ≡ table_of inode) ⊎ (in_use d (table_of inode') ≡ 0)

-- The entry of block `b` of a file after `block_map`.
pub record IsEntry (b : ℕ) (inode : Inode) (d : Disk) (lba : ℕ) (inode' : Inode) (d' : Disk)
    : Type 0 where
  pub here : lba_at inode' d' b ≡ lba
  pub data_block : IsData d' lba
  pub others : (c : ℕ) → c < max_file_size → c ≢ b → lba_at inode' d' c ≡ lba_at inode d c
  pub old_or_fresh :
      (lba_at inode d b ≡ lba) ⊎ ((lba_at inode d b ≡ 0) × (in_use d lba ≡ 0) × (d' lba ≡ (λ j. 0)))

-- What `block_map` of block `b` leaves.
pub record Mapped (b : ℕ) (inode : Inode) (d : Disk) (lba : ℕ) (inode' : Inode) (d' : Disk)
    : Type 0 where
  pub grown : Grown 2 inode d inode' d'
  pub entry : IsEntry b inode d lba inode' d'

-- A block of data overwritten.
pub record Overwritten (d : Disk) (x : ℕ) (d' : Disk) : Type 0 where
  pub formatted : IsFormatted d'
  pub super : d' 1 ≡ d 1
  pub still : (y : ℕ) → IsData d y → IsData d' y
  pub count : free_count d' (nblocks d') ≡ free_count d (nblocks d)

-- A block that is neither the super block nor one of the bitmap is overwritten.
pub put-Overwritten :
    (d : Disk) (x : ℕ) (block : ℕ → ℕ)
    → IsFormatted d
    → 1 ≢ x
    → ((c : ℕ) → c < nblocks d → bitmap_block d + c / (bsize * 8) ≢ x)
    → Overwritten d x (put d x block)
put-Overwritten d x block f not_super not_bitmap =
    let d' : Disk = put d x block in
    let super : d' 1 ≡ d 1 = put_ne d x block 1 not_super in
    let fd = same_first_data d d' super in
    let (bb, nb) = same_super d d' super in
    let used : (c : ℕ) → c < nblocks d → in_use d' c ≡ in_use d c = λ c lt.
      unfold in_use in
      ap (λ y. flag_at (c % (bsize * 8)) (d' (y + c / (bsize * 8)))) bb
      ∙ ap (flag_at (c % (bsize * 8)))
          (put_ne d x block (bitmap_block d + c / (bsize * 8)) (not_bitmap c lt)) in
    record {
      formatted = record {
        marked = λ c lt. used c (omega (arith, f.fits, fd)) ∙ f.marked c (omega (arith, fd));
        small = omega (arith, f.small, nb);
        fits = omega (arith, f.fits, fd, nb);
      };
      super = super;
      still = λ y gy. record {
        above = omega (arith, gy.above, fd);
        below = omega (arith, gy.below, nb);
        used = used y gy.below ∙ gy.used;
      };
      count = ap (free_count d') nb ∙ free_count-same d d' (nblocks d) used;
    }

pub data_put :
    (d : Disk) (x : ℕ) (block : ℕ → ℕ)
    → IsFormatted d
    → IsData d x
    → Overwritten d x (put d x block)
data_put d x block f g =
    put-Overwritten d x block f (omega (arith, g.above, first_data_pos d))
      (λ c lt. omega (arith, g.above, first_data_ge d c lt))

pub Grown-none :
    (cost : ℕ) (inode : Inode) (d : Disk)
    → IsFormatted d
    → Owned inode d
    → Grown cost inode d inode d
Grown-none cost inode d f o = record {
  formatted = f;
  owned = o;
  super = refl;
  same_fields = refl;
  kept = λ x g ne. refl;
  still = λ x g. g;
  count = omega arith;
  table = inl refl;
}

-- The direct blocks.
pub lba_at-direct :
    (inode : Inode) (d : Disk) (b : ℕ) → b < ndirect → lba_at inode d b ≡ get_or inode.addrs b 0
unfolding lba_at
lba_at-direct inode d b h = if_true _ _ (let t : ltb b ndirect ≡ true = ground arith in t)

-- The blocks behind the table.
pub lba_at-indirect :
    (inode : Inode) (d : Disk) (b : ℕ)
    → ndirect ≤ b
    → table_of inode ≢ 0
    → lba_at inode d b ≡ word (d (table_of inode)) (b - ndirect)
unfolding lba_at
lba_at-indirect inode d b h nz =
    if_false _ _ (let t : ltb b ndirect ≡ false = ground arith in t)
    ∙ if_false _ _ (let t : (table_of inode == 0) ≡ false = ground arith in t)

pub lba_at-no_table :
    (inode : Inode) (d : Disk) (b : ℕ) → ndirect ≤ b → table_of inode ≡ 0 → lba_at inode d b ≡ 0
unfolding lba_at
lba_at-no_table inode d b h z =
    if_false _ _ (let t : ltb b ndirect ≡ false = ground arith in t)
    ∙ if_true _ _ (let t : (table_of inode == 0) ≡ true = ground arith in t)

pub word_zero : (i : ℕ) → word (λ j. 0) i ≡ 0
unfolding word
word_zero i = refl

pub set_addr-others :
    (inode : Inode) (d : Disk) (i l : ℕ)
    → i < ndirect
    → (c : ℕ) → c ≢ i
    → lba_at (record inode { addrs = set inode.addrs i l }) d c ≡ lba_at inode d c
unfolding lba_at
set_addr-others inode d i l h c ne =
    let e = get_or-set_ne inode.addrs i c l 0 (λ q. ne (sym q)) in
    let t = get_or-set_ne inode.addrs i ndirect l 0 (omega arith) in rw (e, t) refl
