-- ===== src/Fs/File.antt =====
-- A file of src/fs.cc: `read_inode` of its bytes, and `write_to_disk` beside them.
use babyos.Prelude.{
  fun_ext, ℕ, ◌+◌, ◌-◌, ◌*◌, ◌/◌, ◌≤◌, ◌<◌, ◌≡◌, ◌≢◌, ◌⊎◌, inl, inr, ◌∙◌, ap, false, Bool-cases,
  Option, some, none, ◌==◌, if◌then◌else◌, if_true, if_false, ltb, arith, min, add32, u32_mod,
}
use babyos.BlockDev.{put}
use babyos.BlockDev.Held.{put_ne}
use babyos.Fs.{
  Disk, Inode, bsize, max_file_size, type_dev, ninodes, bitmap_block, store, rounds_of, read_loop,
  read_inode, write_to_disk,
}
use babyos.Fs.Bitmap.{first_data, IsFormatted}
use babyos.Fs.Owner.{lba_at, IsData, Owned, Own-moved}
use babyos.Fs.Fresh.{lba_at-kept}
use babyos.Fs.Grown.{put-Overwritten}
use babyos.Fs.Write.{byte_at, Enough}
use babyos.Fs.Read.{read_loop-bytes}

-- A file that is not a device, on a formatted disk: its blocks are its own, every byte below its size
-- has a block, and its number is one of the disk.
pub record IsFile (inode : Inode) (d : Disk) : Type 0 where
  pub formatted : IsFormatted d
  pub owned : Owned inode d
  pub regular : inode.type ≢ type_dev
  pub has_blocks : (j : ℕ) → j < inode.size → lba_at inode d (j / bsize) ≢ 0
  pub fits : inode.size ≤ max_file_size * bsize
  pub numbered : inode.inum < ninodes d
  pub table_fits : ninodes d * 64 < u32_mod

pub rounds-Enough : (offset size : ℕ) → Enough (rounds_of offset size) size offset
rounds-Enough offset size = inr (omega arith)

-- How many bytes `read_inode` reads.
abbrev pub readable : ℕ → ℕ → ℕ → ℕ
readable file_size offset size = min size (file_size - offset)

-- `read_inode` of a file reads the bytes of the file from `offset` on, as many as asked for but not more
-- than there are, to the start of `dst`; it returns their number and changes neither the file nor the
-- disk. Past the end of the file it fails and changes nothing. The end of what is asked for fits 32 bits.
pub read_inode-bytes :
    (dev : ℕ → Option ℕ) (inode : Inode) (dst : ℕ → ℕ) (offset size : ℕ) (d : Disk)
    → IsFile inode d
    → offset + size < u32_mod
    → ((inode.size < offset) × (read_inode dev inode dst offset size d ≡ (none, (dst, inode, d))))
      ⊎ ((dst' : ℕ → ℕ) × (read_inode dev inode dst offset size d
            ≡ (some (readable inode.size offset size), (dst', inode, d)))
          × (dst'
              ≡ store 0 (readable inode.size offset size) (λ i. byte_at inode d (offset + i)) dst))
unfolding read_inode
read_inode-bytes dev inode dst offset size d f small =
    let regular : (inode.type == type_dev) ≡ false = ground (arith, f.regular) in
    let sum : add32 offset size ≡ offset + size = omega arith in
    elim (Bool-cases (ltb inode.size offset)) [
      | inl t ↦ inl (ground (arith, t), if_false _ _ regular ∙ if_true _ _ t)
      | inr t ↦
          let inside : offset ≤ inode.size = ground (arith, t) in
          let size' : ℕ =
            if ltb inode.size (add32 offset size) then inode.size - offset else size in
          let clamp : size' ≡ readable inode.size offset size = ground (arith, sum, inside) in
          let n = readable inode.size offset size in
          let (dst', e, bytes) =
            read_loop-bytes (rounds_of offset n) 0 n offset inode d dst (rounds-Enough offset n)
              (omega (arith, f.fits, inside)) (λ j a b. f.has_blocks j (omega (arith, inside))) in
          inr (
            dst',
            if_false _ _ regular
                ∙ if_false _ _ t
                ∙ ap (λ s. (some s, read_loop (rounds_of offset s) 0 s offset inode d dst)) clamp
                ∙ ap (λ r. (some n, r)) e,
            fun_ext bytes,
          )
    ]

-- A file whose inode has been written to the disk.
pub record Saved (inode : Inode) (d d' : Disk) : Type 0 where
  pub formatted : IsFormatted d'
  pub super : d' 1 ≡ d 1
  pub owned : Owned inode d'
  pub same_map : (b : ℕ) → lba_at inode d' b ≡ lba_at inode d b
  pub kept : (x : ℕ) → IsData d x → d' x ≡ d x

below_bitmap :
    (inum : ℕ) (d : Disk)
    → inum < ninodes d
    → ninodes d * 64 < u32_mod
    → inum / 8 + 2 < bitmap_block d
unfolding bitmap_block
below_bitmap inum d h h' = omega arith

bitmap_below : (d : Disk) → bitmap_block d < first_data d
unfolding first_data
bitmap_below d = omega arith

pub write_to_disk-Saved :
    (inode : Inode) (d : Disk)
    → IsFormatted d
    → Owned inode d
    → inode.inum < ninodes d
    → ninodes d * 64 < u32_mod
    → Saved inode d (write_to_disk inode d)
unfolding write_to_disk
write_to_disk-Saved inode d f o h h' =
    let low = below_bitmap inode.inum d h h' in
    let x = inode.inum / 8 + 2 in
    let over = put-Overwritten d x _ f (omega arith) (λ c lt. omega (arith, low)) in
    let kept : (y : ℕ) → IsData d y → put d x _ y ≡ d y =
      λ y g. put_ne d x _ y (omega (arith, low, g.above, bitmap_below d)) in
    let same =
      lba_at-kept inode d (put d x _)
        (elim o.own.table_ok [ inl z ↦ inl z | inr g ↦ inr (kept _ g) ]) in
    record {
      formatted = over.formatted;
      super = over.super;
      owned = record {
        thirteen = o.thirteen;
        own =
            Own-moved (lba_at inode d) (lba_at inode (put d x _)) _ (IsData d) (IsData (put d x _))
              o.own (λ b lt. same b) over.still;
      };
      same_map = same;
      kept = kept;
    }
