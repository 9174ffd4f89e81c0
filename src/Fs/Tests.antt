-- ===== src/Fs/Tests.antt =====
-- Runs of src/fs.cc on a small disk.
use babyos.Prelude.{ℕ, zero, suc, ◌*◌, ◌<◌, ◌≡◌, refl, some, arith, get_or, u32_mod}
use babyos.Fs.{
  Disk, Inode, nblocks, ninodes, bitmap_block, bit_at, word, alloc_block, alloc_loop, alloc_round,
  scan_bits, take_bit, block_map, store, rounds_of, read_inode, write_inode,
}
use babyos.Fs.Grown.{Mapped}
use babyos.Fs.Map.{block_map-Mapped}
use babyos.Fs.Written.{Written, write_inode-Written, write_inode-read_inode}
use babyos.Fs.Dinode.{Fits}
use babyos.Fs.Sample.{
  small_disk, small_file, zeros, zeros_get, no_dev, small_disk-IsFormatted, small_file-Owned,
  small_file-IsFile, enough_free,
}

small_file-Fits : Fits (small_file 100)
small_file-Fits = record {
  type_fits = omega arith;
  major_fits = omega arith;
  minor_fits = omega arith;
  nlinks_fits = omega arith;
  size_fits = omega arith;
  thirteen = refl;
  addrs_fit = small_addrs;
}
  where
    small_addrs : (i : ℕ) → get_or (small_file 100).addrs i 0 < u32_mod
    small_addrs zero = omega arith
    small_addrs (suc i) = omega (arith, zeros_get 12 i)

-- The first free block is 6, and taking it marks it.
first_free : (alloc_block small_disk).0 ≡ 6
unfolding alloc_block alloc_loop nblocks word alloc_round scan_bits bit_at bitmap_block ninodes
    take_bit
first_free = refl

block_map-Mapped_example :
    (lba : ℕ) × (inode' : Inode) × (d' : Disk) × (block_map (small_file 100) 20 small_disk
      ≡ (lba, inode', d'))
    × Mapped 20 (small_file 100) small_disk lba inode' d'
block_map-Mapped_example =
    block_map-Mapped 20 (small_file 100) small_disk (omega arith) small_disk-IsFormatted
      (small_file-Owned 100) (enough_free 2 (omega arith))

write_inode-Written_example :
    (inode' : Inode) × (d' : Disk) × (write_inode no_dev (small_file 100) (λ j. j) 90 500 small_disk
      ≡ (some 500, (inode', d')))
    × Written 90 500 (λ j. j) (small_file 100) small_disk inode' d'
write_inode-Written_example =
    write_inode-Written no_dev (small_file 100) (λ j. j) 90 500 small_disk
      (small_file-IsFile 100 (omega arith)) (omega arith) (omega arith)
      (enough_free (2 * rounds_of 90 500) (omega arith))

write_inode-read_inode_example :
    (inode' : Inode) × (d' : Disk) × (dst' : ℕ → ℕ) × (write_inode no_dev
        (small_file 100)
        (λ j. j)
        90
        500
        small_disk
      ≡ (some 500, (inode', d')))
    × (read_inode no_dev inode' (λ j. 0) 90 500 d' ≡ (some 500, (dst', inode', d')))
    × (dst' ≡ store 0 500 (λ j. j) (λ j. 0))
write_inode-read_inode_example =
    write_inode-read_inode no_dev (small_file 100) (λ j. j) (λ j. 0) 90 500 small_disk
      (small_file-IsFile 100 (omega arith)) (omega arith) (omega arith)
      (enough_free (2 * rounds_of 90 500) (omega arith))

abbrev stale : Inode
stale = record {
  dev = 1;
  inum = 3;
  ref = 1;
  valid = 0;
  type = 0;
  major = 0;
  minor = 0;
  nlinks = 0;
  size = 0;
  addrs = zeros 13;
}
