-- ===== src/Fs.antt =====
-- The blocks of files: file_system_t of src/fs.cc up to read_inode and write_inode, and inode_t of
-- src/inode.cc. The disk is a function from block numbers to functions from offsets to bytes: reading,
-- changing and writing a block through block_dev_t is a change of that function, as
-- BlockDev/Refine shows. Memory that is read or written is a function too, from the pointer on.
pub mod Bits
pub mod Bitmap
pub mod Alloc
pub mod Free
pub mod Owner
pub mod Fresh
pub mod Grown
pub mod Direct
pub mod Map
pub mod Read
pub mod Write
pub mod File
pub mod Written
pub mod Dinode
pub mod Sample
mod Tests
use babyos.Prelude.{
  ℕ, zero, suc, ◌+◌, ◌-◌, ◌*◌, ◌/◌, ◌%◌, ◌^◌, Bool, true, false, ◌&&◌, Option, none, some, List, [],
  ◌∷◌, ltb, leb, ◌==◌, if◌then◌else◌, get_or, set, add32, u32_mod, min,
}
use babyos.BlockDev.{put}

abbrev pub Disk : Type 0
Disk = ℕ → ℕ → ℕ

-- `BSIZE`, `NDIRECT` and `MAX_FILE_SIZE`
abbrev pub bsize : ℕ
bsize = 512

abbrev pub ndirect : ℕ
ndirect = 12

abbrev pub max_file_size : ℕ
max_file_size = 140

-- Byte `k` of a number, and a word of a block, in little-endian order.
pub byte_of : ℕ → ℕ → ℕ
byte_of zero v = v % 256
byte_of (suc k) v = byte_of k (v / 256)

pub word : (ℕ → ℕ) → ℕ → ℕ
word block i =
    block (4 * i)
    + 256 * block (4 * i + 1)
    + 0x1_0000 * block (4 * i + 2)
    + 0x100_0000 * block (4 * i + 3)

pub put_word : ℕ → ℕ → (ℕ → ℕ) → ℕ → ℕ
put_word i v block j = if j / 4 == i then byte_of (j % 4) v else block j

-- `read_super_block`: m_nblocks and m_ninodes of block 1
pub nblocks : Disk → ℕ
nblocks d = word (d 1) 1

pub ninodes : Disk → ℕ
ninodes d = word (d 1) 2

-- `bitmap_block`
pub bitmap_block : Disk → ℕ
bitmap_block d = 3 + ninodes d * 64 % u32_mod / bsize

pub zero_block : ℕ → Disk → Disk
zero_block block d = put d block (λ j. 0)

-- `b & (1 << k)`, which is 1 or 0 here
pub bit_at : ℕ → ℕ → ℕ
bit_at zero b = b % 2
bit_at (suc k) b = bit_at k (b / 2)

abbrev pub flag_at : ℕ → (ℕ → ℕ) → ℕ
flag_at bit block = bit_at (bit % 8) (block (bit / 8))

-- `|= flag` where the flag is clear, and `&= ~mask` where it is set
pub set_flag : ℕ → (ℕ → ℕ) → ℕ → ℕ
set_flag bit block = put block (bit / 8) (block (bit / 8) + 2 ^ (bit % 8))

pub clear_flag : ℕ → (ℕ → ℕ) → ℕ → ℕ
clear_flag bit block = put block (bit / 8) (block (bit / 8) - 2 ^ (bit % 8))

-- The inner loop of `alloc_block`, with `n` bits to go
pub scan_bits : ℕ → ℕ → (ℕ → ℕ) → Option ℕ
scan_bits zero bit block = none
scan_bits (suc n) bit block =
    let rest = scan_bits n (bit + 1) block in if flag_at bit block == 0 then some bit else rest

-- `n` of a round
abbrev pub round_bits : ℕ → ℕ → ℕ
round_bits i total = if ltb total (add32 i (bsize * 8)) then total - i else bsize * 8

-- What `alloc_block` does with a bit that it found.
pub take_bit : ℕ → ℕ → ℕ → Disk → ℕ × Disk
take_bit i bit index d = (i + bit, zero_block (i + bit) (put d index (set_flag bit (d index))))

pub alloc_round : Option ℕ → ℕ → ℕ → Disk → ℕ × Disk → ℕ × Disk
alloc_round none i index d rest = rest
alloc_round (some bit) i index d rest = take_bit i bit index d

-- The outer loop of `alloc_block` over `total` blocks, in at most `rounds` rounds
pub alloc_loop : ℕ → ℕ → ℕ → ℕ → Disk → ℕ × Disk
alloc_loop zero i index total d = (0, d)
alloc_loop (suc rounds) i index total d =
    let rest = alloc_loop rounds (add32 i (bsize * 8)) (index + 1) total d in
    if ltb i total
    then alloc_round (scan_bits (round_bits i total) 0 (d index)) i index d rest
    else (0, d)

-- `alloc_block`, 0 where the disk is full
pub alloc_block : Disk → ℕ × Disk
alloc_block d = alloc_loop (suc (nblocks d / (bsize * 8))) 0 (bitmap_block d) (nblocks d) d

-- `free_block`; `false` for its early return, which leaves the buffer of the bitmap locked
pub free_block : ℕ → Disk → Bool × Disk
free_block lba d =
    let index = bitmap_block d + lba / (bsize * 8) in
    let bit = lba % (bsize * 8) in
    if flag_at bit (d index) == 0
    then (false, d)
    else (true, put d index (clear_flag bit (d index)))

-- `inode_t`
pub record Inode : Type 0 where
  pub dev : ℕ
  pub inum : ℕ
  pub ref : ℕ
  pub valid : ℕ
  pub type : ℕ
  pub major : ℕ
  pub minor : ℕ
  pub nlinks : ℕ
  pub size : ℕ
  pub addrs : List ℕ

abbrev pub type_dev : ℕ
type_dev = 3

-- "if (inode->m_addrs[i] == 0) { inode->m_addrs[i] = alloc_block(...) }"
pub ensure_addr : Inode → ℕ → Disk → Inode × Disk
ensure_addr inode i d =
    let (lba, d') = alloc_block d in
    if get_or inode.addrs i 0 == 0
    then (record inode { addrs = set inode.addrs i lba }, d')
    else (inode, d)

-- `block_map` below the table of indirect blocks. The code holds the buffer of the table over `alloc_block`; on a disk without a
-- cache no buffer is taken away meanwhile.
pub map_indirect : ℕ → Inode → Disk → ℕ × Inode × Disk
map_indirect entry inode d =
    let table = get_or inode.addrs ndirect 0 in
    let (fresh, d') = alloc_block d in
    if word (d table) entry == 0
    then (fresh, inode, put d' table (put_word entry fresh (d table)))
    else (word (d table) entry, inode, d)

-- `block_map`: the block, and the inode and the disk after it
pub block_map : Inode → ℕ → Disk → ℕ × Inode × Disk
block_map inode block d =
    if ltb block ndirect
    then (let (inode', d') = ensure_addr inode block d in (get_or inode'.addrs block 0, inode', d'))
    else (let (inode', d') = ensure_addr inode ndirect d in
        map_indirect (block - ndirect) inode' d')

-- `memcpy(to + at, from, n)`, as Mem/Copy shows
pub store : ℕ → ℕ → (ℕ → ℕ) → (ℕ → ℕ) → ℕ → ℕ
store at n from to j = if leb at j && ltb j (at + n) then from (j - at) else to j

-- `nbyte` of a round
abbrev pub round_bytes : ℕ → ℕ → ℕ
round_bytes offset left = min (bsize - offset % bsize) left

-- How many blocks a range touches, the rounds of the loops of `read_inode` and `write_inode`.
abbrev pub rounds_of : ℕ → ℕ → ℕ
rounds_of offset size = (offset % bsize + size + (bsize - 1)) / bsize

-- The loop of `read_inode`; `left` is `size - total`.
pub read_loop : ℕ → ℕ → ℕ → ℕ → Inode → Disk → (ℕ → ℕ) → (ℕ → ℕ) × Inode × Disk
read_loop zero total left offset inode d dst = (dst, inode, d)
read_loop (suc rounds) total left offset inode d dst =
    let (lba, inode', d') = block_map inode (offset / bsize) d in
    let n = round_bytes offset left in
    let rest =
      read_loop rounds (total + n) (left - n) (add32 offset n) inode' d'
        (store total n (λ i. d' lba (offset % bsize + i)) dst) in
    if ltb 0 left then rest else (dst, inode, d)

-- `read_inode`: its result, `none` for -1, and what becomes of `dst`, the inode and the disk. `dev` is
-- what the driver of a device with that number answers, `none` where there is no driver.
pub read_inode :
    (ℕ → Option ℕ) → Inode → (ℕ → ℕ) → ℕ → ℕ → Disk → Option ℕ × ((ℕ → ℕ) × Inode × Disk)
read_inode dev inode dst offset size d =
    let size' = if ltb inode.size (add32 offset size) then inode.size - offset else size in
    if inode.type == type_dev
    then (dev inode.major, (dst, inode, d))
    else if ltb inode.size offset
    then (none, (dst, inode, d))
    else (some size', read_loop (rounds_of offset size') 0 size' offset inode d dst)

-- The loop of `write_inode`; the memory is that from `src` on.
pub write_loop : ℕ → ℕ → ℕ → (ℕ → ℕ) → Inode → Disk → Inode × Disk
write_loop zero left offset src inode d = (inode, d)
write_loop (suc rounds) left offset src inode d =
    let (lba, inode', d') = block_map inode (offset / bsize) d in
    let n = round_bytes offset left in
    let rest =
      write_loop rounds (left - n) (add32 offset n) (λ i. src (i + n)) inode'
        (put d' lba (store (offset % bsize) n src (d' lba))) in
    if ltb 0 left then rest else (inode, d)

-- Byte `k` of a `disk_inode_t`
pub dinode_byte : Inode → ℕ → ℕ
dinode_byte inode k =
    if ltb k 2
    then byte_of k inode.type
    else if ltb k 4
    then byte_of (k - 2) inode.major
    else if ltb k 6
    then byte_of (k - 4) inode.minor
    else if ltb k 8
    then byte_of (k - 6) inode.nlinks
    else if ltb k 12
    then byte_of (k - 8) inode.size
    else byte_of (k % 4) (get_or inode.addrs (k / 4 - 3) 0)

-- `write_to_disk`
pub write_to_disk : Inode → Disk → Disk
write_to_disk inode d =
    let block = inode.inum / 8 + 2 in
    put d block (λ j. if j / 64 == inode.inum % 8 then dinode_byte inode (j % 64) else d block j)

-- A `uint16` of a block
abbrev pub half : (ℕ → ℕ) → ℕ → ℕ
half block at = block at + 256 * block (at + 1)

pub words : ℕ → ℕ → (ℕ → ℕ) → List ℕ
words zero i block = []
words (suc n) i block = word block i ∷ words n (i + 1) block

-- `read_from_disk`, with `inode_block` and `inode_offset`
pub read_from_disk : ℕ → Inode → Disk → Inode
read_from_disk id inode d =
    let block = d (2 + id / 8) in
    let at = id % 8 * 64 in
    if inode.valid == 0
    then record inode {
      type = half block at;
      major = half block (at + 2);
      minor = half block (at + 4);
      nlinks = half block (at + 6);
      size = word block (id % 8 * 16 + 2);
      addrs = words (ndirect + 1) (id % 8 * 16 + 3) block;
      valid = 1;
    }
    else inode

-- The end of `write_inode`: the inode grows and is written out.
pub grow : ℕ → ℕ → Inode → Disk → Inode × Disk
grow size reached inode d =
    let inode' = record inode { size = reached } in
    if ltb 0 size && ltb inode.size reached then (inode', write_to_disk inode' d) else (inode, d)

-- `write_inode`: its result, `none` for -1, the inode and the disk
pub write_inode : (ℕ → Option ℕ) → Inode → (ℕ → ℕ) → ℕ → ℕ → Disk → Option ℕ × (Inode × Disk)
write_inode dev inode src offset size d =
    let (inode', d') = write_loop (rounds_of offset size) size offset src inode d in
    if inode.type == type_dev
    then (dev inode.major, (inode, d))
    else if ltb inode.size offset
    then (none, (inode, d))
    else if ltb (max_file_size * bsize) (add32 offset size)
    then (none, (inode, d))
    else (some size, grow size (add32 offset size) inode' d')
