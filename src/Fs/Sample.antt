-- ===== src/Fs/Sample.antt =====
-- A disk of 64 blocks with a file of one block, for the tests.
use babyos.Prelude.{
  ℕ, zero, suc, ◌/◌, ◌≤◌, ◌<◌, ◌≡◌, ◌≢◌, ◌⊎◌, inl, inr, refl, ◌∙◌, sym, ap, Option, none, ◌==◌,
  if◌then◌else◌, arith, List, [], ◌∷◌, get_or,
}
use babyos.Fs.{Disk, Inode, bsize, nblocks, ninodes, bitmap_block, bit_at, word}
use babyos.Fs.Bitmap.{in_use, free_count, first_data, IsFormatted}
use babyos.Fs.Owner.{lba_at, IsData, Owned}
use babyos.Fs.File.{IsFile}

-- 64 blocks, 8 inodes and so a bitmap in block 4, with the blocks 0 to 5 in use; block 5 holds sevens.
abbrev pub small_disk : Disk
small_disk b j =
    if b == 1
    then (if j == 4 then 64 else if j == 8 then 8 else 0)
    else if b == 4
    then (if j == 0 then 63 else 0)
    else if b == 5
    then 7
    else 0

abbrev pub zeros : ℕ → List ℕ
zeros zero = []
zeros (suc n) = 0 ∷ zeros n

abbrev pub small_file : ℕ → Inode
small_file size = record {
  dev = 1;
  inum = 3;
  ref = 1;
  valid = 1;
  type = 2;
  major = 0;
  minor = 0;
  nlinks = 1;
  size = size;
  addrs = 5 ∷ zeros 12;
}

pub small_disk_blocks : nblocks small_disk ≡ 64
unfolding nblocks word
small_disk_blocks = refl

small_disk_inodes : ninodes small_disk ≡ 8
unfolding ninodes word
small_disk_inodes = refl

pub small_disk_data : first_data small_disk ≡ 5
unfolding first_data bitmap_block nblocks ninodes word
small_disk_data = refl

pub small_disk_used : (lba : ℕ) → lba < 6 → in_use small_disk lba ≡ 1
unfolding in_use bit_at bitmap_block ninodes word
small_disk_used zero h = refl
small_disk_used (suc zero) h = refl
small_disk_used (suc (suc zero)) h = refl
small_disk_used (suc (suc (suc zero))) h = refl
small_disk_used (suc (suc (suc (suc zero)))) h = refl
small_disk_used (suc (suc (suc (suc (suc zero))))) h = refl
small_disk_used (suc (suc (suc (suc (suc (suc n)))))) h = absurd (omega arith)

small_disk_free : free_count small_disk 64 ≡ 58
unfolding free_count in_use bit_at bitmap_block ninodes word
small_disk_free = refl

pub small_disk-IsFormatted : IsFormatted small_disk
small_disk-IsFormatted = record {
  marked = λ lba lt. small_disk_used lba (omega (arith, small_disk_data));
  small = omega (arith, small_disk_blocks);
  fits = omega (arith, small_disk_blocks, small_disk_data);
}

pub zeros_get : (n i : ℕ) → get_or (zeros n) i 0 ≡ 0
zeros_get zero i = refl
zeros_get (suc n) zero = refl
zeros_get (suc n) (suc i) = zeros_get n i

five-IsData : IsData small_disk 5
five-IsData = record {
  above = omega (arith, small_disk_data);
  below = omega (arith, small_disk_blocks);
  used = small_disk_used 5 (omega arith);
}

module _ (size : ℕ) where
  first_lba : lba_at (small_file size) small_disk 0 ≡ 5
  unfolding lba_at
  first_lba = refl

  later_lba : (b : ℕ) → lba_at (small_file size) small_disk (suc b) ≡ 0
  unfolding lba_at
  later_lba b = ground (arith, zeros_get 12 b)

  five_ok :
      (b : ℕ)
      → (lba_at (small_file size) small_disk b ≡ 0)
        ⊎ IsData small_disk (lba_at (small_file size) small_disk b)
  unfolding lba_at
  five_ok zero = inr five-IsData
  five_ok (suc b) = inl (ground (arith, zeros_get 12 b))

  five_apart :
      (b c : ℕ)
      → lba_at (small_file size) small_disk b ≢ 0
      → lba_at (small_file size) small_disk b ≡ lba_at (small_file size) small_disk c
      → b ≡ c
  five_apart zero zero nz e = refl
  five_apart zero (suc c) nz e = absurd (nz (e ∙ later_lba c))
  five_apart (suc b) c nz e = absurd (nz (later_lba b))

  pub small_file-Owned : Owned (small_file size) small_disk
  small_file-Owned = record {
    thirteen = refl;
    own = record {
      block_ok = λ b lt. five_ok b;
      table_ok = inl refl;
      apart = λ b c lt lt' nz e. five_apart b c nz e;
      table_apart = λ b lt nz e. nz e;
    };
  }

  pub small_file-IsFile : size ≤ bsize → IsFile (small_file size) small_disk
  unfolding lba_at
  small_file-IsFile le = record {
    formatted = small_disk-IsFormatted;
    owned = small_file-Owned;
    regular = λ e. omega (arith, e);
    has_blocks = λ j lt z. omega (
      arith,
      sym first_lba
          ∙ ap (lba_at (small_file size) small_disk) (let e : 0 ≡ j / bsize = omega arith in e)
          ∙ z,
    );
    fits = omega arith;
    numbered = omega (arith, small_disk_inodes);
    table_fits = omega (arith, small_disk_inodes);
  }

abbrev pub no_dev : ℕ → Option ℕ
no_dev major = none

pub enough_free : (n : ℕ) → n ≤ 58 → n ≤ free_count small_disk (nblocks small_disk)
enough_free n h = omega (arith, ap (free_count small_disk) small_disk_blocks, small_disk_free)
