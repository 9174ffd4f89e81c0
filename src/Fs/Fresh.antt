-- ===== src/Fs/Fresh.antt =====
-- A file of src/fs.cc beside a block that `alloc_block` has just taken.
use babyos.Prelude.{
  ℕ, ◌+◌, ◌-◌, ◌*◌, ◌/◌, ◌≤◌, ◌<◌, ◌≡◌, ◌≢◌, ◌⊎◌, inl, inr, ◌∙◌, sym, ap, arith, get_or,
}
use babyos.Fs.{Disk, Inode, bsize, ndirect, max_file_size, word, nblocks, bitmap_block, alloc_block}
use babyos.Fs.Bitmap.{
  in_use, free_count, first_data, IsFormatted, Allocated, same_super, bitmap_block_ge,
}
use babyos.Fs.Alloc.{Allocated-IsFormatted, Allocated-super, alloc_block_takes}
use babyos.Fs.Owner.{lba_at, IsData, Owned, Own-moved}

pub first_data_ge :
    (d : Disk) (lba : ℕ) → lba < nblocks d → bitmap_block d + lba / (bsize * 8) < first_data d
unfolding first_data
first_data_ge d lba h = omega arith

pub first_data_pos : (d : Disk) → 4 ≤ first_data d
unfolding first_data
first_data_pos d = omega (arith, bitmap_block_ge d)

pub same_first_data : (d d' : Disk) → d' 1 ≡ d 1 → first_data d' ≡ first_data d
unfolding first_data
same_first_data d d' e =
    let (bb, nb) = same_super d d' e in
    ap (λ x. x + nblocks d' / (bsize * 8) + 1) bb
    ∙ ap (λ x. bitmap_block d + x / (bsize * 8) + 1) nb

-- The map of a file depends on its table only.
pub lba_at-kept :
    (inode : Inode) (d d' : Disk)
    → (get_or inode.addrs ndirect 0 ≡ 0)
      ⊎ (d' (get_or inode.addrs ndirect 0) ≡ d (get_or inode.addrs ndirect 0))
    → (b : ℕ) → lba_at inode d' b ≡ lba_at inode d b
unfolding lba_at
lba_at-kept inode d d' (inl z) b = ground arith
lba_at-kept inode d d' (inr e) b = ground (arith, ap (λ x. word x (b - ndirect)) e)

-- What taking a block means for data that were there and for a file.
pub record Fresh (inode : Inode) (d : Disk) (l : ℕ) (d' : Disk) : Type 0 where
  pub formatted : IsFormatted d'
  pub super : d' 1 ≡ d 1
  pub data_block : IsData d' l
  pub was_free : in_use d l ≡ 0
  pub zeroed : d' l ≡ (λ j. 0)
  pub kept : (x : ℕ) → IsData d x → d' x ≡ d x
  pub still : (x : ℕ) → IsData d x → IsData d' x
  pub count : free_count d' (nblocks d') + 1 ≡ free_count d (nblocks d)
  pub same_map : (c : ℕ) → lba_at inode d' c ≡ lba_at inode d c
  pub new : (c : ℕ) → c < max_file_size → lba_at inode d c ≢ l
  pub new_table : l ≢ get_or inode.addrs ndirect 0
  pub owned : Owned inode d'

Fresh-lem :
    (inode : Inode) (d : Disk) (l : ℕ) (d' : Disk)
    → IsFormatted d
    → Owned inode d
    → Allocated d l d'
    → free_count d' (nblocks d') + 1 ≡ free_count d (nblocks d)
    → Fresh inode d l d'
Fresh-lem inode d l d' f o a count =
    let super = Allocated-super d l d' f a in
    let fd = same_first_data d d' super in
    let (_, nb) = same_super d d' super in
    let kept : (x : ℕ) → IsData d x → d' x ≡ d x = λ x g.
      a.kept x (λ e. zero_one (in_use d l) a.was_free (ap (in_use d) (sym e) ∙ g.used))
        (λ e. absurd (omega (arith, e, g.above, first_data_ge d l a.below))) in
    let still : (x : ℕ) → IsData d x → IsData d' x = λ x g. record {
      above = omega (arith, g.above, fd);
      below = omega (arith, g.below, nb);
      used = a.now_used x g.below ∙ ground (arith, g.used);
    } in
    let same_map = lba_at-kept inode d d' (table_kept kept o.own.table_ok) in
    let new : (c : ℕ) → c < max_file_size → lba_at inode d c ≢ l = λ c lt e.
      elim (o.own.block_ok c lt) [
        | inl z ↦ omega (arith, z, e, a.data_block, first_data_pos d)
        | inr g ↦ zero_one (in_use d l) a.was_free (ap (in_use d) (sym e) ∙ g.used)
      ] in
    record {
      formatted = Allocated-IsFormatted d l d' f a;
      super = super;
      data_block = record {
        above = omega (arith, a.data_block, fd);
        below = omega (arith, a.below, nb);
        used = a.now_used l a.below ∙ ground arith;
      };
      was_free = a.was_free;
      zeroed = a.zeroed;
      kept = kept;
      still = still;
      count = count;
      same_map = same_map;
      new = new;
      new_table = λ e. elim o.own.table_ok [
        | inl z ↦ omega (arith, z, e, a.data_block, first_data_pos d)
        | inr g ↦ zero_one (in_use d l) a.was_free (ap (in_use d) e ∙ g.used)
      ];
      owned = record {
        thirteen = o.thirteen;
        own =
            Own-moved (lba_at inode d) (lba_at inode d') _ (IsData d) (IsData d') o.own
              (λ b lt. same_map b) still;
      };
    }
  where
    zero_one : (n : ℕ) → n ≡ 0 → n ≡ 1 → ⊥
    zero_one n z e = omega arith

    table_kept :
        ((x : ℕ) → IsData d x → d' x ≡ d x)
        → (get_or inode.addrs ndirect 0 ≡ 0) ⊎ IsData d (get_or inode.addrs ndirect 0)
        → (get_or inode.addrs ndirect 0 ≡ 0)
          ⊎ (d' (get_or inode.addrs ndirect 0) ≡ d (get_or inode.addrs ndirect 0))
    table_kept kept (inl z) = inl z
    table_kept kept (inr g) = inr (kept _ g)

-- With a free block `alloc_block` takes one.
pub alloc_block-Fresh :
    (inode : Inode) (d : Disk)
    → IsFormatted d
    → Owned inode d
    → 1 ≤ free_count d (nblocks d)
    → (l : ℕ) × (d' : Disk) × (alloc_block d ≡ (l, d')) × Fresh inode d l d'
alloc_block-Fresh inode d f o some_free = elim (alloc_block_takes d f) [
  | inl (_, z) ↦ absurd (omega arith)
  | inr (l, d', e, a, count, _) ↦ (l, d', e, Fresh-lem inode d l d' f o a count)
]
