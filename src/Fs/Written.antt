-- ===== src/Fs/Written.antt =====
-- `write_inode` of src/fs.cc on the bytes of a file, and reading them back.
use babyos.Prelude.{
  fun_ext, ℕ, ◌+◌, ◌-◌, ◌*◌, ◌/◌, ◌%◌, ◌≤◌, ◌<◌, ◌≡◌, ◌≢◌, inl, inr, refl, ◌∙◌, sym, ap, true,
  false, Bool-cases, ◌&&◌, Option, some, ◌==◌, if◌then◌else◌, if_true, if_false, ltb, arith, dec_lt,
  add32,
}
use babyos.Fs.{
  Disk, Inode, bsize, max_file_size, type_dev, nblocks, ninodes, word, store, rounds_of, read_inode,
  write_inode, grow, write_to_disk,
}
use babyos.Fs.Bitmap.{free_count}
use babyos.Fs.Owner.{lba_at, IsData, Owned}
use babyos.Fs.Grown.{table_of}
use babyos.Fs.Write.{byte_at, Wrote, write_loop-Wrote, store_in, store_out}
use babyos.Fs.File.{IsFile, write_to_disk-Saved, rounds-Enough, readable, read_inode-bytes}

-- The size of a file after a write.
abbrev pub file_end : ℕ → ℕ → ℕ → ℕ
file_end file_size offset size = if ltb file_size (offset + size) then offset + size else file_size

-- What `write_inode` leaves of a file and the disk.
pub record Written (offset size : ℕ) (src : ℕ → ℕ) (inode : Inode) (d : Disk) (inode' : Inode)
    (d' : Disk) : Type 0 where
  pub file : IsFile inode' d'
  pub same_inum : inode'.inum ≡ inode.inum
  pub new_size : inode'.size ≡ file_end inode.size offset size
  pub bytes :
      (j : ℕ) → j < inode'.size → byte_at inode' d' j ≡ store offset size src (byte_at inode d) j
  pub others :
      (x : ℕ)
      → IsData d x
      → ((b : ℕ) → b < max_file_size → lba_at inode d b ≢ x)
      → x ≢ table_of inode
      → d' x ≡ d x

abbrev resized : Inode → ℕ → Inode
resized inode s = record inode { size = s }

lba_at-resized :
    (inode : Inode) (s : ℕ) (d : Disk) (b : ℕ) → lba_at (resized inode s) d b ≡ lba_at inode d b
unfolding lba_at
lba_at-resized inode s d b = refl

resized-Owned : (inode : Inode) (s : ℕ) (d : Disk) → Owned inode d → Owned (resized inode s) d
unfolding lba_at
resized-Owned inode s d o = record { thirteen = o.thirteen; own = o.own }

-- The bytes of a file after the loop, up to its new size.
module _ (offset size : ℕ) (src : ℕ → ℕ) (inode : Inode) (d : Disk) (f : IsFile inode d)
    (inside : offset ≤ inode.size) (fits : offset + size ≤ max_file_size * bsize) (inode1 : Inode)
    (d1 : Disk) (w : Wrote offset size src inode d inode1 d1) where
  loop_bytes :
      (j : ℕ)
      → j < file_end inode.size offset size
      → byte_at inode1 d1 j ≡ store offset size src (byte_at inode d) j
  loop_bytes j lt = elim (dec_lt j offset) [
    | yes low ↦
        w.kept_bytes j (omega arith) (inl low) (f.has_blocks j (omega arith))
        ∙ sym (store_out offset size src (byte_at inode d) j (inl low))
    | no ge ↦ elim (dec_lt j (offset + size)) [
      | yes mid ↦
          w.written j (omega arith) mid
          ∙ sym (store_in offset size src (byte_at inode d) j (omega arith) mid)
      | no high ↦
          let old : j < inode.size = ground (arith, lt, high) in
          w.kept_bytes j (omega (arith, f.fits, old)) (inr (omega arith)) (f.has_blocks j old)
          ∙ sym (store_out offset size src (byte_at inode d) j (inr (omega arith)))
    ]
  ]

  loop_blocks : (j : ℕ) → j < file_end inode.size offset size → lba_at inode1 d1 (j / bsize) ≢ 0
  loop_blocks j lt z = elim (dec_lt j inode.size) [
    | yes old ↦
        f.has_blocks j old
          (sym (w.kept_map (j / bsize) (omega (arith, f.fits)) (f.has_blocks j old)) ∙ z)
    | no new ↦ w.touched j (omega arith) (ground (arith, lt, new)) z
  ]

  same_super1 :
      (ninodes d1 ≡ ninodes d)
      × (inode1.inum ≡ inode.inum)
      × (inode1.type ≡ inode.type)
      × (inode1.size ≡ inode.size)
  unfolding ninodes
  same_super1 = (
    ap (λ b. word b 2) w.super,
    ap (λ (x : Inode). x.inum) w.same_fields,
    ap (λ (x : Inode). x.type) w.same_fields,
    ap (λ (x : Inode). x.size) w.same_fields,
  )

  same-Written :
      inode.size ≡ file_end inode.size offset size → Written offset size src inode d inode1 d1
  same-Written e =
      let (ni, inum, type, sz) = same_super1 in
      record {
        file = record {
          formatted = w.formatted;
          owned = w.owned;
          regular = λ q. f.regular (sym type ∙ q);
          has_blocks = λ j lt. loop_blocks j (omega (arith, e, sz));
          fits = omega (arith, f.fits, sz);
          numbered = omega (arith, f.numbered, inum, ni);
          table_fits = omega (arith, f.table_fits, ni);
        };
        same_inum = inum;
        new_size = sz ∙ e;
        bytes = λ j lt. loop_bytes j (omega (arith, e, sz));
        others = w.others;
      }

  grown-Written :
      offset + size ≡ file_end inode.size offset size
      → Written offset size src inode d
          (resized inode1 (offset + size))
          (write_to_disk (resized inode1 (offset + size)) d1)
  unfolding byte_at ninodes
  grown-Written e =
      let (ni, inum, type, sz) = same_super1 in
      let inode2 = resized inode1 (offset + size) in
      let d2 : Disk = write_to_disk inode2 d1 in
      let s =
        write_to_disk-Saved inode2 d1 w.formatted (resized-Owned inode1 (offset + size) d1 w.owned)
          (omega (arith, f.numbered, inum, ni)) (omega (arith, f.table_fits, ni)) in
      let same : (b : ℕ) → lba_at inode2 d2 b ≡ lba_at inode1 d1 b =
        λ b. s.same_map b ∙ lba_at-resized inode1 (offset + size) d1 b in
      record {
        file = record {
          formatted = s.formatted;
          owned = s.owned;
          regular = λ q. f.regular (sym type ∙ q);
          has_blocks = λ j lt z. loop_blocks j (omega (arith, e)) (sym (same (j / bsize)) ∙ z);
          fits = fits;
          numbered = omega (arith, f.numbered, inum, ni, ap (λ b. word b 2) s.super);
          table_fits = omega (arith, f.table_fits, ni, ap (λ b. word b 2) s.super);
        };
        same_inum = inum;
        new_size = e;
        bytes = λ j lt.
            ap (λ b. d2 b (j % bsize)) (same (j / bsize))
            ∙ ap (λ g. g (j % bsize))
                (s.kept (lba_at inode1 d1 (j / bsize))
                  (elim (w.owned.own.block_ok (j / bsize) (omega (arith, fits))) [
                    | inl z ↦ absurd (loop_blocks j (omega (arith, e)) z)
                    | inr g ↦ g
                  ]))
            ∙ loop_bytes j (omega (arith, e));
        others = λ x g out ne. s.kept x (w.still x g) ∙ w.others x g out ne;
      }

grow_at_end :
    (size reached : ℕ) (inode : Inode) (d : Disk)
    → (ltb 0 size && ltb inode.size reached) ≡ true
    → grow size reached inode d ≡ (resized inode reached, write_to_disk (resized inode reached) d)
unfolding grow
grow_at_end size reached inode d t = if_true _ _ t

grow_within :
    (size reached : ℕ) (inode : Inode) (d : Disk)
    → (ltb 0 size && ltb inode.size reached) ≡ false
    → grow size reached inode d ≡ (inode, d)
unfolding grow
grow_within size reached inode d t = if_false _ _ t

-- `write_inode` of a file that starts at most at its end, ends within the 140 blocks of a file and finds
-- two free blocks for each block that it touches, writes everything: the bytes of the file are those of
-- `src` in the range written and the old ones elsewhere, the file grows to the end of what was written
-- and is still a good file, and no block of data of another file changes.
pub write_inode-Written :
    (dev : ℕ → Option ℕ) (inode : Inode) (src : ℕ → ℕ) (offset size : ℕ) (d : Disk)
    → IsFile inode d
    → offset ≤ inode.size
    → offset + size ≤ max_file_size * bsize
    → 2 * rounds_of offset size ≤ free_count d (nblocks d)
    → (inode' : Inode) × (d' : Disk) × (write_inode dev inode src offset size d
        ≡ (some size, (inode', d')))
      × Written offset size src inode d inode' d'
unfolding write_inode
write_inode-Written dev inode src offset size d f inside fits free =
    let (inode1, d1, e, w) =
      write_loop-Wrote (rounds_of offset size) size offset src inode d f.formatted f.owned
        (rounds-Enough offset size) fits free in
    let sum : add32 offset size ≡ offset + size = omega arith in
    let sz = (same_super1 offset size src inode d f inside fits inode1 d1 w).3 in
    let start : write_inode dev inode src offset size d
        ≡ (some size, grow size (offset + size) inode1 d1) =
      if_false _ _ (let t : (inode.type == type_dev) ≡ false = ground (arith, f.regular) in t)
      ∙ if_false _ _ (let t : ltb inode.size offset ≡ false = ground (arith, inside) in t)
      ∙ if_false _ _ (
          let t : ltb (max_file_size * bsize) (add32 offset size) ≡ false =
            ground (arith, sum, fits) in
          t)
      ∙ ap (λ r. (some size, grow size (add32 offset size) r.0 r.1)) e
      ∙ ap (λ r. (some size, grow size r inode1 d1)) sum in
    elim (Bool-cases (ltb 0 size && ltb inode1.size (offset + size))) [
      | inl t ↦ (
        resized inode1 (offset + size),
        write_to_disk (resized inode1 (offset + size)) d1,
        start ∙ ap (λ r. (some size, r)) (grow_at_end size (offset + size) inode1 d1 t),
        grown-Written offset size src inode d f inside fits inode1 d1 w (ground (arith, t, sz)),
      )
      | inr t ↦ (
        inode1,
        d1,
        start ∙ ap (λ r. (some size, r)) (grow_within size (offset + size) inode1 d1 t),
        same-Written offset size src inode d f inside fits inode1 d1 w
            (ground (arith, t, sz, inside)),
      )
    ]

-- Where the file is good, the place is at most its end, the last byte is within the largest file and the disk has
-- two free blocks for each block that is touched: `write_inode` returns the whole size, and what was written is
-- what `read_inode` then reads at the same place.
pub write_inode-read_inode :
    (dev : ℕ → Option ℕ) (inode : Inode) (src dst : ℕ → ℕ) (offset size : ℕ) (d : Disk)
    → IsFile inode d
    → offset ≤ inode.size
    → offset + size ≤ max_file_size * bsize
    → 2 * rounds_of offset size ≤ free_count d (nblocks d)
    → (inode' : Inode) × (d' : Disk) × (dst' : ℕ → ℕ) × (write_inode dev inode src offset size d
        ≡ (some size, (inode', d')))
      × (read_inode dev inode' dst offset size d' ≡ (some size, (dst', inode', d')))
      × (dst' ≡ store 0 size src dst)
write_inode-read_inode dev inode src dst offset size d f inside fits free =
    let (inode', d', e, w) = write_inode-Written dev inode src offset size d f inside fits free in
    let long : offset + size ≤ inode'.size = ground (arith, w.new_size) in
    let all : readable inode'.size offset size ≡ size = ground (arith, long) in
    elim (read_inode-bytes dev inode' dst offset size d' w.file (omega arith)) [
      | inl (past, _) ↦ absurd (omega (arith, past, long))
      | inr (dst', e', bytes) ↦ (
        inode',
        d',
        dst',
        e,
        e' ∙ ap (λ n. (some n, (dst', inode', d'))) all,
        fun_ext λ j.
            ap (λ g. g j) bytes
            ∙ ap (λ n. store 0 n (λ i. byte_at inode' d' (offset + i)) dst j) all
            ∙ elim (dec_lt j size) [
              | yes lt ↦
                  store_in 0 size _ dst j (omega arith) (omega arith)
                  ∙ ap (λ i. byte_at inode' d' (offset + i)) (let e : j - 0 ≡ j = omega arith in e)
                  ∙ w.bytes (offset + j) (omega (arith, long))
                  ∙ store_in offset size src (byte_at inode d) (offset + j) (omega arith)
                      (omega arith)
                  ∙ ap src (let e : offset + j - offset ≡ j - 0 = omega arith in e)
                  ∙ sym (store_in 0 size src dst j (omega arith) (omega arith))
              | no ge ↦
                  store_out 0 size _ dst j (inr (omega arith))
                  ∙ sym (store_out 0 size src dst j (inr (omega arith)))
            ],
      )
    ]
