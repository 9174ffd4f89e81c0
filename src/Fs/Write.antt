-- ===== src/Fs/Write.antt =====
-- The loop of `write_inode` of src/fs.cc.
use babyos.Prelude.{
  ℕ, zero, suc, ◌+◌, ◌-◌, ◌*◌, ◌/◌, ◌%◌, ◌≤◌, ◌<◌, ◌≡◌, ◌≢◌, ◌⊎◌, inl, inr, refl, ◌∙◌, sym, ap,
  true, false, Bool-cases, ◌&&◌, leb, if_true, if_false, ltb, arith, ℕ_discrete, dec_lt, add32,
}
use babyos.BlockDev.{put}
use babyos.BlockDev.Held.{put_self, put_ne}
use babyos.Fs.{Disk, Inode, bsize, max_file_size, nblocks, store, round_bytes, write_loop}
use babyos.Fs.Bitmap.{in_use, free_count, IsFormatted}
use babyos.Fs.Owner.{lba_at, IsData, Owned, Own-moved}
use babyos.Fs.Fresh.{lba_at-kept}
use babyos.Fs.Grown.{table_of, Mapped, Overwritten, data_put}
use babyos.Fs.Direct.{nonzero-IsData}
use babyos.Fs.Map.{block_map-Mapped, with_addrs, used_free}

-- Byte `j` of a file.
unfoldable pub byte_at : Inode → Disk → ℕ → ℕ
byte_at inode d j = d (lba_at inode d (j / bsize)) (j % bsize)

pub store_in :
    (at n : ℕ) (from to : ℕ → ℕ) (j : ℕ)
    → at ≤ j
    → j < at + n
    → store at n from to j ≡ from (j - at)
unfolding store
store_in at n from to j h h' =
    if_true _ _ (let t : (leb at j && ltb j (at + n)) ≡ true = ground arith in t)

pub store_out :
    (at n : ℕ) (from to : ℕ → ℕ) (j : ℕ) → (j < at) ⊎ (at + n ≤ j) → store at n from to j ≡ to j
unfolding store
store_out at n from to j h =
    if_false _ _ (let t : (leb at j && ltb j (at + n)) ≡ false = ground arith in t)

-- What writing `left` bytes from `src` at `offset` leaves.
pub record Wrote (offset left : ℕ) (src : ℕ → ℕ) (inode : Inode) (d : Disk) (inode' : Inode)
    (d' : Disk) : Type 0 where
  pub formatted : IsFormatted d'
  pub owned : Owned inode' d'
  pub super : d' 1 ≡ d 1
  pub same_fields : inode' ≡ with_addrs inode inode'.addrs
  pub written : (j : ℕ) → offset ≤ j → j < offset + left → byte_at inode' d' j ≡ src (j - offset)
  pub kept_bytes :
      (j : ℕ)
      → j < max_file_size * bsize
      → (j < offset) ⊎ (offset + left ≤ j)
      → lba_at inode d (j / bsize) ≢ 0
      → byte_at inode' d' j ≡ byte_at inode d j
  pub kept_map :
      (b : ℕ) → b < max_file_size → lba_at inode d b ≢ 0 → lba_at inode' d' b ≡ lba_at inode d b
  pub touched : (j : ℕ) → offset ≤ j → j < offset + left → lba_at inode' d' (j / bsize) ≢ 0
  pub still : (x : ℕ) → IsData d x → IsData d' x
  pub others :
      (x : ℕ)
      → IsData d x
      → ((b : ℕ) → b < max_file_size → lba_at inode d b ≢ x)
      → x ≢ table_of inode
      → d' x ≡ d x

Wrote-none :
    (offset left : ℕ) (src : ℕ → ℕ) (inode : Inode) (d : Disk)
    → left ≡ 0
    → IsFormatted d
    → Owned inode d
    → Wrote offset left src inode d inode d
Wrote-none offset left src inode d z f o = record {
  formatted = f;
  owned = o;
  super = refl;
  same_fields = refl;
  written = λ j h h'. absurd (omega arith);
  kept_bytes = λ j lt out nz. refl;
  kept_map = λ b lt nz. refl;
  touched = λ j h h'. absurd (omega arith);
  still = λ x g. g;
  others = λ x g out ne. refl;
}

-- One round of the loop: the block is mapped and `n` bytes of it are overwritten.
record Round (offset n : ℕ) (src : ℕ → ℕ) (inode : Inode) (d : Disk) (inode' : Inode) (d' : Disk)
    : Type 0 where
  wrote : Wrote offset n src inode d inode' d'
  count : free_count d (nblocks d) ≤ free_count d' (nblocks d') + 2
  new :
      (x b : ℕ) → b < max_file_size → in_use d x ≡ 1 → lba_at inode' d' b ≡ x → lba_at inode d b ≡ x
  table : (table_of inode' ≡ table_of inode) ⊎ (in_use d (table_of inode') ≡ 0)

module _ (offset n : ℕ) (src : ℕ → ℕ) (inode : Inode) (d : Disk) (lba : ℕ) (inode' : Inode)
    (d1 : Disk) (h : offset % bsize + n ≤ bsize) (h' : 1 ≤ n)
    (small : offset / bsize < max_file_size) (f : IsFormatted d) (o : Owned inode d)
    (m : Mapped (offset / bsize) inode d lba inode' d1) where
  abbrev d2 : Disk
  d2 = put d1 lba (store (offset % bsize) n src (d1 lba))

  over : Overwritten d1 lba d2
  over = data_put d1 lba _ m.grown.formatted m.entry.data_block

  lba_nz : lba_at inode' d1 (offset / bsize) ≢ 0
  lba_nz z = nonzero-IsData d1 lba m.entry.data_block (sym m.entry.here ∙ z)

  map2 : (c : ℕ) → lba_at inode' d2 c ≡ lba_at inode' d1 c
  map2 = lba_at-kept inode' d1 d2 (
      inr (
        put_ne d1 lba _ (table_of inode') (λ e.
          m.grown.owned.own.table_apart (offset / bsize) small lba_nz (m.entry.here ∙ sym e))))

  here2 : lba_at inode' d2 (offset / bsize) ≡ lba
  here2 = map2 (offset / bsize) ∙ m.entry.here

  others2 : (c : ℕ) → c < max_file_size → c ≢ offset / bsize → lba_at inode' d2 c ≡ lba_at inode d c
  others2 c lt ne = map2 c ∙ m.entry.others c lt ne

  block2 : d2 lba ≡ store (offset % bsize) n src (d1 lba)
  block2 = put_self d1 lba (store (offset % bsize) n src (d1 lba))

  -- A block that the file had is where it was.
  kept_map2 :
      (c : ℕ) → c < max_file_size → lba_at inode d c ≢ 0 → lba_at inode' d2 c ≡ lba_at inode d c
  kept_map2 c lt nz = elim (ℕ_discrete c (offset / bsize)) [
    | no ne ↦ others2 c lt ne
    | yes e ↦ elim m.entry.old_or_fresh [
      | inl q ↦ ap (lba_at inode' d2) e ∙ here2 ∙ sym q ∙ ap (lba_at inode d) (sym e)
      | inr (z, free, zeroed) ↦ absurd (nz (ap (lba_at inode d) e ∙ z))
    ]
  ]

  -- Outside the bytes written, a block that the file had holds what it held.
  kept_block2 :
      (c : ℕ)
      → c < max_file_size
      → lba_at inode d c ≢ 0
      → (k : ℕ) → (c ≢ offset / bsize) ⊎ (k < offset % bsize) ⊎ (offset % bsize + n ≤ k)
      → d2 (lba_at inode' d2 c) k ≡ d (lba_at inode d c) k
  kept_block2 c lt nz k out =
      let same = kept_map2 c lt nz in
      let x = lba_at inode d c in
      let good : IsData d x = elim (o.own.block_ok c lt) [ inl z ↦ absurd (nz z) | inr g ↦ g ] in
      let old = m.grown.kept x good (o.own.table_apart c lt nz) in
      ap (λ y. d2 y k) same ∙ elim (ℕ_discrete c (offset / bsize)) [
        | yes e ↦
            let is_lba : x ≡ lba = sym same ∙ ap (lba_at inode' d2) e ∙ here2 in
            ap (λ y. d2 y k) is_lba
            ∙ ap (λ g. g k) block2
            ∙ store_out (offset % bsize) n src (d1 lba) k
                (elim out [ inl ne ↦ absurd (ne e) | inr r ↦ r ])
            ∙ ap (λ y. d1 y k) (sym is_lba)
            ∙ ap (λ g. g k) old
        | no ne ↦
            ap (λ g. g k)
              (put_ne d1 lba (store (offset % bsize) n src (d1 lba)) x (λ q. ne (
                m.grown.owned.own.apart c (offset / bsize) lt small
                  (λ z. nz (sym same ∙ map2 c ∙ z)) (sym (map2 c) ∙ same ∙ q ∙ sym m.entry.here))))
            ∙ ap (λ g. g k) old
      ]

  round_lem : Round offset n src inode d inode' d2
  unfolding byte_at
  round_lem = record {
    wrote = record {
      formatted = over.formatted;
      owned = record {
        thirteen = m.grown.owned.thirteen;
        own =
            Own-moved (lba_at inode' d1) (lba_at inode' d2) (table_of inode') (IsData d1)
              (IsData d2) m.grown.owned.own (λ c lt. map2 c) over.still;
      };
      super = over.super ∙ m.grown.super;
      same_fields = m.grown.same_fields;
      written = λ j a b.
          let place : j / bsize ≡ offset / bsize = omega arith in
          ap (λ c. d2 (lba_at inode' d2 c) (j % bsize)) place
          ∙ ap (λ y. d2 y (j % bsize)) here2
          ∙ ap (λ g. g (j % bsize)) block2
          ∙ store_in (offset % bsize) n src (d1 lba) (j % bsize) (omega arith) (omega arith)
          ∙ ap src (let e : j % bsize - offset % bsize ≡ j - offset = omega arith in e);
      kept_bytes = λ j lt out nz.
          kept_block2 (j / bsize) (omega arith) nz (j % bsize)
            (elim (ℕ_discrete (j / bsize) (offset / bsize)) [
              | no ne ↦ inl ne
              | yes e ↦ inr (omega arith)
            ]);
      kept_map = kept_map2;
      touched = λ j a c z.
          let here : j / bsize ≡ offset / bsize = omega arith in
          lba_nz (sym (map2 (offset / bsize)) ∙ ap (lba_at inode' d2) (sym here) ∙ z);
      others = λ x g out ne.
          put_ne d1 lba _ x (λ e. elim m.entry.old_or_fresh [
            | inl q ↦ out (offset / bsize) small (q ∙ sym e)
            | inr (z, free, zeroed) ↦ used_free (in_use d x) g.used (ap (in_use d) e ∙ free)
          ])
          ∙ m.grown.kept x g ne;
      still = λ x g. over.still x (m.grown.still x g);
    };
    count = omega (arith, m.grown.count, over.count);
    new = λ x b lt used e. elim (ℕ_discrete b (offset / bsize)) [
      | no ne ↦ sym (others2 b lt ne) ∙ e
      | yes q ↦
          let is_lba : lba ≡ x = sym here2 ∙ ap (lba_at inode' d2) (sym q) ∙ e in
          elim m.entry.old_or_fresh [
            | inl r ↦ ap (lba_at inode d) q ∙ r ∙ is_lba
            | inr (z, free, zeroed) ↦
                absurd (used_free (in_use d x) used (ap (in_use d) (sym is_lba) ∙ free))
          ]
    ];
    table = m.grown.table;
  }

Wrote-append :
    (offset n left : ℕ) (src : ℕ → ℕ) (inode : Inode) (d : Disk) (inode1 : Inode) (d1 : Disk)
    (inode2 : Inode) (d2 : Disk)
    → n ≤ left
    → offset + left ≤ max_file_size * bsize
    → Owned inode d
    → Round offset n src inode d inode1 d1
    → Wrote (offset + n) (left - n) (λ i. src (i + n)) inode1 d1 inode2 d2
    → Wrote offset left src inode d inode2 d2
Wrote-append offset n left src inode d inode1 d1 inode2 d2 h fits o r w = record {
  formatted = w.formatted;
  owned = w.owned;
  super = w.super ∙ r.wrote.super;
  same_fields = w.same_fields ∙ ap (λ (x : Inode). with_addrs x inode2.addrs) r.wrote.same_fields;
  written = λ j a b. elim (dec_lt j (offset + n)) [
    | yes lt ↦
        w.kept_bytes j (omega arith) (inl lt) (r.wrote.touched j a lt) ∙ r.wrote.written j a lt
    | no ge ↦
        w.written j (omega arith) (omega arith)
        ∙ ap src (let e : j - (offset + n) + n ≡ j - offset = omega arith in e)
  ];
  kept_bytes = λ j lt out nz.
      w.kept_bytes j lt (omega arith)
        (λ z. nz (sym (r.wrote.kept_map (j / bsize) (omega arith) nz) ∙ z))
      ∙ r.wrote.kept_bytes j lt (omega arith) nz;
  kept_map = λ b lt nz.
      w.kept_map b lt (λ z. nz (sym (r.wrote.kept_map b lt nz) ∙ z)) ∙ r.wrote.kept_map b lt nz;
  touched = λ j a b. elim (dec_lt j (offset + n)) [
    | yes lt ↦ λ z.
        r.wrote.touched j a lt
          (sym (w.kept_map (j / bsize) (omega arith) (r.wrote.touched j a lt)) ∙ z)
    | no ge ↦ w.touched j (omega arith) (omega arith)
  ];
  others = λ x g out ne.
      w.others x (r.wrote.still x g) (λ b lt e. out b lt (r.new x b lt g.used e))
        (λ q. elim r.table [
          | inl e ↦ ne (q ∙ e)
          | inr free ↦ used_free (in_use d x) g.used (ap (in_use d) q ∙ free)
        ])
      ∙ r.wrote.others x g out ne;
  still = λ x g. w.still x (r.wrote.still x g);
}

-- `rounds` rounds are enough for `left` bytes from `offset`.
abbrev pub Enough : ℕ → ℕ → ℕ → Type 0
Enough rounds left offset = (left ≡ 0) ⊎ (offset % bsize + left ≤ bsize * rounds)

pub Enough-step :
    (rounds left offset : ℕ)
    → 1 ≤ left
    → Enough (suc rounds) left offset
    → Enough rounds (left - round_bytes offset left) (offset + round_bytes offset left)
Enough-step rounds left offset pos e = elim (dec_lt (bsize - offset % bsize) left) [
  | yes lt ↦
      let n : round_bytes offset left ≡ bsize - offset % bsize = ground arith in
      inr (elim e [ inl z ↦ absurd (omega arith) | inr h ↦ omega arith ])
  | no ge ↦ inl (ground arith)
]

-- The loop of `write_inode` writes what it is to write, where the file may be that long and the disk has
-- the blocks.
pub write_loop-Wrote :
    (rounds left offset : ℕ) (src : ℕ → ℕ) (inode : Inode) (d : Disk)
    → IsFormatted d
    → Owned inode d
    → Enough rounds left offset
    → offset + left ≤ max_file_size * bsize
    → 2 * rounds ≤ free_count d (nblocks d)
    → (inode' : Inode) × (d' : Disk) × (write_loop rounds left offset src inode d ≡ (inode', d'))
      × Wrote offset left src inode d inode' d'
unfolding write_loop
write_loop-Wrote zero left offset src inode d f o enough fits free = (
  inode,
  d,
  refl,
  Wrote-none offset left src inode d (elim enough [ inl z ↦ z | inr e ↦ omega arith ]) f o,
)
write_loop-Wrote (suc rounds) left offset src inode d f o enough fits free =
    elim (Bool-cases (ltb 0 left)) [
      | inr t ↦
          (inode, d, if_false _ _ t, Wrote-none offset left src inode d (ground (arith, t)) f o)
      | inl t ↦
          let pos : 1 ≤ left = ground (arith, t) in
          let n = round_bytes offset left in
          let n_pos : 1 ≤ n = ground (arith, pos) in
          let n_le : n ≤ left = ground arith in
          let n_in : offset % bsize + n ≤ bsize = ground arith in
          let (lba, inode1, d1, e, m) =
            block_map-Mapped (offset / bsize) inode d (omega arith) f o (omega arith) in
          let r = round_lem offset n src inode d lba inode1 d1 n_in n_pos (omega arith) f o m in
          let (inode2, d2, e', w) =
            write_loop-Wrote rounds (left - n) (offset + n) (λ i. src (i + n)) inode1
              (put d1 lba (store (offset % bsize) n src (d1 lba))) r.wrote.formatted r.wrote.owned
              (Enough-step rounds left offset pos enough) (omega (arith, fits, n_le))
              (omega (arith, r.count, free)) in
          (
            inode2,
            d2,
            if_true _ _ t
                ∙ ap
                    (λ x.
                      write_loop rounds (left - n) (add32 offset n) (λ i. src (i + n)) x.1
                        (put x.2 x.0 (store (offset % bsize) n src (x.2 x.0))))
                    e
                ∙ ap
                    (λ y.
                      write_loop rounds (left - n) y (λ i. src (i + n)) inode1
                        (put d1 lba (store (offset % bsize) n src (d1 lba))))
                    (let no_wrap : add32 offset n ≡ offset + n = omega (arith, fits, n_le) in
                      no_wrap)
                ∙ e',
            Wrote-append offset n left src inode d inode1 _ inode2 d2 n_le fits o r w,
          )
    ]
