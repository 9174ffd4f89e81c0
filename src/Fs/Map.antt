-- ===== src/Fs/Map.antt =====
-- `block_map` of src/fs.cc: the block behind a place of a file, taken from the bitmap where it has none.
use babyos.Prelude.{
  ℕ, ◌-◌, ◌≤◌, ◌<◌, ◌≡◌, ◌≢◌, inl, inr, refl, ◌∙◌, sym, ap, subst, true, false, ◌==◌, if_true,
  if_false, ltb, arith, ℕ_discrete, dec_lt, List, get_or, u32_mod,
}
use babyos.BlockDev.{put}
use babyos.BlockDev.Held.{put_self, put_ne}
use babyos.Fs.{
  Disk, Inode, ndirect, max_file_size, word, put_word, nblocks, map_indirect, block_map,
}
use babyos.Fs.Bits.{word-put_word, word-put_word_ne}
use babyos.Fs.Bitmap.{in_use, in_use_le, free_count, first_data, IsFormatted, same_super}
use babyos.Fs.Owner.{lba_at, IsData, Owned, Own-moved, Own-assigned}
use babyos.Fs.Fresh.{alloc_block-Fresh, same_first_data}
use babyos.Fs.Grown.{
  table_of, Grown, IsEntry, Mapped, data_put, Grown-none, lba_at-direct, lba_at-indirect,
}
use babyos.Fs.Direct.{direct-Mapped, table-Grown}

-- The indirect blocks, with a table.
indirect-Mapped :
    (b : ℕ) (inode : Inode) (d : Disk)
    → ndirect ≤ b
    → b < max_file_size
    → IsFormatted d
    → Owned inode d
    → table_of inode ≢ 0
    → 1 ≤ free_count d (nblocks d)
    → (lba : ℕ) × (d' : Disk) × (map_indirect (b - ndirect) inode d ≡ (lba, inode, d'))
      × Grown 1 inode d inode d'
      × IsEntry b inode d lba inode d'
indirect-Mapped b inode d h h' f o nz enough =
    elim (ℕ_discrete (word (d (table_of inode)) (b - ndirect)) 0) [
      | no old ↦
          let at = lba_at-indirect inode d b h nz in
          (
            word (d (table_of inode)) (b - ndirect),
            d,
            (unfold map_indirect in
                if_false _ _ (
                  let t : (word (d (table_of inode)) (b - ndirect) == 0) ≡ false = ground arith in
                  t)),
            Grown-none 1 inode d f o,
            record {
              here = at;
              data_block = elim (o.own.block_ok b h') [
                | inl z ↦ absurd (old (sym at ∙ z))
                | inr g ↦ subst (IsData d) at g
              ];
              others = λ c lt ne. refl;
              old_or_fresh = inl at;
            },
          )
      | yes z ↦
          let (l, d1, e, fresh) = alloc_block-Fresh inode d f o enough in
          let table = table_of inode in
          let table_data : IsData d table = elim o.own.table_ok [
            | inl q ↦ absurd (nz q)
            | inr g ↦ g
          ] in
          let block = put_word (b - ndirect) l (d table) in
          let d2 : Disk = put d1 table block in
          let p = data_put d1 table block fresh.formatted (fresh.still table table_data) in
          let small : l < u32_mod = omega (arith, fresh.data_block.below, fresh.formatted.small) in
          let entry : (c : ℕ) → ndirect ≤ c → lba_at inode d2 c ≡ word block (c - ndirect) = λ c le.
            lba_at-indirect inode d2 c le nz
            ∙ ap (λ x. word x (c - ndirect)) (put_self d1 table block) in
          let here : lba_at inode d2 b ≡ l =
            entry b h ∙ word-put_word (b - ndirect) l (d table) small in
          let others : (c : ℕ) → c < max_file_size → c ≢ b → lba_at inode d2 c ≡ lba_at inode d c =
            λ c lt ne. elim (dec_lt c ndirect) [
              | yes low ↦ lba_at-direct inode d2 c low ∙ sym (lba_at-direct inode d c low)
              | no high ↦
                  entry c (omega arith)
                  ∙ word-put_word_ne (b - ndirect) l (d table) (c - ndirect) (omega (arith, ne))
                  ∙ sym (lba_at-indirect inode d c (omega arith) nz)
            ] in
          (
            l,
            d2,
            (unfold map_indirect in
                if_true _ _ (let t : (word (d table) (b - ndirect) == 0) ≡ true = ground arith in t)
                ∙ ap (λ r. (r.0, inode, put r.1 table (put_word (b - ndirect) r.0 (d table)))) e),
            record {
              formatted = p.formatted;
              owned = record {
                thirteen = o.thirteen;
                own =
                    Own-assigned (lba_at inode d) (lba_at inode d2) table (IsData d2) b l
                      (Own-moved (lba_at inode d) (lba_at inode d) table (IsData d) (IsData d2)
                        o.own (λ c lt. refl) (λ x g. p.still x (fresh.still x g)))
                      (p.still l fresh.data_block) fresh.new fresh.new_table here others;
              };
              super = p.super ∙ fresh.super;
              same_fields = refl;
              kept = λ x g ne. put_ne d1 table block x ne ∙ fresh.kept x g;
              still = λ x g. p.still x (fresh.still x g);
              count = omega (arith, fresh.count, p.count);
              table = inl refl;
            },
            record {
              here = here;
              data_block = p.still l fresh.data_block;
              others = others;
              old_or_fresh = inr (
                lba_at-indirect inode d b h nz ∙ z,
                fresh.was_free,
                put_ne d1 table block l fresh.new_table ∙ fresh.zeroed,
              );
            },
          )
    ]

abbrev pub with_addrs : Inode → List ℕ → Inode
with_addrs inode addrs = record inode { addrs = addrs }

pub used_free : (n : ℕ) → n ≡ 1 → n ≡ 0 → ⊥
used_free n e z = omega arith

Grown-append :
    (inode : Inode) (d : Disk) (inode1 : Inode) (d1 : Disk) (inode2 : Inode) (d2 : Disk)
    → Grown 1 inode d inode1 d1
    → Grown 1 inode1 d1 inode2 d2
    → table_of inode2 ≡ table_of inode1
    → Grown 2 inode d inode2 d2
Grown-append inode d inode1 d1 inode2 d2 g g' same = record {
  formatted = g'.formatted;
  owned = g'.owned;
  super = g'.super ∙ g.super;
  same_fields = g'.same_fields ∙ ap (λ (x : Inode). with_addrs x inode2.addrs) g.same_fields;
  kept = λ x k ne.
      g'.kept x (g.still x k) (λ q. elim g.table [
        | inl e ↦ ne (q ∙ e)
        | inr free ↦ used_free (in_use d x) k.used (ap (in_use d) q ∙ free)
      ])
      ∙ g.kept x k ne;
  still = λ x k. g'.still x (g.still x k);
  count = omega (arith, g.count, g'.count);
  table = elim g.table [ inl e ↦ inl (same ∙ e) | inr free ↦ inr (ap (in_use d) same ∙ free) ];
}

-- A block that is free after a step and in use now was free before it.
was_free :
    (d d1 : Disk) (lba : ℕ)
    → first_data d ≤ lba
    → lba < nblocks d
    → (IsData d lba → IsData d1 lba)
    → in_use d1 lba ≡ 0
    → in_use d lba ≡ 0
was_free d d1 lba above below still free = elim (ℕ_discrete (in_use d lba) 0) [
  | yes z ↦ z
  | no nz ↦
      let one : in_use d lba ≡ 1 = omega (arith, in_use_le d lba) in
      absurd (
        used_free (in_use d1 lba) (still (record { above = above; below = below; used = one })).used
          free)
]

-- `block_map` of a block that a file can have, on a formatted disk with two free blocks, returns a
-- block of data: the one that the file has there, or else one that was free and is zeroed. The file has
-- it there afterwards and its other blocks as before, no two of its blocks are the same, every other
-- block of data that is in use holds what it held, and at most two blocks have been taken.
pub block_map-Mapped :
    (b : ℕ) (inode : Inode) (d : Disk)
    → b < max_file_size
    → IsFormatted d
    → Owned inode d
    → 2 ≤ free_count d (nblocks d)
    → (lba : ℕ) × (inode' : Inode) × (d' : Disk) × (block_map inode b d ≡ (lba, inode', d'))
      × Mapped b inode d lba inode' d'
unfolding block_map
block_map-Mapped b inode d h f o enough = elim (dec_lt b ndirect) [
  | yes low ↦
      let (inode', d', e, m) = direct-Mapped b inode d low f o (omega arith) in
      (
        _,
        inode',
        d',
        if_true _ _ (let t : ltb b ndirect ≡ true = ground arith in t)
            ∙ ap (λ r. (get_or r.0.addrs b 0, r.0, r.1)) e,
        m,
      )
  | no high ↦
      let (inode1, d1, e, g, nz, same) = table-Grown inode d f o (omega arith) in
      let (lba, d2, e', g', entry) =
        indirect-Mapped b inode1 d1 (omega arith) h g.formatted g.owned nz
          (omega (arith, g.count)) in
      let whole = Grown-append inode d inode1 d1 inode1 d2 g g' refl in
      let (_, nb) = same_super d d2 whole.super in
      let fd = same_first_data d d2 whole.super in
      (
        lba,
        inode1,
        d2,
        if_false _ _ (let t : ltb b ndirect ≡ false = ground arith in t)
            ∙ ap (λ r. map_indirect (b - ndirect) r.0 r.1) e
            ∙ e',
        record {
          grown = whole;
          entry = record {
            here = entry.here;
            data_block = entry.data_block;
            others = λ c lt ne. entry.others c lt ne ∙ same c lt;
            old_or_fresh = elim entry.old_or_fresh [
              | inl q ↦ inl (sym (same b h) ∙ q)
              | inr (z, free, zeroed) ↦ inr (
                sym (same b h) ∙ z,
                was_free d d1 lba (omega (arith, entry.data_block.above, fd))
                    (omega (arith, entry.data_block.below, nb)) (g.still lba) free,
                zeroed,
              )
            ];
          };
        },
      )
]
