-- ===== src/Fs/Read.antt =====
-- `read_inode` of src/fs.cc.
use babyos.Prelude.{
  ℕ, zero, suc, ◌+◌, ◌-◌, ◌/◌, ◌%◌, ◌≤◌, ◌<◌, ◌≡◌, ◌≢◌, inl, inr, refl, ◌∙◌, sym, ap, true, false,
  Bool-cases, ◌==◌, if_true, if_false, ltb, arith, ℕ_discrete, dec_lt, get_or, add32, u32_mod,
}
use babyos.Fs.{
  Disk, Inode, bsize, ndirect, word, block_map, map_indirect, store, round_bytes, read_loop,
}
use babyos.Fs.Owner.{lba_at}
use babyos.Fs.Grown.{table_of, lba_at-direct, lba_at-indirect, lba_at-no_table}
use babyos.Fs.Direct.{ensure_addr-old}
use babyos.Fs.Write.{byte_at, store_in, store_out, Enough, Enough-step}

map_indirect-old :
    (entry : ℕ) (inode : Inode) (d : Disk)
    → word (d (table_of inode)) entry ≢ 0
    → map_indirect entry inode d ≡ (word (d (table_of inode)) entry, inode, d)
unfolding map_indirect
map_indirect-old entry inode d h =
    if_false _ _ (let t : (word (d (table_of inode)) entry == 0) ≡ false = ground arith in t)

-- `block_map` finds a block that the file has and changes nothing.
pub block_map-old :
    (b : ℕ) (inode : Inode) (d : Disk)
    → lba_at inode d b ≢ 0
    → block_map inode b d ≡ (lba_at inode d b, inode, d)
unfolding block_map
block_map-old b inode d nz = elim (dec_lt b ndirect) [
  | yes low ↦
      let e = lba_at-direct inode d b low in
      if_true _ _ (let t : ltb b ndirect ≡ true = ground arith in t)
      ∙ ap (λ r. (get_or r.0.addrs b 0, r.0, r.1)) (ensure_addr-old inode b d (λ z. nz (e ∙ z)))
      ∙ ap (λ x. (x, inode, d)) (sym e)
  | no high ↦ elim (ℕ_discrete (table_of inode) 0) [
    | yes z ↦ absurd (nz (lba_at-no_table inode d b (omega arith) z))
    | no table ↦
        let e = lba_at-indirect inode d b (omega arith) table in
        if_false _ _ (let t : ltb b ndirect ≡ false = ground arith in t)
        ∙ ap (λ r. map_indirect (b - ndirect) r.0 r.1) (ensure_addr-old inode ndirect d table)
        ∙ map_indirect-old (b - ndirect) inode d (λ z. nz (e ∙ z))
        ∙ ap (λ x. (x, inode, d)) (sym e)
  ]
]

-- A round and then the others copy the whole range.
store_then :
    (total n left offset : ℕ) (inode : Inode) (d : Disk) (dst : ℕ → ℕ) (j : ℕ)
    → n ≤ left
    → offset % bsize + n ≤ bsize
    → store
        (total + n)
        (left - n)
        (λ i. byte_at inode d (offset + n + i))
        (store total n (λ i. d (lba_at inode d (offset / bsize)) (offset % bsize + i)) dst)
        j
      ≡ store total left (λ i. byte_at inode d (offset + i)) dst j
unfolding byte_at
store_then total n left offset inode d dst j h h' =
    let first : ℕ → ℕ = λ i. d (lba_at inode d (offset / bsize)) (offset % bsize + i) in
    let whole : ℕ → ℕ = λ i. byte_at inode d (offset + i) in
    let later : ℕ → ℕ = λ i. byte_at inode d (offset + n + i) in
    elim (dec_lt j (total + n)) [
      | yes lt ↦
          store_out (total + n) (left - n) later (store total n first dst) j (inl lt)
          ∙ elim (dec_lt j total) [
            | yes below ↦
                store_out total n first dst j (inl below)
                ∙ sym (store_out total left whole dst j (inl below))
            | no ge ↦
                let block : (offset + (j - total)) / bsize ≡ offset / bsize = omega arith in
                let place : (offset + (j - total)) % bsize ≡ offset % bsize + (j - total) =
                  omega arith in
                store_in total n first dst j (omega arith) lt
                ∙ sym (ap (λ b. d (lba_at inode d b) (offset % bsize + (j - total))) block)
                ∙ sym (ap (d (lba_at inode d ((offset + (j - total)) / bsize))) place)
                ∙ sym (store_in total left whole dst j (omega arith) (omega arith))
          ]
      | no high ↦ elim (dec_lt j (total + left)) [
        | yes lt ↦
            store_in (total + n) (left - n) later (store total n first dst) j (omega arith)
              (omega arith)
            ∙ ap (byte_at inode d)
                (let e : offset + n + (j - (total + n)) ≡ offset + (j - total) = omega arith in e)
            ∙ sym (store_in total left whole dst j (omega arith) lt)
        | no above ↦
            store_out (total + n) (left - n) later (store total n first dst) j (inr (omega arith))
            ∙ store_out total n first dst j (inr (omega arith))
            ∙ sym (store_out total left whole dst j (inr (omega arith)))
      ]
    ]

-- The loop of `read_inode` copies the bytes of the file and changes neither it nor the disk.
pub read_loop-bytes :
    (rounds total left offset : ℕ) (inode : Inode) (d : Disk) (dst : ℕ → ℕ)
    → Enough rounds left offset
    → offset + left < u32_mod
    → ((j : ℕ) → offset ≤ j → j < offset + left → lba_at inode d (j / bsize) ≢ 0)
    → (dst' : ℕ → ℕ) × (read_loop rounds total left offset inode d dst ≡ (dst', inode, d))
      × ((j : ℕ) → dst' j ≡ store total left (λ i. byte_at inode d (offset + i)) dst j)
unfolding read_loop
read_loop-bytes zero total left offset inode d dst enough fits has = (
  dst,
  refl,
  λ j.
      sym
        (store_out total left _ dst j (elim enough [ inl z ↦ omega arith | inr e ↦ omega arith ])),
)
read_loop-bytes (suc rounds) total left offset inode d dst enough fits has =
    elim (Bool-cases (ltb 0 left)) [
      | inr t ↦ (dst, if_false _ _ t, λ j. sym (store_out total left _ dst j (ground (arith, t))))
      | inl t ↦
          let pos : 1 ≤ left = ground (arith, t) in
          let n = round_bytes offset left in
          let n_le : n ≤ left = ground arith in
          let n_in : offset % bsize + n ≤ bsize = ground arith in
          let lba = lba_at inode d (offset / bsize) in
          let dst1 : ℕ → ℕ = store total n (λ i. d lba (offset % bsize + i)) dst in
          let (dst', e, bytes) =
            read_loop-bytes rounds (total + n) (left - n) (offset + n) inode d dst1
              (Enough-step rounds left offset pos enough) (omega (arith, n_le))
              (λ j a b. has j (omega arith) (omega (arith, n_le))) in
          (
            dst',
            if_true _ _ t
                ∙ ap
                    (λ x.
                      read_loop rounds (total + n) (left - n) (add32 offset n) x.1 x.2
                        (store total n (λ i. x.2 x.0 (offset % bsize + i)) dst))
                    (block_map-old (offset / bsize) inode d
                      (has offset (omega arith) (omega arith)))
                ∙ ap (λ y. read_loop rounds (total + n) (left - n) y inode d dst1)
                    (let no_wrap : add32 offset n ≡ offset + n = omega (arith, fits, n_le) in
                      no_wrap)
                ∙ e,
            λ j. bytes j ∙ store_then total n left offset inode d dst j n_le n_in,
          )
    ]
