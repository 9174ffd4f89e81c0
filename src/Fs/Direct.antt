-- ===== src/Fs/Direct.antt =====
-- The addresses that an inode of src/fs.cc holds itself.
use babyos.Prelude.{
  ℕ, ◌-◌, ◌≤◌, ◌<◌, ◌≡◌, ◌≢◌, inl, inr, refl, ◌∙◌, sym, ap, subst, true, false, ◌==◌, if_true,
  if_false, arith, ℕ_discrete, dec_lt, get_or, set, length-set, get_or-set_self, get_or-set_ne,
}
use babyos.Fs.{Disk, Inode, ndirect, max_file_size, word, nblocks, alloc_block, ensure_addr}
use babyos.Fs.Bitmap.{in_use, free_count, IsFormatted}
use babyos.Fs.Owner.{lba_at, IsData, Own, Owned, Own-assigned, Own-tabled}
use babyos.Fs.Fresh.{alloc_block-Fresh, first_data_pos}
use babyos.Fs.Grown.{
  table_of, Grown, Mapped, Grown-none, lba_at-direct, lba_at-indirect, lba_at-no_table, word_zero,
  set_addr-others,
}

-- `ensure_addr` keeps an address that is there, and fills one that is not with a fresh block.
pub ensure_addr-old :
    (inode : Inode) (i : ℕ) (d : Disk)
    → get_or inode.addrs i 0 ≢ 0
    → ensure_addr inode i d ≡ (inode, d)
unfolding ensure_addr
ensure_addr-old inode i d h =
    if_false _ _ (let t : (get_or inode.addrs i 0 == 0) ≡ false = ground arith in t)

pub ensure_addr-new :
    (inode : Inode) (i : ℕ) (d : Disk) (l : ℕ) (d' : Disk)
    → get_or inode.addrs i 0 ≡ 0
    → alloc_block d ≡ (l, d')
    → ensure_addr inode i d ≡ (record inode { addrs = set inode.addrs i l }, d')
unfolding ensure_addr
ensure_addr-new inode i d l d' h e =
    if_true _ _ (let t : (get_or inode.addrs i 0 == 0) ≡ true = ground arith in t)
    ∙ ap (λ r. (record inode { addrs = set inode.addrs i r.0 }, r.1)) e

pub nonzero-IsData : (d : Disk) (l : ℕ) → IsData d l → l ≢ 0
nonzero-IsData d l g z = omega (arith, g.above, first_data_pos d)

pub direct-Mapped :
    (b : ℕ) (inode : Inode) (d : Disk)
    → b < ndirect
    → IsFormatted d
    → Owned inode d
    → 1 ≤ free_count d (nblocks d)
    → (inode' : Inode) × (d' : Disk) × (ensure_addr inode b d ≡ (inode', d'))
      × Mapped b inode d (get_or inode'.addrs b 0) inode' d'
direct-Mapped b inode d h f o enough = elim (ℕ_discrete (get_or inode.addrs b 0) 0) [
  | no nz ↦
      let at = lba_at-direct inode d b h in
      (
        inode,
        d,
        ensure_addr-old inode b d nz,
        record {
          grown = Grown-none 2 inode d f o;
          entry = record {
            here = at;
            data_block = elim (o.own.block_ok b (omega arith)) [
              | inl z ↦ absurd (nz (sym at ∙ z))
              | inr g ↦ subst (IsData d) at g
            ];
            others = λ c lt ne. refl;
            old_or_fresh = inl at;
          };
        },
      )
  | yes z ↦
      let (l, d', e, fresh) = alloc_block-Fresh inode d f o enough in
      let inode' : Inode = record inode { addrs = set inode.addrs b l } in
      let got : get_or inode'.addrs b 0 ≡ l =
        get_or-set_self inode.addrs b l 0 (omega (arith, o.thirteen)) in
      let here : lba_at inode' d' b ≡ l = lba_at-direct inode' d' b h ∙ got in
      let other : (c : ℕ) → c ≢ b → lba_at inode' d' c ≡ lba_at inode d' c =
        set_addr-others inode d' b l h in
      let same_table : table_of inode' ≡ table_of inode =
        get_or-set_ne inode.addrs b ndirect l 0 (omega arith) in
      (
        inode',
        d',
        ensure_addr-new inode b d l d' z e,
        record {
          grown = record {
            formatted = fresh.formatted;
            owned = record {
              thirteen = length-set inode.addrs b l ∙ o.thirteen;
              own =
                  subst (λ x. Own (lba_at inode' d') x (IsData d')) (sym same_table)
                    (Own-assigned (lba_at inode d') (lba_at inode' d') (table_of inode) (IsData d')
                      b l fresh.owned.own fresh.data_block
                      (λ c lt q. fresh.new c lt (sym (fresh.same_map c) ∙ q)) fresh.new_table here
                      (λ c lt ne. other c ne));
            };
            super = fresh.super;
            same_fields = refl;
            kept = λ x g ne. fresh.kept x g;
            still = fresh.still;
            count = omega (arith, fresh.count);
            table = inl same_table;
          };
          entry = record {
            here = here ∙ sym got;
            data_block = subst (IsData d') (sym got) fresh.data_block;
            others = λ c lt ne. other c ne ∙ fresh.same_map c;
            old_or_fresh = inr (
              lba_at-direct inode d b h ∙ z,
              ap (in_use d) got ∙ fresh.was_free,
              ap d' got ∙ fresh.zeroed,
            );
          };
        },
      )
]

-- The table of a file made sure of.
pub table-Grown :
    (inode : Inode) (d : Disk)
    → IsFormatted d
    → Owned inode d
    → 1 ≤ free_count d (nblocks d)
    → (inode' : Inode) × (d' : Disk) × (ensure_addr inode ndirect d ≡ (inode', d'))
      × Grown 1 inode d inode' d'
      × (table_of inode' ≢ 0)
      × ((c : ℕ) → c < max_file_size → lba_at inode' d' c ≡ lba_at inode d c)
table-Grown inode d f o enough = elim (ℕ_discrete (table_of inode) 0) [
  | no nz ↦
      (inode, d, ensure_addr-old inode ndirect d nz, Grown-none 1 inode d f o, nz, λ c lt. refl)
  | yes z ↦
      let (l, d', e, fresh) = alloc_block-Fresh inode d f o enough in
      let inode' : Inode = record inode { addrs = set inode.addrs ndirect l } in
      let got : table_of inode' ≡ l =
        get_or-set_self inode.addrs ndirect l 0 (omega (arith, o.thirteen)) in
      let same : (c : ℕ) → c < max_file_size → lba_at inode' d' c ≡ lba_at inode d' c = λ c lt.
        elim (dec_lt c ndirect) [
          | yes low ↦
              lba_at-direct inode' d' c low
              ∙ get_or-set_ne inode.addrs ndirect c l 0 (omega arith)
              ∙ sym (lba_at-direct inode d' c low)
          | no high ↦
              lba_at-indirect inode' d' c (omega arith)
                (λ q. nonzero-IsData d' l fresh.data_block (sym got ∙ q))
              ∙ ap (λ x. word (d' x) (c - ndirect)) got
              ∙ ap (λ x. word x (c - ndirect)) fresh.zeroed
              ∙ word_zero (c - ndirect)
              ∙ sym (lba_at-no_table inode d' c (omega arith) z)
        ] in
      (
        inode',
        d',
        ensure_addr-new inode ndirect d l d' z e,
        record {
          formatted = fresh.formatted;
          owned = record {
            thirteen = length-set inode.addrs ndirect l ∙ o.thirteen;
            own =
                subst (λ x. Own (lba_at inode' d') x (IsData d')) (sym got)
                  (Own-tabled (lba_at inode d') (lba_at inode' d') (table_of inode) (IsData d') l
                    fresh.owned.own fresh.data_block
                    (λ c lt q. fresh.new c lt (sym (fresh.same_map c) ∙ q)) same);
          };
          super = fresh.super;
          same_fields = refl;
          kept = λ x g ne. fresh.kept x g;
          still = fresh.still;
          count = omega (arith, fresh.count);
          table = inr (ap (in_use d) got ∙ fresh.was_free);
        },
        λ q. nonzero-IsData d' l fresh.data_block (sym got ∙ q),
        λ c lt. same c lt ∙ fresh.same_map c,
      )
]
