-- ===== src/Fs/Owner.antt =====
-- Which blocks a file of src/fs.cc has, and that it has each of them once.
use babyos.Prelude.{
  ℕ, ◌+◌, ◌-◌, ◌≤◌, ◌<◌, ◌≡◌, ◌≢◌, ◌⊎◌, inl, inr, ◌∙◌, sym, ap, subst, ◌==◌, if◌then◌else◌, ltb,
  ℕ_discrete, get_or, length,
}
use babyos.Fs.{Disk, Inode, ndirect, max_file_size, word, nblocks}
use babyos.Fs.Bitmap.{in_use, first_data}

-- The block behind block `b` of the file, 0 where there is none.
unfoldable pub lba_at : Inode → Disk → ℕ → ℕ
lba_at inode d b =
    if ltb b ndirect
    then get_or inode.addrs b 0
    else if get_or inode.addrs ndirect 0 == 0
    then 0
    else word (d (get_or inode.addrs ndirect 0)) (b - ndirect)

-- A block of data that is marked in use.
pub record IsData (d : Disk) (lba : ℕ) : Type 0 where
  pub above : first_data d ≤ lba
  pub below : lba < nblocks d
  pub used : in_use d lba ≡ 1

-- The blocks that a map of a file and its table name are good, and no two of them are the same.
pub record Own (at : ℕ → ℕ) (table : ℕ) (Good : ℕ → Type 0) : Type 0 where
  pub block_ok : (b : ℕ) → b < max_file_size → (at b ≡ 0) ⊎ Good (at b)
  pub table_ok : (table ≡ 0) ⊎ Good table
  pub apart : (b c : ℕ) → b < max_file_size → c < max_file_size → at b ≢ 0 → at b ≡ at c → b ≡ c
  pub table_apart : (b : ℕ) → b < max_file_size → at b ≢ 0 → at b ≢ table

pub record Owned (inode : Inode) (d : Disk) : Type 0 where
  pub thirteen : length inode.addrs ≡ ndirect + 1
  pub own : Own (lba_at inode d) (get_or inode.addrs ndirect 0) (IsData d)

pub Own-moved :
    (at at' : ℕ → ℕ) (table : ℕ) (Good Good' : ℕ → Type 0)
    → Own at table Good
    → ((b : ℕ) → b < max_file_size → at' b ≡ at b)
    → ((l : ℕ) → Good l → Good' l)
    → Own at' table Good'
Own-moved at at' table Good Good' o same mono = record {
  block_ok = λ b lt. elim (o.block_ok b lt) [
    | inl z ↦ inl (same b lt ∙ z)
    | inr g ↦ inr (subst Good' (sym (same b lt)) (mono (at b) g))
  ];
  table_ok = elim o.table_ok [ inl z ↦ inl z | inr g ↦ inr (mono table g) ];
  apart = λ b c lb lc nz e.
      o.apart b c lb lc (λ z. nz (same b lb ∙ z)) (sym (same b lb) ∙ e ∙ same c lc);
  table_apart = λ b lb nz e. o.table_apart b lb (λ z. nz (same b lb ∙ z)) (sym (same b lb) ∙ e);
}

-- A block that the file does not have becomes its block `b`.
pub Own-assigned :
    (at at' : ℕ → ℕ) (table : ℕ) (Good : ℕ → Type 0) (b l : ℕ)
    → Own at table Good
    → Good l
    → ((c : ℕ) → c < max_file_size → at c ≢ l)
    → l ≢ table
    → at' b ≡ l
    → ((c : ℕ) → c < max_file_size → c ≢ b → at' c ≡ at c)
    → Own at' table Good
Own-assigned at at' table Good b l o good new new_table here same = record {
  block_ok = λ c lt. elim (ℕ_discrete c b) [
    | yes e ↦ inr (subst Good (sym (ap at' e ∙ here)) good)
    | no ne ↦ elim (o.block_ok c lt) [
      | inl z ↦ inl (same c lt ne ∙ z)
      | inr g ↦ inr (subst Good (sym (same c lt ne)) g)
    ]
  ];
  table_ok = o.table_ok;
  apart = λ c c' lc lc' nz e. elim (ℕ_discrete c b) [
    | yes q ↦ elim (ℕ_discrete c' b) [
      | yes q' ↦ q ∙ sym q'
      | no ne' ↦ absurd (new c' lc' (sym (same c' lc' ne') ∙ sym e ∙ ap at' q ∙ here))
    ]
    | no ne ↦ elim (ℕ_discrete c' b) [
      | yes q' ↦ absurd (new c lc (sym (same c lc ne) ∙ e ∙ ap at' q' ∙ here))
      | no ne' ↦
          o.apart c c' lc lc' (λ z. nz (same c lc ne ∙ z))
            (sym (same c lc ne) ∙ e ∙ same c' lc' ne')
    ]
  ];
  table_apart = λ c lc nz e. elim (ℕ_discrete c b) [
    | yes q ↦ new_table (sym here ∙ ap at' (sym q) ∙ e)
    | no ne ↦ o.table_apart c lc (λ z. nz (same c lc ne ∙ z)) (sym (same c lc ne) ∙ e)
  ];
}

-- A block that the file does not have becomes its table.
pub Own-tabled :
    (at at' : ℕ → ℕ) (table : ℕ) (Good : ℕ → Type 0) (l : ℕ)
    → Own at table Good
    → Good l
    → ((c : ℕ) → c < max_file_size → at c ≢ l)
    → ((c : ℕ) → c < max_file_size → at' c ≡ at c)
    → Own at' l Good
Own-tabled at at' table Good l o good new same = record {
  block_ok = λ c lt. elim (o.block_ok c lt) [
    | inl z ↦ inl (same c lt ∙ z)
    | inr g ↦ inr (subst Good (sym (same c lt)) g)
  ];
  table_ok = inr good;
  apart = λ b c lb lc nz e.
      o.apart b c lb lc (λ z. nz (same b lb ∙ z)) (sym (same b lb) ∙ e ∙ same c lc);
  table_apart = λ c lc nz e. new c lc (sym (same c lc) ∙ e);
}
