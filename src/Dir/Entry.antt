-- ===== src/Dir/Entry.antt =====
-- The entries of a directory of src/fs.cc as `read_inode` reads them.
use babyos.Prelude.{
  length, ◌≤◌, Bool-cases, if_true, if_false, sym, ℕ, zero, suc, ◌+◌, ◌-◌, ◌*◌, ◌<◌, ◌≡◌, inl, inr,
  refl, ◌∙◌, ap, false, Option, some, List, [], ◌∷◌, ◌==◌, if◌then◌else◌, arith,
}
use babyos.Path.{max_path, strcmp}
use babyos.Fs.{Disk, Inode, store, read_inode}
use babyos.Fs.Write.{byte_at, store_in}
use babyos.Fs.File.{IsFile, readable, read_inode-bytes}
use babyos.Dir.{entry_size, until_nul, entry_inum, entry_name, is_match}

-- Entry `k` of a directory.
abbrev pub entry_at : Inode → Disk → ℕ → ℕ → ℕ
entry_at inode d k i = byte_at inode d (entry_size * k + i)

-- A file that consists of `n` entries.
pub record IsDir (inode : Inode) (d : Disk) (n : ℕ) : Type 0 where
  pub file : IsFile inode d
  pub entries : inode.size ≡ entry_size * n

-- Two memories with the same entry at their start.
abbrev pub SameEntry : (ℕ → ℕ) → (ℕ → ℕ) → Type 0
SameEntry a b = (i : ℕ) → i < entry_size → a i ≡ b i

until_nul-same :
    (n : ℕ) (a b : ℕ → ℕ) → ((i : ℕ) → i < n → a i ≡ b i) → until_nul n a ≡ until_nul n b
unfolding until_nul
until_nul-same zero a b h = refl
until_nul-same (suc n) a b h =
    let rest =
      until_nul-same n (λ i. a (suc i)) (λ i. b (suc i)) (λ i lt. h (suc i) (omega arith)) in
    ap (λ x. if x == 0 then [] else x ∷ until_nul n (λ i. a (suc i))) (h 0 (omega arith))
    ∙ ap (λ r. if b 0 == 0 then [] else b 0 ∷ r) rest

pub entry_inum-same : (a b : ℕ → ℕ) → SameEntry a b → entry_inum a ≡ entry_inum b
unfolding entry_inum
entry_inum-same a b h = omega (arith, h 0 (omega arith), h 1 (omega arith))

-- `strcmp` of a short name is decided within the array.
strcmp-until_nul :
    (name : List ℕ) (n : ℕ) (m : ℕ → ℕ)
    → suc (length name) ≤ n
    → strcmp name (until_nul (suc (length name)) m) ≡ strcmp name (until_nul n m)
unfolding until_nul strcmp
strcmp-until_nul name zero m h = absurd (omega arith)
strcmp-until_nul [] (suc n) m h = elim (Bool-cases (m 0 == 0)) [
  | inl t ↦ ap (strcmp []) (if_true _ _ t) ∙ ap (strcmp []) (sym (if_true _ _ t))
  | inr t ↦ ap (strcmp []) (if_false _ _ t) ∙ ap (strcmp []) (sym (if_false _ _ t))
]
strcmp-until_nul (c ∷ name) (suc n) m h =
    let tail : ℕ → ℕ = λ i. m (suc i) in
    elim (Bool-cases (m 0 == 0)) [
      | inl t ↦
          ap (strcmp (c ∷ name)) (if_true _ _ t) ∙ ap (strcmp (c ∷ name)) (sym (if_true _ _ t))
      | inr t ↦
          ap (strcmp (c ∷ name)) (if_false _ _ t)
          ∙ ap (λ r. if c == m 0 then r else (c, m 0))
              (strcmp-until_nul name n tail (omega (arith, h)))
          ∙ ap (strcmp (c ∷ name)) (sym (if_false _ _ t))
    ]

-- Names that leave room for their NUL.
abbrev pub Short : List ℕ → Type 0
Short name = length name < max_path

-- An entry is compared as its array holds it.
pub is_match-cut :
    (name : List ℕ) (dir : ℕ → ℕ)
    → Short name
    → is_match name dir ≡ (
        let (a, b) = strcmp name (entry_name max_path dir) in
        if entry_inum dir == 0 then false else a == b)
unfolding is_match entry_name
is_match-cut name dir h =
    ap (λ r. if entry_inum dir == 0 then false else r.0 == r.1)
      (strcmp-until_nul name max_path (λ i. dir (suc (suc i))) (omega (arith, h)))

entry_name-same : (a b : ℕ → ℕ) → SameEntry a b → entry_name max_path a ≡ entry_name max_path b
unfolding entry_name
entry_name-same a b h =
    until_nul-same max_path (λ i. a (suc (suc i))) (λ i. b (suc (suc i)))
      (λ i lt. h (suc (suc i)) (omega arith))

pub is_match-same :
    (name : List ℕ) (a b : ℕ → ℕ) → Short name → SameEntry a b → is_match name a ≡ is_match name b
is_match-same name a b s h =
    is_match-cut name a s
    ∙ ap (λ x. if entry_inum a == 0 then false else (strcmp name x).0 == (strcmp name x).1)
        (entry_name-same a b h)
    ∙ ap
        (λ x.
          if x == 0
          then false
          else (strcmp name (entry_name max_path b)).0 == (strcmp name (entry_name max_path b)).1)
        (entry_inum-same a b h)
    ∙ sym (is_match-cut name b s)

-- Reading one entry.
pub read_entry :
    (dev : ℕ → Option ℕ) (inode : Inode) (d : Disk) (n k : ℕ) (dir : ℕ → ℕ)
    → IsDir inode d n
    → k < n
    → (dir' : ℕ → ℕ) × (read_inode dev inode dir (entry_size * k) entry_size d
        ≡ (some entry_size, (dir', inode, d)))
      × SameEntry dir' (entry_at inode d k)
read_entry dev inode d n k dir f h =
    let fits = f.file.fits in
    let all : readable inode.size (entry_size * k) entry_size ≡ entry_size =
      ground (arith, f.entries, h) in
    elim (read_inode-bytes dev inode dir (entry_size * k) entry_size d f.file
      (omega (arith, f.entries, fits, h))) [
        | inl (past, _) ↦ absurd (omega (arith, past, f.entries, h))
        | inr (dir', e, bytes) ↦ (
          dir',
          e ∙ ap (λ m. (some m, (dir', inode, d))) all,
          λ i lt.
              ap (λ g. g i) bytes
              ∙ ap (λ m. store 0 m (λ j. byte_at inode d (entry_size * k + j)) dir i) all
              ∙ store_in 0 entry_size (λ j. byte_at inode d (entry_size * k + j)) dir i
                  (omega arith) (omega arith)
              ∙ ap (entry_at inode d k) (let q : i - 0 ≡ i = omega arith in q),
        )
      ]

-- Reading at the end of a directory.
pub read_end :
    (dev : ℕ → Option ℕ) (inode : Inode) (d : Disk) (n : ℕ) (dir : ℕ → ℕ)
    → IsDir inode d n
    → (dir' : ℕ → ℕ) × (read_inode dev inode dir (entry_size * n) entry_size d
        ≡ (some 0, (dir', inode, d)))
read_end dev inode d n dir f =
    let fits = f.file.fits in
    let nothing : readable inode.size (entry_size * n) entry_size ≡ 0 = ground (arith, f.entries) in
    elim (read_inode-bytes dev inode dir (entry_size * n) entry_size d f.file
      (omega (arith, f.entries, fits))) [
        | inl (past, _) ↦ absurd (omega (arith, past, f.entries))
        | inr (dir', e, bytes) ↦ (dir', e ∙ ap (λ m. (some m, (dir', inode, d))) nothing)
      ]
