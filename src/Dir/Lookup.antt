-- ===== src/Dir/Lookup.antt =====
-- `dir_lookup` of src/fs.cc beside the entries of a directory.
use babyos.Prelude.{
  ℕ, zero, suc, ◌+◌, ◌*◌, ◌/◌, ◌<◌, ◌≡◌, inl, inr, ◌∙◌, sym, ap, Bool-cases, Option, some, none,
  List, if◌then◌else◌, if_true, if_false, add32, arith,
}
use babyos.Fs.{Disk, Inode}
use babyos.Dir.{entry_size, entry_inum, is_match, is_whole, scan_dir, dir_lookup}
use babyos.Dir.Entry.{
  entry_at, IsDir, Short, SameEntry, entry_inum-same, is_match-same, read_entry, read_end,
}

-- The first of `n` entries from `k` on that is not empty and has the name: its inode number and place.
unfoldable pub find_entry : List ℕ → ℕ → ℕ → (ℕ → ℕ → ℕ) → Option (ℕ × ℕ)
find_entry name zero k at = none
find_entry name (suc n) k at =
    let rest = find_entry name n (k + 1) at in
    if is_match name (at k) then some (entry_inum (at k), entry_size * k) else rest

scan_dir-find_entry :
    (rounds n k : ℕ) (dev : ℕ → Option ℕ) (name : List ℕ) (dir : ℕ → ℕ) (inode : Inode) (d : Disk)
    → IsDir inode d (k + n)
    → n < rounds
    → Short name
    → scan_dir rounds dev name (entry_size * k) dir inode d
      ≡ (find_entry name n k (entry_at inode d), (inode, d))
unfolding scan_dir find_entry is_whole
scan_dir-find_entry zero n k dev name dir inode d f h s = absurd (omega arith)
scan_dir-find_entry (suc rounds) zero k dev name dir inode d f h s =
    let last : k + 0 ≡ k = omega arith in
    let (dir', e) = read_end dev inode d (k + 0) dir f in
    ap (λ x. scan_dir (suc rounds) dev name (entry_size * x) dir inode d) (sym last)
    ∙ ap
        (λ r.
          if is_whole r.0
          then (if is_match name r.1.0
              then (some (entry_inum r.1.0, entry_size * (k + 0)), (r.1.1, r.1.2))
              else scan_dir rounds dev name (add32 (entry_size * (k + 0)) entry_size) r.1.0 r.1.1
                  r.1.2)
          else (none, (r.1.1, r.1.2)))
        e
scan_dir-find_entry (suc rounds) (suc n) k dev name dir inode d f h s =
    let (dir', e, same) = read_entry dev inode d (k + suc n) k dir f (omega arith) in
    let fits = f.file.fits in
    let next : add32 (entry_size * k) entry_size ≡ entry_size * (k + 1) =
      omega (arith, f.entries, fits) in
    let f' : IsDir inode d (k + 1 + n) = record {
      file = f.file;
      entries = omega (arith, f.entries);
    } in
    let ih = scan_dir-find_entry rounds n (k + 1) dev name dir' inode d f' (omega arith) s in
    ap
      (λ r.
        if is_whole r.0
        then (if is_match name r.1.0
            then (some (entry_inum r.1.0, entry_size * k), (r.1.1, r.1.2))
            else scan_dir rounds dev name (add32 (entry_size * k) entry_size) r.1.0 r.1.1 r.1.2)
        else (none, (r.1.1, r.1.2)))
      e
    ∙ whole_entry dir' same (ap (λ x. scan_dir rounds dev name x dir' inode d) next ∙ ih)
  where
    whole_entry :
        (dir' : ℕ → ℕ)
        → SameEntry dir' (entry_at inode d k)
        → scan_dir rounds dev name (add32 (entry_size * k) entry_size) dir' inode d
          ≡ (find_entry name n (k + 1) (entry_at inode d), (inode, d))
        → (if is_match name dir'
            then (some (entry_inum dir', entry_size * k), (inode, d))
            else scan_dir rounds dev name (add32 (entry_size * k) entry_size) dir' inode d)
          ≡ (
            (if is_match name (entry_at inode d k)
                then some (entry_inum (entry_at inode d k), entry_size * k)
                else find_entry name n (k + 1) (entry_at inode d)),
            (inode, d),
          )
    whole_entry dir' same later =
        let m = is_match-same name dir' (entry_at inode d k) s same in
        elim (Bool-cases (is_match name dir')) [
          | inl t ↦
              if_true _ _ t
              ∙ ap (λ x. (some (x, entry_size * k), (inode, d)))
                  (entry_inum-same dir' (entry_at inode d k) same)
              ∙ ap (λ x. (x, (inode, d))) (sym (if_true _ _ (sym m ∙ t)))
          | inr t ↦
              if_false _ _ t ∙ later ∙ ap (λ x. (x, (inode, d))) (sym (if_false _ _ (sym m ∙ t)))
        ]

-- `dir_lookup` of a name of at most 13 characters in a directory finds the first entry that is not empty and has the name, and nothing where
-- there is none; it changes neither the directory nor the disk.
pub dir_lookup-find_entry :
    (dev : ℕ → Option ℕ) (name : List ℕ) (dir : ℕ → ℕ) (inode : Inode) (d : Disk) (n : ℕ)
    → IsDir inode d n
    → Short name
    → dir_lookup dev name dir inode d ≡ (find_entry name n 0 (entry_at inode d), (inode, d))
unfolding dir_lookup
dir_lookup-find_entry dev name dir inode d n f s =
    scan_dir-find_entry (suc (inode.size / entry_size)) n 0 dev name dir inode d
      (record { file = f.file; entries = omega (arith, f.entries) }) (omega (arith, f.entries)) s
