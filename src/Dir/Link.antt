-- ===== src/Dir/Link.antt =====
-- `dir_link` of src/fs.cc: where the entry goes, and what `dir_lookup` finds then.
use babyos.Prelude.{ℕ, suc, ◌≤◌, ◌<◌, ◌≡◌, ◌≢◌, ◌⊎◌, ap, some, none, List, arith}
use babyos.Path.Str.{NoNul}
use babyos.Fs.{Disk, Inode}
use babyos.Fs.Written.{Written}
use babyos.Dir.{entry_inum, new_entry}
use babyos.Dir.Entry.{Short, entry_at, IsDir, SameEntry}
use babyos.Dir.Change.{found_code}

-- Where `dir_link` puts an entry: at the first that is empty, or behind the last.
record Slot (n : ℕ) (at : ℕ → ℕ → ℕ) (slot : ℕ) : Type 0 where
  within : slot ≤ n
  empty : (slot ≡ n) ⊎ (entry_inum (at slot) ≡ 0)

-- The directory after an entry has been written to the slot.
record Linked (n slot inum : ℕ) (name : List ℕ) (inode : Inode) (d : Disk) (inode' : Inode)
    (d' : Disk) : Type 0 where
  total : ℕ
  dir : IsDir inode' d' total
  longer : ((slot < n) × (total ≡ n)) ⊎ ((slot ≡ n) × (total ≡ suc n))
  here : SameEntry (new_entry inum name) (entry_at inode' d' slot)
  others : (c : ℕ) → c < n → c ≢ slot → SameEntry (entry_at inode d c) (entry_at inode' d' c)

-- Names are looked up in the directory with the new entry.
module _ (n slot inum : ℕ) (name : List ℕ) (inode : Inode) (d : Disk) (inode' : Inode) (d' : Disk)
    (h : NoNul name) (le : Short name) (pos : 1 ≤ inum) (small : inum < 0x1_0000)
    (s : Slot n (entry_at inode d) slot) (l : Linked n slot inum name inode d inode' d') where
  abbrev old : ℕ → ℕ → ℕ
  old = entry_at inode d

  abbrev new : ℕ → ℕ → ℕ
  new = entry_at inode' d'

some-none : (r : ℕ × ℕ) → some r ≡ none → ⊥
some-none r e = omega (arith, ap found_code e)
