-- ===== src/Dir.antt =====
-- Directories: the loop of `dir_lookup`, and `dir_link`, of src/fs.cc, over `read_inode` and
-- `write_inode`. The bytes behind an entry in the memory that it is read to are whatever is there: `strcmp` reads them where a
-- name of 14 characters fills its array. A name is the characters before its NUL.
pub mod Entry
pub mod Lookup
pub mod Change
pub mod Link
mod Tests
use babyos.Prelude.{
  ℕ, zero, suc, ◌+◌, ◌-◌, ◌*◌, ◌/◌, ◌%◌, Bool, true, false, Option, none, some, List, [], ◌∷◌, ltb,
  ◌==◌, if◌then◌else◌, add32, length,
}
use babyos.Fs.{Disk, Inode, read_inode, write_inode}
use babyos.Path.{max_path, strcmp, strncpy}

-- `sizeof(dir_entry_t)`
abbrev pub entry_size : ℕ
entry_size = 16

-- The string at the start of some memory, cut after `n` characters
pub until_nul : ℕ → (ℕ → ℕ) → List ℕ
until_nul zero m = []
until_nul (suc n) m = let rest = until_nul n (λ i. m (suc i)) in if m 0 == 0 then [] else m 0 ∷ rest

-- `m_inum` of a `dir_entry_t`, and the string at `m_name`, cut after `n` characters
pub entry_inum : (ℕ → ℕ) → ℕ
entry_inum dir = dir 0 + 256 * dir 1

pub entry_name : ℕ → (ℕ → ℕ) → List ℕ
entry_name n dir = until_nul n (λ i. dir (suc (suc i)))

-- "dir.m_inum != 0" and "strcmp(name, dir.m_name) == 0", which reads no further than the NUL of `name`
pub is_match : List ℕ → (ℕ → ℕ) → Bool
is_match name dir =
    let (a, b) = strcmp name (entry_name (suc (length name)) dir) in
    if entry_inum dir == 0 then false else a == b

-- "read_inode(...) == sizeof(dir_entry_t)"
pub is_whole : Option ℕ → Bool
is_whole none = false
is_whole (some n) = n == entry_size

-- The loop of `dir_lookup` from `off` on, in at most `rounds` rounds, with what is in `dir`: the inode number
-- and the place of the entry
pub scan_dir :
    ℕ → (ℕ → Option ℕ) → List ℕ → ℕ → (ℕ → ℕ) → Inode → Disk → Option (ℕ × ℕ) × (Inode × Disk)
scan_dir zero dev name off dir inode d = (none, (inode, d))
scan_dir (suc rounds) dev name off dir inode d =
    let (got, (dir', inode', d')) = read_inode dev inode dir off entry_size d in
    let rest = scan_dir rounds dev name (add32 off entry_size) dir' inode' d' in
    if is_whole got
    then (if is_match name dir' then (some (entry_inum dir', off), (inode', d')) else rest)
    else (none, (inode', d'))

-- `dir_lookup` up to `get_inode`; the entry on the stack is what is in `dir` before
pub dir_lookup : (ℕ → Option ℕ) → List ℕ → (ℕ → ℕ) → Inode → Disk → Option (ℕ × ℕ) × (Inode × Disk)
dir_lookup dev name dir inode d = scan_dir (suc (inode.size / entry_size)) dev name 0 dir inode d

-- The loop of `dir_link`: the place of an empty entry or the end; `none` where reading fails
pub free_slot : ℕ → (ℕ → Option ℕ) → ℕ → (ℕ → ℕ) → Inode → Disk → Option ℕ × (Inode × Disk)
free_slot zero dev off dir inode d = (some off, (inode, d))
free_slot (suc rounds) dev off dir inode d =
    let (got, (dir', inode', d')) = read_inode dev inode dir off entry_size d in
    let rest = free_slot rounds dev (add32 off entry_size) dir' inode' d' in
    if ltb off inode.size
    then (if is_whole got
        then (if entry_inum dir' == 0 then (some off, (inode', d')) else rest)
        else (none, (inode', d')))
    else (some off, (inode, d))

-- The entry that `dir_link` writes
pub new_entry : ℕ → List ℕ → ℕ → ℕ
new_entry inum name zero = inum % 256
new_entry inum name (suc zero) = inum / 256 % 256
new_entry inum name (suc (suc j)) = strncpy max_path name (λ i. 0) j

-- How `dir_link` ends
pub data Linking : Type 0 where
  -- it returns 0, or -1 where reading fails
  linked failed : Linking
  -- the name is there, in an entry of this inode: `put_inode` waits for the lock of the directory, which every
  -- caller of `dir_link` holds, so it never returns; the reference that `dir_lookup` took of the inode is kept
  asleep : ℕ → Linking

-- `dir_link` where `dir_lookup` finds no entry of that name, and where it finds one
pub link_at : (ℕ → Option ℕ) → List ℕ → ℕ → Option ℕ × (Inode × Disk) → Linking × (Inode × Disk)
link_at dev name inum (none, (inode, d)) = (failed, (inode, d))
link_at dev name inum (some off, (inode, d)) =
    (linked, (write_inode dev inode (new_entry inum name) off entry_size d).1)

pub link_new :
    (ℕ → Option ℕ)
    → List ℕ
    → ℕ
    → (ℕ → ℕ)
    → Option (ℕ × ℕ) × (Inode × Disk)
    → Linking × (Inode × Disk)
link_new dev name inum dir (some (found, place), (inode, d)) = (asleep found, (inode, d))
link_new dev name inum dir (none, (inode, d)) =
    link_at dev name inum (free_slot (suc (inode.size / entry_size)) dev 0 dir inode d)

-- `dir_link`, called with the lock of the directory held
pub dir_link : (ℕ → Option ℕ) → List ℕ → ℕ → (ℕ → ℕ) → Inode → Disk → Linking × (Inode × Disk)
dir_link dev name inum dir inode d = link_new dev name inum dir (dir_lookup dev name dir inode d)
