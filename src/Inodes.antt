-- ===== src/Inodes.antt =====
-- The cache of inodes: `get_inode` of src/fs.cc, under the lock of the cache. m_inodes is a list and an `inode_t *` an index of it.
pub mod Refs
mod Tests
use babyos.Prelude.{
  ℕ, zero, suc, ◌+◌, ◌-◌, Bool, true, false, ◌&&◌, Option, none, some, List, [], ◌∷◌, ltb, ◌==◌,
  if◌then◌else◌, add32,
}
use mathlib.Core.Option
use babyos.Fs.{Inode, ndirect}

-- "m_inodes[i].m_dev == dev && m_inodes[i].m_inum == inum"
abbrev pub is_inode : ℕ → ℕ → Inode → Bool
is_inode dev inum inode = inode.dev == dev && inode.inum == inum

-- The loop of `get_inode`: the first inode in use with these numbers, and the first that is not in use
pub find_inode : ℕ → ℕ → List Inode → Option ℕ
find_inode dev inum [] = none
find_inode dev inum (inode ∷ rest) =
    let later = Option.map suc (find_inode dev inum rest) in
    if ltb 0 inode.ref && is_inode dev inum inode then some 0 else later

pub find_empty : List Inode → Option ℕ
find_empty [] = none
find_empty (inode ∷ rest) =
    let later = Option.map suc (find_empty rest) in if inode.ref == 0 then some 0 else later

abbrev pub update : ℕ → (Inode → Inode) → List Inode → List Inode
update i change [] = []
update zero change (inode ∷ rest) = change inode ∷ rest
update (suc i) change (inode ∷ rest) = inode ∷ update i change rest

abbrev pub no_addrs : ℕ → List ℕ
no_addrs zero = []
no_addrs (suc n) = 0 ∷ no_addrs n

-- "m_ref++"
abbrev pub add_ref : Inode → Inode
add_ref inode = record inode { ref = add32 inode.ref 1 }

-- What becomes of an empty inode
abbrev pub claimed : ℕ → ℕ → Inode → Inode
claimed dev inum inode = record inode {
  dev = dev;
  inum = inum;
  ref = 1;
  valid = 0;
  size = 0;
  addrs = no_addrs (ndirect + 1);
}

-- `get_inode`, `none` for NULL
pub get_found : ℕ → ℕ → Option ℕ → Option ℕ → List Inode → Option ℕ × List Inode
get_found dev inum (some i) empty inodes = (some i, update i add_ref inodes)
get_found dev inum none (some i) inodes = (some i, update i (claimed dev inum) inodes)
get_found dev inum none none inodes = (none, inodes)

pub get_inode : ℕ → ℕ → List Inode → Option ℕ × List Inode
get_inode dev inum inodes =
    get_found dev inum (find_inode dev inum inodes) (find_empty inodes) inodes
