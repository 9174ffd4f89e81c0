-- ===== src/Inodes/Tests.antt =====
-- A small cache of inodes.
use babyos.Prelude.{ℕ, ◌≡◌, ◌⊎◌, inl, inr, refl, some, none, List, [], ◌∷◌, arith}
use babyos.Fs.{Inode}
use babyos.Inodes.{get_inode}
use babyos.Inodes.Refs.{refs, Apart, AllUsed, Referenced, get_inode-Referenced}

abbrev cached : ℕ → ℕ → Inode
cached inum ref = record {
  dev = 1;
  inum = inum;
  ref = ref;
  valid = 1;
  type = 2;
  major = 0;
  minor = 0;
  nlinks = 1;
  size = 0;
  addrs = [];
}

-- Inode 3 with two references, a place that is empty, and inode 5.
abbrev three_places : List Inode
three_places = cached 3 2 ∷ cached 0 0 ∷ cached 5 1 ∷ []

three_places-Apart : Apart three_places
three_places-Apart = (inr refl, (inl refl, (inr refl, tt)))

get_inode-Referenced_example :
    ((i : ℕ) × (inodes' : List Inode) × (get_inode 1 5 three_places ≡ (some i, inodes'))
      × Referenced 1 5 i three_places inodes')
    ⊎ ((get_inode 1 5 three_places ≡ (none, three_places))
        × (refs 1 5 three_places ≡ 0)
        × AllUsed three_places)
get_inode-Referenced_example =
    get_inode-Referenced 1 5 three_places three_places-Apart (omega arith)
