-- ===== src/BlockDev.antt =====
-- The block cache: block_dev_t of src/block_dev.cc with io_buffer_t of src/io_buffer.cc, and what a
-- request of src/hd.cc comes to once the disk has answered. One process at a time uses the
-- cache, so the lock of a buffer is free when it is taken. A buffer is its place in m_bufs; the disk
-- and the bytes of a buffer are functions.
pub mod Held
pub mod Refine
mod Tests
use babyos.Prelude.{
  ℕ, zero, suc, ◌+◌, Bool, true, false, Option, none, some, List, [], ◌∷◌, ◌++◌, ◌==◌,
  if◌then◌else◌,
}

-- `io_buffer_t`
pub record Buf : Type 0 where
  pub lba : ℕ
  pub done : Bool
  pub bytes : ℕ → ℕ

pub record BlockDev : Type 0 where
  pub bufs : ℕ → Buf
  pub used_list : List ℕ
  pub free_list : List ℕ
  pub disk : ℕ → ℕ → ℕ

-- One entry of an array or of the disk replaced.
pub put : {A : Type 0} → (ℕ → A) → ℕ → A → ℕ → A
put f i a j = if j == i then a else f j

-- `m_free_list` after `init`, with the buffers from `first` on
pub init_list : ℕ → ℕ → List ℕ
init_list zero first = []
init_list (suc n) first = first ∷ init_list n (first + 1)

-- `init` with `n` buffers, over what the disk holds
pub init : ℕ → (ℕ → ℕ → ℕ) → BlockDev
init n disk = record {
  bufs = λ b. record { lba = 0; done = false; bytes = λ i. 0 };
  used_list = [];
  free_list = init_list n 0;
  disk = disk;
}

-- The walk of `get_block` along `m_used_list`
pub find_used : ℕ → (ℕ → Buf) → List ℕ → Option ℕ
find_used lba bufs [] = none
find_used lba bufs (b ∷ rest) = if (bufs b).lba == lba then some b else find_used lba bufs rest

-- `b->m_lba = lba; b->m_done = 0;`
pub claim : ℕ → ℕ → BlockDev → BlockDev
claim b lba d = record d { bufs = put d.bufs b (record (d.bufs b) { lba = lba; done = false }) }

-- A buffer for a block that is not cached; `none` where both lists are empty.
pub recycle : ℕ → List ℕ → List ℕ → BlockDev → Option (ℕ × BlockDev)
recycle lba (b ∷ rest) used d = some (b, claim b lba (record d { free_list = rest }))
recycle lba [] (b ∷ rest) d = some (b, claim b lba (record d { used_list = rest }))
recycle lba [] [] d = none

-- `get_block`
pub get_block : ℕ → BlockDev → Option (ℕ × BlockDev)
get_block lba d = elim (find_used lba d.bufs d.used_list) [
  | some b ↦ some (b, d)
  | none ↦ recycle lba d.free_list d.used_list d
]

-- `release_block`
pub release_block : ℕ → BlockDev → BlockDev
release_block b d = record d { used_list = d.used_list ++ b ∷ [] }

-- A read and a write request, up to `end_request`
pub read_request : ℕ → BlockDev → BlockDev
read_request b d = record d {
  bufs = put d.bufs b (record (d.bufs b) { done = true; bytes = d.disk (d.bufs b).lba });
}

pub write_request : ℕ → BlockDev → BlockDev
write_request b d = record d {
  bufs = put d.bufs b (record (d.bufs b) { done = true });
  disk = put d.disk (d.bufs b).lba (d.bufs b).bytes;
}

-- `read`
pub read : ℕ → BlockDev → Option (ℕ × BlockDev)
read lba d = elim (get_block lba d) [
  | none ↦ none
  | some (b, d') ↦ some (b, if (d'.bufs b).done then d' else read_request b d')
]

-- `write`
pub write : ℕ → BlockDev → BlockDev
write b d = write_request b d

-- How a caller uses the device: it reads a block, and gives it back as it is, or with other bytes
-- that it writes first.
pub data Access : Type 0 where
  fetch : ℕ → Access
  modify : ℕ → ((ℕ → ℕ) → ℕ → ℕ) → Access

-- The bytes that the caller sees, and the device after it.
pub access : Access → BlockDev → Option ((ℕ → ℕ) × BlockDev)
access (fetch lba) d = elim (read lba d) [
  | none ↦ none
  | some (b, d') ↦ some ((d'.bufs b).bytes, release_block b d')
]
access (modify lba change) d = elim (read lba d) [
  | none ↦ none
  | some (b, d') ↦
      let seen = (d'.bufs b).bytes in
      let changed = record d' {
        bufs = put d'.bufs b (record (d'.bufs b) { bytes = change seen });
      } in
      some (seen, release_block b (write b changed))
]

pub run : List Access → BlockDev → Option (List (ℕ → ℕ) × BlockDev)
run [] d = some ([], d)
run (a ∷ rest) d = elim (access a d) [
  | none ↦ none
  | some (seen, d') ↦ elim (run rest d') [
    | none ↦ none
    | some (more, d'') ↦ some (seen ∷ more, d'')
  ]
]

-- The same accesses to a disk without a cache.
pub plain : Access → (ℕ → ℕ → ℕ) → (ℕ → ℕ) × (ℕ → ℕ → ℕ)
plain (fetch lba) disk = (disk lba, disk)
plain (modify lba change) disk = (disk lba, put disk lba (change (disk lba)))

pub plain_run : List Access → (ℕ → ℕ → ℕ) → List (ℕ → ℕ) × (ℕ → ℕ → ℕ)
plain_run [] disk = ([], disk)
plain_run (a ∷ rest) disk =
    let (seen, disk') = plain a disk in
    let (more, disk'') = plain_run rest disk' in (seen ∷ more, disk'')
