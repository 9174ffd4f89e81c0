-- ===== src/Files.antt =====
-- Open files: file_t and file_table_t of src/file.cc and src/file_table.cc, the descriptors of a
-- process (m_files, src/process.cc), and do_close, do_dup and the part of do_open behind the path
-- lookup (src/fs.cc). A file_t* is its place in the table; pointers to inodes, pipes and sockets are
-- numbers, 0 for NULL. A descriptor is a number; one that is negative in the code is one past the end.
pub mod Counts
pub mod Open
mod Tests
use babyos.Prelude.{
  ℕ, zero, suc, ◌+◌, ◌-◌, Bool, true, false, Option, none, some, List, [], ◌∷◌, ltb, ◌==◌,
  if◌then◌else◌, get_or, set, add32,
}

pub data FileType : Type 0 where
  type_none type_pipe type_inode type_socket : FileType

pub record File : Type 0 where
  pub type : FileType
  pub ref : ℕ
  pub readable : Bool
  pub writeable : Bool
  pub inode : ℕ
  pub pipe : ℕ
  pub socket : ℕ
  pub offset : ℕ

-- An entry of the table after `memset`.
abbrev pub no_file : File
no_file = record {
  type = type_none;
  ref = 0;
  readable = false;
  writeable = false;
  inode = 0;
  pipe = 0;
  socket = 0;
  offset = 0;
}

-- What `file_table_t::free` calls on the object behind the file.
pub data Released : Type 0 where
  nothing : Released
  pipe_closed : ℕ → Bool → Released
  socket_released : ℕ → Released
  inode_put : ℕ → Released

pub release : File → FileType → Released
release file type_none = nothing
release file type_pipe = pipe_closed file.pipe file.writeable
release file type_socket = socket_released file.socket
release file type_inode = inode_put file.inode

-- The place of an entry behind the first one.
abbrev pub next_place : Option ℕ → Option ℕ
next_place none = none
next_place (some i) = some (suc i)

-- The loop of `file_table_t::alloc`
pub alloc_scan : List File → Option ℕ
alloc_scan [] = none
alloc_scan (file ∷ rest) =
    let later = next_place (alloc_scan rest) in if file.ref == 0 then some 0 else later

abbrev pub take_file : Option ℕ → List File → List File
take_file none table = table
take_file (some f) table = set table f (record (get_or table f no_file) { ref = 1 })

-- `file_table_t::alloc`
pub alloc : List File → Option ℕ × List File
alloc table = let found = alloc_scan table in (found, take_file found table)

-- `file_table_t::free`, `none` where it panics
pub free : ℕ → List File → Option (Released × List File)
free f table =
    let file = get_or table f no_file in
    let lowered = record file { ref = file.ref - 1 } in
    if ltb file.ref 1
    then none
    else if ltb 0 lowered.ref
    then some (nothing, set table f lowered)
    else some (release file file.type, set table f (record lowered { type = type_none }))

-- `file_table_t::dup_file`, `none` where it panics
pub dup_file : ℕ → List File → Option (List File)
dup_file f table =
    let file = get_or table f no_file in
    if ltb file.ref 1 then none else some (set table f (record file { ref = add32 file.ref 1 }))

-- The loop of `alloc_fd`
pub fd_scan : List (Option ℕ) → Option ℕ
fd_scan [] = none
fd_scan (none ∷ rest) = some 0
fd_scan (some f ∷ rest) = next_place (fd_scan rest)

-- `alloc_fd`, `none` for -1, with the descriptors after it
pub alloc_fd : ℕ → List (Option ℕ) → Option (ℕ × List (Option ℕ))
alloc_fd f fds = elim (fd_scan fds) [ none ↦ none | some i ↦ some (i, set fds i (some f)) ]

-- `get_file` and `free_fd`
pub get_file : ℕ → List (Option ℕ) → Option ℕ
get_file fd fds = get_or fds fd none

pub free_fd : ℕ → List (Option ℕ) → List (Option ℕ)
free_fd fd fds = set fds fd none

pub record Files : Type 0 where
  pub table : List File
  pub fds : List (Option ℕ)

-- `do_close`, and what it released; `none` where it panics
pub do_close : ℕ → Files → Option (Released × Files)
do_close fd s = elim (get_file fd s.fds) [
  | none ↦ some (nothing, s)
  | some f ↦ elim (free f s.table) [
    | none ↦ none
    | some (released, table) ↦ some (released, record { table = table; fds = free_fd fd s.fds })
  ]
]

-- `do_dup`: `true` for its 0 and `false` for -1; `none` where it panics
pub do_dup : ℕ → Files → Option (Bool × Files)
do_dup fd s = elim (get_file fd s.fds) [
  | none ↦ some (false, s)
  | some f ↦ elim (alloc_fd f s.fds) [
    | none ↦ some (false, s)
    | some (fd', fds) ↦ elim (dup_file f s.table) [
      | none ↦ none
      | some table ↦ some (true, record { table = table; fds = fds })
    ]
  ]
]

-- `file_t::init` for an inode
pub init_inode : ℕ → Bool → Bool → File
init_inode inode readable writeable = record {
  type = type_inode;
  ref = 1;
  readable = readable;
  writeable = writeable;
  inode = inode;
  pipe = 0;
  socket = 0;
  offset = 0;
}

-- `do_open` once `alloc_file` has returned: the descriptor, `none` for -1; `none` where it panics
pub open_taken : Option ℕ → File → Files → Option (Option ℕ × Files)
open_taken none file s = some (none, s)
open_taken (some f) file s = elim (alloc_fd f s.fds) [
  | some (fd, fds) ↦ some (some fd, record { table = set s.table f file; fds = fds })
  | none ↦ elim (free f s.table) [
    | none ↦ none
    | some (_, table) ↦ some (none, record s { table = table })
  ]
]

-- `do_open` from the inode that the path leads to; `refused` is the test for a directory that is
-- opened for more than reading.
pub open_inode : ℕ → Bool → Bool → Bool → Files → Option (Option ℕ × Files)
open_inode inode refused readable writeable s =
    let (found, table) = alloc s.table in
    if refused
    then some (none, s)
    else open_taken found (init_inode inode readable writeable) (record s { table = table })
