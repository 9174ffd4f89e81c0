-- ===== src/Files/Tests.antt =====
-- Runs of the functions of src/fs.cc on open files, and the theorem about them at a concrete input.
use babyos.Prelude.{ℕ, zero, suc, ◌≡◌, refl, true, false, none, some, List, [], ◌∷◌, arith}
use babyos.Files.{
  Files, no_file, inode_put, release, alloc_scan, alloc, free, dup_file, fd_scan, alloc_fd,
  get_file, free_fd, do_close, do_dup, init_inode, open_taken, open_inode,
}
use babyos.Files.Counts.{Counted, count_at}
use babyos.Files.Open.{Call, opens, closes, dups, call, run, run-Counted}

-- A table of two files and a process with three descriptors, nothing open.
abbrev closed : Files
closed = record { table = no_file ∷ no_file ∷ []; fds = none ∷ none ∷ none ∷ [] }

abbrev no_others : ℕ → ℕ
no_others f = 0

closed-Counted : Counted no_others closed
closed-Counted = record { counts = closed_count; room = λ f. omega arith }
  where
    closed_count : (f : ℕ) → count_at closed.table f ≡ 0
    closed_count zero = refl
    closed_count (suc zero) = refl
    closed_count (suc (suc f)) = refl

-- The second of two descriptors of a file releases its inode, the first does not.
abbrev opened_twice : List Call
opened_twice = opens 7 false true false ∷ dups 0 ∷ closes 0 ∷ []

last_close_releases :
    (s : Files) × (run opened_twice closed ≡ some s)
    × (count_at s.table 0 ≡ 1)
    × (s' : Files) × (do_close 1 s ≡ some (inode_put 7, s'))
unfolding run call open_inode open_taken alloc alloc_scan alloc_fd fd_scan init_inode do_dup
    dup_file get_file do_close free free_fd release
last_close_releases = (_, refl, refl, _, refl)

run-Counted_example : (s : Files) × (run opened_twice closed ≡ some s) × Counted no_others s
run-Counted_example = run-Counted no_others opened_twice closed closed-Counted
