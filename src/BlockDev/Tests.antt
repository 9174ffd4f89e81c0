-- ===== src/BlockDev/Tests.antt =====
-- A run of the cache of src/block_dev.cc, and the theorem about it at that input.
use babyos.Prelude.{ℕ, suc, ◌+◌, ◌≡◌, refl, some, List, [], ◌∷◌}
use babyos.BlockDev.{
  BlockDev, put, init, init_list, find_used, claim, recycle, get_block, release_block, read_request,
  write_request, read, write, Access, fetch, modify, access, run, plain_run,
}
use babyos.BlockDev.Held.{IsValid}
use babyos.BlockDev.Refine.{run_refines, init-IsValid}

-- Byte `i` of block `lba` is their sum. One buffer serves two blocks in turn.
abbrev disk : ℕ → ℕ → ℕ
disk lba i = lba + i

abbrev raise : (ℕ → ℕ) → ℕ → ℕ
raise bytes i = suc (bytes i)

abbrev accesses : List Access
accesses = modify 5 raise ∷ fetch 6 ∷ fetch 5 ∷ []

one_buffer :
    (d : BlockDev) × (seen : List (ℕ → ℕ)) × (run accesses (init 1 disk) ≡ some (seen, d))
    × (d.disk 5 2 ≡ 8)
    × (d.used_list ≡ 0 ∷ [])
unfolding put init init_list find_used claim recycle get_block release_block read_request
    write_request read write access run
one_buffer = (_, _, refl, refl, refl)

-- A block found in the used list stays there, and is put there once more by each release.
used_twice :
    (d : BlockDev) × (seen : List (ℕ → ℕ)) × (run (fetch 5 ∷ fetch 5 ∷ fetch 5 ∷ []) (init 2 disk)
      ≡ some (seen, d))
    × (d.used_list ≡ 0 ∷ 0 ∷ 0 ∷ [])
unfolding put init init_list find_used claim recycle get_block release_block read_request read
    access run
used_twice = (_, _, refl, refl)

run_refines_example :
    (d' : BlockDev) × (run accesses (init 1 disk)
      ≡ some ((plain_run accesses (init 1 disk).disk).0, d'))
    × (d'.disk ≡ (plain_run accesses (init 1 disk).disk).1)
    × IsValid d'
run_refines_example = run_refines accesses (init 1 disk) (init-IsValid 0 disk)
