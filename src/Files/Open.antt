-- ===== src/Files/Open.antt =====
-- Opening files, and any sequence of calls, for src/fs.cc.
use babyos.Prelude.{
  code, ℕ, ◌+◌, ◌≤◌, ◌<◌, ◌≡◌, inl, inr, refl, ◌∙◌, ap, Bool, true, false, Option, none, some, List,
  [], ◌∷◌, ◌==◌, if◌then◌else◌, get_or, set, arith, length, length-set, Option-cases, Bool-cases,
}
use babyos.Files.{
  File, Files, no_file, Released, alloc_scan, alloc, free, fd_scan, alloc_fd, do_close, do_dup,
  init_inode, open_taken, open_inode, next_place,
}
use babyos.Files.Counts.{
  refs, count_at, Counted, next_place_inv, count_at-set, free-some, fd_scan-refs, do_close-Counted,
  do_dup-Counted,
}

alloc_scan-some :
    (table : List File) (f : ℕ)
    → alloc_scan table ≡ some f
    → (count_at table f ≡ 0) × (f < length table)
unfolding alloc_scan
alloc_scan-some [] f h = absurd (omega (arith, ap code h))
alloc_scan-some (file ∷ rest) f h = elim (Bool-cases (file.ref == 0)) [
  | inl e ↦
      let h' : some 0 ≡ some f = rw e at h in
      let first : f ≡ 0 = omega (arith, ap code h') in rw first (ground arith, omega arith)
  | inr e ↦
      let h' : next_place (alloc_scan rest) ≡ some f = rw e at h in
      let (j, e', first) = next_place_inv (alloc_scan rest) f h' in
      let (z, lt) = alloc_scan-some rest j e' in rw first (z, omega arith)
]

open_taken_full :
    (f : ℕ) (file : File) (s : Files) (r : Released) (table : List File)
    → fd_scan s.fds ≡ none
    → free f s.table ≡ some (r, table)
    → open_taken (some f) file s ≡ some (none, record { table = table; fds = s.fds })
unfolding open_taken alloc_fd
open_taken_full f file s r table e e' = rw (e, open_taken, e') refl

open_taken_room :
    (f fd : ℕ) (file : File) (s : Files)
    → fd_scan s.fds ≡ some fd
    → open_taken (some f) file s
      ≡ some (some fd, record { table = set s.table f file; fds = set s.fds fd (some f) })
unfolding open_taken alloc_fd
open_taken_room f fd file s e = rw (e, open_taken) refl

-- A file that was free is written twice.
Counted-twice :
    (others : ℕ → ℕ) (s : Files) (f : ℕ) (v v' : File) (fds : List (Option ℕ))
    → Counted others s
    → f < length s.table
    → length fds ≡ length s.fds
    → ((g : ℕ) → (if g == f then v'.ref else count_at s.table g) ≡ refs g fds + others g)
    → Counted others (record { table = set (set s.table f v) f v'; fds = fds })
Counted-twice others s f v v' fds c lt same_length h = record {
  counts = λ g.
      count_at-set (set s.table f v) f v' g (omega (arith, length-set s.table f v))
      ∙ (ground (arith, h g, count_at-set s.table f v g lt));
  room = λ g. omega (arith, c.room g);
}

open_inode-Counted :
    (others : ℕ → ℕ) (inode : ℕ) (refused readable writeable : Bool) (s : Files)
    → Counted others s
    → (fd : Option ℕ) × (s' : Files) × (open_inode inode refused readable writeable s
        ≡ some (fd, s'))
      × Counted others s'
unfolding open_inode alloc open_taken init_inode
open_inode-Counted others inode true r w s c = (none, s, refl, c)
open_inode-Counted others inode false r w s c = elim (Option-cases (alloc_scan s.table)) [
  | inl e ↦ (none, s, rw e refl, c)
  | inr (f, e) ↦
      let (z, lt) = alloc_scan-some s.table f e in
      let taken : File = record (get_or s.table f no_file) { ref = 1 } in
      let table = set s.table f taken in
      elim (Option-cases (fd_scan s.fds)) [
        | inr (fd, e') ↦
            let change = fd_scan-refs s.fds fd f e' in
            (
              some fd,
              record { table = set table f (init_inode inode r w); fds = set s.fds fd (some f) },
              rw e (
                  open_taken_room f fd (init_inode inode r w)
                    (record { table = table; fds = s.fds }) e'),
              Counted-twice others s f taken (init_inode inode r w) (set s.fds fd (some f)) c lt
                  (length-set s.fds fd (some f)) (λ g. ground (arith, change g, c.counts g, z)),
            )
        | inl e' ↦
            let own : 1 ≤ count_at table f = ground (arith, count_at-set s.table f taken f lt) in
            let (_, v, fe, ve) = free-some f table own in
            (
              none,
              record { table = set table f v; fds = s.fds },
              rw e (
                  open_taken_full f (init_inode inode r w) (record { table = table; fds = s.fds }) _
                    _ e' fe),
              Counted-twice others s f taken v s.fds c lt refl
                  (λ g. ground (arith, c.counts g, z, ve, count_at-set s.table f taken f lt)),
            )
      ]
]

pub data Call : Type 0 where
  opens : ℕ → Bool → Bool → Bool → Call
  closes : ℕ → Call
  dups : ℕ → Call

-- What a call makes of the files, `none` where it panics.
unfoldable pub call : Call → Files → Option Files
call (opens inode refused r w) s = elim (open_inode inode refused r w s) [
  | none ↦ none
  | some (_, s') ↦ some s'
]
call (closes fd) s = elim (do_close fd s) [ none ↦ none | some (_, s') ↦ some s' ]
call (dups fd) s = elim (do_dup fd s) [ none ↦ none | some (_, s') ↦ some s' ]

unfoldable pub run : List Call → Files → Option Files
run [] s = some s
run (c ∷ rest) s = elim (call c s) [ none ↦ none | some s' ↦ run rest s' ]

call-Counted :
    (others : ℕ → ℕ) (c : Call) (s : Files)
    → Counted others s
    → (s' : Files) × (call c s ≡ some s') × Counted others s'
unfolding call
call-Counted others (opens inode refused r w) s v =
    let (_, s', e, v') = open_inode-Counted others inode refused r w s v in
    (s', rw (e, call) refl, v')
call-Counted others (closes fd) s v =
    let (_, s', e, v') = do_close-Counted others fd s v in (s', rw (e, call) refl, v')
call-Counted others (dups fd) s v =
    let (_, s', e, v') = do_dup-Counted others fd s v in (s', rw (e, call) refl, v')

-- Where the count of every open file is the number of descriptors that refer to it, any sequence of
-- opens, closes and dups runs without a panic, and the counts are right after it.
pub run-Counted :
    (others : ℕ → ℕ) (calls : List Call) (s : Files)
    → Counted others s
    → (s' : Files) × (run calls s ≡ some s') × Counted others s'
unfolding run
run-Counted others [] s v = (s, refl, v)
run-Counted others (c ∷ rest) s v =
    let (s', e, v') = call-Counted others c s v in
    let (s'', e', v'') = run-Counted others rest s' v' in (s'', rw (e, run) e', v'')
