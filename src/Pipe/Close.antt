-- ===== src/Pipe/Close.antt =====
-- The end of a pipe, in src/pipe.cc: what `close` does to a reader.
use babyos.Prelude.{ℕ, ◌≡◌, true, false, none, some, arith, get_or}
use babyos.Pipe.{Pipe, get_locked, put_locked, get_char, put_char, close}
use mathlib.Core.Option

-- After the write end is closed, a reader of a pipe with nothing in it is not told so: `get_char`
-- succeeds, with the byte that the buffer holds at the read index. Nor is a writer told that the read
-- end is closed: whatever room there was, `put_char` succeeds.
pub close-other_end :
    (ch : ℕ) (p : Pipe)
    → p.readable ≡ true
    → p.writable ≡ true
    → p.item ≡ 0
    → (Option.map (λ r. r.0) (get_char p) ≡ none)
      × (Option.map (λ r. r.0) (get_char (close true p).1)
          ≡ some (some (get_or p.buffer p.read_index 0)))
      × (Option.map (λ r. r.0) (put_char ch (close false p).1) ≡ some true)
unfolding close get_char get_locked put_char put_locked
close-other_end ch p r w e = (ground arith, ground arith, ground arith)
