-- ===== src/Pipe/Tests.antt =====
-- Runs of the functions of src/pipe.cc, and the theorems about them at concrete inputs.
use mathlib.Core.Option
use babyos.Prelude.{
  ℕ, ◌≤◌, ◌≡◌, refl, true, false, none, some, List, [], ◌∷◌, arith, length, replicate,
  length-replicate,
}
use babyos.Pipe.{init, get_char, put_char, get_locked, put_locked, read, write, close, done}
use babyos.Pipe.Fifo.{
  System, Event, get_down, get_critical, put_down, put_critical, put_up, step, run, start, pending,
  run_fifo, start-IsValid,
}
use babyos.Pipe.Stream.{Holds, write-read}
use babyos.Pipe.Close.{close-other_end}

abbrev storage : List ℕ
storage = replicate 512 0

-- A writer stores two bytes before a reader that has passed its down takes the first.
abbrev moves : List Event
moves =
    put_down ∷ put_down ∷ put_critical 7 ∷ put_up ∷ get_down ∷ put_critical 8 ∷ get_critical ∷ []

abbrev after_moves : System
after_moves = record {
  pipe = record (init (7 ∷ 8 ∷ replicate 510 0)) {
    read_index = 1;
    write_index = 2;
    space = 510;
    item = 0;
  };
  getting = 0;
  got = 1;
  putting = 0;
  put = 1;
  sent = 7 ∷ 8 ∷ [];
  received = 7 ∷ [];
}

moves-run : run moves (start storage) ≡ some after_moves
unfolding run step start init get_locked put_locked
moves-run = refl

run_fifo_example :
    (after_moves.sent ≡ 7 ∷ pending after_moves) × (length (pending after_moves) ≤ 512)
run_fifo_example = run_fifo storage moves after_moves (length-replicate {A = ℕ} 512 0) moves-run

empty-Holds : Holds (init storage) []
unfolding start
empty-Holds = start-IsValid storage (length-replicate {A = ℕ} 512 0)

write-read_example :
    let (n, status, p') = write (4 ∷ 5 ∷ []) (init storage) in
    let (out, status', p'') = read 2 p' in
    (n ≡ 2) × (status ≡ done) × (out ≡ 4 ∷ 5 ∷ []) × (status' ≡ done) × Holds p'' []
unfolding init
write-read_example = write-read (4 ∷ 5 ∷ []) [] (init storage) empty-Holds (omega arith)

close-other_end_example :
    (Option.map (λ r. r.0) (get_char (init storage)) ≡ none)
    × (Option.map (λ r. r.0) (get_char (close true (init storage)).1) ≡ some (some 0))
    × (Option.map (λ r. r.0) (put_char 4 (close false (init storage)).1) ≡ some true)
unfolding init
close-other_end_example = close-other_end 4 (init storage) refl refl refl
