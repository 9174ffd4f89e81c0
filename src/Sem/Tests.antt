-- ===== src/Sem/Tests.antt =====
-- Runs of the functions of src/sem.cc, and the theorems about them at concrete inputs.
use babyos.Prelude.{◌≡◌, refl, List, [], ◌∷◌, ◌++◌}
use babyos.Sem.{Event, downs, ups, resumes, init, down, up, up_common, has, remove, resume, run}
use babyos.Sem.Laws.{woken_in_order}

-- Two processes sleep, two `up`s wake them in turn, and the second runs first.
abbrev history : List Event
history = downs 1 ∷ downs 2 ∷ downs 3 ∷ ups ∷ ups ∷ resumes 3 ∷ []

history-run : run history (init 1) ≡ record {
  returned = 2;
  slept = 2 ∷ 3 ∷ [];
  wakes = 2 ∷ 3 ∷ [];
  final = record { count = 0; waiting = []; woken = 2 ∷ [] };
}
unfolding run init down up up_common resume has remove
history-run = refl

woken_in_order_example :
    (run history (init 1)).wakes ++ (run history (init 1)).final.waiting
    ≡ (run history (init 1)).slept
unfolding init
woken_in_order_example = woken_in_order history (init 1)
