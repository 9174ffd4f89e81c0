-- ===== src/LinkedList/Tests.antt =====
-- Runs of the functions of src/list.h, and the theorems about them at concrete inputs.
use babyos.Prelude.{ℕ, ◌≡◌, refl, List, [], ◌∷◌}
use babyos.LinkedList.{
  Cell, init, put, set_next, set_prev, alloc_node, erase_middle, push_front, push_back, erase, find,
}
use babyos.LinkedList.Chain.{stop}
use babyos.LinkedList.Ends.{Holds, entry}
use babyos.LinkedList.Refine.{
  Call, perform, perform_all, all_meanings, perform_all-Holds, node_of, find-node_of,
}

abbrev nowhere : ℕ → Cell
nowhere p = record { value = 0; next = 0; prev = 0 }

empty_list : Holds (init nowhere) []
unfolding init
empty_list = record { chain = stop; nodes = refl; head = refl; tail = refl; size = refl }

abbrev calls : List Call
calls =
    Call.at_back 11 5
    ∷ Call.at_back 22 6
    ∷ Call.at_front 33 7
    ∷ Call.at_back 44 8
    ∷ Call.out 22
    ∷ Call.out 33
    ∷ Call.at_front 22 9
    ∷ []

calls_run : (perform_all calls (init nowhere)).size ≡ 3
unfolding perform_all perform init push_front push_back erase erase_middle set_prev put set_next
    alloc_node
calls_run = refl

perform_all-Holds_example : Holds (perform_all calls (init nowhere)) (all_meanings calls [])
perform_all-Holds_example = perform_all-Holds calls (init nowhere) [] refl empty_list

after_calls : Holds (perform_all calls (init nowhere)) (entry 22 9 ∷ entry 11 5 ∷ entry 44 8 ∷ [])
after_calls = perform_all-Holds calls (init nowhere) [] refl empty_list

find-node_of_example :
    find 5 (perform_all calls (init nowhere))
    ≡ node_of 5 (entry 22 9 ∷ entry 11 5 ∷ entry 44 8 ∷ [])
find-node_of_example =
    find-node_of 5 (perform_all calls (init nowhere)) (entry 22 9 ∷ entry 11 5 ∷ entry 44 8 ∷ [])
      after_calls
