-- ===== src/ObjectPool/Tests.antt =====
-- Runs of the functions of src/pool.cc, and the theorem about them at a concrete input.
use babyos.Prelude.{◌≡◌, refl, some, true, List, [], ◌∷◌, arith}
use babyos.ObjectPool.{init, free_object, cut, refilled, first_object, alloc_from_pool}
use babyos.ObjectPool.Run.{System, Event, allocate, give_back, step, run, after, Sound, run-Sound}

-- A pool of objects of 1024 bytes, four of which fit into a page.
abbrev fresh : System
fresh = record { pool = init 1024; used = [] }

fresh-Sound : Sound fresh
unfolding init
fresh-Sound = record { link = omega arith; fits = omega arith; count = refl; apart = refl }

abbrev events : List Event
events = allocate 0x1000 ∷ allocate 0 ∷ give_back 0x1c00 ∷ allocate 0 ∷ []

objects_in_use : (s : System) × (run events fresh ≡ some s) × (s.used ≡ 0x1c00 ∷ 0x1800 ∷ [])
unfolding run step alloc_from_pool refilled first_object cut free_object init
objects_in_use = (_, refl, refl)

events_allowed : after events (some fresh) ≡ true
unfolding run step alloc_from_pool refilled first_object cut free_object init
events_allowed = refl

run-Sound_example : (s : System) × (run events fresh ≡ some s) × Sound s
run-Sound_example = run-Sound events fresh fresh-Sound events_allowed
