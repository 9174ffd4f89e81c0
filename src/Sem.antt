-- ===== src/Sem.antt =====
-- Semaphores: class semaphore_t of src/sem.h and src/sem.cc. Each operation runs under the lock of
-- the semaphore up to the point where it gives the lock up, so an operation is a step. A process
-- that sleeps in `down_common` stands in `waiting`; one whose `m_up` is set and that has not run
-- since stands in `woken`. A process is its number.
pub mod Laws
mod Tests
use babyos.Prelude.{
  ℕ, zero, suc, ◌+◌, ◌-◌, ◌%◌, ◌^◌, Bool, true, false, Option, none, some, List, [], ◌∷◌, ◌++◌, ltb,
  ◌==◌, if◌then◌else◌, add32,
}

pub record Sem : Type 0 where
  pub count : ℕ
  pub waiting : List ℕ
  pub woken : List ℕ

pub init : ℕ → Sem
init count = record { count = count; waiting = []; woken = [] }

-- `down` by a process: whether it returns at once, or sleeps.
pub down : ℕ → Sem → Bool × Sem
down proc s =
    if ltb 0 s.count
    then (true, record s { count = s.count - 1 })
    else (false, record s { waiting = s.waiting ++ (proc ∷ []) })

-- `up_common`: the first waiter gets `m_up`, and is the process handed to `wake_up_process`.
pub up_common : Sem → List ℕ → Option ℕ × Sem
up_common s [] = (none, record s { count = add32 s.count 1 })
up_common s (proc ∷ rest) = (some proc, record s { waiting = rest; woken = s.woken ++ (proc ∷ []) })

pub up : Sem → Option ℕ × Sem
up s = up_common s s.waiting

pub has : ℕ → List ℕ → Bool
has proc [] = false
has proc (p ∷ rest) = if p == proc then true else has proc rest

pub remove : ℕ → List ℕ → List ℕ
remove proc [] = []
remove proc (p ∷ rest) = if p == proc then rest else p ∷ remove proc rest

-- A sleeping process is scheduled again: it leaves `down` if its `m_up` is set, or sleeps on.
pub resume : ℕ → Sem → Bool × Sem
resume proc s =
    if has proc s.woken then (true, record s { woken = remove proc s.woken }) else (false, s)

pub data Event : Type 0 where
  downs : ℕ → Event
  ups : Event
  resumes : ℕ → Event

-- What a history of events comes to: the downs that have returned, the processes that went to
-- sleep and those handed to `wake_up_process`, in order, and the semaphore at the end.
pub record Trace : Type 0 where
  pub returned : ℕ
  pub slept : List ℕ
  pub wakes : List ℕ
  pub final : Sem

abbrev pub count_if : Bool → ℕ → ℕ
count_if true n = suc n
count_if false n = n

abbrev pub add_wake : Option ℕ → List ℕ → List ℕ
add_wake none ps = ps
add_wake (some p) ps = p ∷ ps

abbrev pub add_sleeper : Bool → ℕ → List ℕ → List ℕ
add_sleeper true p ps = ps
add_sleeper false p ps = p ∷ ps

pub run : List Event → Sem → Trace
run [] s = record { returned = 0; slept = []; wakes = []; final = s }
run (downs p ∷ es) s =
    let (done, s') = down p s in
    let t = run es s' in
    record t { returned = count_if done t.returned; slept = add_sleeper done p t.slept }
run (ups ∷ es) s =
    let (wake, s') = up s in let t = run es s' in record t { wakes = add_wake wake t.wakes }
run (resumes p ∷ es) s =
    let (done, s') = resume p s in
    let t = run es s' in record t { returned = count_if done t.returned }
