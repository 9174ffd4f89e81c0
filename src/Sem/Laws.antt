-- ===== src/Sem/Laws.antt =====
-- What semaphore_t promises, for src/sem.cc: the count of `down`s, the order of wake-ups, and that
-- nobody sleeps beside a positive count.
use babyos.Prelude.{
  ℕ, suc, ◌+◌, ◌<◌, ◌≡◌, ◌⊎◌, refl, ap, sym, ◌∙◌, Bool, true, false, Option, none, some, ◌≤◌, List,
  [], ◌∷◌, ◌++◌, append_assoc, append-nil, length, length-append, arith, inr, u32_mod,
}
use babyos.Sem.{
  Sem, Event, downs, ups, resumes, down, up, up_common, has, remove, resume, run, count_if,
  add_wake, add_sleeper,
}

-- A process sleeps only at the count 0.
abbrev pub IsValid : Sem → Type 0
IsValid s = (s.count ≡ 0) ⊎ (s.waiting ≡ [])

down-IsValid : (p : ℕ) (s : Sem) → IsValid s → IsValid (down p s).1
unfolding down
down-IsValid p s v = ground arith

up_common-IsValid : (s : Sem) (w : List ℕ) → s.waiting ≡ w → IsValid s → IsValid (up_common s w).1
unfolding up_common
up_common-IsValid s [] e v = inr e
up_common-IsValid s (p ∷ rest) e v = ground arith

resume-IsValid : (p : ℕ) (s : Sem) → IsValid s → IsValid (resume p s).1
unfolding resume
resume-IsValid p s v = ground arith

-- After any history a process sleeps unwoken only if the count is 0: no wake-up is lost.
pub run-IsValid : (es : List Event) (s : Sem) → IsValid s → IsValid (run es s).final
unfolding run up
run-IsValid [] s v = v
run-IsValid (downs p ∷ es) s v = run-IsValid es _ (down-IsValid p s v)
run-IsValid (ups ∷ es) s v = run-IsValid es _ (up_common-IsValid s s.waiting refl v)
run-IsValid (resumes p ∷ es) s v = run-IsValid es _ (resume-IsValid p s v)

-- The downs that may still return with no further `up`.
abbrev pub credit : Sem → ℕ
credit s = s.count + length s.woken

abbrev pub count_ups : List Event → ℕ
count_ups [] = 0
count_ups (ups ∷ es) = suc (count_ups es)
count_ups (downs p ∷ es) = count_ups es
count_ups (resumes p ∷ es) = count_ups es

length-remove : (p : ℕ) (ps : List ℕ) → has p ps ≡ true → suc (length (remove p ps)) ≡ length ps
unfolding has remove
length-remove p [] h = cc
length-remove p (q ∷ ps) h = ground (arith, length-remove p ps)

credit-down : (p : ℕ) (s : Sem) → count_if (down p s).0 (credit (down p s).1) ≡ credit s
unfolding down
credit-down p s = ground arith

credit-up :
    (s : Sem) (w : List ℕ) → s.count + 1 < u32_mod → credit (up_common s w).1 ≡ suc (credit s)
unfolding up_common
credit-up s [] h = omega arith
credit-up s (p ∷ rest) h = omega (arith, length-append s.woken (p ∷ []))

credit-resume : (p : ℕ) (s : Sem) → count_if (resume p s).0 (credit (resume p s).1) ≡ credit s
unfolding resume
credit-resume p s = ground (arith, length-remove p s.woken)

count_step :
    (done : Bool) (returned left k k' u : ℕ)
    → returned + left ≡ k' + u
    → count_if done k' ≡ k
    → count_if done returned + left ≡ k + u
count_step true r l k k' u e c = omega arith
count_step false r l k k' u e c = omega arith

le-count_if : (done : Bool) (n : ℕ) → n ≤ count_if done n
le-count_if true n = omega arith
le-count_if false n = omega arith

-- A history returns from `down` as often as the count and the `up`s allow: what has returned and
-- what may still return make up the first credit and the `up`s, unless the 32-bit count overflows.
run_conserves :
    (es : List Event) (s : Sem)
    → credit s + count_ups es < u32_mod
    → (run es s).returned + credit (run es s).final ≡ credit s + count_ups es
unfolding run up
run_conserves [] s h = omega arith
run_conserves (downs p ∷ es) s h =
    let c = credit-down p s in
    let s' : Sem = (down p s).1 in
    count_step (down p s).0 _ _ (credit s) (credit s') (count_ups es)
      (run_conserves es s' (omega (arith, c, le-count_if (down p s).0 (credit s')))) c
run_conserves (ups ∷ es) s h =
    let c = credit-up s s.waiting (omega arith) in
    omega (arith, c, run_conserves es (up_common s s.waiting).1 (omega (arith, c)))
run_conserves (resumes p ∷ es) s h =
    let c = credit-resume p s in
    let s' : Sem = (resume p s).1 in
    count_step (resume p s).0 _ _ (credit s) (credit s') (count_ups es)
      (run_conserves es s' (omega (arith, c, le-count_if (resume p s).0 (credit s')))) c

queue-down :
    (p : ℕ) (s : Sem) (slept : List ℕ)
    → (down p s).1.waiting ++ slept ≡ s.waiting ++ add_sleeper (down p s).0 p slept
unfolding down
queue-down p s slept = ground (arith, append_assoc s.waiting (p ∷ []) slept)

queue-up :
    (s : Sem) (w slept : List ℕ)
    → s.waiting ≡ w
    → add_wake (up_common s w).0 ((up_common s w).1.waiting ++ slept) ≡ w ++ slept
unfolding up_common
queue-up s [] slept e = rw e
queue-up s (p ∷ rest) slept e = refl

queue-resume : (p : ℕ) (s : Sem) → (resume p s).1.waiting ≡ s.waiting
unfolding resume
queue-resume p s = ground arith

add_wake-append :
    (wake : Option ℕ) (ps qs : List ℕ) → add_wake wake ps ++ qs ≡ add_wake wake (ps ++ qs)
add_wake-append none ps qs = refl
add_wake-append (some p) ps qs = refl

-- Processes are woken in the order in which they went to sleep.
pub woken_in_order :
    (es : List Event) (s : Sem)
    → (run es s).wakes ++ (run es s).final.waiting ≡ s.waiting ++ (run es s).slept
unfolding run up
woken_in_order [] s = sym (append-nil s.waiting)
woken_in_order (downs p ∷ es) s = woken_in_order es (down p s).1 ∙ queue-down p s _
woken_in_order (ups ∷ es) s =
    let s' : Sem = (up_common s s.waiting).1 in
    let wake : Option ℕ = (up_common s s.waiting).0 in
    add_wake-append wake _ _
    ∙ ap (add_wake wake) (woken_in_order es s')
    ∙ queue-up s s.waiting _ refl
woken_in_order (resumes p ∷ es) s =
    woken_in_order es (resume p s).1
    ∙ ap (λ w. w ++ (run es (resume p s).1).slept) (queue-resume p s)
