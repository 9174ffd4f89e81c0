-- ===== src/Mem/Copy.antt =====
-- What memmov and memset of src/string.cc leave at each address.
use babyos.Prelude.{
  ℕ, zero, suc, ◌+◌, ◌-◌, ◌%◌, ◌≤◌, ◌<◌, ◌≡◌, ◌≢◌, ◌⊎◌, inl, inr, refl, ◌∙◌, sym, ap, ◌&&◌, ltb,
  leb, if◌then◌else◌, if_true, if_false, Bool-cases, arith, ℕ_discrete,
}
use babyos.Mem.{write, copy_up, copy_down, memmov, memcpy, fill, memset}

write_self : (mem : ℕ → ℕ) (a v j : ℕ) → j ≡ a → write mem a v j ≡ v
unfolding write
write_self mem a v j e = if_true v (mem j) (ground arith)

write_ne : (mem : ℕ → ℕ) (a v j : ℕ) → j ≢ a → write mem a v j ≡ mem j
unfolding write
write_ne mem a v j h = if_false v (mem j) (ground arith)

-- The range at `d` holds what `from` says, and the rest is as before.
record Filled (n d : ℕ) (from : ℕ → ℕ) (mem mem' : ℕ → ℕ) : Type 0 where
  inside : (i : ℕ) → i < n → mem' (d + i) ≡ from i
  outside : (j : ℕ) → (j < d) ⊎ (d + n ≤ j) → mem' j ≡ mem j

copy_up-Filled :
    (n d s : ℕ) (mem : ℕ → ℕ)
    → (d ≤ s) ⊎ (s + n ≤ d)
    → Filled n d (λ i. mem (s + i)) mem (copy_up n d s mem)
unfolding copy_up
copy_up-Filled zero d s mem h = record {
  inside = λ i lt. absurd (omega arith);
  outside = λ j o. refl;
}
copy_up-Filled (suc n) d s mem h =
    let mem' = write mem d (mem s) in
    let r = copy_up-Filled n (d + 1) (s + 1) mem' (omega arith) in
    record {
      inside = λ i lt. elim (ℕ_discrete i 0) [
        | yes e ↦
            r.outside (d + i) (omega arith)
            ∙ write_self mem d (mem s) (d + i) (omega arith)
            ∙ ap mem (let q : s ≡ s + i = omega arith in q)
        | no ne ↦
            ap (copy_up n (d + 1) (s + 1) mem') (let q : d + i ≡ d + 1 + (i - 1) = omega arith in q)
            ∙ r.inside (i - 1) (omega arith)
            ∙ ap mem' (let q : s + 1 + (i - 1) ≡ s + i = omega arith in q)
            ∙ write_ne mem d (mem s) (s + i) (omega arith)
      ];
      outside = λ j o. r.outside j (omega arith) ∙ write_ne mem d (mem s) j (omega arith);
    }

copy_down-Filled :
    (n d s : ℕ) (mem : ℕ → ℕ) → s ≤ d → Filled n d (λ i. mem (s + i)) mem (copy_down n d s mem)
unfolding copy_down
copy_down-Filled zero d s mem h = record {
  inside = λ i lt. absurd (omega arith);
  outside = λ j o. refl;
}
copy_down-Filled (suc n) d s mem h =
    let mem' = write mem (d + n) (mem (s + n)) in
    let r = copy_down-Filled n d s mem' h in
    record {
      inside = λ i lt. elim (ℕ_discrete i n) [
        | yes e ↦
            r.outside (d + i) (omega arith)
            ∙ write_self mem (d + n) (mem (s + n)) (d + i) (omega arith)
            ∙ ap mem (let q : s + n ≡ s + i = omega arith in q)
        | no ne ↦
            r.inside i (omega arith) ∙ write_ne mem (d + n) (mem (s + n)) (s + i) (omega arith)
      ];
      outside =
          λ j o. r.outside j (omega arith) ∙ write_ne mem (d + n) (mem (s + n)) j (omega arith);
    }

Filled-at :
    (n d : ℕ) (from mem mem' : ℕ → ℕ)
    → Filled n d from mem mem'
    → (j : ℕ) → mem' j ≡ (if leb d j && ltb j (d + n) then from (j - d) else mem j)
Filled-at n d from mem mem' f j = elim (Bool-cases (leb d j && ltb j (d + n))) [
  | inl t ↦
      ap mem' (let q : j ≡ d + (j - d) = ground arith in q)
      ∙ f.inside (j - d) (ground arith)
      ∙ sym (if_true _ _ t)
  | inr t ↦ f.outside j (ground arith) ∙ sym (if_false _ _ t)
]

memmov-Filled :
    (dst src n : ℕ) (mem : ℕ → ℕ) → Filled n dst (λ i. mem (src + i)) mem (memmov dst src n mem)
unfolding memmov
memmov-Filled dst src n mem = elim (Bool-cases (ltb src dst && ltb dst (src + n))) [
  | inl t ↦ rw t (copy_down-Filled n dst src mem (ground arith))
  | inr t ↦ rw t (copy_up-Filled n dst src mem (ground arith))
]

fill-Filled : (n d c : ℕ) (mem : ℕ → ℕ) → Filled n d (λ i. c % 256) mem (fill n d c mem)
unfolding fill
fill-Filled zero d c mem = record { inside = λ i lt. absurd (omega arith); outside = λ j o. refl }
fill-Filled (suc n) d c mem =
    let mem' = write mem d (c % 256) in
    let r = fill-Filled n (d + 1) c mem' in
    record {
      inside = λ i lt. elim (ℕ_discrete i 0) [
        | yes e ↦ r.outside (d + i) (omega arith) ∙ write_self mem d (c % 256) (d + i) (omega arith)
        | no ne ↦
            ap (fill n (d + 1) c mem') (let q : d + i ≡ d + 1 + (i - 1) = omega arith in q)
            ∙ r.inside (i - 1) (omega arith)
      ];
      outside = λ j o. r.outside j (omega arith) ∙ write_ne mem d (c % 256) j (omega arith);
    }

-- `memmov` and `memcpy` leave in the target range the bytes that the source range held before the
-- call, however the two overlap, `memset` leaves there the low byte of its argument, and all three
-- leave every other byte as it was.
pub memmov_at :
    (dst src c n : ℕ) (mem : ℕ → ℕ) (j : ℕ)
    → (memmov dst src n mem j
        ≡ (if leb dst j && ltb j (dst + n) then mem (src + (j - dst)) else mem j))
      × (memcpy dst src n mem j
          ≡ (if leb dst j && ltb j (dst + n) then mem (src + (j - dst)) else mem j))
      × (memset dst c n mem j ≡ (if leb dst j && ltb j (dst + n) then c % 256 else mem j))
unfolding memcpy memset
memmov_at dst src c n mem j =
    let moved =
      Filled-at n dst (λ i. mem (src + i)) mem (memmov dst src n mem) (memmov-Filled dst src n mem)
        j in
    (
      moved,
      moved,
      Filled-at n dst (λ i. c % 256) mem (fill n dst c mem) (fill-Filled n dst c mem) j,
    )
