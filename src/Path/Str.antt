-- ===== src/Path/Str.antt =====
-- `strcmp` and `strncpy` of src/string.cc.
use babyos.Prelude.{
  ℕ, zero, suc, ◌≡◌, ◌≢◌, ◌↔◌, refl, ◌∙◌, sym, ap, true, false, List, [], ◌∷◌, ◌==◌, if◌then◌else◌,
  if_true, if_false, length, get_or, ltb, min, arith, ℕ_discrete,
}
use babyos.Path.{strcmp, strncpy}

-- A string has no NUL before its end.
abbrev pub NoNul : List ℕ → Type 0
NoNul [] = Unit {0}
NoNul (c ∷ s) = (c ≢ 0) × NoNul s

strcmp-same : (c : ℕ) (s t : List ℕ) → strcmp (c ∷ s) (c ∷ t) ≡ strcmp s t
unfolding strcmp
strcmp-same c s t = if_true _ _ (let e : (c == c) ≡ true = ground arith in e)

strcmp-differ : (c d : ℕ) (s t : List ℕ) → c ≢ d → strcmp (c ∷ s) (d ∷ t) ≡ (c, d)
unfolding strcmp
strcmp-differ c d s t h = if_false _ _ (let e : (c == d) ≡ false = ground arith in e)

-- `strcmp` returns 0 on the same string, and on no two strings that differ.
strcmp-zero : (s : List ℕ) → (strcmp s s).0 ≡ (strcmp s s).1
strcmp-zero [] = unfold strcmp in refl
strcmp-zero (c ∷ s) =
    ap (λ r. r.0) (strcmp-same c s s) ∙ strcmp-zero s ∙ sym (ap (λ r. r.1) (strcmp-same c s s))

strcmp_zero-eq : (s t : List ℕ) → NoNul s → NoNul t → (strcmp s t).0 ≡ (strcmp s t).1 → s ≡ t
strcmp_zero-eq [] [] hs ht e = refl
strcmp_zero-eq [] (d ∷ t) hs (nz, ht) e = absurd (nz (sym ((unfold strcmp in e))))
strcmp_zero-eq (c ∷ s) [] (nz, hs) ht e = absurd (nz (unfold strcmp in e))
strcmp_zero-eq (c ∷ s) (d ∷ t) (nz, hs) (nz', ht) e = elim (ℕ_discrete c d) [
  | no ne ↦ absurd (
      ne (
        sym (ap (λ r. r.0) (strcmp-differ c d s t ne))
        ∙ e
        ∙ ap (λ r. r.1) (strcmp-differ c d s t ne)))
  | yes q ↦
      let step : strcmp (c ∷ s) (d ∷ t) ≡ strcmp s t =
        ap (λ x. strcmp (c ∷ s) (x ∷ t)) (sym q) ∙ strcmp-same c s t in
      ap (λ x. x ∷ s) q
      ∙ ap (λ r. d ∷ r)
          (strcmp_zero-eq s t hs ht (sym (ap (λ r. r.0) step) ∙ e ∙ ap (λ r. r.1) step))
]

-- `strcmp` of two strings is 0 exactly where they are the same.
pub strcmp-eq_iff : (s t : List ℕ) → NoNul s → NoNul t → ((strcmp s t).0 ≡ (strcmp s t).1) ↔ (s ≡ t)
strcmp-eq_iff s t hs ht = (strcmp_zero-eq s t hs ht, λ e. subst_zero e)
  where
    subst_zero : s ≡ t → (strcmp s t).0 ≡ (strcmp s t).1
    subst_zero e = ap (λ x. (strcmp s x).0) (sym e) ∙ strcmp-zero s ∙ ap (λ x. (strcmp s x).1) e

-- `strncpy` of at most `n` characters copies the first `n` of a string, or all where it is shorter, and
-- writes a NUL behind them, so at `dst[n]` where the string has `n` characters or more; it writes
-- nothing else.
strncpy_lem :
    (n : ℕ) (src : List ℕ) (dst : ℕ → ℕ) (j : ℕ)
    → strncpy n src dst j ≡ (
        if ltb j (min n (length src))
        then get_or src j 0
        else if j == min n (length src)
        then 0
        else dst j)
unfolding strncpy
strncpy_lem zero src dst zero = ground arith
strncpy_lem zero src dst (suc j) = ground arith
strncpy_lem (suc n) [] dst zero = ground arith
strncpy_lem (suc n) [] dst (suc j) = ground arith
strncpy_lem (suc n) (c ∷ src) dst zero = ground arith
strncpy_lem (suc n) (c ∷ src) dst (suc j) = strncpy_lem n src (λ i. dst (suc i)) j ∙ ground arith
