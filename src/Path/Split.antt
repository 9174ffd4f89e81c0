-- ===== src/Path/Split.antt =====
-- `skip_elem` of src/fs.cc beside the names between the slashes of a path.
use babyos.Prelude.{
  ℕ, ◌≤◌, ◌<◌, ◌≡◌, ◌⊎◌, inl, inr, refl, ◌∙◌, sym, ap, Bool, true, false, Bool-cases, none, some,
  List, [], ◌∷◌, ◌==◌, if◌then◌else◌, if_true, if_false, take, length, arith,
}
use babyos.Path.{slash, max_path, skip_slashes, scan_elem, cut_elem, skip_elem, is_empty}

-- The parts of a path between its slashes.
abbrev pub push : ℕ → List (List ℕ) → List (List ℕ)
push c [] = (c ∷ []) ∷ []
push c (part ∷ parts) = (c ∷ part) ∷ parts

unfoldable pub split : List ℕ → List (List ℕ)
split [] = [] ∷ []
split (c ∷ path) = let parts = split path in if c == slash then [] ∷ parts else push c parts

-- The parts that are not empty, each cut to the length of a name.
abbrev pub named : List (List ℕ) → List (List ℕ)
named [] = []
named ([] ∷ parts) = named parts
named ((c ∷ part) ∷ parts) = take max_path (c ∷ part) ∷ named parts

abbrev pub segments : List ℕ → List (List ℕ)
segments path = named (split path)

abbrev after : List ℕ → List (List ℕ)
after [] = []
after (c ∷ path) = split path

split-slash : (c : ℕ) (path : List ℕ) → (c == slash) ≡ true → split (c ∷ path) ≡ [] ∷ split path
unfolding split
split-slash c path t = if_true _ _ t

split-char : (c : ℕ) (path : List ℕ) → (c == slash) ≡ false → split (c ∷ path) ≡ push c (split path)
unfolding split
split-char c path t = if_false _ _ t

scan_slash : (c : ℕ) (path : List ℕ) → (c == slash) ≡ true → scan_elem (c ∷ path) ≡ ([], c ∷ path)
unfolding scan_elem
scan_slash c path t = if_true _ _ t

scan_char :
    (c : ℕ) (path : List ℕ)
    → (c == slash) ≡ false
    → scan_elem (c ∷ path) ≡ (c ∷ (scan_elem path).0, (scan_elem path).1)
unfolding scan_elem
scan_char c path t = if_false _ _ t

skip_slash :
    (c : ℕ) (path : List ℕ) → (c == slash) ≡ true → skip_slashes (c ∷ path) ≡ skip_slashes path
unfolding skip_slashes
skip_slash c path t = if_true _ _ t

skip_char : (c : ℕ) (path : List ℕ) → (c == slash) ≡ false → skip_slashes (c ∷ path) ≡ c ∷ path
unfolding skip_slashes
skip_char c path t = if_false _ _ t

segments-skip_slashes : (path : List ℕ) → segments (skip_slashes path) ≡ segments path
segments-skip_slashes [] = ap segments (unfold skip_slashes in refl)
segments-skip_slashes (c ∷ path) = elim (Bool-cases (c == slash)) [
  | inl t ↦
      ap segments (skip_slash c path t)
      ∙ segments-skip_slashes path
      ∙ ap named (sym (split-slash c path t))
  | inr t ↦ ap segments (skip_char c path t)
]

split-scan_elem : (path : List ℕ) → split path ≡ (scan_elem path).0 ∷ after (scan_elem path).1
split-scan_elem [] = unfold split scan_elem in refl
split-scan_elem (c ∷ path) = elim (Bool-cases (c == slash)) [
  | inl t ↦ split-slash c path t ∙ sym (ap (λ r. r.0 ∷ after r.1) (scan_slash c path t))
  | inr t ↦
      split-char c path t
      ∙ ap (push c) (split-scan_elem path)
      ∙ sym (ap (λ r. r.0 ∷ after r.1) (scan_char c path t))
]

-- What is left of a path starts with a slash.
after_elem :
    (path : List ℕ) → named (after (scan_elem path).1) ≡ segments (skip_slashes (scan_elem path).1)
after_elem [] = unfold scan_elem skip_slashes split in refl
after_elem (c ∷ path) = elim (Bool-cases (c == slash)) [
  | inl t ↦
      ap (λ r. named (after r.1)) (scan_slash c path t)
      ∙ sym (segments-skip_slashes path)
      ∙ ap segments (sym (skip_slash c path t))
      ∙ sym (ap (λ r. segments (skip_slashes r.1)) (scan_slash c path t))
  | inr t ↦
      ap (λ r. named (after r.1)) (scan_char c path t)
      ∙ after_elem path
      ∙ sym (ap (λ r. segments (skip_slashes r.1)) (scan_char c path t))
]

length-skip_slashes : (path : List ℕ) → length (skip_slashes path) ≤ length path
length-skip_slashes [] = unfold skip_slashes in omega arith
length-skip_slashes (c ∷ path) = elim (Bool-cases (c == slash)) [
  | inl t ↦ omega (arith, ap length (skip_slash c path t), length-skip_slashes path)
  | inr t ↦ omega (arith, ap length (skip_char c path t))
]

length-scan_elem : (path : List ℕ) → length (scan_elem path).1 ≤ length path
length-scan_elem [] = unfold scan_elem in omega arith
length-scan_elem (c ∷ path) = elim (Bool-cases (c == slash)) [
  | inl t ↦ omega (arith, ap (λ r. length r.1) (scan_slash c path t))
  | inr t ↦ omega (arith, ap (λ r. length r.1) (scan_char c path t), length-scan_elem path)
]

abbrev pub no_parts : List (List ℕ) → Bool
no_parts [] = true
no_parts (part ∷ parts) = false

-- What `skip_elem` makes of a path.
pub record Cut (path : List ℕ) (name rest : List ℕ) : Type 0 where
  pub taken : skip_elem path ≡ some (name, rest)
  pub parts : segments path ≡ name ∷ segments rest
  pub shorter : length rest < length path
  pub ends : is_empty rest ≡ no_parts (segments rest)

skip_slashes_cases :
    (path : List ℕ)
    → (skip_slashes path ≡ [])
      ⊎ ((c : ℕ) × (rest : List ℕ) × (skip_slashes path ≡ c ∷ rest) × ((c == slash) ≡ false))
skip_slashes_cases [] = inl (unfold skip_slashes in refl)
skip_slashes_cases (c ∷ path) = elim (Bool-cases (c == slash)) [
  | inr t ↦ inr (c, path, skip_char c path t, t)
  | inl t ↦ elim (skip_slashes_cases path) [
    | inl e ↦ inl (skip_slash c path t ∙ e)
    | inr (c', rest, e, t') ↦ inr (c', rest, skip_slash c path t ∙ e, t')
  ]
]

-- A path without a leading slash has a name unless it is empty.
skip_slashes-ends :
    (path : List ℕ) → is_empty (skip_slashes path) ≡ no_parts (segments (skip_slashes path))
skip_slashes-ends path = elim (skip_slashes_cases path) [
  | inl e ↦ ap is_empty e ∙ sym (ap (λ p. no_parts (segments p)) e ∙ (unfold split in refl))
  | inr (c, rest, e, t) ↦
      ap is_empty e
      ∙ sym (
          ap (λ p. no_parts (segments p)) e
          ∙ ap (λ parts. no_parts (named parts))
              (split-char c rest t ∙ ap (push c) (split-scan_elem rest)))
]

cut_char :
    (c : ℕ) (rest : List ℕ)
    → (c == slash) ≡ false
    → cut_elem (c ∷ rest)
      ≡ some (take max_path (c ∷ (scan_elem rest).0), skip_slashes (scan_elem rest).1)
unfolding cut_elem
cut_char c rest t = ap (λ r. some (take max_path r.0, skip_slashes r.1)) (scan_char c rest t)

-- `skip_elem` returns NULL where a path has no name left; else it takes off the first name, and the
-- path that is left is shorter and has the other names.
pub skip_elem-Cut :
    (path : List ℕ)
    → ((skip_elem path ≡ none) × (segments path ≡ []))
      ⊎ ((name : List ℕ) × (rest : List ℕ) × Cut path name rest)
unfolding skip_elem
skip_elem-Cut path = elim (skip_slashes_cases path) [
  | inl e ↦ inl (
    ap cut_elem e ∙ (unfold cut_elem in refl),
    sym (segments-skip_slashes path) ∙ ap segments e ∙ (unfold split in refl),
  )
  | inr (c, rest, e, t) ↦
      let elem = (scan_elem rest).0 in
      let left = (scan_elem rest).1 in
      inr (
        take max_path (c ∷ elem),
        skip_slashes left,
        record {
          taken = ap cut_elem e ∙ cut_char c rest t;
          parts =
              sym (segments-skip_slashes path)
              ∙ ap segments e
              ∙ ap named (split-char c rest t ∙ ap (push c) (split-scan_elem rest))
              ∙ (ap (λ xs. take max_path (c ∷ elem) ∷ xs) (after_elem rest));
          ends = skip_slashes-ends left;
          shorter = omega (
            arith,
            length-skip_slashes left,
            length-scan_elem rest,
            ap length e,
            length-skip_slashes path,
          );
        },
      )
]
