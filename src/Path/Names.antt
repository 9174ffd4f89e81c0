-- ===== src/Path/Names.antt =====
-- The loop of `namei` of src/fs.cc beside the names of a path.
use babyos.Prelude.{
  ℕ, zero, suc, ◌<◌, ◌≡◌, inl, inr, refl, ◌∙◌, sym, ap, Bool, true, false, Bool-cases, ◌&&◌, not,
  Option, none, some, Option-cases, List, [], ◌∷◌, if◌then◌else◌, length, arith,
}
use mathlib.Core.Option
use babyos.Path.{skip_elem, is_empty, walk}
use babyos.Path.Split.{segments, no_parts, skip_elem-Cut}

module _ {A : Type 0} (is_dir : A → Bool) (lookup : A → List ℕ → Option A) where
  -- The inode that names lead to, each looked up in the directory before it.
  unfoldable pub follow : List (List ℕ) → A → Option A
  follow [] at = some at
  follow (name ∷ names) at =
      if is_dir at
      then elim (lookup at name) [ none ↦ none | some next ↦ follow names next ]
      else none

  -- The directory that all names but the last lead to, and the last name.
  unfoldable pub follow_parent : List (List ℕ) → A → Option (A × List ℕ)
  follow_parent [] at = none
  follow_parent (name ∷ names) at =
      if is_dir at
      then (if no_parts names
          then some (at, name)
          else elim (lookup at name) [ none ↦ none | some next ↦ follow_parent names next ])
      else none

  walk_cut :
      (rounds : ℕ) (parent : Bool) (at : A) (name path name' rest : List ℕ)
      → skip_elem path ≡ some (name', rest)
      → walk (suc rounds) is_dir lookup parent at name path ≡ (
          if not (is_dir at)
          then none
          else if parent && is_empty rest
          then some (at, name')
          else elim (lookup at name') [
            | none ↦ none
            | some next ↦ walk rounds is_dir lookup parent next name' rest
          ])
  unfolding walk
  walk_cut rounds parent at name path name' rest e = rw (e, walk) refl

  walk_ends :
      (rounds : ℕ) (parent : Bool) (at : A) (name path : List ℕ)
      → skip_elem path ≡ none
      → walk (suc rounds) is_dir lookup parent at name path
        ≡ (if parent then none else some (at, name))
  unfolding walk
  walk_ends rounds parent at name path e = rw (e, walk) refl

  whole_step :
      (rounds : ℕ) (at : A) (name' rest : List ℕ)
      → ((next : A)
          → Option.map (λ r. r.0) (walk rounds is_dir lookup false next name' rest)
            ≡ follow (segments rest) next)
      → Option.map
          (λ r. r.0)
          (if not (is_dir at) then none else elim (lookup at name') [
            | none ↦ none
            | some next ↦ walk rounds is_dir lookup false next name' rest
          ])
        ≡ follow (name' ∷ segments rest) at
  unfolding follow
  whole_step rounds at name' rest ih = elim (Bool-cases (is_dir at)) [
    | inr t ↦ rw t refl
    | inl t ↦ elim (Option-cases (lookup at name')) [
      | inl e ↦ rw (t, e) refl
      | inr (next, e) ↦ rw (t, e) (ih next)
    ]
  ]

  parent_step :
      (rounds : ℕ) (at : A) (name' rest : List ℕ)
      → is_empty rest ≡ no_parts (segments rest)
      → ((next : A)
          → walk rounds is_dir lookup true next name' rest ≡ follow_parent (segments rest) next)
      → (if not (is_dir at)
          then none
          else if is_empty rest
          then some (at, name')
          else elim (lookup at name') [
            | none ↦ none
            | some next ↦ walk rounds is_dir lookup true next name' rest
          ])
        ≡ follow_parent (name' ∷ segments rest) at
  unfolding follow_parent
  parent_step rounds at name' rest ends ih = elim (Bool-cases (is_dir at)) [
    | inr t ↦ rw t refl
    | inl t ↦ elim (Bool-cases (is_empty rest)) [
      | inl b ↦ rw (t, b, (sym ends ∙ b)) refl
      | inr b ↦ elim (Option-cases (lookup at name')) [
        | inl e ↦ rw (t, b, (sym ends ∙ b), e) refl
        | inr (next, e) ↦ rw (t, b, (sym ends ∙ b), e) (ih next)
      ]
    ]
  ]

  -- `namei` of a path is what its names lead to, and `nameiparent` is the directory of the last
  -- name, with that name; both return, after at most one round more than the path has characters.
  pub walk-follow :
      (rounds : ℕ) (at : A) (name path : List ℕ)
      → length path < rounds
      → (Option.map (λ r. r.0) (walk rounds is_dir lookup false at name path)
          ≡ follow (segments path) at)
        × (walk rounds is_dir lookup true at name path ≡ follow_parent (segments path) at)
  walk-follow zero at name path h = absurd (omega arith)
  walk-follow (suc rounds) at name path h = elim (skip_elem-Cut path) [
    | inl (e, z) ↦ (
      ap (Option.map (λ r. r.0)) (walk_ends rounds false at name path e)
          ∙ sym (ap (λ p. follow p at) z ∙ (unfold follow in refl)),
      walk_ends rounds true at name path e
          ∙ sym (ap (λ p. follow_parent p at) z ∙ (unfold follow_parent in refl)),
    )
    | inr (name', rest, c) ↦ (
      ap (Option.map (λ r. r.0)) (walk_cut rounds false at name path name' rest c.taken)
          ∙ whole_step rounds at name' rest
              (λ next. (walk-follow rounds next name' rest (omega (arith, c.shorter))).0)
          ∙ ap (λ p. follow p at) (sym c.parts),
      walk_cut rounds true at name path name' rest c.taken
          ∙ parent_step rounds at name' rest c.ends
              (λ next. (walk-follow rounds next name' rest (omega (arith, c.shorter))).1)
          ∙ ap (λ p. follow_parent p at) (sym c.parts),
    )
  ]
