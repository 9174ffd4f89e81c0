-- ===== src/Dir/Change.antt =====
-- The entry that `dir_link` of src/fs.cc writes, and searches among entries that have changed.
use babyos.Prelude.{
  ℕ, zero, suc, ◌+◌, ◌*◌, ◌≤◌, ◌<◌, ◌≡◌, ◌⊎◌, inl, inr, refl, ◌∙◌, sym, ap, true, false, Bool-cases,
  Option, some, none, List, [], ◌∷◌, ◌==◌, if◌then◌else◌, if_true, if_false, arith, length,
  ℕ_discrete,
}
use babyos.Path.{max_path, strcmp, strncpy}
use babyos.Path.Str.{NoNul}
use babyos.Dir.{entry_size, until_nul, entry_inum, entry_name, is_match, new_entry}
use babyos.Dir.Entry.{SameEntry, entry_inum-same, Short, is_match-cut, is_match-same}
use babyos.Dir.Lookup.{find_entry}

-- The names of entries.
until_nul-strncpy :
    (n : ℕ) (name : List ℕ)
    → NoNul name
    → length name ≤ n
    → until_nul n (strncpy n name (λ i. 0)) ≡ name
unfolding until_nul strncpy
until_nul-strncpy zero [] h le = refl
until_nul-strncpy zero (c ∷ name) h le = absurd (omega arith)
until_nul-strncpy (suc n) [] h le = refl
until_nul-strncpy (suc n) (c ∷ name) (nz, h) le =
    if_false _ _ (let t : (c == 0) ≡ false = ground arith in t)
    ∙ ap (λ s. c ∷ s) (until_nul-strncpy n name h (omega arith))

pub new_entry-entry_inum :
    (inum : ℕ) (name : List ℕ) → inum < 0x1_0000 → entry_inum (new_entry inum name) ≡ inum
unfolding entry_inum new_entry
new_entry-entry_inum inum name h = omega arith

new_entry-entry_name :
    (inum : ℕ) (name : List ℕ)
    → NoNul name
    → length name ≤ max_path
    → entry_name max_path (new_entry inum name) ≡ name
unfolding entry_name new_entry
new_entry-entry_name inum name h le = until_nul-strncpy max_path name h le

pub new_entry-is_match :
    (inum : ℕ) (name other : List ℕ)
    → Short other
    → NoNul name
    → length name ≤ max_path
    → 1 ≤ inum
    → inum < 0x1_0000
    → is_match other (new_entry inum name) ≡ ((strcmp other name).0 == (strcmp other name).1)
new_entry-is_match inum name other short h le pos small =
    is_match-cut other (new_entry inum name) short
    ∙ if_false _ _ (
        let t : (entry_inum (new_entry inum name) == 0) ≡ false =
          ground (arith, new_entry-entry_inum inum name small) in
        t)
    ∙ ap (λ x. (strcmp other x).0 == (strcmp other x).1) (new_entry-entry_name inum name h le)

pub empty-is_match : (name : List ℕ) (dir : ℕ → ℕ) → entry_inum dir ≡ 0 → is_match name dir ≡ false
unfolding is_match
empty-is_match name dir h = if_true _ _ (let t : (entry_inum dir == 0) ≡ true = ground arith in t)

abbrev pub found_code : Option (ℕ × ℕ) → ℕ
found_code none = 0
found_code (some r) = 1

-- Finding among entries that have changed.
pub find_entry-none :
    (name : List ℕ) (n k : ℕ) (at : ℕ → ℕ → ℕ)
    → find_entry name n k at ≡ none
    → (c : ℕ) → k ≤ c
    → c < k + n
    → is_match name (at c) ≡ false
unfolding find_entry
find_entry-none name zero k at h c lo hi = absurd (omega arith)
find_entry-none name (suc n) k at h c lo hi = elim (Bool-cases (is_match name (at k))) [
  | inl t ↦ absurd (omega (arith, ap found_code (sym (if_true _ _ t) ∙ h)))
  | inr t ↦ elim (ℕ_discrete c k) [
    | yes e ↦ ap (λ x. is_match name (at x)) e ∙ t
    | no ne ↦
        find_entry-none name n (k + 1) at (sym (if_false _ _ t) ∙ h) c (omega arith) (omega arith)
  ]
]

pub find_entry-some :
    (name : List ℕ) (n k : ℕ) (at : ℕ → ℕ → ℕ) (slot : ℕ)
    → k ≤ slot
    → slot < k + n
    → ((c : ℕ) → k ≤ c → c < slot → is_match name (at c) ≡ false)
    → is_match name (at slot) ≡ true
    → find_entry name n k at ≡ some (entry_inum (at slot), entry_size * slot)
unfolding find_entry
find_entry-some name zero k at slot lo hi before here = absurd (omega arith)
find_entry-some name (suc n) k at slot lo hi before here = elim (ℕ_discrete k slot) [
  | yes e ↦
      if_true _ _ (ap (λ x. is_match name (at x)) e ∙ here)
      ∙ ap (λ x. some (entry_inum (at x), entry_size * x)) e
  | no ne ↦
      if_false _ _ (before k (omega arith) (omega arith))
      ∙ find_entry-some name n (k + 1) at slot (omega arith) (omega arith)
          (λ c a b. before c (omega arith) b) here
]

-- An entry that is the same in both, or does not match in either.
abbrev pub Alike : List ℕ → (ℕ → ℕ) → (ℕ → ℕ) → Type 0
Alike name a b = SameEntry a b ⊎ ((is_match name a ≡ false) × (is_match name b ≡ false))

pub find_entry-same :
    (name : List ℕ) (n k : ℕ) (at at' : ℕ → ℕ → ℕ)
    → Short name
    → ((c : ℕ) → k ≤ c → c < k + n → Alike name (at c) (at' c))
    → find_entry name n k at' ≡ find_entry name n k at
unfolding find_entry
find_entry-same name zero k at at' s h = refl
find_entry-same name (suc n) k at at' s h =
    let ih = find_entry-same name n (k + 1) at at' s (λ c a b. h c (omega arith) (omega arith)) in
    elim (h k (omega arith) (omega arith)) [
      | inl same ↦
          ap
            (λ t.
              if t
              then some (entry_inum (at' k), entry_size * k)
              else find_entry name n (k + 1) at')
            (sym (is_match-same name (at k) (at' k) s same))
          ∙ ap
              (λ x.
                if is_match name (at k)
                then some (x, entry_size * k)
                else find_entry name n (k + 1) at')
              (sym (entry_inum-same (at k) (at' k) same))
          ∙ ap (λ r. if is_match name (at k) then some (entry_inum (at k), entry_size * k) else r)
              ih
      | inr (f, f') ↦ if_false _ _ f' ∙ ih ∙ sym (if_false _ _ f)
    ]

pub find_entry-longer :
    (name : List ℕ) (n k : ℕ) (at : ℕ → ℕ → ℕ)
    → is_match name (at (k + n)) ≡ false
    → find_entry name (suc n) k at ≡ find_entry name n k at
unfolding find_entry
find_entry-longer name zero k at h =
    if_false _ _ (ap (λ x. is_match name (at x)) (let e : k ≡ k + 0 = omega arith in e) ∙ h)
find_entry-longer name (suc n) k at h =
    ap (λ r. if is_match name (at k) then some (entry_inum (at k), entry_size * k) else r)
      (find_entry-longer name n (k + 1) at
        (ap (λ x. is_match name (at x)) (let e : k + 1 + n ≡ k + suc n = omega arith in e) ∙ h))
