-- ===== src/Path.antt =====
-- Paths: `skip_elem` and the loop of `namei` of src/fs.cc, with `strcmp` and `strncpy` of
-- src/string.cc. A string is the list of its characters before the NUL, none of which is 0.
pub mod Split
pub mod Names
pub mod Str
mod Tests
use babyos.Prelude.{
  ℕ, zero, suc, ◌+◌, Bool, true, false, ◌&&◌, Option, none, some, List, [], ◌∷◌, ◌==◌,
  if◌then◌else◌, not, take,
}

abbrev pub slash : ℕ
slash = 47

-- `MAX_PATH`
abbrev pub max_path : ℕ
max_path = 14

-- "while (*path == '/') path++"
pub skip_slashes : List ℕ → List ℕ
skip_slashes [] = []
skip_slashes (c ∷ path) = let rest = skip_slashes path in if c == slash then rest else c ∷ path

-- "while (*path != '/' && *path != '\0') path++": what is passed and what is left
pub scan_elem : List ℕ → List ℕ × List ℕ
scan_elem [] = ([], [])
scan_elem (c ∷ path) =
    let (elem, rest) = scan_elem path in if c == slash then ([], c ∷ path) else (c ∷ elem, rest)

-- The rest of `skip_elem` where the path does not start with a slash: the name and the rest of the path
pub cut_elem : List ℕ → Option (List ℕ × List ℕ)
cut_elem [] = none
cut_elem (c ∷ path) =
    let (elem, rest) = scan_elem (c ∷ path) in some (take max_path elem, skip_slashes rest)

-- `skip_elem`, `none` for NULL
pub skip_elem : List ℕ → Option (List ℕ × List ℕ)
skip_elem path = cut_elem (skip_slashes path)

-- `strcmp`: the two characters whose difference it returns
unfoldable pub strcmp : List ℕ → List ℕ → ℕ × ℕ
strcmp [] [] = (0, 0)
strcmp [] (d ∷ t) = (0, d)
strcmp (c ∷ s) [] = (c, 0)
strcmp (c ∷ s) (d ∷ t) = let rest = strcmp s t in if c == d then rest else (c, d)

-- `strncpy(dst, src, n)`: what becomes of the memory from `dst` on
unfoldable pub strncpy : ℕ → List ℕ → (ℕ → ℕ) → ℕ → ℕ
strncpy zero src dst zero = 0
strncpy zero src dst (suc j) = dst (suc j)
strncpy (suc n) [] dst zero = 0
strncpy (suc n) [] dst (suc j) = dst (suc j)
strncpy (suc n) (c ∷ src) dst zero = c
strncpy (suc n) (c ∷ src) dst (suc j) = strncpy n src (λ i. dst (suc i)) j

-- "*path == '\0'"
abbrev pub is_empty : List ℕ → Bool
is_empty [] = true
is_empty (c ∷ path) = false

-- The loop of `namei(path, parent, name)` from the inode `at`, in at most `rounds` rounds. `is_dir` is
-- "m_type == I_TYPE_DIR" and `lookup` is `dir_lookup`; the result is the inode, and the name that is
-- in `name` then.
pub walk :
    {A : Type 0}
    → ℕ
    → (A → Bool)
    → (A → List ℕ → Option A)
    → Bool
    → A
    → List ℕ
    → List ℕ
    → Option (A × List ℕ)
walk zero is_dir lookup parent at name path = none
walk (suc rounds) is_dir lookup parent at name path = elim (skip_elem path) [
  | none ↦ if parent then none else some (at, name)
  | some (name', rest) ↦
      if not (is_dir at)
      then none
      else if parent && is_empty rest
      then some (at, name')
      else elim (lookup at name') [
        | none ↦ none
        | some next ↦ walk rounds is_dir lookup parent next name' rest
      ]
]
