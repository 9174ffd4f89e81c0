-- ===== src/Path/Tests.antt =====
-- Paths and strings as src/fs.cc and src/string.cc read them.
use babyos.Prelude.{ℕ, ◌+◌, ◌≡◌, refl, Bool, true, false, Option, some, List, [], ◌∷◌, ltb, arith}
use mathlib.Core.Option
use babyos.Path.{skip_slashes, scan_elem, cut_elem, skip_elem, walk}
use babyos.Path.Split.{segments, split}
use babyos.Path.Names.{follow, follow_parent, walk-follow}

-- "//ab/c"
abbrev two_names : List ℕ
two_names = 47 ∷ 47 ∷ 97 ∷ 98 ∷ 47 ∷ 99 ∷ []

first_name : skip_elem two_names ≡ some (97 ∷ 98 ∷ [], 99 ∷ [])
unfolding skip_elem skip_slashes cut_elem scan_elem
first_name = refl

both_names : segments two_names ≡ (97 ∷ 98 ∷ []) ∷ (99 ∷ []) ∷ []
unfolding split
both_names = refl

-- The numbers below 4 are directories, in which each name leads two further.
abbrev below_four : ℕ → Bool
below_four n = ltb n 4

abbrev deeper : ℕ → List ℕ → Option ℕ
deeper at name = some (at + 2)

walk-follow_example :
    (Option.map (λ r. r.0) (walk 7 below_four deeper false 0 [] two_names)
      ≡ follow below_four deeper (segments two_names) 0)
    × (walk 7 below_four deeper true 0 [] two_names
        ≡ follow_parent below_four deeper (segments two_names) 0)
walk-follow_example = walk-follow below_four deeper 7 0 [] two_names (omega arith)
