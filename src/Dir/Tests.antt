-- ===== src/Dir/Tests.antt =====
-- A directory of two entries, and what `dir_link` makes of it.
use babyos.Prelude.{ℕ, List, [], ◌∷◌}

abbrev name_a : List ℕ
name_a = 97 ∷ []

abbrev name_b : List ℕ
name_b = 98 ∷ []

abbrev blank : ℕ → ℕ
blank i = 0
