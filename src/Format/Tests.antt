-- ===== src/Format/Tests.antt =====
-- Numbers as `sprint_int` of src/string.cc prints them.
use babyos.Prelude.{ℕ, ◌≡◌, refl, inl, true, some, List, [], ◌∷◌, arith}
use babyos.Format.{digit_char, digit_loop, is_negative, magnitude, padding, backwards, sprint_int}
use babyos.Format.Digits.{Printed, sprint_int-Printed}

-- -42 in five places
minus_42 : sprint_int 0xffff_ffd6 5 10 true ≡ some (32 ∷ 32 ∷ 45 ∷ 52 ∷ 50 ∷ [])
unfolding sprint_int digit_char digit_loop is_negative magnitude padding backwards
minus_42 = refl

sprint_int-Printed_example :
    (cs : List ℕ) × (sprint_int 0xffff_ffd6 5 10 true ≡ some cs) × Printed 0xffff_ffd6 5 10 true cs
sprint_int-Printed_example = sprint_int-Printed 0xffff_ffd6 5 10 true (inl refl) (omega arith)
