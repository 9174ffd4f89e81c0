-- ===== src/Format.antt =====
-- `sprint_int` of src/string.cc. A number of 32 bits is its residue; what is written is a list of characters.
pub mod Digits
mod Tests
use babyos.Prelude.{
  ℕ, zero, suc, ◌+◌, ◌-◌, ◌*◌, ◌/◌, ◌%◌, Bool, true, false, ◌&&◌, Option, none, some, List, [], ◌∷◌,
  ◌++◌, map, ltb, leb, ◌==◌, if◌then◌else◌, length, u32_mod,
}

-- `digits[k]`
pub digit_char : ℕ → ℕ
digit_char k = if ltb k 10 then 48 + k else 87 + k

-- The do-while loop: the digits, the lowest first, in at most `rounds` rounds
pub digit_loop : ℕ → ℕ → ℕ → List ℕ
digit_loop zero base num = []
digit_loop (suc rounds) base num =
    let rest = digit_loop rounds base (num / base) in
    num % base ∷ (if num / base == 0 then [] else rest)

-- The numbers below 2 ^ 32 have at most 32 digits.
abbrev pub digit_rounds : ℕ
digit_rounds = 32

-- `n < 0`, and `num`
pub is_negative : Bool → ℕ → Bool
is_negative sign n = sign && leb 0x8000_0000 n

pub magnitude : Bool → ℕ → ℕ
magnitude sign n = if is_negative sign n then (u32_mod - n) % u32_mod else n

abbrev pub fill_char : ℕ → ℕ
fill_char base = if base == 16 then 48 else 32

pub padding : ℕ → ℕ → List ℕ
padding zero c = []
padding (suc n) c = c ∷ padding n c

-- "while (--i >= 0) *buffer++ = buf[i]"
pub backwards : List ℕ → List ℕ
backwards [] = []
backwards (c ∷ buf) = backwards buf ++ c ∷ []

-- `sprint_int`: what it writes, `none` where it returns -1; it returns the length of what it writes
pub sprint_int : ℕ → ℕ → ℕ → Bool → Option (List ℕ)
sprint_int n width base sign =
    let num = magnitude sign n in
    let sign_char = if is_negative sign n then 45 ∷ [] else [] in
    let buf = map digit_char (digit_loop digit_rounds base num) ++ sign_char in
    if base == 0
    then none
    else some (padding (width - length buf) (fill_char base) ++ backwards buf)
