-- ===== src/Net/Tests.antt =====
-- Runs of the functions of src/net.cc, and the theorems about them at concrete inputs.
use babyos.Prelude.{
  ℕ, zero, suc, ◌/◌, ◌%◌, ◌<◌, ◌≡◌, refl, false, Option, none, List, [], ◌∷◌, ◌++◌, arith, get_or,
}
use babyos.Net.{sum_words, fold_carry, check_sum, find}
use babyos.Net.Checksum.{check_sum-append}

abbrev header : List ℕ
header = 0x45 ∷ 0 ∷ 0 ∷ 0x54 ∷ 0xff ∷ 0xff ∷ []

header_sum : check_sum header ≡ 0xabba
unfolding check_sum sum_words fold_carry
header_sum = refl

header_byte : (i : ℕ) → get_or header i 0 < 256
header_byte zero = omega arith
header_byte (suc zero) = omega arith
header_byte (suc (suc zero)) = omega arith
header_byte (suc (suc (suc zero))) = omega arith
header_byte (suc (suc (suc (suc zero)))) = omega arith
header_byte (suc (suc (suc (suc (suc zero))))) = omega arith
header_byte (suc (suc (suc (suc (suc (suc i)))))) = omega arith

check_sum-append_example :
    check_sum (header ++ (check_sum header % 256 ∷ check_sum header / 256 ∷ [])) ≡ 0
check_sum-append_example = check_sum-append header refl (omega arith) header_byte

abbrev one_ext : List ℕ
one_ext = 5000 ∷ []

abbrev no_ext : ℕ → Option ℕ
no_ext buf = none

not_found : find 100 (200 ∷ []) ≡ false
unfolding find
not_found = refl
