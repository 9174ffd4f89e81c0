-- ===== src/Mem/Tests.antt =====
-- A run of memmov of src/string.cc with ranges that overlap, and the theorem at that input.
use babyos.Prelude.{ℕ, ◌≡◌, refl}
use babyos.Mem.{write, copy_up, copy_down, memmov, memcpy, memset}
use babyos.Mem.Copy.{memmov_at}

-- Memory that holds the address at each address.
abbrev addresses : ℕ → ℕ
addresses j = j

overlapping : (memmov 12 10 5 addresses 14 ≡ 12) × (memmov 8 10 5 addresses 12 ≡ 14)
unfolding memmov copy_up copy_down write
overlapping = (refl, refl)

memmov_at_example :
    (memmov 12 10 5 addresses 14 ≡ 12)
    × (memcpy 12 10 5 addresses 14 ≡ 12)
    × (memset 12 300 5 addresses 14 ≡ 44)
memmov_at_example = memmov_at 12 10 300 5 addresses 14
