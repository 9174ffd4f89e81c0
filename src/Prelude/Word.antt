-- ===== src/Prelude/Word.antt =====
-- `uint32` and page arithmetic of types.h and mm.h: sums wrap at 2 ^ 32, and a mask of aligned
-- ones is a quotient or a remainder.
use Prim.Native.Nat.{ℕ, ◌+◌, ◌-◌, ◌*◌, ◌/◌, ◌%◌, ◌^◌}

abbrev pub u32_mod : ℕ
u32_mod = 2 ^ 32

abbrev pub add32 : ℕ → ℕ → ℕ
add32 a b = (a + b) % u32_mod

abbrev pub sub32 : ℕ → ℕ → ℕ
sub32 a b = (a + u32_mod - b) % u32_mod

-- `PAGE_SIZE`
abbrev pub page_size : ℕ
page_size = 4096

-- `x & PAGE_MASK`
abbrev pub page_floor : ℕ → ℕ
page_floor x = x / page_size * page_size

-- `x & ~PAGE_MASK`
abbrev pub page_offset : ℕ → ℕ
page_offset x = x % page_size

-- `PAGE_ALIGN(x)`
abbrev pub page_align : ℕ → ℕ
page_align x = page_floor (add32 x (page_size - 1))
