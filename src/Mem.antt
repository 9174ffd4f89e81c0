-- ===== src/Mem.antt =====
-- Memory moved and filled: memmov, memcpy and memset of src/string.cc. Memory is a function from
-- addresses to bytes, and a range does not reach past the last address.
pub mod Copy
mod Tests
use babyos.Prelude.{ℕ, zero, suc, ◌+◌, ◌-◌, ◌%◌, Bool, true, false, ◌&&◌, ltb, ◌==◌, if◌then◌else◌}

pub write : (ℕ → ℕ) → ℕ → ℕ → ℕ → ℕ
write mem a v j = if j == a then v else mem j

-- `while (n--) { *d++ = *s++; }`
pub copy_up : ℕ → ℕ → ℕ → (ℕ → ℕ) → ℕ → ℕ
copy_up zero d s mem = mem
copy_up (suc n) d s mem = copy_up n (d + 1) (s + 1) (write mem d (mem s))

-- `s += n, d += n; while (n--) { *--d = *--s; }`; `d` and `s` are the starts of the ranges.
pub copy_down : ℕ → ℕ → ℕ → (ℕ → ℕ) → ℕ → ℕ
copy_down zero d s mem = mem
copy_down (suc n) d s mem = copy_down n d s (write mem (d + n) (mem (s + n)))

pub memmov : ℕ → ℕ → ℕ → (ℕ → ℕ) → ℕ → ℕ
memmov dst src n mem =
    if ltb src dst && ltb dst (src + n) then copy_down n dst src mem else copy_up n dst src mem

pub memcpy : ℕ → ℕ → ℕ → (ℕ → ℕ) → ℕ → ℕ
memcpy dst src n mem = memmov dst src n mem

-- The loop of `memset`
pub fill : ℕ → ℕ → ℕ → (ℕ → ℕ) → ℕ → ℕ
fill zero d c mem = mem
fill (suc n) d c mem = fill n (d + 1) c (write mem d (c % 256))

pub memset : ℕ → ℕ → ℕ → (ℕ → ℕ) → ℕ → ℕ
memset dst c n mem = fill n dst c mem
