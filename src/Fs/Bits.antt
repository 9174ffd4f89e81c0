-- ===== src/Fs/Bits.antt =====
-- Words and flags inside the blocks of src/fs.cc.
use babyos.Prelude.{
  ℕ, zero, suc, ◌+◌, ◌-◌, ◌*◌, ◌/◌, ◌%◌, ◌^◌, ◌≤◌, ◌<◌, ◌≡◌, ◌≢◌, ◌∙◌, sym, ap, true, false, ◌==◌,
  if◌then◌else◌, if_true, if_false, u32_mod, arith, ℕ_discrete,
}
use Prim.Native.Nat.pow
use babyos.BlockDev.{put}
use babyos.BlockDev.Held.{put_self, put_ne}
use babyos.Fs.{byte_of, word, put_word, bit_at, flag_at, set_flag, clear_flag}

put_word-byte : (i v k : ℕ) (block : ℕ → ℕ) → k < 4 → put_word i v block (4 * i + k) ≡ byte_of k v
unfolding put_word
put_word-byte i v k block h =
    if_true _ _ (let t : ((4 * i + k) / 4 == i) ≡ true = ground arith in t)
    ∙ ap (λ x. byte_of x v) (let e : (4 * i + k) % 4 ≡ k = omega arith in e)

put_word-other : (i v : ℕ) (block : ℕ → ℕ) (j : ℕ) → j / 4 ≢ i → put_word i v block j ≡ block j
unfolding put_word
put_word-other i v block j h = if_false _ _ (let t : (j / 4 == i) ≡ false = ground arith in t)

pub bytes_sum :
    (v : ℕ)
    → v < u32_mod
    → byte_of 0 v + 256 * byte_of 1 v + 0x1_0000 * byte_of 2 v + 0x100_0000 * byte_of 3 v ≡ v
unfolding byte_of
bytes_sum v h = omega arith

pub word-put_word : (i v : ℕ) (block : ℕ → ℕ) → v < u32_mod → word (put_word i v block) i ≡ v
unfolding word
word-put_word i v block h = omega (
  arith,
  bytes_sum v h,
  put_word-byte i v 0 block (omega arith),
  put_word-byte i v 1 block (omega arith),
  put_word-byte i v 2 block (omega arith),
  put_word-byte i v 3 block (omega arith),
  ap (put_word i v block) (let e : 4 * i + 0 ≡ 4 * i = omega arith in e),
)

pub word-put_word_ne :
    (i v : ℕ) (block : ℕ → ℕ) (k : ℕ) → k ≢ i → word (put_word i v block) k ≡ word block k
unfolding word
word-put_word_ne i v block k h = omega (
  arith,
  put_word-other i v block (4 * k) (λ e. h (omega (arith, e))),
  put_word-other i v block (4 * k + 1) (λ e. h (omega (arith, e))),
  put_word-other i v block (4 * k + 2) (λ e. h (omega (arith, e))),
  put_word-other i v block (4 * k + 3) (λ e. h (omega (arith, e))),
)

-- A clear bit set, and a set bit cleared.
bit_at-set :
    (r s b : ℕ) → bit_at r b ≡ 0 → bit_at s (b + 2 ^ r) ≡ (if s == r then 1 else bit_at s b)
unfolding bit_at
bit_at-set zero zero b h = omega arith
bit_at-set zero (suc s) b h =
    ap (bit_at s) (let e : (b + 2 ^ 0) / 2 ≡ b / 2 = omega arith in e) ∙ ground arith
bit_at-set (suc r) zero b h =
    (let e : (b + 2 ^ suc r) % 2 ≡ b % 2 = omega (arith, pow.suc 2 r) in e)
    ∙ sym (if_false _ _ (let t : (0 == suc r) ≡ false = ground arith in t))
bit_at-set (suc r) (suc s) b h =
    ap (bit_at s) (let e : (b + 2 ^ suc r) / 2 ≡ b / 2 + 2 ^ r = omega (arith, pow.suc 2 r) in e)
    ∙ bit_at-set r s (b / 2) h
    ∙ ground arith

bit_at-clear : (r b : ℕ) → bit_at r b ≡ 1 → (2 ^ r ≤ b) × (bit_at r (b - 2 ^ r) ≡ 0)
unfolding bit_at
bit_at-clear zero b h = (omega arith, omega arith)
bit_at-clear (suc r) b h =
    let (le, e) = bit_at-clear r (b / 2) h in
    (
      omega (arith, pow.suc 2 r),
      ap (bit_at r)
            (let q : (b - 2 ^ suc r) / 2 ≡ b / 2 - 2 ^ r = omega (arith, le, pow.suc 2 r) in q)
          ∙ e,
    )

pub bit_at_le : (r b : ℕ) → bit_at r b ≤ 1
unfolding bit_at
bit_at_le zero b = omega arith
bit_at_le (suc r) b = bit_at_le r (b / 2)

pub flag_at-set_flag :
    (bit : ℕ) (block : ℕ → ℕ) (c : ℕ)
    → flag_at bit block ≡ 0
    → flag_at c (set_flag bit block) ≡ (if c == bit then 1 else flag_at c block)
unfolding set_flag
flag_at-set_flag bit block c h = elim (ℕ_discrete (c / 8) (bit / 8)) [
  | no ne ↦
      ap (bit_at (c % 8)) (put_ne block (bit / 8) (block (bit / 8) + 2 ^ (bit % 8)) (c / 8) ne)
      ∙ sym (if_false _ _ (let t : (c == bit) ≡ false = ground arith in t))
  | yes e ↦
      ap (λ x. bit_at (c % 8) (put block (bit / 8) (block (bit / 8) + 2 ^ (bit % 8)) x)) e
      ∙ ap (bit_at (c % 8)) (put_self block (bit / 8) (block (bit / 8) + 2 ^ (bit % 8)))
      ∙ bit_at-set (bit % 8) (c % 8) (block (bit / 8)) h
      ∙ ground (arith, ap (λ x. bit_at (c % 8) (block x)) e)
]

bit_at-cleared :
    (r s b : ℕ) → bit_at r b ≡ 1 → bit_at s (b - 2 ^ r) ≡ (if s == r then 0 else bit_at s b)
bit_at-cleared r s b h =
    let (le, e) = bit_at-clear r b h in
    let back = bit_at-set r s (b - 2 ^ r) e in
    let same : b - 2 ^ r + 2 ^ r ≡ b = omega (arith, le) in
    elim (ℕ_discrete s r) [
      | yes q ↦
          ap (λ x. bit_at x (b - 2 ^ r)) q
          ∙ e
          ∙ sym (if_true _ _ (let t : (s == r) ≡ true = ground arith in t))
      | no q ↦
          let f : (s == r) ≡ false = ground arith in
          sym (if_false _ _ f) ∙ sym back ∙ ap (bit_at s) same ∙ sym (if_false _ _ f)
    ]

pub flag_at-clear_flag :
    (bit : ℕ) (block : ℕ → ℕ) (c : ℕ)
    → flag_at bit block ≡ 1
    → flag_at c (clear_flag bit block) ≡ (if c == bit then 0 else flag_at c block)
unfolding clear_flag
flag_at-clear_flag bit block c h = elim (ℕ_discrete (c / 8) (bit / 8)) [
  | no ne ↦
      ap (bit_at (c % 8)) (put_ne block (bit / 8) (block (bit / 8) - 2 ^ (bit % 8)) (c / 8) ne)
      ∙ sym (if_false _ _ (let t : (c == bit) ≡ false = ground arith in t))
  | yes e ↦
      ap (λ x. bit_at (c % 8) (put block (bit / 8) (block (bit / 8) - 2 ^ (bit % 8)) x)) e
      ∙ ap (bit_at (c % 8)) (put_self block (bit / 8) (block (bit / 8) - 2 ^ (bit % 8)))
      ∙ bit_at-cleared (bit % 8) (c % 8) (block (bit / 8)) h
      ∙ ground (arith, ap (λ x. bit_at (c % 8) (block x)) e)
]
