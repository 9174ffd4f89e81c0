-- ===== src/Ring.antt =====
-- Circular buffers, as in src/pipe.cc and src/sock_ring_buffer.cc: what the `n` bytes from an index
-- on are, read round the end of the storage.
use native.Mathlib.Nat.{mod-add-mod, div-add-mod, mul-le-mul_left, add-zero}
use babyos.Prelude.{
  ℕ, zero, suc, ◌+◌, ◌/◌, ◌%◌, ◌≤◌, ◌<◌, ◌≡◌, ◌≢◌, refl, sym, ap, ◌∙◌, List, [], ◌∷◌, ◌++◌, length,
  get_or, get_or-set_self, get_or-set_ne, set, arith, dec_lt,
}

abbrev pub contents : List ℕ → ℕ → ℕ → ℕ → List ℕ
contents buffer size start zero = []
contents buffer size start (suc n) =
    get_or buffer (start % size) 0 ∷ contents buffer size (start + 1) n

pub length-contents :
    (buffer : List ℕ) (size start n : ℕ) → length (contents buffer size start n) ≡ n
length-contents buffer size start zero = refl
length-contents buffer size start (suc n) = ap suc (length-contents buffer size (start + 1) n)

-- Only the remainder of the index counts.
pub contents-mod :
    (buffer : List ℕ) (size a b n : ℕ)
    → a % size ≡ b % size
    → contents buffer size a n ≡ contents buffer size b n
contents-mod buffer size a b zero e = refl
contents-mod buffer size a b (suc n) e =
    rw e
      (ap (λ l. get_or buffer (b % size) 0 ∷ l) (contents-mod buffer size (a + 1) (b + 1) n step))
  where
    step : (a + 1) % size ≡ (b + 1) % size
    step = sym (mod-add-mod a size 1) ∙ ap (λ k. (k + 1) % size) e ∙ mod-add-mod b size 1

-- Fewer than `size` steps apart, two indices differ.
index-ne : (size start k n : ℕ) → k < n → n < size → (start + k) % size ≢ (start + n) % size
index-ne size start k n h m e = elim (dec_lt ((start + k) / size) ((start + n) / size)) [
  | yes lt ↦ omega (
    arith,
    e,
    div-add-mod (start + k) size,
    div-add-mod (start + n) size,
    mul-le-mul_left size lt,
  )
  | no ge ↦ omega (
    arith,
    e,
    div-add-mod (start + k) size,
    div-add-mod (start + n) size,
    mul-le-mul_left size (not_lt ge),
  )
]
  where
    not_lt : {a b : ℕ} → ¬ (a < b) → b ≤ a
    not_lt n = omega arith

-- A byte written behind the `n` that are there is the last of `n + 1`.
pub contents-set :
    (buffer : List ℕ) (size start n i x : ℕ)
    → 0 < size
    → size ≤ length buffer
    → n < size
    → i ≡ (start + n) % size
    → contents (set buffer i x) size start (suc n) ≡ contents buffer size start n ++ (x ∷ [])
contents-set buffer size start zero i x p h m e =
    rw (e, add-zero, get_or-set_self buffer (start % size) x 0 (omega arith))
contents-set buffer size start (suc n) i x p h m e =
    rw (get_or-set_ne buffer i (start % size) x 0 apart) (
      ap (λ l. get_or buffer (start % size) 0 ∷ l)
        (contents-set buffer size (start + 1) n i x p h (omega arith)
          (e ∙ ap (λ k. k % size) (omega arith))))
  where
    apart : i ≢ start % size
    apart q = index-ne size start 0 (suc n) (omega arith) m (rw add-zero (sym q ∙ e))
