-- ===== src/Net/Checksum.antt =====
-- Byte order and the checksum of src/net.cc.
use babyos.Prelude.{
  ℕ, zero, suc, ◌+◌, ◌-◌, ◌*◌, ◌/◌, ◌%◌, ◌≤◌, ◌<◌, ◌≡◌, ◌⊎◌, false, refl, ◌∙◌, List, [], ◌∷◌, ◌++◌,
  arith, length, get_or, ◌==◌, ℕ_discrete, u32_mod, add32,
}
use babyos.Net.{htons, ntohs, htonl, ntohl, make_ipaddr, sum_words, fold_carry, check_sum}

-- `ntohs` undoes `htons`, and `ntohl` undoes `htonl`, on all values of their types; `htonl` of an
-- address is the address with its four parts in the other order.
byte_order :
    (n m a b c d : ℕ)
    → n < 0x1_0000
    → m < u32_mod
    → a < 256
    → b < 256
    → c < 256
    → d < 256
    → (ntohs (htons n) ≡ n)
      × (ntohl (htonl m) ≡ m)
      × (htonl (make_ipaddr a b c d) ≡ make_ipaddr d c b a)
unfolding htons ntohs htonl ntohl make_ipaddr
byte_order n m a b c d hn hm ha hb hc hd = (omega arith, omega arith, omega arith)

-- One round of the second loop keeps the sum modulo 65535.
abbrev fold_round : ℕ → ℕ
fold_round acc = acc % 0x1_0000 + acc / 0x1_0000

record Folded (acc r : ℕ) : Type 0 where
  small : r < 0x1_0000
  residue : r % 0xffff ≡ acc % 0xffff
  zero_only : (1 ≤ r) ⊎ (acc ≡ 0)
  zero_kept : (1 ≤ acc) ⊎ (r ≡ 0)

fold_carry-Folded :
    (rounds acc : ℕ)
    → (acc < 0x1_0000)
      ⊎ ((acc ≤ 0x1_0000) × (1 ≤ rounds))
      ⊎ ((acc ≤ 0x1_fffe) × (2 ≤ rounds))
      ⊎ ((acc < u32_mod) × (3 ≤ rounds))
    → Folded acc (fold_carry rounds acc)
unfolding fold_carry
fold_carry-Folded zero acc h = record {
  small = omega arith;
  residue = refl;
  zero_only = omega arith;
  zero_kept = omega arith;
}
fold_carry-Folded (suc rounds) acc h = elim (ℕ_discrete (acc / 0x1_0000) 0) [
  | yes e ↦ rw e (record {
    small = omega arith;
    residue = refl;
    zero_only = omega arith;
    zero_kept = omega arith;
  })
  | no ne ↦
      let r = fold_carry-Folded rounds (fold_round acc) (omega arith) in
      let t : (acc / 0x1_0000 == 0) ≡ false = ground arith in
      rw t (record {
        small = r.small;
        residue = omega (arith, r.residue);
        zero_only = omega (arith, r.zero_only);
        zero_kept = omega arith;
      })
]

sum_words-append :
    (bytes tail : List ℕ) (acc : ℕ)
    → length bytes % 2 ≡ 0
    → sum_words (bytes ++ tail) acc ≡ sum_words tail (sum_words bytes acc)
unfolding sum_words
sum_words-append [] tail acc h = refl
sum_words-append (b ∷ []) tail acc h = absurd (omega arith)
sum_words-append (lo ∷ hi ∷ rest) tail acc h = sum_words-append rest tail _ (omega arith)

sum_words_one : (lo hi acc : ℕ) → sum_words (lo ∷ hi ∷ []) acc ≡ add32 acc (lo + 256 * hi)
unfolding sum_words
sum_words_one lo hi acc = refl

-- The sum does not wrap: each of at most `k` words adds at most 0xffff.
sum_words_bound :
    (bytes : List ℕ) (acc k : ℕ)
    → length bytes ≤ 2 * k
    → acc + 0xffff * k < u32_mod
    → ((i : ℕ) → get_or bytes i 0 < 256)
    → sum_words bytes acc ≤ acc + 0xffff * k
unfolding sum_words
sum_words_bound [] acc k h w b = omega arith
sum_words_bound (x ∷ []) acc k h w b = omega (arith, b 0)
sum_words_bound (lo ∷ hi ∷ rest) acc zero h w b = absurd (omega arith)
sum_words_bound (lo ∷ hi ∷ rest) acc (suc k) h w b =
    let sum_le : add32 acc (lo + 256 * hi) ≤ acc + 0xffff = omega (arith, b 0, b 1) in
    omega (
      arith,
      sum_words_bound rest (add32 acc (lo + 256 * hi)) k (omega arith) (omega arith)
          (λ i. b (suc (suc i))),
    )

-- A sum and what its folding leaves to 0xffff fold to 0xffff.
Folded-sum :
    (sum r total r' : ℕ)
    → Folded sum r
    → total ≡ sum + (0xffff - r)
    → Folded total r'
    → (u32_mod - 1 - r') % 0x1_0000 ≡ 0
Folded-sum sum r total r' f e f' =
    omega (arith, f.small, f.residue, f.zero_only, f.zero_kept, f'.small, f'.residue, f'.zero_only)

-- Data of an even number of bytes, 128 KB at most, sums to 0 with its checksum behind it.
pub check_sum-append :
    (bytes : List ℕ)
    → length bytes % 2 ≡ 0
    → length bytes ≤ 0x2_0000
    → ((i : ℕ) → get_or bytes i 0 < 256)
    → check_sum (bytes ++ (check_sum bytes % 256 ∷ check_sum bytes / 256 ∷ [])) ≡ 0
unfolding check_sum
check_sum-append bytes even short b =
    let sum = sum_words bytes 0 in
    let bound = sum_words_bound bytes 0 0x1_0000 (omega arith) (omega arith) b in
    let r = fold_carry-Folded 3 sum (omega (arith, bound)) in
    let c = check_sum bytes in
    let c_eq : c ≡ 0xffff - fold_carry 3 sum = omega (arith, r.small) in
    let total = add32 sum (c % 256 + 256 * (c / 256)) in
    let total_eq : total ≡ sum + (0xffff - fold_carry 3 sum) = omega (arith, bound, c_eq) in
    let r' = fold_carry-Folded 3 total (omega (arith, bound, total_eq)) in
    let all : sum_words (bytes ++ (c % 256 ∷ c / 256 ∷ [])) 0 ≡ total =
      sum_words-append bytes (c % 256 ∷ c / 256 ∷ []) 0 even
      ∙ sum_words_one (c % 256) (c / 256) sum in
    rw all (Folded-sum sum (fold_carry 3 sum) total (fold_carry 3 total) r total_eq r')
