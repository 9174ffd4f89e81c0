-- ===== src/Format/Digits.antt =====
-- The digits that `sprint_int` of src/string.cc writes.
use babyos.Prelude.{
  ℕ, zero, suc, ◌+◌, ◌*◌, ◌/◌, ◌%◌, ◌^◌, ◌≤◌, ◌<◌, ◌≡◌, ◌⊎◌, inl, inr, refl, ◌∙◌, sym, ap, subst,
  Bool, true, false, Bool-cases, some, List, [], ◌∷◌, ◌++◌, map, append-nil, replicate, ltb, leb,
  ◌&&◌, ◌-◌, ◌==◌, if◌then◌else◌, if_true, if_false, length, length-append, u32_mod, arith,
}
use Prim.Native.Nat.pow
use babyos.Format.{
  digit_char, digit_loop, digit_rounds, is_negative, magnitude, fill_char, padding, backwards,
  sprint_int,
}

-- The number that digits stand for, the highest first, after `acc`; and what digit a character is.
unfoldable pub number : ℕ → ℕ → List ℕ → ℕ
number base acc [] = acc
number base acc (k ∷ ks) = number base (acc * base + k) ks

-- Digits of a base.
abbrev pub AllBelow : ℕ → List ℕ → Type 0
AllBelow base [] = Unit {0}
AllBelow base (k ∷ ks) = (k < base) × AllBelow base ks

-- The first of digits is not 0.
abbrev pub FirstPositive : List ℕ → Type 0
FirstPositive [] = 1 ≤ 0
FirstPositive (k ∷ ks) = 1 ≤ k

FirstPositive-append : (ks js : List ℕ) → FirstPositive ks → FirstPositive (ks ++ js)
FirstPositive-append [] js h = ground (arith, h)
FirstPositive-append (k ∷ ks) js h = h

number-append :
    (base acc k : ℕ) (ks : List ℕ) → number base acc (ks ++ k ∷ []) ≡ number base acc ks * base + k
unfolding number
number-append base acc k [] = refl
number-append base acc k (j ∷ ks) = number-append base (acc * base + j) k ks

AllBelow-append :
    (base k : ℕ) (ks : List ℕ) → AllBelow base ks → k < base → AllBelow base (ks ++ k ∷ [])
AllBelow-append base k [] h lt = (lt, tt)
AllBelow-append base k (j ∷ ks) (h, hs) lt = (h, AllBelow-append base k ks hs lt)

map-backwards : (f : ℕ → ℕ) (ks : List ℕ) → backwards (map f ks) ≡ map f (backwards ks)
unfolding backwards
map-backwards f [] = refl
map-backwards f (k ∷ ks) = ap (λ r. r ++ f k ∷ []) (map-backwards f ks) ∙ map-snoc (backwards ks)
  where
    map-snoc : (xs : List ℕ) → map f xs ++ f k ∷ [] ≡ map f (xs ++ k ∷ [])
    map-snoc [] = refl
    map-snoc (x ∷ xs) = ap (λ r. f x ∷ r) (map-snoc xs)

-- A base whose division is understood.
record IsBase (base : ℕ) : Type 0 where
  whole : (n : ℕ) → n / base * base + n % base ≡ n
  rest : (n : ℕ) → n % base < base
  halves : (n : ℕ) → 2 * (n / base) ≤ n
  small : (n : ℕ) → n / base ≡ 0 → n % base ≡ n

-- The digits of a number.
record IsNumber (base num : ℕ) (ks : List ℕ) : Type 0 where
  value : number base 0 (backwards ks) ≡ num
  digits : AllBelow base (backwards ks)
  some_digit : 1 ≤ length ks
  leading : 1 ≤ num → FirstPositive (backwards ks)
  lone : num ≡ 0 → length ks ≡ 1

digit_loop-last :
    (base rounds num : ℕ)
    → (num / base == 0) ≡ true
    → digit_loop (suc rounds) base num ≡ num % base ∷ []
unfolding digit_loop
digit_loop-last base rounds num t = ap (λ r. num % base ∷ r) (if_true _ _ t)

digit_loop-more :
    (base rounds num : ℕ)
    → (num / base == 0) ≡ false
    → digit_loop (suc rounds) base num ≡ num % base ∷ digit_loop rounds base (num / base)
unfolding digit_loop
digit_loop-more base rounds num t = ap (λ r. num % base ∷ r) (if_false _ _ t)

last-IsNumber : (base num : ℕ) → IsBase base → num / base ≡ 0 → IsNumber base num (num % base ∷ [])
unfolding backwards number
last-IsNumber base num b z = record {
  value = (let e : 0 * base + num % base ≡ num % base = ground arith in e) ∙ b.small num z;
  digits = (b.rest num, tt);
  some_digit = omega arith;
  leading = λ le. omega (arith, le, b.small num z);
  lone = λ e. refl;
}

more-IsNumber :
    (base num : ℕ) (ks : List ℕ)
    → IsBase base
    → 1 ≤ num / base
    → IsNumber base (num / base) ks
    → IsNumber base num (num % base ∷ ks)
unfolding backwards
more-IsNumber base num ks b more g = record {
  value =
      number-append base 0 (num % base) (backwards ks)
      ∙ ap (λ x. x * base + num % base) g.value
      ∙ b.whole num;
  digits = AllBelow-append base (num % base) (backwards ks) g.digits (b.rest num);
  some_digit = omega arith;
  leading = λ le. FirstPositive-append (backwards ks) (num % base ∷ []) (g.leading more);
  lone = λ e. omega (arith, e, more, b.halves num);
}

digit_loop-IsNumber :
    (base : ℕ)
    → IsBase base
    → (rounds num : ℕ) → num < 2 * 2 ^ rounds
    → IsNumber base num (digit_loop (suc rounds) base num)
digit_loop-IsNumber base b zero num h =
    let z : num / base ≡ 0 = omega (arith, b.halves num, h) in
    subst (IsNumber base num)
      (sym (digit_loop-last base zero num (let t : (num / base == 0) ≡ true = ground arith in t)))
      (last-IsNumber base num b z)
digit_loop-IsNumber base b (suc rounds) num h = elim (Bool-cases (num / base == 0)) [
  | inl t ↦
      subst (IsNumber base num) (sym (digit_loop-last base (suc rounds) num t))
        (last-IsNumber base num b (ground (arith, t)))
  | inr t ↦ subst (IsNumber base num) (sym (digit_loop-more base (suc rounds) num t)) (
      more-IsNumber base num (digit_loop (suc rounds) base (num / base)) b
        (let le : 1 ≤ num / base = ground (arith, t) in le)
        (digit_loop-IsNumber base b rounds (num / base)
          (omega (arith, h, pow.suc 2 rounds, b.halves num))))
]

IsNumber-shortest :
    (base num : ℕ) (ks : List ℕ)
    → IsNumber base num ks
    → (length ks ≡ 1) ⊎ FirstPositive (backwards ks)
IsNumber-shortest base zero ks g = inl (g.lone refl)
IsNumber-shortest base (suc num) ks g = inr (g.leading (omega arith))

-- The bases that the kernel prints in.
ten-IsBase : IsBase 10
ten-IsBase = record {
  whole = λ n. omega arith;
  rest = λ n. omega arith;
  halves = λ n. omega arith;
  small = λ n z. omega arith;
}

sixteen-IsBase : IsBase 16
sixteen-IsBase = record {
  whole = λ n. omega arith;
  rest = λ n. omega arith;
  halves = λ n. omega arith;
  small = λ n z. omega arith;
}

length-padding : (n c : ℕ) → length (padding n c) ≡ n
unfolding padding
length-padding zero c = refl
length-padding (suc n) c = ap suc (length-padding n c)

length-backwards : (cs : List ℕ) → length (backwards cs) ≡ length cs
unfolding backwards
length-backwards [] = refl
length-backwards (c ∷ cs) =
    omega (arith, length-append (backwards cs) (c ∷ []), length-backwards cs)

-- What a character stands for as a digit, and characters that are digits of a base.
abbrev pub digit_value : ℕ → ℕ
digit_value c = if ltb c 58 then c - 48 else c - 87

abbrev pub AllDigits : ℕ → List ℕ → Type 0
AllDigits base [] = Unit {0}
AllDigits base (c ∷ cs) =
    (((48 ≤ c) × (c < 58)) ⊎ ((97 ≤ c) × (c < 103))) × (digit_value c < base) × AllDigits base cs

-- A number of 32 bits that is printed with a sign and has its highest bit set.
abbrev pub below_zero : Bool → ℕ → Bool
below_zero sign n = sign && leb 0x8000_0000 n

-- What has been printed: padding, a sign and the digits of the number.
pub record Printed (n width base : ℕ) (sign : Bool) (cs : List ℕ) : Type 0 where
  pub digits : List ℕ
  pub pad : ℕ
  pub text :
      cs
      ≡ replicate pad (if base == 16 then 48 else 32)
        ++ ((if below_zero sign n then 45 ∷ [] else []) ++ digits)
  pub value :
      number base 0 (map digit_value digits) ≡ (if below_zero sign n then u32_mod - n else n)
  pub good : AllDigits base digits
  pub some_digit : 1 ≤ length digits
  pub shortest : (length digits ≡ 1) ⊎ FirstPositive (map digit_value digits)
  pub width_kept : (pad ≡ 0) ⊎ (length cs ≡ width)
  pub wide : width ≤ length cs

digit_value-digit_char : (k : ℕ) → k < 16 → digit_value (digit_char k) ≡ k
unfolding digit_char
digit_value-digit_char k h = ground (arith, h)

map-digit_value :
    (base : ℕ) (ks : List ℕ)
    → base ≤ 16
    → AllBelow base ks
    → map digit_value (map digit_char ks) ≡ ks
map-digit_value base [] h b = refl
map-digit_value base (k ∷ ks) h (lt, b) =
    ap (λ x. x ∷ map digit_value (map digit_char ks))
      (digit_value-digit_char k (omega (arith, lt, h)))
    ∙ ap (λ l. k ∷ l) (map-digit_value base ks h b)

map-AllDigits :
    (base : ℕ) (ks : List ℕ) → base ≤ 16 → AllBelow base ks → AllDigits base (map digit_char ks)
unfolding digit_char
map-AllDigits base [] h b = tt
map-AllDigits base (k ∷ ks) h (lt, b) = (
  (let t : ((48 ≤ digit_char k) × (digit_char k < 58))
          ⊎ ((97 ≤ digit_char k) × (digit_char k < 103)) =
        ground (arith, lt, h) in
      t),
  (let t : digit_value (digit_char k) < base =
        omega (arith, lt, digit_value-digit_char k (omega (arith, lt, h))) in
      t),
  map-AllDigits base ks h b,
)

padding-replicate : (n c : ℕ) → padding n c ≡ replicate n c
unfolding padding
padding-replicate zero c = refl
padding-replicate (suc n) c = ap (λ l. c ∷ l) (padding-replicate n c)

magnitude-below_zero :
    (sign : Bool) (n : ℕ)
    → n < u32_mod
    → magnitude sign n ≡ (if below_zero sign n then u32_mod - n else n)
unfolding magnitude is_negative
magnitude-below_zero sign n h = ground (arith, h)

is_negative-below_zero : (sign : Bool) (n : ℕ) → is_negative sign n ≡ below_zero sign n
unfolding is_negative
is_negative-below_zero sign n = refl

length-map_char : (ks : List ℕ) → length (map digit_char ks) ≡ length ks
length-map_char [] = refl
length-map_char (k ∷ ks) = ap suc (length-map_char ks)

backwards-snoc : (cs : List ℕ) (c : ℕ) → backwards (cs ++ c ∷ []) ≡ c ∷ backwards cs
unfolding backwards
backwards-snoc [] c = refl
backwards-snoc (x ∷ cs) c = ap (λ r. r ++ x ∷ []) (backwards-snoc cs c)

-- The sign stands before the digits.
sign_first :
    (negative : Bool) (ks : List ℕ)
    → backwards (map digit_char ks ++ (if negative then 45 ∷ [] else []))
      ≡ (if negative then 45 ∷ [] else []) ++ map digit_char (backwards ks)
sign_first true ks =
    backwards-snoc (map digit_char ks) 45 ∙ ap (λ r. 45 ∷ r) (map-backwards digit_char ks)
sign_first false ks = ap backwards (append-nil (map digit_char ks)) ∙ map-backwards digit_char ks

IsBase-cases : (base : ℕ) → (base ≡ 10) ⊎ (base ≡ 16) → IsBase base × ((base == 0) ≡ false)
IsBase-cases base (inl e) = (subst IsBase (sym e) ten-IsBase, ground arith)
IsBase-cases base (inr e) = (subst IsBase (sym e) sixteen-IsBase, ground arith)

magnitude_lt : (sign : Bool) (n : ℕ) → n < u32_mod → magnitude sign n < u32_mod
unfolding magnitude
magnitude_lt sign n h = ground arith

-- `sprint_int` of a number of 32 bits in base 10 or 16 prints zeros in base 16 or spaces in base 10, a minus sign where the
-- number is signed and negative, and at least one character 0 to 9 or a to f, which read as digits of the base
-- stand for its absolute value, the first of them not 0 unless it is the only one; it prints at least `width` characters, and more only without padding. The loop over the
-- digits ends for every such number.
pub sprint_int-Printed :
    (n width base : ℕ) (sign : Bool)
    → (base ≡ 10) ⊎ (base ≡ 16)
    → n < u32_mod
    → (cs : List ℕ) × (sprint_int n width base sign ≡ some cs) × Printed n width base sign cs
unfolding sprint_int
sprint_int-Printed n width base sign which h =
    let (b, nonzero) = IsBase-cases base which in
    let small : base ≤ 16 = elim which [ inl e ↦ omega (arith, e) | inr e ↦ omega (arith, e) ] in
    let ks = digit_loop digit_rounds base (magnitude sign n) in
    let good : IsNumber base (magnitude sign n) ks =
      digit_loop-IsNumber base b 31 (magnitude sign n) (omega (arith, magnitude_lt sign n h)) in
    let minus : List ℕ = if is_negative sign n then 45 ∷ [] else [] in
    let buf = map digit_char ks ++ minus in
    let pad = width - length buf in
    let cs = padding pad (fill_char base) ++ backwards buf in
    let long : length cs ≡ pad + length buf = omega (
      arith,
      length-append (padding pad (fill_char base)) (backwards buf),
      length-padding pad (fill_char base),
      length-backwards buf,
    ) in
    (
      cs,
      if_false _ _ nonzero,
      record {
        digits = map digit_char (backwards ks);
        pad = pad;
        text =
            ap (λ r. padding pad (fill_char base) ++ r) (sign_first (is_negative sign n) ks)
            ∙ ap (λ r. r ++ (minus ++ map digit_char (backwards ks)))
                (padding-replicate pad (fill_char base))
            ∙ ap
                (λ t.
                  replicate pad (fill_char base)
                  ++ ((if t then 45 ∷ [] else []) ++ map digit_char (backwards ks)))
                (is_negative-below_zero sign n);
        value =
            ap (number base 0) (map-digit_value base (backwards ks) small good.digits)
            ∙ good.value
            ∙ magnitude-below_zero sign n h;
        good = map-AllDigits base (backwards ks) small good.digits;
        some_digit =
            omega (arith, good.some_digit, length-map_char (backwards ks), length-backwards ks);
        shortest = elim (IsNumber-shortest base (magnitude sign n) ks good) [
          | inl e ↦ inl (omega (arith, e, length-map_char (backwards ks), length-backwards ks))
          | inr f ↦
              inr (
                subst FirstPositive (sym (map-digit_value base (backwards ks) small good.digits)) f)
        ];
        width_kept = omega (arith, long);
        wide = omega (arith, long);
      },
    )
