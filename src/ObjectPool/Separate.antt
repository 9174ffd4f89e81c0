-- ===== src/ObjectPool/Separate.antt =====
-- The objects of src/pool.cc do not overlap.
use babyos.Prelude.{
  ℕ, ◌+◌, ◌≤◌, ◌≡◌, refl, Bool, true, false, ◌&&◌, ◌||◌, List, [], ◌∷◌, ◌++◌, ◌==◌, leb,
  if◌then◌else◌, arith,
}

-- Two objects that do not overlap, an object and others, and objects among each other.
abbrev pub apart : ℕ → ℕ → ℕ → Bool
apart size p q = leb (p + size) q || leb (q + size) p

abbrev pub all_apart : ℕ → ℕ → List ℕ → Bool
all_apart size p [] = true
all_apart size p (q ∷ qs) = apart size p q && all_apart size p qs

abbrev pub separate : ℕ → List ℕ → Bool
separate size [] = true
separate size (p ∷ ps) = all_apart size p ps && separate size ps

-- Objects that lie before `mem` or behind `end`.
abbrev pub outside : ℕ → ℕ → ℕ → List ℕ → Bool
outside size mem end [] = true
outside size mem end (p ∷ ps) = (leb (p + size) mem || leb end p) && outside size mem end ps

abbrev pub member : ℕ → List ℕ → Bool
member p [] = false
member p (q ∷ qs) = q == p || member p qs

abbrev pub remove : ℕ → List ℕ → List ℕ
remove p [] = []
remove p (q ∷ qs) = if q == p then qs else q ∷ remove p qs

module _ (size : ℕ) where
  pub outside-apart :
      (mem end : ℕ) (ps : List ℕ)
      → mem + size ≤ end
      → outside size mem end ps ≡ true
      → all_apart size mem ps ≡ true
  outside-apart mem end [] h o = refl
  outside-apart mem end (p ∷ ps) h o = ground (arith, h, outside-apart mem end ps h)

  pub outside-further :
      (mem end : ℕ) (ps : List ℕ)
      → outside size mem end ps ≡ true
      → outside size (mem + size) end ps ≡ true
  outside-further mem end [] o = refl
  outside-further mem end (p ∷ ps) o = ground (arith, outside-further mem end ps)

  -- An object that is taken out of the middle, and put back.
  all_apart-append :
      (p : ℕ) (xs ys : List ℕ)
      → all_apart size p (xs ++ ys) ≡ (all_apart size p xs && all_apart size p ys)
  all_apart-append p [] ys = refl
  all_apart-append p (x ∷ xs) ys = ground (arith, all_apart-append p xs ys)

  pub separate-move :
      (p : ℕ) (xs ys : List ℕ)
      → separate size (p ∷ xs ++ ys) ≡ true
      → separate size (xs ++ p ∷ ys) ≡ true
  separate-move p [] ys h = h
  separate-move p (x ∷ xs) ys h =
      ground
        (arith, separate-move p xs ys, all_apart-append x xs ys, all_apart-append x xs (p ∷ ys))

  all_apart-remove :
      (p q : ℕ) (ys : List ℕ) → all_apart size p ys ≡ true → all_apart size p (remove q ys) ≡ true
  all_apart-remove p q [] h = refl
  all_apart-remove p q (y ∷ ys) h = ground (arith, all_apart-remove p q ys)

  all_apart-member :
      (p q : ℕ) (ys : List ℕ)
      → all_apart size p ys ≡ true
      → member q ys ≡ true
      → apart size q p ≡ true
  all_apart-member p q [] h k = ground arith
  all_apart-member p q (y ∷ ys) h k = ground (arith, all_apart-member p q ys)

  separate-out :
      (p : ℕ) (ys : List ℕ)
      → member p ys ≡ true
      → separate size ys ≡ true
      → separate size (p ∷ remove p ys) ≡ true
  separate-out p [] k h = ground arith
  separate-out p (y ∷ ys) k h =
      ground (arith, separate-out p ys, all_apart-remove y p ys, all_apart-member y p ys)

  pub separate-back :
      (p : ℕ) (xs ys : List ℕ)
      → member p ys ≡ true
      → separate size (xs ++ ys) ≡ true
      → separate size (p ∷ xs ++ remove p ys) ≡ true
  separate-back p [] ys k h = separate-out p ys k h
  separate-back p (x ∷ xs) ys k h = ground (
    arith,
    separate-back p xs ys k,
    all_apart-append x xs ys,
    all_apart-append x xs (remove p ys),
    all_apart-remove x p ys,
    all_apart-member x p ys,
  )
