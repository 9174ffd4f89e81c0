-- ===== src/Vm/View.antt =====
-- What an address space means, for src/vm.cc: the protection and flags of each address. Areas are
-- kept in order and apart; a list taken apart by a walk is ordered on both sides.
use babyos.Prelude.{
  ℕ, ◌+◌, ◌≤◌, ◌<◌, ◌≡◌, refl, ap, ◌∙◌, Bool, ◌&&◌, Option, none, some, List, [], ◌∷◌, ltb, leb,
  if◌then◌else◌, arith, length,
}
use babyos.Vm.{Area, relink}

abbrev pub inside : Area → ℕ → Bool
inside vma a = leb vma.start a && ltb a vma.end

abbrev pub attributes : Area → ℕ × ℕ
attributes vma = (vma.page_prot, vma.flags)

-- The protection and flags of an address; `none` where nothing is mapped.
abbrev pub view : ℕ → List Area → Option (ℕ × ℕ)
view a [] = none
view a (vma ∷ rest) = if inside vma a then some (attributes vma) else view a rest

-- Areas are not empty, begin at `lo` or later, and follow one another.
abbrev pub Ordered : ℕ → List Area → Type 0
Ordered lo [] = Unit {0}
Ordered lo (vma ∷ rest) = (lo ≤ vma.start) × (vma.start < vma.end) × Ordered vma.end rest

-- The same for the areas that a walk has passed, latest first: they end at `hi` or before.
abbrev pub Behind : ℕ → List Area → Type 0
Behind hi [] = Unit {0}
Behind hi (vma ∷ front) = (vma.end ≤ hi) × (vma.start < vma.end) × Behind vma.start front

pub Ordered-mono : {lo hi : ℕ} (areas : List Area) → lo ≤ hi → Ordered hi areas → Ordered lo areas
Ordered-mono [] h o = tt
Ordered-mono (vma ∷ rest) h o = (omega arith, o.1, o.2)

pub Behind-mono : {lo hi : ℕ} (front : List Area) → lo ≤ hi → Behind lo front → Behind hi front
Behind-mono [] h o = tt
Behind-mono (vma ∷ rest) h o = (omega arith, o.1, o.2)

pub relink-Ordered :
    (mid : ℕ) (front back : List Area)
    → Behind mid front
    → Ordered mid back
    → Ordered 0 (relink front back)
unfolding relink
relink-Ordered mid [] back b o = Ordered-mono {lo = 0} {hi = mid} back (omega arith) o
relink-Ordered mid (vma ∷ front) back b o =
    relink-Ordered vma.start front (vma ∷ back) b.2
      (omega arith, b.1, Ordered-mono {lo = vma.end} {hi = mid} back b.0 o)

-- Nothing is mapped below an ordered list.
pub view_below : (a lo : ℕ) (areas : List Area) → Ordered lo areas → a < lo → view a areas ≡ none
view_below a lo [] o h = refl
view_below a lo (vma ∷ rest) o h = ground (arith, view_below a vma.end rest o.2)

-- Above the areas passed, only the rest of the list counts.
pub view-relink_above :
    (a hi : ℕ) (front back : List Area)
    → Behind hi front
    → hi ≤ a
    → view a (relink front back) ≡ view a back
unfolding relink
view-relink_above a hi [] back b h = refl
view-relink_above a hi (vma ∷ front) back b h =
    view-relink_above a vma.start front (vma ∷ back) b.2 (omega arith) ∙ ground arith

-- What the rest of the list maps is all that matters of it.
pub view-relink :
    (a : ℕ) (front xs ys : List Area)
    → view a xs ≡ view a ys
    → view a (relink front xs) ≡ view a (relink front ys)
unfolding relink
view-relink a [] xs ys e = e
view-relink a (vma ∷ front) xs ys e =
    view-relink a front (vma ∷ xs) (vma ∷ ys)
      (ap (λ v. if inside vma a then some (attributes vma) else v) e)

pub length-relink :
    (front back : List Area) → length (relink front back) ≡ length front + length back
unfolding relink
length-relink [] back = omega arith
length-relink (vma ∷ front) back = omega (arith, length-relink front (vma ∷ back))
