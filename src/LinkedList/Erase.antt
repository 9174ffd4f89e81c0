-- ===== src/LinkedList/Erase.antt =====
-- What `erase` of src/list.h does to the nodes.
use babyos.Prelude.{
  ℕ, suc, ◌-◌, ◌≡◌, ◌≢◌, refl, ◌∙◌, sym, ap, subst, true, false, Bool-cases, not, inl, inr, List,
  [], ◌∷◌, ◌++◌, ◌==◌, length, if◌then◌else◌, if_true, if_false, arith,
}
use babyos.LinkedList.{Cell, LinkedList, set_next, set_prev, erase, erase_middle}
use babyos.LinkedList.Chain.{Entry, first, last, absent, distinct, Chain, link, absent-last}
use babyos.LinkedList.Taken.{drop_last, middle-links, middle-Chain}
use babyos.LinkedList.Ends.{Holds, emptied, emptied-Holds, without_last-Holds}

abbrev pub remove : ℕ → List Entry → List Entry
remove p [] = []
remove p (e ∷ l) = if e.addr == p then l else e ∷ remove p l

remove-last :
    (e : Entry) (l : List Entry)
    → distinct (e ∷ l) ≡ true
    → remove (last (e ∷ l)) (e ∷ l) ≡ drop_last (e ∷ l)
remove-last e [] d = if_true _ _ (let t : (e.addr == e.addr) ≡ true = ground arith in t)
remove-last e (f ∷ l) d =
    if_false _ _ (
      let t : (e.addr == last (f ∷ l)) ≡ false =
        ground (arith, absent-last e.addr f l (ground arith)) in
      t)
    ∙ ap (λ m. e ∷ m) (remove-last f l (ground arith))

absent-remove : (p q : ℕ) (l : List Entry) → absent p l ≡ true → absent p (remove q l) ≡ true
absent-remove p q [] a = refl
absent-remove p q (e ∷ l) a = ground (arith, absent-remove p q l)

remove-distinct : (q : ℕ) (l : List Entry) → distinct l ≡ true → distinct (remove q l) ≡ true
remove-distinct q [] d = refl
remove-distinct q (e ∷ l) d = ground (arith, absent-remove e.addr q l, remove-distinct q l)

length-remove : (q : ℕ) (l : List Entry) → absent q l ≡ false → suc (length (remove q l)) ≡ length l
length-remove q [] a = ground arith
length-remove q (e ∷ l) a = ground (arith, length-remove q l)

remove-first_other : (q : ℕ) (l : List Entry) → first l ≢ q → first (remove q l) ≡ first l
remove-first_other q [] h = refl
remove-first_other q (e ∷ l) h =
    ap first (if_false l (e ∷ remove q l) (let t : (e.addr == q) ≡ false = ground arith in t))

-- A node that is neither the first nor the last stands between two others.
record Between (q : ℕ) (l : List Entry) : Type 0 where
  before : List Entry
  a : Entry
  b : Entry
  d : Entry
  after : List Entry
  whole : l ≡ before ++ a ∷ b ∷ d ∷ after
  at : b.addr ≡ q
  taken : remove q l ≡ before ++ a ∷ d ∷ after

between :
    (q : ℕ) (e : Entry) (l : List Entry)
    → absent q (e ∷ l) ≡ false
    → (e.addr == q) ≡ false
    → last (e ∷ l) ≢ q
    → Between q (e ∷ l)
between q e [] h n z = ground arith
between q e (f ∷ []) h n z = ground arith
between q e (f ∷ g ∷ l) h n z = elim (Bool-cases (f.addr == q)) [
  | inl y ↦ record {
    before = [];
    a = e;
    b = f;
    d = g;
    after = l;
    whole = refl;
    at = ground arith;
    taken = if_false _ _ n ∙ ap (λ m. e ∷ m) (if_true _ _ y);
  }
  | inr y ↦
      (let r = between q f (g ∷ l) (ground arith) y z in
        record {
          before = e ∷ r.before;
          a = r.a;
          b = r.b;
          d = r.d;
          after = r.after;
          whole = ap (λ m. e ∷ m) r.whole;
          at = r.at;
          taken = if_false _ _ n ∙ ap (λ m. e ∷ m) r.taken;
        })
]

last-taken :
    (a b d : Entry) (l l' : List Entry) → last (l ++ a ∷ d ∷ l') ≡ last (l ++ a ∷ b ∷ d ∷ l')
last-taken a b d [] l' = refl
last-taken a b d (e ∷ []) l' = refl
last-taken a b d (e ∷ f ∷ l) l' = last-taken a b d (f ∷ l) l'

not_null :
    (a b d : Entry) (l l' : List Entry)
    → distinct (l ++ a ∷ b ∷ d ∷ l') ≡ true
    → ((a.addr == 0) ≡ false) × ((d.addr == 0) ≡ false)
not_null a b d [] l' h = (
  (let t : (a.addr == 0) ≡ false = ground arith in t),
  (let t : (d.addr == 0) ≡ false = ground arith in t),
)
not_null a b d (e ∷ l) l' h = not_null a b d l l' (ground arith)

abbrev relinked : ℕ → ℕ → (ℕ → Cell) → ℕ → Cell
relinked prev next c =
    let c' = if not (prev == 0) then set_next prev next c else c in
    if not (next == 0) then set_prev next prev c' else c'

erase_middle-Chain :
    (c : ℕ → Cell) (q : ℕ) (l : List Entry)
    → distinct l ≡ true
    → Chain c l
    → Between q l
    → Chain (erase_middle q c) (remove q l)
unfolding erase_middle
erase_middle-Chain c q l d k r =
    let whole : List Entry = r.before ++ r.a ∷ r.b ∷ r.d ∷ r.after in
    let d' : distinct whole ≡ true = subst (λ m. distinct m ≡ true) r.whole d in
    let k' : Chain c whole = subst (Chain c) r.whole k in
    let (p, n) = middle-links r.a r.b r.d r.after c r.before d' k' in
    let p' : (c q).prev ≡ r.a.addr = ap (λ i. (c i).prev) (sym r.at) ∙ p in
    let n' : (c q).next ≡ r.d.addr = ap (λ i. (c i).next) (sym r.at) ∙ n in
    let (za, zd) = not_null r.a r.b r.d r.before r.after d' in
    let there : erase_middle q c ≡ set_prev r.d.addr r.a.addr (set_next r.a.addr r.d.addr c) =
      ap (λ i. relinked i (c q).next c) p'
      ∙ ap (λ i. relinked r.a.addr i c) n'
      ∙ if_true _ _ (ap not zd)
      ∙ ap (set_prev r.d.addr r.a.addr) (if_true _ _ (ap not za)) in
    subst (λ m. Chain m (remove q l)) (sym there)
      (subst (Chain (set_prev r.d.addr r.a.addr (set_next r.a.addr r.d.addr c))) (sym r.taken)
        (middle-Chain r.a r.b r.d r.after c r.before d' k'))

last-remove : (q : ℕ) (l : List Entry) → Between q l → last (remove q l) ≡ last l
last-remove q l r =
    ap last r.taken ∙ last-taken r.a r.b r.d r.before r.after ∙ ap last (sym r.whole)

-- A node of the list is erased.
pub erase-Holds :
    (q : ℕ) (s : LinkedList) (l : List Entry)
    → absent q l ≡ false
    → Holds s l
    → Holds (erase q s).0 (remove q l)
unfolding erase
erase-Holds q s [] h v = ground arith
erase-Holds q s (e ∷ []) h v =
    subst (λ (r : LinkedList × ℕ). Holds r.0 (remove q (e ∷ [])))
      (sym (
        if_false _ _ (let t : (s.size == 0) ≡ false = ground (arith, v.size) in t)
        ∙ if_true _ _ (let t : (s.size - 1 == 0) ≡ true = ground (arith, v.size) in t)))
      (subst (Holds (emptied s))
        (sym (if_true _ _ (let t : (e.addr == q) ≡ true = ground arith in t)))
        (emptied-Holds s v.size))
erase-Holds q s (e ∷ f ∷ l) h v =
    subst (λ (r : LinkedList × ℕ). Holds r.0 (remove q (e ∷ f ∷ l)))
      (sym (
        if_false _ _ (let t : (s.size == 0) ≡ false = ground (arith, v.size) in t)
        ∙ if_false _ _ (let t : (s.size - 1 == 0) ≡ false = ground (arith, v.size) in t)))
      (elim (Bool-cases (s.head == q)) [
        | inl y ↦
            subst (λ (r : LinkedList × ℕ). Holds r.0 (remove q (e ∷ f ∷ l))) (sym (if_true _ _ y))
              (subst (Holds _)
                (sym (if_true _ _ (let t : (e.addr == q) ≡ true = ground (arith, v.head) in t)))
                (elim v.chain [
                  | link w n b k ↦ record {
                    chain = k;
                    nodes = ground (arith, v.nodes);
                    head = ap (λ i. (s.cells i).next) v.head ∙ n;
                    tail = v.tail;
                    size = omega (arith, v.size);
                  }
                ]))
        | inr y ↦
            subst (λ (r : LinkedList × ℕ). Holds r.0 (remove q (e ∷ f ∷ l))) (sym (if_false _ _ y))
              (elim (Bool-cases (s.tail == q)) [
                | inl z ↦
                    subst (λ (r : LinkedList × ℕ). Holds r.0 (remove q (e ∷ f ∷ l)))
                      (sym (if_true _ _ z))
                      (subst (Holds _)
                        (sym (
                          ap (λ i. remove i (e ∷ f ∷ l))
                            (let t : q ≡ last (e ∷ f ∷ l) = ground (arith, v.tail) in t)
                          ∙ remove-last e (f ∷ l) v.nodes))
                        (without_last-Holds s e f l v))
                | inr z ↦
                    subst (λ (r : LinkedList × ℕ). Holds r.0 (remove q (e ∷ f ∷ l)))
                      (sym (if_false _ _ z))
                      (let r =
                          between q e (f ∷ l) h (ground (arith, v.head))
                            (λ u. ground (arith, v.tail)) in
                        record {
                          chain = erase_middle-Chain s.cells q (e ∷ f ∷ l) v.nodes v.chain r;
                          nodes = remove-distinct q (e ∷ f ∷ l) v.nodes;
                          head =
                              v.head
                              ∙ sym
                                  (remove-first_other q (e ∷ f ∷ l) (λ u. ground (arith, v.head)));
                          tail = v.tail ∙ sym (last-remove q (e ∷ f ∷ l) r);
                          size = omega (arith, v.size, length-remove q (e ∷ f ∷ l) h);
                        })
              ])
      ])
