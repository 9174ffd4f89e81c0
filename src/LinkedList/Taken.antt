-- ===== src/LinkedList/Taken.antt =====
-- A node of src/list.h taken out of the others.
use babyos.Prelude.{ℕ, ◌≡◌, ◌≢◌, refl, ◌∙◌, sym, ap, true, ◌&&◌, List, [], ◌∷◌, ◌++◌, arith}
use babyos.LinkedList.{Cell, set_next, set_prev}
use babyos.LinkedList.Chain.{
  Entry, first, last, absent, distinct, Chain, stop, link, put-same, put-at, put-Chain,
  set_prev-first, absent-last, set_next-prev,
}

abbrev pub drop_last : List Entry → List Entry
drop_last [] = []
drop_last (e ∷ []) = []
drop_last (e ∷ f ∷ l) = e ∷ drop_last (f ∷ l)

pub last-prev :
    (c : ℕ → Cell) (e f : Entry) (l : List Entry)
    → distinct (e ∷ f ∷ l) ≡ true
    → Chain c (e ∷ f ∷ l)
    → (c (last (f ∷ l))).prev ≡ last (drop_last (e ∷ f ∷ l))
last-prev c e f [] d (link v n b k) = b (λ q. ground arith)
last-prev c e f (g ∷ l) d (link v n b k) = last-prev c f g l (ground arith) k

absent-drop_last : (p : ℕ) (l : List Entry) → absent p l ≡ true → absent p (drop_last l) ≡ true
absent-drop_last p [] a = refl
absent-drop_last p (e ∷ []) a = refl
absent-drop_last p (e ∷ f ∷ l) a = ground (arith, absent-drop_last p (f ∷ l))

pub drop_last-distinct : (l : List Entry) → distinct l ≡ true → distinct (drop_last l) ≡ true
drop_last-distinct [] d = refl
drop_last-distinct (e ∷ []) d = refl
drop_last-distinct (e ∷ f ∷ l) d =
    ground (arith, absent-drop_last e.addr (f ∷ l), drop_last-distinct (f ∷ l))

pub drop_last-Chain :
    (c : ℕ → Cell) (e f : Entry) (l : List Entry)
    → distinct (e ∷ f ∷ l) ≡ true
    → Chain c (e ∷ f ∷ l)
    → Chain (set_next (last (drop_last (e ∷ f ∷ l))) 0 c) (drop_last (e ∷ f ∷ l))
unfolding set_next
drop_last-Chain c e f [] d (link v n b k) =
    let here = put-at e.addr (record (c e.addr) { next = 0 }) c in
    link (ap (λ (x : Cell). x.value) here ∙ v) (ap (λ (x : Cell). x.next) here)
      (λ z. absurd (z refl)) stop
drop_last-Chain c e f (g ∷ l) d (link v n b k) =
    let t : ℕ = last (drop_last (f ∷ g ∷ l)) in
    let here =
      put-same t e.addr (record (c t) { next = 0 }) c
        (λ q.
          absent-last e.addr f (drop_last (g ∷ l)) (ground (arith, absent-drop_last e.addr (g ∷ l)))
            (sym q)) in
    link (ap (λ (x : Cell). x.value) here ∙ v) (ap (λ (x : Cell). x.next) here ∙ n)
      (λ z. set_next-prev t 0 f.addr c ∙ b z) (drop_last-Chain c f g l (ground arith) k)

pub absent-append : (p : ℕ) (l l' : List Entry) → absent p (l ++ l') ≡ (absent p l && absent p l')
absent-append p [] l' = refl
absent-append p (e ∷ l) l' = ground (arith, absent-append p l l')

set_prev-prev : (p r q : ℕ) (c : ℕ → Cell) → q ≢ p → (set_prev p r c q).prev ≡ (c q).prev
unfolding set_prev
set_prev-prev p r q c h = ap (λ (x : Cell). x.prev) (put-same p q _ c h)

-- A node `b` between two others.
module _ (a b d : Entry) (l' : List Entry) where
  abbrev whole : List Entry
  whole = a ∷ b ∷ d ∷ l'

  first-other : (l : List Entry) → distinct (l ++ whole) ≡ true → first (l ++ whole) ≢ d.addr
  first-other [] h = λ q. ground arith
  first-other (e ∷ l) h = λ q. ground (arith, absent-append e.addr l whole)

  first-same : (l : List Entry) → first (l ++ whole) ≡ first (l ++ a ∷ d ∷ l')
  first-same [] = refl
  first-same (e ∷ l) = refl

  pub middle-links :
      (c : ℕ → Cell) (l : List Entry)
      → distinct (l ++ whole) ≡ true
      → Chain c (l ++ whole)
      → ((c b.addr).prev ≡ a.addr) × ((c b.addr).next ≡ d.addr)
  middle-links c [] h (link v n p (link v' n' p' k)) = (p (λ q. ground arith), n')
  middle-links c (e ∷ l) h (link v n p k) = middle-links c l (ground arith) k

  pub middle-Chain :
      (c : ℕ → Cell) (l : List Entry)
      → distinct (l ++ whole) ≡ true
      → Chain c (l ++ whole)
      → Chain (set_prev d.addr a.addr (set_next a.addr d.addr c)) (l ++ a ∷ d ∷ l')
  unfolding set_prev set_next
  middle-Chain c [] h (link v n p (link v' n' p' k)) =
      let c1 : ℕ → Cell = set_next a.addr d.addr c in
      let here = put-at a.addr (record (c a.addr) { next = d.addr }) c in
      let there =
        put-same d.addr a.addr (record (c1 d.addr) { prev = a.addr }) c1 (λ q. ground arith) in
      link (ap (λ (x : Cell). x.value) (there ∙ here) ∙ v)
        (ap (λ (x : Cell). x.next) (there ∙ here))
        (λ z. ap (λ (x : Cell). x.prev) (put-at d.addr (record (c1 d.addr) { prev = a.addr }) c1))
        (set_prev-first a.addr c1 d l' (ground arith)
          (put-Chain a.addr _ c (d ∷ l') (ground arith) k))
  middle-Chain c (e ∷ l) h (link v n p k) =
      let c1 : ℕ → Cell = set_next a.addr d.addr c in
      let apart = absent-append e.addr l whole in
      let here =
        put-same a.addr e.addr (record (c a.addr) { next = d.addr }) c
          (λ q. ground (arith, apart)) in
      let there =
        put-same d.addr e.addr (record (c1 d.addr) { prev = a.addr }) c1
          (λ q. ground (arith, apart)) in
      let f : ℕ = first (l ++ whole) in
      link (ap (λ (x : Cell). x.value) (there ∙ here) ∙ v)
        (ap (λ (x : Cell). x.next) (there ∙ here) ∙ n ∙ first-same l)
        (λ z.
          ap (λ i. (set_prev d.addr a.addr c1 i).prev) (sym (first-same l))
          ∙ set_prev-prev d.addr a.addr f c1 (first-other l (ground arith))
          ∙ set_next-prev a.addr d.addr f c
          ∙ p (λ q. z (sym (first-same l) ∙ q)))
        (middle-Chain c l (ground arith) k)
