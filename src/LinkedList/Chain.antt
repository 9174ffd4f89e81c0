-- ===== src/LinkedList/Chain.antt =====
-- Nodes of src/list.h that are linked in both directions.
use babyos.Prelude.{
  ℕ, ◌≡◌, ◌≢◌, refl, ◌∙◌, sym, ap, subst, fun_ext, Bool, true, false, Bool-cases, ◌&&◌, not, inl,
  inr, List, [], ◌∷◌, ◌++◌, ◌==◌, if_true, if_false, arith,
}
use babyos.LinkedList.{Cell, put, set_next, set_prev, alloc_node}

-- A node and its element, which a list of them holds in order.
pub record Entry : Type 0 where
  pub addr : ℕ
  pub value : ℕ

abbrev pub first : List Entry → ℕ
first [] = 0
first (e ∷ l) = e.addr

abbrev pub last : List Entry → ℕ
last [] = 0
last (e ∷ []) = e.addr
last (e ∷ f ∷ l) = last (f ∷ l)

-- An address that is no node's.
abbrev pub absent : ℕ → List Entry → Bool
absent p [] = true
absent p (e ∷ l) = not (e.addr == p) && absent p l

-- Different nodes, none of them at NULL.
abbrev pub distinct : List Entry → Bool
distinct [] = true
distinct (e ∷ l) = not (e.addr == 0) && (absent e.addr l && distinct l)

-- What the nodes hold; of the first one, m_prev may hold anything.
pub data Chain (c : ℕ → Cell) : List Entry → Type 0 where
  stop : Chain c []
  link :
      {e : Entry} {l : List Entry}
      → (c e.addr).value ≡ e.value
      → (c e.addr).next ≡ first l
      → (first l ≢ 0 → (c (first l)).prev ≡ e.addr)
      → Chain c l
      → Chain c (e ∷ l)

pub put-same : (p q : ℕ) (cell : Cell) (c : ℕ → Cell) → q ≢ p → put p cell c q ≡ c q
unfolding put
put-same p q cell c h = if_false _ _ (let t : (q == p) ≡ false = ground arith in t)

pub put-at : (p : ℕ) (cell : Cell) (c : ℕ → Cell) → put p cell c p ≡ cell
unfolding put
put-at p cell c = if_true _ _ (let t : (p == p) ≡ true = ground arith in t)

absent-first : (p : ℕ) (l : List Entry) → absent p l ≡ true → first l ≢ 0 → first l ≢ p
absent-first p [] a z = absurd (z refl)
absent-first p (e ∷ l) a z = λ q. ground arith

-- A node outside the list may hold anything.
pub put-Chain :
    (p : ℕ) (cell : Cell) (c : ℕ → Cell) (l : List Entry)
    → absent p l ≡ true
    → Chain c l
    → Chain (put p cell c) l
put-Chain p cell c _ a stop = stop
put-Chain p cell c (e ∷ l) a (link v n b k) =
    let here : put p cell c e.addr ≡ c e.addr = put-same p e.addr cell c (λ q. ground arith) in
    link (ap (λ (x : Cell). x.value) here ∙ v) (ap (λ (x : Cell). x.next) here ∙ n)
      (λ z.
        ap (λ (x : Cell). x.prev) (put-same p (first l) cell c (absent-first p l (ground arith) z))
        ∙ b z)
      (put-Chain p cell c l (ground arith) k)

-- What is before the first node may change.
pub set_prev-first :
    (r : ℕ) (c : ℕ → Cell) (e : Entry) (l : List Entry)
    → absent e.addr l ≡ true
    → Chain c (e ∷ l)
    → Chain (set_prev e.addr r c) (e ∷ l)
unfolding set_prev
set_prev-first r c e l a (link v n b k) =
    let here = put-at e.addr (record (c e.addr) { prev = r }) c in
    link (ap (λ (x : Cell). x.value) here ∙ v) (ap (λ (x : Cell). x.next) here ∙ n)
      (λ z.
        ap (λ (x : Cell). x.prev) (put-same e.addr (first l) _ c (absent-first e.addr l a z)) ∙ b z)
      (put-Chain e.addr _ c l a k)

pub absent-last : (p : ℕ) (e : Entry) (l : List Entry) → absent p (e ∷ l) ≡ true → last (e ∷ l) ≢ p
absent-last p e [] a = λ q. ground arith
absent-last p e (f ∷ l) a = absent-last p f l (ground arith)

-- `m_next` of a node leaves what is before it.
pub set_next-prev : (p n q : ℕ) (c : ℕ → Cell) → (set_next p n c q).prev ≡ (c q).prev
unfolding set_next put
set_next-prev p n q c = elim (Bool-cases (q == p)) [
  | inl y ↦
      ap (λ (x : Cell). x.prev) (if_true _ _ y)
      ∙ ap (λ i. (c i).prev) (let t : p ≡ q = ground arith in t)
  | inr y ↦ ap (λ (x : Cell). x.prev) (if_false _ _ y)
]

-- A node that is appended, and the last one removed.
snoc-Chain :
    (c : ℕ → Cell) (new e : Entry) (l : List Entry)
    → distinct (e ∷ l) ≡ true
    → absent new.addr (e ∷ l) ≡ true
    → (c new.addr).value ≡ new.value
    → (c new.addr).next ≡ 0
    → (c new.addr).prev ≡ last (e ∷ l)
    → Chain c (e ∷ l)
    → Chain (set_next (last (e ∷ l)) new.addr c) ((e ∷ l) ++ new ∷ [])
unfolding set_next
snoc-Chain c new e [] d a nv nn np (link v n b k) =
    let here = put-at e.addr (record (c e.addr) { next = new.addr }) c in
    let there =
      put-same e.addr new.addr (record (c e.addr) { next = new.addr }) c (λ q. ground arith) in
    link (ap (λ (x : Cell). x.value) here ∙ v) (ap (λ (x : Cell). x.next) here)
      (λ z. ap (λ (x : Cell). x.prev) there ∙ np)
      (link (ap (λ (x : Cell). x.value) there ∙ nv) (ap (λ (x : Cell). x.next) there ∙ nn)
        (λ z. absurd (z refl)) stop)
snoc-Chain c new e (f ∷ l) d a nv nn np (link v n b k) =
    let t : ℕ = last (f ∷ l) in
    let here =
      put-same t e.addr (record (c t) { next = new.addr }) c
        (λ q. absent-last e.addr f l (ground arith) (sym q)) in
    link (ap (λ (x : Cell). x.value) here ∙ v) (ap (λ (x : Cell). x.next) here ∙ n)
      (λ z. set_next-prev t new.addr f.addr c ∙ b z)
      (snoc-Chain c new f l (ground arith) (ground arith) nv nn np k)

-- A new node before the first one and behind the last one.
pub push_front-Chain :
    (p x : ℕ) (c : ℕ → Cell) (e : Entry) (l : List Entry)
    → absent p (e ∷ l) ≡ true
    → distinct (e ∷ l) ≡ true
    → Chain c (e ∷ l)
    → Chain
        (set_prev e.addr p (set_next p e.addr (alloc_node p x c)))
        (record { addr = p; value = x } ∷ e ∷ l)
unfolding set_next set_prev alloc_node
push_front-Chain p x c e l a d k =
    let c1 : ℕ → Cell = alloc_node p x c in
    let c2 : ℕ → Cell = set_next p e.addr c1 in
    let node : c1 p ≡ record { value = x; next = 0; prev = 0 } = put-at p _ c in
    let here =
      put-same e.addr p (record (c2 e.addr) { prev = p }) c2 (λ q. ground arith)
      ∙ put-at p (record (c1 p) { next = e.addr }) c1 in
    link (ap (λ (y : Cell). y.value) here ∙ ap (λ (y : Cell). y.value) node)
      (ap (λ (y : Cell). y.next) here)
      (λ z. ap (λ (y : Cell). y.prev) (put-at e.addr (record (c2 e.addr) { prev = p }) c2))
      (set_prev-first p c2 e l (ground arith)
        (put-Chain p _ c1 (e ∷ l) a (put-Chain p _ c (e ∷ l) a k)))

put-put : (p q : ℕ) (x y : Cell) (c : ℕ → Cell) → p ≢ q → put p x (put q y c) ≡ put q y (put p x c)
unfolding put
put-put p q x y c h = fun_ext (λ i. ground (arith, h))

set_prev-set_next :
    (p t : ℕ) (c : ℕ → Cell) → p ≢ t → set_prev p t (set_next t p c) ≡ set_next t p (set_prev p t c)
unfolding set_prev set_next
set_prev-set_next p t c h =
    let y : Cell = record (c t) { next = p } in
    let x : Cell = record (c p) { prev = t } in
    ap (λ (n : Cell). put p (record n { prev = t }) (put t y c)) (put-same t p y c h)
    ∙ put-put p t x y c h
    ∙ ap (λ (n : Cell). put t (record n { next = p }) (put p x c))
        (sym (put-same p t x c (λ q. h (sym q))))

pub push_back-Chain :
    (p x : ℕ) (c : ℕ → Cell) (e : Entry) (l : List Entry)
    → absent p (e ∷ l) ≡ true
    → distinct (e ∷ l) ≡ true
    → Chain c (e ∷ l)
    → Chain
        (set_prev p (last (e ∷ l)) (set_next (last (e ∷ l)) p (alloc_node p x c)))
        ((e ∷ l) ++ record { addr = p; value = x } ∷ [])
unfolding set_prev alloc_node
push_back-Chain p x c e l a d k =
    let t : ℕ = last (e ∷ l) in
    let c1 : ℕ → Cell = alloc_node p x c in
    let node : c1 p ≡ record { value = x; next = 0; prev = 0 } = put-at p _ c in
    let here = put-at p (record (c1 p) { prev = t }) c1 in
    subst (λ m. Chain m ((e ∷ l) ++ record { addr = p; value = x } ∷ []))
      (sym (set_prev-set_next p t c1 (λ q. absent-last p e l a (sym q))))
      (snoc-Chain (set_prev p t c1) (record { addr = p; value = x }) e l d a
        (ap (λ (y : Cell). y.value) here ∙ ap (λ (y : Cell). y.value) node)
        (ap (λ (y : Cell). y.next) here ∙ ap (λ (y : Cell). y.next) node)
        (ap (λ (y : Cell). y.prev) here) (put-Chain p _ c1 (e ∷ l) a (put-Chain p _ c (e ∷ l) a k)))
