-- ===== src/LinkedList/Ends.antt =====
-- What `push_front`, `push_back`, `pop_front` and `pop_back` of src/list.h do to the nodes.
use babyos.Prelude.{
  ℕ, suc, ◌-◌, ◌≡◌, refl, ◌∙◌, sym, ap, subst, true, false, ◌&&◌, List, [], ◌∷◌, ◌++◌, ◌==◌, length,
  length-append, if_true, if_false, arith,
}
use babyos.LinkedList.{
  Cell, LinkedList, set_next, set_prev, alloc_node, push_front, push_back, pop_front, pop_back,
}
use babyos.LinkedList.Chain.{
  Entry, first, last, absent, distinct, Chain, stop, link, put-at, set_prev-first, push_front-Chain,
  push_back-Chain,
}
use babyos.LinkedList.Taken.{
  drop_last, last-prev, drop_last-distinct, drop_last-Chain, absent-append,
}

-- A list in memory that stands for a sequence of nodes with their elements.
pub record Holds (s : LinkedList) (l : List Entry) : Type 0 where
  pub chain : Chain s.cells l
  pub nodes : distinct l ≡ true
  pub head : s.head ≡ first l
  pub tail : s.tail ≡ last l
  pub size : s.size ≡ length l

abbrev pub entry : ℕ → ℕ → Entry
entry p x = record { addr = p; value = x }

abbrev pub rest : List Entry → List Entry
rest [] = []
rest (e ∷ l) = l

-- An empty list or not, as the code tells them apart.
not_null :
    (e : Entry) (l : List Entry)
    → distinct (e ∷ l) ≡ true
    → (e.addr == 0 && last (e ∷ l) == 0) ≡ false
not_null e l d = ground arith

last-append : (l : List Entry) (new : Entry) → last (l ++ new ∷ []) ≡ new.addr
last-append [] new = refl
last-append (e ∷ []) new = refl
last-append (e ∷ f ∷ l) new = last-append (f ∷ l) new

distinct-append :
    (l : List Entry) (new : Entry)
    → distinct l ≡ true
    → (new.addr == 0) ≡ false
    → absent new.addr l ≡ true
    → distinct (l ++ new ∷ []) ≡ true
distinct-append [] new d z a = ground arith
distinct-append (e ∷ l) new d z a =
    ground (arith, distinct-append l new, absent-append e.addr l (new ∷ []))

first-append : (e : Entry) (l l' : List Entry) → first ((e ∷ l) ++ l') ≡ e.addr
first-append e l l' = refl

pub push_front-Holds :
    (p x : ℕ) (s : LinkedList) (l : List Entry)
    → (p == 0) ≡ false
    → absent p l ≡ true
    → Holds s l
    → Holds (push_front p x s) (entry p x ∷ l)
unfolding push_front alloc_node set_next
push_front-Holds p x s [] z a v =
    let cells : ℕ → Cell = alloc_node p x s.cells in
    let here : cells p ≡ record { value = x; next = 0; prev = 0 } = put-at p _ s.cells in
    subst (λ t. Holds t (entry p x ∷ []))
      (sym (
        if_true _ _
          (let t : (s.head == 0 && s.tail == 0) ≡ true = ground (arith, v.head, v.tail) in t)))
      (record {
        chain =
            link (ap (λ (c : Cell). c.value) here) (ap (λ (c : Cell). c.next) here)
              (λ q. absurd (q refl)) stop;
        nodes = ground arith;
        head = refl;
        tail = refl;
        size = omega (arith, v.size);
      })
push_front-Holds p x s (e ∷ l) z a v =
    let cells : ℕ → Cell = alloc_node p x s.cells in
    let used : (s.head == 0 && s.tail == 0) ≡ false =
      ground (arith, v.head, v.tail, not_null e l v.nodes) in
    subst (λ t. Holds t (entry p x ∷ e ∷ l)) (sym (if_false _ _ used))
      (record {
        chain =
            subst (λ h. Chain (set_prev h p (set_next p h cells)) (entry p x ∷ e ∷ l)) (sym v.head)
              (push_front-Chain p x s.cells e l a v.nodes v.chain);
        nodes = ground (arith, v.nodes);
        head = refl;
        tail = v.tail;
        size = omega (arith, v.size);
      })

pub push_back-Holds :
    (p x : ℕ) (s : LinkedList) (l : List Entry)
    → (p == 0) ≡ false
    → absent p l ≡ true
    → Holds s l
    → Holds (push_back p x s) (l ++ entry p x ∷ [])
unfolding push_back alloc_node
push_back-Holds p x s [] z a v =
    let here : alloc_node p x s.cells p ≡ record { value = x; next = 0; prev = 0 } =
      put-at p _ s.cells in
    subst (λ t. Holds t (entry p x ∷ []))
      (sym (
        if_true _ _
          (let t : (s.head == 0 && s.tail == 0) ≡ true = ground (arith, v.head, v.tail) in t)))
      (record {
        chain =
            link (ap (λ (c : Cell). c.value) here) (ap (λ (c : Cell). c.next) here)
              (λ q. absurd (q refl)) stop;
        nodes = ground arith;
        head = refl;
        tail = refl;
        size = omega (arith, v.size);
      })
push_back-Holds p x s (e ∷ l) z a v =
    let cells : ℕ → Cell = alloc_node p x s.cells in
    let used : (s.head == 0 && s.tail == 0) ≡ false =
      ground (arith, v.head, v.tail, not_null e l v.nodes) in
    subst (λ t. Holds t ((e ∷ l) ++ entry p x ∷ [])) (sym (if_false _ _ used))
      (record {
        chain =
            subst (λ t. Chain (set_prev p t (set_next t p cells)) ((e ∷ l) ++ entry p x ∷ []))
              (sym v.tail) (push_back-Chain p x s.cells e l a v.nodes v.chain);
        nodes = distinct-append (e ∷ l) (entry p x) v.nodes z a;
        head = v.head;
        tail = sym (last-append (e ∷ l) (entry p x));
        size = omega (arith, v.size, length-append l (entry p x ∷ []));
      })

abbrev pub emptied : LinkedList → LinkedList
emptied s = record { cells = s.cells; head = 0; tail = 0; size = s.size - 1 }

pub emptied-Holds : (s : LinkedList) → s.size ≡ 1 → Holds (emptied s) []
emptied-Holds s h = record {
  chain = stop;
  nodes = refl;
  head = refl;
  tail = refl;
  size = omega (arith, h);
}

pub pop_front-Holds : (s : LinkedList) (l : List Entry) → Holds s l → Holds (pop_front s) (rest l)
unfolding pop_front
pop_front-Holds s [] v =
    subst (λ t. Holds t [])
      (sym (if_true _ _ (let t : (s.size == 0) ≡ true = ground (arith, v.size) in t))) v
pop_front-Holds s (e ∷ []) v =
    subst (λ t. Holds t [])
      (sym (
        if_false _ _ (let t : (s.size == 0) ≡ false = ground (arith, v.size) in t)
        ∙ if_true _ _ (let t : (s.size - 1 == 0) ≡ true = ground (arith, v.size) in t)))
      (emptied-Holds s v.size)
pop_front-Holds s (e ∷ f ∷ l) v = elim v.chain [
  | link w n b k ↦
      (let next : (s.cells s.head).next ≡ f.addr = ap (λ i. (s.cells i).next) v.head ∙ n in
        subst (λ t. Holds t (f ∷ l))
          (sym (
            if_false _ _ (let t : (s.size == 0) ≡ false = ground (arith, v.size) in t)
            ∙ if_false _ _ (let t : (s.size - 1 == 0) ≡ false = ground (arith, v.size) in t)))
          (record {
            chain =
                subst (λ i. Chain (set_prev i 0 s.cells) (f ∷ l)) (sym next)
                  (set_prev-first 0 s.cells f l (ground (arith, v.nodes)) k);
            nodes = ground (arith, v.nodes);
            head = next;
            tail = v.tail;
            size = omega (arith, v.size);
          }))
]

length-drop_last : (e : Entry) (l : List Entry) → length (drop_last (e ∷ l)) ≡ length l
length-drop_last e [] = refl
length-drop_last e (f ∷ l) = ap suc (length-drop_last f l)

-- The last of several nodes is taken away.
pub without_last-Holds :
    (s : LinkedList) (e f : Entry) (l : List Entry)
    → Holds s (e ∷ f ∷ l)
    → (let t = (s.cells s.tail).prev in
        Holds
          (record { cells = set_next t 0 s.cells; head = s.head; tail = t; size = s.size - 1 })
          (drop_last (e ∷ f ∷ l)))
without_last-Holds s e f l v =
    let prev : (s.cells s.tail).prev ≡ last (drop_last (e ∷ f ∷ l)) =
      ap (λ i. (s.cells i).prev) v.tail ∙ last-prev s.cells e f l v.nodes v.chain in
    record {
      chain =
          subst (λ i. Chain (set_next i 0 s.cells) (drop_last (e ∷ f ∷ l))) (sym prev)
            (drop_last-Chain s.cells e f l v.nodes v.chain);
      nodes = drop_last-distinct (e ∷ f ∷ l) v.nodes;
      head = v.head;
      tail = prev;
      size = omega (arith, v.size, length-drop_last f l);
    }

pub pop_back-Holds :
    (s : LinkedList) (l : List Entry) → Holds s l → Holds (pop_back s) (drop_last l)
unfolding pop_back
pop_back-Holds s [] v =
    subst (λ t. Holds t [])
      (sym (if_true _ _ (let t : (s.size == 0) ≡ true = ground (arith, v.size) in t))) v
pop_back-Holds s (e ∷ []) v =
    subst (λ t. Holds t [])
      (sym (
        if_false _ _ (let t : (s.size == 0) ≡ false = ground (arith, v.size) in t)
        ∙ if_true _ _ (let t : (s.size - 1 == 0) ≡ true = ground (arith, v.size) in t)))
      (emptied-Holds s v.size)
pop_back-Holds s (e ∷ f ∷ l) v =
    subst (λ t. Holds t (drop_last (e ∷ f ∷ l)))
      (sym (
        if_false _ _ (let t : (s.size == 0) ≡ false = ground (arith, v.size) in t)
        ∙ if_false _ _ (let t : (s.size - 1 == 0) ≡ false = ground (arith, v.size) in t)))
      (without_last-Holds s e f l v)
