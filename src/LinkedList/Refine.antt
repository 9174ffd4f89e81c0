-- ===== src/LinkedList/Refine.antt =====
-- The operations of src/list.h as operations on sequences.
use babyos.Prelude.{
  ℕ, ◌≡◌, refl, ◌∙◌, ap, Bool, true, ◌&&◌, not, List, [], ◌∷◌, ◌++◌, ◌==◌, length, if◌then◌else◌,
  arith,
}
use babyos.LinkedList.{
  Cell, LinkedList, push_front, push_back, pop_front, pop_back, erase, find, find_from,
}
use babyos.LinkedList.Chain.{Entry, first, absent, distinct, Chain, stop, link}
use babyos.LinkedList.Taken.{drop_last}
use babyos.LinkedList.Ends.{
  Holds, entry, rest, push_front-Holds, push_back-Holds, pop_front-Holds, pop_back-Holds,
}
use babyos.LinkedList.Erase.{remove, erase-Holds}

-- A call, with the node that the pool hands out or at which an iterator stands.
pub data Call : Type 0 where
  at_front at_back : (p x : ℕ) → Call
  off_front off_back : Call
  out : (p : ℕ) → Call

unfoldable pub perform : Call → LinkedList → LinkedList
perform (at_front p x) s = push_front p x s
perform (at_back p x) s = push_back p x s
perform off_front s = pop_front s
perform off_back s = pop_back s
perform (out p) s = (erase p s).0

unfoldable pub perform_all : List Call → LinkedList → LinkedList
perform_all [] s = s
perform_all (call ∷ calls) s = perform_all calls (perform call s)

-- What the call does to the sequence.
abbrev pub meaning : Call → List Entry → List Entry
meaning (at_front p x) l = entry p x ∷ l
meaning (at_back p x) l = l ++ entry p x ∷ []
meaning off_front l = rest l
meaning off_back l = drop_last l
meaning (out p) l = remove p l

abbrev pub all_meanings : List Call → List Entry → List Entry
all_meanings [] l = l
all_meanings (call ∷ calls) l = all_meanings calls (meaning call l)

-- The pool hands out nodes that are not in the list, and a node that is erased is in it.
abbrev pub allowed : Call → List Entry → Bool
allowed (at_front p x) l = not (p == 0) && absent p l
allowed (at_back p x) l = not (p == 0) && absent p l
allowed (out p) l = not (absent p l)
allowed _ l = true

abbrev pub all_allowed : List Call → List Entry → Bool
all_allowed [] l = true
all_allowed (call ∷ calls) l = allowed call l && all_allowed calls (meaning call l)

perform-Holds :
    (call : Call) (s : LinkedList) (l : List Entry)
    → allowed call l ≡ true
    → Holds s l
    → Holds (perform call s) (meaning call l)
unfolding perform
perform-Holds (at_front p x) s l a v = push_front-Holds p x s l (ground arith) (ground arith) v
perform-Holds (at_back p x) s l a v = push_back-Holds p x s l (ground arith) (ground arith) v
perform-Holds off_front s l a v = pop_front-Holds s l v
perform-Holds off_back s l a v = pop_back-Holds s l v
perform-Holds (out p) s l a v = erase-Holds p s l (ground arith) v

-- A list in memory that holds a sequence of nodes and elements holds, behind any calls of push_front, push_back, pop_front,
-- pop_back and erase, the sequence that these calls make of it, where the nodes handed out are not NULL and not in
-- the list and those erased are in it: linked in both directions, with its ends and its size.
pub perform_all-Holds :
    (calls : List Call) (s : LinkedList) (l : List Entry)
    → all_allowed calls l ≡ true
    → Holds s l
    → Holds (perform_all calls s) (all_meanings calls l)
unfolding perform_all
perform_all-Holds [] s l a v = v
perform_all-Holds (call ∷ calls) s l a v =
    perform_all-Holds calls (perform call s) (meaning call l) (ground arith)
      (perform-Holds call s l (ground arith) v)

-- The node of the first element that is equal, NULL where none is.
abbrev pub node_of : ℕ → List Entry → ℕ
node_of x [] = 0
node_of x (e ∷ l) = if e.value == x then e.addr else node_of x l

find_from-node_of :
    (x : ℕ) (c : ℕ → Cell) (l : List Entry)
    → distinct l ≡ true
    → Chain c l
    → find_from (length l) x c (first l) ≡ node_of x l
unfolding find_from
find_from-node_of x c _ d stop = refl
find_from-node_of x c (e ∷ l) d (link v n b k) =
    let rest = ap (find_from (length l) x c) n ∙ find_from-node_of x c l (ground arith) k in
    ground (arith, v, rest)

-- `find` ends after as many steps as the list has nodes, at the first node whose element is equal, or at the end where none
-- is.
pub find-node_of : (x : ℕ) (s : LinkedList) (l : List Entry) → Holds s l → find x s ≡ node_of x l
unfolding find
find-node_of x s l v =
    ap (λ n. find_from n x s.cells s.head) v.size
    ∙ ap (find_from (length l) x s.cells) v.head
    ∙ find_from-node_of x s.cells l v.nodes v.chain
