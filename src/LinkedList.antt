-- ===== src/LinkedList.antt =====
-- Linked lists: the template list_t of src/list.h over the memory of its nodes. An address is a number and 0 is NULL;
-- an element is a number. What the pool answers to `alloc_node` is an argument, and a node that is
-- freed keeps its bytes, which nothing below relies on.
pub mod Chain
pub mod Taken
pub mod Ends
pub mod Erase
pub mod Refine
mod Tests
use babyos.Prelude.{
  ℕ, zero, suc, ◌+◌, ◌-◌, Bool, true, false, ◌&&◌, ◌||◌, not, Option, none, some, List, [], ◌∷◌,
  ◌++◌, ltb, ◌==◌, if◌then◌else◌,
}

-- `list_node_t`
pub record Cell : Type 0 where
  pub value : ℕ
  pub next : ℕ
  pub prev : ℕ

pub record LinkedList : Type 0 where
  pub cells : ℕ → Cell
  pub head : ℕ
  pub tail : ℕ
  pub size : ℕ

unfoldable pub put : ℕ → Cell → (ℕ → Cell) → ℕ → Cell
put p cell cells q = if q == p then cell else cells q

-- Assignments to a field of a node
unfoldable pub set_next : ℕ → ℕ → (ℕ → Cell) → ℕ → Cell
set_next p next cells = put p (record (cells p) { next = next }) cells

unfoldable pub set_prev : ℕ → ℕ → (ℕ → Cell) → ℕ → Cell
set_prev p prev cells = put p (record (cells p) { prev = prev }) cells

-- `init`
unfoldable pub init : (ℕ → Cell) → LinkedList
init cells = record { cells = cells; head = 0; tail = 0; size = 0 }

-- `alloc_node`, where the pool returns `p`
unfoldable pub alloc_node : ℕ → ℕ → (ℕ → Cell) → ℕ → Cell
alloc_node p x cells = put p (record { value = x; next = 0; prev = 0 }) cells

unfoldable pub push_front : ℕ → ℕ → LinkedList → LinkedList
push_front p x s =
    let cells = alloc_node p x s.cells in
    if s.head == 0 && s.tail == 0
    then record { cells = cells; head = p; tail = p; size = s.size + 1 }
    else record {
      cells = set_prev s.head p (set_next p s.head cells);
      head = p;
      tail = s.tail;
      size = s.size + 1;
    }

unfoldable pub push_back : ℕ → ℕ → LinkedList → LinkedList
push_back p x s =
    let cells = alloc_node p x s.cells in
    if s.head == 0 && s.tail == 0
    then record { cells = cells; head = p; tail = p; size = s.size + 1 }
    else record {
      cells = set_prev p s.tail (set_next s.tail p cells);
      head = s.head;
      tail = p;
      size = s.size + 1;
    }

unfoldable pub pop_back : LinkedList → LinkedList
pop_back s =
    let size = s.size - 1 in
    let tail = (s.cells s.tail).prev in
    if s.size == 0
    then s
    else if size == 0
    then record { cells = s.cells; head = 0; tail = 0; size = size }
    else record { cells = set_next tail 0 s.cells; head = s.head; tail = tail; size = size }

unfoldable pub pop_front : LinkedList → LinkedList
pop_front s =
    let size = s.size - 1 in
    let head = (s.cells s.head).next in
    if s.size == 0
    then s
    else if size == 0
    then record { cells = s.cells; head = 0; tail = 0; size = size }
    else record { cells = set_prev head 0 s.cells; head = head; tail = s.tail; size = size }

-- The end of `erase`, for a node that is neither the first nor the last
unfoldable pub erase_middle : ℕ → (ℕ → Cell) → ℕ → Cell
erase_middle p cells =
    let prev = (cells p).prev in
    let next = (cells p).next in
    let cells' = if not (prev == 0) then set_next prev next cells else cells in
    if not (next == 0) then set_prev next prev cells' else cells'

-- `erase` at an iterator; the result is the list and the iterator that is returned
unfoldable pub erase : ℕ → LinkedList → LinkedList × ℕ
erase p s =
    let size = s.size - 1 in
    let next = (s.cells p).next in
    let prev = (s.cells s.tail).prev in
    if s.size == 0
    then (s, p)
    else if size == 0
    then (record { cells = s.cells; head = 0; tail = 0; size = size }, 0)
    else if s.head == p
    then (
      record { cells = s.cells; head = (s.cells s.head).next; tail = s.tail; size = size },
      (s.cells s.head).next,
    )
    else if s.tail == p
    then (record { cells = set_next prev 0 s.cells; head = s.head; tail = prev; size = size }, prev)
    else (
      record { cells = erase_middle p s.cells; head = s.head; tail = s.tail; size = size },
      next,
    )

-- `find` from a node on, for at most `n` nodes; the iterator that is returned
unfoldable pub find_from : ℕ → ℕ → (ℕ → Cell) → ℕ → ℕ
find_from zero x cells p = p
find_from (suc n) x cells p =
    let rest = find_from n x cells (cells p).next in
    if not (p == 0) && not ((cells p).value == x) then rest else p

unfoldable pub find : ℕ → LinkedList → ℕ
find x s = find_from s.size x s.cells s.head
