-- ===== src/Mm.antt =====
-- The physical pages: the buddy allocator of class mm_t, src/mm.h and src/mm.cc. A page is its
-- number counted from `m_free_area.base`, MAP_NR(addr - base); `base` is a multiple of the largest
-- block, so the masks of the code cut page numbers as they cut addresses. An entry of
-- `free_list[order]` is the number of its block among the blocks of that size, that is its page
-- shifted right by `order`: `address &= mask` after `mask <<= 1` halves it, and
-- `get_buddy` flips its lowest bit. A circular list with a head is the list of its entries.
pub mod Blocks
pub mod Cover
pub mod Mark
pub mod Expand
pub mod Alloc
pub mod Free
pub mod Refs
mod Tests
use babyos.Prelude.{
  ℕ, zero, suc, ◌+◌, ◌-◌, ◌*◌, ◌/◌, ◌%◌, ◌^◌, Bool, true, false, not, ◌&&◌, Option, none, some,
  List, [], ◌∷◌, ltb, leb, ◌==◌, if◌then◌else◌, add32, sub32,
}

-- `MAX_ORDER`
abbrev pub max_order : ℕ
max_order = 6

-- `free_list` and `map` of m_free_area, the counters of m_pages, and m_free_page_num
pub record Mm : Type 0 where
  pub free_list : ℕ → List ℕ
  pub bitmap : ℕ → ℕ → Bool
  pub ref : ℕ → ℕ
  pub free_page_num : ℕ

pub update : {A : Type 0} → (ℕ → A) → ℕ → A → ℕ → A
update f i a j = if j == i then a else f j

-- The shifts of a number.
pub shift_right : ℕ → ℕ → ℕ
shift_right zero n = n
shift_right (suc k) n = shift_right k n / 2

pub shift_left : ℕ → ℕ → ℕ
shift_left zero n = n
shift_left (suc k) n = shift_left k (2 * n)

pub unlink : ℕ → List ℕ → List ℕ
unlink entry [] = []
unlink entry (e ∷ rest) = if e == entry then rest else e ∷ unlink entry rest

-- `add_to_head` and `remove_head` on the list of an order
pub add_to_head : ℕ → ℕ → Mm → Mm
add_to_head order entry m = record m {
  free_list = update m.free_list order (entry ∷ m.free_list order);
}

pub remove_head : ℕ → ℕ → Mm → Mm
remove_head order entry m = record m {
  free_list = update m.free_list order (unlink entry (m.free_list order));
}

-- `change_bit` of a map; its result, the old bit, is read before.
pub change_bit : ℕ → ℕ → Mm → Mm
change_bit order index m = record m {
  bitmap = update m.bitmap order (update (m.bitmap order) index (not (m.bitmap order index)));
}

-- `mark_used`
pub mark_used : ℕ → ℕ → Mm → Mm
mark_used entry order m = change_bit order (entry / 2) m

-- `get_buddy`
pub get_buddy : ℕ → ℕ
get_buddy entry = if entry % 2 == 0 then entry + 1 else entry - 1

-- `inc_page_ref`, for counts that stay below 2 ^ 31, the range of the counter
pub inc_page_ref : ℕ → Mm → Mm
inc_page_ref page m = record m { ref = update m.ref page (m.ref page + 1) }

-- The first loop of `expand`, with `n` = `high - low` rounds to go.
pub expand_split : ℕ → ℕ → ℕ → Mm → ℕ × Mm
expand_split zero low addr m = (addr, m)
expand_split (suc n) low addr m =
    expand_split n low (2 * addr + 1)
      (mark_used (2 * addr) (low + n) (add_to_head (low + n) (2 * addr) m))

-- The second loop of `expand`.
pub inc_refs : ℕ → ℕ → Mm → Mm
inc_refs zero page m = m
inc_refs (suc n) page m = inc_refs n (page + 1) (inc_page_ref page m)

-- `expand`, with the page that it returns
pub expand : ℕ → ℕ → ℕ → Mm → ℕ × Mm
expand addr low high m =
    let (block, m') = expand_split (high - low) low addr m in
    let page = shift_left low block in (page, inc_refs (2 ^ low) page m')

-- A round of the loop of `alloc_pages`, over the list of `new_order`; `more` is what the rounds after
-- it come to.
pub alloc_round : List ℕ → ℕ → ℕ → Mm → Option ℕ × Mm → Option ℕ × Mm
alloc_round [] order new_order m more = more
alloc_round (next ∷ rest) order new_order m more =
    let taken = record m { free_list = update m.free_list new_order rest } in
    let (page, m') = expand next order new_order (mark_used next new_order taken) in (some page, m')

-- The loop, with the rounds left before `new_order` passes MAX_ORDER.
pub alloc_search : ℕ → ℕ → ℕ → Mm → Option ℕ × Mm
alloc_search zero order new_order m = (none, m)
alloc_search (suc rounds) order new_order m =
    let more = alloc_search rounds order (suc new_order) m in
    alloc_round (m.free_list new_order) order new_order m more

-- `alloc_pages`: the page, or `none` for NULL
pub alloc_pages : ℕ → Mm → Option ℕ × Mm
alloc_pages order m =
    alloc_search (suc max_order - order) order order
      (record m { free_page_num = sub32 m.free_page_num (2 ^ order) })

-- The loop of `free_pages`, with the rounds left before `order` reaches MAX_ORDER, and
-- `add_to_head` behind it.
pub free_merge : ℕ → ℕ → ℕ → Mm → Mm
free_merge zero order entry m = add_to_head order entry m
free_merge (suc rounds) order entry m =
    let m' = change_bit order (entry / 2) m in
    let merged =
      free_merge rounds (suc order) (entry / 2) (remove_head order (get_buddy entry) m') in
    if m.bitmap order (entry / 2) then merged else add_to_head order entry m'

-- `free_pages`, `none` where `dec_page_ref` panics
pub free_pages : ℕ → ℕ → Mm → Option Mm
free_pages page order m =
    let m' = record m { ref = update m.ref page (m.ref page - 1) } in
    if leb (m.ref page) 0
    then none
    else if m'.ref page == 0
    then some (
        free_merge (max_order - order) order (shift_right order page)
          (record m' { free_page_num = add32 m'.free_page_num (2 ^ order) }))
    else some m'

-- `free_boot_mem` over `n` pages from `page` on
pub free_boot_loop : ℕ → ℕ → Mm → Option Mm
free_boot_loop zero page m = some m
free_boot_loop (suc n) page m = elim (free_pages page 0 m) [
  | none ↦ none
  | some m' ↦ free_boot_loop n (page + 1) m'
]

-- `init_pages` and `init_free_area`, over `n` pages: empty lists and maps, and `free_boot_mem`
pub init_free_area : ℕ → Option Mm
init_free_area n = free_boot_loop n 0 (record {
  free_list = λ order. [];
  bitmap = λ order index. false;
  ref = λ page. 1;
  free_page_num = 0;
})
