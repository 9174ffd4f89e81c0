-- ===== src/Mm/Tests.antt =====
-- Runs of the functions of src/mm.cc, and the theorems about them at concrete inputs.
use babyos.Prelude.{
  ℕ, ◌+◌, ◌<◌, ◌^◌, ◌≡◌, ◌⊎◌, inl, inr, refl, false, Option, none, some, [], ◌∷◌, arith, Bool-cases,
  ◌==◌, if◌then◌else◌,
}
use babyos.Mm.{
  Mm, update, shift_right, shift_left, unlink, add_to_head, remove_head, change_bit, mark_used,
  get_buddy, inc_page_ref, expand_split, inc_refs, expand, alloc_round, alloc_search, alloc_pages,
  free_merge, free_pages, free_boot_loop, init_free_area,
}
use babyos.Mm.Blocks.{same}
use babyos.Mm.Cover.{IsValid, cover, cover_below, Outside}
use babyos.Mm.Expand.{inside, Taken}
use babyos.Mm.Alloc.{NoneFrom, alloc_pages_takes}
use babyos.Mm.Free.{Returned, lowered, free_pages_returns}
use babyos.Mm.Refs.{alloc_pages-free_pages}

abbrev or_empty : Option Mm → Mm
or_empty none = record {
  free_list = λ order. [];
  bitmap = λ order index. false;
  ref = λ page. 0;
  free_page_num = 0;
}
or_empty (some m) = m

-- Memory after the start, from four pages.
abbrev four_pages : Mm
four_pages = or_empty (init_free_area 4)

start_merges :
    (four_pages.free_list 2 ≡ 0 ∷ [])
    × (four_pages.free_list 0 ≡ [])
    × (four_pages.free_page_num ≡ 4)
unfolding init_free_area free_boot_loop free_pages free_merge update shift_right unlink add_to_head
    remove_head change_bit get_buddy
start_merges = (refl, refl, refl)

-- Two pages taken and given back together, and then one by one: the second of them keeps a count, is
-- given back in vain and is lost.
abbrev after_pair : Mm
after_pair = or_empty (free_pages 2 1 (alloc_pages 1 four_pages).1)

second_page_lost :
    let m1 = (alloc_pages 0 after_pair).1 in
    let m2 = (alloc_pages 0 m1).1 in
    let m3 = or_empty (free_pages 2 0 (or_empty (free_pages 3 0 m2))) in
    (after_pair.free_list 2 ≡ 0 ∷ [])
    × (m3.free_list 0 ≡ 2 ∷ [])
    × (m3.free_list 2 ≡ [])
    × (m3.ref 3 ≡ 1)
unfolding init_free_area free_boot_loop free_pages free_merge update shift_right shift_left unlink
    add_to_head remove_head change_bit get_buddy alloc_pages alloc_search alloc_round expand
    expand_split inc_refs inc_page_ref mark_used
second_page_lost = (refl, refl, refl, refl)

-- One free block of four pages, and four pages in use.
abbrev one_block : Mm
one_block = record {
  free_list = λ order. if order == 2 then 0 ∷ [] else [];
  bitmap = λ order index. if order == 2 then index == 0 else false;
  ref = λ page. 0;
  free_page_num = 4;
}

one_block-IsValid : IsValid one_block
unfolding cover cover_below shift_right
one_block-IsValid = record {
  covered = λ page. ground arith;
  bits = λ k j h. elim (Bool-cases (k == 2)) [ inl e ↦ rw e (ground arith) | inr e ↦ rw e refl ];
}

abbrev in_use : Mm
in_use = record {
  free_list = λ order. [];
  bitmap = λ order index. false;
  ref = λ page. 1;
  free_page_num = 0;
}

in_use-IsValid : IsValid in_use
unfolding cover cover_below
in_use-IsValid = record { covered = λ page. omega arith; bits = λ k j h. refl }

in_use-Outside : Outside in_use 1 (shift_right 1 2)
unfolding cover cover_below
in_use-Outside page h = refl

alloc_pages_takes_example :
    (((alloc_pages 0 one_block).0 ≡ none) × NoneFrom one_block 0)
    ⊎ ((block : ℕ) × (m' : Mm) × (alloc_pages 0 one_block ≡ (some (shift_left 0 block), m'))
        × Taken one_block 0 block m'
        × ¬ NoneFrom one_block 0)
alloc_pages_takes_example = alloc_pages_takes 0 one_block (omega arith) one_block-IsValid

free_pages_returns_example :
    ((in_use.ref 2 ≡ 0) × (free_pages 2 1 in_use ≡ none))
    ⊎ ((1 < in_use.ref 2)
        × (free_pages 2 1 in_use ≡ some (record in_use { ref = lowered 2 in_use })))
    ⊎ ((in_use.ref 2 ≡ 1)
        × (m' : Mm) × (free_pages 2 1 in_use ≡ some m')
        × Returned in_use 1 (shift_right 1 2) m'
        × (m'.ref ≡ lowered 2 in_use))
free_pages_returns_example =
    free_pages_returns 2 1 in_use
      (λ o. record { small = omega arith; valid = in_use-IsValid; outside = in_use-Outside })

abbrev taken_block : Mm
taken_block = (alloc_pages 1 one_block).1

taken_block-page : alloc_pages 1 one_block ≡ (some 2, taken_block)
unfolding update shift_left add_to_head change_bit alloc_pages alloc_search alloc_round expand
    expand_split inc_refs inc_page_ref mark_used
taken_block-page = refl

alloc_pages-free_pages_example :
    (m'' : Mm) × (free_pages 2 1 taken_block ≡ some m'')
    × IsValid m''
    × ((p : ℕ) → cover m'' p ≡ cover one_block p)
    × ((p : ℕ) → m''.ref p + same p 2 ≡ 0 + inside (2 ^ 1) 2 p)
alloc_pages-free_pages_example =
    alloc_pages-free_pages 1 2 one_block taken_block (omega arith) one_block-IsValid
      taken_block-page refl
