-- ===== src/ObjectPool.antt =====
-- Object pools: class object_pool_t of src/pool.h and src/pool.cc. The objects that are free are linked through their
-- first word; here they are the sequence of their addresses, which is the same for objects of four bytes at least: the links of
-- smaller ones overlap.  The page that `alloc_pages` returns is an argument.
pub mod Separate
pub mod Run
mod Tests
use babyos.Prelude.{
  ℕ, zero, suc, ◌+◌, ◌-◌, Bool, true, false, Option, none, some, List, [], ◌∷◌, leb, if◌then◌else◌,
  page_size, add32, sub32,
}

pub record ObjectPool : Type 0 where
  pub obj_size : ℕ
  pub available : ℕ
  pub free_list : List ℕ

-- `init` for a size that is not 0
unfoldable pub init : ℕ → ObjectPool
init obj_size = record { obj_size = obj_size; available = 0; free_list = [] }

-- `free_object_nolock`
unfoldable pub free_object : ℕ → ObjectPool → ObjectPool
free_object obj pool = record pool {
  available = add32 pool.available 1;
  free_list = obj ∷ pool.free_list;
}

-- The loop that cuts a page into objects, for at most `n` of them
unfoldable pub cut : ℕ → ℕ → ℕ → ObjectPool → ObjectPool
cut zero mem end pool = pool
cut (suc n) mem end pool =
    let later = cut n (mem + pool.obj_size) end (free_object mem pool) in
    if leb (mem + pool.obj_size) end then later else pool

unfoldable pub refilled : ℕ → ObjectPool → List ℕ → ObjectPool
refilled page pool [] = cut page_size page (page + page_size) pool
refilled page pool (obj ∷ objs) = pool

unfoldable pub first_object : ObjectPool → List ℕ → Option (ℕ × ObjectPool)
first_object pool [] = none
first_object pool (obj ∷ objs) =
    some (obj, record pool { available = sub32 pool.available 1; free_list = objs })

-- `alloc_from_pool`; `none` where it reads through NULL
unfoldable pub alloc_from_pool : ℕ → ObjectPool → Option (ℕ × ObjectPool)
alloc_from_pool page pool =
    let pool' = refilled page pool pool.free_list in first_object pool' pool'.free_list
