-- ===== src/ObjectPool/Run.antt =====
-- What the pool of src/pool.cc hands out and takes back.
use babyos.Prelude.{
  ℕ, zero, suc, ◌+◌, ◌%◌, ◌≤◌, ◌≡◌, refl, ◌∙◌, sym, ap, subst, Bool, true, Bool-cases, ◌&&◌, ◌||◌,
  not, inl, inr, Option, none, some, ◌>>=◌, then_some, List, [], ◌∷◌, ◌++◌, ◌==◌, leb, length,
  if_true, if_false, page_size, u32_mod, arith,
}
use babyos.ObjectPool.{ObjectPool, free_object, cut, refilled, first_object, alloc_from_pool}
use babyos.ObjectPool.Separate.{
  separate, outside, member, remove, outside-apart, outside-further, separate-move, separate-back,
}

-- A pool and the objects that are in use.
pub record System : Type 0 where
  pub pool : ObjectPool
  pub used : List ℕ

-- An object is allocated, where a page would be found at `page`, or given back.
pub data Event : Type 0 where
  allocate : (page : ℕ) → Event
  give_back : (obj : ℕ) → Event

unfoldable pub step : Event → System → Option System
step (allocate page) s = do
  (obj, pool) ← alloc_from_pool page s.pool
  some (record { pool = pool; used = obj ∷ s.used })
step (give_back obj) s = some (record { pool = free_object obj s.pool; used = remove obj s.used })

unfoldable pub run : List Event → System → Option System
run [] s = some s
run (e ∷ es) s = step e s >>= run es

abbrev pub objects : System → List ℕ
objects s = s.pool.free_list ++ s.used

-- A page that is needed holds no object of the pool, and what is given back is in use.
abbrev pub allowed : Event → System → Bool
allowed (allocate page) s =
    not (length s.pool.free_list == 0)
    || outside s.pool.obj_size page (page + page_size) (objects s)
allowed (give_back obj) s = member obj s.used

abbrev pub after : List Event → Option System → Bool
after es none = true
after [] (some s) = true
after (e ∷ es) (some s) = allowed e s && after es (step e s)

pub record Sound (s : System) : Type 0 where
  pub link : 4 ≤ s.pool.obj_size
  pub fits : s.pool.obj_size ≤ page_size
  pub count : s.pool.available ≡ length s.pool.free_list % u32_mod
  pub apart : separate s.pool.obj_size (objects s) ≡ true

-- What a loop over a page leaves, where the page holds no object from `mem` on.
record Cut (pool : ObjectPool) (used : List ℕ) (pool' : ObjectPool) : Type 0 where
  size : pool'.obj_size ≡ pool.obj_size
  count : pool'.available ≡ length pool'.free_list % u32_mod
  apart : separate pool.obj_size (pool'.free_list ++ used) ≡ true

cut-Cut :
    (n mem end : ℕ) (pool : ObjectPool) (used : List ℕ)
    → pool.available ≡ length pool.free_list % u32_mod
    → separate pool.obj_size (pool.free_list ++ used) ≡ true
    → outside pool.obj_size mem end (pool.free_list ++ used) ≡ true
    → Cut pool used (cut n mem end pool)
unfolding cut free_object
cut-Cut zero mem end pool used c a o = record { size = refl; count = c; apart = a }
cut-Cut (suc n) mem end pool used c a o = elim (Bool-cases (leb (mem + pool.obj_size) end)) [
  | inl y ↦ subst (Cut pool used) (sym (if_true _ _ y)) (
      let size : ℕ = pool.obj_size in
      let all : List ℕ = pool.free_list ++ used in
      let further : outside size (mem + size) end (mem ∷ all) ≡ true =
        ground (arith, outside-further size mem end all o) in
      let r =
        cut-Cut n (mem + size) end (free_object mem pool) used (omega (arith, c))
          (ground (arith, a, outside-apart size mem end all (ground arith) o)) further in
      record { size = r.size; count = r.count; apart = r.apart })
  | inr y ↦
      subst (Cut pool used) (sym (if_false _ _ y)) (record { size = refl; count = c; apart = a })
]

cut-longer :
    (n mem end : ℕ) (pool : ObjectPool)
    → length pool.free_list ≤ length (cut n mem end pool).free_list
unfolding cut free_object
cut-longer zero mem end pool = omega arith
cut-longer (suc n) mem end pool =
    ground (arith, cut-longer n (mem + pool.obj_size) end (free_object mem pool))

cut-some :
    (n mem end : ℕ) (pool : ObjectPool)
    → leb (mem + pool.obj_size) end ≡ true
    → 1 ≤ length (cut (suc n) mem end pool).free_list
unfolding cut free_object
cut-some n mem end pool h =
    ground (arith, cut-longer n (mem + pool.obj_size) end (free_object mem pool), h)

-- A pool from which an object can be taken.
refilled-Cut :
    (page : ℕ) (s : System) (free : List ℕ)
    → s.pool.free_list ≡ free
    → Sound s
    → allowed (allocate page) s ≡ true
    → Cut s.pool s.used (refilled page s.pool free)
      × (1 ≤ length (refilled page s.pool free).free_list)
unfolding refilled
refilled-Cut page s [] e v a = (
  cut-Cut page_size page (page + page_size) s.pool s.used v.count v.apart (ground (arith, e, a)),
  cut-some 4095 page (page + page_size) s.pool (
      let t : leb (page + s.pool.obj_size) (page + page_size) ≡ true = ground (arith, v.fits) in t),
)
refilled-Cut page s (obj ∷ objs) e v a = (
  record { size = refl; count = v.count; apart = v.apart },
  subst (λ l. 1 ≤ length l) (sym e) (omega arith),
)

-- What is taken from the front of the list.
first_object-some :
    (pool : ObjectPool) (free : List ℕ)
    → 1 ≤ length free
    → pool.free_list ≡ free
    → pool.available ≡ length free % u32_mod
    → (obj : ℕ) × (pool' : ObjectPool) × (first_object pool free ≡ some (obj, pool'))
      × (pool'.obj_size ≡ pool.obj_size)
      × (free ≡ obj ∷ pool'.free_list)
      × (pool'.available ≡ length pool'.free_list % u32_mod)
unfolding first_object
first_object-some pool [] h e c = absurd (omega arith)
first_object-some pool (obj ∷ objs) h e c = (obj, _, refl, refl, refl, omega (arith, c))

step-Sound :
    (e : Event) (s : System)
    → Sound s
    → allowed e s ≡ true
    → (s' : System) × (step e s ≡ some s') × Sound s'
unfolding step alloc_from_pool free_object
step-Sound (allocate page) s v a =
    let (r, some_free) = refilled-Cut page s s.pool.free_list refl v a in
    let pool1 : ObjectPool = refilled page s.pool s.pool.free_list in
    let (obj, pool2, e, z, f, c) = first_object-some pool1 pool1.free_list some_free refl r.count in
    (
      record { pool = pool2; used = obj ∷ s.used },
      then_some _ _ _ e,
      record {
        link = subst (λ n. 4 ≤ n) (sym (z ∙ r.size)) v.link;
        fits = subst (λ n. n ≤ page_size) (sym (z ∙ r.size)) v.fits;
        count = c;
        apart =
            ap (λ n. separate n (pool2.free_list ++ obj ∷ s.used)) (z ∙ r.size)
            ∙ separate-move s.pool.obj_size obj pool2.free_list s.used
                (subst (λ l. separate s.pool.obj_size (l ++ s.used) ≡ true) f r.apart);
      },
    )
step-Sound (give_back obj) s v a = (
  _,
  refl,
  record {
    link = v.link;
    fits = v.fits;
    count = omega (arith, v.count);
    apart = separate-back s.pool.obj_size obj s.pool.free_list s.used a v.apart;
  },
)

-- Whatever is allocated and given back, from a pool whose objects have room for a link of four bytes and fit into a page, where
-- the pages that are found are free and what is given back is in use: each
-- call returns, the objects that are free or in use never overlap, and m_available is the number of the free ones, up to its wrap.
pub run-Sound :
    (es : List Event) (s : System)
    → Sound s
    → after es (some s) ≡ true
    → (s' : System) × (run es s ≡ some s') × Sound s'
unfolding run
run-Sound [] s v a = (s, refl, v)
run-Sound (e ∷ es) s v a =
    let (s1, e1, v1) = step-Sound e s v (ground arith) in
    let rest : after es (some s1) ≡ true =
      ap (after es) (sym e1) ∙ (let t : after es (step e s) ≡ true = ground arith in t) in
    let (s2, e2, v2) = run-Sound es s1 v1 rest in (s2, then_some _ _ _ e1 ∙ e2, v2)
