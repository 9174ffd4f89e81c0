-- ===== src/Net/Pool.antt =====
-- The pools of buffers of src/net.cc: what is taken comes back.
use babyos.Prelude.{
  ℕ, ◌≤◌, ◌<◌, ◌≡◌, ◌⊎◌, inl, inr, refl, ◌∙◌, ap, true, false, Bool-cases, Option, none, some, List,
  [], ◌∷◌, arith, if_true, if_false, ◌==◌, ltb,
}
use babyos.Net.{
  Pools, net_buf_data_size, ext_buf_size, alloc_ext_buffer, free_ext_buffer, free_ext, init_buf,
  alloc_locked, alloc_net_buffer, find, free_net_buffer,
}

init_buf_self : (buf : ℕ) (ext : Option ℕ) (exts : ℕ → Option ℕ) → init_buf buf ext exts buf ≡ ext
unfolding init_buf
init_buf_self buf ext exts =
    if_true ext (exts buf) (let t : (buf == buf) ≡ true = ground arith in t)

abbrev pub pools : List ℕ → List ℕ → (ℕ → Option ℕ) → Pools
pools nets exts owned = record { net_buffers = nets; ext_buffers = exts; ext_data = owned }

-- The buffer is freed and both pools are as before it was taken.
abbrev pub Restores : ℕ → Pools → Pools → Type 0
Restores buf p p' =
    (p'' : Pools) × (free_net_buffer buf p' ≡ some p'')
    × (p''.net_buffers ≡ p.net_buffers)
    × (p''.ext_buffers ≡ p.ext_buffers)

restored :
    (buf : ℕ) (rest exts : List ℕ) (owned : ℕ → Option ℕ) (ext : Option ℕ)
    → find buf rest ≡ false
    → Restores buf
        (pools (buf ∷ rest) (free_ext ext exts) owned)
        (pools rest exts (init_buf buf ext owned))
unfolding free_net_buffer
restored buf rest exts owned ext f =
    (_, if_false _ _ f, refl, ap (λ o. free_ext o exts) (init_buf_self buf ext owned))

-- Over a pool with a buffer, `alloc_net_buffer` either returns NULL and changes nothing, and then
-- the length is too large or it needs an external buffer and there is none, or it returns the first
-- buffer, and freeing that one puts both pools back as they were.
alloc-free_net_buffer :
    (len buf : ℕ) (rest exts : List ℕ) (owned : ℕ → Option ℕ)
    → find buf rest ≡ false
    → (let p = pools (buf ∷ rest) exts owned in
        ((alloc_net_buffer len p ≡ (none, p))
          × ((ext_buf_size < len) ⊎ ((net_buf_data_size < len) × (exts ≡ []))))
        ⊎ ((len ≤ ext_buf_size)
            × (p' : Pools) × (alloc_net_buffer len p ≡ (some buf, p'))
            × Restores buf p p'))
unfolding alloc_net_buffer alloc_locked alloc_ext_buffer free_ext_buffer
alloc-free_net_buffer len buf rest [] owned f = elim (Bool-cases (ltb ext_buf_size len)) [
  | inl t ↦ inl (if_true _ _ t, inl (ground arith))
  | inr t ↦ elim (Bool-cases (ltb net_buf_data_size len)) [
    | inl n ↦ inl (if_false _ _ t ∙ if_true _ _ n, inr (ground arith, refl))
    | inr n ↦
        inr (ground arith, _, if_false _ _ t ∙ if_false _ _ n, restored buf rest [] owned none f)
  ]
]
alloc-free_net_buffer len buf rest (e ∷ left) owned f = elim (Bool-cases (ltb ext_buf_size len)) [
  | inl t ↦ inl (if_true _ _ t, inl (ground arith))
  | inr t ↦ elim (Bool-cases (ltb net_buf_data_size len)) [
    | inl n ↦
        inr
          (ground arith, _, if_false _ _ t ∙ if_true _ _ n, restored buf rest left owned (some e) f)
    | inr n ↦ inr (
      ground arith,
      _,
      if_false _ _ t ∙ if_false _ _ n,
      restored buf rest (e ∷ left) owned none f,
    )
  ]
]
