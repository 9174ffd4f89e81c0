-- ===== src/BlockDev/Held.antt =====
-- A buffer of src/block_dev.cc from `read` to `release_block`.
use babyos.Prelude.{
  code, ℕ, ◌+◌, ◌≤◌, ◌≡◌, ◌≢◌, ◌⊎◌, inl, inr, refl, ◌∙◌, sym, ap, subst, true, false, none, some,
  List, [], ◌∷◌, ◌++◌, ◌==◌, if_true, if_false, ℕ_discrete, Option-cases, Bool-cases, arith, length,
}
use babyos.BlockDev.{
  Buf, BlockDev, put, find_used, claim, recycle, get_block, release_block, read_request, read,
}

abbrev pub Mem : ℕ → List ℕ → Type 0
Mem b [] = ⊥
Mem b (x ∷ rest) = (b ≡ x) ⊎ Mem b rest

pub put_self : {A : Type 0} (f : ℕ → A) (i : ℕ) (a : A) → put f i a i ≡ a
unfolding put
put_self f i a = if_true a (f i) (ground arith)

pub put_ne : {A : Type 0} (f : ℕ → A) (i : ℕ) (a : A) (j : ℕ) → j ≢ i → put f i a j ≡ f j
unfolding put
put_ne f i a j h = if_false a (f j) (ground arith)

-- A cached buffer that holds what the disk holds.
pub record Cached (disk : ℕ → ℕ → ℕ) (x : Buf) : Type 0 where
  pub done : x.done ≡ true
  pub holds : x.bytes ≡ disk x.lba

-- Every used buffer holds what the disk holds, two used buffers never hold the same block, and there
-- is a buffer at all.
pub record IsValid (d : BlockDev) : Type 0 where
  pub cached : (b : ℕ) → Mem b d.used_list → Cached d.disk (d.bufs b)
  pub apart :
      (b c : ℕ) → Mem b d.used_list → Mem c d.used_list → (d.bufs b).lba ≡ (d.bufs c).lba → b ≡ c
  pub some_buf : 1 ≤ length d.used_list + length d.free_list

-- The device while the caller has a buffer.
pub record Held (b lba : ℕ) (d : BlockDev) : Type 0 where
  pub own : Cached d.disk (d.bufs b)
  pub own_lba : (d.bufs b).lba ≡ lba
  pub cached : (c : ℕ) → Mem c d.used_list → c ≢ b → Cached d.disk (d.bufs c)
  pub other_lba : (c : ℕ) → Mem c d.used_list → c ≢ b → (d.bufs c).lba ≢ lba
  pub apart :
      (c c' : ℕ)
      → Mem c d.used_list
      → Mem c' d.used_list
      → c ≢ b
      → c' ≢ b
      → (d.bufs c).lba ≡ (d.bufs c').lba
      → c ≡ c'

Mem-append : (b c : ℕ) (l : List ℕ) → Mem b (l ++ c ∷ []) → Mem b l ⊎ (b ≡ c)
Mem-append b c [] (inl e) = inr e
Mem-append b c [] (inr m) = elim m [ ]
Mem-append b c (x ∷ rest) (inl e) = inl (inl e)
Mem-append b c (x ∷ rest) (inr m) = elim (Mem-append b c rest m) [
  | inl m' ↦ inl (inr m')
  | inr e ↦ inr e
]

length-append_one : (b : ℕ) (l : List ℕ) → length (l ++ b ∷ []) ≡ length l + 1
length-append_one b [] = refl
length-append_one b (x ∷ rest) = omega (arith, length-append_one b rest)

pub release_block-IsValid : (b lba : ℕ) (d : BlockDev) → Held b lba d → IsValid (release_block b d)
unfolding release_block
release_block-IsValid b lba d h = record {
  cached = λ c m. elim (ℕ_discrete c b) [
    | yes e ↦ subst (λ x. Cached d.disk (d.bufs x)) (sym e) h.own
    | no ne ↦ elim (Mem-append c b d.used_list m) [
      | inl m' ↦ h.cached c m' ne
      | inr e ↦ absurd (ne e)
    ]
  ];
  apart = λ c c' m m' q. elim (ℕ_discrete c b) [
    | yes e ↦ elim (ℕ_discrete c' b) [
      | yes e' ↦ e ∙ sym e'
      | no ne' ↦ absurd (elim (Mem-append c' b d.used_list m') [
        | inl k ↦ h.other_lba c' k ne' (sym q ∙ ap (λ x. (d.bufs x).lba) e ∙ h.own_lba)
        | inr k ↦ ne' k
      ])
    ]
    | no ne ↦ elim (ℕ_discrete c' b) [
      | yes e' ↦ absurd (elim (Mem-append c b d.used_list m) [
        | inl k ↦ h.other_lba c k ne (q ∙ ap (λ x. (d.bufs x).lba) e' ∙ h.own_lba)
        | inr k ↦ ne k
      ])
      | no ne' ↦ elim (Mem-append c b d.used_list m) [
        | inr k ↦ absurd (ne k)
        | inl k ↦ elim (Mem-append c' b d.used_list m') [
          | inr k' ↦ absurd (ne' k')
          | inl k' ↦ h.apart c c' k k' ne ne' q
        ]
      ]
    ]
  ];
  some_buf = omega (arith, length-append_one b d.used_list);
}

-- A buffer that is filled for a block that no used buffer holds.
filled-Held :
    (b lba : ℕ) (d : BlockDev)
    → ((c : ℕ) → Mem c d.used_list → Cached d.disk (d.bufs c))
    → ((c c' : ℕ)
        → Mem c d.used_list
        → Mem c' d.used_list
        → (d.bufs c).lba ≡ (d.bufs c').lba
        → c ≡ c')
    → ((c : ℕ) → Mem c d.used_list → (d.bufs c).lba ≢ lba)
    → Held b lba (read_request b (claim b lba d))
unfolding read_request claim
filled-Held b lba d cached apart missing =
    let d1 = claim b lba d in
    let b1 : (d1.bufs b) ≡ record (d.bufs b) { lba = lba; done = false } =
      put_self d.bufs b (record (d.bufs b) { lba = lba; done = false }) in
    let d2 = read_request b d1 in
    let b2 : (d2.bufs b) ≡ record (d1.bufs b) { done = true; bytes = d.disk (d1.bufs b).lba } =
      put_self d1.bufs b (record (d1.bufs b) { done = true; bytes = d.disk (d1.bufs b).lba }) in
    let other : (c : ℕ) → c ≢ b → d2.bufs c ≡ d.bufs c = λ c ne.
      put_ne d1.bufs b (record (d1.bufs b) { done = true; bytes = d.disk (d1.bufs b).lba }) c ne
      ∙ put_ne d.bufs b (record (d.bufs b) { lba = lba; done = false }) c ne in
    let lba2 : (d2.bufs b).lba ≡ lba = ap (λ x. x.lba) b2 ∙ ap (λ x. x.lba) b1 in
    record {
      own = record {
        done = ap (λ x. x.done) b2;
        holds = ap (λ x. x.bytes) b2 ∙ ap (λ x. d.disk x.lba) b1 ∙ ap d.disk (sym lba2);
      };
      own_lba = lba2;
      cached = λ c m ne. subst (λ x. Cached d.disk x) (sym (other c ne)) (cached c m);
      other_lba = λ c m ne q. missing c m (ap (λ x. x.lba) (sym (other c ne)) ∙ q);
      apart = λ c c' m m' ne ne' q.
          apart c c' m m' (ap (λ x. x.lba) (sym (other c ne)) ∙ q ∙ ap (λ x. x.lba) (other c' ne'));
    }

find_used-some :
    (lba : ℕ) (bufs : ℕ → Buf) (l : List ℕ) (b : ℕ)
    → find_used lba bufs l ≡ some b
    → Mem b l × ((bufs b).lba ≡ lba)
unfolding find_used
find_used-some lba bufs [] b h = absurd (omega (arith, ap code h))
find_used-some lba bufs (x ∷ rest) b h = elim (Bool-cases ((bufs x).lba == lba)) [
  | inl t ↦
      let h' : some x ≡ some b = rw t at h in
      let same : x ≡ b = omega (arith, ap code h') in
      (inl (sym same), subst (λ y. (bufs y).lba ≡ lba) same (ground arith))
  | inr t ↦
      let h' : find_used lba bufs rest ≡ some b = rw t at h in
      let (m, e) = find_used-some lba bufs rest b h' in (inr m, e)
]

find_used-none :
    (lba : ℕ) (bufs : ℕ → Buf) (l : List ℕ)
    → find_used lba bufs l ≡ none
    → (c : ℕ) → Mem c l
    → (bufs c).lba ≢ lba
unfolding find_used
find_used-none lba bufs [] h c m q = elim m [ ]
find_used-none lba bufs (x ∷ rest) h c m q = elim (Bool-cases ((bufs x).lba == lba)) [
  | inl t ↦ let h' : some x ≡ none = rw t at h in absurd (omega (arith, ap code h'))
  | inr t ↦
      let h' : find_used lba bufs rest ≡ none = rw t at h in
      elim m [
        | inl e ↦ absurd (ground (arith, ap (λ y. (bufs y).lba) e))
        | inr m' ↦ find_used-none lba bufs rest h' c m' q
      ]
]

claim-done : (b lba : ℕ) (d : BlockDev) → ((claim b lba d).bufs b).done ≡ false
unfolding claim
claim-done b lba d =
    ap (λ x. x.done) (put_self d.bufs b (record (d.bufs b) { lba = lba; done = false }))

read-recycle :
    (lba b : ℕ) (d d' : BlockDev)
    → find_used lba d.bufs d.used_list ≡ none
    → recycle lba d.free_list d.used_list d ≡ some (b, claim b lba d')
    → read lba d ≡ some (b, read_request b (claim b lba d'))
unfolding read get_block
read-recycle lba b d d' e r = rw (e, read, r, claim-done b lba d') refl

recycled :
    (lba : ℕ) (d : BlockDev)
    → IsValid d
    → find_used lba d.bufs d.used_list ≡ none
    → ((c : ℕ) → Mem c d.used_list → (d.bufs c).lba ≢ lba)
    → (free used : List ℕ) → d.free_list ≡ free
    → d.used_list ≡ used
    → (b : ℕ) × (d' : BlockDev) × (read lba d ≡ some (b, d')) × Held b lba d' × (d'.disk ≡ d.disk)
recycled lba d v e missing (b ∷ rest) used ef eu =
    let d1 : BlockDev = record d { free_list = rest } in
    let r : recycle lba d.free_list d.used_list d ≡ some (b, claim b lba d1) =
      ap (λ l. recycle lba l d.used_list d) ef ∙ (unfold recycle in refl) in
    (
      b,
      read_request b (claim b lba d1),
      read-recycle lba b d d1 e r,
      filled-Held b lba d1 v.cached v.apart missing,
      (unfold read_request claim in refl),
    )
recycled lba d v e missing [] (b ∷ rest) ef eu =
    let d1 : BlockDev = record d { used_list = rest } in
    let r : recycle lba d.free_list d.used_list d ≡ some (b, claim b lba d1) =
      ap (λ l. recycle lba l d.used_list d) ef
      ∙ ap (λ l. recycle lba [] l d) eu
      ∙ (unfold recycle in refl) in
    let old : (c : ℕ) → Mem c rest → Mem c d.used_list = λ c m. subst (Mem c) (sym eu) (inr m) in
    (
      b,
      read_request b (claim b lba d1),
      read-recycle lba b d d1 e r,
      filled-Held b lba d1 (λ c m. v.cached c (old c m))
          (λ c c' m m'. v.apart c c' (old c m) (old c' m')) (λ c m. missing c (old c m)),
      (unfold read_request claim in refl),
    )
recycled lba d v e missing [] [] ef eu =
    absurd (omega (arith, v.some_buf, ap (λ l. length l) ef, ap (λ l. length l) eu))

pub read-Held :
    (lba : ℕ) (d : BlockDev)
    → IsValid d
    → (b : ℕ) × (d' : BlockDev) × (read lba d ≡ some (b, d')) × Held b lba d' × (d'.disk ≡ d.disk)
unfolding read get_block
read-Held lba d v = elim (Option-cases (find_used lba d.bufs d.used_list)) [
  | inr (b, e) ↦
      let (m, same) = find_used-some lba d.bufs d.used_list b e in
      (
        b,
        d,
        rw (e, read, (v.cached b m).done) refl,
        record {
          own = v.cached b m;
          own_lba = same;
          cached = λ c k ne. v.cached c k;
          other_lba = λ c k ne q. ne (v.apart c b k m (q ∙ sym same));
          apart = λ c c' k k' ne ne' q. v.apart c c' k k' q;
        },
        refl,
      )
  | inl e ↦
      let missing = find_used-none lba d.bufs d.used_list e in
      recycled lba d v e missing d.free_list d.used_list refl refl
]
