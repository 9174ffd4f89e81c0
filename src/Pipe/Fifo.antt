-- ===== src/Pipe/Fifo.antt =====
-- The pipe of src/pipe.cc under readers and writers that interleave. A reader is at one of three
-- places in `get_char`: past `m_item.down()`, or past the locked part and before `m_space.up()`; a
-- writer likewise.
use babyos.Prelude.{
  ℕ, suc, ◌+◌, ◌-◌, ◌%◌, ◌≤◌, ◌<◌, ◌≡◌, refl, ap, sym, ◌∙◌, Bool, true, false, Option, none, some,
  List, [], ◌∷◌, ◌++◌, append_assoc, subst, ltb, ltb→lt, if◌then◌else◌, get_or, set, length,
  length-set, arith, Option-cases, inl, inr,
}
use babyos.Ring.{contents, contents-mod, contents-set, length-contents}
use babyos.Pipe.{Pipe, pipe_buf_size, init, get_locked, put_locked}

pub record System : Type 0 where
  pub pipe : Pipe
  pub getting : ℕ
  pub got : ℕ
  pub putting : ℕ
  pub put : ℕ
  -- the bytes that writers have stored and readers have taken, in order
  pub sent : List ℕ
  pub received : List ℕ

pub data Event : Type 0 where
  get_down get_critical get_up put_down put_up : Event
  put_critical : ℕ → Event

abbrev pub add_received : Option ℕ → List ℕ → List ℕ
add_received none l = l
add_received (some ch) l = l ++ (ch ∷ [])

abbrev pub add_sent : Bool → ℕ → List ℕ → List ℕ
add_sent true ch l = l ++ (ch ∷ [])
add_sent false ch l = l

-- One move of one reader or writer; `none` if nobody is there to make it.
unfoldable pub step : Event → System → Option System
step get_down s =
    if ltb 0 s.pipe.item
    then some
        (record s { pipe = record s.pipe { item = s.pipe.item - 1 }; getting = s.getting + 1 })
    else none
step get_critical s =
    let (ret, p) = get_locked s.pipe in
    if ltb 0 s.getting
    then some (record s {
      pipe = p;
      getting = s.getting - 1;
      got = s.got + 1;
      received = add_received ret s.received;
    })
    else none
step get_up s =
    if ltb 0 s.got
    then some (record s { pipe = record s.pipe { space = s.pipe.space + 1 }; got = s.got - 1 })
    else none
step put_down s =
    if ltb 0 s.pipe.space
    then some
        (record s { pipe = record s.pipe { space = s.pipe.space - 1 }; putting = s.putting + 1 })
    else none
step (put_critical ch) s =
    let (ret, p) = put_locked ch s.pipe in
    if ltb 0 s.putting
    then some (record s {
      pipe = p;
      putting = s.putting - 1;
      put = s.put + 1;
      sent = add_sent ret ch s.sent;
    })
    else none
step put_up s =
    if ltb 0 s.put
    then some (record s { pipe = record s.pipe { item = s.pipe.item + 1 }; put = s.put - 1 })
    else none

unfoldable pub run : List Event → System → Option System
run [] s = some s
run (e ∷ es) s = elim (step e s) [ none ↦ none | some s' ↦ run es s' ]

unfoldable pub start : List ℕ → System
start buffer = record {
  pipe = init buffer;
  getting = 0;
  got = 0;
  putting = 0;
  put = 0;
  sent = [];
  received = [];
}

-- The bytes stored and not yet taken.
abbrev pub filled : System → ℕ
filled s = s.pipe.item + s.getting + s.put

abbrev pub pending : System → List ℕ
pending s = contents s.pipe.buffer pipe_buf_size s.pipe.read_index (filled s)

pub record IsValid (s : System) : Type 0 where
  pub storage : length s.pipe.buffer ≡ pipe_buf_size
  pub read_in : s.pipe.read_index < pipe_buf_size
  pub write_at : s.pipe.write_index ≡ (s.pipe.read_index + filled s) % pipe_buf_size
  pub credits : filled s + s.pipe.space + s.putting + s.got ≡ pipe_buf_size
  pub open_read : s.pipe.readable ≡ true
  pub open_write : s.pipe.writable ≡ true
  pub fifo : s.sent ≡ s.received ++ pending s

-- A guarded move that was made had its guard.
guarded :
    (b : Bool) (x : System) {s' : System}
    → (if b then some x else none) ≡ some s'
    → (b ≡ true) × (x ≡ s')
guarded true x e = (refl, cc)
guarded false x e = cc

module _ (s : System) (v : IsValid s) where
  open s use {pipe, sent, received}
  open pipe use {buffer, read_index, write_index, item, space}

  -- Moves that only pass a credit on.
  same_pending :
      (n : ℕ) → n ≡ filled s → sent ≡ received ++ contents buffer pipe_buf_size read_index n
  same_pending n e =
      v.fifo ∙ ap (λ k. received ++ contents buffer pipe_buf_size read_index k) (sym e)

  pub get_down-IsValid :
      0 < item
      → IsValid (record s { pipe = record pipe { item = item - 1 }; getting = s.getting + 1 })
  get_down-IsValid h = record {
    storage = v.storage;
    read_in = v.read_in;
    write_at = v.write_at ∙ ap (λ k. (read_index + k) % pipe_buf_size) (omega arith);
    credits = omega (arith, v.credits);
    open_read = v.open_read;
    open_write = v.open_write;
    fifo = same_pending _ (omega arith);
  }

  pub put_up-IsValid :
      0 < s.put → IsValid (record s { pipe = record pipe { item = item + 1 }; put = s.put - 1 })
  put_up-IsValid h = record {
    storage = v.storage;
    read_in = v.read_in;
    write_at = v.write_at ∙ ap (λ k. (read_index + k) % pipe_buf_size) (omega arith);
    credits = omega (arith, v.credits);
    open_read = v.open_read;
    open_write = v.open_write;
    fifo = same_pending _ (omega arith);
  }

  pub space_moved :
      (n m l : ℕ)
      → filled s + n + m + l ≡ pipe_buf_size
      → IsValid (record s { pipe = record pipe { space = n }; putting = m; got = l })
  space_moved n m l e = record {
    storage = v.storage;
    read_in = v.read_in;
    write_at = v.write_at;
    credits = e;
    open_read = v.open_read;
    open_write = v.open_write;
    fifo = v.fifo;
  }

  -- A reader's locked part takes the oldest byte.
  oldest :
      (n : ℕ)
      → filled s ≡ suc n
      → sent
        ≡ (received ++ (get_or buffer read_index 0 ∷ []))
          ++ contents buffer pipe_buf_size ((read_index + 1) % pipe_buf_size) n
  oldest n e =
      v.fifo
      ∙ ap (λ k. received ++ contents buffer pipe_buf_size read_index k) e
      ∙ ap (λ l. received ++ l) front
      ∙ sym (append_assoc received (get_or buffer read_index 0 ∷ []) _)
    where
      at : read_index % pipe_buf_size ≡ read_index
      at = omega (arith, v.read_in)

      front :
          contents buffer pipe_buf_size read_index (suc n)
          ≡ get_or buffer read_index 0
            ∷ contents buffer pipe_buf_size ((read_index + 1) % pipe_buf_size) n
      front = rw at (
          ap (λ l. get_or buffer read_index 0 ∷ l)
            (contents-mod buffer pipe_buf_size (read_index + 1) ((read_index + 1) % pipe_buf_size) n
              (omega arith)))

  pub get_critical-IsValid :
      0 < s.getting
      → IsValid (record s {
        pipe = (get_locked pipe).1;
        getting = s.getting - 1;
        got = s.got + 1;
        received = add_received (get_locked pipe).0 received;
      })
  unfolding get_locked
  get_critical-IsValid h = rw v.open_read (record {
    storage = v.storage;
    read_in = omega arith;
    write_at = v.write_at ∙ omega arith;
    credits = omega (arith, v.credits);
    open_read = refl;
    open_write = v.open_write;
    fifo = oldest (item + (s.getting - 1) + s.put) (omega arith);
  })

  -- A writer's locked part stores behind the youngest byte, and overwrites none.
  pub put_critical-IsValid :
      (ch : ℕ)
      → 0 < s.putting
      → IsValid (record s {
        pipe = (put_locked ch pipe).1;
        putting = s.putting - 1;
        put = s.put + 1;
        sent = add_sent (put_locked ch pipe).0 ch sent;
      })
  unfolding put_locked
  put_critical-IsValid ch h = rw v.open_write (record {
    storage = length-set buffer write_index ch ∙ v.storage;
    read_in = v.read_in;
    write_at = omega (arith, v.write_at);
    credits = omega (arith, v.credits);
    open_read = v.open_read;
    open_write = refl;
    fifo = youngest;
  })
    where
      count : item + s.getting + (s.put + 1) ≡ suc (filled s)
      count = omega arith

      youngest :
          sent ++ (ch ∷ [])
          ≡ received
            ++ contents
                (set buffer write_index ch)
                pipe_buf_size
                read_index
                (item + s.getting + (s.put + 1))
      youngest =
          rw
            (
              count,
              contents-set buffer pipe_buf_size read_index (filled s) write_index ch (omega arith)
                  (omega (arith, v.storage)) (omega (arith, v.credits)) v.write_at,
            )
            (ap (λ l. l ++ (ch ∷ [])) v.fifo ∙ append_assoc received (pending s) (ch ∷ []))

pub step-IsValid : (e : Event) (s s' : System) → IsValid s → step e s ≡ some s' → IsValid s'
unfolding step
step-IsValid get_down s s' v e =
    let (g, same) = guarded _ _ e in subst IsValid same (get_down-IsValid s v (ltb→lt _ _ g))
step-IsValid get_critical s s' v e =
    let (g, same) = guarded _ _ e in subst IsValid same (get_critical-IsValid s v (ltb→lt _ _ g))
step-IsValid get_up s s' v e =
    let (g, same) = guarded _ _ e in
    subst IsValid same (space_moved s v _ _ _ (omega (arith, v.credits, ltb→lt _ _ g)))
step-IsValid put_down s s' v e =
    let (g, same) = guarded _ _ e in
    subst IsValid same (space_moved s v _ _ _ (omega (arith, v.credits, ltb→lt _ _ g)))
step-IsValid (put_critical ch) s s' v e =
    let (g, same) = guarded _ _ e in subst IsValid same (put_critical-IsValid s v ch (ltb→lt _ _ g))
step-IsValid put_up s s' v e =
    let (g, same) = guarded _ _ e in subst IsValid same (put_up-IsValid s v (ltb→lt _ _ g))

run-IsValid : (es : List Event) (s s' : System) → IsValid s → run es s ≡ some s' → IsValid s'
unfolding run
run-IsValid [] s s' v e = subst IsValid (cc) v
run-IsValid (x ∷ es) s s' v e = elim (Option-cases (step x s)) [
  | inl f ↦ absurd (none_ne (rw (f, run) at e))
  | inr (t, f) ↦ run-IsValid es t s' (step-IsValid x s t v f) (rw (f, run) at e)
]
  where
    none_ne : ◌≡◌ {A = Option System} none (some s') → ⊥
    none_ne q = cc

pub start-IsValid : (buffer : List ℕ) → length buffer ≡ pipe_buf_size → IsValid (start buffer)
unfolding start init
start-IsValid buffer h = record {
  storage = h;
  read_in = omega arith;
  write_at = refl;
  credits = refl;
  open_read = refl;
  open_write = refl;
  fifo = refl;
}

-- Whatever readers and writers do, in whatever order, on an open pipe: the bytes taken are the first
-- of the bytes stored, in order, and those still stored, 512 at most, are the rest.
pub run_fifo :
    (buffer : List ℕ) (es : List Event) (s : System)
    → length buffer ≡ pipe_buf_size
    → run es (start buffer) ≡ some s
    → (s.sent ≡ s.received ++ pending s) × (length (pending s) ≤ pipe_buf_size)
run_fifo buffer es s h e =
    let v = run-IsValid es (start buffer) s (start-IsValid buffer h) e in
    (
      v.fifo,
      omega (
        arith,
        v.credits,
        length-contents s.pipe.buffer pipe_buf_size s.pipe.read_index (filled s),
      ),
    )
