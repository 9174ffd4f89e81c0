-- ===== src/Pipe/Stream.antt =====
-- A pipe of src/pipe.cc that one process uses at a time: what `write` puts in, `read` takes out.
use babyos.Prelude.{
  ℕ, suc, ◌+◌, ◌-◌, ◌≤◌, ◌<◌, ◌≡◌, refl, ap, sym, ◌∙◌, subst, true, false, none, some, List, [],
  ◌∷◌, ◌++◌, append_assoc, append-nil, length, ltb, lt→ltb, ltb→lt, arith, get_or, take, Bool-cases,
  inl, inr,
}
use babyos.Pipe.{
  Pipe, pipe_buf_size, done, asleep, get_locked, put_locked, get_char, put_char, read, write,
}
use babyos.Ring.{length-contents}
use babyos.Pipe.Fifo.{
  System, IsValid, add_sent, add_received, get_down-IsValid, get_critical-IsValid,
  put_critical-IsValid, put_up-IsValid, space_moved,
}

-- Nobody is inside `get_char` or `put_char`; the bytes stored are `queue`.
abbrev pub idle : Pipe → List ℕ → System
idle p queue = record {
  pipe = p;
  getting = 0;
  got = 0;
  putting = 0;
  put = 0;
  sent = queue;
  received = [];
}

abbrev pub Holds : Pipe → List ℕ → Type 0
Holds p queue = IsValid (idle p queue)

put_locked-open :
    (ch : ℕ) (p : Pipe)
    → p.writable ≡ true
    → ((put_locked ch p).0 ≡ true) × ((put_locked ch p).1.space ≡ p.space)
unfolding put_locked
put_locked-open ch p e = ground arith

get_locked-open :
    (p : Pipe)
    → p.readable ≡ true
    → ((get_locked p).0 ≡ some (get_or p.buffer p.read_index 0))
      × ((get_locked p).1.space ≡ p.space)
unfolding get_locked
get_locked-open p e = ground arith

-- With room, `put_char` appends its byte.
put_char-Holds :
    (ch : ℕ) (p : Pipe) (queue : List ℕ)
    → Holds p queue
    → 0 < p.space
    → (p' : Pipe) × (put_char ch p ≡ some (true, p'))
      × Holds p' (queue ++ (ch ∷ []))
      × (p'.space + 1 ≡ p.space)
unfolding put_char
put_char-Holds ch p queue v h = (
  after,
  rw (lt→ltb 0 p.space h) (ap (λ b. some (b, after)) (put_locked-open ch down v.open_write).0),
  subst (λ b. IsValid (record (idle after queue) { sent = add_sent b ch queue }))
      (put_locked-open ch down v.open_write).0 v3,
  omega (arith, (put_locked-open ch down v.open_write).1),
)
  where
    down : Pipe
    down = record p { space = p.space - 1 }

    after : Pipe
    after = record (put_locked ch down).1 { item = (put_locked ch down).1.item + 1 }

    v1 : IsValid (record (idle down queue) { putting = 1 })
    v1 = space_moved (idle p queue) v (p.space - 1) 1 0 (omega (arith, v.credits))

    v2 : IsValid (record (idle (put_locked ch down).1 queue) {
      put = 1;
      sent = add_sent (put_locked ch down).0 ch queue;
    })
    v2 = put_critical-IsValid _ v1 ch (omega arith)

    v3 : IsValid (record (idle after queue) { sent = add_sent (put_locked ch down).0 ch queue })
    v3 = put_up-IsValid _ v2 (omega arith)

-- With a byte stored, `get_char` takes the oldest.
get_char-Holds :
    (ch : ℕ) (p : Pipe) (queue : List ℕ)
    → Holds p (ch ∷ queue)
    → (p' : Pipe) × (get_char p ≡ some (some ch, p')) × Holds p' queue
unfolding get_char
get_char-Holds ch p queue v = (
  after,
  rw (lt→ltb 0 p.item some_item) (ap (λ o. some (o, after)) (read_byte ∙ ap some same_byte)),
  record {
    storage = v3.storage;
    read_in = v3.read_in;
    write_at = v3.write_at;
    credits = v3.credits;
    open_read = v3.open_read;
    open_write = v3.open_write;
    fifo = cc v3'.fifo;
  },
)
  where
    some_item : 0 < p.item
    some_item = omega (
      arith,
      ap length v.fifo,
      length-contents p.buffer pipe_buf_size p.read_index (p.item + 0 + 0),
    )

    down : Pipe
    down = record p { item = p.item - 1 }

    after : Pipe
    after = record (get_locked down).1 { space = (get_locked down).1.space + 1 }

    read_byte : (get_locked down).0 ≡ some (get_or p.buffer p.read_index 0)
    read_byte = (get_locked-open down v.open_read).0

    v1 : IsValid (record (idle down (ch ∷ queue)) { getting = 1 })
    v1 = get_down-IsValid (idle p (ch ∷ queue)) v some_item

    v2 : IsValid (record (idle (get_locked down).1 (ch ∷ queue)) {
      got = 1;
      received = add_received (get_locked down).0 [];
    })
    v2 = get_critical-IsValid _ v1 (omega arith)

    v3 :
        IsValid
          (record (idle after (ch ∷ queue)) { received = add_received (get_locked down).0 [] })
    v3 = space_moved _ v2 _ _ _ (omega (arith, v2.credits))

    v3' :
        IsValid
          (record (idle after (ch ∷ queue)) { received = get_or p.buffer p.read_index 0 ∷ [] })
    v3' =
        subst (λ o. IsValid (record (idle after (ch ∷ queue)) { received = add_received o [] }))
          read_byte v3

    same_byte : get_or p.buffer p.read_index 0 ≡ ch
    same_byte = cc v3'.fifo

-- `write` of bytes that there is room for stores them all, behind those already there.
write-Holds :
    (bytes : List ℕ) (p : Pipe) (queue : List ℕ)
    → Holds p queue
    → length bytes ≤ p.space
    → (p' : Pipe) × (write bytes p ≡ (length bytes, done, p')) × Holds p' (queue ++ bytes)
unfolding write
write-Holds [] p queue v h = (p, refl, rw append-nil v)
write-Holds (ch ∷ bytes) p queue v h =
    let (p', e, v', room) = put_char-Holds ch p queue v (omega arith) in
    let (p'', f, w) = write-Holds bytes p' (queue ++ (ch ∷ [])) v' (omega (arith, room)) in
    (p'', rw (e, write, f), subst (Holds p'') (append_assoc queue (ch ∷ []) bytes) w)

-- `read` of bytes that are stored takes them, oldest first.
read-Holds :
    (bytes : List ℕ) (p : Pipe) (queue : List ℕ)
    → Holds p (bytes ++ queue)
    → (p' : Pipe) × (read (length bytes) p ≡ (bytes, done, p')) × Holds p' queue
unfolding read
read-Holds [] p queue v = (p, refl, v)
read-Holds (ch ∷ bytes) p queue v =
    let (p', e, v') = get_char-Holds ch p (bytes ++ queue) v in
    let (p'', f, w) = read-Holds bytes p' queue v' in (p'', rw (e, read, f), w)

-- What is written to an open pipe with room for it is read back after what was there, in order, and
-- neither call sleeps or fails.
pub write-read :
    (bytes queue : List ℕ) (p : Pipe)
    → Holds p queue
    → length bytes ≤ p.space
    → let (n, status, p') = write bytes p in
      let (out, status', p'') = read (length (queue ++ bytes)) p' in
      (n ≡ length bytes)
      × (status ≡ done)
      × (out ≡ queue ++ bytes)
      × (status' ≡ done)
      × Holds p'' []
write-read bytes queue p v h =
    let (p', e, v') = write-Holds bytes p queue v h in
    let (p'', f, w) = read-Holds (queue ++ bytes) p' [] (rw append-nil v') in
    rw (e, f) (refl, refl, refl, refl, w)

-- A `write` of more bytes than there is room for stores as many as fit and then sleeps: it
-- overwrites nothing.
write_full :
    (bytes : List ℕ) (p : Pipe) (queue : List ℕ)
    → Holds p queue
    → p.space < length bytes
    → (p' : Pipe) × (write bytes p ≡ (p.space, asleep, p')) × Holds p' (queue ++ take p.space bytes)
unfolding write
write_full [] p queue v h = absurd (omega arith)
write_full (ch ∷ bytes) p queue v h = elim (Bool-cases (ltb 0 p.space)) [
  | inl e ↦
      let (p', f, v', room) = put_char-Holds ch p queue v (ltb→lt 0 p.space e) in
      let (p'', g, w) = write_full bytes p' (queue ++ (ch ∷ [])) v' (omega (arith, room)) in
      let one : p.space ≡ suc p'.space = omega (arith, room) in
      (
        p'',
        rw (f, write, g) (ap (λ n. (n, asleep, p'')) (sym one)),
        subst (λ n. Holds p'' (queue ++ take n (ch ∷ bytes))) (sym one)
            (subst (Holds p'') (append_assoc queue (ch ∷ []) (take p'.space bytes)) w),
      )
  | inr e ↦
      let empty : p.space ≡ 0 = ground arith in
      (
        p,
        rw (full e, write) (ap (λ n. (n, asleep, p)) (sym empty)),
        subst (λ n. Holds p (queue ++ take n (ch ∷ bytes))) (sym empty) (rw append-nil v),
      )
]
  where
    full : ltb 0 p.space ≡ false → put_char ch p ≡ none
    full e = unfold put_char in (rw e)
