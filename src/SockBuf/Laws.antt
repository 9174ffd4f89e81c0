-- ===== src/SockBuf/Laws.antt =====
-- What goes through a socket's buffer of src/sock_ring_buffer.cc.
use babyos.Prelude.{
  ℕ, zero, suc, ◌+◌, ◌-◌, ◌%◌, ◌≤◌, ◌<◌, ◌≡◌, refl, ap, sym, ◌∙◌, true, false, List, [], ◌∷◌, ◌++◌,
  ◌⊎◌, inl, inr, subst, Bool-cases, ltb→lt, if_true, if_false, append_assoc, append-nil, length,
  length-append, take, drop, set, get_or, ltb, lt→ltb, ◌==◌, arith, u32_mod, length-set,
}
use native.Mathlib.Nat.{mod-lt, mod-add-mod, mod-eq_of_lt}
use babyos.Ring.{contents, contents-mod, contents-set}
use babyos.SockBuf.{
  SockBuf, done, failed, front, take_front, store_back, get_loop, get_data, put_loop, put_data,
}

-- The buffer of a connected socket holds `queue`, and `lost` of the downs for its bytes are spent.
pub record Holds (lost : ℕ) (b : SockBuf) (queue : List ℕ) : Type 0 where
  pub connected : b.connected ≡ true
  pub some_room : 0 < b.length
  pub no_wrap : b.length < u32_mod
  pub storage : length b.buffer ≡ b.length
  pub read_in : b.read_index < b.length
  pub write_at : b.write_index ≡ (b.read_index + length queue) % b.length
  pub room : b.left + length queue ≡ b.length
  pub space : b.wait_space ≡ b.left
  pub items : b.wait_item + lost ≡ length queue
  pub stored : contents b.buffer b.length b.read_index (length queue) ≡ queue

take_front-Holds :
    (ch : ℕ) (b : SockBuf) (queue : List ℕ)
    → Holds 1 b (ch ∷ queue)
    → (front b ≡ ch) × Holds 0 (take_front b) queue
unfolding take_front
take_front-Holds ch b queue v = (
  sym byte ∙ cc both,
  record {
    connected = v.connected;
    some_room = v.some_room;
    no_wrap = v.no_wrap;
    storage = v.storage;
    read_in = mod-lt (b.read_index + 1) v.some_room;
    write_at =
        v.write_at
        ∙ ap (λ k. k % b.length) (omega arith)
        ∙ sym (mod-add-mod (b.read_index + 1) b.length (length queue));
    room = omega (arith, v.room, v.no_wrap);
    space = omega (arith, v.space, v.room, v.no_wrap);
    items = omega (arith, v.items);
    stored =
        contents-mod b.buffer b.length ((b.read_index + 1) % b.length) (b.read_index + 1)
          (length queue) (mod-eq_of_lt (mod-lt (b.read_index + 1) v.some_room))
        ∙ cc both;
  },
)
  where
    byte : get_or b.buffer (b.read_index % b.length) 0 ≡ front b
    byte = ap (λ k. get_or b.buffer k 0) (mod-eq_of_lt v.read_in)

    both :
        (get_or b.buffer (b.read_index % b.length) 0
          ∷ contents b.buffer b.length (b.read_index + 1) (length queue))
        ≡ ch ∷ queue
    both = v.stored

store_back-Holds :
    (ch : ℕ) (b : SockBuf) (queue : List ℕ)
    → Holds 0 b queue
    → 0 < b.left
    → Holds 0
        (record (store_back ch b) { wait_item = b.wait_item + 1; wait_space = b.wait_space - 1 })
        (queue ++ (ch ∷ []))
unfolding store_back
store_back-Holds ch b queue v h = record {
  connected = v.connected;
  some_room = v.some_room;
  no_wrap = v.no_wrap;
  storage = length-set b.buffer b.write_index ch ∙ v.storage;
  read_in = v.read_in;
  write_at =
      ap (λ k. (k + 1) % b.length) v.write_at
      ∙ mod-add-mod (b.read_index + length queue) b.length 1
      ∙ ap (λ k. k % b.length) (omega (arith, longer));
  room = omega (arith, v.room, v.no_wrap, longer);
  space = omega (arith, v.space, v.room, v.no_wrap);
  items = omega (arith, v.items, longer);
  stored =
      ap (contents (set b.buffer b.write_index ch) b.length b.read_index) longer
      ∙ contents-set b.buffer b.length b.read_index (length queue) b.write_index ch v.some_room
          (omega (arith, v.storage)) (omega (arith, v.room)) v.write_at
      ∙ ap (λ l. l ++ (ch ∷ [])) v.stored;
}
  where
    longer : length (queue ++ (ch ∷ [])) ≡ suc (length queue)
    longer = omega (arith, length-append queue (ch ∷ []))

-- A byte is taken and the down for the next one is made.
down-Holds :
    (b : SockBuf) (queue : List ℕ)
    → Holds 0 b queue
    → 0 < b.wait_item
    → Holds 1 (record b { wait_item = b.wait_item - 1 }) queue
down-Holds b queue v h = record {
  connected = v.connected;
  some_room = v.some_room;
  no_wrap = v.no_wrap;
  storage = v.storage;
  read_in = v.read_in;
  write_at = v.write_at;
  room = v.room;
  space = v.space;
  items = omega (arith, v.items);
  stored = v.stored;
}

-- The loop empties a buffer that holds no more than is asked for.
get_loop-drain :
    (n : ℕ) (b : SockBuf) (ch : ℕ) (queue : List ℕ)
    → Holds 1 b (ch ∷ queue)
    → length queue < n
    → (b' : SockBuf) × (get_loop n b ≡ (ch ∷ queue, done, b')) × Holds 0 b' []
unfolding get_loop
get_loop-drain zero b ch queue v h = absurd (omega arith)
get_loop-drain (suc n) b ch [] v h =
    let (byte, w) = take_front-Holds ch b [] v in (take_front b, rw (full w, byte), w)
  where
    full : Holds 0 (take_front b) [] → ((take_front b).left == (take_front b).length) ≡ true
    full w = ground (arith, w.room)
get_loop-drain (suc n) b ch (next ∷ queue) v h =
    let (byte, w) = take_front-Holds ch b (next ∷ queue) v in
    let (b', e, w') =
      get_loop-drain n _ next queue (down-Holds _ _ w (omega (arith, w.items))) (omega arith) in
    (b', rw (part w, lt→ltb 0 (take_front b).wait_item (omega (arith, w.items)), byte, e), w')
  where
    part :
        Holds 0 (take_front b) (next ∷ queue)
        → ((take_front b).left == (take_front b).length) ≡ false
    part w = ground (arith, w.room)

-- Asked for fewer bytes than there are, the loop takes the first of them, and keeps the down that it
-- has made for the next one.
get_loop-part :
    (n : ℕ) (b : SockBuf) (ch : ℕ) (queue : List ℕ)
    → Holds 1 b (ch ∷ queue)
    → n ≤ length queue
    → (b' : SockBuf) × (get_loop n b ≡ (take n (ch ∷ queue), done, b'))
      × Holds 1 b' (drop n (ch ∷ queue))
unfolding get_loop
get_loop-part zero b ch queue v h = (b, refl, v)
get_loop-part (suc n) b ch [] v h = absurd (omega arith)
get_loop-part (suc n) b ch (next ∷ queue) v h =
    let (byte, w) = take_front-Holds ch b (next ∷ queue) v in
    let (b', e, w') =
      get_loop-part n _ next queue (down-Holds _ _ w (omega (arith, w.items))) (omega arith) in
    (b', rw (part w, lt→ltb 0 (take_front b).wait_item (omega (arith, w.items)), byte, e), w')
  where
    part :
        Holds 0 (take_front b) (next ∷ queue)
        → ((take_front b).left == (take_front b).length) ≡ false
    part w = ground (arith, w.room)

put_loop-Holds :
    (bytes : List ℕ) (b : SockBuf) (queue : List ℕ)
    → Holds 0 b queue
    → length bytes ≤ b.left
    → (b' : SockBuf) × (put_loop bytes b ≡ (length bytes, done, b')) × Holds 0 b' (queue ++ bytes)
unfolding put_loop store_back
put_loop-Holds [] b queue v h = (b, refl, rw append-nil v)
put_loop-Holds (ch ∷ bytes) b queue v h =
    let w = store_back-Holds ch b queue v (omega arith) in
    let (b', e, w') = put_loop-Holds bytes _ (queue ++ (ch ∷ [])) w (omega (arith, left)) in
    (
      b',
      if_true _ _ room ∙ ap (λ more. (suc more.0, more.1, more.2)) e,
      subst (Holds 0 b') (append_assoc queue (ch ∷ []) bytes) w',
    )
  where
    left : (store_back ch b).left + 1 ≡ b.left
    left = omega (arith, v.room, v.no_wrap)

    room : ltb 0 (store_back ch b).wait_space ≡ true
    room = lt→ltb 0 b.wait_space (omega (arith, v.space))

-- On a buffer of a connected socket whose indexes and counts agree with what it holds: `put_data` of bytes that fit
-- stores them all behind those that are there and never sleeps; of more bytes it stores none and fails.
pub put_data_all_or_none :
    (bytes : List ℕ) (b : SockBuf) (queue : List ℕ)
    → Holds 0 b queue
    → ((length bytes ≤ b.left)
        × (b' : SockBuf) × (put_data bytes b ≡ (length bytes, done, b'))
        × Holds 0 b' (queue ++ bytes))
      ⊎ ((b.left < length bytes) × (put_data bytes b ≡ (0, failed, b)))
unfolding put_data
put_data_all_or_none bytes b queue v = elim (Bool-cases (ltb b.left (length bytes))) [
  | inl e ↦ inr (ltb→lt _ _ e, rw e)
  | inr e ↦
      let (b', f, w) = put_loop-Holds bytes b queue v (ground arith) in
      inl (ground arith, b', if_false _ _ e ∙ if_true _ _ v.connected ∙ f, w)
]

-- `get_data` that asks for at least what is there returns all of it, in order, does not sleep, and
-- leaves the buffer empty.
pub get_data_drains :
    (max : ℕ) (b : SockBuf) (ch : ℕ) (queue : List ℕ)
    → Holds 0 b (ch ∷ queue)
    → length queue < max
    → (b' : SockBuf) × (get_data max b ≡ (ch ∷ queue, done, b')) × Holds 0 b' []
unfolding get_data
get_data_drains max b ch queue v h =
    let some_item : 0 < b.wait_item = omega (arith, v.items) in
    let (b', e, w) = get_loop-drain max _ ch queue (down-Holds b (ch ∷ queue) v some_item) h in
    (b', if_true _ _ (lt→ltb 0 b.wait_item some_item) ∙ if_true _ _ v.connected ∙ e, w)

-- `get_data` that asks for fewer bytes than there are returns the first of them, and has made one
-- down too many: the semaphore lets one down fewer return than there are bytes left.
get_data_loses_item :
    (max : ℕ) (b : SockBuf) (ch : ℕ) (queue : List ℕ)
    → Holds 0 b (ch ∷ queue)
    → max ≤ length queue
    → (b' : SockBuf) × (get_data max b ≡ (take max (ch ∷ queue), done, b'))
      × Holds 1 b' (drop max (ch ∷ queue))
      × (b'.wait_item + 1 ≡ length (drop max (ch ∷ queue)))
unfolding get_data
get_data_loses_item max b ch queue v h =
    let some_item : 0 < b.wait_item = omega (arith, v.items) in
    let (b', e, w) = get_loop-part max _ ch queue (down-Holds b (ch ∷ queue) v some_item) h in
    (b', if_true _ _ (lt→ltb 0 b.wait_item some_item) ∙ if_true _ _ v.connected ∙ e, w, w.items)
