-- ===== src/SockBuf/Tests.antt =====
-- Runs of the functions of src/sock_ring_buffer.cc, and the theorems about them at concrete inputs.
use babyos.Prelude.{◌≤◌, ◌<◌, ◌≡◌, ◌⊎◌, refl, true, [], ◌∷◌, arith}
use babyos.SockBuf.{
  SockBuf, done, failed, asleep, get_data, get_loop, put_data, put_loop, take_front, store_back,
}
use babyos.SockBuf.Laws.{Holds, put_data_all_or_none}

-- A buffer of five bytes that holds three, round the end of the storage.
abbrev wrapped : SockBuf
wrapped = record {
  connected = true;
  buffer = 2 ∷ 3 ∷ 0 ∷ 0 ∷ 1 ∷ [];
  length = 5;
  left = 2;
  read_index = 4;
  write_index = 2;
  wait_space = 2;
  wait_item = 3;
}

wrapped-Holds : Holds 0 wrapped (1 ∷ 2 ∷ 3 ∷ [])
wrapped-Holds = record {
  connected = refl;
  some_room = omega arith;
  no_wrap = omega arith;
  storage = refl;
  read_in = omega arith;
  write_at = refl;
  room = refl;
  space = refl;
  items = refl;
  stored = refl;
}

-- Two reads of two and of four bytes: the second takes one byte less than the three that are there
-- when it is called, and sleeps.
abbrev refilled : SockBuf
refilled = (put_data (4 ∷ 5 ∷ []) wrapped).2

second_read_sleeps :
    let (out, status, b) = get_data 2 refilled in
    let (out', status', b') = get_data 4 b in
    (out ≡ 1 ∷ 2 ∷ []) × (status ≡ done) × (out' ≡ 3 ∷ 4 ∷ []) × (status' ≡ asleep)
unfolding get_data get_loop put_data put_loop take_front store_back
second_read_sleeps = (refl, refl, refl, refl)

put_data_all_or_none_example :
    ((2 ≤ wrapped.left)
      × (b' : SockBuf) × (put_data (4 ∷ 5 ∷ []) wrapped ≡ (2, done, b'))
      × Holds 0 b' (1 ∷ 2 ∷ 3 ∷ 4 ∷ 5 ∷ []))
    ⊎ ((wrapped.left < 2) × (put_data (4 ∷ 5 ∷ []) wrapped ≡ (0, failed, wrapped)))
put_data_all_or_none_example =
    put_data_all_or_none (4 ∷ 5 ∷ []) wrapped (1 ∷ 2 ∷ 3 ∷ []) wrapped-Holds
