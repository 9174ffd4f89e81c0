-- ===== src/SockBuf.antt =====
-- The buffers of sockets: class sock_ring_buffer_t of src/sock_ring_buffer.h and
-- src/sock_ring_buffer.cc. `wait_space` and `wait_item` are the downs that these semaphores still
-- let return; `connected` is the test of the socket's state. A byte is any number.
pub mod Laws
mod Tests
use babyos.Prelude.{
  ℕ, zero, suc, ◌+◌, ◌-◌, ◌*◌, ◌%◌, ◌^◌, Bool, true, false, Option, none, some, List, [], ◌∷◌, ltb,
  ◌==◌, if◌then◌else◌, get_or, set, length, add32, sub32, page_size,
}

pub record SockBuf : Type 0 where
  pub connected : Bool
  pub buffer : List ℕ
  pub length : ℕ
  pub left : ℕ
  pub read_index : ℕ
  pub write_index : ℕ
  pub wait_space : ℕ
  pub wait_item : ℕ

-- `init`, over the pages that `alloc_pages(order)` returns
pub init : Bool → List ℕ → ℕ → SockBuf
init connected pages order = record {
  connected = connected;
  buffer = pages;
  length = page_size * 2 ^ order;
  left = page_size * 2 ^ order;
  read_index = 0;
  write_index = 0;
  wait_space = page_size * 2 ^ order;
  wait_item = 0;
}

pub data Status : Type 0 where
  -- the loop came to its end, returned -1, or sleeps at a semaphore, with the lock held if it is
  -- inside the loop
  done failed asleep : Status

-- The byte at the read index, and the state after it is taken, with its space given back.
abbrev pub front : SockBuf → ℕ
front b = get_or b.buffer b.read_index 0

pub take_front : SockBuf → SockBuf
take_front b = record b {
  read_index = (b.read_index + 1) % b.length;
  left = add32 b.left 1;
  wait_space = b.wait_space + 1;
}

pub store_back : ℕ → SockBuf → SockBuf
store_back ch b = record b {
  buffer = set b.buffer b.write_index ch;
  write_index = (b.write_index + 1) % b.length;
  left = sub32 b.left 1;
}

-- `get_char`; `none` where it sleeps, else the result, with `none` for -1
pub get_char : SockBuf → Option (Option ℕ × SockBuf)
get_char b =
    let down = record b { wait_item = b.wait_item - 1 } in
    if ltb 0 b.wait_item
    then some (
        if b.connected
        then (some (front down), take_front down)
        else (none, record down { wait_space = b.wait_space + 1 }))
    else none

-- `put_char`
pub put_char : ℕ → SockBuf → Option (Bool × SockBuf)
put_char ch b =
    let down = record b { wait_space = b.wait_space - 1; wait_item = b.wait_item + 1 } in
    if ltb 0 b.wait_space
    then some (if b.connected then (true, store_back ch down) else (false, down))
    else none

-- The loop of `get_data`, entered after a `m_wait_item.down()`.
pub get_loop : ℕ → SockBuf → List ℕ × Status × SockBuf
get_loop zero b = ([], done, b)
get_loop (suc n) b =
    let b' = take_front b in
    let more = get_loop n (record b' { wait_item = b'.wait_item - 1 }) in
    if b'.left == b'.length
    then (front b ∷ [], done, b')
    else if ltb 0 b'.wait_item
    then (front b ∷ more.0, more.1, more.2)
    else (front b ∷ [], asleep, b')

-- `get_data`: the bytes copied, how the call ended, and the buffer.
pub get_data : ℕ → SockBuf → List ℕ × Status × SockBuf
get_data max b =
    let down = record b { wait_item = b.wait_item - 1 } in
    if ltb 0 b.wait_item
    then (if b.connected then get_loop max down else ([], failed, down))
    else ([], asleep, b)

-- The loop of `put_data`.
pub put_loop : List ℕ → SockBuf → ℕ × Status × SockBuf
put_loop [] b = (0, done, b)
put_loop (ch ∷ rest) b =
    let b' = record (store_back ch b) { wait_item = b.wait_item + 1 } in
    let more = put_loop rest (record b' { wait_space = b'.wait_space - 1 }) in
    if ltb 0 b'.wait_space then (suc more.0, more.1, more.2) else (1, asleep, b')

-- `put_data`: how many bytes went in, how the call ended, and the buffer.
pub put_data : List ℕ → SockBuf → ℕ × Status × SockBuf
put_data bytes b =
    if ltb b.left (length bytes)
    then (0, failed, b)
    else if b.connected
    then put_loop bytes b
    else (0, done, b)

-- `get_free_space`
pub get_free_space : SockBuf → ℕ
get_free_space b = b.left
