-- ===== src/Pipe.antt =====
-- Pipes: class pipe_t of src/pipe.h and src/pipe.cc. `space` and `item` are the downs that the
-- semaphores m_space and m_item still let return (the credit of Sem). A byte is any number.
pub mod Fifo
pub mod Stream
pub mod Close
mod Tests
use babyos.Prelude.{
  ℕ, zero, suc, ◌+◌, ◌-◌, ◌%◌, Bool, true, false, ◌||◌, not, ◌&&◌, Option, none, some, List, [],
  ◌∷◌, ◌++◌, ltb, if◌then◌else◌, get_or, set,
}

-- `PIPE_BUF_SIZE`
abbrev pub pipe_buf_size : ℕ
pipe_buf_size = 512

pub record Pipe : Type 0 where
  pub buffer : List ℕ
  pub read_index : ℕ
  pub write_index : ℕ
  pub space : ℕ
  pub item : ℕ
  pub readable : Bool
  pub writable : Bool

-- `init`; the buffer holds whatever the object held.
pub init : List ℕ → Pipe
init buffer = record {
  buffer = buffer;
  read_index = 0;
  write_index = 0;
  space = pipe_buf_size;
  item = 0;
  readable = true;
  writable = true;
}

-- What `get_char` does under the lock: its result, `none` for -1.
pub get_locked : Pipe → Option ℕ × Pipe
get_locked p =
    if p.readable
    then (
      some (get_or p.buffer p.read_index 0),
      record p { read_index = (p.read_index + 1) % pipe_buf_size },
    )
    else (none, p)

-- What `put_char` does under the lock; `false` for -1.
pub put_locked : ℕ → Pipe → Bool × Pipe
put_locked ch p =
    if p.writable
    then (
      true,
      record p {
        buffer = set p.buffer p.write_index ch;
        write_index = (p.write_index + 1) % pipe_buf_size;
      },
    )
    else (false, p)

-- `get_char`, run without interruption; `none` where it sleeps in `m_item.down()`.
pub get_char : Pipe → Option (Option ℕ × Pipe)
get_char p =
    if ltb 0 p.item
    then (let (ret, p') = get_locked (record p { item = p.item - 1 }) in
        some (ret, record p' { space = p'.space + 1 }))
    else none

-- `put_char`, run without interruption; `none` where it sleeps in `m_space.down()`.
pub put_char : ℕ → Pipe → Option (Bool × Pipe)
put_char ch p =
    if ltb 0 p.space
    then (let (ret, p') = put_locked ch (record p { space = p.space - 1 }) in
        some (ret, record p' { item = p'.item + 1 }))
    else none

pub data Status : Type 0 where
  -- the loop came to its end, returned -1, or sleeps
  done failed asleep : Status

-- `read`: the bytes copied to the caller's buffer, how the loop ended, and the pipe.
pub read : ℕ → Pipe → List ℕ × Status × Pipe
read zero p = ([], done, p)
read (suc n) p = elim (get_char p) [
  | none ↦ ([], asleep, p)
  | some (none, p') ↦ ([], failed, p')
  | some (some ch, p') ↦ let (rest, status, p'') = read n p' in (ch ∷ rest, status, p'')
]

-- `write`: how many bytes went in, how the loop ended, and the pipe.
pub write : List ℕ → Pipe → ℕ × Status × Pipe
write [] p = (0, done, p)
write (ch ∷ rest) p = elim (put_char ch p) [
  | none ↦ (0, asleep, p)
  | some (false, p') ↦ (0, failed, p')
  | some (true, p') ↦ let (n, status, p'') = write rest p' in (suc n, status, p'')
]

-- `close`, and whether the object goes back to PIPE_POOL. An `up` adds a credit.
pub close : Bool → Pipe → Bool × Pipe
close write_end p =
    let p' =
      if write_end
      then record p { writable = false; item = p.item + 1 }
      else record p { readable = false; space = p.space + 1 } in
    (not p'.readable && not p'.writable, p')
