-- ===== src/NetBuf.antt =====
-- A network buffer: class net_buf_t of src/net_buf.h and src/net_buf.cc, over the memory of Mem.
-- `m_data` is an address; the data of the buffer are the `data_len` bytes from there on.
mod Tests
use babyos.Prelude.{
  ℕ, ◌+◌, ◌-◌, ◌≤◌, ◌<◌, ◌≡◌, ◌⊎◌, inl, inr, refl, ◌∙◌, sym, ap, Bool, true, false, ◌&&◌,
  Bool-cases, Option, none, some, ltb, leb, if◌then◌else◌, if_true, if_false, add32, u32_mod, arith,
}
use babyos.Mem.{memcpy, memset}
use babyos.Mem.Copy.{memmov_at}
use babyos.Net.{net_buf_data_size, ext_buf_size}

pub record NetBuf : Type 0 where
  pub data_len : ℕ
  pub start : ℕ
  pub ext : Option ℕ
  pub left : ℕ

-- `sizeof(net_buf_t)`, four fields of 32 bits
abbrev pub net_buf_header : ℕ
net_buf_header = 16

-- `init` of the buffer at an address
pub init : ℕ → Option ℕ → NetBuf
init this none = record {
  data_len = 0;
  start = this + net_buf_header;
  ext = none;
  left = net_buf_data_size;
}
init this (some e) = record { data_len = 0; start = e; ext = some e; left = ext_buf_size }

-- The two fields that `append` and `append_zero` move on.
pub grown : ℕ → NetBuf → NetBuf
grown len b = record b { data_len = add32 b.data_len len; left = b.left - len }

-- `append` from an address, `none` for -ENOBUFS, else with the memory after it
pub append : ℕ → ℕ → NetBuf → (ℕ → ℕ) → Option (NetBuf × (ℕ → ℕ))
append source len b mem =
    if ltb b.left len
    then none
    else some (grown len b, memcpy (b.start + b.data_len) source len mem)

pub append_zero : ℕ → NetBuf → (ℕ → ℕ) → Option (NetBuf × (ℕ → ℕ))
append_zero len b mem =
    if ltb b.left len then none else some (grown len b, memset (b.start + b.data_len) 0 len mem)

-- `pop_front`, `none` for -EINVAL
pub pop_front : ℕ → NetBuf → Option NetBuf
pop_front len b =
    if ltb b.data_len len
    then none
    else some (record b { start = b.start + len; data_len = b.data_len - len })

-- Byte `i` of the data.
abbrev pub byte : NetBuf → (ℕ → ℕ) → ℕ → ℕ
byte b mem i = mem (b.start + i)

copied_byte :
    (b : NetBuf) (source len : ℕ) (mem : ℕ → ℕ) (i : ℕ)
    → i < b.data_len + len
    → (byte b (memcpy (b.start + b.data_len) source len mem) i
        ≡ (if ltb i b.data_len then byte b mem i else mem (source + (i - b.data_len))))
      × (byte b (memset (b.start + b.data_len) 0 len mem) i
          ≡ (if ltb i b.data_len then byte b mem i else 0))
copied_byte b source len mem i h =
    let (_, copy, zeros) = memmov_at (b.start + b.data_len) source 0 len mem (b.start + i) in
    elim (Bool-cases (ltb i b.data_len)) [
      | inl t ↦
          let out : (leb (b.start + b.data_len) (b.start + i)
                && ltb (b.start + i) (b.start + b.data_len + len))
              ≡ false =
            ground arith in
          (
            copy ∙ if_false _ _ out ∙ sym (if_true _ _ t),
            zeros ∙ if_false _ _ out ∙ sym (if_true _ _ t),
          )
      | inr t ↦
          let within : (leb (b.start + b.data_len) (b.start + i)
                && ltb (b.start + i) (b.start + b.data_len + len))
              ≡ true =
            ground arith in
          let place : source + (b.start + i - (b.start + b.data_len)) ≡ source + (i - b.data_len) =
            ground arith in
          (
            copy ∙ if_true _ _ within ∙ ap mem place ∙ sym (if_false _ _ t),
            zeros ∙ if_true _ _ within ∙ sym (if_false _ _ t),
          )
    ]

-- `append` and `append_zero` both fail exactly where the length is more than what is left. Else the
-- data are those before with the new bytes, or with zeros, behind them; and `pop_front` of the old
-- length then leaves the new bytes alone.
append-pop_front :
    (source len : ℕ) (b : NetBuf) (mem : ℕ → ℕ) (i : ℕ)
    → b.data_len + b.left < u32_mod
    → i < b.data_len + len
    → ((b.left < len) × (append source len b mem ≡ none) × (append_zero len b mem ≡ none))
      ⊎ ((len ≤ b.left)
          × (b' : NetBuf) × (mem1 : ℕ → ℕ) × (mem2 : ℕ → ℕ) × (b'' : NetBuf) × (append source len b
                mem
              ≡ some (b', mem1))
          × (append_zero len b mem ≡ some (b', mem2))
          × (b'.data_len ≡ b.data_len + len)
          × (b'.left + len ≡ b.left)
          × (byte b' mem1 i
              ≡ (if ltb i b.data_len then byte b mem i else mem (source + (i - b.data_len))))
          × (byte b' mem2 i ≡ (if ltb i b.data_len then byte b mem i else 0))
          × (pop_front b.data_len b' ≡ some b'')
          × (b''.data_len ≡ len)
          × (b''.start ≡ b.start + b.data_len))
unfolding append append_zero grown pop_front
append-pop_front source len b mem i h h' = elim (Bool-cases (ltb b.left len)) [
  | inl t ↦ inl (ground arith, if_true _ _ t, if_true _ _ t)
  | inr t ↦
      let (copy, zeros) = copied_byte b source len mem i h' in
      let fits : ltb (add32 b.data_len len) b.data_len ≡ false = ground arith in
      inr (
        ground arith,
        grown len b,
        _,
        _,
        _,
        if_false _ _ t,
        if_false _ _ t,
        ground arith,
        ground arith,
        copy,
        zeros,
        if_false _ _ fits,
        ground arith,
        refl,
      )
]
