-- ===== src/Net.antt =====
-- The functions of class net_t, src/net.h and src/net.cc, that compute: byte order, addresses, the
-- Internet checksum, and the pools of buffers. A byte is a number below 256; where the code joins
-- disjoint bits by `|` the numbers are added.
pub mod Checksum
pub mod Order
pub mod Pool
mod Tests
use babyos.Prelude.{
  ℕ, zero, suc, ◌+◌, ◌-◌, ◌*◌, ◌/◌, ◌%◌, Bool, true, false, ◌&&◌, ◌||◌, not, Option, none, some,
  List, [], ◌∷◌, ltb, leb, ◌==◌, if◌then◌else◌, add32, u32_mod,
}

-- `htons` and `ntohs`, which have the same body
unfoldable pub htons : ℕ → ℕ
htons n = n % 256 * 256 + n / 256 % 256

pub ntohs : ℕ → ℕ
ntohs n = n % 256 * 256 + n / 256 % 256

-- `htonl` and `ntohl`
pub htonl : ℕ → ℕ
htonl n =
    n % 256 * 0x100_0000
    + n / 256 % 256 * 0x1_0000
    + n / 0x1_0000 % 256 * 256
    + n / 0x100_0000 % 256

pub ntohl : ℕ → ℕ
ntohl n =
    n % 256 * 0x100_0000
    + n / 256 % 256 * 0x1_0000
    + n / 0x1_0000 % 256 * 256
    + n / 0x100_0000 % 256

pub make_ipaddr : ℕ → ℕ → ℕ → ℕ → ℕ
make_ipaddr ip0 ip1 ip2 ip3 = ip0 * 0x100_0000 + ip1 * 0x1_0000 + ip2 * 256 + ip3

-- The first loop of `check_sum` and the odd byte behind it; words are read in little-endian order.
pub sum_words : List ℕ → ℕ → ℕ
sum_words [] acc = acc
sum_words (b ∷ []) acc = add32 acc b
sum_words (lo ∷ hi ∷ rest) acc = sum_words rest (add32 acc (lo + 256 * hi))

-- The second loop of `check_sum`. The fuel counts rounds.
pub fold_carry : ℕ → ℕ → ℕ
fold_carry zero acc = acc
fold_carry (suc rounds) acc =
    let rest = fold_carry rounds (acc % 0x1_0000 + acc / 0x1_0000) in
    if acc / 0x1_0000 == 0 then acc else rest

pub check_sum : List ℕ → ℕ
check_sum bytes = (u32_mod - 1 - fold_carry 3 (sum_words bytes 0)) % 0x1_0000

-- `NET_BUF_DATA_SIZE` and `EXT_BUF_SIZE`
abbrev pub net_buf_data_size : ℕ
net_buf_data_size = 240

abbrev pub ext_buf_size : ℕ
ext_buf_size = 2048

-- `m_net_buffers` and `m_ext_buffers`, and the `m_ext_data` of each buffer, `none` for NULL
pub record Pools : Type 0 where
  pub net_buffers : List ℕ
  pub ext_buffers : List ℕ
  pub ext_data : ℕ → Option ℕ

pub alloc_ext_buffer : List ℕ → Option ℕ × List ℕ
alloc_ext_buffer [] = (none, [])
alloc_ext_buffer (ext ∷ rest) = (some ext, rest)

pub free_ext_buffer : ℕ → List ℕ → List ℕ
free_ext_buffer ext buffers = ext ∷ buffers

-- `buf->init(ext)` as far as the pools see it
pub init_buf : ℕ → Option ℕ → (ℕ → Option ℕ) → ℕ → Option ℕ
init_buf buf ext exts b = if b == buf then ext else exts b

-- The part of `alloc_net_buffer` under the lock, over `m_net_buffers`
pub alloc_locked : ℕ → List ℕ → Pools → Option ℕ × Pools
alloc_locked len [] p = (none, p)
alloc_locked len (buf ∷ rest) p =
    let (ext, left) = alloc_ext_buffer p.ext_buffers in
    if ltb net_buf_data_size len
    then elim ext [
      | none ↦ (none, p)
      | some e ↦ (
        some buf,
        record {
          net_buffers = rest;
          ext_buffers = left;
          ext_data = init_buf buf (some e) p.ext_data;
        },
      )
    ]
    else (some buf, record p { net_buffers = rest; ext_data = init_buf buf none p.ext_data })

-- `alloc_net_buffer`, `none` for NULL
pub alloc_net_buffer : ℕ → Pools → Option ℕ × Pools
alloc_net_buffer len p =
    if ltb ext_buf_size len then (none, p) else alloc_locked len p.net_buffers p

pub find : ℕ → List ℕ → Bool
find buf [] = false
find buf (b ∷ rest) = if b == buf then true else find buf rest

abbrev pub free_ext : Option ℕ → List ℕ → List ℕ
free_ext none buffers = buffers
free_ext (some ext) buffers = free_ext_buffer ext buffers

-- `free_net_buffer`, `none` where it panics
pub free_net_buffer : ℕ → Pools → Option Pools
free_net_buffer buf p =
    if find buf p.net_buffers
    then none
    else some (record p {
      net_buffers = buf ∷ p.net_buffers;
      ext_buffers = free_ext (p.ext_data buf) p.ext_buffers;
    })
