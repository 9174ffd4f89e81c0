-- ===== src/Net/Order.antt =====
-- Byte order of src/net.cc: each function undoes itself on the values of its type.
use babyos.Prelude.{ℕ, ◌<◌, ◌≡◌, refl, u32_mod, arith}
use babyos.Net.{htons, ntohs, htonl, ntohl}

pub htons-ntohs : (n : ℕ) → n < 0x1_0000 → ntohs (htons n) ≡ n
unfolding htons ntohs
htons-ntohs n h = omega arith

pub htonl-ntohl : (n : ℕ) → n < u32_mod → ntohl (htonl n) ≡ n
unfolding htonl ntohl
htonl-ntohl n h = omega arith

-- The two directions are the same function.
pub ntohs-eq : (n : ℕ) → ntohs n ≡ htons n
unfolding htons ntohs
ntohs-eq n = refl

pub ntohl-eq : (n : ℕ) → ntohl n ≡ htonl n
unfolding htonl ntohl
ntohl-eq n = refl
