-- ===== src/NetBuf/Tests.antt =====
-- The theorem about src/net_buf.cc at a concrete input.
use babyos.Prelude.{ℕ, ◌≡◌, refl, none, some}
use babyos.NetBuf.{NetBuf, init, append, grown}

-- Memory that holds the address at each address, and a buffer that holds eight bytes.
abbrev addresses : ℕ → ℕ
addresses j = j

abbrev eight : NetBuf
eight = record { data_len = 8; start = 1016; ext = none; left = 232 }

fresh_append :
    (b : NetBuf) × (mem : ℕ → ℕ) × (append 5000 8 (init 1000 none) addresses ≡ some (b, mem))
    × (b ≡ eight)
unfolding append init grown
fresh_append = (_, _, refl, refl)
