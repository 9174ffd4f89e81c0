-- ===== src/Tcp/Ports.antt =====
-- `get_not_used_port` of src/socket_stream.cc.
use babyos.Prelude.{
  ℕ, zero, suc, ◌+◌, ◌≤◌, ◌<◌, ◌≡◌, Bool, true, false, ◌&&◌, Option, none, some, ltb, ◌==◌,
  if◌then◌else◌,
}
use babyos.Net.{htons, ntohs}
use babyos.Tcp.{Sock}

-- `MAX_STREAM_SOCKET`
abbrev pub max_stream_socket : ℕ
max_stream_socket = 128

-- The test of the inner loop
abbrev pub in_use : ℕ → Sock → Bool
in_use port s = ltb 0 s.ref && s.addr.port == htons port

-- The inner loop for one port, from the socket `s` on, where `s` stands behind it; `slots` is the memory from the
-- start of the table on.
unfoldable pub scan : (ℕ → Sock) → ℕ → ℕ → ℕ → Bool × ℕ
scan slots port zero s = (true, s)
scan slots port (suc n) s =
    let rest = scan slots port n (s + 1) in if in_use port (slots s) then (false, s) else rest

-- The outer loop: `s` is not set back to the start of the table between two ports.
unfoldable pub try_ports : (ℕ → Sock) → ℕ → ℕ → ℕ → Option ℕ
try_ports slots zero port s = none
try_ports slots (suc n) port s =
    let r = scan slots port max_stream_socket s in
    let rest = try_ports slots n (port + 1) r.1 in if r.0 then some port else rest

-- The port that is found, `none` where there is none.
unfoldable pub get_not_used_port : (ℕ → Sock) → Option ℕ
get_not_used_port slots = try_ports slots 61439 4096 0

-- The sockets in use stand in the order of their ports, and nothing behind the table looks like one in use.
pub record InOrder (slots : ℕ → Sock) : Type 0 where
  pub order :
      (i j : ℕ)
      → i ≤ j
      → 1 ≤ (slots i).ref
      → 1 ≤ (slots j).ref
      → ntohs (slots i).addr.port ≤ ntohs (slots j).addr.port
  pub ends : (i : ℕ) → max_stream_socket ≤ i → (slots i).ref ≡ 0

pub record NotUsed (slots : ℕ → Sock) (port : ℕ) : Type 0 where
  pub low : 4096 ≤ port
  pub high : port ≤ 4096 + max_stream_socket
  pub not_used : (i : ℕ) → i < max_stream_socket → in_use port (slots i) ≡ false
