-- ===== src/Tcp/Calls.antt =====
-- The calls of a process on a TCP socket of src/socket_stream.cc.
use babyos.Prelude.{
  ℕ, ◌-◌, Bool, true, false, Option, none, some, List, [], ◌∷◌, ltb, if◌then◌else◌,
}
use babyos.Net.{htons, htonl}
use babyos.SockBuf.{Status, get_data, init}
use babyos.Tcp.{
  closed, listen, syn_sent, syn_rcvd, established, fin_wait_1, connecting, connected, unconnected,
  disconnecting, Addr, Sock, Segment, tcp_syn, tcp_ack, tcp_send, tcp_fin, is_state, buffer_of,
}

-- `create`, over the pages of m_buffer; `socket_t::create` sets SS_UNCONNECTED
unfoldable pub create : List ℕ → Sock
create pages = record {
  state = unconnected;
  tcp = closed;
  ref = 1;
  addr = record { ip = 0; port = 0 };
  peer = record { ip = 0; port = 0 };
  buffer = init false pages 4;
  connecting = [];
  credit = 0;
  seq_no = 0;
  ack_no = 0;
}

-- `listen`
unfoldable pub start_listening : Sock → Sock
start_listening s = record s { tcp = listen }

-- A `down` of `m_sem`, `none` where it sleeps
unfoldable pub down : Sock → Option Sock
down s = if ltb 0 s.credit then some (record s { credit = s.credit - 1 }) else none

-- `accept` up to its wait for the ACK, where a peer is in the list: the server, the segment that is sent and the new socket
unfoldable pub accept_peer : ℕ → List Addr → Sock → Sock → Option (Sock × Segment × Sock)
accept_peer my_ip [] server s = none
accept_peer my_ip (peer ∷ rest) server s =
    let (seg, s') = tcp_ack my_ip true (record s { peer = peer; tcp = syn_rcvd }) in
    some (record server { connecting = rest }, seg, s')

-- `accept` on a socket that has listened; `none` where it returns -1 or waits for a peer
unfoldable pub accept : ℕ → Sock → Sock → Option (Sock × Segment × Sock)
accept my_ip server s =
    if is_state server.tcp listen then accept_peer my_ip server.connecting server s else none

-- The end of `accept`
unfoldable pub accepted : Sock → Option Sock
accepted s = elim (down s) [
  | none ↦ none
  | some s' ↦ some (record s' { tcp = established; state = connected })
]

-- The tests of `connect`
unfoldable pub may_connect : Sock → Bool
may_connect s = elim (s.state) [
  | connecting ↦ false
  | connected ↦ false
  | _ ↦ is_state s.tcp closed
]

-- `connect` up to its wait, with the port that `get_not_used_port` chooses; `none` where it returns an error
unfoldable pub connect : ℕ → ℕ → Addr → Sock → Option (Segment × Sock)
connect my_ip port server s =
    let (seg, s') =
      tcp_syn my_ip server (record s { addr = record { ip = htonl my_ip; port = htons port } }) in
    if may_connect s then some (seg, record s' { tcp = syn_sent }) else none

-- The end of `connect`
unfoldable pub connected_end : ℕ → Sock → Option (Segment × Sock)
connected_end my_ip s = elim (down s) [
  | none ↦ none
  | some s' ↦ some (tcp_ack my_ip false (record s' { tcp = established; state = connected }))
]

-- `write` up to its wait, behind which it returns the size; it waits also where nothing is sent
unfoldable pub write : ℕ → List ℕ → Sock → Option Segment × Sock
write my_ip bytes s = tcp_send my_ip bytes s

-- `read`
unfoldable pub read : ℕ → Sock → List ℕ × Status × Sock
read size s =
    let (bytes, status, buffer) = get_data size (buffer_of s) in
    (bytes, status, record s { buffer = buffer })

-- `release` up to the wait of `tcp_close`; `none` where it returns -1, with the socket
unfoldable pub release : ℕ → Sock → Option Segment × Sock
release my_ip s =
    let s' = record s {
      state = elim (s.state) [ unconnected ↦ unconnected | _ ↦ disconnecting ];
    } in
    let (seg, s'') = tcp_fin my_ip s' in
    if is_state s.tcp established
    then (some seg, record s'' { tcp = fin_wait_1 })
    else (none, record s' { tcp = closed })

-- The end of `tcp_close`
unfoldable pub released : ℕ → Sock → Option (Segment × Sock)
released my_ip s = elim (down s) [
  | none ↦ none
  | some s' ↦
      (let (seg, s'') = tcp_ack my_ip false s' in some (seg, record s'' { tcp = closed; ref = 0 }))
]
