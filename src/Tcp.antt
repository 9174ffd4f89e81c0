-- ===== src/Tcp.antt =====
-- TCP sockets: class socket_stream_t of src/socket_stream.h and src/socket_stream.cc, and what
-- `tcp_t::transmit` of src/tcp.cc sends. A call that waits at `m_sem` is two functions, up to the
-- `down` and behind it; `credit` is how many downs of `m_sem` return. A port or an address that the code
-- keeps in network order is kept so here. A segment is a record of its header, the payload with the zeros that
-- `transmit` appends, and the addresses that the layer below carries.
pub mod Calls
pub mod Transition
pub mod Handshake
pub mod Close
pub mod Payload
pub mod Ports
mod Tests
use babyos.Prelude.{
  ℕ, zero, suc, ◌+◌, ◌-◌, ◌*◌, ◌/◌, ◌%◌, Bool, true, false, ◌&&◌, not, Option, none, some, List, [],
  ◌∷◌, ◌++◌, ltb, ◌==◌, if◌then◌else◌, add32, length,
}
use babyos.Net.{htons, ntohs, htonl, ntohl, ext_buf_size}
use babyos.SockBuf.{SockBuf, Status, done, asleep, failed, put_data, get_data}

-- `tcp_state_t`
pub data TcpState : Type 0 where
  closed listen syn_sent syn_rcvd established fin_wait_1 fin_wait_2 close_wait closing last_ack
        time_wait :
      TcpState

-- `socket_state_t`
pub data SockState : Type 0 where
  free unconnected connecting connected disconnecting : SockState

-- `sock_addr_inet_t`, whose family is AF_INET throughout
pub record Addr : Type 0 where
  pub ip : ℕ
  pub port : ℕ

pub record Sock : Type 0 where
  pub state : SockState
  pub tcp : TcpState
  pub ref : ℕ
  pub addr : Addr
  pub peer : Addr
  pub buffer : SockBuf
  pub connecting : List Addr
  pub credit : ℕ
  pub seq_no : ℕ
  pub ack_no : ℕ

-- `tcp_hdr_t` with its payload, and the addresses of the IP header in host order
pub record Segment : Type 0 where
  pub src_ip : ℕ
  pub dst_ip : ℕ
  pub src_port : ℕ
  pub dst_port : ℕ
  pub seq : ℕ
  pub ack_seq : ℕ
  pub syn : Bool
  pub ack : Bool
  pub fin : Bool
  pub payload : List ℕ

pub zeros : ℕ → List ℕ
zeros zero = []
zeros (suc n) = 0 ∷ zeros n

-- `sizeof(tcp_hdr_t)` and `c_min_length_tcp_data`
abbrev pub hdr_size : ℕ
hdr_size = 20

abbrev pub min_length : ℕ
min_length = 26

-- The segment that `tcp_t::transmit` builds at the address `my_ip`, for fewer than 65516 bytes
pub segment : ℕ → ℕ → ℕ → ℕ → ℕ → ℕ → Bool → Bool → Bool → List ℕ → Segment
segment my_ip dst_ip src_port dst_port seq ack_seq syn ack fin bytes = record {
  src_ip = my_ip;
  dst_ip = dst_ip;
  src_port = htons src_port;
  dst_port = htons dst_port;
  seq = htonl seq;
  ack_seq = htonl ack_seq;
  syn = syn;
  ack = ack;
  fin = fin;
  payload = bytes ++ zeros (min_length - (length bytes + hdr_size));
}

-- `sizeof(tcp_pseudo_hdr_t)`
abbrev pub pseudo_size : ℕ
pseudo_size = 12

-- `total`
abbrev pub total_length : List ℕ → ℕ
total_length bytes =
    if ltb (length bytes + hdr_size) min_length then min_length else length bytes + hdr_size

-- `tcp_t::transmit`, `none` where `alloc_net_buffer` refuses the size; the pools of buffers are not empty.
pub transmit : ℕ → ℕ → ℕ → ℕ → ℕ → ℕ → Bool → Bool → Bool → List ℕ → Option Segment
transmit my_ip dst_ip src_port dst_port seq ack_seq syn ack fin bytes =
    if ltb ext_buf_size (total_length bytes + pseudo_size)
    then none
    else some (segment my_ip dst_ip src_port dst_port seq ack_seq syn ack fin bytes)

-- `m_seq_no++`
abbrev pub next_seq : Sock → Sock
next_seq s = record s { seq_no = add32 s.seq_no 1 }

-- `tcp_syn`: a segment without data is refused by no size
pub tcp_syn : ℕ → Addr → Sock → Segment × Sock
tcp_syn my_ip server s = (
  segment my_ip (ntohl server.ip) (ntohs s.addr.port) (ntohs server.port) s.seq_no 0 true false
      false [],
  next_seq s,
)

-- `tcp_ack`, `tcp_send` and `tcp_fin` from the socket's address to its peer; what is sent, and the socket
pub tcp_ack : ℕ → Bool → Sock → Segment × Sock
tcp_ack my_ip syn s = (
  segment my_ip (ntohl s.peer.ip) (ntohs s.addr.port) (ntohs s.peer.port) s.seq_no s.ack_no syn true
      false [],
  next_seq s,
)

pub tcp_send : ℕ → List ℕ → Sock → Option Segment × Sock
tcp_send my_ip bytes s = (
  transmit my_ip (ntohl s.peer.ip) (ntohs s.addr.port) (ntohs s.peer.port) s.seq_no 0 false false
      false bytes,
  next_seq s,
)

pub tcp_fin : ℕ → Sock → Segment × Sock
tcp_fin my_ip s = (
  segment my_ip (ntohl s.peer.ip) (ntohs s.addr.port) (ntohs s.peer.port) s.seq_no s.ack_no false
      true true [],
  next_seq s,
)

-- What a received segment leads to: whether the result is 0, what is sent, and the socket.
abbrev pub Received : Type 0
Received = Bool × List Segment × Sock

abbrev pub up : Sock → Sock
up s = record s { credit = s.credit + 1 }

abbrev pub is_state : TcpState → TcpState → Bool
is_state closed closed = true
is_state listen listen = true
is_state syn_sent syn_sent = true
is_state syn_rcvd syn_rcvd = true
is_state established established = true
is_state fin_wait_1 fin_wait_1 = true
is_state fin_wait_2 fin_wait_2 = true
is_state close_wait close_wait = true
is_state closing closing = true
is_state last_ack last_ack = true
is_state time_wait time_wait = true
is_state s t = false

-- "net_t::ntohl(hdr->m_seq_no) + 1"
abbrev pub next_ack : Segment → ℕ
next_ack seg = add32 (ntohl seg.seq) 1

-- `net_receive_syn` on the socket itself; `src_port` is in host order
pub receive_syn : Segment → ℕ → Sock → Received
receive_syn seg src_port s =
    let source : Addr = record { ip = ntohl seg.src_ip; port = ntohs src_port } in
    let peer : Addr = record { ip = htonl seg.src_ip; port = htons src_port } in
    if not seg.ack
    then (if is_state s.tcp listen
        then (true, [], up (record s { connecting = s.connecting ++ source ∷ [] }))
        else (false, [], s))
    else if is_state s.tcp syn_sent
    then (true, [], up (record s { peer = peer; ack_no = next_ack seg }))
    else (false, [], s)

-- What `net_receive_syn` does to `m_dup_socket` of a listening socket
pub syn_to_dup : Segment → Sock → Sock
syn_to_dup seg dup = record dup { ack_no = next_ack seg }

-- `net_receive_ack`
pub receive_ack : Segment → ℕ → Sock → Received
receive_ack seg src_port s =
    if not ((ntohl s.peer.ip == seg.src_ip) && (ntohs s.peer.port == src_port))
    then (false, [], s)
    else if is_state s.tcp syn_rcvd
    then (true, [], up s)
    else if is_state s.tcp established
    then (true, [], up s)
    else if is_state s.tcp fin_wait_1
    then (true, [], record s { tcp = fin_wait_2 })
    else if is_state s.tcp last_ack
    then (true, [], record s { tcp = closed })
    else (true, [], s)

-- "m_state == SS_CONNECTED", which m_buffer tests
pub is_connected : SockState → Bool
is_connected connected = true
is_connected s = false

-- `m_buffer`
abbrev pub buffer_of : Sock → SockBuf
buffer_of s = record (s.buffer) { connected = is_connected s.state }

-- `net_receive_data`: `put_data` fails where the payload does not fit; where it sleeps, nothing more is done
pub stored_data : ℕ → Segment → Sock → ℕ × Status × SockBuf → Received
stored_data my_ip seg s (count, failed, buffer) = (false, [], s)
stored_data my_ip seg s (count, asleep, buffer) = (false, [], record s { buffer = buffer })
stored_data my_ip seg s (count, done, buffer) =
    let (sent, s') = tcp_ack my_ip false (record s { buffer = buffer; ack_no = next_ack seg }) in
    (true, sent ∷ [], s')

pub receive_data : ℕ → Segment → Sock → Received
receive_data my_ip seg s = stored_data my_ip seg s (put_data seg.payload (buffer_of s))

-- `net_receive_fin`
pub receive_fin : ℕ → Segment → Sock → Received
receive_fin my_ip seg s =
    let (ack, s1) = tcp_ack my_ip false (record s { ack_no = next_ack seg }) in
    let (fin, s2) = tcp_fin my_ip (record s1 { tcp = close_wait }) in
    if is_state s.tcp closed
    then (true, [], s)
    else if is_state s.tcp fin_wait_2
    then (true, [], up s)
    else if is_state s.tcp established
    then (true, ack ∷ fin ∷ [], record s2 { tcp = last_ack })
    else (false, [], record s { tcp = closed })

-- `net_receive`
pub net_receive : ℕ → Segment → Sock → Received
net_receive my_ip seg s =
    let src_port = ntohs seg.src_port in
    let s' = record s { ack_no = next_ack seg } in
    if seg.syn
    then receive_syn seg src_port s'
    else if seg.fin
    then receive_fin my_ip seg s'
    else if seg.ack
    then receive_ack seg src_port s'
    else receive_data my_ip seg s'
