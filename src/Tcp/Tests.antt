-- ===== src/Tcp/Tests.antt =====
-- Runs of the functions of src/socket_stream.cc, and the theorems about them at concrete inputs.
use babyos.Prelude.{
  ◌≤◌, ◌<◌, ◌⊎◌, ℕ, ◌≡◌, refl, true, ◌&&◌, none, some, [], ◌∷◌, ltb, ◌==◌, if◌then◌else◌, arith,
}
use babyos.Net.{htons, htonl}
use babyos.SockBuf.{SockBuf}
use babyos.SockBuf.Laws.{Holds}
use babyos.Tcp.{
  TcpState, closed, listen, established, unconnected, connected, Addr, Sock, Segment, is_state,
  net_receive, buffer_of, tcp_fin,
}
use babyos.Tcp.Calls.{create, start_listening, write}
use babyos.Tcp.Transition.{Edge, net_receive-Edge, no_fin, receive_all, receive_all-established}
use babyos.Tcp.Handshake.{handshake, Meeting, Joined, handshake-Joined, same_addr}
use babyos.Tcp.Close.{Linked, close_in_order, close_in_order-closed}
use babyos.Tcp.Payload.{Carried, write-read-padded}
use babyos.Tcp.Ports.{try_ports, scan}

abbrev client_ip : ℕ
client_ip = 0x0a00_0002

abbrev server_ip : ℕ
server_ip = 0x0a00_0001

abbrev client : Sock
client = create []

abbrev server : Sock
server = record (start_listening (create [])) { addr = same_addr (htonl server_ip) (htons 80) }

abbrev new : Sock
new = record (create []) { addr = same_addr (htonl server_ip) (htons 4096) }

met : Meeting client_ip server_ip 4097 80 4096 client server new
unfolding create start_listening
met = record {
  ips = (omega arith, omega arith);
  ports = (omega arith, omega arith, omega arith);
  client_ref = omega arith;
  client_state = refl;
  client_tcp = refl;
  client_credit = refl;
  server_ref = omega arith;
  server_tcp = refl;
  server_addr = refl;
  no_peer = refl;
  new_ref = omega arith;
  new_addr = refl;
  new_credit = refl;
}

handshake-Joined_example :
    (client' : Sock) × (new' : Sock) × (handshake client_ip server_ip 4097 client server new
      ≡ some (client', new'))
    × Joined client' new'
handshake-Joined_example = handshake-Joined client_ip server_ip 4097 80 4096 client server new met

-- A buffer of eight bytes with nothing in it.
abbrev empty_buffer : SockBuf
empty_buffer = record {
  connected = true;
  buffer = 0 ∷ 0 ∷ 0 ∷ 0 ∷ 0 ∷ 0 ∷ 0 ∷ 0 ∷ [];
  length = 8;
  left = 8;
  read_index = 0;
  write_index = 0;
  wait_space = 8;
  wait_item = 0;
}

abbrev joined : Addr → Addr → Sock
joined own peer = record {
  state = connected;
  tcp = established;
  ref = 1;
  addr = own;
  peer = peer;
  buffer = empty_buffer;
  connecting = [];
  credit = 0;
  seq_no = 2;
  ack_no = 1;
}

abbrev near : Sock
near = joined (same_addr (htonl client_ip) (htons 4097)) (same_addr (htonl server_ip) (htons 4096))

abbrev far : Sock
far = joined (same_addr (htonl server_ip) (htons 4096)) (same_addr (htonl client_ip) (htons 4097))

linked : Linked client_ip server_ip 4097 4096 near far
linked = record {
  ips = (omega arith, omega arith);
  ports = (omega arith, omega arith);
  refs = (omega arith, omega arith);
  state = refl;
  tcps = (refl, refl);
  addrs = (refl, refl);
  peers = (refl, refl);
  credit = refl;
}

close_in_order-closed_example :
    (a' : Sock) × (b' : Sock) × (close_in_order client_ip server_ip near far ≡ some (a', b'))
    × ((a'.tcp ≡ closed) × (b'.tcp ≡ closed) × (a'.ref ≡ 0) × (b'.ref ≡ far.ref))
close_in_order-closed_example = close_in_order-closed client_ip server_ip 4097 4096 near far linked

-- A FIN for a socket that is connected.
abbrev fin_segment : Segment
fin_segment = (tcp_fin client_ip near).0

net_receive-Edge_example : Edge fin_segment far.tcp (net_receive server_ip fin_segment far).2.tcp
net_receive-Edge_example = net_receive-Edge server_ip fin_segment far

receive_all-established_example :
    is_state (receive_all server_ip (fin_segment ∷ []) far).tcp established
    ≡ (is_state far.tcp established && no_fin (fin_segment ∷ []))
receive_all-established_example = receive_all-established server_ip (fin_segment ∷ []) far

empty-Holds : Holds 0 (buffer_of far) []
unfolding babyos.Tcp.is_connected
empty-Holds = record {
  connected = refl;
  some_room = omega arith;
  no_wrap = omega arith;
  storage = refl;
  read_in = omega arith;
  write_at = refl;
  room = refl;
  space = refl;
  items = refl;
  stored = refl;
}

write-read-padded_example :
    ((2 ≤ 2016)
      × (seg : Segment) × ((write client_ip (7 ∷ 8 ∷ []) near).0 ≡ some seg)
      × Carried server_ip 8 (7 ∷ 8 ∷ []) seg far)
    ⊎ ((2016 < 2) × ((write client_ip (7 ∷ 8 ∷ []) near).0 ≡ none))
write-read-padded_example =
    write-read-padded client_ip server_ip 8 7 (8 ∷ []) near far empty-Holds (omega arith)
      (omega arith) (omega arith)

-- A table whose sockets in use have the ports 4096 and 4097, in this order or in the other.
abbrev two_sockets : ℕ → ℕ → ℕ → Sock
two_sockets first second i = record near {
  ref = if ltb i 2 then 1 else 0;
  addr = same_addr 0 (htons (if i == 0 then first else second));
}

-- With the ports in the other order, the third connection is given the port of the first socket.
port_given_twice : try_ports (two_sockets 4097 4096) 3 4096 0 ≡ some 4097
unfolding try_ports scan htons
port_given_twice = refl
