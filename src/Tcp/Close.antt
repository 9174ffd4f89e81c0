-- ===== src/Tcp/Close.antt =====
-- The segments that close a connection of two TCP sockets of src/socket_stream.cc, and their order.
use babyos.Prelude.{
  ℕ, ◌+◌, ◌≤◌, ◌<◌, ◌≡◌, refl, ◌∙◌, sym, ap, true, false, Option, none, some, List, [], ◌∷◌, ◌>>=◌,
  then_some, u32_mod, arith,
}
use babyos.Net.{htons, ntohs, htonl, ntohl}
use babyos.Net.Order.{htonl-ntohl}
use babyos.Tcp.{
  closed, established, fin_wait_1, fin_wait_2, close_wait, last_ack, connected, disconnecting, Addr,
  Sock, Segment, tcp_ack, tcp_fin, receive_fin, receive_ack, net_receive, segment,
}
use babyos.SockBuf.{SockBuf}
use babyos.Tcp.Calls.{release, released}
use babyos.Tcp.Handshake.{deliver, deliver-taken, heard, same_addr, down-some, port_back}

abbrev first_two : List Segment × Sock → Option (Segment × Segment × Sock)
first_two (x ∷ y ∷ [], s) = some (x, y, s)
first_two (_, s) = none

abbrev with_segment : Option Segment × Sock → Option (Segment × Sock)
with_segment (none, s) = none
with_segment (some seg, s) = some (seg, s)

-- The socket `a` is released: its FIN is answered by an ACK and a FIN, which arrive in this order.
unfoldable pub close_in_order : ℕ → ℕ → Sock → Sock → Option (Sock × Sock)
close_in_order a_ip b_ip a b = do
  (fin, a) ← with_segment (release a_ip a)
  answers ← deliver b_ip fin b
  (ack, fin, b) ← first_two answers
  (_, a) ← deliver a_ip ack a
  (_, a) ← deliver a_ip fin a
  (ack, a) ← released a_ip a
  (_, b) ← deliver b_ip ack b
  some (a, b)

-- Two sockets that are connected with each other.
pub record Linked (a_ip b_ip a_port b_port : ℕ) (a b : Sock) : Type 0 where
  pub ips : (a_ip < u32_mod) × (b_ip < u32_mod)
  pub ports : (a_port < 0x1_0000) × (b_port < 0x1_0000)
  pub refs : (1 ≤ a.ref) × (1 ≤ b.ref)
  pub state : a.state ≡ connected
  pub tcps : (a.tcp ≡ established) × (b.tcp ≡ established)
  pub addrs :
      (a.addr ≡ same_addr (htonl a_ip) (htons a_port))
      × (b.addr ≡ same_addr (htonl b_ip) (htons b_port))
  pub peers : (a.peer ≡ b.addr) × (b.peer ≡ a.addr)
  pub credit : a.credit ≡ 0

net_receive-fin :
    (my_ip : ℕ) (seg : Segment) (s : Sock)
    → seg.syn ≡ false
    → seg.fin ≡ true
    → s.tcp ≡ established
    → net_receive my_ip seg s ≡ (
        let (ack, s1) = tcp_ack my_ip false (heard seg s) in
        let (fin, s2) = tcp_fin my_ip (record s1 { tcp = close_wait }) in
        (true, ack ∷ fin ∷ [], record s2 { tcp = last_ack }))
unfolding net_receive receive_fin
net_receive-fin my_ip seg s y f t = ground arith

-- The ACK of a FIN, and a FIN behind it.
net_receive-fin_acked :
    (my_ip : ℕ) (seg : Segment) (s : Sock)
    → seg.syn ≡ false
    → seg.fin ≡ false
    → seg.ack ≡ true
    → s.tcp ≡ fin_wait_1
    → ntohl s.peer.ip ≡ seg.src_ip
    → ntohs s.peer.port ≡ ntohs seg.src_port
    → net_receive my_ip seg s ≡ (true, [], record (heard seg s) { tcp = fin_wait_2 })
unfolding net_receive receive_ack
net_receive-fin_acked my_ip seg s y f a t ip port = ground arith

net_receive-last_ack :
    (my_ip : ℕ) (seg : Segment) (s : Sock)
    → seg.syn ≡ false
    → seg.fin ≡ false
    → seg.ack ≡ true
    → s.tcp ≡ last_ack
    → ntohl s.peer.ip ≡ seg.src_ip
    → ntohs s.peer.port ≡ ntohs seg.src_port
    → net_receive my_ip seg s ≡ (true, [], record (heard seg s) { tcp = closed })
unfolding net_receive receive_ack
net_receive-last_ack my_ip seg s y f a t ip port = ground arith

net_receive-second_fin :
    (my_ip : ℕ) (seg : Segment) (s : Sock)
    → seg.syn ≡ false
    → seg.fin ≡ true
    → s.tcp ≡ fin_wait_2
    → net_receive my_ip seg s ≡ (true, [], record (heard seg s) { credit = s.credit + 1 })
unfolding net_receive receive_fin
net_receive-second_fin my_ip seg s y f t = ground arith

released-some :
    (my_ip : ℕ) (s : Sock) (k : ℕ)
    → s.credit ≡ k + 1
    → released my_ip s ≡ (
        let (seg, s') = tcp_ack my_ip false (record s { credit = k }) in
        some (seg, record s' { tcp = closed; ref = 0 }))
unfolding released
released-some my_ip s k e = rw (down-some s k e, released) refl

release-some :
    (my_ip : ℕ) (s : Sock)
    → s.state ≡ connected
    → s.tcp ≡ established
    → with_segment (release my_ip s) ≡ (
        let (seg, s') = tcp_fin my_ip (record s { state = disconnecting }) in
        some (seg, record s' { tcp = fin_wait_1 }))
unfolding release tcp_fin
release-some my_ip s c t = ground arith

-- How segments find their way between two sockets.
module _ (a_ip b_ip a_port b_port : ℕ) (a b : Sock) (l : Linked a_ip b_ip a_port b_port a b) where
  a_turned : htons (ntohs a.addr.port) ≡ a.addr.port
  a_turned =
      let e = ap (λ (x : Addr). x.port) l.addrs.0 in
      ap (λ x. htons (ntohs x)) e ∙ port_back a_port l.ports.0 ∙ sym e

  b_turned : htons (ntohs b.addr.port) ≡ b.addr.port
  b_turned =
      let e = ap (λ (x : Addr). x.port) l.addrs.1 in
      ap (λ x. htons (ntohs x)) e ∙ port_back b_port l.ports.1 ∙ sym e

  a_peer_port : a.peer.port ≡ b.addr.port
  a_peer_port = ap (λ (x : Addr). x.port) l.peers.0

  b_peer_port : b.peer.port ≡ a.addr.port
  b_peer_port = ap (λ (x : Addr). x.port) l.peers.1

  to_b : b.addr.port ≡ htons (ntohs a.peer.port)
  to_b = sym (ap (λ x. htons (ntohs x)) a_peer_port ∙ b_turned)

  to_a : a.addr.port ≡ htons (ntohs b.peer.port)
  to_a = sym (ap (λ x. htons (ntohs x)) b_peer_port ∙ a_turned)

  a_knows_ip : ntohl a.peer.ip ≡ b_ip
  a_knows_ip = ap (λ (x : Addr). ntohl x.ip) (l.peers.0 ∙ l.addrs.1) ∙ htonl-ntohl b_ip l.ips.1

  b_knows_ip : ntohl b.peer.ip ≡ a_ip
  b_knows_ip = ap (λ (x : Addr). ntohl x.ip) (l.peers.1 ∙ l.addrs.0) ∙ htonl-ntohl a_ip l.ips.0

  a_knows_port : ntohs a.peer.port ≡ ntohs (htons (ntohs b.addr.port))
  a_knows_port = ap ntohs (a_peer_port ∙ sym b_turned)

  b_knows_port : ntohs b.peer.port ≡ ntohs (htons (ntohs a.addr.port))
  b_knows_port = ap ntohs (b_peer_port ∙ sym a_turned)

  -- The sockets while the connection is closed.
  abbrev pub a1 : Sock
  a1 = record (tcp_fin a_ip (record a { state = disconnecting })).1 { tcp = fin_wait_1 }

  abbrev fin1 : Segment
  fin1 = (tcp_fin a_ip (record a { state = disconnecting })).0

  abbrev b1 : Sock
  b1 = record (tcp_ack b_ip false (heard fin1 b)).1 { tcp = close_wait }

  abbrev ack2 : Segment
  ack2 = (tcp_ack b_ip false (heard fin1 b)).0

  abbrev pub fin2 : Segment
  fin2 = (tcp_fin b_ip b1).0

  abbrev b2 : Sock
  b2 = record (tcp_fin b_ip b1).1 { tcp = last_ack }

  started : with_segment (release a_ip a) ≡ some (fin1, a1)
  started = release-some a_ip a l.state l.tcps.0

  answered : deliver b_ip fin1 b ≡ some (ack2 ∷ fin2 ∷ [], b2)
  unfolding tcp_fin tcp_ack segment
  answered =
      deliver-taken b_ip fin1 b b2 _ l.refs.1 to_b (net_receive-fin b_ip fin1 b refl refl l.tcps.1)

  -- A connection that one side closes is closed on both: where the ACK and the FIN of the other side arrive
  -- in this order, the call that waits returns and both sockets are closed. The closing side is given
  -- back to the table; the other keeps its references.
  pub close_in_order-closed :
      (a' : Sock) × (b' : Sock) × (close_in_order a_ip b_ip a b ≡ some (a', b'))
      × ((a'.tcp ≡ closed) × (b'.tcp ≡ closed) × (a'.ref ≡ 0) × (b'.ref ≡ b.ref))
  unfolding close_in_order tcp_fin tcp_ack segment
  close_in_order-closed =
      let a2 : Sock = record (heard ack2 a1) { tcp = fin_wait_2 } in
      let e3 : deliver a_ip ack2 a1 ≡ some ([], a2) =
        deliver-taken a_ip ack2 a1 a2 [] l.refs.0 to_a
          (net_receive-fin_acked a_ip ack2 a1 refl refl refl refl a_knows_ip a_knows_port) in
      let a3 : Sock = record (heard fin2 a2) { credit = a2.credit + 1 } in
      let e4 : deliver a_ip fin2 a2 ≡ some ([], a3) =
        deliver-taken a_ip fin2 a2 a3 [] l.refs.0 to_a
          (net_receive-second_fin a_ip fin2 a2 refl refl refl) in
      let a4 : Sock = record a3 { credit = a.credit } in
      let ack5 : Segment = (tcp_ack a_ip false a4).0 in
      let a5 : Sock = record (tcp_ack a_ip false a4).1 { tcp = closed; ref = 0 } in
      let e5 : released a_ip a3 ≡ some (ack5, a5) = released-some a_ip a3 a.credit refl in
      let b3 : Sock = record (heard ack5 b2) { tcp = closed } in
      let e6 : deliver b_ip ack5 b2 ≡ some ([], b3) =
        deliver-taken b_ip ack5 b2 b3 [] l.refs.1 to_b
          (net_receive-last_ack b_ip ack5 b2 refl refl refl refl b_knows_ip b_knows_port) in
      (
        a5,
        b3,
        then_some _ _ _ started
            ∙ then_some _ _ _ answered
            ∙ then_some _ _ _ e3
            ∙ then_some _ _ _ e4
            ∙ then_some _ _ _ e5
            ∙ then_some _ _ _ e6,
        (refl, refl, refl, refl),
      )
