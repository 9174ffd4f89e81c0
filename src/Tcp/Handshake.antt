-- ===== src/Tcp/Handshake.antt =====
-- The three segments that connect two TCP sockets of src/socket_stream.cc.
use babyos.Prelude.{
  ℕ, ◌+◌, ◌-◌, ◌≤◌, ◌<◌, ◌++◌, ◌≡◌, refl, ◌∙◌, sym, ap, true, false, ◌&&◌, Option, none, some, List,
  [], ◌∷◌, ◌==◌, if◌then◌else◌, ◌>>=◌, then_some, if_true, ltb, u32_mod, arith,
}
use babyos.Net.{htons, ntohs, htonl, ntohl}
use babyos.Net.Order.{htons-ntohs, htonl-ntohl, ntohs-eq, ntohl-eq}
use babyos.Tcp.{
  closed, listen, syn_sent, syn_rcvd, established, unconnected, connected, Addr, Sock, Segment,
  is_state, next_ack, tcp_syn, tcp_ack, receive_syn, receive_ack, net_receive, syn_to_dup, segment,
}
use babyos.Tcp.Calls.{down, accept, accept_peer, accepted, may_connect, connect, connected_end}

-- `stream_net_receive` at a socket: the segment reaches it by its port and is taken; `none` else.
unfoldable pub deliver : ℕ → Segment → Sock → Option (List Segment × Sock)
deliver my_ip seg s =
    let (taken, sent, s') = net_receive my_ip seg s in
    if ltb 0 s.ref && s.addr.port == seg.dst_port && taken then some (sent, s') else none

-- A client connects to a listening server, for which the new socket stands ready: what becomes of
-- the client and the new socket, `none` where a call waits or a segment is not taken.
unfoldable pub handshake : ℕ → ℕ → ℕ → Sock → Sock → Sock → Option (Sock × Sock)
handshake client_ip server_ip port client server new = do
  (syn, client) ← connect client_ip port server.addr client
  (_, server) ← deliver server_ip syn server
  (server, syn_ack, new) ← accept server_ip server (syn_to_dup syn new)
  (_, client) ← deliver client_ip syn_ack client
  (ack, client) ← connected_end client_ip client
  (_, new) ← deliver server_ip ack new
  new ← accepted new
  some (client, new)

pub deliver-taken :
    (my_ip : ℕ) (seg : Segment) (s s' : Sock) (sent : List Segment)
    → 1 ≤ s.ref
    → s.addr.port ≡ seg.dst_port
    → net_receive my_ip seg s ≡ (true, sent, s')
    → deliver my_ip seg s ≡ some (sent, s')
unfolding deliver
deliver-taken my_ip seg s s' sent used port e =
    ap (λ r. if ltb 0 s.ref && s.addr.port == seg.dst_port && r.0 then some (r.1, r.2) else none) e
    ∙ if_true _ _
        (let t : (ltb 0 s.ref && s.addr.port == seg.dst_port && true) ≡ true = ground arith in t)

abbrev pub heard : Segment → Sock → Sock
heard seg s = record s { ack_no = next_ack seg }

net_receive-syn :
    (my_ip : ℕ) (seg : Segment) (s : Sock)
    → seg.syn ≡ true
    → seg.ack ≡ false
    → s.tcp ≡ listen
    → net_receive my_ip seg s ≡ (
      true,
      [],
      record (heard seg s) {
        connecting =
            s.connecting
            ++ record { ip = ntohl seg.src_ip; port = ntohs (ntohs seg.src_port) } ∷ [];
        credit = s.credit + 1;
      },
    )
unfolding net_receive receive_syn
net_receive-syn my_ip seg s y a t = ground arith

net_receive-syn_ack :
    (my_ip : ℕ) (seg : Segment) (s : Sock)
    → seg.syn ≡ true
    → seg.ack ≡ true
    → s.tcp ≡ syn_sent
    → net_receive my_ip seg s ≡ (
      true,
      [],
      record (heard seg s) {
        peer = record { ip = htonl seg.src_ip; port = htons (ntohs seg.src_port) };
        credit = s.credit + 1;
      },
    )
unfolding net_receive receive_syn
net_receive-syn_ack my_ip seg s y a t = ground arith

net_receive-ack :
    (my_ip : ℕ) (seg : Segment) (s : Sock)
    → seg.syn ≡ false
    → seg.fin ≡ false
    → seg.ack ≡ true
    → s.tcp ≡ syn_rcvd
    → ntohl s.peer.ip ≡ seg.src_ip
    → ntohs s.peer.port ≡ ntohs seg.src_port
    → net_receive my_ip seg s ≡ (true, [], record (heard seg s) { credit = s.credit + 1 })
unfolding net_receive receive_ack
net_receive-ack my_ip seg s y f a t ip port = ground arith

-- A client that may connect, a server that listens and a new socket that is ready for `accept`.
pub record Meeting (client_ip server_ip port server_port new_port : ℕ) (client server new : Sock)
    : Type 0 where
  pub ips : (client_ip < u32_mod) × (server_ip < u32_mod)
  pub ports : (port < 0x1_0000) × (server_port < 0x1_0000) × (new_port < 0x1_0000)
  pub client_ref : 1 ≤ client.ref
  pub client_state : client.state ≡ unconnected
  pub client_tcp : client.tcp ≡ closed
  pub client_credit : client.credit ≡ 0
  pub server_ref : 1 ≤ server.ref
  pub server_tcp : server.tcp ≡ listen
  pub server_addr : server.addr.port ≡ htons server_port
  pub no_peer : server.connecting ≡ []
  pub new_ref : 1 ≤ new.ref
  pub new_addr : new.addr ≡ record { ip = htonl server_ip; port = htons new_port }
  pub new_credit : new.credit ≡ 0

-- Two sockets that are connected with each other, with no `down` to spare.
pub record Joined (a b : Sock) : Type 0 where
  pub tcps : (a.tcp ≡ established) × (b.tcp ≡ established)
  pub states : (a.state ≡ connected) × (b.state ≡ connected)
  pub peers : (a.peer ≡ b.addr) × (b.peer ≡ a.addr)
  pub credits : (a.credit ≡ 0) × (b.credit ≡ 0)

-- What `ntohs` and `ntohl` make of ports and addresses that have been turned several times.
module _ (n : ℕ) (h : n < 0x1_0000) where
  pub port_back : htons (ntohs (htons n)) ≡ htons n
  port_back = ap htons (htons-ntohs n h)

  port_seen : ntohs (ntohs (htons (ntohs (htons n)))) ≡ htons n
  port_seen =
      ap ntohs (htons-ntohs (ntohs (htons n)) (omega (arith, htons-ntohs n h)) ∙ htons-ntohs n h)
      ∙ ntohs-eq n

pub down-some : (s : Sock) (k : ℕ) → s.credit ≡ k + 1 → down s ≡ some (record s { credit = k })
unfolding down
down-some s k e =
    if_true _ _ (let t : ltb 0 s.credit ≡ true = ground arith in t)
    ∙ ap (λ c. some (record s { credit = c })) (let q : s.credit - 1 ≡ k = omega arith in q)

connected_end-some :
    (my_ip : ℕ) (s : Sock) (k : ℕ)
    → s.credit ≡ k + 1
    → connected_end my_ip s
      ≡ some (tcp_ack my_ip false (record s { credit = k; tcp = established; state = connected }))
unfolding connected_end
connected_end-some my_ip s k e = rw (down-some s k e, connected_end) refl

accepted-some :
    (s : Sock) (k : ℕ)
    → s.credit ≡ k + 1
    → accepted s ≡ some (record s { credit = k; tcp = established; state = connected })
unfolding accepted
accepted-some s k e = rw (down-some s k e, accepted) refl

abbrev pub same_addr : ℕ → ℕ → Addr
same_addr ip port = record { ip = ip; port = port }

-- Where the client is a closed, unconnected socket in use, the server a socket in use that listens on the port with no
-- other client waiting, and the new socket one in use with the server's address and a port of its own (addresses of 32 bits,
-- ports of 16), and neither the client nor the new socket has a `down` to spare, `connect`, `accept` and the three segments
-- succeed and leave the client and the new socket connected with each other, both established.
pub handshake-Joined :
    (client_ip server_ip port server_port new_port : ℕ) (client server new : Sock)
    → Meeting client_ip server_ip port server_port new_port client server new
    → (client' : Sock) × (new' : Sock) × (handshake client_ip server_ip port client server new
        ≡ some (client', new'))
      × Joined client' new'
unfolding handshake connect may_connect accept accept_peer tcp_syn tcp_ack segment syn_to_dup
handshake-Joined client_ip server_ip port server_port new_port client server new m =
    let (iph, ips) = m.ips in
    let (ph, sh, nh) = m.ports in
    let c0 : Sock = record client { addr = record { ip = htonl client_ip; port = htons port } } in
    let c1 : Sock = record (tcp_syn client_ip server.addr c0).1 { tcp = syn_sent } in
    let syn : Segment = (tcp_syn client_ip server.addr c0).0 in
    let e1 : connect client_ip port server.addr client ≡ some (syn, c1) =
      ground (arith, m.client_state, m.client_tcp) in
    let peer : Addr = record { ip = ntohl syn.src_ip; port = ntohs (ntohs syn.src_port) } in
    let l1 : Sock = record (heard syn server) {
      connecting = server.connecting ++ peer ∷ [];
      credit = server.credit + 1;
    } in
    let e2 : deliver server_ip syn server ≡ some ([], l1) =
      deliver-taken server_ip syn server l1 [] m.server_ref
        (m.server_addr ∙ sym (ap (λ x. htons (ntohs x)) m.server_addr ∙ port_back server_port sh))
        (net_receive-syn server_ip syn server refl refl m.server_tcp) in
    let n0 : Sock = syn_to_dup syn new in
    let n1 : Sock = (tcp_ack server_ip true (record n0 { peer = peer; tcp = syn_rcvd })).1 in
    let syn_ack : Segment =
      (tcp_ack server_ip true (record n0 { peer = peer; tcp = syn_rcvd })).0 in
    let e3 : accept server_ip l1 n0 ≡ some (record l1 { connecting = [] }, syn_ack, n1) =
      if_true _ _
        (let t : is_state server.tcp listen ≡ true = ap (λ t. is_state t listen) m.server_tcp in t)
      ∙ ap (λ (xs : List Addr). accept_peer server_ip (xs ++ peer ∷ []) l1 n0) m.no_peer in
    let own : ntohs new.addr.port ≡ new_port =
      ap (λ (a : Addr). ntohs a.port) m.new_addr ∙ htons-ntohs new_port nh in
    let at : new.addr.port ≡ htons new_port = ap (λ (a : Addr). a.port) m.new_addr in
    let back : htons (ntohs syn_ack.src_port) ≡ new.addr.port =
      ap (λ x. htons (ntohs (htons x))) own ∙ port_back new_port nh ∙ sym at in
    let c2 : Sock = record (heard syn_ack c1) {
      peer = record { ip = htonl syn_ack.src_ip; port = htons (ntohs syn_ack.src_port) };
      credit = c1.credit + 1;
    } in
    let e4 : deliver client_ip syn_ack c1 ≡ some ([], c2) =
      deliver-taken client_ip syn_ack c1 c2 [] m.client_ref
        (sym (ap (λ x. htons (ntohs x)) (port_seen port ph) ∙ port_back port ph))
        (net_receive-syn_ack client_ip syn_ack c1 refl refl refl) in
    let c3 : Sock = record c2 { credit = client.credit; tcp = established; state = connected } in
    let ack : Segment = (tcp_ack client_ip false c3).0 in
    let e5 : connected_end client_ip c2 ≡ some (ack, (tcp_ack client_ip false c3).1) =
      connected_end-some client_ip c2 client.credit refl in
    let n2 : Sock = record (heard ack n1) { credit = n1.credit + 1 } in
    let e6 : deliver server_ip ack n1 ≡ some ([], n2) =
      deliver-taken server_ip ack n1 n2 [] m.new_ref
        (sym (ap (λ x. htons (ntohs x)) back ∙ ap htons own ∙ sym at))
        (net_receive-ack server_ip ack n1 refl refl refl refl
          (ap ntohl (ntohl-eq client_ip) ∙ htonl-ntohl client_ip iph)
          (ap ntohs (port_seen port ph) ∙ sym (ap ntohs (port_back port ph)))) in
    let n3 : Sock = record n2 { credit = new.credit; tcp = established; state = connected } in
    let e7 : accepted n2 ≡ some n3 = accepted-some n2 new.credit refl in
    (
      (tcp_ack client_ip false c3).1,
      n3,
      then_some _ _ _ e1
          ∙ then_some _ _ _ e2
          ∙ then_some _ _ _ e3
          ∙ then_some _ _ _ e4
          ∙ then_some _ _ _ e5
          ∙ then_some _ _ _ e6
          ∙ then_some _ _ _ e7,
      record {
        tcps = (refl, refl);
        states = (refl, refl);
        peers = (
          ap (λ x. same_addr (htonl server_ip) x) (back ∙ at) ∙ sym m.new_addr,
          ap (λ x. same_addr x peer.port) (ntohl-eq client_ip)
              ∙ ap (λ x. same_addr (htonl client_ip) x) (port_seen port ph),
        );
        credits = (m.client_credit, m.new_credit);
      },
    )
