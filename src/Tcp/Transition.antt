-- ===== src/Tcp/Transition.antt =====
-- The states that a received segment takes a TCP socket of src/socket_stream.cc through.
use babyos.Prelude.{
  ℕ, ◌≡◌, ◌≢◌, inl, inr, refl, ◌∙◌, sym, ap, subst, Bool, true, false, Bool-cases, not, List, [],
  ◌∷◌, ◌&&◌, if_true, if_false, arith,
}
use babyos.Net.{ntohs}
use babyos.SockBuf.{SockBuf, Status, done, failed, asleep, put_data}
use babyos.Tcp.{
  TcpState, closed, established, fin_wait_1, fin_wait_2, last_ack, Sock, Segment, Received,
  is_state, tcp_ack, receive_syn, receive_ack, stored_data, receive_data, receive_fin, net_receive,
  buffer_of, next_ack,
}

-- The diagram of the code: a FIN closes any socket that is not connected.
pub data Edge (seg : Segment) : TcpState → TcpState → Type 0 where
  stays : {s : TcpState} → Edge seg s s
  fin_acked : seg.ack ≡ true → Edge seg fin_wait_1 fin_wait_2
  last_acked : seg.ack ≡ true → Edge seg last_ack closed
  passive : seg.fin ≡ true → Edge seg established last_ack
  aborts : {s : TcpState} → seg.fin ≡ true → s ≢ established → s ≢ fin_wait_2 → Edge seg s closed

ruleset edges = (stays, fin_acked, last_acked, passive, aborts)

receive_syn-Edge : (seg : Segment) (port : ℕ) (s : Sock) → (receive_syn seg port s).2.tcp ≡ s.tcp
unfolding receive_syn
receive_syn-Edge seg port s = ground arith

receive_ack-Edge :
    (seg : Segment) (port : ℕ) (s : Sock)
    → seg.ack ≡ true
    → Edge seg s.tcp (receive_ack seg port s).2.tcp
unfolding receive_ack
receive_ack-Edge seg port s a = grind (arith, edges)

receive_fin-Edge :
    (my_ip : ℕ) (seg : Segment) (s : Sock)
    → seg.fin ≡ true
    → Edge seg s.tcp (receive_fin my_ip seg s).2.tcp
unfolding receive_fin
receive_fin-Edge my_ip seg s f = grind (arith, edges)

pub stored_data-Edge :
    (my_ip : ℕ) (seg : Segment) (s : Sock) (r : ℕ × Status × SockBuf)
    → (stored_data my_ip seg s r).2.tcp ≡ s.tcp
unfolding stored_data tcp_ack
stored_data-Edge my_ip seg s (count, failed, buffer) = refl
stored_data-Edge my_ip seg s (count, asleep, buffer) = refl
stored_data-Edge my_ip seg s (count, done, buffer) = refl

receive_data-tcp : (my_ip : ℕ) (seg : Segment) (s : Sock) → (receive_data my_ip seg s).2.tcp ≡ s.tcp
unfolding receive_data
receive_data-tcp my_ip seg s = stored_data-Edge my_ip seg s (put_data seg.payload (buffer_of s))

-- A received segment takes the socket along an edge of the diagram.
pub net_receive-Edge :
    (my_ip : ℕ) (seg : Segment) (s : Sock) → Edge seg s.tcp (net_receive my_ip seg s).2.tcp
unfolding net_receive
net_receive-Edge my_ip seg s =
    let s' : Sock = record s { ack_no = next_ack seg } in
    elim (Bool-cases seg.syn) [
      | inl y ↦
          subst (λ (r : Received). Edge seg s.tcp r.2.tcp) (sym (if_true _ _ y))
            (subst (Edge seg s.tcp) (sym (receive_syn-Edge seg (ntohs seg.src_port) s')) stays)
      | inr y ↦
          subst (λ (r : Received). Edge seg s.tcp r.2.tcp) (sym (if_false _ _ y))
            (elim (Bool-cases seg.fin) [
              | inl f ↦
                  subst (λ (r : Received). Edge seg s.tcp r.2.tcp) (sym (if_true _ _ f))
                    (receive_fin-Edge my_ip seg s' f)
              | inr f ↦
                  subst (λ (r : Received). Edge seg s.tcp r.2.tcp) (sym (if_false _ _ f))
                    (elim (Bool-cases seg.ack) [
                      | inl a ↦
                          subst (λ (r : Received). Edge seg s.tcp r.2.tcp) (sym (if_true _ _ a))
                            (receive_ack-Edge seg (ntohs seg.src_port) s' a)
                      | inr a ↦
                          subst (λ (r : Received). Edge seg s.tcp r.2.tcp) (sym (if_false _ _ a))
                            (subst (Edge seg s.tcp) (sym (receive_data-tcp my_ip seg s')) stays)
                    ])
            ])
    ]

-- A segment that `net_receive` takes for a FIN.
abbrev pub is_fin : Segment → Bool
is_fin seg = not seg.syn && seg.fin

abbrev pub no_fin : List Segment → Bool
no_fin [] = true
no_fin (seg ∷ segs) = not (is_fin seg) && no_fin segs

unfoldable pub receive_all : ℕ → List Segment → Sock → Sock
receive_all my_ip [] s = s
receive_all my_ip (seg ∷ segs) s = receive_all my_ip segs (net_receive my_ip seg s).2

receive_ack-established :
    (seg : Segment) (port : ℕ) (s : Sock)
    → is_state (receive_ack seg port s).2.tcp established ≡ is_state s.tcp established
unfolding receive_ack
receive_ack-established seg port s = grind arith

receive_fin-established :
    (my_ip : ℕ) (seg : Segment) (s : Sock)
    → is_state (receive_fin my_ip seg s).2.tcp established ≡ false
unfolding receive_fin
receive_fin-established my_ip seg s = grind arith

net_receive-established :
    (my_ip : ℕ) (seg : Segment) (s : Sock)
    → is_state (net_receive my_ip seg s).2.tcp established
      ≡ (is_state s.tcp established && not (is_fin seg))
unfolding net_receive
net_receive-established my_ip seg s =
    let s' : Sock = record s { ack_no = next_ack seg } in
    ground (
      arith,
      ap (λ t. is_state t established) (receive_syn-Edge seg (ntohs seg.src_port) s'),
      receive_fin-established my_ip seg s',
      receive_ack-established seg (ntohs seg.src_port) s',
      ap (λ t. is_state t established) (receive_data-tcp my_ip seg s'),
    )

-- Whatever segments a socket receives, it is connected behind them exactly where it was before and none
-- of them was a FIN: only calls of a process connect it.
pub receive_all-established :
    (my_ip : ℕ) (segs : List Segment) (s : Sock)
    → is_state (receive_all my_ip segs s).tcp established
      ≡ (is_state s.tcp established && no_fin segs)
unfolding receive_all
receive_all-established my_ip [] s = ground arith
receive_all-established my_ip (seg ∷ segs) s =
    receive_all-established my_ip segs (net_receive my_ip seg s).2
    ∙ ground (arith, net_receive-established my_ip seg s)
