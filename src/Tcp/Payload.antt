-- ===== src/Tcp/Payload.antt =====
-- Data over a connection of two TCP sockets of src/socket_stream.cc.
use babyos.Prelude.{
  ℕ, zero, suc, ◌+◌, ◌-◌, ◌≤◌, ◌<◌, ◌≡◌, inl, inr, ◌⊎◌, refl, some, none, Bool-cases, ltb, if_true,
  if_false, ◌∙◌, sym, ap, subst, true, false, List, [], ◌∷◌, ◌++◌, length, length-append, arith,
}
use babyos.Net.{ntohl, ntohs, ext_buf_size}
use babyos.SockBuf.{SockBuf, done, put_data, get_data}
use babyos.SockBuf.Laws.{Holds, put_data_all_or_none, get_data_drains}
use babyos.Tcp.{
  Sock, Segment, next_ack, tcp_ack, tcp_send, stored_data, receive_data, net_receive, transmit,
  segment, total_length, pseudo_size, zeros, hdr_size, min_length, buffer_of,
}
use babyos.Tcp.Calls.{write, read}
use babyos.Tcp.Handshake.{heard}

-- What `transmit` makes of some bytes.
abbrev pub padded : List ℕ → List ℕ
padded bytes = bytes ++ zeros (min_length - (length bytes + hdr_size))

length-zeros : (n : ℕ) → length (zeros n) ≡ n
unfolding zeros
length-zeros zero = refl
length-zeros (suc n) = ap suc (length-zeros n)

padded-length : (bytes : List ℕ) → length (padded bytes) ≡ length bytes + (6 - length bytes)
padded-length bytes = omega (
  arith,
  length-append bytes (zeros (26 - (length bytes + 20))),
  length-zeros (26 - (length bytes + 20)),
)

net_receive-data :
    (my_ip : ℕ) (seg : Segment) (s : Sock)
    → seg.syn ≡ false
    → seg.fin ≡ false
    → seg.ack ≡ false
    → net_receive my_ip seg s ≡ receive_data my_ip seg (heard seg s)
unfolding net_receive
net_receive-data my_ip seg s y f a = ground arith

receive_data-stored :
    (my_ip : ℕ) (seg : Segment) (s : Sock) (b : SockBuf) (n : ℕ)
    → put_data seg.payload (buffer_of s) ≡ (n, done, b)
    → receive_data my_ip seg s ≡ (
        let (sent, s') = tcp_ack my_ip false (record s { buffer = b; ack_no = next_ack seg }) in
        (true, sent ∷ [], s'))
unfolding receive_data stored_data
receive_data-stored my_ip seg s b n e = ap (stored_data my_ip seg s) e

-- What becomes of bytes that arrive at `b` in the segment `seg`: they are acknowledged, and the next read returns them
-- with the padding.
pub record Carried (b_ip size : ℕ) (bytes : List ℕ) (seg : Segment) (b : Sock) : Type 0 where
  pub reply : Segment
  pub after : Sock
  pub drained : Sock
  pub taken : net_receive b_ip seg b ≡ (true, reply ∷ [], after)
  pub acked : reply.ack ≡ true
  pub seen : read size after ≡ (padded bytes, done, drained)
  pub nothing : Holds 0 (buffer_of drained) []

-- A connected socket with an empty buffer that has room for bytes and for their padding to six receives what another
-- one writes in `write`, for fewer than 65516 bytes, where the network buffers are not used up and the layers below
-- carry the segment: up to 2016 bytes are sent, acknowledged and returned by the next read of that size, all of them in order,
-- and behind fewer than six the padding too; of more bytes nothing is sent.
pub write-read-padded :
    (a_ip b_ip size : ℕ) (c : ℕ) (cs : List ℕ) (a b : Sock)
    → Holds 0 (buffer_of b) []
    → length (c ∷ cs) < 65516
    → length (c ∷ cs) + (6 - length (c ∷ cs)) ≤ b.buffer.left
    → length (c ∷ cs) + (6 - length (c ∷ cs)) ≤ size
    → ((length (c ∷ cs) ≤ 2016)
        × (seg : Segment) × ((write a_ip (c ∷ cs) a).0 ≡ some seg)
        × Carried b_ip size (c ∷ cs) seg b)
      ⊎ ((2016 < length (c ∷ cs)) × ((write a_ip (c ∷ cs) a).0 ≡ none))
unfolding write read tcp_send tcp_ack transmit segment
write-read-padded a_ip b_ip size c cs a b v short_enough room large =
    let bytes : List ℕ = c ∷ cs in
    let seg : Segment =
      segment a_ip (ntohl a.peer.ip) (ntohs a.addr.port) (ntohs a.peer.port) a.seq_no 0 false false
        false bytes in
    let total = padded-length bytes in
    elim (Bool-cases (ltb ext_buf_size (total_length bytes + pseudo_size))) [
      | inl big ↦ inr (ground (arith, big), if_true _ _ big)
      | inr small ↦ inl (
        ground (arith, small),
        seg,
        if_false _ _ small,
        (elim (put_data_all_or_none (padded bytes) (buffer_of b) [] v) [
          | inr (short, _) ↦ absurd (omega (arith, short, total, room))
          | inl (_, buffer, e, w) ↦
              let b1 : Sock = record (heard seg b) { buffer = buffer; ack_no = next_ack seg } in
              let b' : Sock = (tcp_ack b_ip false b1).1 in
              let same : buffer_of b' ≡ buffer =
                ap (λ t. record buffer { connected = t }) (v.connected ∙ sym w.connected) in
              let (left, e', w') =
                get_data_drains size buffer c (cs ++ zeros (26 - (length bytes + 20))) w
                  (omega (arith, total, large)) in
              record {
                reply = (tcp_ack b_ip false b1).0;
                after = b';
                drained = record b' { buffer = left };
                taken =
                    net_receive-data b_ip seg b refl refl refl
                    ∙ receive_data-stored b_ip seg (heard seg b) buffer (length (padded bytes)) e;
                acked = refl;
                seen =
                    ap (λ r. (r.0, r.1, record b' { buffer = r.2 })) (ap (get_data size) same ∙ e');
                nothing =
                    subst (λ x. Holds 0 x [])
                      (ap (λ t. record left { connected = t }) (w'.connected ∙ sym v.connected)) w';
              }
        ]),
      )
    ]
