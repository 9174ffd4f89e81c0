-- ===== src/Arp/Answered.antt =====
-- A packet that waits in src/arp.cc until its neighbour answers.
use babyos.Prelude.{
  ℕ, ◌≤◌, ◌≡◌, refl, ◌∙◌, sym, ap, subst, Bool, true, false, ◌&&◌, ◌||◌, Option, none, some, List,
  [], ◌∷◌, ◌++◌, append-nil, ◌==◌, if_true, arith,
}
use babyos.Arp.{
  Node, Arp, Effect, taken, freed, sent, requested, replied, armed, disarmed, reply, Host, Event,
  outgoing, incoming, lookup_cache, find_node, has_buffer, wait_at, add_to_wait_queue, answer_node,
  process_wait_queue, send_all, receive, forward_to, transmit, check_ip, next_hop, step, run,
  arp_retry,
}
use babyos.Arp.Pending.{
  timeouts, no_reply, no_reply-head, no_reply-tail, timeouts-cons, Pending, step-Pending,
}
use babyos.Arp.Queue.{find_node-append_new}

-- The packet of a buffer goes out to a hardware address.
abbrev pub sends : ℕ → ℕ → List Effect → Bool
sends mac buf [] = false
sends mac buf (sent m b ∷ es) = m == mac && b == buf || sends mac buf es
sends mac buf (_ ∷ es) = sends mac buf es

sends-append :
    (mac buf : ℕ) (es es' : List Effect)
    → sends mac buf es' ≡ true
    → sends mac buf (es ++ es') ≡ true
sends-append mac buf [] es' h = h
sends-append mac buf (sent m b ∷ es) es' h = ground (arith, sends-append mac buf es es' h)
sends-append mac buf (taken x ∷ es) es' h = sends-append mac buf es es' h
sends-append mac buf (freed x ∷ es) es' h = sends-append mac buf es es' h
sends-append mac buf (requested x ∷ es) es' h = sends-append mac buf es es' h
sends-append mac buf (replied m x ∷ es) es' h = sends-append mac buf es es' h
sends-append mac buf (armed x ∷ es) es' h = sends-append mac buf es es' h
sends-append mac buf (disarmed x ∷ es) es' h = sends-append mac buf es es' h

send_all-sends :
    (mac buf : ℕ) (bs : List ℕ) (es : List Effect)
    → has_buffer buf bs ≡ true
    → sends mac buf (send_all mac bs ++ es) ≡ true
unfolding has_buffer send_all
send_all-sends mac buf [] es h = ground arith
send_all-sends mac buf (b ∷ bs) es h = ground (arith, send_all-sends mac buf bs es)

module _ (ip buf : ℕ) where
  reply-sends :
      (mac : ℕ) (h : Host) (a : Arp)
      → Pending ip buf 0 a.queue
      → sends mac buf (step h (incoming (reply ip mac)) a).1 ≡ true
  unfolding step receive process_wait_queue answer_node
  reply-sends mac h a p =
      ap (λ o. sends mac buf (answer_node ip mac a.queue o).1) p.found
      ∙ send_all-sends mac buf p.node.buffers (disarmed ip ∷ []) p.waiting

  run-sends :
      (mac : ℕ) (h : Host) (es : List Event) (a : Arp)
      → no_reply ip es ≡ true
      → Pending ip buf (timeouts ip es) a.queue
      → sends mac buf (run h (es ++ incoming (reply ip mac) ∷ []) a).1 ≡ true
  unfolding run
  run-sends mac h [] a n p =
      ap (sends mac buf) (append-nil (step h (incoming (reply ip mac)) a).1) ∙ reply-sends mac h a p
  run-sends mac h (e ∷ es) a n p = sends-append mac buf (step h e a).1 _ (
      run-sends mac h es (step h e a).0 (no_reply-tail ip e es n) (
        step-Pending ip buf (timeouts ip es) h e a (no_reply-head ip e es n)
          (subst (λ k. Pending ip buf k a.queue) (timeouts-cons ip e es) p)))

transmit-Pending :
    (h : Host) (ip buf : ℕ) (a : Arp)
    → check_ip h ip ≡ true
    → lookup_cache (next_hop h ip) a.cache ≡ none
    → find_node (next_hop h ip) a.queue ≡ none
    → Pending (next_hop h ip) buf arp_retry (step h (outgoing ip (some buf)) a).0.queue
unfolding step transmit forward_to add_to_wait_queue wait_at has_buffer
transmit-Pending h ip buf a ok unknown free =
    let hop : ℕ = next_hop h ip in
    let new : Node = record { ip = hop; retry = arp_retry; buffers = buf ∷ [] } in
    subst (λ (r : Arp × List Effect). Pending hop buf arp_retry r.0.queue) (sym (if_true _ _ ok))
      (subst (λ (o : Option ℕ). Pending hop buf arp_retry (forward_to hop buf a o).0.queue)
        (sym unknown)
        (subst (λ (o : Option Node). Pending hop buf arp_retry (wait_at hop buf a.queue o).0)
          (sym free)
          (record {
            node = new;
            found = find_node-append_new hop new a.queue refl free;
            waiting = ground arith;
            left = omega arith;
          })))

-- A packet whose next hop is not known, and for which none waits, goes out to the hardware address that the next hop
-- replies with, whatever happens until then, where the request has timed out three times at most.
pub transmit-replied :
    (h : Host) (ip buf mac : ℕ) (es : List Event) (a : Arp)
    → check_ip h ip ≡ true
    → lookup_cache (next_hop h ip) a.cache ≡ none
    → find_node (next_hop h ip) a.queue ≡ none
    → no_reply (next_hop h ip) es ≡ true
    → timeouts (next_hop h ip) es ≤ arp_retry
    → sends mac buf
        (run h (outgoing ip (some buf) ∷ es ++ incoming (reply (next_hop h ip) mac) ∷ []) a).1
      ≡ true
unfolding run
transmit-replied h ip buf mac es a ok unknown free silent soon =
    let p = transmit-Pending h ip buf a ok unknown free in
    let e : Event = outgoing ip (some buf) in
    sends-append mac buf (step h e a).1 _ (
      run-sends (next_hop h ip) buf mac h es (step h e a).0 silent (record {
        node = p.node;
        found = p.found;
        waiting = p.waiting;
        left = omega (arith, p.left, soon);
      }))
