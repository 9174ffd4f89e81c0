-- ===== src/Arp/Pending.antt =====
-- A packet that waits in src/arp.cc while its neighbour does not answer.
use babyos.Prelude.{
  ℕ, ◌+◌, ◌-◌, ◌≤◌, ◌≡◌, ◌≢◌, refl, ◌∙◌, sym, ap, subst, Bool, true, Bool-cases, ◌&&◌, not, inl,
  inr, Option, none, some, List, [], ◌∷◌, ◌++◌, ltb, ◌==◌, if◌then◌else◌, if_true, if_false, arith,
}
use babyos.Arp.{
  Node, Arp, Effect, request, reply, ignored, Host, Event, outgoing, incoming, timeout,
  lookup_cache, find_node, set_node, has_buffer, wait_at, add_to_wait_queue, answer_node,
  process_wait_queue, time_out_node, request_timeout, receive, forward_to, transmit, check_ip,
  next_hop, step,
}
use babyos.Arp.Queue.{
  find_node-ip, find_node-set_self, find_node-set_other, find_node-erase_other,
  find_node-append_some,
}

abbrev pub timeouts : ℕ → List Event → ℕ
timeouts ip [] = 0
timeouts ip (timeout i ∷ es) = (if i == ip then 1 else 0) + timeouts ip es
timeouts ip (_ ∷ es) = timeouts ip es

abbrev pub no_reply : ℕ → List Event → Bool
no_reply ip [] = true
no_reply ip (incoming (reply ip_src ether_src) ∷ es) = not (ip_src == ip) && no_reply ip es
no_reply ip (_ ∷ es) = no_reply ip es

has_buffer-append :
    (buf b : ℕ) (bs : List ℕ) → has_buffer buf bs ≡ true → has_buffer buf (bs ++ b ∷ []) ≡ true
unfolding has_buffer
has_buffer-append buf b [] h = ground arith
has_buffer-append buf b (x ∷ bs) h = ground (arith, has_buffer-append buf b bs)

-- The buffer waits for the address, and as many timeouts may still come.
pub record Pending (ip buf k : ℕ) (nodes : List Node) : Type 0 where
  pub node : Node
  pub found : find_node ip nodes ≡ some node
  pub waiting : has_buffer buf node.buffers ≡ true
  pub left : k ≤ node.retry

module _ (ip : ℕ) where
  pub no_reply-head :
      (e : Event) (es : List Event) → no_reply ip (e ∷ es) ≡ true → no_reply ip (e ∷ []) ≡ true
  no_reply-head (outgoing i b) es n = refl
  no_reply-head (incoming (request x y z)) es n = refl
  no_reply-head (incoming (reply i m)) es n = ground arith
  no_reply-head (incoming ignored) es n = refl
  no_reply-head (timeout i) es n = refl

  pub no_reply-tail :
      (e : Event) (es : List Event) → no_reply ip (e ∷ es) ≡ true → no_reply ip es ≡ true
  no_reply-tail (outgoing i b) es n = n
  no_reply-tail (incoming (request x y z)) es n = n
  no_reply-tail (incoming (reply i m)) es n = ground arith
  no_reply-tail (incoming ignored) es n = n
  no_reply-tail (timeout i) es n = n

  pub timeouts-cons :
      (e : Event) (es : List Event) → timeouts ip (e ∷ es) ≡ timeouts ip (e ∷ []) + timeouts ip es
  timeouts-cons (outgoing i b) es = omega arith
  timeouts-cons (incoming (request x y z)) es = omega arith
  timeouts-cons (incoming (reply i m)) es = omega arith
  timeouts-cons (incoming ignored) es = omega arith
  timeouts-cons (timeout i) es = omega arith

same_node : {o : Option Node} {n n' : Node} → o ≡ some n → o ≡ some n' → n ≡ n'
same_node e e' = ground (arith, e, e')

module _ (ip buf : ℕ) where
  other-Pending :
      (k ip' : ℕ) (nodes nodes' : List Node)
      → find_node ip nodes' ≡ find_node ip nodes
      → Pending ip buf k nodes
      → Pending ip buf k nodes'
  other-Pending k ip' nodes nodes' e p = record {
    node = p.node;
    found = e ∙ p.found;
    waiting = p.waiting;
    left = p.left;
  }

  wait_at-Pending :
      (k ip' buf' : ℕ) (nodes : List Node) (o : Option Node)
      → find_node ip' nodes ≡ o
      → Pending ip buf k nodes
      → Pending ip buf k (wait_at ip' buf' nodes o).0
  unfolding wait_at
  wait_at-Pending k ip' buf' nodes none e p = record {
    node = p.node;
    found = find_node-append_some ip p.node _ nodes p.found;
    waiting = p.waiting;
    left = p.left;
  }
  wait_at-Pending k ip' buf' nodes (some node) e p =
      let new : Node = record node { buffers = node.buffers ++ buf' ∷ [] } in
      let at : node.ip ≡ ip' = find_node-ip ip' nodes node e in
      elim (Bool-cases (has_buffer buf' node.buffers)) [
        | inl y ↦ subst (Pending ip buf k) (sym (if_true _ _ y)) p
        | inr y ↦ subst (Pending ip buf k) (sym (if_false _ _ y)) (elim (Bool-cases (ip' == ip)) [
          | inl z ↦
              (let q : ip' ≡ ip = ground arith in
                let s : p.node ≡ node =
                  same_node p.found (subst (λ i. find_node i nodes ≡ some node) q e) in
                record {
                  node = new;
                  found =
                      subst (λ i. find_node i (set_node ip' new nodes) ≡ some new) q
                        (find_node-set_self ip' node new nodes at e);
                  waiting =
                      has_buffer-append buf buf' node.buffers
                        (subst (λ (n : Node). has_buffer buf n.buffers ≡ true) s p.waiting);
                  left = subst (λ (n : Node). k ≤ n.retry) s p.left;
                })
          | inr z ↦
              other-Pending k ip' nodes _
                (find_node-set_other ip ip' new nodes (λ q. ground arith) at) p
        ])
      ]

  time_out_node-Pending :
      (k ip' : ℕ) (nodes : List Node) (o : Option Node)
      → find_node ip' nodes ≡ o
      → Pending ip buf ((if ip' == ip then 1 else 0) + k) nodes
      → Pending ip buf k (time_out_node ip' nodes o).0
  unfolding time_out_node
  time_out_node-Pending k ip' nodes none e p = record {
    node = p.node;
    found = p.found;
    waiting = p.waiting;
    left = omega (arith, p.left);
  }
  time_out_node-Pending k ip' nodes (some node) e p =
      let new : Node = record node { retry = node.retry - 1 } in
      let at : node.ip ≡ ip' = find_node-ip ip' nodes node e in
      elim (Bool-cases (ip' == ip)) [
        | inl z ↦
            (let q : ip' ≡ ip = ground arith in
              let s : p.node ≡ node =
                same_node p.found (subst (λ i. find_node i nodes ≡ some node) q e) in
              let more : k + 1 ≤ node.retry =
                ground (arith, p.left, ap (λ (n : Node). n.retry) s) in
              subst (λ (r : List Node × List Effect). Pending ip buf k r.0)
                (sym (if_true _ _ (let t : ltb 0 node.retry ≡ true = ground arith in t)))
                (record {
                  node = new;
                  found =
                      subst (λ i. find_node i (set_node ip' new nodes) ≡ some new) q
                        (find_node-set_self ip' node new nodes at e);
                  waiting = subst (λ (n : Node). has_buffer buf n.buffers ≡ true) s p.waiting;
                  left = omega (arith, more);
                }))
        | inr z ↦
            (let p' : Pending ip buf k nodes = record {
              node = p.node;
              found = p.found;
              waiting = p.waiting;
              left = ground (arith, p.left);
            } in
              elim (Bool-cases (ltb 0 node.retry)) [
                | inl y ↦
                    subst (λ (r : List Node × List Effect). Pending ip buf k r.0)
                      (sym (if_true _ _ y))
                      (other-Pending k ip' nodes _
                        (find_node-set_other ip ip' new nodes (λ q. ground arith) at) p')
                | inr y ↦
                    subst (λ (r : List Node × List Effect). Pending ip buf k r.0)
                      (sym (if_false _ _ y))
                      (other-Pending k ip' nodes _
                        (find_node-erase_other ip ip' nodes (λ q. ground arith)) p')
              ])
      ]

  answer_node-Pending :
      (k ip' mac : ℕ) (nodes : List Node) (o : Option Node)
      → ip' ≢ ip
      → Pending ip buf k nodes
      → Pending ip buf k (answer_node ip' mac nodes o).0
  unfolding answer_node
  answer_node-Pending k ip' mac nodes none h p = p
  answer_node-Pending k ip' mac nodes (some node) h p =
      other-Pending k ip' nodes _ (find_node-erase_other ip ip' nodes h) p

  forward_to-Pending :
      (k ip' buf' : ℕ) (a : Arp) (o : Option ℕ)
      → Pending ip buf k a.queue
      → Pending ip buf k (forward_to ip' buf' a o).0.queue
  unfolding forward_to add_to_wait_queue
  forward_to-Pending k ip' buf' a (some mac) p = p
  forward_to-Pending k ip' buf' a none p =
      wait_at-Pending k ip' buf' a.queue (find_node ip' a.queue) refl p

  pub step-Pending :
      (k : ℕ) (h : Host) (e : Event) (a : Arp)
      → no_reply ip (e ∷ []) ≡ true
      → Pending ip buf (timeouts ip (e ∷ []) + k) a.queue
      → Pending ip buf k (step h e a).0.queue
  unfolding step transmit receive process_wait_queue request_timeout
  step-Pending k h (outgoing ip' none) a n p = subst (λ j. Pending ip buf j a.queue) (omega arith) p
  step-Pending k h (outgoing ip' (some buf')) a n p =
      let p' : Pending ip buf k a.queue = subst (λ j. Pending ip buf j a.queue) (omega arith) p in
      elim (Bool-cases (check_ip h ip')) [
        | inl y ↦
            subst (λ (r : Arp × List Effect). Pending ip buf k r.0.queue) (sym (if_true _ _ y))
              (forward_to-Pending k (next_hop h ip') buf' a (lookup_cache (next_hop h ip') a.cache)
                p')
        | inr y ↦
            subst (λ (r : Arp × List Effect). Pending ip buf k r.0.queue) (sym (if_false _ _ y)) p'
      ]
  step-Pending k h (incoming (request ether_addr ip_src ip_target)) a n p =
      subst (λ j. Pending ip buf j a.queue) (omega arith) p
  step-Pending k h (incoming (reply ip_src ether_src)) a n p =
      answer_node-Pending k ip_src ether_src a.queue (find_node ip_src a.queue) (λ q. ground arith)
        (subst (λ j. Pending ip buf j a.queue) (omega arith) p)
  step-Pending k h (incoming ignored) a n p = subst (λ j. Pending ip buf j a.queue) (omega arith) p
  step-Pending k h (timeout ip') a n p =
      time_out_node-Pending k ip' a.queue (find_node ip' a.queue) refl
        (subst (λ j. Pending ip buf j a.queue) (omega arith) p)
