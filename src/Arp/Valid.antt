-- ===== src/Arp/Valid.antt =====
-- What is true of the wait queue of src/arp.cc throughout.
use babyos.Prelude.{
  ℕ, ◌-◌, ◌≤◌, ◌≡◌, ◌≢◌, refl, ◌∙◌, sym, ap, subst, Bool-cases, inl, inr, Option, none, some, List,
  [], ◌∷◌, ◌++◌, ltb, ◌==◌, if_true, if_false, length, length-append, arith,
}
use babyos.Arp.{
  Line, Node, Arp, Effect, request, reply, ignored, Host, Event, outgoing, incoming, timeout,
  lookup_cache, add_to_cache, find_node, set_node, erase_node, has_buffer, wait_at,
  add_to_wait_queue, answer_node, process_wait_queue, time_out_node, request_timeout, arp_retry,
  receive, forward_to, transmit, check_ip, next_hop, step,
}
use babyos.Arp.Queue.{find_node-ip, find_node-set_none, find_node-erase_none, find_node-append_none}

-- The address of a node is not in the cache, a buffer waits for it, and few retries are left.
pub record Waits (lines : List Line) (node : Node) : Type 0 where
  pub unknown : lookup_cache node.ip lines ≡ none
  pub some_buffer : 1 ≤ length node.buffers
  pub few : node.retry ≤ arp_retry

-- Each node is one that waits, and the only one of its address.
pub data Valid (lines : List Line) : List Node → Type 0 where
  empty : Valid lines []
  next :
      {node : Node} {nodes : List Node}
      → Waits lines node
      → find_node node.ip nodes ≡ none
      → Valid lines nodes
      → Valid lines (node ∷ nodes)

-- A node that is found waits.
pub found-Waits :
    (ip : ℕ) (lines : List Line) (nodes : List Node) (node : Node)
    → Valid lines nodes
    → find_node ip nodes ≡ some node
    → Waits lines node
unfolding find_node
found-Waits ip lines _ node empty e = ground arith
found-Waits ip lines (n ∷ nodes) node (next w only v) e = elim (Bool-cases (n.ip == ip)) [
  | inl y ↦ subst (Waits lines) (let q : n ≡ node = ground arith in q) w
  | inr y ↦ found-Waits ip lines nodes node v (sym (if_false _ _ y) ∙ e)
]

set_node-Valid :
    (ip : ℕ) (lines : List Line) (new : Node) (nodes : List Node)
    → new.ip ≡ ip
    → Waits lines new
    → Valid lines nodes
    → Valid lines (set_node ip new nodes)
unfolding set_node
set_node-Valid ip lines new _ s w empty = empty
set_node-Valid ip lines new (n ∷ nodes) s w (next w' only v) = elim (Bool-cases (n.ip == ip)) [
  | inl y ↦
      subst (Valid lines) (sym (if_true _ _ y))
        (next w (ap (λ i. find_node i nodes) (let q : new.ip ≡ n.ip = ground arith in q) ∙ only) v)
  | inr y ↦ subst (Valid lines) (sym (if_false _ _ y)) (
      next w' (find_node-set_none n.ip ip new nodes s only)
        (set_node-Valid ip lines new nodes s w v))
]

erase_node-Valid :
    (ip : ℕ) (lines : List Line) (nodes : List Node)
    → Valid lines nodes
    → Valid lines (erase_node ip nodes)
unfolding erase_node
erase_node-Valid ip lines _ empty = empty
erase_node-Valid ip lines (n ∷ nodes) (next w only v) = elim (Bool-cases (n.ip == ip)) [
  | inl y ↦ subst (Valid lines) (sym (if_true _ _ y)) v
  | inr y ↦
      subst (Valid lines) (sym (if_false _ _ y))
        (next w (find_node-erase_none n.ip ip nodes only) (erase_node-Valid ip lines nodes v))
]

-- The first node of an address is its only one.
find_node-erase :
    (ip : ℕ) (lines : List Line) (nodes : List Node)
    → Valid lines nodes
    → find_node ip (erase_node ip nodes) ≡ none
unfolding find_node erase_node
find_node-erase ip lines _ empty = refl
find_node-erase ip lines (n ∷ nodes) (next w only v) = elim (Bool-cases (n.ip == ip)) [
  | inl y ↦
      ap (find_node ip) (if_true _ _ y)
      ∙ ap (λ i. find_node i nodes) (let q : ip ≡ n.ip = ground arith in q)
      ∙ only
  | inr y ↦ ap (find_node ip) (if_false _ _ y) ∙ if_false _ _ y ∙ find_node-erase ip lines nodes v
]

append-Valid :
    (lines : List Line) (new : Node) (nodes : List Node)
    → Waits lines new
    → find_node new.ip nodes ≡ none
    → Valid lines nodes
    → Valid lines (nodes ++ new ∷ [])
unfolding find_node
append-Valid lines new _ w e empty = next w refl empty
append-Valid lines new (n ∷ nodes) w e (next w' only v) =
    next w' (find_node-append_none n.ip new nodes (λ q. ground arith) only)
      (append-Valid lines new nodes w (ground arith) v)

add_to_cache-other :
    (ip ip' mac : ℕ) (lines : List Line)
    → ip' ≢ ip
    → lookup_cache ip' (add_to_cache ip mac lines) ≡ lookup_cache ip' lines
unfolding add_to_cache lookup_cache
add_to_cache-other ip ip' mac lines h = ground arith

-- What is learnt of an address for which no node waits.
learnt-Valid :
    (ip mac : ℕ) (lines : List Line) (nodes : List Node)
    → find_node ip nodes ≡ none
    → Valid lines nodes
    → Valid (add_to_cache ip mac lines) nodes
unfolding find_node
learnt-Valid ip mac lines _ e empty = empty
learnt-Valid ip mac lines (n ∷ nodes) e (next w only v) =
    next
      (record {
        unknown = add_to_cache-other ip n.ip mac lines (λ q. ground arith) ∙ w.unknown;
        some_buffer = w.some_buffer;
        few = w.few;
      })
      only (learnt-Valid ip mac lines nodes (ground arith) v)

wait_at-Valid :
    (ip buf : ℕ) (lines : List Line) (nodes : List Node) (o : Option Node)
    → find_node ip nodes ≡ o
    → lookup_cache ip lines ≡ none
    → Valid lines nodes
    → Valid lines (wait_at ip buf nodes o).0
unfolding wait_at
wait_at-Valid ip buf lines nodes none e u v =
    append-Valid lines _ nodes
      (record { unknown = u; some_buffer = omega arith; few = omega arith }) e v
wait_at-Valid ip buf lines nodes (some node) e u v =
    let w = found-Waits ip lines nodes node v e in
    let new : Node = record node { buffers = node.buffers ++ buf ∷ [] } in
    let w' : Waits lines new = record {
      unknown = w.unknown;
      some_buffer = omega (arith, length-append node.buffers (buf ∷ []), w.some_buffer);
      few = w.few;
    } in
    elim (Bool-cases (has_buffer buf node.buffers)) [
      | inl y ↦ subst (Valid lines) (sym (if_true _ _ y)) v
      | inr y ↦
          subst (Valid lines) (sym (if_false _ _ y))
            (set_node-Valid ip lines new nodes (find_node-ip ip nodes node e) w' v)
    ]

time_out_node-Valid :
    (ip : ℕ) (lines : List Line) (nodes : List Node) (o : Option Node)
    → find_node ip nodes ≡ o
    → Valid lines nodes
    → Valid lines (time_out_node ip nodes o).0
unfolding time_out_node
time_out_node-Valid ip lines nodes none e v = v
time_out_node-Valid ip lines nodes (some node) e v =
    let w = found-Waits ip lines nodes node v e in
    let new : Node = record node { retry = node.retry - 1 } in
    elim (Bool-cases (ltb 0 node.retry)) [
      | inl y ↦
          subst (λ (r : List Node × List Effect). Valid lines r.0) (sym (if_true _ _ y))
            (set_node-Valid ip lines new nodes (find_node-ip ip nodes node e)
              (record {
                unknown = w.unknown;
                some_buffer = w.some_buffer;
                few = omega (arith, w.few);
              })
              v)
      | inr y ↦
          subst (λ (r : List Node × List Effect). Valid lines r.0) (sym (if_false _ _ y))
            (erase_node-Valid ip lines nodes v)
    ]

answer_node-Valid :
    (ip mac : ℕ) (lines : List Line) (nodes : List Node) (o : Option Node)
    → find_node ip nodes ≡ o
    → Valid lines nodes
    → Valid (add_to_cache ip mac lines) (answer_node ip mac nodes o).0
unfolding answer_node
answer_node-Valid ip mac lines nodes none e v = learnt-Valid ip mac lines nodes e v
answer_node-Valid ip mac lines nodes (some node) e v =
    learnt-Valid ip mac lines (erase_node ip nodes) (find_node-erase ip lines nodes v)
      (erase_node-Valid ip lines nodes v)

forward_to-Valid :
    (ip buf : ℕ) (a : Arp) (o : Option ℕ)
    → lookup_cache ip a.cache ≡ o
    → Valid a.cache a.queue
    → (let (a', effects) = forward_to ip buf a o in Valid a'.cache a'.queue)
unfolding forward_to add_to_wait_queue
forward_to-Valid ip buf a (some mac) e v = v
forward_to-Valid ip buf a none e v =
    wait_at-Valid ip buf a.cache a.queue (find_node ip a.queue) refl e v

pub step-Valid :
    (h : Host) (e : Event) (a : Arp)
    → Valid a.cache a.queue
    → Valid (step h e a).0.cache (step h e a).0.queue
unfolding step transmit receive process_wait_queue request_timeout
step-Valid h (outgoing ip none) a v = v
step-Valid h (outgoing ip (some buf)) a v = elim (Bool-cases (check_ip h ip)) [
  | inl y ↦
      subst (λ (r : Arp × List Effect). Valid r.0.cache r.0.queue) (sym (if_true _ _ y))
        (forward_to-Valid (next_hop h ip) buf a (lookup_cache (next_hop h ip) a.cache) refl v)
  | inr y ↦ subst (λ (r : Arp × List Effect). Valid r.0.cache r.0.queue) (sym (if_false _ _ y)) v
]
step-Valid h (incoming (request ether_addr ip_src ip_target)) a v = v
step-Valid h (incoming (reply ip_src ether_src)) a v =
    answer_node-Valid ip_src ether_src a.cache a.queue (find_node ip_src a.queue) refl v
step-Valid h (incoming ignored) a v = v
step-Valid h (timeout ip) a v = time_out_node-Valid ip a.cache a.queue (find_node ip a.queue) refl v
