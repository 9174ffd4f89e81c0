-- ===== src/Arp/Owned.antt =====
-- The network buffers that src/arp.cc and `ip_t::transmit` of src/ip.cc hold and give back.
use babyos.Prelude.{
  ℕ, ◌+◌, ◌-◌, ◌≡◌, refl, ◌∙◌, sym, ap, subst, Bool, true, false, Bool-cases, ◌&&◌, inl, inr,
  Option, none, some, List, [], ◌∷◌, ◌++◌, ltb, ◌==◌, if◌then◌else◌, if_true, if_false, arith,
}
use babyos.Arp.{
  Node, Arp, Effect, taken, freed, sent, requested, replied, armed, disarmed, request, reply,
  ignored, Host, Event, outgoing, incoming, timeout, lookup_cache, find_node, set_node, erase_node,
  has_buffer, wait_at, add_to_wait_queue, answer_node, process_wait_queue, time_out_node,
  request_timeout, send_all, free_all, receive, forward_to, transmit, check_ip, next_hop, step, run,
}

abbrev pub count : ℕ → List ℕ → ℕ
count b [] = 0
count b (x ∷ xs) = (if x == b then 1 else 0) + count b xs

-- How often a buffer waits.
abbrev pub waits : ℕ → List Node → ℕ
waits b [] = 0
waits b (node ∷ nodes) = count b node.buffers + waits b nodes

-- How often it is allocated, and how often it is freed.
abbrev pub takes : ℕ → List Effect → ℕ
takes b [] = 0
takes b (taken x ∷ es) = (if x == b then 1 else 0) + takes b es
takes b (_ ∷ es) = takes b es

abbrev pub frees : ℕ → List Effect → ℕ
frees b [] = 0
frees b (freed x ∷ es) = (if x == b then 1 else 0) + frees b es
frees b (_ ∷ es) = frees b es

-- The buffers that are allocated in a run are none that wait.
abbrev pub is_fresh : Event → Arp → Bool
is_fresh (outgoing ip (some buf)) a = waits buf a.queue == 0
is_fresh _ a = true

abbrev pub all_fresh : Host → List Event → Arp → Bool
all_fresh h [] a = true
all_fresh h (e ∷ es) a = is_fresh e a && all_fresh h es (step h e a).0

count-append : (b : ℕ) (xs ys : List ℕ) → count b (xs ++ ys) ≡ count b xs + count b ys
count-append b [] ys = omega arith
count-append b (x ∷ xs) ys = omega (arith, count-append b xs ys)

module _ (b : ℕ) where
  takes-append : (es es' : List Effect) → takes b (es ++ es') ≡ takes b es + takes b es'
  takes-append [] es' = omega arith
  takes-append (taken x ∷ es) es' = omega (arith, takes-append es es')
  takes-append (freed x ∷ es) es' = takes-append es es'
  takes-append (sent mac x ∷ es) es' = takes-append es es'
  takes-append (requested x ∷ es) es' = takes-append es es'
  takes-append (replied mac x ∷ es) es' = takes-append es es'
  takes-append (armed x ∷ es) es' = takes-append es es'
  takes-append (disarmed x ∷ es) es' = takes-append es es'

  frees-append : (es es' : List Effect) → frees b (es ++ es') ≡ frees b es + frees b es'
  frees-append [] es' = omega arith
  frees-append (freed x ∷ es) es' = omega (arith, frees-append es es')
  frees-append (taken x ∷ es) es' = frees-append es es'
  frees-append (sent mac x ∷ es) es' = frees-append es es'
  frees-append (requested x ∷ es) es' = frees-append es es'
  frees-append (replied mac x ∷ es) es' = frees-append es es'
  frees-append (armed x ∷ es) es' = frees-append es es'
  frees-append (disarmed x ∷ es) es' = frees-append es es'

  send_all-counts :
      (mac : ℕ) (bs : List ℕ)
      → (frees b (send_all mac bs) ≡ count b bs) × (takes b (send_all mac bs) ≡ 0)
  unfolding send_all
  send_all-counts mac [] = (refl, refl)
  send_all-counts mac (x ∷ bs) = let (f, t) = send_all-counts mac bs in (omega (arith, f), t)

  free_all-counts :
      (bs : List ℕ) → (frees b (free_all bs) ≡ count b bs) × (takes b (free_all bs) ≡ 0)
  unfolding free_all
  free_all-counts [] = (refl, refl)
  free_all-counts (x ∷ bs) = let (f, t) = free_all-counts bs in (omega (arith, f), t)

  waits-append :
      (nodes : List Node) (new : Node)
      → waits b (nodes ++ new ∷ []) ≡ waits b nodes + count b new.buffers
  waits-append [] new = omega arith
  waits-append (n ∷ nodes) new = omega (arith, waits-append nodes new)

  waits-set :
      (ip : ℕ) (new node : Node) (nodes : List Node)
      → find_node ip nodes ≡ some node
      → waits b (set_node ip new nodes) + count b node.buffers ≡ waits b nodes + count b new.buffers
  unfolding find_node set_node
  waits-set ip new node [] e = ground arith
  waits-set ip new node (n ∷ nodes) e = elim (Bool-cases (n.ip == ip)) [
    | inl y ↦
        (let q : n ≡ node = ground arith in
          let r : count b n.buffers ≡ count b node.buffers =
            ap (λ (x : Node). count b x.buffers) q in
          omega (arith, ap (waits b) (if_true (new ∷ nodes) (n ∷ set_node ip new nodes) y), r))
    | inr y ↦ omega (
      arith,
      ap (waits b) (if_false (new ∷ nodes) (n ∷ set_node ip new nodes) y),
      waits-set ip new node nodes (sym (if_false _ _ y) ∙ e),
    )
  ]

  waits-erase :
      (ip : ℕ) (node : Node) (nodes : List Node)
      → find_node ip nodes ≡ some node
      → waits b (erase_node ip nodes) + count b node.buffers ≡ waits b nodes
  unfolding find_node erase_node
  waits-erase ip node [] e = ground arith
  waits-erase ip node (n ∷ nodes) e = elim (Bool-cases (n.ip == ip)) [
    | inl y ↦
        (let q : n ≡ node = ground arith in
          let r : count b n.buffers ≡ count b node.buffers =
            ap (λ (x : Node). count b x.buffers) q in
          omega (arith, ap (waits b) (if_true nodes (n ∷ erase_node ip nodes) y), r))
    | inr y ↦ omega (
      arith,
      ap (waits b) (if_false nodes (n ∷ erase_node ip nodes) y),
      waits-erase ip node nodes (sym (if_false _ _ y) ∙ e),
    )
  ]

has_buffer-none : (b : ℕ) (bs : List ℕ) → count b bs ≡ 0 → has_buffer b bs ≡ false
unfolding has_buffer
has_buffer-none b [] e = refl
has_buffer-none b (x ∷ bs) e = ground (arith, has_buffer-none b bs)

-- A step gives back what it takes, or lets it wait.
abbrev Kept : ℕ → List Node → List Node × List Effect → Type 0
Kept b nodes (nodes', es) = waits b nodes' + frees b es ≡ waits b nodes + takes b es

wait_at-Kept :
    (b ip buf : ℕ) (nodes : List Node) (o : Option Node)
    → find_node ip nodes ≡ o
    → waits buf nodes ≡ 0
    → (let (nodes', es) = wait_at ip buf nodes o in Kept b nodes (nodes', taken buf ∷ es))
unfolding wait_at
wait_at-Kept b ip buf nodes none e z =
    omega (arith, waits-append b nodes (record { ip = ip; retry = 3; buffers = buf ∷ [] }))
wait_at-Kept b ip buf nodes (some node) e z =
    let new : Node = record node { buffers = node.buffers ++ buf ∷ [] } in
    let absent : has_buffer buf node.buffers ≡ false =
      has_buffer-none buf node.buffers (omega (arith, z, waits-erase buf ip node nodes e)) in
    omega (
      arith,
      ap (waits b) (if_false nodes (set_node ip new nodes) absent),
      waits-set b ip new node nodes e,
      count-append b node.buffers (buf ∷ []),
    )

answer_node-Kept :
    (b ip mac : ℕ) (nodes : List Node) (o : Option Node)
    → find_node ip nodes ≡ o
    → Kept b nodes (answer_node ip mac nodes o)
unfolding answer_node
answer_node-Kept b ip mac nodes none e = omega arith
answer_node-Kept b ip mac nodes (some node) e =
    let (f, t) = send_all-counts b mac node.buffers in
    omega (
      arith,
      f,
      t,
      waits-erase b ip node nodes e,
      frees-append b (send_all mac node.buffers) (disarmed ip ∷ []),
      takes-append b (send_all mac node.buffers) (disarmed ip ∷ []),
    )

time_out_node-Kept :
    (b ip : ℕ) (nodes : List Node) (o : Option Node)
    → find_node ip nodes ≡ o
    → Kept b nodes (time_out_node ip nodes o)
unfolding time_out_node
time_out_node-Kept b ip nodes none e = omega arith
time_out_node-Kept b ip nodes (some node) e =
    let new : Node = record node { retry = node.retry - 1 } in
    elim (Bool-cases (ltb 0 node.retry)) [
      | inl y ↦
          subst (Kept b nodes) (sym (if_true _ _ y))
            (omega (arith, waits-set b ip new node nodes e))
      | inr y ↦ subst (Kept b nodes) (sym (if_false _ _ y)) (
          let (f, t) = free_all-counts b node.buffers in
          omega (arith, f, t, waits-erase b ip node nodes e))
    ]

forward_to-Kept :
    (b ip buf : ℕ) (a : Arp) (o : Option ℕ)
    → waits buf a.queue ≡ 0
    → (let (a', es) = forward_to ip buf a o in Kept b a.queue (a'.queue, taken buf ∷ es))
unfolding forward_to add_to_wait_queue
forward_to-Kept b ip buf a (some mac) z = omega arith
forward_to-Kept b ip buf a none z = wait_at-Kept b ip buf a.queue (find_node ip a.queue) refl z

step-Kept :
    (b : ℕ) (h : Host) (e : Event) (a : Arp)
    → is_fresh e a ≡ true
    → (let (a', es) = step h e a in Kept b a.queue (a'.queue, es))
unfolding step transmit receive process_wait_queue request_timeout
step-Kept b h (outgoing ip none) a z = omega arith
step-Kept b h (outgoing ip (some buf)) a z = elim (Bool-cases (check_ip h ip)) [
  | inl y ↦
      subst (λ (r : Arp × List Effect). Kept b a.queue (r.0.queue, r.1)) (sym (if_true _ _ y))
        (forward_to-Kept b (next_hop h ip) buf a (lookup_cache (next_hop h ip) a.cache)
          (ground arith))
  | inr y ↦
      subst (λ (r : Arp × List Effect). Kept b a.queue (r.0.queue, r.1)) (sym (if_false _ _ y))
        (omega arith)
]
step-Kept b h (incoming (request ether_addr ip_src ip_target)) a z =
    elim (Bool-cases (ip_target == h.ip)) [
      | inl y ↦ subst (λ es. Kept b a.queue (a.queue, es)) (sym (if_true _ _ y)) (omega arith)
      | inr y ↦ subst (λ es. Kept b a.queue (a.queue, es)) (sym (if_false _ _ y)) (omega arith)
    ]
step-Kept b h (incoming (reply ip_src ether_src)) a z =
    answer_node-Kept b ip_src ether_src a.queue (find_node ip_src a.queue) refl
step-Kept b h (incoming ignored) a z = omega arith
step-Kept b h (timeout ip) a z = time_out_node-Kept b ip a.queue (find_node ip a.queue) refl

-- Whatever packets go out, arrive or time out, where a buffer that is allocated is none that still waits: the times
-- that a buffer waits and those that it has been freed are together the times that it waited before and those that it has
-- been allocated.
pub run-Kept :
    (b : ℕ) (h : Host) (es : List Event) (a : Arp)
    → all_fresh h es a ≡ true
    → (let (a', effects) = run h es a in
        waits b a'.queue + frees b effects ≡ waits b a.queue + takes b effects)
unfolding run
run-Kept b h [] a z = omega arith
run-Kept b h (e ∷ es) a z =
    let first = step-Kept b h e a (ground arith) in
    let rest = run-Kept b h es (step h e a).0 (ground arith) in
    omega (
      arith,
      first,
      rest,
      frees-append b (step h e a).1 (run h es (step h e a).0).1,
      takes-append b (step h e a).1 (run h es (step h e a).0).1,
    )
