-- ===== src/Arp/Silent.antt =====
-- Neighbours that do not answer, and those that are known, in src/arp.cc.
use babyos.Prelude.{
  ◌==◌, sym, ℕ, zero, suc, ◌-◌, ◌≡◌, refl, ◌∙◌, ap, true, false, Option, none, some, List, [], ◌∷◌,
  ◌++◌, append-nil, replicate, map, Bool-cases, inl, inr, ltb, if_true, if_false, arith,
}
use babyos.Arp.{
  freed, Line, Node, Arp, Effect, requested, armed, disarmed, request, reply, ignored, Host, Event,
  outgoing, incoming, timeout, lookup_cache, add_to_cache, find_node, set_node, erase_node,
  time_out_node, request_timeout, free_all, forward_to, transmit, next_hop, receive, step, run,
}
use babyos.Arp.Queue.{find_node-ip, find_node-set_self}

erase_node-set_node :
    (ip : ℕ) (new : Node) (nodes : List Node)
    → new.ip ≡ ip
    → erase_node ip (set_node ip new nodes) ≡ erase_node ip nodes
unfolding erase_node set_node
erase_node-set_node ip new [] h = refl
erase_node-set_node ip new (n ∷ nodes) h = ground (arith, erase_node-set_node ip new nodes h)

-- What is done for each timeout but the last.
abbrev pub retries : ℕ → ℕ → List Effect
retries ip zero = []
retries ip (suc n) = disarmed ip ∷ armed ip ∷ requested ip ∷ retries ip n

timeout-some :
    (h : Host) (ip : ℕ) (node : Node) (a : Arp)
    → find_node ip a.queue ≡ some node
    → step h (timeout ip) a ≡ (
        let (queue, effects) = time_out_node ip a.queue (some node) in
        (record a { queue = queue }, effects))
unfolding step request_timeout
timeout-some h ip node a e =
    ap
      (λ (o : Option Node).
        let (queue, effects) = time_out_node ip a.queue o in
        (record { cache = a.cache; queue = queue }, effects))
      e

run_timeouts :
    (h : Host) (ip n : ℕ) (node : Node) (a : Arp)
    → node.retry ≡ n
    → find_node ip a.queue ≡ some node
    → run h (replicate (suc n) (timeout ip)) a ≡ (
      record a { queue = erase_node ip a.queue },
      retries ip n ++ disarmed ip ∷ free_all node.buffers,
    )
unfolding run time_out_node
run_timeouts h ip zero node a r e =
    ap (λ (x : Arp × List Effect). (x.0, x.1 ++ []))
      (timeout-some h ip node a e
        ∙ ap (λ (x : List Node × List Effect). (record { cache = a.cache; queue = x.0 }, x.1))
            (if_false _ _ (let t : ltb 0 node.retry ≡ false = ground arith in t)))
    ∙ ap (λ es. (record { cache = a.cache; queue = erase_node ip a.queue }, disarmed ip ∷ es))
        (append-nil (free_all node.buffers))
run_timeouts h ip (suc n) node a r e =
    let new : Node = record node { retry = node.retry - 1 } in
    let at : node.ip ≡ ip = find_node-ip ip a.queue node e in
    let b : Arp = record a { queue = set_node ip new a.queue } in
    let once : step h (timeout ip) a ≡ (b, disarmed ip ∷ armed ip ∷ requested ip ∷ []) =
      timeout-some h ip node a e
      ∙ ap (λ (x : List Node × List Effect). (record { cache = a.cache; queue = x.0 }, x.1))
          (if_true _ _ (let t : ltb 0 node.retry ≡ true = ground arith in t)) in
    let rest =
      run_timeouts h ip n new b (omega (arith, r)) (find_node-set_self ip node new a.queue at e) in
    ap
      (λ (x : Arp × List Effect).
        let r = run h (replicate (suc n) (timeout ip)) x.0 in (r.0, x.1 ++ r.1))
      once
    ∙ ap (λ (x : Arp × List Effect). (x.0, disarmed ip ∷ armed ip ∷ requested ip ∷ x.1)) rest
    ∙ ap
        (λ q. (
          record { cache = a.cache; queue = q },
          retries ip (suc n) ++ disarmed ip ∷ free_all node.buffers,
        ))
        (erase_node-set_node ip new a.queue at)

free_all-map : (bs : List ℕ) → free_all bs ≡ map freed bs
unfolding free_all
free_all-map [] = refl
free_all-map (b ∷ bs) = ap (λ es. freed b ∷ es) (free_all-map bs)

-- The first node of an address, between the others.
record Split (ip : ℕ) (node : Node) (nodes : List Node) : Type 0 where
  before : List Node
  after : List Node
  whole : nodes ≡ before ++ node ∷ after
  erased : erase_node ip nodes ≡ before ++ after

find_node-Split :
    (ip : ℕ) (node : Node) (nodes : List Node)
    → find_node ip nodes ≡ some node
    → Split ip node nodes
unfolding find_node erase_node
find_node-Split ip node [] e = ground arith
find_node-Split ip node (n ∷ nodes) e = elim (Bool-cases (n.ip == ip)) [
  | inl y ↦ record {
    before = [];
    after = nodes;
    whole = ap (λ x. x ∷ nodes) (let q : n ≡ node = ground arith in q);
    erased = if_true _ _ y;
  }
  | inr y ↦
      (let r = find_node-Split ip node nodes (sym (if_false _ _ y) ∙ e) in
        record {
          before = n ∷ r.before;
          after = r.after;
          whole = ap (λ l. n ∷ l) r.whole;
          erased = if_false _ _ y ∙ ap (λ l. n ∷ l) r.erased;
        })
]

-- What is left where a neighbour does not answer: its node is gone and no other, each packet that waited is freed once, in
-- order, and none is sent.
pub record Dropped (ip n : ℕ) (node : Node) (a : Arp) (out : Arp × List Effect) : Type 0 where
  pub before : List Node
  pub after : List Node
  pub was : a.queue ≡ before ++ node ∷ after
  pub queue : out.0.queue ≡ before ++ after
  pub cache : out.0.cache ≡ a.cache
  pub effects : out.1 ≡ retries ip n ++ disarmed ip ∷ map freed node.buffers

-- Where the node that is found for an address has `n` retries left, `n` timeouts of the address each ask again, and the next
-- one frees each packet that waits in the node, once and in order, sends none of them, and removes that node and no other.
-- The cache stays as it is.
pub run-Dropped :
    (h : Host) (ip n : ℕ) (node : Node) (a : Arp)
    → node.retry ≡ n
    → find_node ip a.queue ≡ some node
    → Dropped ip n node a (run h (replicate (suc n) (timeout ip)) a)
run-Dropped h ip n node a r e =
    let all = run_timeouts h ip n node a r e in
    let s = find_node-Split ip node a.queue e in
    record {
      before = s.before;
      after = s.after;
      was = s.whole;
      queue = ap (λ (x : Arp × List Effect). x.0.queue) all ∙ s.erased;
      cache = ap (λ (x : Arp × List Effect). x.0.cache) all;
      effects =
          ap (λ (x : Arp × List Effect). x.1) all
          ∙ ap (λ es. retries ip n ++ disarmed ip ∷ es) (free_all-map node.buffers);
    }

add_to_cache-some :
    (ip ip' mac m : ℕ) (lines : List Line)
    → lookup_cache ip lines ≡ some m
    → lookup_cache ip (add_to_cache ip' mac lines) ≡ some m
unfolding add_to_cache lookup_cache
add_to_cache-some ip ip' mac m lines e = ground arith

forward_to-cache : (ip buf : ℕ) (a : Arp) (o : Option ℕ) → (forward_to ip buf a o).0.cache ≡ a.cache
unfolding forward_to
forward_to-cache ip buf a none = refl
forward_to-cache ip buf a (some m) = refl

transmit-cache :
    (h : Host) (ip : ℕ) (o : Option ℕ) (a : Arp) → (transmit h ip o a).0.cache ≡ a.cache
unfolding transmit
transmit-cache h ip none a = refl
transmit-cache h ip (some buf) a =
    ground (arith, forward_to-cache (next_hop h ip) buf a (lookup_cache (next_hop h ip) a.cache))

step-cached :
    (h : Host) (ip m : ℕ) (e : Event) (a : Arp)
    → lookup_cache ip a.cache ≡ some m
    → lookup_cache ip (step h e a).0.cache ≡ some m
unfolding step receive
step-cached h ip m (outgoing i o) a e = ap (lookup_cache ip) (transmit-cache h i o a) ∙ e
step-cached h ip m (incoming (request x y z)) a e = e
step-cached h ip m (incoming (reply i mac)) a e = add_to_cache-some ip i mac m a.cache e
step-cached h ip m (incoming ignored) a e = e
step-cached h ip m (timeout i) a e = e

-- The hardware address that the cache has for an address is kept for ever, whatever replies arrive later.
pub run-cached :
    (h : Host) (ip m : ℕ) (es : List Event) (a : Arp)
    → lookup_cache ip a.cache ≡ some m
    → lookup_cache ip (run h es a).0.cache ≡ some m
unfolding run
run-cached h ip m [] a e = e
run-cached h ip m (x ∷ es) a e = run-cached h ip m es (step h x a).0 (step-cached h ip m x a e)
