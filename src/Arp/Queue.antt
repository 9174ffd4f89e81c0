-- ===== src/Arp/Queue.antt =====
-- The wait queue of src/arp.cc as a list in which the first node of an address counts.
use babyos.Prelude.{ℕ, ◌≡◌, ◌≢◌, refl, none, some, List, [], ◌∷◌, ◌++◌, arith}
use babyos.Arp.{Node, find_node, set_node, erase_node}

pub find_node-ip :
    (ip : ℕ) (nodes : List Node) (node : Node) → find_node ip nodes ≡ some node → node.ip ≡ ip
unfolding find_node
find_node-ip ip [] node e = ground arith
find_node-ip ip (n ∷ nodes) node e = ground (arith, find_node-ip ip nodes node)

-- Other addresses.
pub find_node-set_none :
    (ip ip' : ℕ) (new : Node) (nodes : List Node)
    → new.ip ≡ ip'
    → find_node ip nodes ≡ none
    → find_node ip (set_node ip' new nodes) ≡ none
unfolding find_node set_node
find_node-set_none ip ip' new [] s e = refl
find_node-set_none ip ip' new (n ∷ nodes) s e =
    ground (arith, find_node-set_none ip ip' new nodes s)

pub find_node-erase_none :
    (ip ip' : ℕ) (nodes : List Node)
    → find_node ip nodes ≡ none
    → find_node ip (erase_node ip' nodes) ≡ none
unfolding find_node erase_node
find_node-erase_none ip ip' [] e = refl
find_node-erase_none ip ip' (n ∷ nodes) e = ground (arith, find_node-erase_none ip ip' nodes)

pub find_node-append_none :
    (ip : ℕ) (new : Node) (nodes : List Node)
    → new.ip ≢ ip
    → find_node ip nodes ≡ none
    → find_node ip (nodes ++ new ∷ []) ≡ none
unfolding find_node
find_node-append_none ip new [] s e = ground arith
find_node-append_none ip new (n ∷ nodes) s e = ground (arith, find_node-append_none ip new nodes s)

pub find_node-set_self :
    (ip : ℕ) (node new : Node) (nodes : List Node)
    → new.ip ≡ ip
    → find_node ip nodes ≡ some node
    → find_node ip (set_node ip new nodes) ≡ some new
unfolding find_node set_node
find_node-set_self ip node new [] s e = ground arith
find_node-set_self ip node new (n ∷ nodes) s e =
    ground (arith, find_node-set_self ip node new nodes s)

-- What becomes of the nodes of other addresses.
pub find_node-set_other :
    (ip ip' : ℕ) (new : Node) (nodes : List Node)
    → ip' ≢ ip
    → new.ip ≡ ip'
    → find_node ip (set_node ip' new nodes) ≡ find_node ip nodes
unfolding find_node set_node
find_node-set_other ip ip' new [] h s = refl
find_node-set_other ip ip' new (n ∷ nodes) h s =
    ground (arith, find_node-set_other ip ip' new nodes h s)

pub find_node-erase_other :
    (ip ip' : ℕ) (nodes : List Node)
    → ip' ≢ ip
    → find_node ip (erase_node ip' nodes) ≡ find_node ip nodes
unfolding find_node erase_node
find_node-erase_other ip ip' [] h = refl
find_node-erase_other ip ip' (n ∷ nodes) h = ground (arith, find_node-erase_other ip ip' nodes h)

pub find_node-append_some :
    (ip : ℕ) (node new : Node) (nodes : List Node)
    → find_node ip nodes ≡ some node
    → find_node ip (nodes ++ new ∷ []) ≡ some node
unfolding find_node
find_node-append_some ip node new [] e = ground arith
find_node-append_some ip node new (n ∷ nodes) e =
    ground (arith, find_node-append_some ip node new nodes)

pub find_node-append_new :
    (ip : ℕ) (new : Node) (nodes : List Node)
    → new.ip ≡ ip
    → find_node ip nodes ≡ none
    → find_node ip (nodes ++ new ∷ []) ≡ some new
unfolding find_node
find_node-append_new ip new [] h e = ground arith
find_node-append_new ip new (n ∷ nodes) h e = ground (arith, find_node-append_new ip new nodes)
