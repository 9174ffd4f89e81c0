-- ===== src/Arp.antt =====
-- The way of a packet to its neighbour: `ip_t::transmit` of src/ip.cc and the cache and the wait queue of arp_t,
-- src/arp.cc. A hardware address and a network buffer are numbers, addresses are in host order. What an
-- operation does outside is a list of effects, in order; pools never run empty but for the network buffers.
pub mod Queue
pub mod Valid
pub mod Owned
pub mod Pending
pub mod Answered
pub mod Silent
mod Tests
use Prim.Native.Nat.{bit_and}
use babyos.Prelude.{
  ℕ, zero, suc, ◌+◌, ◌-◌, Bool, true, false, ◌&&◌, ◌||◌, not, Option, none, some, List, [], ◌∷◌,
  ◌++◌, ltb, ◌==◌, if◌then◌else◌, u32_mod, ◌>>=◌,
}

-- `arp_cache_line_t`
pub record Line : Type 0 where
  pub ip : ℕ
  pub mac : ℕ

-- `arp_queue_node_t`; its timer is armed as long as the node is in the queue
pub record Node : Type 0 where
  pub ip : ℕ
  pub retry : ℕ
  pub buffers : List ℕ

pub record Arp : Type 0 where
  pub cache : List Line
  pub queue : List Node

pub data Effect : Type 0 where
  -- a buffer is allocated or freed, or its bytes go out as an IP packet to a hardware address
  taken freed : ℕ → Effect
  sent : ℕ → ℕ → Effect
  -- an ARP request for an address, and a reply to a hardware address
  requested : ℕ → Effect
  replied : ℕ → ℕ → Effect
  -- add_timer and remove_timer on the timer of an address
  armed disarmed : ℕ → Effect

-- `ARP_RETRY`
abbrev pub arp_retry : ℕ
arp_retry = 3

-- `lookup_cache`
unfoldable pub lookup_cache : ℕ → List Line → Option ℕ
lookup_cache ip [] = none
lookup_cache ip (line ∷ lines) =
    let rest = lookup_cache ip lines in if line.ip == ip then some line.mac else rest

-- `add_to_cache`
unfoldable pub add_to_cache : ℕ → ℕ → List Line → List Line
add_to_cache ip mac lines = elim (lookup_cache ip lines) [
  | some m ↦ lines
  | none ↦ record { ip = ip; mac = mac } ∷ lines
]

-- The loops that look for the node of an address, and the uses of what they find
unfoldable pub find_node : ℕ → List Node → Option Node
find_node ip [] = none
find_node ip (node ∷ nodes) =
    let rest = find_node ip nodes in if node.ip == ip then some node else rest

unfoldable pub set_node : ℕ → Node → List Node → List Node
set_node ip new [] = []
set_node ip new (node ∷ nodes) =
    let rest = set_node ip new nodes in if node.ip == ip then new ∷ nodes else node ∷ rest

unfoldable pub erase_node : ℕ → List Node → List Node
erase_node ip [] = []
erase_node ip (node ∷ nodes) =
    let rest = erase_node ip nodes in if node.ip == ip then nodes else node ∷ rest

unfoldable pub has_buffer : ℕ → List ℕ → Bool
has_buffer buf [] = false
has_buffer buf (b ∷ bs) = (b == buf) || has_buffer buf bs

-- `add_to_wait_queue` where a node is found, and where not
unfoldable pub wait_at : ℕ → ℕ → List Node → Option Node → List Node × List Effect
wait_at ip buf queue (some node) = (
  if has_buffer buf node.buffers
      then queue
      else set_node ip (record node { buffers = node.buffers ++ buf ∷ [] }) queue,
  [],
)
wait_at ip buf queue none = (
  queue ++ record { ip = ip; retry = arp_retry; buffers = buf ∷ [] } ∷ [],
  requested ip ∷ armed ip ∷ [],
)

unfoldable pub add_to_wait_queue : ℕ → ℕ → List Node → List Node × List Effect
add_to_wait_queue ip buf queue = wait_at ip buf queue (find_node ip queue)

-- The loops over the buffers of a node
unfoldable pub send_all : ℕ → List ℕ → List Effect
send_all mac [] = []
send_all mac (b ∷ bs) = sent mac b ∷ freed b ∷ send_all mac bs

unfoldable pub free_all : List ℕ → List Effect
free_all [] = []
free_all (b ∷ bs) = freed b ∷ free_all bs

-- `process_wait_queue`
unfoldable pub answer_node : ℕ → ℕ → List Node → Option Node → List Node × List Effect
answer_node ip mac queue none = (queue, [])
answer_node ip mac queue (some node) =
    (erase_node ip queue, send_all mac node.buffers ++ disarmed ip ∷ [])

unfoldable pub process_wait_queue : ℕ → ℕ → List Node → List Node × List Effect
process_wait_queue ip mac queue = answer_node ip mac queue (find_node ip queue)

-- `request_timeout`
unfoldable pub time_out_node : ℕ → List Node → Option Node → List Node × List Effect
time_out_node ip queue none = (queue, [])
time_out_node ip queue (some node) =
    if ltb 0 node.retry
    then (
      set_node ip (record node { retry = node.retry - 1 }) queue,
      disarmed ip ∷ armed ip ∷ requested ip ∷ [],
    )
    else (erase_node ip queue, disarmed ip ∷ free_all node.buffers)

unfoldable pub request_timeout : ℕ → List Node → List Node × List Effect
request_timeout ip queue = time_out_node ip queue (find_node ip queue)

-- `ARP_OP_REQUEST` and `ARP_OP_REPLY`, and what a packet with another operation or too few bytes is
pub data Packet : Type 0 where
  request : (ether_addr ip_src ip_target : ℕ) → Packet
  reply : (ip_src ether_src : ℕ) → Packet
  ignored : Packet

-- `receive` on the host `my_ip`
unfoldable pub receive : ℕ → Packet → Arp → Arp × List Effect
receive my_ip (request ether_addr ip_src ip_target) a =
    (a, if ip_target == my_ip then replied ether_addr ip_src ∷ [] else [])
receive my_ip (reply ip_src ether_src) a =
    let (queue, effects) = process_wait_queue ip_src ether_src a.queue in
    (record { cache = add_to_cache ip_src ether_src a.cache; queue = queue }, effects)
receive my_ip ignored a = (a, [])

-- The addresses of net_t
pub record Host : Type 0 where
  pub ip : ℕ
  pub subnet_mask : ℕ
  pub gateway : ℕ

abbrev all_ones : ℕ
all_ones = 0xffff_ffff

-- `is_broadcast`, `check_ip`, `is_same_subnet` and the choice of `dst_ip` in `transmit`
unfoldable pub is_broadcast : Host → ℕ → Bool
is_broadcast h ip =
    ip == all_ones
    || ip == 0
    || bit_and ip (all_ones - h.subnet_mask) == bit_and all_ones (all_ones - h.subnet_mask)

unfoldable pub check_ip : Host → ℕ → Bool
check_ip h ip = not (is_broadcast h ip) && not (ip == h.ip)

unfoldable pub is_same_subnet : ℕ → ℕ → ℕ → Bool
is_same_subnet ip1 ip2 mask = bit_and ip1 mask == bit_and ip2 mask

unfoldable pub next_hop : Host → ℕ → ℕ
next_hop h ip = if is_same_subnet ip h.ip h.subnet_mask then ip else h.gateway

-- The end of `ip_t::transmit`, with a filled buffer
unfoldable pub forward_to : ℕ → ℕ → Arp → Option ℕ → Arp × List Effect
forward_to ip buf a (some mac) = (a, sent mac buf ∷ freed buf ∷ [])
forward_to ip buf a none =
    let (queue, effects) = add_to_wait_queue ip buf a.queue in (record a { queue = queue }, effects)

-- `ip_t::transmit`, where `alloc_net_buffer` returns `buffer`
unfoldable pub transmit : Host → ℕ → Option ℕ → Arp → Arp × List Effect
transmit h ip none a = (a, [])
transmit h ip (some buf) a =
    let (a', effects) = forward_to (next_hop h ip) buf a (lookup_cache (next_hop h ip) a.cache) in
    if check_ip h ip then (a', taken buf ∷ effects) else (a, [])

pub data Event : Type 0 where
  outgoing : (ip : ℕ) (buffer : Option ℕ) → Event
  incoming : Packet → Event
  timeout : (ip : ℕ) → Event

unfoldable pub step : Host → Event → Arp → Arp × List Effect
step h (outgoing ip buffer) a = transmit h ip buffer a
step h (incoming packet) a = receive h.ip packet a
step h (timeout ip) a =
    let (queue, effects) = request_timeout ip a.queue in (record a { queue = queue }, effects)

unfoldable pub run : Host → List Event → Arp → Arp × List Effect
run h [] a = (a, [])
run h (e ∷ es) a =
    let (a', effects) = step h e a in
    let (a'', effects') = run h es a' in (a'', effects ++ effects')
