-- ===== src/Arp/Tests.antt =====
-- Runs of the functions of src/arp.cc and src/ip.cc, and the theorems about them at concrete inputs.
use babyos.Prelude.{◌+◌, ◌≡◌, refl, true, some, List, [], ◌∷◌, ◌++◌, replicate, arith}
use babyos.Arp.{
  Node, Arp, Host, Event, outgoing, incoming, timeout, reply, taken, sent, freed, armed, disarmed,
  requested, check_ip, next_hop, is_broadcast, is_same_subnet, lookup_cache, find_node, set_node,
  erase_node, has_buffer, wait_at, add_to_wait_queue, answer_node, process_wait_queue,
  time_out_node, request_timeout, send_all, receive, forward_to, transmit, step, run,
}
use babyos.Arp.Valid.{Valid}
use babyos.Arp.Owned.{waits, frees, takes, run-Kept}
use babyos.Arp.Answered.{sends, transmit-replied}
use babyos.Arp.Silent.{Dropped, run-Dropped, run-cached}

abbrev host : Host
host = record { ip = 0x0a00_0002; subnet_mask = 0xffff_ff00; gateway = 0x0a00_0001 }

abbrev nothing : Arp
nothing = record { cache = []; queue = [] }

-- A packet for another network and one for a neighbour; the gateway answers behind a timeout.
abbrev traffic : List Event
traffic =
    outgoing 0x0808_0808 (some 7)
    ∷ timeout 0x0a00_0001
    ∷ outgoing 0x0a00_0003 (some 8)
    ∷ incoming (reply 0x0a00_0001 0xabcd)
    ∷ []

traffic_effects :
    (run host traffic nothing).1
    ≡ taken 7
      ∷ requested 0x0a00_0001
      ∷ armed 0x0a00_0001
      ∷ disarmed 0x0a00_0001
      ∷ armed 0x0a00_0001
      ∷ requested 0x0a00_0001
      ∷ taken 8
      ∷ requested 0x0a00_0003
      ∷ armed 0x0a00_0003
      ∷ sent 0xabcd 7
      ∷ freed 7
      ∷ disarmed 0x0a00_0001
      ∷ []
unfolding run step transmit receive forward_to add_to_wait_queue wait_at process_wait_queue
    answer_node request_timeout time_out_node check_ip next_hop is_broadcast is_same_subnet
    lookup_cache find_node set_node erase_node has_buffer send_all
traffic_effects = refl

run-Kept_example :
    waits 8 (run host traffic nothing).0.queue + frees 8 (run host traffic nothing).1
    ≡ waits 8 nothing.queue + takes 8 (run host traffic nothing).1
unfolding run step transmit receive forward_to add_to_wait_queue wait_at process_wait_queue
    answer_node request_timeout time_out_node check_ip next_hop is_broadcast is_same_subnet
    lookup_cache find_node set_node erase_node has_buffer send_all
run-Kept_example = run-Kept 8 host traffic nothing refl

transmit-replied_example :
    sends 0xabcd 7
      (run host
        (outgoing 0x0808_0808 (some 7) ∷ (timeout 0x0a00_0001 ∷ outgoing 0x0a00_0003 (some 8) ∷ [])
          ++ incoming (reply (next_hop host 0x0808_0808) 0xabcd) ∷ [])
        nothing).1
    ≡ true
unfolding check_ip next_hop is_broadcast is_same_subnet lookup_cache find_node
transmit-replied_example =
    transmit-replied host 0x0808_0808 7 0xabcd
      (timeout 0x0a00_0001 ∷ outgoing 0x0a00_0003 (some 8) ∷ []) nothing refl refl refl refl
      (omega arith)

abbrev waiting : Node
waiting = record { ip = 0x0a00_0003; retry = 3; buffers = 8 ∷ 9 ∷ [] }

abbrev one_waits : Arp
one_waits = record { cache = record { ip = 0x0a00_0001; mac = 0xabcd } ∷ []; queue = waiting ∷ [] }

run-Dropped_example :
    Dropped 0x0a00_0003 3 waiting one_waits (run host (replicate 4 (timeout 0x0a00_0003)) one_waits)
unfolding find_node
run-Dropped_example = run-Dropped host 0x0a00_0003 3 waiting one_waits refl refl

run-cached_example :
    lookup_cache 0x0a00_0001 (run host (incoming (reply 0x0a00_0001 0xef01) ∷ []) one_waits).0.cache
    ≡ some 0xabcd
unfolding lookup_cache
run-cached_example =
    run-cached host 0x0a00_0001 0xabcd (incoming (reply 0x0a00_0001 0xef01) ∷ []) one_waits refl
