-- ===== src/Network/Fifo.antt =====
-- The packet buffer of kernel/network.c as a queue.
use minimalist_os.Base.{
  ℕ, ◌+◌, ◌%◌, ◌≤◌, ◌<◌, ◌≡◌, refl, List, [], ◌∷◌, ◌++◌, Bool, Option, none, some, ℤ, success,
  failure, arith, if◌then◌else◌, ltb, length, length-set, length-replicate, get_or, ◌&&◌, not, take,
}
use minimalist_os.Base.Circular.{slots, slots-push, slots_step}
use minimalist_os.CString.Copy.{take-memcpy}
use minimalist_os.Network.{
  Network, NetworkPacket, zero_packet, max_packets, net_buffer_size, network_init,
  network_send_packet, network_receive_packet, make_packet, is_null, copy_payload,
}

pub record IsValid (s : Network) : Type 0 where
  pub full : length s.packet_buffer ≡ max_packets
  pub head_in : s.packet_head < max_packets
  pub count_in : s.packet_count ≤ max_packets
  pub tail_at : s.packet_tail ≡ (s.packet_head + s.packet_count) % max_packets

-- The packets that wait, oldest first.
abbrev pub contents : Network → List NetworkPacket
contents s = slots zero_packet max_packets s.packet_buffer s.packet_head 0 s.packet_count

-- The arguments that `network_send_packet` accepts.
abbrev pub accepts : Network → Option (List ℕ) → ℕ → Bool
accepts s bytes n =
    s.netif.active
    && not (ltb net_buffer_size n)
    && not (ltb 0 n && is_null bytes)
    && ltb s.packet_count max_packets

-- A fresh network is valid and holds no packet.
pub network_init-IsValid : IsValid network_init × (contents network_init ≡ [])
unfolding network_init
network_init-IsValid = (
  record {
    full = length-replicate max_packets zero_packet;
    head_in = omega arith;
    count_in = omega arith;
    tail_at = refl;
  },
  refl,
)

-- Sending keeps the buffer valid.
pub send-IsValid :
    (dst_ip type : ℕ) (bytes : Option (List ℕ)) (n : ℕ) {s : Network}
    → IsValid s
    → IsValid (network_send_packet dst_ip type bytes n s).1
unfolding network_send_packet
send-IsValid dst_ip type bytes n {s} v =
    ground (arith, length-set s.packet_buffer s.packet_tail (make_packet s dst_ip type bytes n))

-- Receiving keeps the buffer valid.
pub receive-IsValid :
    (out : Bool) {s : Network} → IsValid s → IsValid (network_receive_packet out s).2
unfolding network_receive_packet
receive-IsValid out v = ground arith

-- The queue's view of a send.
unfoldable pub offer : Bool → NetworkPacket → List NetworkPacket → ℤ × List NetworkPacket
offer ok p ps = if ok then (success, ps ++ (p ∷ [])) else (failure, ps)

-- On a valid buffer `network_send_packet` succeeds exactly on arguments that it accepts while there
-- is room; it then appends the packet to the waiting ones, and otherwise changes none of them.
pub network_send_packet_refines :
    (dst_ip type : ℕ) (bytes : Option (List ℕ)) (n : ℕ) (s : Network)
    → IsValid s
    → let (status, s') = network_send_packet dst_ip type bytes n s in
      offer (accepts s bytes n) (make_packet s dst_ip type bytes n) (contents s)
      ≡ (status, contents s')
unfolding network_send_packet offer
network_send_packet_refines dst_ip type bytes n s v = ground (
  arith,
  slots-push zero_packet max_packets s.packet_buffer s.packet_head
      (make_packet s dst_ip type bytes n) (omega arith) v.head_in s.packet_count,
)

-- The queue's view of a receive.
unfoldable pub take_oldest :
    Bool → List NetworkPacket → ℤ × Option NetworkPacket × List NetworkPacket
take_oldest out [] = (failure, none, [])
take_oldest out (p ∷ ps) = if out then (success, some p, ps) else (failure, none, p ∷ ps)

-- On a valid buffer `network_receive_packet` hands out the oldest waiting packet and leaves the
-- others in order; it fails exactly when none waits or the caller gives no place for it.
pub network_receive_packet_refines :
    (out : Bool) (s : Network)
    → IsValid s
    → let (status, got, s') = network_receive_packet out s in
      take_oldest out (contents s) ≡ (status, got, contents s')
unfolding network_receive_packet take_oldest
network_receive_packet_refines out s v =
    ground (arith, slots_step zero_packet max_packets s.packet_buffer s.packet_head s.packet_count)

-- The payload that is queued for an accepted send of `n` bytes begins with those bytes, where the
-- entry that is overwritten has a full-size buffer and the caller gives `n` bytes.
pub make_packet-payload :
    (dst_ip type : ℕ) (bytes : List ℕ) (n : ℕ) (s : Network)
    → n ≤ length bytes
    → n ≤ length (get_or s.packet_buffer s.packet_tail zero_packet).payload
    → take n (make_packet s dst_ip type (some bytes) n).payload ≡ take n bytes
unfolding make_packet copy_payload
make_packet-payload dst_ip type bytes n s h k =
    ground
      (arith, take-memcpy (get_or s.packet_buffer s.packet_tail zero_packet).payload bytes n k h)
