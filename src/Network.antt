-- ===== src/Network.antt =====
-- kernel/network.c: the network interface and its queue of simulated packets.
pub mod Fifo
pub mod Link
pub mod Agrees
pub mod Stream
mod Tests
use minimalist_os.Base.{
  ℕ, ◌+◌, ◌-◌, ◌%◌, List, [], ◌∷◌, Bool, true, false, not, ◌&&◌, ◌||◌, Option, none, some, ℤ,
  success, failure, ltb, ◌==◌, if◌then◌else◌, set, get_or, replicate,
}
use minimalist_os.CString.{memcpy}

abbrev pub net_buffer_size : ℕ
net_buffer_size = 1514

abbrev pub max_packets : ℕ
max_packets = 32

pub record NetworkInterface : Type 0 where
  pub mac : List ℕ
  pub ip : ℕ
  pub netmask : ℕ
  pub gateway : ℕ
  pub active : Bool

pub record NetworkPacket : Type 0 where
  pub payload : List ℕ
  pub length : ℕ
  pub type : ℕ
  pub src_ip : ℕ
  pub dst_ip : ℕ

-- The file's static variables.
pub record Network : Type 0 where
  pub netif : NetworkInterface
  pub packet_buffer : List NetworkPacket
  pub packet_head : ℕ
  pub packet_tail : ℕ
  pub packet_count : ℕ

-- What `memset` leaves in an entry of the packet buffer.
unfoldable pub zero_packet : NetworkPacket
zero_packet = record {
  payload = replicate net_buffer_size 0;
  length = 0;
  type = 0;
  src_ip = 0;
  dst_ip = 0;
}

unfoldable pub network_init : Network
network_init = record {
  netif = record {
    mac = 0x52 ∷ 0x54 ∷ 0x00 ∷ 0x12 ∷ 0x34 ∷ 0x56 ∷ [];
    ip = 0xC0A80164;
    netmask = 0xFFFFFF00;
    gateway = 0xC0A80101;
    active = true;
  };
  packet_buffer = replicate max_packets zero_packet;
  packet_head = 0;
  packet_tail = 0;
  packet_count = 0;
}

abbrev pub is_null {ℓ} : {A : Type ℓ} → Option A → Bool
is_null none = true
is_null (some a) = false

-- `if (data && length > 0) memcpy(packet->data, data, length);`
unfoldable pub copy_payload : List ℕ → Option (List ℕ) → ℕ → List ℕ
copy_payload old none n = old
copy_payload old (some bytes) n = if ltb 0 n then memcpy old bytes n else old

-- The entry that `network_send_packet` writes at the tail.
unfoldable pub make_packet : Network → ℕ → ℕ → Option (List ℕ) → ℕ → NetworkPacket
make_packet s dst_ip type bytes n = record {
  payload = copy_payload (get_or s.packet_buffer s.packet_tail zero_packet).payload bytes n;
  length = n;
  type = type;
  src_ip = s.netif.ip;
  dst_ip = dst_ip;
}

unfoldable pub network_send_packet : ℕ → ℕ → Option (List ℕ) → ℕ → Network → ℤ × Network
network_send_packet dst_ip type bytes n s =
    if not s.netif.active || ltb net_buffer_size n || (ltb 0 n && is_null bytes)
    then (failure, s)
    else if ltb s.packet_count max_packets
    then (
      success,
      record s {
        packet_buffer = set s.packet_buffer s.packet_tail (make_packet s dst_ip type bytes n);
        packet_tail = (s.packet_tail + 1) % max_packets;
        packet_count = s.packet_count + 1;
      },
    )
    else (failure, s)

-- The Boolean says whether the caller's pointer is non-null; the option is what is stored there.
unfoldable pub network_receive_packet : Bool → Network → ℤ × Option NetworkPacket × Network
network_receive_packet out s = if s.packet_count == 0 || not out then (failure, none, s) else (
  success,
  some (get_or s.packet_buffer s.packet_head zero_packet),
  record s { packet_head = (s.packet_head + 1) % max_packets; packet_count = s.packet_count - 1 },
)

unfoldable pub network_set_ip : ℕ → Network → ℤ × Network
network_set_ip ip s = (success, record s { netif = record (s.netif) { ip = ip } })

unfoldable pub network_set_mac : Option (List ℕ) → Network → ℤ × Network
network_set_mac none s = (failure, s)
network_set_mac (some mac) s =
    (success, record s { netif = record (s.netif) { mac = memcpy s.netif.mac mac 6 } })
