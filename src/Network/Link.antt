-- ===== src/Network/Link.antt =====
-- The calls of kernel/network.c, one after the other, and the same calls on the settings of the
-- interface and a bounded queue of packets.
use minimalist_os.Base.{
  ℕ, ◌≤◌, List, [], ◌∷◌, ◌++◌, Bool, not, ◌&&◌, Option, none, some, ℤ, success, failure,
  if◌then◌else◌, ltb, length, take,
}
use minimalist_os.CString.{memcpy}
use minimalist_os.Network.{
  Network, NetworkInterface, NetworkPacket, max_packets, net_buffer_size, network_send_packet,
  network_receive_packet, network_set_ip, network_set_mac, is_null,
}
use minimalist_os.Network.Fifo.{contents, take_oldest}

-- What a receiver looks at: the payload up to the length.
unfoldable pub view : NetworkPacket → NetworkPacket
view p = record p { payload = take p.length p.payload }

unfoldable pub views : List NetworkPacket → List NetworkPacket
views [] = []
views (p ∷ ps) = view p ∷ views ps

unfoldable pub seen : Option NetworkPacket → Option NetworkPacket
seen none = none
seen (some p) = some (view p)

-- The four calls, with their arguments.
pub data Op : Type 0 where
  send : ℕ → ℕ → Option (List ℕ) → ℕ → Op
  receive : Bool → Op
  set_ip : ℕ → Op
  set_mac : Option (List ℕ) → Op

-- What a call gives back: its status, and the packet that was received.
unfoldable pub step : Op → Network → (ℤ × Option NetworkPacket) × Network
step (send dst_ip type bytes n) s =
    let (status, s') = network_send_packet dst_ip type bytes n s in ((status, none), s')
step (receive out) s =
    let (status, got, s') = network_receive_packet out s in ((status, seen got), s')
step (set_ip ip) s = let (status, s') = network_set_ip ip s in ((status, none), s')
step (set_mac mac) s = let (status, s') = network_set_mac mac s in ((status, none), s')

unfoldable pub run : List Op → Network → List (ℤ × Option NetworkPacket) × Network
run [] s = ([], s)
run (op ∷ ops) s = let (r, s') = step op s in let (rs, s'') = run ops s' in (r ∷ rs, s'')

-- The settings, and the packets that wait.
pub record Link : Type 0 where
  pub netif : NetworkInterface
  pub queue : List NetworkPacket

-- The packet with the caller's first `n` bytes.
unfoldable pub packet : ℕ → ℕ → ℕ → Option (List ℕ) → ℕ → NetworkPacket
packet src_ip dst_ip type bytes n = record {
  payload = take n (elim bytes [ none ↦ [] | some b ↦ b ]);
  length = n;
  type = type;
  src_ip = src_ip;
  dst_ip = dst_ip;
}

-- `accepts` at a number of waiting packets.
unfoldable pub takes : NetworkInterface → ℕ → Option (List ℕ) → ℕ → Bool
takes netif count bytes n =
    netif.active
    && not (ltb net_buffer_size n)
    && not (ltb 0 n && is_null bytes)
    && ltb count max_packets

unfoldable pub step_link : Op → Link → (ℤ × Option NetworkPacket) × Link
step_link (send dst_ip type bytes n) l =
    if takes l.netif (length l.queue) bytes n
    then (
      (success, none),
      record l { queue = l.queue ++ packet l.netif.ip dst_ip type bytes n ∷ [] },
    )
    else ((failure, none), l)
step_link (receive out) l =
    let (status, got, rest) = take_oldest out l.queue in ((status, got), record l { queue = rest })
step_link (set_ip ip) l = ((success, none), record l { netif = record (l.netif) { ip = ip } })
step_link (set_mac none) l = ((failure, none), l)
step_link (set_mac (some mac)) l =
    ((success, none), record l { netif = record (l.netif) { mac = memcpy l.netif.mac mac 6 } })

unfoldable pub run_link : List Op → Link → List (ℤ × Option NetworkPacket) × Link
run_link [] l = ([], l)
run_link (op ∷ ops) l =
    let (r, l') = step_link op l in let (rs, l'') = run_link ops l' in (r ∷ rs, l'')

unfoldable pub link : Network → Link
link s = record { netif = s.netif; queue = views (contents s) }

-- A send gives as many bytes as it names.
pub data AllGiven : List Op → Type 0 where
  at_end : AllGiven []
  sent :
      {dst_ip type n : ℕ} {b : List ℕ} {ops : List Op}
      → n ≤ length b
      → AllGiven ops
      → AllGiven (send dst_ip type (some b) n ∷ ops)
  sent_null :
      {dst_ip type n : ℕ} {ops : List Op} → AllGiven ops → AllGiven (send dst_ip type none n ∷ ops)
  received : {out : Bool} {ops : List Op} → AllGiven ops → AllGiven (receive out ∷ ops)
  ip_set : {ip : ℕ} {ops : List Op} → AllGiven ops → AllGiven (set_ip ip ∷ ops)
  mac_set : {mac : Option (List ℕ)} {ops : List Op} → AllGiven ops → AllGiven (set_mac mac ∷ ops)
