-- ===== src/Network/Agrees.antt =====
-- Each call of kernel/network.c, on the ring of packets and on the queue.
use minimalist_os.Base.{
  ℕ, suc, ◌≤◌, ◌<◌, ◌≡◌, refl, sym, ap, ◌∙◌, List, [], ◌∷◌, ◌++◌, Bool, true, false, Option, none,
  some, success, failure, arith, ◌==◌, length, get_or, inl, inr, Bool-cases, set, get_or-set_self,
  get_or-set_ne,
}
use minimalist_os.Base.Circular.{length-slots}
use minimalist_os.CString.Copy.{length-memcpy}
use minimalist_os.Network.{
  Network, NetworkPacket, zero_packet, max_packets, net_buffer_size, network_send_packet,
  network_receive_packet, network_set_ip, network_set_mac, make_packet, copy_payload,
}
use minimalist_os.Network.Fifo.{
  IsValid, contents, accepts, offer, take_oldest, send-IsValid, receive-IsValid,
  network_send_packet_refines, network_receive_packet_refines, make_packet-payload,
}
use minimalist_os.Network.Link.{
  view, views, seen, Op, send, receive, set_ip, set_mac, step, packet, takes, step_link, link,
  AllGiven, sent, sent_null, received, ip_set, mac_set,
}

-- Each entry of the buffer has a payload of full size.
unfoldable pub Roomy : Network → Type 0
Roomy s =
    (k : ℕ)
    → k < max_packets
    → length (get_or s.packet_buffer k zero_packet).payload ≡ net_buffer_size

views-append :
    (ps : List NetworkPacket) (p : NetworkPacket) → views (ps ++ (p ∷ [])) ≡ views ps ++ view p ∷ []
unfolding views
views-append [] p = refl
views-append (q ∷ ps) p = ap (λ r. view q ∷ r) (views-append ps p)

length-views : (ps : List NetworkPacket) → length (views ps) ≡ length ps
unfolding views
length-views [] = refl
length-views (p ∷ ps) = ap suc (length-views ps)

count-link : (s : Network) → s.packet_count ≡ length (link s).queue
unfolding link
count-link s = sym (
    length-views (contents s)
    ∙ length-slots zero_packet max_packets s.packet_buffer s.packet_head 0 s.packet_count)

payload-packet :
    (dst_ip type : ℕ) (b : List ℕ) (n : ℕ) (s : Network)
    → n ≤ length b
    → n ≤ length (get_or s.packet_buffer s.packet_tail zero_packet).payload
    → view (make_packet s dst_ip type (some b) n) ≡ packet s.netif.ip dst_ip type (some b) n
unfolding make_packet view packet
payload-packet dst_ip type b n s given room =
    ap
      (λ payload. record {
        payload = payload;
        length = n;
        type = type;
        src_ip = s.netif.ip;
        dst_ip = dst_ip;
      })
      (make_packet-payload dst_ip type b n s given room)

null-packet :
    (dst_ip type : ℕ) (s : Network)
    → view (make_packet s dst_ip type none 0) ≡ packet s.netif.ip dst_ip type none 0
unfolding make_packet view packet
null-packet dst_ip type s = refl

length-copy_payload :
    (old : List ℕ) (bytes : Option (List ℕ)) (n : ℕ)
    → length (copy_payload old bytes n) ≡ length old
unfolding copy_payload
length-copy_payload old none n = refl
length-copy_payload old (some b) n = ground (arith, length-memcpy old b n)

Roomy-set :
    (dst_ip type : ℕ) (bytes : Option (List ℕ)) (n : ℕ) (s : Network)
    → IsValid s
    → Roomy s
    → (k : ℕ) → k < max_packets
    → length
        (get_or
          (set s.packet_buffer s.packet_tail (make_packet s dst_ip type bytes n))
          k
          zero_packet).payload
      ≡ net_buffer_size
unfolding make_packet Roomy
Roomy-set dst_ip type bytes n s v room k lt = elim (Bool-cases (s.packet_tail == k)) [
  | inl same ↦
      let e : k ≡ s.packet_tail = ground arith in
      ap
        (λ j.
          length
            (get_or (set s.packet_buffer s.packet_tail (make_packet s dst_ip type bytes n)) j
              zero_packet).payload)
        e
      ∙ ap (λ p. length p.payload)
          (get_or-set_self s.packet_buffer s.packet_tail (make_packet s dst_ip type bytes n)
            zero_packet (omega (arith, v.full, v.tail_at)))
      ∙ length-copy_payload (get_or s.packet_buffer s.packet_tail zero_packet).payload bytes n
      ∙ room s.packet_tail (omega (arith, v.tail_at))
  | inr other ↦
      ap (λ p. length p.payload)
        (get_or-set_ne s.packet_buffer s.packet_tail k (make_packet s dst_ip type bytes n)
          zero_packet (λ e. ground (arith, e)))
      ∙ room k lt
]

send-Roomy :
    (dst_ip type : ℕ) (bytes : Option (List ℕ)) (n : ℕ) (s : Network)
    → IsValid s
    → Roomy s
    → Roomy (network_send_packet dst_ip type bytes n s).1
unfolding network_send_packet Roomy
send-Roomy dst_ip type bytes n s v room =
    λ k lt. ground (arith, room k lt, Roomy-set dst_ip type bytes n s v room k lt)

receive-Roomy : (out : Bool) (s : Network) → Roomy s → Roomy (network_receive_packet out s).2
unfolding network_receive_packet Roomy
receive-Roomy out s room = λ k lt. ground (arith, room k lt)

send-netif :
    (dst_ip type : ℕ) (bytes : Option (List ℕ)) (n : ℕ) (s : Network)
    → (network_send_packet dst_ip type bytes n s).1.netif ≡ s.netif
unfolding network_send_packet
send-netif dst_ip type bytes n s = ground arith

receive-netif : (out : Bool) (s : Network) → (network_receive_packet out s).2.netif ≡ s.netif
unfolding network_receive_packet
receive-netif out s = ground arith

-- A call on the network and on its link.
pub record Agrees (op : Op) (s : Network) : Type 0 where
  pub same : ((step op s).0, link (step op s).1) ≡ step_link op (link s)
  pub valid : IsValid (step op s).1
  pub roomy : Roomy (step op s).1

-- What a send puts in the queue looks like the caller's packet.
send-Agrees :
    (dst_ip type : ℕ) (bytes : Option (List ℕ)) (n : ℕ) (s : Network)
    → IsValid s
    → Roomy s
    → (accepts s bytes n ≡ true
        → view (make_packet s dst_ip type bytes n) ≡ packet s.netif.ip dst_ip type bytes n)
    → Agrees (send dst_ip type bytes n) s
unfolding step step_link takes link offer
send-Agrees dst_ip type bytes n s v room looks =
    let (status, s') = network_send_packet dst_ip type bytes n s in
    let refines = network_send_packet_refines dst_ip type bytes n s v in
    let made = make_packet s dst_ip type bytes n in
    let settings = send-netif dst_ip type bytes n s in
    record {
      same = elim (Bool-cases (accepts s bytes n)) [
        | inl fits ↦
            let taken : takes s.netif (length (link s).queue) bytes n ≡ true =
              ap (λ c. takes s.netif c bytes n) (sym (count-link s)) ∙ fits in
            let good : (success, contents s ++ made ∷ []) ≡ (status, contents s') =
              ap (λ b. offer b made (contents s)) (sym fits) ∙ refines in
            rw taken (
              ap (λ t. ((t.0, none), record { netif = s'.netif; queue = views t.1 })) (sym good)
              ∙ ap
                  (λ i. (
                    (success, none),
                    record { netif = i; queue = views (contents s ++ made ∷ []) },
                  ))
                  settings
              ∙ ap (λ q. ((success, none), record { netif = s.netif; queue = q }))
                  (views-append (contents s) made
                    ∙ ap (λ p. views (contents s) ++ p ∷ []) (looks fits)))
        | inr refused ↦
            let taken : takes s.netif (length (link s).queue) bytes n ≡ false =
              ap (λ c. takes s.netif c bytes n) (sym (count-link s)) ∙ refused in
            let good : (failure, contents s) ≡ (status, contents s') =
              ap (λ b. offer b made (contents s)) (sym refused) ∙ refines in
            rw taken (
              ap (λ t. ((t.0, none), record { netif = s'.netif; queue = views t.1 })) (sym good)
              ∙ ap (λ i. ((failure, none), record { netif = i; queue = views (contents s) }))
                  settings)
      ];
      valid = send-IsValid dst_ip type bytes n v;
      roomy = send-Roomy dst_ip type bytes n s v room;
    }

take_oldest-views :
    (out : Bool) (ps : List NetworkPacket)
    → let (status, got, rest) = take_oldest out ps in
      (status, seen got, views rest) ≡ take_oldest out (views ps)
unfolding take_oldest seen views
take_oldest-views out [] = refl
take_oldest-views true (p ∷ ps) = refl
take_oldest-views false (p ∷ ps) = refl

receive-Agrees : (out : Bool) (s : Network) → IsValid s → Roomy s → Agrees (receive out) s
unfolding step step_link link
receive-Agrees out s v room =
    let (status, got, s') = network_receive_packet out s in
    record {
      same =
          ap (λ t. ((t.0, seen t.1), record { netif = s'.netif; queue = views t.2 }))
            (sym (network_receive_packet_refines out s v))
          ∙ ap (λ t. ((t.0, t.1), record { netif = s'.netif; queue = t.2 }))
              (take_oldest-views out (contents s))
          ∙ ap
              (λ i.
                let (status, got, rest) = take_oldest out (views (contents s)) in
                ((status, got), record { netif = i; queue = rest }))
              (receive-netif out s);
      valid = receive-IsValid out v;
      roomy = receive-Roomy out s room;
    }

set_ip-Agrees : (ip : ℕ) (s : Network) → IsValid s → Roomy s → Agrees (set_ip ip) s
unfolding step step_link link network_set_ip Roomy
set_ip-Agrees ip s v room = record {
  same = refl;
  valid = record { full = v.full; head_in = v.head_in; count_in = v.count_in; tail_at = v.tail_at };
  roomy = room;
}

set_mac-Agrees :
    (mac : Option (List ℕ)) (s : Network) → IsValid s → Roomy s → Agrees (set_mac mac) s
unfolding step step_link link network_set_mac Roomy
set_mac-Agrees none s v room = record { same = refl; valid = v; roomy = room }
set_mac-Agrees (some mac) s v room = record {
  same = refl;
  valid = record { full = v.full; head_in = v.head_in; count_in = v.count_in; tail_at = v.tail_at };
  roomy = room;
}

-- An accepted send is no longer than an entry of the buffer.
accepts-short :
    (s : Network) (bytes : Option (List ℕ)) (n : ℕ) → accepts s bytes n ≡ true → n ≤ net_buffer_size
accepts-short s bytes n fits = ground (arith, fits)

accepts-null : (s : Network) (n : ℕ) → accepts s none n ≡ true → n ≡ 0
accepts-null s n fits = ground (arith, fits)

tail-in : (s : Network) → IsValid s → s.packet_tail < max_packets
tail-in s v = omega (arith, v.tail_at)

-- One call, whichever it is.
pub step-Agrees :
    {op : Op} {ops : List Op} (s : Network)
    → IsValid s
    → Roomy s
    → AllGiven (op ∷ ops)
    → Agrees op s × AllGiven ops
unfolding Roomy
step-Agrees s v room (sent {dst_ip} {type} {n} {b} given more) = (
  send-Agrees dst_ip type (some b) n s v room (λ fits.
      payload-packet dst_ip type b n s given
        (omega (arith, accepts-short s (some b) n fits, room s.packet_tail (tail-in s v)))),
  more,
)
step-Agrees s v room (sent_null {dst_ip} {type} {n} more) = (
  send-Agrees dst_ip type none n s v room (λ fits.
      let nothing : n ≡ 0 = accepts-null s n fits in
      ap (λ m. view (make_packet s dst_ip type none m)) nothing
      ∙ null-packet dst_ip type s
      ∙ ap (packet s.netif.ip dst_ip type none) (sym nothing)),
  more,
)
step-Agrees s v room (received {out} more) = (receive-Agrees out s v room, more)
step-Agrees s v room (ip_set {ip} more) = (set_ip-Agrees ip s v room, more)
step-Agrees s v room (mac_set {mac} more) = (set_mac-Agrees mac s v room, more)
