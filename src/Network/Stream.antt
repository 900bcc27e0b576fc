-- ===== src/Network/Stream.antt =====
-- Sequences of calls of kernel/network.c.
use minimalist_os.Base.{
  ℕ, zero, suc, ◌<◌, ◌≡◌, refl, ap, ◌∙◌, List, [], ◌∷◌, arith, length, get_or, length-replicate,
  replicate,
}
use minimalist_os.Network.{
  Network, NetworkPacket, zero_packet, max_packets, net_buffer_size, network_init,
}
use minimalist_os.Network.Fifo.{IsValid, network_init-IsValid}
use minimalist_os.Network.Link.{Op, step, run, run_link, link, AllGiven}
use minimalist_os.Network.Agrees.{Roomy, step-Agrees}

run-run_link :
    (ops : List Op) (s : Network)
    → IsValid s
    → Roomy s
    → AllGiven ops
    → let (results, s') = run ops s in (results, link s') ≡ run_link ops (link s)
unfolding run run_link
run-run_link [] s v room given = refl
run-run_link (op ∷ ops) s v room given =
    let (agrees, more) = step-Agrees s v room given in
    let same = run-run_link ops (step op s).1 agrees.valid agrees.roomy more in
    ap (λ r. ((step op s).0 ∷ r.0, r.1)) same
    ∙ ap (λ t. let r = run_link ops t.1 in (t.0 ∷ r.0, r.1)) agrees.same

get_or-replicate :
    (m : ℕ) (p : NetworkPacket) (k : ℕ) → k < m → get_or (replicate m p) k zero_packet ≡ p
get_or-replicate zero p k h = absurd (omega arith)
get_or-replicate (suc m) p zero h = refl
get_or-replicate (suc m) p (suc k) h = get_or-replicate m p k (omega arith)

network_init-Roomy : Roomy network_init
unfolding Roomy network_init zero_packet
network_init-Roomy = λ k lt.
    ap (λ p. length p.payload) (get_or-replicate max_packets zero_packet k lt)
    ∙ length-replicate {A = ℕ} net_buffer_size 0

-- After `network_init`, any calls that give as many bytes as they name have the results that a queue
-- of 32 packets gives: a packet is accepted when the interface is active, the packet is not too long
-- and there is room; it arrives with the sender's bytes, with the address that the interface had when
-- it was sent, and in the order of sending. What waits at the end, and the settings, are the queue's.
pub network_init-run_link :
    (ops : List Op)
    → AllGiven ops
    → let (results, s) = run ops network_init in
      (results, link s) ≡ run_link ops (link network_init)
network_init-run_link ops given =
    run-run_link ops network_init network_init-IsValid.0 network_init-Roomy given
