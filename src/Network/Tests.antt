-- ===== src/Network/Tests.antt =====
-- Tests of the packet buffer, and the theorems at the buffer after initialisation.
use minimalist_os.Base.{◌≡◌, refl, List, [], ◌∷◌, some, none, success, failure, true, false, arith}
use minimalist_os.Network.{Network, network_init, network_send_packet, network_receive_packet}
use minimalist_os.Network.Fifo.{take_oldest}
use minimalist_os.Network.Link.{
  Op, send, receive, set_ip, run, packet, takes, step_link, run_link, link, views, AllGiven, at_end,
  sent, sent_null, received, ip_set,
}
use minimalist_os.Network.Stream.{network_init-run_link}

-- One packet waits.
abbrev one : Network
one = (network_send_packet 0xC0A80102 17 (some (1 ∷ 2 ∷ [])) 2 network_init).1

arrived : (network_receive_packet true one).0 ≡ success
unfolding network_send_packet network_receive_packet network_init
arrived = refl

-- A send, a new address, a send that is too long, a receive without a place for the packet and two
-- receives.
calls : List Op
calls =
    send 0xC0A80102 17 (some (1 ∷ 2 ∷ 3 ∷ [])) 2
    ∷ set_ip 7
    ∷ send 8 9 none 1515
    ∷ receive false
    ∷ receive true
    ∷ receive true
    ∷ []

calls-AllGiven : AllGiven calls
unfolding calls
calls-AllGiven = sent (omega arith) (ip_set (sent_null (received (received (received at_end)))))

network_init-run_link_example :
    let (results, s) = run calls network_init in
    (results, link s) ≡ run_link calls (link network_init)
network_init-run_link_example = network_init-run_link calls calls-AllGiven

results :
    (run_link calls (link network_init)).0
    ≡ (success, none)
      ∷ (success, none)
      ∷ (failure, none)
      ∷ (failure, none)
      ∷ (success, some (packet 0xC0A80164 0xC0A80102 17 (some (1 ∷ 2 ∷ [])) 2))
      ∷ (failure, none)
      ∷ []
unfolding calls run_link step_link takes take_oldest link views packet network_init
results = refl
