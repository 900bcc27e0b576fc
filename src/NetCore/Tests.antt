-- ===== src/NetCore/Tests.antt =====
-- A card, a null pointer and two frames, of which one is empty.
use minimalist_os.Base.{ℕ, ◌≡◌, ◌%◌, ◌^◌, refl, List, [], ◌∷◌, length, take, none, some}
use minimalist_os.NetCore.{
  NetCore, net_init, net_register_device, net_receive_frame, net_get_device, net_get_stats,
  net_get_device_count,
}
use minimalist_os.NetCore.Registry.{
  Op, register, receive, devices, frames, total, table, calls_after, net_init-calls_after,
}

one_card : NetCore ℕ
one_card =
    net_receive_frame 60 (
      net_receive_frame 0
        ((net_register_device none ((net_register_device (some 7) net_init).1)).1))

card : net_get_device 0 one_card ≡ some 7
unfolding one_card net_get_device net_receive_frame net_register_device net_init
card = refl

statistics : net_get_stats one_card ≡ (1, 60, 0, 0)
unfolding one_card net_get_stats net_receive_frame net_register_device net_init
statistics = refl

calls : List (Op ℕ)
calls = register (some 7) ∷ receive 60 ∷ register none ∷ receive 0 ∷ register (some 9) ∷ []

net_init-calls_after_example :
    let s = calls_after calls net_init in
    (s.net_devices ≡ table (take 8 (devices calls)) 8)
    × (net_get_device_count s ≡ length (take 8 (devices calls)))
    × ((net_get_stats s).0 ≡ frames calls % 2 ^ 32)
    × ((net_get_stats s).1 ≡ total calls % 2 ^ 32)
net_init-calls_after_example = net_init-calls_after calls
