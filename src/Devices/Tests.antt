-- ===== src/Devices/Tests.antt =====
-- One registered device after another, on memory with free pages.
use minimalist_os.Base.{
  ℕ, ◌+◌, ◌==◌, ◌++◌, if◌then◌else◌, ◌≡◌, refl, List, [], ◌∷◌, none, some, arith, length, replicate,
  success, pos,
}
use minimalist_os.Base.Bitmap.{is_used, count_used, first_free, mark_used}
use minimalist_os.Base.Bits.{test_bit, set_bit}
use minimalist_os.CString.{text}
use minimalist_os.Memory.{Memory, alloc_page}
use minimalist_os.Memory.Pages.{IsValid}
use minimalist_os.Devices.{DeviceInfo, DeviceOps, Node, Devices, device_register, device_unregister}
use minimalist_os.Devices.Refine.{
  Lists, Registered, Removed, device_register_lem, device_unregister_lem,
}
use minimalist_os.Devices.Calls.{Reaches, device_register-Reaches}

abbrev con_name : List ℕ
con_name = b'c' ∷ b'o' ∷ b'n' ∷ 0 ∷ []

abbrev kbd_name : List ℕ
kbd_name = b'k' ∷ b'b' ∷ b'd' ∷ 0 ∷ []

abbrev con : DeviceInfo ℕ
con = record { name = con_name ++ replicate 28 0; type = 1; major = 4; minor = 1; ops = none }

abbrev kbd : DeviceInfo ℕ
kbd = record { name = kbd_name ++ replicate 28 0; type = 1; major = 4; minor = 2; ops = none }

-- The keyboard stands first; both lie in pages of their own, and the third page is free.
abbrev node_at : ℕ → Node ℕ
node_at p =
    if p == 0x3000 then record { info = kbd; next = 0x2000 } else record { info = con; next = 0 }

abbrev two_devices : Devices ℕ
two_devices = record { nodes = node_at; device_list = 0x3000 }

abbrev memory : Memory
memory = record { page_bitmap = 15 ∷ replicate 31 0; used_pages = 4; heap = []; heap_pos = 0 }

memory-IsValid : IsValid memory
unfolding is_used count_used test_bit
memory-IsValid = record { covers = refl; counted = refl; first_used = refl }

abbrev listed : List (ℕ × DeviceInfo ℕ)
listed = (0x3000, kbd) ∷ (0x2000, con) ∷ []

two_devices-Lists : Lists two_devices memory listed
unfolding is_used test_bit
two_devices-Lists = record {
  chain = (refl, omega arith, refl, (refl, omega arith, refl, refl));
  distinct = ((omega arith, record {}), (record {}, record {}));
  pages = (
    record { aligned = refl; not_first = omega arith; in_range = omega arith; used = refl },
    (
      record { aligned = refl; not_first = omega arith; in_range = omega arith; used = refl },
      record {},
    ),
  );
  fewer = omega arith;
  memory = memory-IsValid;
}

device_unregister_lem_example :
    Removed con_name two_devices memory listed (device_unregister con_name two_devices memory)
device_unregister_lem_example =
    device_unregister_lem con_name two_devices memory listed two_devices-Lists

page_4 : (alloc_page memory).0 ≡ 0x4000
unfolding alloc_page first_free is_used test_bit mark_used set_bit
page_4 = refl

device_register_lem_example :
    Registered kbd_name 2 5 6 none two_devices memory listed
      (device_register kbd_name 2 5 6 none two_devices memory)
device_register_lem_example =
    device_register_lem kbd_name 2 5 6 none two_devices memory listed two_devices-Lists
      (rw page_4 (omega arith))

-- A driver that counts what it is given.
abbrev counter_ops : DeviceOps ℕ
counter_ops = record {
  open_op = some (λ d. (success, 0));
  close_op = none;
  read_op = none;
  write_op = some (λ buffer size d. (pos size, d + size));
  ioctl_op = none;
}

registered : (device_register kbd_name 2 5 6 (some counter_ops) two_devices memory).0 ≡ success
unfolding device_register alloc_page first_free is_used test_bit mark_used set_bit
registered = refl

kbd_text : length (text kbd_name) ≡ 3
unfolding text
kbd_text = refl

device_register-Reaches_example :
    Reaches kbd_name
      (device_register kbd_name 2 5 6 (some counter_ops) two_devices memory).1
      counter_ops
device_register-Reaches_example =
    device_register-Reaches kbd_name 2 5 6 counter_ops two_devices memory listed two_devices-Lists
      (omega (arith, kbd_text)) (rw page_4 (omega arith)) registered
