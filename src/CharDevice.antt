-- ===== src/CharDevice.antt =====
-- drivers/char_device.c: the character device, a circular buffer of bytes.
pub mod Fifo
pub mod Stream
mod Tests
use minimalist_os.Base.{
  ℕ, zero, suc, ◌+◌, ◌-◌, ◌%◌, List, [], ◌∷◌, Option, none, some, ℤ, pos, success, failure, ltb,
  ◌==◌, if◌then◌else◌, set, get_or, take,
}

abbrev pub char_buffer_size : ℕ
char_buffer_size = 1024

pub record CharDevice : Type 0 where
  pub buffer : List ℕ
  pub read_pos : ℕ
  pub write_pos : ℕ
  pub count : ℕ

-- `char_open`, which `char_device_init` and the first `ioctl` command repeat.
unfoldable pub char_open : CharDevice → ℤ × CharDevice
char_open dev = (success, record dev { read_pos = 0; write_pos = 0; count = 0 })

unfoldable pub char_close : CharDevice → ℤ × CharDevice
char_close dev = (success, dev)

-- The state after one round of the loop of `char_read`.
unfoldable pub drop_byte : CharDevice → CharDevice
drop_byte dev = record dev {
  read_pos = (dev.read_pos + 1) % char_buffer_size;
  count = dev.count - 1;
}

-- The loop of `char_read`: `out` is `buf[bytes_read..]`, and the number is `size - bytes_read`.
unfoldable pub read_loop : CharDevice → List ℕ → ℕ → ℕ → ℕ × List ℕ × CharDevice
unfolding drop_byte
read_loop dev out zero bytes_read = (bytes_read, out, dev)
read_loop dev [] (suc n) bytes_read = (bytes_read, [], dev)
read_loop dev (x ∷ out) (suc n) bytes_read =
    let rest = read_loop (drop_byte dev) out n (bytes_read + 1) in
    if ltb 0 dev.count
    then (rest.0, get_or dev.buffer dev.read_pos 0 ∷ rest.1, rest.2)
    else (bytes_read, x ∷ out, dev)

-- Returns the status, the caller's buffer and the device.
unfoldable pub char_read : Option (List ℕ) → ℕ → CharDevice → ℤ × Option (List ℕ) × CharDevice
unfolding read_loop
char_read none size dev = (failure, none, dev)
char_read (some buf) size dev =
    let (n, buf', dev') = read_loop dev buf size 0 in (pos n, some buf', dev')

-- The state after one round of the loop of `char_write`.
unfoldable pub put_byte : CharDevice → ℕ → CharDevice
put_byte dev c = record dev {
  buffer = set dev.buffer dev.write_pos c;
  write_pos = (dev.write_pos + 1) % char_buffer_size;
  count = dev.count + 1;
}

-- The loop of `char_write`: the list is `buf[bytes_written..size)`.
unfoldable pub write_loop : CharDevice → List ℕ → ℕ → ℕ × CharDevice
unfolding put_byte
write_loop dev [] bytes_written = (bytes_written, dev)
write_loop dev (c ∷ buf) bytes_written =
    let rest = write_loop (put_byte dev c) buf (bytes_written + 1) in
    if ltb dev.count char_buffer_size then rest else (bytes_written, dev)

unfoldable pub char_write : Option (List ℕ) → ℕ → CharDevice → ℤ × CharDevice
unfolding write_loop
char_write none size dev = (failure, dev)
char_write (some buf) size dev = let (n, dev') = write_loop dev (take size buf) 0 in (pos n, dev')

-- `arg` says whether the pointer is non-null; the option is what is stored through it.
unfoldable pub char_ioctl : ℕ → Option ℕ → CharDevice → ℤ × Option ℕ × CharDevice
char_ioctl cmd none dev =
    if cmd == 0
    then (success, none, record dev { read_pos = 0; write_pos = 0; count = 0 })
    else (failure, none, dev)
char_ioctl cmd (some arg) dev =
    if cmd == 0
    then (success, some arg, record dev { read_pos = 0; write_pos = 0; count = 0 })
    else if cmd == 1
    then (success, some dev.count, dev)
    else if cmd == 2
    then (success, some char_buffer_size, dev)
    else (failure, some arg, dev)
