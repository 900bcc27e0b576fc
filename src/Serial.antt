-- ===== src/Serial.antt =====
-- drivers/serial.c: the serial line. A byte goes out when the line is ready, or when it has been
-- found busy 100001 times.
pub mod Sends
pub mod Text
pub mod Numbers
mod Tests
use Prim.Native.Nat.{bit_and}
use minimalist_os.Base.{
  ℕ, zero, suc, ◌+◌, ◌*◌, ◌/◌, ◌%◌, ◌^◌, List, [], ◌∷◌, true, false, Option, none, some, ltb, ◌==◌,
  if◌then◌else◌, set, get_or, replicate,
}
use minimalist_os.Ports.{Ports, outb, inb}

abbrev pub serial_com1_base : ℕ
serial_com1_base = 0x3F8

-- The divisor 3 is for 38400 baud.
unfoldable pub serial_init : Ports → ℕ × Ports
serial_init p = (
  1,
  outb (serial_com1_base + 4) 0x0B (
      outb (serial_com1_base + 2) 0xC7 (
        outb (serial_com1_base + 3) 0x03 (
          outb (serial_com1_base + 1) 0 (
            outb serial_com1_base 3
              (outb (serial_com1_base + 3) 0x80 (outb (serial_com1_base + 1) 0 p)))))),
)

unfoldable pub serial_is_transmit_empty : ℕ → Ports → ℕ × Ports
serial_is_transmit_empty line p = let (status, p') = inb (line + 5) p in (bit_and status 0x20, p')

-- The loop of `serial_putchar`, with the rounds that the counter allows.
unfoldable pub wait_transmit : ℕ → ℕ → Ports → Ports
wait_transmit zero line p = (serial_is_transmit_empty line p).1
wait_transmit (suc timeout) line p =
    let (ready, p') = serial_is_transmit_empty line p in
    elim (ready == 0) [ true ↦ wait_transmit timeout line p' | false ↦ p' ]

abbrev pub transmit_timeout : ℕ
transmit_timeout = 100000

unfoldable pub serial_putchar : ℕ → ℕ → Ports → Ports
serial_putchar line c p = outb line c (wait_transmit transmit_timeout line p)

-- A carriage return (13) goes before a newline (10).
unfoldable pub serial_write : ℕ → List ℕ → Ports → Ports
serial_write line [] p = p
serial_write line (c ∷ str) p =
    let rest =
      serial_write line str
        (serial_putchar line c (if c == 10 then serial_putchar line 13 p else p)) in
    if c == 0 then p else rest

unfoldable pub serial_is_data_ready : ℕ → Ports → ℕ × Ports
serial_is_data_ready line p = let (status, p') = inb (line + 5) p in (bit_and status 1, p')

-- The loop of `serial_getchar` has no bound: after `polls` rounds without data the result is none.
unfoldable pub serial_getchar : ℕ → ℕ → Ports → Option (ℕ × Ports)
serial_getchar zero line p = none
serial_getchar (suc polls) line p =
    let (ready, p') = serial_is_data_ready line p in
    elim (ready == 0) [ true ↦ serial_getchar polls line p' | false ↦ some (inb line p') ]

-- `message` between a tag and a newline, on the first line.
unfoldable pub serial_tagged : List ℕ → List ℕ → Ports → Ports
serial_tagged tag message p =
    serial_putchar serial_com1_base 10
      (serial_write serial_com1_base message (serial_write serial_com1_base tag p))

-- "[DEBUG] "
unfoldable pub serial_debug : List ℕ → Ports → Ports
serial_debug = serial_tagged (b'[' ∷ b'D' ∷ b'E' ∷ b'B' ∷ b'U' ∷ b'G' ∷ b']' ∷ b' ' ∷ [])

-- "[INFO] "
unfoldable pub serial_info : List ℕ → Ports → Ports
serial_info = serial_tagged (b'[' ∷ b'I' ∷ b'N' ∷ b'F' ∷ b'O' ∷ b']' ∷ b' ' ∷ [])

-- "[ERROR] "
unfoldable pub serial_error : List ℕ → Ports → Ports
serial_error = serial_tagged (b'[' ∷ b'E' ∷ b'R' ∷ b'R' ∷ b'O' ∷ b'R' ∷ b']' ∷ b' ' ∷ [])

abbrev pub hex_chars : List ℕ
hex_chars =
    b'0' ∷ b'1' ∷ b'2' ∷ b'3' ∷ b'4' ∷ b'5' ∷ b'6' ∷ b'7' ∷ b'8' ∷ b'9' ∷ b'A' ∷ b'B' ∷ b'C' ∷ b'D'
    ∷ b'E' ∷ b'F' ∷ []

-- The lowest `n` digits of base 16, highest first.
unfoldable pub put_nibbles : ℕ → ℕ → ℕ → Ports → Ports
put_nibbles zero line value p = p
put_nibbles (suc i) line value p =
    put_nibbles i line value (serial_putchar line (get_or hex_chars (value / 2 ^ (i * 4) % 16) 0) p)

unfoldable pub serial_hex : ℕ → ℕ → Ports → Ports
serial_hex line value p =
    put_nibbles 8 line value (serial_putchar line b'x' (serial_putchar line b'0' p))

-- The first loop of `serial_decimal`, for `n` digits: a number of 32 bits has no more than 10.
unfoldable pub store_digits : ℕ → ℕ → ℕ → List ℕ → ℕ × List ℕ
store_digits zero value i buffer = (i, buffer)
store_digits (suc n) value i buffer =
    let rest = store_digits n (value / 10) (i + 1) (set buffer i (value % 10 + b'0')) in
    if ltb 0 value then rest else (i, buffer)

-- The second loop, from the last of `j` places down.
unfoldable pub put_back : ℕ → ℕ → List ℕ → Ports → Ports
put_back zero line buffer p = p
put_back (suc j) line buffer p = put_back j line buffer (serial_putchar line (get_or buffer j 0) p)

unfoldable pub serial_decimal : ℕ → ℕ → Ports → Ports
serial_decimal line value p =
    let (i, buffer) = store_digits 10 value 0 (replicate 16 0) in
    if value == 0 then serial_putchar line b'0' p else put_back i line buffer p

-- The loop that flushes the line at the end of `serial_panic`.
unfoldable pub flush : ℕ → Ports → Ports
flush zero p = p
flush (suc n) p =
    let (ready, p') = serial_is_transmit_empty serial_com1_base p in
    elim (ready == 0) [ true ↦ flush n p' | false ↦ p' ]

-- "\n=== KERNEL PANIC ===\n"
abbrev pub panic_head : List ℕ
panic_head =
    10 ∷ b'=' ∷ b'=' ∷ b'=' ∷ b' ' ∷ b'K' ∷ b'E' ∷ b'R' ∷ b'N' ∷ b'E' ∷ b'L' ∷ b' ' ∷ b'P' ∷ b'A'
    ∷ b'N' ∷ b'I' ∷ b'C' ∷ b' ' ∷ b'=' ∷ b'=' ∷ b'=' ∷ 10 ∷ []

-- "\nSystem halted.\n"
abbrev pub panic_tail : List ℕ
panic_tail =
    10 ∷ b'S' ∷ b'y' ∷ b's' ∷ b't' ∷ b'e' ∷ b'm' ∷ b' ' ∷ b'h' ∷ b'a' ∷ b'l' ∷ b't' ∷ b'e' ∷ b'd'
    ∷ b'.' ∷ 10 ∷ []

unfoldable pub serial_panic : List ℕ → Ports → Ports
serial_panic message p = flush 1000 (
    serial_write serial_com1_base panic_tail
      (serial_write serial_com1_base message (serial_write serial_com1_base panic_head p)))
