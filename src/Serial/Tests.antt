-- ===== src/Serial/Tests.antt =====
-- What the line sends when it is busy once and then ready.
use minimalist_os.Base.{
  ℕ, ◌≤◌, ◌<◌, ◌≡◌, length, arith, refl, List, [], ◌∷◌, false, ◌==◌, if◌then◌else◌,
}
use minimalist_os.CString.{text}
use minimalist_os.Ports.{Ports, outb, inb}
use minimalist_os.Serial.Numbers.{read_digits, serial_decimal-read_digits}
use minimalist_os.Serial.Sends.{Sends}
use minimalist_os.Serial.Text.{terminal, serial_write-Sends}
use minimalist_os.Serial.{
  serial_is_transmit_empty, wait_transmit, serial_putchar, serial_write, store_digits, put_back,
  serial_decimal,
}

abbrev ready_later : Ports
ready_later = record { answers = λ port n. if n == 0 then 0 else 0x20; accesses = 0; written = [] }

-- "a", a newline and the end of the string, before a byte that is not sent.
abbrev two_lines : List ℕ
two_lines = b'a' ∷ 10 ∷ 0 ∷ b'z' ∷ []

written_lines :
    (serial_write 0x3F8 two_lines ready_later).written
    ≡ (0x3F8, b'a') ∷ (0x3F8, 13) ∷ (0x3F8, 10) ∷ []
unfolding serial_write serial_putchar wait_transmit serial_is_transmit_empty outb inb
written_lines = refl

written_decimal :
    (serial_decimal 0x3F8 120 ready_later).written
    ≡ (0x3F8, b'1') ∷ (0x3F8, b'2') ∷ (0x3F8, b'0') ∷ []
unfolding serial_decimal store_digits put_back serial_putchar wait_transmit serial_is_transmit_empty
    outb inb
written_decimal = refl

serial_write-Sends_example :
    (bytes : List ℕ) × Sends 0x3F8 bytes ready_later (serial_write 0x3F8 two_lines ready_later)
    × (terminal false bytes ≡ text two_lines)
serial_write-Sends_example = serial_write-Sends 0x3F8 two_lines ready_later

serial_decimal-read_digits_example :
    (digits : List ℕ) × Sends 0x3F8 digits ready_later (serial_decimal 0x3F8 4294967295 ready_later)
    × (read_digits 10 0 digits ≡ 4294967295)
    × (0 < length digits)
    × (length digits ≤ 10)
serial_decimal-read_digits_example =
    serial_decimal-read_digits 0x3F8 4294967295 ready_later (omega arith)
