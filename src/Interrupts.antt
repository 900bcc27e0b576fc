-- ===== src/Interrupts.antt =====
-- kernel/idt.c, include/idt.h: the table of interrupt gates, the interrupt controllers and the
-- handlers that drivers register. The assembly stubs are addresses, a parameter, and a handler is
-- a value of a type `A`, which is run by what uses this module.
pub mod Gates
pub mod Controller
mod Tests
use Prim.Native.Nat.{bit_and}
use minimalist_os.Base.{
  ℕ, zero, suc, ◌+◌, ◌-◌, ◌*◌, ◌/◌, ◌%◌, ◌^◌, List, [], ◌∷◌, Option, none, some, ltb, leb,
  if◌then◌else◌, set, get_or, replicate,
}
use minimalist_os.Base.Bits.{clear_bit}
use minimalist_os.CString.{text}
use minimalist_os.CString.Itoa.{itoa}
use minimalist_os.Ports.{Ports, outb, inb}
use minimalist_os.Vfs.{to_int}
use minimalist_os.Vga.{Vga, vga_print, vga_set_color}

pub record IdtEntry : Type 0 where
  pub base_lo : ℕ
  pub sel : ℕ
  pub always0 : ℕ
  pub flags : ℕ
  pub base_hi : ℕ

pub record Interrupts {ℓ} (A : Type ℓ) : Type ℓ where
  pub idt : List IdtEntry
  pub limit : ℕ
  pub base : ℕ
  pub interrupt_handlers : List (Option A)

abbrev pub zero_entry : IdtEntry
zero_entry = record { base_lo = 0; sel = 0; always0 = 0; flags = 0; base_hi = 0 }

unfoldable pub gate : ℕ → ℕ → ℕ → IdtEntry
gate base sel flags = record {
  base_lo = base % 2 ^ 16;
  sel = sel;
  always0 = 0;
  flags = flags;
  base_hi = base / 2 ^ 16 % 2 ^ 16;
}

unfoldable pub idt_set_gate {ℓ} : {A : Type ℓ} → ℕ → ℕ → ℕ → ℕ → Interrupts A → Interrupts A
idt_set_gate num base sel flags s = record s { idt = set s.idt num (gate base sel flags) }

abbrev pub pic1_cmd : ℕ
pic1_cmd = 0x20

abbrev pub pic1_data : ℕ
pic1_data = 0x21

abbrev pub pic2_cmd : ℕ
pic2_cmd = 0xA0

abbrev pub pic2_data : ℕ
pic2_data = 0xA1

-- A sequence of calls of `outb`.
unfoldable pub outputs : List (ℕ × ℕ) → Ports → Ports
outputs [] p = p
outputs ((port, val) ∷ rest) p = outputs rest (outb port val p)

unfoldable pub pic_remap : Ports → Ports
pic_remap = outputs (
    (pic1_cmd, 0x11)
    ∷ (pic2_cmd, 0x11)
    ∷ (pic1_data, 0x20)
    ∷ (pic2_data, 0x28)
    ∷ (pic1_data, 0x04)
    ∷ (pic2_data, 0x02)
    ∷ (pic1_data, 0x01)
    ∷ (pic2_data, 0x01)
    ∷ (pic1_data, 0xFB)
    ∷ (pic2_data, 0xFF)
    ∷ [])

-- "\n*** CPU EXCEPTION: "
abbrev pub exception_head : List ℕ
exception_head =
    10 ∷ b'*' ∷ b'*' ∷ b'*' ∷ b' ' ∷ b'C' ∷ b'P' ∷ b'U' ∷ b' ' ∷ b'E' ∷ b'X' ∷ b'C' ∷ b'E' ∷ b'P'
    ∷ b'T' ∷ b'I' ∷ b'O' ∷ b'N' ∷ b':' ∷ b' ' ∷ []

-- " ***\n"
abbrev pub exception_tail : List ℕ
exception_tail = b' ' ∷ b'*' ∷ b'*' ∷ b'*' ∷ 10 ∷ []

-- White (15) on red (4); the processor then stops.
unfoldable pub fault_handler : ℕ → Vga → Vga
fault_handler int_no s = vga_print exception_tail (
    vga_print (text (itoa (to_int int_no) (replicate 16 0) 10))
      (vga_print exception_head (vga_set_color 15 4 s)))

-- The ports after the interrupt has been acknowledged, and the handler that is then called.
unfoldable pub irq_handler {ℓ} : {A : Type ℓ} → ℕ → Interrupts A → Ports → Option A × Ports
irq_handler int_no s p = (
  get_or s.interrupt_handlers int_no none,
  outb pic1_cmd 0x20 (if leb 40 int_no then outb pic2_cmd 0x20 p else p),
)

unfoldable pub register_interrupt_handler {ℓ} :
    {A : Type ℓ} → ℕ → Option A → Interrupts A → Interrupts A
register_interrupt_handler n handler s = record s {
  interrupt_handlers = set s.interrupt_handlers n handler;
}

-- The register of the interrupt's controller loses the bit of the interrupt.
unfoldable pub enable_irq : ℕ → Ports → Ports
enable_irq irq p =
    let port = if ltb irq 8 then pic1_data else pic2_data in
    let line = if ltb irq 8 then irq else irq - 8 in
    let (value, p') = inb port p in outb port (clear_bit value line) p'

-- The calls of `idt_set_gate` in `idt_init`, for the first `n` vectors.
unfoldable pub set_gates {ℓ} : {A : Type ℓ} → (ℕ → ℕ) → ℕ → Interrupts A → Interrupts A
set_gates stub zero s = s
set_gates stub (suc n) s = idt_set_gate n (stub n) 0x08 0x8E (set_gates stub n s)

-- `stub` gives the address of the stub of each vector: `isr0` to `isr31`, then `irq0` to `irq15`.
-- `address` is that of the table, whose entries have 8 bytes.
unfoldable pub idt_init {ℓ} :
    {A : Type ℓ} → (ℕ → ℕ) → ℕ → Interrupts A → Ports → Interrupts A × Ports
idt_init stub address s p = (
  set_gates stub 48
      (record s { limit = 8 * 256 - 1; base = address; idt = replicate 256 zero_entry }),
  pic_remap p,
)
