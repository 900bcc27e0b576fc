-- ===== src/Interrupts/Tests.antt =====
-- The gate of a stub, and the line of the mouse.
use minimalist_os.Base.{◌≡◌, refl, [], ◌∷◌}
use minimalist_os.Base.Bits.{clear_bit}
use minimalist_os.Interrupts.{gate, enable_irq}
use minimalist_os.Ports.{Ports, outb, inb}

abbrev all_masked : Ports
all_masked = record { answers = λ port n. 0xFF; accesses = 0; written = [] }

gate_parts :
    gate 0x00123456 8 0x8E
    ≡ record { base_lo = 0x3456; sel = 8; always0 = 0; flags = 0x8E; base_hi = 0x0012 }
unfolding gate
gate_parts = refl

mouse_line : (enable_irq 12 all_masked).written ≡ (0xA1, 0xEF) ∷ []
unfolding enable_irq inb outb clear_bit
mouse_line = refl
