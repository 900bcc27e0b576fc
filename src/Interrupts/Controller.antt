-- ===== src/Interrupts/Controller.antt =====
-- The interrupt controllers: unmasking a line.
use minimalist_os.Base.{
  ℕ, ◌-◌, ◌%◌, ◌<◌, ◌≡◌, refl, ◌∙◌, [], ◌∷◌, ◌++◌, false, ltb, ◌==◌, if◌then◌else◌, arith,
}
use minimalist_os.Base.Bits.{test_bit, clear_bit, test_bit-clear_bit}
use minimalist_os.Interrupts.{enable_irq, pic1_data, pic2_data}
use minimalist_os.Ports.{Ports, outb, inb}

-- `enable_irq` reads the mask of the controller that has the line and writes it back with the bit
-- of this line off and every other bit as it was.
pub enable_irq-unmasked :
    (irq : ℕ) (p : Ports)
    → irq < 16
    → let port = if ltb irq 8 then pic1_data else pic2_data in
      let (mask, _) = inb port p in
      (mask' : ℕ) × ((enable_irq irq p).written ≡ p.written ++ ((port, mask') ∷ []))
      × ((j : ℕ) → j < 8 → test_bit mask' j ≡ (if j == irq % 8 then false else test_bit mask j))
unfolding enable_irq inb outb
enable_irq-unmasked irq p small =
    let port = if ltb irq 8 then pic1_data else pic2_data in
    let line = if ltb irq 8 then irq else irq - 8 in
    let which : line ≡ irq % 8 = ground arith in
    let (mask, _) = inb port p in
    (
      clear_bit mask line,
      refl,
      λ j lt.
          test_bit-clear_bit mask line j (omega (arith, which)) (omega arith)
          ∙ ground (arith, which),
    )
