-- ===== src/Ports.antt =====
-- kernel/io.h: the ports. What the hardware answers is not known: it may depend on the port and on how
-- many accesses came before, so a function of both is a field. The writes are kept in their order.
use minimalist_os.Base.{ℕ, ◌+◌, ◌%◌, List, [], ◌∷◌, ◌++◌}

pub record Ports : Type 0 where
  pub answers : ℕ → ℕ → ℕ
  pub accesses : ℕ
  pub written : List (ℕ × ℕ)

-- `outb(port, val)`
unfoldable pub outb : ℕ → ℕ → Ports → Ports
outb port val p = record p { accesses = p.accesses + 1; written = p.written ++ ((port, val) ∷ []) }

-- `inb(port)`, a byte
unfoldable pub inb : ℕ → Ports → ℕ × Ports
inb port p = (p.answers port p.accesses % 256, record p { accesses = p.accesses + 1 })
