-- ===== src/Syscall/Stores.antt =====
-- The stores of the system calls in the memory of the machine. The source tests no pointer against
-- the kernel's own memory, so a store can hit any of its variables, its tables and its code. Where
-- these lie, and what a store does to them, is known to the linker only: both are parameters.
use minimalist_os.Base.{ℕ, ◌+◌, ◌≤◌, ◌≡◌, ◌⊎◌, none, some, length}
use minimalist_os.Syscall.{Kernel, Stored, nothing, bytes, word, packet, stats, metrics}
use minimalist_os.Syscall.Table.{Answer}

-- The bytes that a store covers: the sizes of the C types.
unfoldable pub size_of : Stored → ℕ
size_of nothing = 0
size_of (bytes bs) = length bs
size_of (word w) = 4
size_of (packet p) = 1528
size_of (stats s) = 40
size_of (metrics m) = 24

-- A store of `v` at `a` lies outside of the `size` bytes from `start` on.
abbrev pub Misses : ℕ → ℕ → ℕ → Stored → Type 0
Misses start size a v = (a + size_of v ≤ start) ⊎ (start + size ≤ a)

-- The memory of the kernel, its code and its tables included, and what a store does to its variables:
-- one that misses this memory does nothing to them.
pub record KernelMemory (D : Type 0) : Type 0 where
  pub start : ℕ
  pub size : ℕ
  pub store : ℕ → Stored → Kernel D → Kernel D
  pub outside : (a : ℕ) (v : Stored) (k : Kernel D) → Misses start size a v → store a v k ≡ k

-- The state after a call and its store; one that waits has not returned yet.
unfoldable pub settle : {D : Type 0} → KernelMemory D → Kernel D → Answer D → Kernel D
settle place k none = k
settle place k (some (result, (a, v), k')) = place.store a v k'
