-- ===== src/Timer/Irq/Trace.antt =====
-- What a sequence of interrupts should do: their counts, their ends, and the bytes that are read.
use Prim.Native.Nat.{bit_and}
use minimalist_os.Base.{
  ℕ, ◌+◌, ◌%◌, ◌<◌, ◌≡◌, List, [], ◌∷◌, ◌++◌, none, some, Bool, leb, ◌==◌, if◌then◌else◌, get_or,
  length,
}
use minimalist_os.Interrupts.{Interrupts}
use minimalist_os.Keyboard.{Keyboard, keyboard_handler}
use minimalist_os.Timer.Irq.{Handler, timer, keyboard, mouse}

-- The handlers of the 16 lines: the timer and the keyboard, and the mouse if it has been set up. The
-- entries of other vectors, such as that of the system call, may be anything.
unfoldable pub IsRegistered : Bool → Interrupts Handler → Type 0
IsRegistered with_mouse i =
    (line : ℕ)
    → line < 16
    → get_or i.interrupt_handlers (32 + line) none ≡ (
        if line == 0
        then some timer
        else if line == 1
        then some keyboard
        else if line == 12
        then (if with_mouse then some mouse else none)
        else none)

pub data AllLines : List ℕ → Type 0 where
  no_line : AllLines []
  one_line : {l : ℕ} {ls : List ℕ} → l < 16 → AllLines ls → AllLines (l ∷ ls)

unfoldable pub count : ℕ → List ℕ → ℕ
count l [] = 0
count l (k ∷ ks) = (if k == l then 1 else 0) + count l ks

-- The bytes that end an interrupt: the second controller is told from its first line, 8, on, and the
-- first one always.
unfoldable pub eoi : ℕ → List (ℕ × ℕ)
eoi l = if leb 8 l then (0xA0, 0x20) ∷ (0x20, 0x20) ∷ [] else (0x20, 0x20) ∷ []

unfoldable pub eois : List ℕ → List (ℕ × ℕ)
eois [] = []
eois (l ∷ ls) = eoi l ++ eois ls

-- Which access to the ports comes next after the interrupt of a line, when `n` came before it: the
-- ends are accesses, the keyboard is read once, and the mouse once or twice, as its status says.
unfoldable pub next_access : Bool → (ℕ → ℕ → ℕ) → ℕ → ℕ → ℕ
next_access with_mouse answers n l =
    let k = n + length (eoi l) in
    if l == 1
    then k + 1
    else if l == 12
    then (if with_mouse then k + (if bit_and (answers 0x64 k % 256) 0x20 == 0 then 1 else 2) else k)
    else k

-- The byte that the port of the keyboard gives, behind the end of its interrupt.
unfoldable pub scancode : (ℕ → ℕ → ℕ) → ℕ → ℕ → List ℕ
scancode answers n l = if l == 1 then (answers 0x60 (n + length (eoi l)) % 256) ∷ [] else []

unfoldable pub scancodes : Bool → (ℕ → ℕ → ℕ) → ℕ → List ℕ → List ℕ
scancodes with_mouse answers n [] = []
scancodes with_mouse answers n (l ∷ ls) =
    scancode answers n l ++ scancodes with_mouse answers (next_access with_mouse answers n l) ls

unfoldable pub typed : List ℕ → Keyboard → Keyboard
typed [] k = k
typed (code ∷ codes) k = typed codes (keyboard_handler code k)
