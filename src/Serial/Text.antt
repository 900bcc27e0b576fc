-- ===== src/Serial/Text.antt =====
-- The text that `serial_write` sends, as a terminal reads it.
use mathlib.Core.Path.{subst}
use minimalist_os.Base.{
  ℕ, ◌≡◌, refl, List, [], ◌∷◌, Bool, true, false, inl, inr, ◌==◌, if◌then◌else◌, Bool-cases, arith,
}
use minimalist_os.CString.{text}
use minimalist_os.Ports.{Ports}
use minimalist_os.Serial.Sends.{Sends, Sends-nil, Sends-append, serial_putchar-Sends}
use minimalist_os.Serial.{serial_putchar, serial_write}

unfoldable pub with_returns : List ℕ → List ℕ
with_returns [] = []
with_returns (c ∷ s) = if c == 10 then 13 ∷ 10 ∷ with_returns s else c ∷ with_returns s

-- A terminal that takes a carriage return and a newline as one newline; `held` tells that the last
-- byte was a return.
unfoldable pub terminal : Bool → List ℕ → List ℕ
terminal held [] = if held then 13 ∷ [] else []
terminal held (c ∷ s) =
    let rest = terminal (c == 13) s in
    let shown = if c == 13 then rest else c ∷ rest in
    if held then (if c == 10 then shown else 13 ∷ shown) else shown

terminal-with_returns :
    (s : List ℕ) → (terminal false (with_returns s) ≡ s) × (terminal true (with_returns s) ≡ 13 ∷ s)
unfolding terminal with_returns
terminal-with_returns [] = (refl, refl)
terminal-with_returns (c ∷ s) =
    let (flat, held) = terminal-with_returns s in ground (arith, flat, held)

serial_write-with_returns :
    (line : ℕ) (str : List ℕ) (p : Ports)
    → Sends line (with_returns (text str)) p (serial_write line str p)
unfolding serial_write text with_returns
serial_write-with_returns line [] p = Sends-nil line p
serial_write-with_returns line (c ∷ str) p = elim (Bool-cases (c == 0)) [
  | inl ends ↦ rw ends (Sends-nil line p)
  | inr more ↦ elim (Bool-cases (c == 10)) [
    | inl newline ↦
        let q = serial_putchar line 13 p in
        rw (more, newline)
          (subst
            (λ d.
              Sends line (13 ∷ d ∷ with_returns (text str)) p
                (serial_write line str (serial_putchar line c q)))
            {x = c} {y = 10} (ground arith)
            (Sends-append (serial_putchar-Sends line 13 p) (
              Sends-append (serial_putchar-Sends line c q) (serial_write-with_returns line str _))))
    | inr other ↦
        rw (more, other)
          (Sends-append (serial_putchar-Sends line c p) (serial_write-with_returns line str _))
  ]
]

-- Whatever the line answers, `serial_write` comes to its end after at most 100002 accesses to the
-- ports for each byte sent, and a terminal shows what it sent as the text of the string.
pub serial_write-Sends :
    (line : ℕ) (str : List ℕ) (p : Ports)
    → (bytes : List ℕ) × Sends line bytes p (serial_write line str p)
      × (terminal false bytes ≡ text str)
serial_write-Sends line str p = (
  with_returns (text str),
  serial_write-with_returns line str p,
  (terminal-with_returns (text str)).0,
)
