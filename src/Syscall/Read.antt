-- ===== src/Syscall/Read.antt =====
-- Reading from the keyboard through the system call.
use minimalist_os.Base.{
  ℕ, zero, suc, ◌≤◌, ◌≡◌, ◌≢◌, refl, ap, ◌∙◌, List, [], ◌∷◌, false, Option, some, ◌==◌, take, drop,
  length, arith,
}
use Prim.{Unit}
use minimalist_os.Keyboard.{Keyboard, keyboard_getchar}
use minimalist_os.Keyboard.Queue.{IsValid, contents, keyboard_getchar_lem, take_char}
use minimalist_os.Syscall.{Kernel, Poll, bytes, press_all, wait_char, read_chars, sys_read}

-- Polls during which no key is pressed; the serial line may have bytes.
abbrev pub quiet : List (Option ℕ) → List Poll
quiet [] = []
quiet (line ∷ lines) = ([], line) ∷ quiet lines

-- No character is 0, which the reader takes for an empty queue.
abbrev pub Positive : List ℕ → Type 0
Positive [] = Unit
Positive (c ∷ q) = (c ≢ 0) × Positive q

-- What is left of a state after `n` characters were taken from the queue `q`.
record Taken (n : ℕ) (q : List ℕ) (k' : Keyboard) : Type 0 where
  valid : IsValid k'
  rest : contents k' ≡ drop n q

wait_char-first :
    (c : ℕ) (line : Option ℕ) (polls : List Poll) (k : Keyboard)
    → (keyboard_getchar k).0 ≡ c
    → c ≢ 0
    → wait_char (([], line) ∷ polls) k ≡ some (c, polls, (keyboard_getchar k).1)
unfolding wait_char press_all
wait_char-first c line polls k char real =
    let other : (c == 0) ≡ false = ground arith in rw (char, other) refl

read_chars-Taken :
    (n : ℕ) (lines : List (Option ℕ)) (k : Keyboard) (q : List ℕ)
    → IsValid k
    → contents k ≡ q
    → Positive q
    → n ≤ length q
    → n ≤ length lines
    → (k' : Keyboard) × (read_chars n (quiet lines) k ≡ some (take n q, k')) × Taken n q k'
unfolding read_chars
read_chars-Taken zero lines k q v same positive enough polls =
    (k, refl, record { valid = v; rest = same })
read_chars-Taken (suc n) [] k q v same positive enough polls = absurd (omega arith)
read_chars-Taken (suc n) (line ∷ lines) k [] v same positive enough polls = absurd (omega arith)
read_chars-Taken (suc n) (line ∷ lines) k (c ∷ q) v same (real, positive) enough polls =
    let (valid, keys, taken) = keyboard_getchar_lem k v in
    let got = taken ∙ ap take_char same in
    let char : (keyboard_getchar k).0 ≡ c = ap (λ r. r.0) got in
    let first = wait_char-first c line (quiet lines) k char real in
    let (k', read, t) =
      read_chars-Taken n lines (keyboard_getchar k).1 q valid (ap (λ r. r.1) got) positive
        (omega arith) (omega arith) in
    (
      k',
      rw (first, read_chars) (rw (read, read_chars) refl),
      record { valid = t.valid; rest = t.rest },
    )

-- Where at least `n` characters wait, none of them 0, reading `n` of them from descriptor 0 returns
-- `n`, after `n` polls at most, and stores the oldest `n` in order; the others wait on. The serial
-- line is not looked at.
pub sys_read_lem :
    {D : Type 0} (n : ℕ) (lines : List (Option ℕ)) (k : Kernel D)
    → IsValid k.keyboard
    → Positive (contents k.keyboard)
    → n ≤ length (contents k.keyboard)
    → n ≤ length lines
    → (keys : Keyboard) × (sys_read 0 n (quiet lines) k
        ≡ some (n, bytes (take n (contents k.keyboard)), record k { keyboard = keys }))
      × (contents keys ≡ drop n (contents k.keyboard))
      × IsValid keys
unfolding sys_read
sys_read_lem n lines k v positive enough polls =
    let (keys, read, t) =
      read_chars-Taken n lines k.keyboard (contents k.keyboard) v refl positive enough polls in
    (keys, rw (read, sys_read) refl, t.rest, t.valid)
