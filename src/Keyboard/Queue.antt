-- ===== src/Keyboard/Queue.antt =====
-- The keyboard's buffer as a queue of at most 255 characters, and the handler as a machine on the
-- modifier keys and that queue.
use Prim.Native.Nat.{bit_and}
use native.Mathlib.Decide.{dec_lt}
use mathlib.Core.Path.{subst}
use minimalist_os.Base.{
  ℕ, zero, suc, ◌+◌, ◌-◌, ◌%◌, ◌<◌, ◌≡◌, ◌≢◌, refl, sym, ap, ◌∙◌, List, [], ◌∷◌, ◌++◌, Bool, true,
  false, not, ◌&&◌, Option, none, some, ltb, ◌==◌, if◌then◌else◌, set, get_or, length, length-set,
  arith, ltb→lt, inl, inr, Bool-cases, Option-cases,
}
use minimalist_os.Base.Circular.{slots, length-slots, slots-push, slots_step}
use minimalist_os.Keyboard.{
  Modifiers, Keyboard, kb_buffer_size, put_char, press_modifier, base_char, press_key,
  keyboard_handler, keyboard_getchar,
}

pub record IsValid (s : Keyboard) : Type 0 where
  pub full : length s.kb_buffer ≡ kb_buffer_size
  pub write_in : s.kb_write_ptr < kb_buffer_size
  pub read_in : s.kb_read_ptr < kb_buffer_size

abbrev pub waiting : Keyboard → ℕ
waiting s = (s.kb_write_ptr + kb_buffer_size - s.kb_read_ptr) % kb_buffer_size

-- The characters that wait, oldest first.
abbrev pub contents : Keyboard → List ℕ
contents s = slots 0 kb_buffer_size s.kb_buffer s.kb_read_ptr 0 (waiting s)

-- A character joins the queue unless 255 wait already.
abbrev pub queue_put : ℕ → List ℕ → List ℕ
queue_put c queue = if ltb (length queue) 255 then queue ++ (c ∷ []) else queue

push-contents :
    (c : ℕ) (s : Keyboard)
    → IsValid s
    → s.kb_write_ptr ≡ (s.kb_read_ptr + waiting s) % kb_buffer_size
    → (s.kb_write_ptr + 1) % kb_buffer_size ≢ s.kb_read_ptr
    → slots 0 kb_buffer_size
        (set s.kb_buffer s.kb_write_ptr c)
        s.kb_read_ptr
        0
        (((s.kb_write_ptr + 1) % kb_buffer_size + kb_buffer_size - s.kb_read_ptr) % kb_buffer_size)
      ≡ contents s ++ (c ∷ [])
push-contents c s v place room =
    let more : ((s.kb_write_ptr + 1) % kb_buffer_size + kb_buffer_size - s.kb_read_ptr)
          % kb_buffer_size
        ≡ suc (waiting s) =
      omega (arith, v.write_in, v.read_in) in
    let buf = set s.kb_buffer s.kb_write_ptr c in
    ap (slots 0 kb_buffer_size buf s.kb_read_ptr 0) more
    ∙ ap (λ w. slots 0 kb_buffer_size (set s.kb_buffer w c) s.kb_read_ptr 0 (suc (waiting s))) place
    ∙ slots-push 0 kb_buffer_size s.kb_buffer s.kb_read_ptr c (omega (arith, v.full)) v.read_in
        (waiting s) (omega arith)

put_char_lem :
    (c : ℕ) (s : Keyboard)
    → IsValid s
    → IsValid (put_char c s)
      × ((put_char c s).keys ≡ s.keys)
      × (contents (put_char c s) ≡ queue_put c (contents s))
unfolding put_char
put_char_lem c s v =
    let size = length-slots 0 kb_buffer_size s.kb_buffer s.kb_read_ptr 0 (waiting s) in
    let place : s.kb_write_ptr ≡ (s.kb_read_ptr + waiting s) % kb_buffer_size =
      omega (arith, v.write_in, v.read_in) in
    elim (Bool-cases ((s.kb_write_ptr + 1) % kb_buffer_size == s.kb_read_ptr)) [
      | inl full ↦
          let many : ltb (length (contents s)) 255 ≡ false =
            ground (arith, size, v.write_in, v.read_in) in
          rw (full, many) (v, refl, refl)
      | inr room ↦
          let few : ltb (length (contents s)) 255 ≡ true =
            ground (arith, size, v.write_in, v.read_in) in
          rw (room, few)
            (
              record {
                full = length-set s.kb_buffer s.kb_write_ptr c ∙ v.full;
                write_in = omega arith;
                read_in = v.read_in;
              },
              refl,
              push-contents c s v place (ground (arith, v.write_in, v.read_in)),
            )
    ]

-- What a press of a key means: the modifiers after it, and the character that it types.
abbrev pub typed : ℕ → Modifiers → Modifiers × Option ℕ
typed scancode k = if scancode == 0x0E then (k, some 8) else elim (press_modifier scancode k) [
  | some k' ↦ (k', none)
  | none ↦ (
    k,
    if ltb scancode 58 && not (base_char k scancode == 0)
        then some (base_char k scancode)
        else none,
  )
]

abbrev pub add_char : Option ℕ → List ℕ → List ℕ
add_char none queue = queue
add_char (some c) queue = queue_put c queue

-- The handler's test of the high bit tells nothing new about a scancode of the table.
abbrev clear_below : ℕ → Bool
clear_below zero = true
clear_below (suc n) = (bit_and n 0x80 == 0) && clear_below n

both : (a b : Bool) → (a && b) ≡ true → (a ≡ true) × (b ≡ true)
both true b e = (refl, e)
both false b e = cc e

clear_below-bit : (m n : ℕ) → clear_below m ≡ true → n < m → (bit_and n 0x80 == 0) ≡ true
clear_below-bit zero n clear lt = absurd (omega arith)
clear_below-bit (suc m) n clear lt = elim (dec_lt n m) [
  | yes below ↦ clear_below-bit m n (both (bit_and m 0x80 == 0) (clear_below m) clear).1 below
  | no here ↦
      subst (λ t. (bit_and t 0x80 == 0) ≡ true) {x = m} (omega arith)
        (both (bit_and m 0x80 == 0) (clear_below m) clear).0
]

-- What a state has become after a press with this meaning.
record Pressed (s : Keyboard) (m : Modifiers × Option ℕ) (s' : Keyboard) : Type 0 where
  valid : IsValid s'
  keys : s'.keys ≡ m.0
  queue : contents s' ≡ add_char m.1 (contents s)

ignored : (s : Keyboard) → IsValid s → Pressed s (s.keys, none) s
ignored s v = record { valid = v; keys = refl; queue = refl }

press_key-Pressed :
    (scancode : ℕ) (s : Keyboard)
    → IsValid s
    → Pressed s
        (
          s.keys,
          if ltb scancode 58 && not (base_char s.keys scancode == 0)
              then some (base_char s.keys scancode)
              else none,
        )
        (press_key scancode s)
unfolding press_key
press_key-Pressed scancode s v = elim (Bool-cases (ltb scancode 58)) [
  | inr outside ↦ elim (Bool-cases (bit_and scancode 0x80 == 0)) [
    | inl press ↦ rw (press, outside) (ignored s v)
    | inr release ↦ rw (release, outside) (ignored s v)
  ]
  | inl inside ↦
      let press = clear_below-bit 58 scancode refl (ltb→lt scancode 58 inside) in
      elim (Bool-cases (base_char s.keys scancode == 0)) [
        | inl nothing ↦ rw (press, inside, nothing) (ignored s v)
        | inr a_char ↦
            let p = put_char_lem (base_char s.keys scancode) s v in
            rw (press, inside, a_char) (record { valid = p.0; keys = p.1; queue = p.2 })
      ]
]

keyboard_handler-Pressed :
    (scancode : ℕ) (s : Keyboard)
    → IsValid s
    → Pressed s (typed scancode s.keys) (keyboard_handler scancode s)
unfolding keyboard_handler
keyboard_handler-Pressed scancode s v = elim (Bool-cases (scancode == 0x0E)) [
  | inl backspace ↦
      let p = put_char_lem 8 s v in rw backspace (record { valid = p.0; keys = p.1; queue = p.2 })
  | inr other ↦ elim (Option-cases (press_modifier scancode s.keys)) [
    | inl none_of_them ↦
        rw (other, keyboard_handler)
          (rw (none_of_them, keyboard_handler) (press_key-Pressed scancode s v))
    | inr (k, modifier) ↦
        rw (other, keyboard_handler)
          (rw (modifier, keyboard_handler)
            (record {
              valid = record { full = v.full; write_in = v.write_in; read_in = v.read_in };
              keys = refl;
              queue = refl;
            }))
  ]
]

abbrev pub take_char : List ℕ → ℕ × List ℕ
take_char [] = (0, [])
take_char (c ∷ queue) = (c, queue)

pub keyboard_getchar_lem :
    (s : Keyboard)
    → IsValid s
    → let (c, s') = keyboard_getchar s in
      IsValid s' × (s'.keys ≡ s.keys) × ((c, contents s') ≡ take_char (contents s))
unfolding keyboard_getchar
keyboard_getchar_lem s v = elim (Bool-cases (s.kb_read_ptr == s.kb_write_ptr)) [
  | inl empty ↦
      let none_wait : contents s ≡ [] =
        ap (slots 0 kb_buffer_size s.kb_buffer s.kb_read_ptr 0) {x = waiting s} {y = 0}
          (ground (arith, v.write_in, v.read_in)) in
      rw empty (v, refl, ap (λ q. (0, q)) none_wait ∙ sym (ap take_char none_wait))
  | inr some_wait ↦
      let fewer : ((s.kb_write_ptr + kb_buffer_size - (s.kb_read_ptr + 1) % kb_buffer_size)
            % kb_buffer_size)
          ≡ waiting s - 1 =
        ground (arith, v.write_in, v.read_in) in
      let front =
        slots_step 0 kb_buffer_size s.kb_buffer s.kb_read_ptr (waiting s) v.read_in
          (ground (arith, v.write_in, v.read_in)) in
      let behind = slots 0 kb_buffer_size s.kb_buffer ((s.kb_read_ptr + 1) % kb_buffer_size) 0 in
      rw some_wait (
        record { full = v.full; write_in = v.write_in; read_in = omega arith },
        refl,
        ap (λ n. (get_or s.kb_buffer s.kb_read_ptr 0, behind n)) fewer ∙ sym (ap take_char front),
      )
]

-- What happens to the keyboard: the controller sends a scancode, or a reader asks for a character.
pub data Event : Type 0 where
  scancode : ℕ → Event
  getchar : Event

-- The characters that the readers get from a sequence of events, and the state after it.
unfoldable pub run : List Event → Keyboard → List ℕ × Keyboard
run [] s = ([], s)
run (scancode c ∷ events) s = run events (keyboard_handler c s)
run (getchar ∷ events) s =
    let (c, s') = keyboard_getchar s in let (out, s'') = run events s' in (c ∷ out, s'')

-- The same on modifiers and a queue of characters.
unfoldable pub run_queue : List Event → Modifiers → List ℕ → List ℕ × (Modifiers × List ℕ)
run_queue [] k queue = ([], (k, queue))
run_queue (scancode c ∷ events) k queue =
    let (k', char) = typed c k in run_queue events k' (add_char char queue)
run_queue (getchar ∷ events) k queue =
    let (c, queue') = take_char queue in
    let (out, rest) = run_queue events k queue' in (c ∷ out, rest)

-- From a valid state, every sequence of scancodes and reads gives the readers the characters that the
-- queue machine gives them, and ends in a valid state with that machine's modifiers and queue: the
-- characters come out in the order in which they were typed, and one is lost only when 255 wait.
pub run-run_queue :
    (events : List Event) (s : Keyboard)
    → IsValid s
    → let (out, s') = run events s in
      IsValid s' × ((out, (s'.keys, contents s')) ≡ run_queue events s.keys (contents s))
unfolding run run_queue
run-run_queue [] s v = (v, refl)
run-run_queue (scancode c ∷ events) s v =
    let p = keyboard_handler-Pressed c s v in
    let (valid, same) = run-run_queue events (keyboard_handler c s) p.valid in
    (
      valid,
      same
          ∙ ap (λ k. run_queue events k (contents (keyboard_handler c s))) p.keys
          ∙ ap (run_queue events (typed c s.keys).0) p.queue,
    )
run-run_queue (getchar ∷ events) s v =
    let (valid_next, keys, taken) = keyboard_getchar_lem s v in
    let (valid, same) = run-run_queue events (keyboard_getchar s).1 valid_next in
    (
      valid,
      ap (λ r. ((keyboard_getchar s).0 ∷ r.0, r.1)) same
          ∙ ap
              (λ k.
                let r = run_queue events k (contents (keyboard_getchar s).1) in
                ((keyboard_getchar s).0 ∷ r.0, r.1))
              keys
          ∙ ap (λ t. let r = run_queue events s.keys t.1 in (t.0 ∷ r.0, r.1)) taken,
    )
