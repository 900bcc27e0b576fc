-- ===== src/CharDevice/Fifo.antt =====
-- The character device as a queue of bytes.
use minimalist_os.Base.{
  ℕ, zero, suc, ◌+◌, ◌-◌, ◌%◌, ◌≤◌, ◌<◌, ◌≡◌, refl, sym, ap, ◌∙◌, List, [], ◌∷◌, ◌++◌, some, pos,
  arith, length, take, drop, length-set, min, ltb, true, false, Bool-cases, inl, inr, length-take,
  get_or,
}
use minimalist_os.Base.Circular.{slots, slots-push, slots_step}
use minimalist_os.CharDevice.{
  CharDevice, char_buffer_size, char_open, drop_byte, read_loop, char_read, put_byte, write_loop,
  char_write,
}
use mathlib.Core.List.{append_assoc, append-nil}

pub record IsValid (dev : CharDevice) : Type 0 where
  pub full : length dev.buffer ≡ char_buffer_size
  pub read_in : dev.read_pos < char_buffer_size
  pub count_in : dev.count ≤ char_buffer_size
  pub write_at : dev.write_pos ≡ (dev.read_pos + dev.count) % char_buffer_size

-- The bytes that wait, oldest first.
abbrev pub contents : CharDevice → List ℕ
contents dev = slots 0 char_buffer_size dev.buffer dev.read_pos 0 dev.count

put_byte-IsValid :
    (c : ℕ) {dev : CharDevice}
    → IsValid dev
    → dev.count < char_buffer_size
    → IsValid (put_byte dev c) × (contents (put_byte dev c) ≡ contents dev ++ (c ∷ []))
unfolding put_byte
put_byte-IsValid c {dev} v h = (
  ground (arith, length-set dev.buffer dev.write_pos c),
  ground (
    arith,
    slots-push 0 char_buffer_size dev.buffer dev.read_pos c (omega arith) v.read_in dev.count,
  ),
)

drop_byte-IsValid :
    {dev : CharDevice}
    → IsValid dev
    → 0 < dev.count
    → IsValid (drop_byte dev)
      × (contents dev ≡ get_or dev.buffer dev.read_pos 0 ∷ contents (drop_byte dev))
unfolding drop_byte
drop_byte-IsValid {dev} v h = (
  ground arith,
  slots_step 0 char_buffer_size dev.buffer dev.read_pos dev.count v.read_in (omega arith),
)

count-put_byte : (dev : CharDevice) (c : ℕ) → (put_byte dev c).count ≡ dev.count + 1
unfolding put_byte
count-put_byte dev c = refl

contents-nil : (dev : CharDevice) → dev.count ≡ 0 → contents dev ≡ []
contents-nil dev e = ap (slots 0 char_buffer_size dev.buffer dev.read_pos 0) e

count-drop_byte : (dev : CharDevice) → (drop_byte dev).count ≡ dev.count - 1
unfolding drop_byte
count-drop_byte dev = refl

-- What the write loop does with the bytes `bs` when `room` places are free.
record Written (dev : CharDevice) (bs : List ℕ) (k room n : ℕ) (dev' : CharDevice) : Type 0 where
  valid : IsValid dev'
  stored : n ≡ k + min (length bs) room
  appended : contents dev' ≡ contents dev ++ take room bs

write_loop-Written :
    (bs : List ℕ) (room k : ℕ) (dev : CharDevice)
    → IsValid dev
    → dev.count + room ≡ char_buffer_size
    → Written dev bs k room (write_loop dev bs k).0 (write_loop dev bs k).1
unfolding write_loop
write_loop-Written [] zero k dev v e = record {
  valid = v;
  stored = omega arith;
  appended = sym (append-nil _);
}
write_loop-Written [] (suc room) k dev v e = record {
  valid = v;
  stored = omega arith;
  appended = sym (append-nil _);
}
write_loop-Written (c ∷ bs) zero k dev v e =
    let full : ltb dev.count char_buffer_size ≡ false = ground arith in
    rw full (record { valid = v; stored = omega arith; appended = sym (append-nil _) })
write_loop-Written (c ∷ bs) (suc room) k dev v e =
    let free : ltb dev.count char_buffer_size ≡ true = ground arith in
    let put = put_byte-IsValid c v (omega arith) in
    let more =
      write_loop-Written bs room (k + 1) (put_byte dev c) put.0
        (omega (arith, count-put_byte dev c)) in
    rw free (record {
      valid = more.valid;
      stored = omega (arith, more.stored);
      appended =
          more.appended
          ∙ ap (λ q. q ++ take room bs) put.1
          ∙ append_assoc (contents dev) (c ∷ []) (take room bs);
    })

-- `char_write` stores the first bytes of the caller's `size`, as many as there is room for, behind
-- the waiting ones, returns their number, and keeps the device valid.
pub char_write_refines :
    (buf : List ℕ) (size : ℕ) (dev : CharDevice)
    → IsValid dev
    → size ≤ length buf
    → let (status, dev') = char_write (some buf) size dev in
      let room = char_buffer_size - dev.count in
      (status ≡ pos (min size room))
      × (contents dev' ≡ contents dev ++ take room (take size buf))
      × IsValid dev'
unfolding char_write
char_write_refines buf size dev v h =
    let w =
      write_loop-Written (take size buf) (char_buffer_size - dev.count) 0 dev v
        (omega (arith, v.count_in)) in
    (ap pos (omega (arith, w.stored, length-take size buf)), w.appended, w.valid)

-- What the read loop leaves, when `n` bytes are asked for.
record Read (dev : CharDevice) (out : List ℕ) (n k got : ℕ) (out' : List ℕ) (dev' : CharDevice)
    : Type 0 where
  valid : IsValid dev'
  taken : got ≡ k + min n dev.count
  copied : out' ≡ take n (contents dev) ++ drop (min n dev.count) out
  kept : contents dev' ≡ drop n (contents dev)

read_loop-Read :
    (out : List ℕ) (n k : ℕ) (dev : CharDevice)
    → IsValid dev
    → n ≤ length out
    → let (got, out', dev') = read_loop dev out n k in Read dev out n k got out' dev'
unfolding read_loop
read_loop-Read out zero k dev v h = record {
  valid = v;
  taken = omega arith;
  copied = ap (λ m. drop m out) {x = 0} (omega arith);
  kept = refl;
}
read_loop-Read [] (suc n) k dev v h = absurd (omega arith)
read_loop-Read (x ∷ out) (suc n) k dev v h = elim (Bool-cases (ltb 0 dev.count)) [
  | inl some_left ↦
      let waits : 0 < dev.count = ground arith in
      let dropped = drop_byte-IsValid v waits in
      let more = read_loop-Read out n (k + 1) (drop_byte dev) dropped.0 (omega arith) in
      let c = get_or dev.buffer dev.read_pos 0 in
      rw some_left (record {
        valid = more.valid;
        taken = omega (arith, more.taken, count-drop_byte dev);
        copied =
            ap (λ q. c ∷ q) more.copied
            ∙ ap (λ q. take (suc n) q ++ drop (min n (drop_byte dev).count) out) (sym dropped.1)
            ∙ ap (λ m. take (suc n) (contents dev) ++ drop m (x ∷ out)) (one_more n waits);
        kept = more.kept ∙ ap (drop (suc n)) (sym dropped.1);
      })
  | inr none_left ↦
      let empty : dev.count ≡ 0 = ground arith in
      rw none_left (record {
        valid = v;
        taken = omega arith;
        copied =
            ap (λ q. take (suc n) q ++ x ∷ out) (sym (contents-nil dev empty))
            ∙ ap (λ m. take (suc n) (contents dev) ++ drop m (x ∷ out)) {x = 0} (omega arith);
        kept = contents-nil dev empty ∙ ap (drop (suc n)) (sym (contents-nil dev empty));
      })
]
  where
    one_more : (n : ℕ) → 0 < dev.count → suc (min n (drop_byte dev).count) ≡ min (suc n) dev.count
    one_more n h = omega (arith, count-drop_byte dev)

-- `char_read` of `size` bytes hands out the oldest waiting bytes in order, as many as there are up
-- to `size`, leaves the rest of the caller's buffer as it was, keeps the other bytes waiting and
-- returns the number, on a valid device and a buffer of at least `size` bytes.
pub char_read_refines :
    (buf : List ℕ) (size : ℕ) (dev : CharDevice)
    → IsValid dev
    → size ≤ length buf
    → let (status, out, dev') = char_read (some buf) size dev in
      (status ≡ pos (min size dev.count))
      × (out ≡ some (take size (contents dev) ++ drop (min size dev.count) buf))
      × (contents dev' ≡ drop size (contents dev))
      × IsValid dev'
unfolding char_read
char_read_refines buf size dev v h =
    let r = read_loop-Read buf size 0 dev v h in
    (ap pos (omega (arith, r.taken)), ap some r.copied, r.kept, r.valid)

-- Opening the device empties it, whatever its positions were.
pub char_open-IsValid :
    (dev : CharDevice)
    → length dev.buffer ≡ char_buffer_size
    → IsValid (char_open dev).1 × (contents (char_open dev).1 ≡ [])
unfolding char_open
char_open-IsValid dev h =
    (record { full = h; read_in = omega arith; count_in = omega arith; write_at = refl }, refl)
