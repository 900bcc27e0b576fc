-- ===== src/CharDevice/Stream.antt =====
-- Calls of the character device, one after the other, against a bounded queue of bytes.
use minimalist_os.Base.{
  ℕ, ◌-◌, ◌≤◌, ◌≡◌, refl, sym, ap, ◌∙◌, List, [], ◌∷◌, ◌++◌, Option, none, some, ℤ, pos, success,
  length, take, drop, min,
}
use minimalist_os.Base.Circular.{length-slots}
use minimalist_os.CharDevice.{CharDevice, char_buffer_size, char_open, char_read, char_write}
use minimalist_os.CharDevice.Fifo.{
  IsValid, contents, char_open-IsValid, char_write_refines, char_read_refines,
}

-- `char_open()`, `char_write(buf, size)` and `char_read(buf, size)`.
pub data Op : Type 0 where
  empty : Op
  put : List ℕ → ℕ → Op
  get : List ℕ → ℕ → Op

-- What a call gives back: its status, and the caller's buffer behind a read.
pub step : Op → CharDevice → (ℤ × Option (List ℕ)) × CharDevice
step empty dev = let (status, dev') = char_open dev in ((status, none), dev')
step (put buf size) dev =
    let (status, dev') = char_write (some buf) size dev in ((status, none), dev')
step (get buf size) dev =
    let (status, out, dev') = char_read (some buf) size dev in ((status, out), dev')

pub run : List Op → CharDevice → List (ℤ × Option (List ℕ)) × CharDevice
run [] dev = ([], dev)
run (op ∷ ops) dev =
    let (r, dev') = step op dev in let (rs, dev'') = run ops dev' in (r ∷ rs, dev'')

-- The same on a queue of at most 1024 bytes.
unfoldable pub step_fifo : Op → List ℕ → (ℤ × Option (List ℕ)) × List ℕ
step_fifo empty queue = ((success, none), [])
step_fifo (put buf size) queue =
    let room = char_buffer_size - length queue in
    ((pos (min size room), none), queue ++ take room (take size buf))
step_fifo (get buf size) queue = (
  (pos (min size (length queue)), some (take size queue ++ drop (min size (length queue)) buf)),
  drop size queue,
)

unfoldable pub run_fifo : List Op → List ℕ → List (ℤ × Option (List ℕ)) × List ℕ
run_fifo [] queue = ([], queue)
run_fifo (op ∷ ops) queue =
    let (r, queue') = step_fifo op queue in
    let (rs, queue'') = run_fifo ops queue' in (r ∷ rs, queue'')

-- No call names more bytes than the caller's buffer has.
pub data AllFit : List Op → Type 0 where
  at_end : AllFit []
  emptied : {ops : List Op} → AllFit ops → AllFit (empty ∷ ops)
  written :
      {buf : List ℕ} {size : ℕ} {ops : List Op}
      → size ≤ length buf
      → AllFit ops
      → AllFit (put buf size ∷ ops)
  read :
      {buf : List ℕ} {size : ℕ} {ops : List Op}
      → size ≤ length buf
      → AllFit ops
      → AllFit (get buf size ∷ ops)

-- A call on the device and on its queue.
record Agrees (op : Op) (dev : CharDevice) : Type 0 where
  same : (((step op dev).0, contents (step op dev).1)) ≡ step_fifo op (contents dev)
  valid : IsValid (step op dev).1

count-contents : (dev : CharDevice) → dev.count ≡ length (contents dev)
count-contents dev = sym (length-slots 0 char_buffer_size dev.buffer dev.read_pos 0 dev.count)

empty-Agrees : (dev : CharDevice) → IsValid dev → Agrees empty dev
unfolding char_open step step_fifo
empty-Agrees dev v =
    let (valid, nothing_left) = char_open-IsValid dev v.full in
    record { same = ap (λ q. ((success, none), q)) nothing_left; valid = valid }

put-Agrees :
    (buf : List ℕ) (size : ℕ) (dev : CharDevice)
    → IsValid dev
    → size ≤ length buf
    → Agrees (put buf size) dev
unfolding step step_fifo
put-Agrees buf size dev v fits =
    let (status, stored, valid) = char_write_refines buf size dev v fits in
    record {
      same =
          ap (λ n. ((n, none), contents (step (put buf size) dev).1)) status
          ∙ ap (λ q. ((pos (min size (char_buffer_size - dev.count)), none), q)) stored
          ∙ ap
              (λ n.
                let room = char_buffer_size - n in
                ((pos (min size room), none), contents dev ++ take room (take size buf)))
              (count-contents dev);
      valid = valid;
    }

get-Agrees :
    (buf : List ℕ) (size : ℕ) (dev : CharDevice)
    → IsValid dev
    → size ≤ length buf
    → Agrees (get buf size) dev
unfolding step step_fifo
get-Agrees buf size dev v fits =
    let (status, copied, kept, valid) = char_read_refines buf size dev v fits in
    let after = step (get buf size) dev in
    record {
      same =
          ap (λ n. ((n, after.0.1), contents after.1)) status
          ∙ ap (λ out. ((pos (min size dev.count), out), contents after.1)) copied
          ∙ ap
              (λ q. (
                (
                  pos (min size dev.count),
                  some (take size (contents dev) ++ drop (min size dev.count) buf),
                ),
                q,
              ))
              kept
          ∙ ap
              (λ n. (
                (pos (min size n), some (take size (contents dev) ++ drop (min size n) buf)),
                drop size (contents dev),
              ))
              (count-contents dev);
      valid = valid;
    }

step-Agrees :
    {op : Op} {ops : List Op} (dev : CharDevice)
    → IsValid dev
    → AllFit (op ∷ ops)
    → Agrees op dev × AllFit ops
step-Agrees dev v (emptied fit) = (empty-Agrees dev v, fit)
step-Agrees dev v (written fits fit) = (put-Agrees _ _ dev v fits, fit)
step-Agrees dev v (read fits fit) = (get-Agrees _ _ dev v fits, fit)

-- From a valid device, any calls that name no more bytes than the caller has give what a queue of
-- 1024 bytes gives: each write takes what there is room for, each read hands out the oldest bytes in
-- the order in which they were written and leaves the rest of the caller's buffer. The device stays
-- valid, and what waits in it at the end is what waits in the queue.
pub run-run_fifo :
    (ops : List Op) (dev : CharDevice)
    → IsValid dev
    → AllFit ops
    → let (results, dev') = run ops dev in
      IsValid dev' × ((results, contents dev') ≡ run_fifo ops (contents dev))
unfolding run run_fifo
run-run_fifo [] dev v fit = (v, refl)
run-run_fifo (op ∷ ops) dev v fit =
    let (agrees, more) = step-Agrees dev v fit in
    let (valid, same) = run-run_fifo ops (step op dev).1 agrees.valid more in
    (
      valid,
      ap (λ r. ((step op dev).0 ∷ r.0, r.1)) same
          ∙ ap (λ t. let r = run_fifo ops t.1 in (t.0 ∷ r.0, r.1)) agrees.same,
    )
