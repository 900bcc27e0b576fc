-- ===== src/Ipc/Send.antt =====
-- `ipc_send` on the list of messages, and the place of the tail.
use minimalist_os.Base.{
  ℕ, zero, suc, ◌+◌, ◌-◌, ◌%◌, ◌≤◌, ◌<◌, ◌≡◌, refl, sym, ap, ◌∙◌, take, get_or, Bool-cases, true,
  ◌≢◌, List, [], ◌∷◌, ◌++◌, Option, none, some, ℤ, negsuc, success, failure, arith, ltb, leb,
  if◌then◌else◌, length, length-set, inl, inr, Option-cases,
}
use mathlib.Core.Path.{ap₂}
use minimalist_os.Base.Circular.{slots-push, length-slots, slots_snoc, slots-set_end}
use minimalist_os.CString.Copy.{take-memcpy}
use minimalist_os.Ipc.{
  IpcMsg, Ipc, zero_msg, max_messages, max_msg_size, make_msg, find_message, ipc_send, ipc_receive,
}
use minimalist_os.Ipc.Receive.{
  IsValid, contents, receive-IsValid, entry, entry-shift_beyond, find-bounds,
}

-- The tail stands where the next message belongs.
abbrev pub TailFits : Ipc → Type 0
TailFits s = s.queue_tail ≡ (s.queue_head + s.queue_count) % max_messages

-- The queue's view of a send: -1 on a full queue, -2 on a message that is too long.
unfoldable pub append_message : ℕ → IpcMsg → List IpcMsg → ℤ × List IpcMsg
append_message len m ms =
    if leb max_messages (length ms)
    then (failure, ms)
    else if ltb max_msg_size len
    then (negsuc 1, ms)
    else (success, ms ++ (m ∷ []))

-- The send, with the entry that it leaves at the tail.
send-entry :
    (pid receiver type : ℕ) (bytes : Option (List ℕ)) (len : ℕ) (s : Ipc)
    → IsValid s
    → TailFits s
    → let (status, s') = ipc_send pid receiver type bytes len s in
      (append_message len (make_msg s pid receiver type bytes len) (contents s)
        ≡ (status, contents s'))
      × IsValid s'
      × TailFits s'
unfolding ipc_send append_message
send-entry pid receiver type bytes len s v fits =
    let m = make_msg s pid receiver type bytes len in
    let same = length-slots zero_msg max_messages s.message_queue s.queue_head 0 s.queue_count in
    let pushed =
      slots-push zero_msg max_messages s.message_queue s.queue_head m (omega arith) v.head_in
        s.queue_count in
    (
      ground (arith, same, pushed),
      ground (arith, length-set s.message_queue s.queue_tail m),
      ground arith,
    )

-- What a receiver looks at: the payload up to the length.
unfoldable pub view : IpcMsg → IpcMsg
view m = record m { payload = take m.length m.payload }

unfoldable pub views : List IpcMsg → List IpcMsg
views [] = []
views (m ∷ ms) = view m ∷ views ms

-- The message with the caller's first `len` bytes.
unfoldable pub message : ℕ → ℕ → ℕ → Option (List ℕ) → ℕ → IpcMsg
message pid receiver type bytes len = record {
  sender = pid;
  receiver = receiver;
  type = type;
  length = len;
  payload = take len (elim bytes [ none ↦ [] | some b ↦ b ]);
}

-- The caller gives as many bytes as it names; a null pointer stands for none.
abbrev pub Given : Option (List ℕ) → ℕ → Type 0
Given bytes len = elim bytes [ none ↦ len ≡ 0 | some b ↦ len ≤ length b ]

views-append : (ms : List IpcMsg) (m : IpcMsg) → views (ms ++ (m ∷ [])) ≡ views ms ++ (view m ∷ [])
unfolding views
views-append [] m = refl
views-append (x ∷ ms) m = ap (λ r. view x ∷ r) (views-append ms m)

length-views : (ms : List IpcMsg) → length (views ms) ≡ length ms
unfolding views
length-views [] = refl
length-views (m ∷ ms) = ap suc (length-views ms)

make_msg-view :
    (pid receiver type : ℕ) (bytes : Option (List ℕ)) (len : ℕ) (s : Ipc)
    → Given bytes len
    → len ≤ length (get_or s.message_queue s.queue_tail zero_msg).payload
    → view (make_msg s pid receiver type bytes len) ≡ message pid receiver type bytes len
unfolding view message make_msg
make_msg-view pid receiver type none zero s given room = refl
make_msg-view pid receiver type none (suc len) s given room = absurd (omega (arith, given))
make_msg-view pid receiver type (some b) zero s given room = refl
make_msg-view pid receiver type (some b) (suc n) s given room =
    let copies : ltb 0 (suc n) ≡ true = ground arith in
    rw copies (
      ap
        (λ payload. record {
          sender = pid;
          receiver = receiver;
          type = type;
          length = suc n;
          payload = payload;
        })
        (take-memcpy (get_or s.message_queue s.queue_tail zero_msg).payload b (suc n) room given))

append_message-views :
    (len : ℕ) (m m' : IpcMsg) (ms : List IpcMsg)
    → (len ≤ max_msg_size → view m ≡ m')
    → let (status, ms') = append_message len m ms in
      append_message len m' (views ms) ≡ (status, views ms')
unfolding append_message
append_message-views len m m' ms same =
    rw (length-views ms) (elim (Bool-cases (leb max_messages (length ms))) [
      | inl full ↦ rw full refl
      | inr room ↦ elim (Bool-cases (ltb max_msg_size len)) [
        | inl long ↦ rw (room, long) refl
        | inr short ↦
            rw (room, short)
              (ap (λ q. (success, q))
                (ap (λ x. views ms ++ (x ∷ [])) (sym (same (ground arith)))
                  ∙ sym (views-append ms m)))
      ]
    ])

-- On a valid queue whose tail fits, `ipc_send` appends a message with the sender's process, the
-- receiver, the type, the length and the caller's bytes, or reports why it cannot and changes nothing
-- of what receivers see; the queue stays valid and its tail fits. The caller gives as many bytes as it
-- names, and the entry at the tail has room for 256.
pub ipc_send_refines :
    (pid receiver type : ℕ) (bytes : Option (List ℕ)) (len : ℕ) (s : Ipc)
    → IsValid s
    → TailFits s
    → Given bytes len
    → max_msg_size ≤ length (get_or s.message_queue s.queue_tail zero_msg).payload
    → let (status, s') = ipc_send pid receiver type bytes len s in
      (append_message len (message pid receiver type bytes len) (views (contents s))
        ≡ (status, views (contents s')))
      × IsValid s'
      × TailFits s'
ipc_send_refines pid receiver type bytes len s v fits given room =
    let m = make_msg s pid receiver type bytes len in
    let (appended, valid, still) = send-entry pid receiver type bytes len s v fits in
    (
      append_message-views len m (message pid receiver type bytes len) (contents s) (λ short.
            make_msg-view pid receiver type bytes len s given (omega (arith, room, short)))
          ∙ ap (λ r. (r.0, views r.1)) appended,
      valid,
      still,
    )

-- With the tail one place too far, what is appended is the entry that stood there before.
send_misses :
    (pid receiver type : ℕ) (bytes : Option (List ℕ)) (len : ℕ) (s : Ipc)
    → IsValid s
    → s.queue_tail ≡ (s.queue_head + (s.queue_count + 1)) % max_messages
    → s.queue_count + 1 < max_messages
    → len ≤ max_msg_size
    → let (status, s') = ipc_send pid receiver type bytes len s in
      (status ≡ success)
      × (contents s' ≡ contents s ++ (entry s.message_queue s.queue_head s.queue_count ∷ []))
unfolding ipc_send
send_misses pid receiver type bytes len s v far room short =
    let m = make_msg s pid receiver type bytes len in
    let kept =
      slots-set_end zero_msg max_messages s.message_queue s.queue_head m (omega (arith, v.full))
        v.head_in (s.queue_count + 1) room in
    let last = slots_snoc zero_msg max_messages s.message_queue s.queue_head 0 s.queue_count in
    (ground arith, ground (arith, kept, last))

module _ (pid sender : ℕ) (s : Ipc) (v : IsValid s) (fits : TailFits s)
    (taken : (ipc_receive pid sender s).0 ≡ success) where
  -- A receive that takes a message away leaves the tail one place too far: it does not fit.
  pub receive-not-TailFits : ¬ TailFits (ipc_receive pid sender s).2
  unfolding ipc_receive
  receive-not-TailFits = ground arith

  stale :
      (i : ℕ)
      → find_message s.message_queue s.queue_head pid sender 0 s.queue_count ≡ some i
      → entry (ipc_receive pid sender s).2.message_queue s.queue_head (s.queue_count - 1)
        ≡ entry s.message_queue s.queue_head (s.queue_count - 1)
  unfolding ipc_receive
  stale i f =
      let bounds =
        find-bounds s.queue_head v.head_in s.message_queue pid sender s.message_queue i
          s.queue_count 0 f in
      ground (
        arith,
        f,
        entry-shift_beyond s.queue_head v.head_in (s.queue_count - 1 - i) s.message_queue i
            (s.queue_count - 1) (omega (arith, v.full)) (omega (arith, bounds.1))
            (omega (arith, bounds.1, v.count_in)),
      )

  -- The fields of the state that the receive leaves.
  after :
      let s' = (ipc_receive pid sender s).2 in
      (s'.queue_head ≡ s.queue_head)
      × (s'.queue_count + 1 ≡ s.queue_count)
      × (s'.queue_tail ≡ s.queue_tail)
  unfolding ipc_receive
  after = ground arith

  found : find_message s.message_queue s.queue_head pid sender 0 s.queue_count ≢ none
  unfolding ipc_receive
  found nothing = ground arith

  still :
      entry (ipc_receive pid sender s).2.message_queue s.queue_head (s.queue_count - 1)
      ≡ entry s.message_queue s.queue_head (s.queue_count - 1)
  still =
      elim (Option-cases (find_message s.message_queue s.queue_head pid sender 0 s.queue_count)) [
        | inl nothing ↦ absurd (found nothing)
        | inr (i, f) ↦ stale i f
      ]

  -- The send that follows such a receive reports success, but what then waits behind the other
  -- messages is not the message sent: it is the last message that waited before the receive.
  pub ipc_send-ipc_receive_stale :
      (from receiver type : ℕ) (bytes : Option (List ℕ)) (len : ℕ)
      → s.queue_count < max_messages
      → len ≤ max_msg_size
      → let s' = (ipc_receive pid sender s).2 in
        let (status, s'') = ipc_send from receiver type bytes len s' in
        (status ≡ success)
        × (contents s''
            ≡ contents s' ++ (entry s.message_queue s.queue_head (s.queue_count - 1) ∷ []))
  ipc_send-ipc_receive_stale from receiver type bytes len room short =
      let s' = (ipc_receive pid sender s).2 in
      let (same_head, one_less, same_tail) = after in
      let sent =
        send_misses from receiver type bytes len s' (receive-IsValid pid sender s v) (omega arith)
          (omega arith) short in
      (
        sent.0,
        sent.1
            ∙ ap (λ x. contents s' ++ (x ∷ []))
                (ap₂ (entry s'.message_queue) same_head (omega arith) ∙ still),
      )
