-- ===== src/Ipc/Tests.antt =====
-- Tests of the message queue, and the theorems at concrete queues.
use minimalist_os.Base.{
  ℕ, ◌≤◌, ◌≡◌, refl, length, get_or, [], ◌∷◌, ◌++◌, some, success, arith, replicate,
}
use minimalist_os.Ipc.{Ipc, IpcMsg, zero_msg, ipc_send, ipc_receive, accepts, find_message}
use minimalist_os.Ipc.Receive.{IsValid, contents, take_first, take_message, ipc_receive_refines}
use minimalist_os.Ipc.Send.{
  TailFits, append_message, message, views, ipc_send_refines, ipc_send-ipc_receive_stale,
}

-- A message of one byte.
abbrev note : ℕ → ℕ → ℕ → IpcMsg
note sender receiver byte = record {
  sender = sender;
  receiver = receiver;
  type = 1;
  length = 1;
  payload = byte ∷ [];
}

-- Three messages wait, the last two for process 3.
abbrev three : Ipc
three = record {
  message_queue = note 1 2 10 ∷ note 1 3 20 ∷ note 2 3 30 ∷ replicate 13 zero_msg;
  queue_head = 0;
  queue_tail = 3;
  queue_count = 3;
}

three-IsValid : IsValid three
three-IsValid = record { full = refl; head_in = omega arith; count_in = omega arith }

-- Process 3 asks for a message of process 2, and gets the third.
receive_third : (ipc_receive 3 2 three).1 ≡ some (note 2 3 30)
unfolding ipc_receive find_message accepts
receive_third = refl

ipc_receive_refines_example :
    let (status, got, s') = ipc_receive 3 0 three in
    take_message (take_first (accepts 3 0) (contents three)) (contents three)
    ≡ (status, got, contents s')
ipc_receive_refines_example = ipc_receive_refines 3 0 three three-IsValid

tail_room : 256 ≤ length (get_or three.message_queue 3 zero_msg).payload
unfolding zero_msg
tail_room = omega arith

ipc_send_refines_example :
    let (status, s') = ipc_send 5 2 1 (some (7 ∷ [])) 1 three in
    (append_message 1 (message 5 2 1 (some (7 ∷ [])) 1) (views (contents three))
      ≡ (status, views (contents s')))
    × IsValid s'
    × TailFits s'
ipc_send_refines_example =
    ipc_send_refines 5 2 1 (some (7 ∷ [])) 1 three three-IsValid refl (omega arith) tail_room

taken : (ipc_receive 3 0 three).0 ≡ success
unfolding ipc_receive find_message accepts
taken = refl

-- The message from process 5 is not the one that waits last afterwards: that is `note 2 3 30` again.
ipc_send-ipc_receive_stale_example :
    let s' = (ipc_receive 3 0 three).2 in
    let (status, s'') = ipc_send 5 2 1 (some (7 ∷ [])) 1 s' in
    (status ≡ success) × (contents s'' ≡ contents s' ++ (note 2 3 30 ∷ []))
ipc_send-ipc_receive_stale_example =
    ipc_send-ipc_receive_stale 3 0 three three-IsValid refl taken 5 2 1 (some (7 ∷ [])) 1
      (omega arith) (omega arith)
