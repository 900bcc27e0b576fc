-- ===== src/Ipc.antt =====
-- kernel/ipc.c: the message queue between processes.
pub mod Receive
pub mod Send
mod Tests
use minimalist_os.Base.{
  ℕ, zero, suc, ◌+◌, ◌-◌, ◌%◌, List, Bool, ◌&&◌, ◌||◌, Option, none, some, ℤ, negsuc, success,
  failure, ltb, leb, ◌==◌, if◌then◌else◌, set, get_or, replicate,
}
use minimalist_os.CString.{memcpy}

abbrev pub max_msg_size : ℕ
max_msg_size = 256

abbrev pub max_messages : ℕ
max_messages = 16

pub record IpcMsg : Type 0 where
  pub sender : ℕ
  pub receiver : ℕ
  pub type : ℕ
  pub length : ℕ
  pub payload : List ℕ

-- A static entry before its first use.
unfoldable pub zero_msg : IpcMsg
zero_msg = record {
  sender = 0;
  receiver = 0;
  type = 0;
  length = 0;
  payload = replicate max_msg_size 0;
}

pub record Ipc : Type 0 where
  pub message_queue : List IpcMsg
  pub queue_head : ℕ
  pub queue_tail : ℕ
  pub queue_count : ℕ

unfoldable pub ipc_init : Ipc → Ipc
ipc_init s = record s { queue_head = 0; queue_tail = 0; queue_count = 0 }

-- The entry that `ipc_send` leaves at the tail; the copy is skipped for a null pointer or no bytes.
unfoldable pub make_msg : Ipc → ℕ → ℕ → ℕ → Option (List ℕ) → ℕ → IpcMsg
make_msg s pid receiver type bytes len = record {
  sender = pid;
  receiver = receiver;
  type = type;
  length = len;
  payload = elim bytes [ none ↦ old | some b ↦ if ltb 0 len then memcpy old b len else old ];
}
  where
    old : List ℕ
    old = (get_or s.message_queue s.queue_tail zero_msg).payload

-- The first argument is the pid of the current process.
unfoldable pub ipc_send : ℕ → ℕ → ℕ → Option (List ℕ) → ℕ → Ipc → ℤ × Ipc
ipc_send pid receiver type bytes len s =
    if leb max_messages s.queue_count
    then (failure, s)
    else if ltb max_msg_size len
    then (negsuc 1, s)
    else (
      success,
      record s {
        message_queue = set s.message_queue s.queue_tail (make_msg s pid receiver type bytes len);
        queue_tail = (s.queue_tail + 1) % max_messages;
        queue_count = s.queue_count + 1;
      },
    )

-- Is the message for process `pid`, and from `sender` (0 stands for any)?
unfoldable pub accepts : ℕ → ℕ → IpcMsg → Bool
accepts pid sender m = m.receiver == pid && (sender == 0 || m.sender == sender)

-- The search of `ipc_receive`: `n` entries are left, from the `i`-th on.
unfoldable pub find_message : List IpcMsg → ℕ → ℕ → ℕ → ℕ → ℕ → Option ℕ
unfolding accepts
find_message queue head pid sender i zero = none
find_message queue head pid sender i (suc n) =
    let rest = find_message queue head pid sender (suc i) n in
    if accepts pid sender (get_or queue ((head + i) % max_messages) zero_msg) then some i else rest

-- The loop that moves the messages behind the taken one: `n` rounds are left, from `j` on.
unfoldable pub shift_messages : List IpcMsg → ℕ → ℕ → ℕ → List IpcMsg
shift_messages queue head j zero = queue
shift_messages queue head j (suc n) =
    shift_messages
      (set queue ((head + j) % max_messages)
        (get_or queue ((head + j + 1) % max_messages) zero_msg))
      head (j + 1) n

-- The option is what is stored through `msg`.
unfoldable pub ipc_receive : ℕ → ℕ → Ipc → ℤ × Option IpcMsg × Ipc
ipc_receive pid sender s =
    if s.queue_count == 0
    then (failure, none, s)
    else elim (find_message s.message_queue s.queue_head pid sender 0 s.queue_count) [
      | none ↦ (failure, none, s)
      | some i ↦ (
        success,
        some (get_or s.message_queue ((s.queue_head + i) % max_messages) zero_msg),
        record s {
          message_queue = shift_messages s.message_queue s.queue_head i (s.queue_count - 1 - i);
          queue_count = s.queue_count - 1;
        },
      )
    ]
