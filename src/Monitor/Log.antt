-- ===== src/Monitor/Log.antt =====
-- The log as a list of entries.
use native.Mathlib.Decide.{dec_lt}
use minimalist_os.Base.{
  ℕ, ◌+◌, ◌-◌, ◌%◌, ◌^◌, ◌≤◌, ◌<◌, ◌≡◌, ◌≢◌, refl, sym, ap, ◌∙◌, List, true, some, success, arith,
  get_or, length, length-set, get_or-set_self, get_or-set_ne, min, take, take_self, ltb, inl, inr,
  Bool-cases,
}
use minimalist_os.CString.Compare.{strlen_lem}
use minimalist_os.CString.Copy.{store_lem}
use minimalist_os.CString.{text, strlen}
use minimalist_os.Monitor.{
  Monitor, LogEntry, cut, zero_entry, log_buffer_size, make_entry, monitor_log, actual_index,
  monitor_get_log_entry,
}

pub record IsValid (s : Monitor) : Type 0 where
  pub room : length s.log_buffer ≡ log_buffer_size
  pub index : s.log_index < log_buffer_size
  pub count : s.log_count ≤ log_buffer_size

-- Where the `k`-th of the stored entries stands.
actual_index_lem :
    (s : Monitor) (k : ℕ)
    → IsValid s
    → k < s.log_count
    → actual_index s k ≡ (s.log_index + (256 - s.log_count) + k) % 256
unfolding actual_index
actual_index_lem s k valid lt = omega (arith, valid.index, valid.count)

entry_at :
    (s : Monitor) (k : ℕ)
    → IsValid s
    → k < s.log_count
    → monitor_get_log_entry k true s ≡ (
      success,
      some (get_or s.log_buffer ((s.log_index + (256 - s.log_count) + k) % 256) zero_entry),
    )
unfolding monitor_get_log_entry
entry_at s k valid lt = rw (actual_index_lem s k valid lt) (ground arith)

read_at :
    (s : Monitor) (k j : ℕ)
    → IsValid s
    → k < s.log_count
    → (s.log_index + (256 - s.log_count) + k) % 256 ≡ j
    → monitor_get_log_entry k true s ≡ (success, some (get_or s.log_buffer j zero_entry))
read_at s k j valid lt e =
    entry_at s k valid lt ∙ ap (λ i. (success, some (get_or s.log_buffer i zero_entry))) e

module _ (s : Monitor) (level source : ℕ) (message : List ℕ) (valid : IsValid s) where
  logged : Monitor
  logged = monitor_log level source (some message) s

  pub logged-IsValid : IsValid (monitor_log level source (some message) s)
  unfolding monitor_log
  logged-IsValid = record {
    room = length-set s.log_buffer s.log_index _ ∙ valid.room;
    index = omega arith;
    count = ground (arith, valid.count);
  }

  -- The fields of the state after the call.
  index_after : logged.log_index ≡ (s.log_index + 1) % 256
  unfolding logged monitor_log
  index_after = refl

  count-grows : s.log_count < 256 → logged.log_count ≡ s.log_count + 1
  unfolding logged monitor_log
  count-grows room = ground arith

  count-full : s.log_count ≡ 256 → logged.log_count ≡ 256
  unfolding logged monitor_log
  count-full full = ground arith

  new_here : get_or logged.log_buffer s.log_index zero_entry ≡ make_entry s level source message
  unfolding logged monitor_log
  new_here =
      get_or-set_self s.log_buffer s.log_index _ zero_entry (omega (arith, valid.room, valid.index))

  others_here :
      (j : ℕ)
      → s.log_index ≢ j
      → get_or logged.log_buffer j zero_entry ≡ get_or s.log_buffer j zero_entry
  unfolding logged monitor_log
  others_here j ne = get_or-set_ne s.log_buffer s.log_index j _ zero_entry ne

  newest :
      monitor_get_log_entry (logged.log_count - 1) true logged
      ≡ (success, some (make_entry s level source message))
  unfolding logged
  newest =
      let count : (1 ≤ logged.log_count) × (logged.log_count ≤ 256) =
        elim (dec_lt s.log_count 256) [
          | yes p ↦ (omega (arith, count-grows p), omega (arith, count-grows p))
          | no p ↦ let e = count-full (omega (arith, valid.count)) in (omega arith, omega arith)
        ] in
      read_at logged (logged.log_count - 1) s.log_index logged-IsValid (omega (arith, count.0))
        (omega (arith, count.0, count.1, index_after, valid.index))
      ∙ ap (λ e. (success, some e)) new_here

  kept :
      (k : ℕ)
      → s.log_count < 256
      → k < s.log_count
      → monitor_get_log_entry k true logged ≡ monitor_get_log_entry k true s
  unfolding logged
  kept k room lt =
      let j = (s.log_index + (256 - s.log_count) + k) % 256 in
      read_at logged k j logged-IsValid (omega (arith, count-grows room))
        (omega (arith, count-grows room, index_after, valid.index))
      ∙ ap (λ e. (success, some e)) (others_here j (λ e. absurd (omega (arith, valid.index))))
      ∙ sym (read_at s k j valid lt refl)

  moved :
      (k : ℕ)
      → s.log_count ≡ 256
      → k + 1 < s.log_count
      → monitor_get_log_entry k true logged ≡ monitor_get_log_entry (k + 1) true s
  unfolding logged
  moved k full lt =
      let j = (s.log_index + (256 - s.log_count) + (k + 1)) % 256 in
      read_at logged k j logged-IsValid (omega (arith, count-full full))
        (omega (arith, count-full full, index_after, valid.index))
      ∙ ap (λ e. (success, some e)) (others_here j (λ e. absurd (omega (arith, valid.index))))
      ∙ sym (read_at s (k + 1) j valid lt refl)

-- An entry for a message: the time that it is logged at, and the message cut to 255 characters.
pub record Records (s : Monitor) (level source : ℕ) (message : List ℕ) (e : LogEntry) : Type 0 where
  pub time : e.timestamp ≡ (s.timestamp_counter + 1) % 2 ^ 32
  pub level_kept : e.level ≡ level
  pub source_kept : e.source ≡ source
  pub counted : e.length ≡ min 255 (length (text message))
  pub stored : text e.message ≡ take 255 (text message)

cut-min : (n : ℕ) → cut n ≡ min 255 n
unfolding cut
cut-min n = ground arith

take-cut : (bytes : List ℕ) → take (cut (length bytes)) bytes ≡ take 255 bytes
unfolding cut
take-cut bytes = elim (Bool-cases (ltb 255 (length bytes))) [
  | inl longer ↦ rw longer refl
  | inr short ↦
      rw short
        (take_self (length bytes) bytes (omega arith) ∙ sym (take_self 255 bytes (ground arith)))
]

make_entry-Records :
    (s : Monitor) (level source : ℕ) (message : List ℕ)
    → 256 ≤ length (get_or s.log_buffer s.log_index zero_entry).message
    → Records s level source message (make_entry s level source message)
unfolding make_entry strlen
make_entry-Records s level source message room =
    let small : cut (length (text message)) ≡ min 255 (length (text message)) = cut-min _ in
    record {
      time = refl;
      level_kept = refl;
      source_kept = refl;
      counted = ap cut (strlen_lem message) ∙ small;
      stored =
          store_lem (cut (strlen message)) (get_or s.log_buffer s.log_index zero_entry).message
            message (omega (arith, room, cut-min (strlen message)))
          ∙ ap (λ n. take (cut n) (text message)) (strlen_lem message)
          ∙ take-cut (text message);
    }

-- Logging a message on a valid state makes it the newest entry: with its level and source, the time,
-- and the message, cut to 255 characters. The entries before it are as they were while the log has
-- room; where it is full, the oldest one is gone and each other one moves down by one place. The field
-- for the message in the entry that is written has 256 bytes.
pub monitor_get_log_entry-monitor_log :
    (s : Monitor) (level source : ℕ) (message : List ℕ)
    → IsValid s
    → 256 ≤ length (get_or s.log_buffer s.log_index zero_entry).message
    → let s' = monitor_log level source (some message) s in
      ((e : LogEntry) × (monitor_get_log_entry (s'.log_count - 1) true s' ≡ (success, some e))
        × Records s level source message e)
      × ((k : ℕ)
          → s.log_count < 256
          → k < s.log_count
          → monitor_get_log_entry k true s' ≡ monitor_get_log_entry k true s)
      × ((k : ℕ)
          → s.log_count ≡ 256
          → k + 1 < s.log_count
          → monitor_get_log_entry k true s' ≡ monitor_get_log_entry (k + 1) true s)
      × IsValid s'
unfolding logged
monitor_get_log_entry-monitor_log s level source message valid room = (
  (
    make_entry s level source message,
    newest s level source message valid,
    make_entry-Records s level source message room,
  ),
  kept s level source message valid,
  moved s level source message valid,
  logged-IsValid s level source message valid,
)
