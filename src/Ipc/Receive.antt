-- ===== src/Ipc/Receive.antt =====
-- `ipc_receive` on the list of messages.
use minimalist_os.Base.{
  ℕ, zero, suc, ◌+◌, ◌-◌, ◌%◌, ◌≤◌, ◌<◌, ◌≡◌, refl, sym, ap, ◌∙◌, List, [], ◌∷◌, Bool, true, false,
  Option, none, some, ℤ, success, failure, arith, ltb, ◌==◌, if◌then◌else◌, length, length-set, set,
  get_or, Bool-cases, inl, inr, Option-cases,
}
use minimalist_os.Base.Circular.{slots, cell, cell-set_self, cell-set_ne, slots-ext}
use minimalist_os.Ipc.{
  IpcMsg, Ipc, zero_msg, max_messages, accepts, find_message, shift_messages, ipc_receive,
}

-- The state that `ipc_receive` relies on. It says nothing of the tail.
pub record IsValid (s : Ipc) : Type 0 where
  pub full : length s.message_queue ≡ max_messages
  pub head_in : s.queue_head < max_messages
  pub count_in : s.queue_count ≤ max_messages

-- The waiting messages, oldest first.
abbrev pub contents : Ipc → List IpcMsg
contents s = slots zero_msg max_messages s.message_queue s.queue_head 0 s.queue_count

abbrev pub entry : List IpcMsg → ℕ → ℕ → IpcMsg
entry q h k = cell zero_msg max_messages q h k

-- The first message that passes the test, and the list without it.
pub take_first : (IpcMsg → Bool) → List IpcMsg → Option (IpcMsg × List IpcMsg)
take_first test [] = none
take_first test (m ∷ ms) =
    let rest = take_first test ms in
    if test m then some (m, ms) else elim rest [ none ↦ none | some (x, xs) ↦ some (x, m ∷ xs) ]

-- The queue after one round of the shift.
abbrev pub moved : List IpcMsg → ℕ → ℕ → List IpcMsg
moved q h j = set q ((h + j) % max_messages) (get_or q ((h + j + 1) % max_messages) zero_msg)

pub length-shift : (q : List IpcMsg) (h j n : ℕ) → length (shift_messages q h j n) ≡ length q
unfolding shift_messages
length-shift q h j zero = refl
length-shift q h j (suc n) =
    length-shift (moved q h j) h (j + 1) n
    ∙ length-set q ((h + j) % max_messages) (get_or q ((h + j + 1) % max_messages) zero_msg)

module _ (h : ℕ) (hh : h < max_messages) where
  entry-set :
      (q : List IpcMsg) (v : IpcMsg) (i k : ℕ)
      → max_messages ≤ length q
      → i < max_messages
      → k < max_messages
      → entry (set q ((h + i) % max_messages) v) h k ≡ (if i == k then v else entry q h k)
  entry-set q v i k full hi hk = elim (Bool-cases (i == k)) [
    | inl same ↦ rw same (
        ap (entry (set q ((h + i) % max_messages) v) h) (ground arith)
        ∙ cell-set_self zero_msg max_messages q h v full hh i)
    | inr other ↦
        rw other (cell-set_ne zero_msg max_messages q h v full hh i k hi hk (ground arith))
  ]

  -- After the shift the entries from `j` on are the ones that stood one place further.
  entry-shift :
      (n : ℕ) (q : List IpcMsg) (j k : ℕ)
      → max_messages ≤ length q
      → j + n < max_messages
      → k < j + n
      → entry (shift_messages q h j n) h k ≡ (if ltb k j then entry q h k else entry q h (k + 1))
  unfolding shift_messages
  entry-shift zero q j k full fits hk = ground arith
  entry-shift (suc n) q j k full fits hk =
      let v : IpcMsg = get_or q ((h + j + 1) % max_messages) zero_msg in
      let from : v ≡ entry q h (j + 1) =
        ap (λ i. get_or q (i % max_messages) zero_msg) (omega arith) in
      ground (
        arith,
        from,
        entry-shift n (moved q h j) (j + 1) k
            (omega (arith, length-set q ((h + j) % max_messages) v)) (omega arith) (omega arith),
        entry-set q v j k full (omega arith) (omega arith),
        entry-set q v j (k + 1) full (omega arith) (omega arith),
      )

  -- The entries behind the shifted ones stay.
  pub entry-shift_beyond :
      (n : ℕ) (q : List IpcMsg) (j k : ℕ)
      → max_messages ≤ length q
      → j + n ≤ k
      → k < max_messages
      → entry (shift_messages q h j n) h k ≡ entry q h k
  unfolding shift_messages
  entry-shift_beyond zero q j k full le hk = refl
  entry-shift_beyond (suc n) q j k full le hk =
      let v : IpcMsg = get_or q ((h + j + 1) % max_messages) zero_msg in
      ground (
        arith,
        entry-shift_beyond n (moved q h j) (j + 1) k
            (omega (arith, length-set q ((h + j) % max_messages) v)) (omega arith) hk,
        entry-set q v j k full (omega arith) hk,
      )

  module _ (q : List IpcMsg) (pid sender : ℕ) (q' : List IpcMsg) (i : ℕ) where
    -- `q'` holds the entries of `q` without the `i`-th, up to the `m`-th.
    abbrev Without : ℕ → Type 0
    Without m =
        (k : ℕ) → k < m → entry q' h k ≡ (if ltb k i then entry q h k else entry q h (k + 1))

    tail-same :
        (n j m : ℕ)
        → j + n ≤ m
        → i ≤ j
        → Without m
        → slots zero_msg max_messages q h (suc j) n ≡ slots zero_msg max_messages q' h j n
    tail-same n j m e hi w =
        slots-ext zero_msg max_messages q q' h h (suc j) j n
          (λ k lt. next k (w (j + k) (omega arith)))
      where
        next :
            (k : ℕ)
            → entry q' h (j + k)
              ≡ (if ltb (j + k) i then entry q h (j + k) else entry q h (j + k + 1))
            → entry q h (suc j + k) ≡ entry q' h (j + k)
        next k e =
            let past : ltb (j + k) i ≡ false = ground arith in
            ap (entry q h) (omega arith) ∙ sym (rw past at e)

    pub find-bounds : (n j : ℕ) → find_message q h pid sender j n ≡ some i → (j ≤ i) × (i < j + n)
    unfolding find_message
    find-bounds zero j f = ground arith
    find-bounds (suc n) j f = ground (arith, find-bounds n (suc j))

    hit-case :
        (n j m : ℕ)
        → j + n ≤ m
        → Without m
        → accepts pid sender (entry q h j) ≡ true
        → find_message q h pid sender j (suc n) ≡ some i
        → take_first (accepts pid sender) (slots zero_msg max_messages q h j (suc n))
          ≡ some (entry q h i, slots zero_msg max_messages q' h j n)
    unfolding find_message take_first
    hit-case n j m e w hit f =
        let same : j ≡ i = ground arith in
        rw hit (ground (arith, tail-same n j m e (omega arith) w))

    -- A search that stops at `i` takes the first message that fits.
    find-some :
        (n j m : ℕ)
        → j + n ≤ m
        → Without m
        → find_message q h pid sender j (suc n) ≡ some i
        → take_first (accepts pid sender) (slots zero_msg max_messages q h j (suc n))
          ≡ some (entry q h i, slots zero_msg max_messages q' h j n)
    unfolding find_message take_first
    find-some zero j m e w f = elim (Bool-cases (accepts pid sender (entry q h j))) [
      | inl hit ↦ hit-case zero j m e w hit f
      | inr miss ↦ ground arith
    ]
    find-some (suc n) j m e w f = elim (Bool-cases (accepts pid sender (entry q h j))) [
      | inl hit ↦ hit-case (suc n) j m e w hit f
      | inr miss ↦
          let further : find_message q h pid sender (suc j) (suc n) ≡ some i = rw miss at f in
          let before : j < i = omega (arith, (find-bounds (suc n) (suc j) further).0) in
          let kept : entry q' h j ≡ entry q h j = ground (arith, w j (omega arith)) in
          rw miss (ground (arith, kept, find-some n (suc j) m (omega arith) w further))
    ]

  find-none :
      (q : List IpcMsg) (pid sender n j : ℕ)
      → find_message q h pid sender j n ≡ none
      → take_first (accepts pid sender) (slots zero_msg max_messages q h j n) ≡ none
  unfolding find_message take_first
  find-none q pid sender zero j f = refl
  find-none q pid sender (suc n) j f = ground (arith, find-none q pid sender n (suc j))

-- The queue's view of a receive.
pub take_message : Option (IpcMsg × List IpcMsg) → List IpcMsg → ℤ × Option IpcMsg × List IpcMsg
take_message none ms = (failure, none, ms)
take_message (some (m, rest)) ms = (success, some m, rest)

received :
    (pid sender n : ℕ) (s : Ipc)
    → IsValid s
    → s.queue_count ≡ suc n
    → let (status, got, s') = ipc_receive pid sender s in
      take_message (take_first (accepts pid sender) (contents s)) (contents s)
      ≡ (status, got, contents s')
unfolding ipc_receive take_message
received pid sender n s v e = elim (Option-cases found) [
  | inl f ↦ ground (arith, f, find-none h v.head_in q pid sender s.queue_count 0 f)
  | inr (i, f) ↦
      let f' : find_message q h pid sender 0 (suc n) ≡ some i =
        ap (find_message q h pid sender 0) (sym e) ∙ f in
      let q' = shift_messages q h i (s.queue_count - 1 - i) in
      let bounds = find-bounds h v.head_in q pid sender q' i (suc n) 0 f' in
      ground (
        arith,
        f,
        find-some h v.head_in q pid sender q' i n 0 n (omega arith)
            (λ k lt.
              entry-shift h v.head_in (s.queue_count - 1 - i) q i k (omega (arith, v.full))
                (omega (arith, v.count_in, bounds.1)) (omega (arith, bounds.1)))
            f',
      )
]
  where
    open s use {message_queue as q, queue_head as h}

    found : Option ℕ
    found = find_message q h pid sender 0 s.queue_count

on_empty :
    (pid sender : ℕ) (s : Ipc)
    → s.queue_count ≡ 0
    → let (status, got, s') = ipc_receive pid sender s in
      take_message (take_first (accepts pid sender) (contents s)) (contents s)
      ≡ (status, got, contents s')
unfolding ipc_receive take_message take_first
on_empty pid sender s e =
    ground (arith, ap (slots zero_msg max_messages s.message_queue s.queue_head 0) e)

-- On a valid queue `ipc_receive` hands out the oldest message for the process that comes from the
-- sender asked for, removes it and keeps the others in order; where there is none it fails and
-- changes nothing.
pub ipc_receive_refines :
    (pid sender : ℕ) (s : Ipc)
    → IsValid s
    → let (status, got, s') = ipc_receive pid sender s in
      take_message (take_first (accepts pid sender) (contents s)) (contents s)
      ≡ (status, got, contents s')
ipc_receive_refines pid sender s v = elim (Bool-cases (s.queue_count == 0)) [
  | inl empty ↦ on_empty pid sender s (ground arith)
  | inr some_left ↦ received pid sender (s.queue_count - 1) s v (ground arith)
]

-- Receiving keeps the queue valid.
pub receive-IsValid : (pid sender : ℕ) (s : Ipc) → IsValid s → IsValid (ipc_receive pid sender s).2
unfolding ipc_receive
receive-IsValid pid sender s v = grind (arith, length-shift)
