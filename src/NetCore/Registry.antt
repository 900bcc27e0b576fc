-- ===== src/NetCore/Registry.antt =====
-- What the registry holds after any calls.
use mathlib.Core.Path.{subst}
use mathlib.Core.List.{append_assoc, append-nil}
use minimalist_os.Base.{
  ℕ, zero, suc, ◌+◌, ◌%◌, ◌^◌, ◌≤◌, ◌<◌, ◌≡◌, refl, sym, ap, ◌∙◌, List, [], ◌∷◌, ◌++◌, inl, inr,
  Option, none, some, leb, ◌==◌, if◌then◌else◌, set, length, length-append, take, take_self,
  replicate, arith, Bool-cases,
}
use minimalist_os.NetCore.{
  NetCore, net_init, net_register_device, net_receive_frame, net_get_device_count, net_get_stats,
}

-- Calls: a device, or none for a null pointer, and a frame of some length.
pub data Op {ℓ} (A : Type ℓ) : Type ℓ where
  register : Option A → Op A
  receive : ℕ → Op A

module _ {ℓ} {A : Type ℓ} where
  pub step : Op A → NetCore A → NetCore A
  step (register dev) s = (net_register_device dev s).1
  step (receive len) s = net_receive_frame len s

  pub calls_after : List (Op A) → NetCore A → NetCore A
  calls_after [] s = s
  calls_after (op ∷ ops) s = calls_after ops (step op s)

  -- The devices of the calls, the frames that are not empty, and the sum of the lengths.
  pub devices : List (Op A) → List A
  devices [] = []
  devices (register none ∷ ops) = devices ops
  devices (register (some dev) ∷ ops) = dev ∷ devices ops
  devices (receive len ∷ ops) = devices ops

  pub frames : List (Op A) → ℕ
  frames [] = 0
  frames (register dev ∷ ops) = frames ops
  frames (receive len ∷ ops) = (if len == 0 then 0 else 1) + frames ops

  pub total : List (Op A) → ℕ
  total [] = 0
  total (register dev ∷ ops) = total ops
  total (receive len ∷ ops) = len + total ops

  -- A table of eight places that holds some devices.
  unfoldable pub table : List A → ℕ → List (Option A)
  table [] n = replicate n none
  table (dev ∷ ds) zero = []
  table (dev ∷ ds) (suc n) = some dev ∷ table ds n

  set-table :
      (ds : List A) (n : ℕ) (dev : A)
      → length ds < n
      → set (table ds n) (length ds) (some dev) ≡ table (ds ++ (dev ∷ [])) n
  unfolding table
  set-table [] zero dev h = absurd (omega arith)
  set-table [] (suc n) dev h = refl
  set-table (d ∷ ds) zero dev h = absurd (omega arith)
  set-table (d ∷ ds) (suc n) dev h = ap (λ t. some d ∷ t) (set-table ds n dev (omega arith))

  pub record Holds (ds : List A) (s : NetCore A) : Type ℓ where
    pub places : s.net_devices ≡ table ds 8
    pub count : s.net_device_count ≡ length ds
    pub bounded : length ds ≤ 8

  take-full : (n : ℕ) (ds es : List A) → length ds ≡ n → take n (ds ++ es) ≡ ds
  take-full zero [] es h = refl
  take-full zero (d ∷ ds) es h = absurd (omega (arith, h))
  take-full (suc n) [] es h = absurd (omega (arith, h))
  take-full (suc n) (d ∷ ds) es h = ap (λ t. d ∷ t) (take-full n ds es (omega (arith, h)))

  register-Holds :
      (ds : List A) (dev : A) (s : NetCore A)
      → Holds ds s
      → Holds (take 8 (ds ++ (dev ∷ []))) (net_register_device (some dev) s).1
  unfolding net_register_device
  register-Holds ds dev s h = elim (Bool-cases (leb 8 s.net_device_count)) [
    | inl full ↦
        let long : length ds ≡ 8 = ground (arith, h.count, h.bounded) in
        rw (full, net_register_device)
          (subst (λ t. Holds t s) (sym (take-full 8 ds (dev ∷ []) long)) h)
    | inr room ↦
        let short : length ds < 8 = ground (arith, h.count) in
        let more : length (ds ++ (dev ∷ [])) ≡ suc (length ds) =
          omega (arith, length-append ds (dev ∷ [])) in
        let e = take_self 8 (ds ++ (dev ∷ [])) (omega (arith, more)) in
        let s' = record s {
          net_devices = set s.net_devices s.net_device_count (some dev);
          net_device_count = s.net_device_count + 1;
        } in
        rw (room, net_register_device)
          (subst (λ t. Holds t s') (sym e)
            (record {
              places =
                  ap (λ t. set t s.net_device_count (some dev)) h.places
                  ∙ ap (λ i. set (table ds 8) i (some dev)) h.count
                  ∙ set-table ds 8 dev short;
              count = omega (arith, h.count, more);
              bounded = omega (arith, more);
            }))
  ]

  -- Cutting the first part does not matter once the whole is cut.
  take-append : (n : ℕ) (ds es : List A) → take n (take n ds ++ es) ≡ take n (ds ++ es)
  take-append zero ds es = refl
  take-append (suc n) [] es = refl
  take-append (suc n) (d ∷ ds) es = ap (λ t. d ∷ t) (take-append n ds es)

  receive-Holds :
      (ds : List A) (len : ℕ) (s : NetCore A) → Holds ds s → Holds ds (net_receive_frame len s)
  unfolding net_receive_frame
  receive-Holds ds len s h = elim (Bool-cases (len == 0)) [
    | inl empty ↦ rw (empty, net_receive_frame) h
    | inr some_bytes ↦
        rw (some_bytes, net_receive_frame)
          (record { places = h.places; count = h.count; bounded = h.bounded })
  ]

  calls_after-Holds :
      (ops : List (Op A)) (ds : List A) (s : NetCore A)
      → Holds ds s
      → Holds (take 8 (ds ++ devices ops)) (calls_after ops s)
  unfolding calls_after step devices net_register_device
  calls_after-Holds [] ds s h =
      subst (λ t. Holds t s) (sym (ap (take 8) (append-nil ds) ∙ take_self 8 ds h.bounded)) h
  calls_after-Holds (register none ∷ ops) ds s h = calls_after-Holds ops ds s h
  calls_after-Holds (register (some dev) ∷ ops) ds s h =
      subst (λ t. Holds t (calls_after ops (net_register_device (some dev) s).1))
        (take-append 8 (ds ++ (dev ∷ [])) (devices ops)
          ∙ ap (take 8) (append_assoc ds (dev ∷ []) (devices ops)))
        (calls_after-Holds ops (take 8 (ds ++ (dev ∷ []))) _ (register-Holds ds dev s h))
  calls_after-Holds (receive len ∷ ops) ds s h =
      calls_after-Holds ops ds _ (receive-Holds ds len s h)

  register-counters :
      (dev : A) (s : NetCore A)
      → let s' = (net_register_device (some dev) s).1 in
        (s'.net_rx_frames ≡ s.net_rx_frames) × (s'.net_rx_bytes ≡ s.net_rx_bytes)
  unfolding net_register_device
  register-counters dev s = elim (Bool-cases (leb 8 s.net_device_count)) [
    | inl full ↦ rw (full, net_register_device) (refl, refl)
    | inr room ↦ rw (room, net_register_device) (refl, refl)
  ]

  receive-counters :
      (len : ℕ) (s : NetCore A)
      → s.net_rx_frames < 2 ^ 32
      → s.net_rx_bytes < 2 ^ 32
      → let s' = net_receive_frame len s in
        (s'.net_rx_frames ≡ (s.net_rx_frames + (if len == 0 then 0 else 1)) % 2 ^ 32)
        × (s'.net_rx_bytes ≡ (s.net_rx_bytes + len) % 2 ^ 32)
  unfolding net_receive_frame
  receive-counters len s f b = elim (Bool-cases (len == 0)) [
    | inl empty ↦
        let none_sent : len ≡ 0 = ground arith in
        rw (empty, net_receive_frame) (omega arith, omega (arith, none_sent))
    | inr some_bytes ↦ rw (some_bytes, net_receive_frame) (refl, refl)
  ]

  -- The statistics.
  calls_after-counted :
      (ops : List (Op A)) (s : NetCore A)
      → s.net_rx_frames < 2 ^ 32
      → s.net_rx_bytes < 2 ^ 32
      → let s' = calls_after ops s in
        (s'.net_rx_frames ≡ (s.net_rx_frames + frames ops) % 2 ^ 32)
        × (s'.net_rx_bytes ≡ (s.net_rx_bytes + total ops) % 2 ^ 32)
  unfolding calls_after step frames total net_register_device
  calls_after-counted [] s f b = (omega arith, omega arith)
  calls_after-counted (register none ∷ ops) s f b = calls_after-counted ops s f b
  calls_after-counted (register (some dev) ∷ ops) s f b =
      let s1 = (net_register_device (some dev) s).1 in
      let (same_frames, same_bytes) = register-counters dev s in
      let (p, q) =
        calls_after-counted ops s1 (omega (arith, f, same_frames)) (omega (arith, b, same_bytes)) in
      (omega (arith, p, same_frames), omega (arith, q, same_bytes))
  calls_after-counted (receive len ∷ ops) s f b =
      let s1 = net_receive_frame len s in
      let (frames', bytes') = receive-counters len s f b in
      let (p, q) = calls_after-counted ops s1 (omega (arith, frames')) (omega (arith, bytes')) in
      (omega (arith, p, frames'), omega (arith, q, bytes'))

-- After `net_init` and any calls the registry holds the first eight devices of those registered, in
-- their order, null pointers and later ones left out, and its statistics give the number of the frames
-- that are not empty and the sum of all lengths, both modulo 2 ^ 32.
pub net_init-calls_after {ℓ} :
    {A : Type ℓ} (ops : List (Op A))
    → let s = calls_after ops net_init in
      (s.net_devices ≡ table (take 8 (devices ops)) 8)
      × (net_get_device_count s ≡ length (take 8 (devices ops)))
      × ((net_get_stats s).0 ≡ frames ops % 2 ^ 32)
      × ((net_get_stats s).1 ≡ total ops % 2 ^ 32)
unfolding net_init net_get_stats net_get_device_count table
net_init-calls_after ops =
    let h =
      calls_after-Holds ops [] net_init
        (record { places = refl; count = refl; bounded = omega arith }) in
    let (p, q) = calls_after-counted ops net_init (omega arith) (omega arith) in
    (h.places, h.count, omega (arith, p), omega (arith, q))
