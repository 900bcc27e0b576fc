-- ===== src/Mouse/Packets.antt =====
-- The bytes that the mouse sends, cut into packets.
use Prim.Native.Nat.{bit_and}
use minimalist_os.Base.{
  ℕ, ◌<◌, ◌≡◌, ◌≢◌, refl, sym, ap, ◌∙◌, List, [], ◌∷◌, true, false, ◌&&◌, ◌==◌, length, arith,
}
use mathlib.Core.Path.{subst}
use minimalist_os.Mouse.{Mouse, take_byte, move_pointer}
use minimalist_os.Mouse.Pointer.{Pointer, Shows, step_pointer, move_pointer-Shows}
use minimalist_os.Vga.{Vga}

-- Bytes that hold packets: outside a packet a byte without bit 3 is dropped, and a packet starts with
-- a byte that has it.
pub data Framed : List ℕ → List (ℕ × ℕ × ℕ) → Type 0 where
  end : Framed [] []
  stray :
      {b : ℕ} {bytes : List ℕ} {packets : List (ℕ × ℕ × ℕ)}
      → bit_and b 8 ≡ 0
      → Framed bytes packets
      → Framed (b ∷ bytes) packets
  packet :
      {b0 b1 b2 : ℕ} {bytes : List ℕ} {packets : List (ℕ × ℕ × ℕ)}
      → bit_and b0 8 ≢ 0
      → b1 < 256
      → b2 < 256
      → Framed bytes packets
      → Framed (b0 ∷ b1 ∷ b2 ∷ bytes) ((b0, b1, b2) ∷ packets)

pub take_bytes : List ℕ → Mouse → Vga → Mouse × Vga
take_bytes [] m s = (m, s)
take_bytes (b ∷ bytes) m s = let (m', s') = take_byte b m s in take_bytes bytes m' s'

pub step_pointers : ℕ → List (ℕ × ℕ × ℕ) → Pointer → Pointer
step_pointers color [] p = p
step_pointers color (b ∷ packets) p = step_pointers color packets (step_pointer color b p)

-- Between two packets.
pub record Ready (m : Mouse) : Type 0 where
  pub index : m.packet_index ≡ 0
  pub size : length m.packet ≡ 3

abbrev fresh : ℕ → ℕ → ℕ → Mouse → Mouse
fresh a b c m = record m { packet = a ∷ b ∷ c ∷ []; packet_index = 0 }

three : (xs : List ℕ) → length xs ≡ 3 → (a b c : ℕ) × (xs ≡ a ∷ b ∷ c ∷ [])
three [] h = absurd (omega (arith, h))
three (a ∷ []) h = absurd (omega (arith, h))
three (a ∷ b ∷ []) h = absurd (omega (arith, h))
three (a ∷ b ∷ c ∷ []) h = (a, b, c, refl)
three (a ∷ b ∷ c ∷ d ∷ xs) h = absurd (omega (arith, h))

Ready-fresh : (m : Mouse) → Ready m → (a b c : ℕ) × (m ≡ fresh a b c m)
Ready-fresh m r =
    let (a, b, c, e) = three m.packet r.size in
    (
      a,
      b,
      c,
      ap (λ i. record m { packet_index = i }) r.index
          ∙ ap (λ xs. record m { packet = xs; packet_index = 0 }) e,
    )

module _ (m : Mouse) (s : Vga) where
  take_byte-stray : (b : ℕ) → m.packet_index ≡ 0 → bit_and b 8 ≡ 0 → take_byte b m s ≡ (m, s)
  unfolding take_byte
  take_byte-stray b index clear =
      let drop_it : ((m.packet_index == 0) && (bit_and b 8 == 0)) ≡ true = ground arith in
      rw drop_it refl

  -- A whole packet, from its first byte on.
  take_bytes-three :
      (a b c b0 b1 b2 : ℕ) (bytes : List ℕ)
      → bit_and b0 8 ≢ 0
      → take_bytes (b0 ∷ b1 ∷ b2 ∷ bytes) (fresh a b c m) s ≡ (
          let (m', s') =
            move_pointer (record m { packet = b0 ∷ b1 ∷ b2 ∷ []; packet_index = 3 }) s in
          take_bytes bytes m' s')
  unfolding take_byte take_bytes
  take_bytes-three a b c b0 b1 b2 bytes set_bit =
      let keep : (bit_and b0 8 == 0) ≡ false = ground arith in rw keep refl

-- From a state between two packets, whatever bytes come in, the pointer moves by each packet among
-- them and by nothing else, stays on the screen, and the screen shows it: each packet wipes the old
-- cell and draws the new one. After the last packet the driver is between two packets again.
pub take_bytes-Shows :
    {bytes : List ℕ} {packets : List (ℕ × ℕ × ℕ)} (p : Pointer) (m : Mouse) (s : Vga)
    → Framed bytes packets
    → Ready m
    → Shows p m s
    → let (m', s') = take_bytes bytes m s in
      Shows (step_pointers s.current_color packets p) m' s' × Ready m'
unfolding take_bytes step_pointers
take_bytes-Shows p m s end r h = (h, r)
take_bytes-Shows p m s (stray {b} {bytes} {packets} clear f) r h =
    let dropped = take_byte-stray m s b r.index clear in
    rw (dropped, take_bytes) (take_bytes-Shows p m s f r h)
take_bytes-Shows p m s (packet {b0} {b1} {b2} {bytes} {packets} first small1 small2 f) r h =
    let (a, b, c, e) = Ready-fresh m r in
    let full = record m { packet = b0 ∷ b1 ∷ b2 ∷ []; packet_index = 3 } in
    let h' : Shows p full s = record {
      at_x = h.at_x;
      at_y = h.at_y;
      in_x = h.in_x;
      in_y = h.in_y;
      held = h.held;
      drawn = h.drawn;
    } in
    let (shown, color, index, same) = move_pointer-Shows p full s b0 b1 b2 h' refl small1 small2 in
    let (m', s') = move_pointer full s in
    let r' : Ready m' = record { index = index; size = ap length same } in
    let taken : take_bytes (b0 ∷ b1 ∷ b2 ∷ bytes) m s ≡ take_bytes bytes m' s' =
      ap (λ t. take_bytes (b0 ∷ b1 ∷ b2 ∷ bytes) t s) e
      ∙ take_bytes-three m s a b c b0 b1 b2 bytes first in
    let after = take_bytes-Shows _ m' s' f r' shown in
    subst
      (λ t. Shows (step_pointers s.current_color ((b0, b1, b2) ∷ packets) p) t.0 t.1 × Ready t.0)
      (sym taken)
      (
        subst
            (λ color'.
              Shows (step_pointers color' packets (step_pointer s.current_color (b0, b1, b2) p))
                (take_bytes bytes m' s').0 (take_bytes bytes m' s').1)
            color after.0,
        after.1,
      )
