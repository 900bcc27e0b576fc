-- ===== src/Timer/Wait.antt =====
-- How long `timer_wait` waits.
use minimalist_os.Base.{
  ℕ, zero, suc, ◌+◌, ◌-◌, ◌%◌, ◌^◌, ◌≤◌, ◌<◌, ◌≡◌, ap, ◌∙◌, List, [], ◌∷◌, some, true, false, ltb,
  arith,
}
use minimalist_os.Timer.{wait_ticks, timer_wait}

-- What `timer_ticks` reads when there is one timer interrupt between two looks, with its wrap to 0.
pub counted : ℕ → ℕ → List ℕ
counted zero now = []
counted (suc n) now = now ∷ counted n ((now + 1) % 2 ^ 32)

-- `d` ticks are missing.
wait_ticks-counted :
    (m d n start ticks now : ℕ)
    → start < 2 ^ 32
    → ticks < 2 ^ 32
    → now < 2 ^ 32
    → d ≤ ticks
    → (now + 2 ^ 32 - start) % 2 ^ 32 ≡ ticks - d
    → m ≡ d + suc n
    → wait_ticks start ticks (counted m now) ≡ some (counted n ((now + d + 1) % 2 ^ 32))
unfolding wait_ticks counted
wait_ticks-counted zero d n start ticks now from short small le gone count =
    absurd (omega (arith, count))
wait_ticks-counted (suc m) zero n start ticks now from short small le gone count =
    let over : ltb ((now + 2 ^ 32 - start) % 2 ^ 32) ticks ≡ false = ground (arith, gone) in
    rw over (
      ap some (
        ap (λ k. counted k ((now + 1) % 2 ^ 32)) {x = m} {y = n} (omega (arith, count))
        ∙ ap (λ k. counted n (k % 2 ^ 32)) {x = now + 1} {y = now + 0 + 1} (omega arith)))
wait_ticks-counted (suc m) (suc d) n start ticks now from short small le gone count =
    let more : ltb ((now + 2 ^ 32 - start) % 2 ^ 32) ticks ≡ true = ground (arith, gone) in
    rw more (
      wait_ticks-counted m d n start ticks ((now + 1) % 2 ^ 32) from short (omega arith)
        (omega arith) (omega (arith, gone)) (omega (arith, count))
      ∙ ap (λ k. some (counted n k)) (omega arith))

-- With one timer interrupt between two looks at the counter, `timer_wait` comes back at the first look
-- after `ticks` interrupts, also when the counter wraps to 0 meanwhile.
pub timer_wait-counted :
    (n start ticks : ℕ)
    → start < 2 ^ 32
    → ticks < 2 ^ 32
    → timer_wait ticks (start ∷ counted (ticks + 1 + n) start)
      ≡ some (counted n ((start + ticks + 1) % 2 ^ 32))
unfolding timer_wait
timer_wait-counted n start ticks from short =
    wait_ticks-counted (ticks + 1 + n) ticks n start ticks start from short from (omega arith)
      (omega arith) (omega arith)
