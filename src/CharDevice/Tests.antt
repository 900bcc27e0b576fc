-- ===== src/CharDevice/Tests.antt =====
-- Tests of the character device, and the theorems at a small state of it.
use minimalist_os.Base.{
  ℕ, ◌≡◌, refl, List, [], ◌∷◌, some, none, pos, success, arith, replicate, length-replicate,
}
use minimalist_os.CharDevice.{CharDevice, char_buffer_size, char_open}
use minimalist_os.CharDevice.Fifo.{IsValid, contents, char_open-IsValid}
use minimalist_os.CharDevice.Stream.{
  Op, empty, put, get, AllFit, at_end, emptied, written, read, run, run_fifo, step_fifo,
  run-run_fifo,
}

-- The device after opening it, whatever its positions were.
opened : CharDevice
opened =
    (char_open
      (record { buffer = replicate char_buffer_size 0; read_pos = 3; write_pos = 9; count = 77 })).1

opened-IsValid : IsValid opened × (contents opened ≡ [])
unfolding opened
opened-IsValid =
    let zero_byte : ℕ = 0 in char_open-IsValid _ (length-replicate char_buffer_size zero_byte)

-- A short write, a read of more than waits, and a read of nothing.
calls : List Op
calls = put (b'h' ∷ b'i' ∷ b'!' ∷ []) 2 ∷ get (0 ∷ 0 ∷ 7 ∷ []) 3 ∷ empty ∷ get (5 ∷ []) 1 ∷ []

calls-AllFit : AllFit calls
unfolding calls
calls-AllFit = written (omega arith) (read (omega arith) (emptied (read (omega arith) at_end)))

run-run_fifo_example :
    let (results, dev') = run calls opened in
    IsValid dev' × ((results, contents dev') ≡ run_fifo calls (contents opened))
run-run_fifo_example = run-run_fifo calls opened opened-IsValid.0 calls-AllFit

results :
    (run_fifo calls []).0
    ≡ (pos 2, none)
      ∷ (pos 2, some (b'h' ∷ b'i' ∷ 7 ∷ []))
      ∷ (success, none)
      ∷ (pos 0, some (5 ∷ []))
      ∷ []
unfolding calls run_fifo step_fifo
results = refl
