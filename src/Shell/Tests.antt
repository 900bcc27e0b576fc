-- ===== src/Shell/Tests.antt =====
-- A line with a correction and a blank at its end, and the command that it runs.
use minimalist_os.Base.{ℕ, ◌≡◌, refl, List, [], ◌∷◌, ◌++◌, some, replicate, arith}
use minimalist_os.Shell.Editing.{AllKeys, done, typed_key, Edited, read_line-Edited}
use minimalist_os.Shell.Stack.{key, typed, trimmed}
use minimalist_os.Shell.{Shell, Line, blank_line, read_line}

abbrev shell : Shell
shell = record {
  username = 0 ∷ [];
  hostname = 0 ∷ [];
  cwd = 0 ∷ [];
  history_count = 0;
  screen = record {
    vga = replicate 2000 0;
    cursor_x = 0;
    cursor_y = 0;
    current_color = 7;
    cursor_start = 0;
    cursor_end = 15;
    hardware_pos = 0;
  };
}

-- "px", a backspace, "s" and a blank.
abbrev keys : List ℕ
keys = b'p' ∷ b'x' ∷ 8 ∷ b's' ∷ b' ' ∷ []

edited : trimmed (typed keys []) ≡ b's' ∷ b'p' ∷ []
unfolding trimmed typed key
edited = refl

keys-AllKeys : AllKeys keys
keys-AllKeys =
    typed_key (λ e. absurd (omega (arith, e))) (λ e. absurd (omega (arith, e)))
      (λ e. absurd (omega (arith, e)))
      (typed_key (λ e. absurd (omega (arith, e))) (λ e. absurd (omega (arith, e)))
        (λ e. absurd (omega (arith, e)))
        (typed_key (λ e. absurd (omega (arith, e))) (λ e. absurd (omega (arith, e)))
          (λ e. absurd (omega (arith, e)))
          (typed_key (λ e. absurd (omega (arith, e))) (λ e. absurd (omega (arith, e)))
            (λ e. absurd (omega (arith, e)))
            (typed_key (λ e. absurd (omega (arith, e))) (λ e. absurd (omega (arith, e)))
              (λ e. absurd (omega (arith, e))) done))))

read_line-Edited_example :
    (l : Line) × (s' : Shell) × (read_line (keys ++ (10 ∷ b'q' ∷ [])) blank_line shell
      ≡ some (b'q' ∷ [], l, s'))
    × Edited (trimmed (typed keys [])) l
read_line-Edited_example = read_line-Edited keys (b'q' ∷ []) shell keys-AllKeys
