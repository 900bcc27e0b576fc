-- ===== src/Shell.antt =====
-- kernel/shell.c, include/shell.h, and `process_print_list` of kernel/process.c: the shell, which
-- reads a line, edits it and runs it as a command.
pub mod Texts
pub mod Stack
pub mod Editing
mod Tests
use minimalist_os.Base.{
  ℕ, zero, suc, ◌+◌, ◌-◌, List, [], ◌∷◌, Bool, true, false, ◌&&◌, ◌||◌, Option, none, some, ltb,
  leb, ◌==◌, if◌then◌else◌, is_zero, set, get_or, replicate,
}
use minimalist_os.CString.{text, strcmp, strcpy, strlen}
use minimalist_os.Log.{digits_of}
use minimalist_os.Process.{
  Process, Scheduler, process, ProcessState, process_empty, process_running, process_ready,
  process_blocked, process_zombie,
}
use minimalist_os.Shell.Texts.*
use minimalist_os.Vga.{Vga, vga_putchar, vga_print, vga_set_color, vga_clear}

abbrev pub shell_buffer_size : ℕ
shell_buffer_size = 256

-- Of `history` only the count is used.
pub record Shell : Type 0 where
  pub username : List ℕ
  pub hostname : List ℕ
  pub cwd : List ℕ
  pub history_count : ℕ
  pub screen : Vga

-- `shell_print`, whose copy to the serial line is disabled.
unfoldable pub shell_print : List ℕ → Shell → Shell
shell_print str s = record s { screen = vga_print str s.screen }

-- The set-up after the pending scancodes have been dropped.
unfoldable pub shell_init : Shell → Shell
shell_init s = record s {
  username = strcpy s.username slime;
  hostname = strcpy s.hostname [];
  cwd = strcpy s.cwd root_path;
  history_count = 0;
}

unfoldable pub state_text : ProcessState → List ℕ
state_text process_running = run_text
state_text process_ready = ready_text
state_text process_blocked = blocked_text
state_text process_zombie = zombie_text
state_text process_empty = other_text

-- Six blanks.
abbrev pub six_blanks : List ℕ
six_blanks = replicate 6 b' '

-- A line of the list.
unfoldable pub print_process : Process → Vga → Vga
print_process p s = vga_print newline (
    vga_print p.name (
      vga_print six_blanks (
        vga_print (digits_of p.priority 4 10) (
          vga_print two_blanks (
            vga_print two_blanks (
              vga_print (digits_of p.runtime 16 10) (
                vga_print two_blanks (
                  vga_print (state_text p.state) (
                    vga_print two_blanks
                      (vga_print (digits_of p.pid 8 10) (vga_print two_blanks s)))))))))))

abbrev pub is_empty_state : ProcessState → Bool
is_empty_state process_empty = true
is_empty_state process_running = false
is_empty_state process_ready = false
is_empty_state process_blocked = false
is_empty_state process_zombie = false

-- `n` entries are left, from the `i`-th on.
unfoldable pub print_processes : ℕ → ℕ → Scheduler → Vga → Vga
print_processes zero i t s = s
print_processes (suc n) i t s =
    let p = process t i in
    print_processes n (i + 1) t (if is_empty_state p.state then s else print_process p s)

unfoldable pub process_print_list : Scheduler → Vga → Vga
process_print_list t s = print_processes t.next_pid 0 t (vga_print list_head s)

abbrev pub is_command : List ℕ → List ℕ → Bool
is_command command name = is_zero (strcmp command name)

-- The number is that of `timer_get_ticks`.
unfoldable pub shell_execute_command : Scheduler → ℕ → List ℕ → Shell → Shell
shell_execute_command t ticks command s =
    if strlen command == 0
    then s
    else if is_command command help_name || is_command command question_name
    then shell_print help_text s
    else if is_command command clear_name
    then record s { screen = vga_clear s.screen }
    else if is_command command ps_name
    then (let listed = shell_print list_text s in
        shell_print newline (record listed { screen = process_print_list t listed.screen }))
    else if is_command command whoami_name
    then shell_print newline (shell_print s.username s)
    else if is_command command ver_name
    then shell_print version_text s
    else if is_command command uptime_name
    then shell_print ticks_text (shell_print (digits_of ticks 32 10) (shell_print uptime_text s))
    else if is_command command testcmd_name
    then shell_print test_text s
    else shell_print unknown_end (shell_print command (shell_print unknown_text s))

-- The line that is being edited.
pub record Line : Type 0 where
  pub input_buffer : List ℕ
  pub buffer_pos : ℕ

abbrev pub blank_line : Line
blank_line = record { input_buffer = replicate shell_buffer_size 0; buffer_pos = 0 }

-- A key that does not end the line.
unfoldable pub type_key : ℕ → Line → Shell → Line × Shell
type_key c l s =
    if c == 8 || c == 0x7F
    then (if ltb 0 l.buffer_pos
        then (
          record l {
            buffer_pos = l.buffer_pos - 1;
            input_buffer = set l.input_buffer (l.buffer_pos - 1) 0;
          },
          shell_print (8 ∷ 0 ∷ []) s,
        )
        else (l, s))
    else if ltb l.buffer_pos (shell_buffer_size - 1)
    then (
      record l { buffer_pos = l.buffer_pos + 1; input_buffer = set l.input_buffer l.buffer_pos c },
      shell_print (c ∷ 0 ∷ []) s,
    )
    else (l, s)

-- `c <= ' '`, where a `char` from 128 on is negative.
abbrev pub is_blank : ℕ → Bool
is_blank c = leb c b' ' || leb 128 c

-- The loop that trims the end of the line.
unfoldable pub trim : ℕ → List ℕ → Line
trim zero buffer = record { input_buffer = buffer; buffer_pos = 0 }
trim (suc n) buffer =
    let shorter = trim n (set buffer n 0) in
    if is_blank (get_or buffer n 0)
    then shorter
    else record { input_buffer = buffer; buffer_pos = suc n }

unfoldable pub end_line : Line → Line
end_line l = trim l.buffer_pos (set l.input_buffer l.buffer_pos 0)

-- The inner loop of `shell_run`: each round takes the next of the characters that the keyboard or the
-- serial line gives, 0 for none. After a carriage return one more is taken from the serial line and
-- dropped. None where the line has not ended with the last of them; else what is left of them, the
-- line and the shell.
unfoldable pub read_line : List ℕ → Line → Shell → Option (List ℕ × Line × Shell)
read_line [] l s = none
read_line (c ∷ keys) l s =
    let (l', s') = type_key c l s in
    let same = read_line keys l s in
    let more = read_line keys l' s' in
    let ended = record s { screen = vga_putchar 10 s.screen } in
    if c == 0
    then same
    else if c == 10
    then some (keys, end_line l, ended)
    else if c == 13
    then (elim keys [ [] ↦ none | dropped ∷ rest ↦ some (rest, end_line l, ended) ])
    else more

-- The colors are light green (10), light grey (7) and light blue (9).
unfoldable pub prompt : Shell → Shell
prompt s =
    let colored : ℕ → Shell → Shell =
      λ color t. record t { screen = vga_set_color color 0 t.screen } in
    let named = shell_print s.username (colored 10 s) in
    let hosted =
      if get_or s.hostname 0 0 == 0
      then named
      else shell_print s.hostname (shell_print (b'@' ∷ []) named) in
    shell_print (b'$' ∷ b' ' ∷ [])
      (colored 7 (shell_print s.cwd (colored 9 (shell_print (b':' ∷ []) (colored 7 hosted)))))

-- A round of the outer loop of `shell_run`.
unfoldable pub shell_round : Scheduler → ℕ → List ℕ → Shell → Option (List ℕ × Shell)
shell_round t ticks keys s = elim (read_line keys blank_line (prompt s)) [
  | none ↦ none
  | some (rest, l, s') ↦
      some
        (rest, if ltb 0 l.buffer_pos then shell_execute_command t ticks l.input_buffer s' else s')
]
