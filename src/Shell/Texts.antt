-- ===== src/Shell/Texts.antt =====
-- The texts of kernel/shell.c and of `process_print_list` in kernel/process.c.
use minimalist_os.Base.{ℕ, List, [], ◌∷◌}

-- "help"
abbrev pub help_name : List ℕ
help_name = b'h' ∷ b'e' ∷ b'l' ∷ b'p' ∷ []

-- "?"
abbrev pub question_name : List ℕ
question_name = b'?' ∷ []

-- "clear"
abbrev pub clear_name : List ℕ
clear_name = b'c' ∷ b'l' ∷ b'e' ∷ b'a' ∷ b'r' ∷ []

-- "ps"
abbrev pub ps_name : List ℕ
ps_name = b'p' ∷ b's' ∷ []

-- "whoami"
abbrev pub whoami_name : List ℕ
whoami_name = b'w' ∷ b'h' ∷ b'o' ∷ b'a' ∷ b'm' ∷ b'i' ∷ []

-- "ver"
abbrev pub ver_name : List ℕ
ver_name = b'v' ∷ b'e' ∷ b'r' ∷ []

-- "uptime"
abbrev pub uptime_name : List ℕ
uptime_name = b'u' ∷ b'p' ∷ b't' ∷ b'i' ∷ b'm' ∷ b'e' ∷ []

-- "testcmd"
abbrev pub testcmd_name : List ℕ
testcmd_name = b't' ∷ b'e' ∷ b's' ∷ b't' ∷ b'c' ∷ b'm' ∷ b'd' ∷ []

-- The eight lines that `help` prints.
abbrev pub help_text : List ℕ
help_text =
    b'M' ∷ b'i' ∷ b'n' ∷ b'i' ∷ b'm' ∷ b'a' ∷ b'l' ∷ b'i' ∷ b's' ∷ b't' ∷ b' ' ∷ b'O' ∷ b'S' ∷ b' '
    ∷ b'S' ∷ b'h' ∷ b'e' ∷ b'l' ∷ b'l' ∷ b' ' ∷ b'C' ∷ b'o' ∷ b'm' ∷ b'm' ∷ b'a' ∷ b'n' ∷ b'd'
    ∷ b's' ∷ b':' ∷ 10 ∷ b' ' ∷ b' ' ∷ b'h' ∷ b'e' ∷ b'l' ∷ b'p' ∷ b' ' ∷ b' ' ∷ b' ' ∷ b' ' ∷ b' '
    ∷ b' ' ∷ b'-' ∷ b' ' ∷ b'S' ∷ b'h' ∷ b'o' ∷ b'w' ∷ b' ' ∷ b't' ∷ b'h' ∷ b'i' ∷ b's' ∷ b' '
    ∷ b'h' ∷ b'e' ∷ b'l' ∷ b'p' ∷ b' ' ∷ b'm' ∷ b'e' ∷ b's' ∷ b's' ∷ b'a' ∷ b'g' ∷ b'e' ∷ 10 ∷ b' '
    ∷ b' ' ∷ b'c' ∷ b'l' ∷ b'e' ∷ b'a' ∷ b'r' ∷ b' ' ∷ b' ' ∷ b' ' ∷ b' ' ∷ b' ' ∷ b'-' ∷ b' '
    ∷ b'C' ∷ b'l' ∷ b'e' ∷ b'a' ∷ b'r' ∷ b' ' ∷ b't' ∷ b'h' ∷ b'e' ∷ b' ' ∷ b's' ∷ b'c' ∷ b'r'
    ∷ b'e' ∷ b'e' ∷ b'n' ∷ 10 ∷ b' ' ∷ b' ' ∷ b'p' ∷ b's' ∷ b' ' ∷ b' ' ∷ b' ' ∷ b' ' ∷ b' ' ∷ b' '
    ∷ b' ' ∷ b' ' ∷ b'-' ∷ b' ' ∷ b'L' ∷ b'i' ∷ b's' ∷ b't' ∷ b' ' ∷ b'r' ∷ b'u' ∷ b'n' ∷ b'n'
    ∷ b'i' ∷ b'n' ∷ b'g' ∷ b' ' ∷ b'p' ∷ b'r' ∷ b'o' ∷ b'c' ∷ b'e' ∷ b's' ∷ b's' ∷ b'e' ∷ b's' ∷ 10
    ∷ b' ' ∷ b' ' ∷ b'w' ∷ b'h' ∷ b'o' ∷ b'a' ∷ b'm' ∷ b'i' ∷ b' ' ∷ b' ' ∷ b' ' ∷ b' ' ∷ b'-'
    ∷ b' ' ∷ b'S' ∷ b'h' ∷ b'o' ∷ b'w' ∷ b' ' ∷ b'c' ∷ b'u' ∷ b'r' ∷ b'r' ∷ b'e' ∷ b'n' ∷ b't'
    ∷ b' ' ∷ b'u' ∷ b's' ∷ b'e' ∷ b'r' ∷ 10 ∷ b' ' ∷ b' ' ∷ b'v' ∷ b'e' ∷ b'r' ∷ b' ' ∷ b' ' ∷ b' '
    ∷ b' ' ∷ b' ' ∷ b' ' ∷ b' ' ∷ b'-' ∷ b' ' ∷ b'S' ∷ b'h' ∷ b'o' ∷ b'w' ∷ b' ' ∷ b'O' ∷ b'S'
    ∷ b' ' ∷ b'v' ∷ b'e' ∷ b'r' ∷ b's' ∷ b'i' ∷ b'o' ∷ b'n' ∷ 10 ∷ b' ' ∷ b' ' ∷ b'u' ∷ b'p' ∷ b't'
    ∷ b'i' ∷ b'm' ∷ b'e' ∷ b' ' ∷ b' ' ∷ b' ' ∷ b' ' ∷ b'-' ∷ b' ' ∷ b'S' ∷ b'h' ∷ b'o' ∷ b'w'
    ∷ b' ' ∷ b's' ∷ b'y' ∷ b's' ∷ b't' ∷ b'e' ∷ b'm' ∷ b' ' ∷ b'u' ∷ b'p' ∷ b't' ∷ b'i' ∷ b'm'
    ∷ b'e' ∷ 10 ∷ b' ' ∷ b' ' ∷ b't' ∷ b'e' ∷ b's' ∷ b't' ∷ b'c' ∷ b'm' ∷ b'd' ∷ b' ' ∷ b' ' ∷ b' '
    ∷ b'-' ∷ b' ' ∷ b'R' ∷ b'u' ∷ b'n' ∷ b' ' ∷ b't' ∷ b'e' ∷ b's' ∷ b't' ∷ b' ' ∷ b'c' ∷ b'o'
    ∷ b'm' ∷ b'm' ∷ b'a' ∷ b'n' ∷ b'd' ∷ 10 ∷ []

-- "Process List:\n"
abbrev pub list_text : List ℕ
list_text =
    b'P' ∷ b'r' ∷ b'o' ∷ b'c' ∷ b'e' ∷ b's' ∷ b's' ∷ b' ' ∷ b'L' ∷ b'i' ∷ b's' ∷ b't' ∷ b':' ∷ 10
    ∷ []

-- "\n"
abbrev pub newline : List ℕ
newline = 10 ∷ []

-- "Minimalist OS v1.0\n"
abbrev pub version_text : List ℕ
version_text =
    b'M' ∷ b'i' ∷ b'n' ∷ b'i' ∷ b'm' ∷ b'a' ∷ b'l' ∷ b'i' ∷ b's' ∷ b't' ∷ b' ' ∷ b'O' ∷ b'S' ∷ b' '
    ∷ b'v' ∷ b'1' ∷ b'.' ∷ b'0' ∷ 10 ∷ []

-- "Uptime: "
abbrev pub uptime_text : List ℕ
uptime_text = b'U' ∷ b'p' ∷ b't' ∷ b'i' ∷ b'm' ∷ b'e' ∷ b':' ∷ b' ' ∷ []

-- " ticks\n"
abbrev pub ticks_text : List ℕ
ticks_text = b' ' ∷ b't' ∷ b'i' ∷ b'c' ∷ b'k' ∷ b's' ∷ 10 ∷ []

-- "Test command executed!\n"
abbrev pub test_text : List ℕ
test_text =
    b'T' ∷ b'e' ∷ b's' ∷ b't' ∷ b' ' ∷ b'c' ∷ b'o' ∷ b'm' ∷ b'm' ∷ b'a' ∷ b'n' ∷ b'd' ∷ b' ' ∷ b'e'
    ∷ b'x' ∷ b'e' ∷ b'c' ∷ b'u' ∷ b't' ∷ b'e' ∷ b'd' ∷ b'!' ∷ 10 ∷ []

-- "Unknown command: '"
abbrev pub unknown_text : List ℕ
unknown_text =
    b'U' ∷ b'n' ∷ b'k' ∷ b'n' ∷ b'o' ∷ b'w' ∷ b'n' ∷ b' ' ∷ b'c' ∷ b'o' ∷ b'm' ∷ b'm' ∷ b'a' ∷ b'n'
    ∷ b'd' ∷ b':' ∷ b' ' ∷ 39 ∷ []

-- "'\n"
abbrev pub unknown_end : List ℕ
unknown_end = 39 ∷ 10 ∷ []

-- "Slime"
abbrev pub slime : List ℕ
slime = b'S' ∷ b'l' ∷ b'i' ∷ b'm' ∷ b'e' ∷ []

-- "/"
abbrev pub root_path : List ℕ
root_path = b'/' ∷ []

-- The two lines above the list of processes.
abbrev pub list_head : List ℕ
list_head =
    b' ' ∷ b' ' ∷ b'P' ∷ b'I' ∷ b'D' ∷ b' ' ∷ b' ' ∷ b'S' ∷ b'T' ∷ b'A' ∷ b'T' ∷ b'E' ∷ b' ' ∷ b' '
    ∷ b' ' ∷ b' ' ∷ b' ' ∷ b'R' ∷ b'U' ∷ b'N' ∷ b'T' ∷ b'I' ∷ b'M' ∷ b'E' ∷ b' ' ∷ b' ' ∷ b'P'
    ∷ b'R' ∷ b'I' ∷ b'O' ∷ b'R' ∷ b'I' ∷ b'T' ∷ b'Y' ∷ b' ' ∷ b' ' ∷ b'N' ∷ b'A' ∷ b'M' ∷ b'E' ∷ 10
    ∷ b' ' ∷ b' ' ∷ b'-' ∷ b'-' ∷ b'-' ∷ b' ' ∷ b' ' ∷ b'-' ∷ b'-' ∷ b'-' ∷ b'-' ∷ b'-' ∷ b'-'
    ∷ b'-' ∷ b'-' ∷ b' ' ∷ b' ' ∷ b'-' ∷ b'-' ∷ b'-' ∷ b'-' ∷ b'-' ∷ b'-' ∷ b'-' ∷ b' ' ∷ b' '
    ∷ b'-' ∷ b'-' ∷ b'-' ∷ b'-' ∷ b'-' ∷ b'-' ∷ b'-' ∷ b'-' ∷ b' ' ∷ b' ' ∷ b'-' ∷ b'-' ∷ b'-'
    ∷ b'-' ∷ 10 ∷ []

-- "  "
abbrev pub two_blanks : List ℕ
two_blanks = b' ' ∷ b' ' ∷ []

-- "RUN     "
abbrev pub run_text : List ℕ
run_text = b'R' ∷ b'U' ∷ b'N' ∷ b' ' ∷ b' ' ∷ b' ' ∷ b' ' ∷ b' ' ∷ []

-- "READY   "
abbrev pub ready_text : List ℕ
ready_text = b'R' ∷ b'E' ∷ b'A' ∷ b'D' ∷ b'Y' ∷ b' ' ∷ b' ' ∷ b' ' ∷ []

-- "BLOCKED "
abbrev pub blocked_text : List ℕ
blocked_text = b'B' ∷ b'L' ∷ b'O' ∷ b'C' ∷ b'K' ∷ b'E' ∷ b'D' ∷ b' ' ∷ []

-- "ZOMBIE  "
abbrev pub zombie_text : List ℕ
zombie_text = b'Z' ∷ b'O' ∷ b'M' ∷ b'B' ∷ b'I' ∷ b'E' ∷ b' ' ∷ b' ' ∷ []

-- "?       "
abbrev pub other_text : List ℕ
other_text = b'?' ∷ b' ' ∷ b' ' ∷ b' ' ∷ b' ' ∷ b' ' ∷ b' ' ∷ b' ' ∷ []
