-- ===== src/KeyboardIntl/Layouts.antt =====
-- The tables of drivers/keyboard_intl.c. The rest of an array of 128 entries is 0. A character
-- outside ASCII is several bytes of the source, of which a `char` keeps the last.
use minimalist_os.Base.{ℕ, List, [], ◌∷◌, Option, none, some}

abbrev pub us_qwerty : List ℕ
us_qwerty =
    0 ∷ 0 ∷ b'1' ∷ b'2' ∷ b'3' ∷ b'4' ∷ b'5' ∷ b'6' ∷ b'7' ∷ b'8' ∷ b'9' ∷ b'0' ∷ b'-' ∷ b'=' ∷ 8
    ∷ 9 ∷ b'q' ∷ b'w' ∷ b'e' ∷ b'r' ∷ b't' ∷ b'y' ∷ b'u' ∷ b'i' ∷ b'o' ∷ b'p' ∷ b'[' ∷ b']' ∷ 10 ∷ 0
    ∷ b'a' ∷ b's' ∷ b'd' ∷ b'f' ∷ b'g' ∷ b'h' ∷ b'j' ∷ b'k' ∷ b'l' ∷ b';' ∷ 39 ∷ b'`' ∷ 0 ∷ 92
    ∷ b'z' ∷ b'x' ∷ b'c' ∷ b'v' ∷ b'b' ∷ b'n' ∷ b'm' ∷ b',' ∷ b'.' ∷ b'/' ∷ 0 ∷ b'*' ∷ 0 ∷ b' ' ∷ 0
    ∷ 0 ∷ 0 ∷ 0 ∷ 0 ∷ 0 ∷ 0 ∷ 0 ∷ 0 ∷ 0 ∷ 0 ∷ 0 ∷ 0 ∷ b'-' ∷ 0 ∷ 0 ∷ 0 ∷ b'+' ∷ []

abbrev pub us_qwerty_shift : List ℕ
us_qwerty_shift =
    0 ∷ 0 ∷ b'!' ∷ b'@' ∷ b'#' ∷ b'$' ∷ b'%' ∷ b'^' ∷ b'&' ∷ b'*' ∷ b'(' ∷ b')' ∷ b'_' ∷ b'+' ∷ 8
    ∷ 9 ∷ b'Q' ∷ b'W' ∷ b'E' ∷ b'R' ∷ b'T' ∷ b'Y' ∷ b'U' ∷ b'I' ∷ b'O' ∷ b'P' ∷ b'{' ∷ b'}' ∷ 10 ∷ 0
    ∷ b'A' ∷ b'S' ∷ b'D' ∷ b'F' ∷ b'G' ∷ b'H' ∷ b'J' ∷ b'K' ∷ b'L' ∷ b':' ∷ 34 ∷ b'~' ∷ 0 ∷ b'|'
    ∷ b'Z' ∷ b'X' ∷ b'C' ∷ b'V' ∷ b'B' ∷ b'N' ∷ b'M' ∷ b'<' ∷ b'>' ∷ b'?' ∷ 0 ∷ b'*' ∷ 0 ∷ b' ' ∷ 0
    ∷ 0 ∷ 0 ∷ 0 ∷ 0 ∷ 0 ∷ 0 ∷ 0 ∷ 0 ∷ 0 ∷ 0 ∷ 0 ∷ 0 ∷ b'-' ∷ 0 ∷ 0 ∷ 0 ∷ b'+' ∷ []

abbrev pub de_qwertz : List ℕ
de_qwertz =
    0 ∷ 0 ∷ b'1' ∷ b'2' ∷ b'3' ∷ b'4' ∷ b'5' ∷ b'6' ∷ b'7' ∷ b'8' ∷ b'9' ∷ b'0' ∷ 39 ∷ 8 ∷ 9 ∷ b'q'
    ∷ b'w' ∷ b'e' ∷ b'r' ∷ b't' ∷ b'z' ∷ b'u' ∷ b'i' ∷ b'o' ∷ b'p' ∷ 39 ∷ b'#' ∷ 10 ∷ 0 ∷ b'a'
    ∷ b's' ∷ b'd' ∷ b'f' ∷ b'g' ∷ b'h' ∷ b'j' ∷ b'k' ∷ b'l' ∷ b';' ∷ b'^' ∷ b'`' ∷ 0 ∷ b'<' ∷ b'y'
    ∷ b'x' ∷ b'c' ∷ b'v' ∷ b'b' ∷ b'n' ∷ b'm' ∷ b',' ∷ b'.' ∷ b'-' ∷ 0 ∷ b'*' ∷ 0 ∷ b' ' ∷ 0 ∷ 0 ∷ 0
    ∷ 0 ∷ 0 ∷ 0 ∷ 0 ∷ 0 ∷ 0 ∷ 0 ∷ 0 ∷ 0 ∷ 0 ∷ b'-' ∷ 0 ∷ 0 ∷ 0 ∷ b'+' ∷ []

abbrev pub de_qwertz_shift : List ℕ
de_qwertz_shift =
    0 ∷ 0 ∷ b'!' ∷ 34 ∷ b'$' ∷ b'%' ∷ b'&' ∷ b'/' ∷ b'(' ∷ b')' ∷ b'=' ∷ b'?' ∷ 8 ∷ 9 ∷ b'Q' ∷ b'W'
    ∷ b'E' ∷ b'R' ∷ b'T' ∷ b'Z' ∷ b'U' ∷ b'I' ∷ b'O' ∷ b'P' ∷ 34 ∷ b'*' ∷ 10 ∷ 0 ∷ b'A' ∷ b'S'
    ∷ b'D' ∷ b'F' ∷ b'G' ∷ b'H' ∷ b'J' ∷ b'K' ∷ b'L' ∷ b';' ∷ 39 ∷ b'`' ∷ 0 ∷ b'>' ∷ b'Y' ∷ b'X'
    ∷ b'C' ∷ b'V' ∷ b'B' ∷ b'N' ∷ b'M' ∷ b';' ∷ b':' ∷ b'_' ∷ 0 ∷ b'*' ∷ 0 ∷ b' ' ∷ 0 ∷ 0 ∷ 0 ∷ 0
    ∷ 0 ∷ 0 ∷ 0 ∷ 0 ∷ 0 ∷ 0 ∷ 0 ∷ 0 ∷ 0 ∷ b'-' ∷ 0 ∷ 0 ∷ 0 ∷ b'+' ∷ []

abbrev pub de_qwertz_altgr : List ℕ
de_qwertz_altgr =
    0 ∷ 0 ∷ b'2' ∷ b'3' ∷ b'{' ∷ b'[' ∷ b']' ∷ b'}' ∷ 92 ∷ 8 ∷ 9 ∷ b'@' ∷ 0 ∷ 0 ∷ 0 ∷ 0 ∷ 0 ∷ 0 ∷ 0
    ∷ 0 ∷ 0 ∷ b'~' ∷ 8 ∷ 0 ∷ 0 ∷ 0 ∷ 0 ∷ 0 ∷ 0 ∷ 0 ∷ 0 ∷ 0 ∷ 0 ∷ 0 ∷ b'`' ∷ 0 ∷ b'|' ∷ 0 ∷ 0 ∷ 0 ∷ 0
    ∷ 0 ∷ 0 ∷ 0 ∷ 0 ∷ 0 ∷ 0 ∷ b'*' ∷ 0 ∷ b' ' ∷ 0 ∷ 0 ∷ 0 ∷ 0 ∷ 0 ∷ 0 ∷ 0 ∷ 0 ∷ 0 ∷ 0 ∷ 0 ∷ 0 ∷ 0
    ∷ b'-' ∷ 0 ∷ 0 ∷ 0 ∷ b'+' ∷ []

abbrev pub fr_azerty : List ℕ
fr_azerty =
    0 ∷ 0 ∷ b'&' ∷ b'e' ∷ 34 ∷ 39 ∷ b'(' ∷ b'-' ∷ b'e' ∷ b'_' ∷ b'c' ∷ b'a' ∷ b')' ∷ b'=' ∷ 8 ∷ 9
    ∷ b'a' ∷ b'z' ∷ b'e' ∷ b'r' ∷ b't' ∷ b'y' ∷ b'u' ∷ b'i' ∷ b'o' ∷ b'p' ∷ b'^' ∷ b'$' ∷ 10 ∷ 0
    ∷ b'q' ∷ b's' ∷ b'd' ∷ b'f' ∷ b'g' ∷ b'h' ∷ b'j' ∷ b'k' ∷ b'l' ∷ b'm' ∷ b'u' ∷ b'*' ∷ 0 ∷ b'<'
    ∷ b'w' ∷ b'x' ∷ b'c' ∷ b'v' ∷ b'b' ∷ b'n' ∷ b',' ∷ b';' ∷ b':' ∷ b'!' ∷ 0 ∷ b'*' ∷ 0 ∷ b' ' ∷ 0
    ∷ 0 ∷ 0 ∷ 0 ∷ 0 ∷ 0 ∷ 0 ∷ 0 ∷ 0 ∷ 0 ∷ 0 ∷ 0 ∷ 0 ∷ b'-' ∷ 0 ∷ 0 ∷ 0 ∷ b'+' ∷ []

abbrev pub fr_azerty_shift : List ℕ
fr_azerty_shift =
    0 ∷ 0 ∷ b'1' ∷ b'2' ∷ b'3' ∷ b'4' ∷ b'5' ∷ b'6' ∷ b'7' ∷ b'8' ∷ b'9' ∷ b'0' ∷ 0xB0 ∷ b'+' ∷ 8
    ∷ 9 ∷ b'A' ∷ b'Z' ∷ b'E' ∷ b'R' ∷ b'T' ∷ b'Y' ∷ b'U' ∷ b'I' ∷ b'O' ∷ b'P' ∷ 0xA8 ∷ 0xA3 ∷ 10 ∷ 0
    ∷ b'Q' ∷ b'S' ∷ b'D' ∷ b'F' ∷ b'G' ∷ b'H' ∷ b'J' ∷ b'K' ∷ b'L' ∷ b'M' ∷ b'%' ∷ 0xB5 ∷ 0 ∷ b'>'
    ∷ b'W' ∷ b'X' ∷ b'C' ∷ b'V' ∷ b'B' ∷ b'N' ∷ b'?' ∷ b'.' ∷ b'/' ∷ 0xA7 ∷ 0 ∷ b'*' ∷ 0 ∷ b' ' ∷ 0
    ∷ 0 ∷ 0 ∷ 0 ∷ 0 ∷ 0 ∷ 0 ∷ 0 ∷ 0 ∷ 0 ∷ 0 ∷ 0 ∷ 0 ∷ b'-' ∷ 0 ∷ 0 ∷ 0 ∷ b'+' ∷ []

pub record Layout : Type 0 where
  pub name : List ℕ
  pub scancode_to_ascii : List ℕ
  pub scancode_to_ascii_shift : List ℕ
  pub scancode_to_ascii_altgr : Option (List ℕ)

-- What a read past the three layouts stands for.
abbrev pub no_layout : Layout
no_layout = record {
  name = [];
  scancode_to_ascii = [];
  scancode_to_ascii_shift = [];
  scancode_to_ascii_altgr = none;
}

-- "US QWERTY"
abbrev us_name : List ℕ
us_name = b'U' ∷ b'S' ∷ b' ' ∷ b'Q' ∷ b'W' ∷ b'E' ∷ b'R' ∷ b'T' ∷ b'Y' ∷ []

-- "German QWERTZ"
abbrev german_name : List ℕ
german_name =
    b'G' ∷ b'e' ∷ b'r' ∷ b'm' ∷ b'a' ∷ b'n' ∷ b' ' ∷ b'Q' ∷ b'W' ∷ b'E' ∷ b'R' ∷ b'T' ∷ b'Z' ∷ []

-- "French AZERTY"
abbrev french_name : List ℕ
french_name =
    b'F' ∷ b'r' ∷ b'e' ∷ b'n' ∷ b'c' ∷ b'h' ∷ b' ' ∷ b'A' ∷ b'Z' ∷ b'E' ∷ b'R' ∷ b'T' ∷ b'Y' ∷ []

abbrev pub keyboard_layouts : List Layout
keyboard_layouts =
    (record {
      name = us_name;
      scancode_to_ascii = us_qwerty;
      scancode_to_ascii_shift = us_qwerty_shift;
      scancode_to_ascii_altgr = none;
    })
    ∷ (record {
      name = german_name;
      scancode_to_ascii = de_qwertz;
      scancode_to_ascii_shift = de_qwertz_shift;
      scancode_to_ascii_altgr = some de_qwertz_altgr;
    })
    ∷ (record {
      name = french_name;
      scancode_to_ascii = fr_azerty;
      scancode_to_ascii_shift = fr_azerty_shift;
      scancode_to_ascii_altgr = none;
    })
    ∷ []

abbrev pub num_layouts : ℕ
num_layouts = 3
