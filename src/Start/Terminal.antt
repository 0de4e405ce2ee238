-- ===== src/Start/Terminal.antt =====
-- modules/console/panel.c: `measure_screen`, `term_restore` and `term_raw`.
use mobile_config.Base.{
  ℕ, Bool, false, ◌&&◌, ◌||◌, [], ◌∷◌, ◌++◌, leb, ◌==◌, if◌then◌else◌, Option, none, some, take,
}
use mobile_config.Libc.{Bytes, codes}
use mobile_config.Screen.{Display, esc, rst}

-- `size` is what TIOCGWINSZ gives: rows and columns, `none` where it fails.
unfoldable pub measure_screen : Option (ℕ × ℕ) → Display → Display
measure_screen none d = d
measure_screen (some (rows, cols)) d =
    if rows == 0 || cols == 0 then d else record d { screen_rows = rows; screen_cols = cols }

-- The bits of `c_lflag` and the two bytes of `c_cc` that are changed.
pub record Termios : Type 0 where
  pub icanon : Bool
  pub echo : Bool
  pub vmin : ℕ
  pub vtime : ℕ

-- The settings in force, `saved_term` where `term_saved` is set, and what was written.
pub record Terminal : Type 0 where
  pub current : Termios
  pub saved : Option Termios
  pub written : Bytes

-- `reads` and `sets` are whether the two calls succeed.
unfoldable pub term_raw : Bool → Bool → Terminal → Terminal
term_raw reads sets t =
    if reads && sets
    then record t {
      current = record { icanon = false; echo = false; vmin = 0; vtime = 0 };
      saved = some t.current;
    }
    else t

-- `restores` is whether the call succeeds, which the source does not ask: nothing is kept either way.
unfoldable pub put_back : Bool → Option Termios → Terminal → Terminal
put_back restores none t = t
put_back restores (some old) t = record t {
  current = if restores then old else t.current;
  saved = none;
}

-- The string behind the cursor's sequence, of which the call writes eight bytes.
abbrev pub farewell : Bytes
farewell = esc (codes "?25h") ++ (rst ++ b'\n' ∷ [])

unfoldable pub term_restore : Bool → Terminal → Terminal
unfolding put_back
term_restore restores t =
    let t' = put_back restores t.saved t in record t' { written = t'.written ++ take 8 farewell }

-- The write that follows `term_raw`: it hides the cursor and clears the screen.
unfoldable pub enter_screen : Terminal → Terminal
enter_screen t = record t {
  written = t.written ++ take 10 (esc (codes "?25l") ++ esc (codes "2J"));
}

-- A byte that ends a control sequence behind `ESC [`.
abbrev pub is_final : ℕ → Bool
is_final c = leb 64 c && leb c 126

-- Where a terminal's parser stands.
pub data Parse : Type 0 where
  ground_state after_esc in_sequence : Parse

-- One byte for the parser.
abbrev pub parse_byte : Parse → ℕ → Parse
parse_byte ground_state c = if c == 27 then after_esc else ground_state
parse_byte after_esc c = if c == b'[' then in_sequence else ground_state
parse_byte in_sequence c = if is_final c then ground_state else in_sequence

abbrev pub parse_bytes : Parse → Bytes → Parse
parse_bytes p [] = p
parse_bytes p (c ∷ s) = parse_bytes (parse_byte p c) s
