-- ===== src/Screen.antt =====
-- modules/console/panel.c, "frame buffer": `struct screen`, `screen_reset`, `out`, `label`, `emit`
-- and `render`. `obuf` is kept as the list of what was emitted, the newest first.
pub mod Bounds
pub mod Terminal
pub mod Repaint
pub mod Vt
pub mod Wire
pub mod Shown
use mobile_config.Base.{
  ℕ, zero, suc, ◌+◌, ◌-◌, ◌*◌, Bool, true, false, not, ◌&&◌, ◌||◌, List, [], ◌∷◌, ◌++◌, ltb, leb,
  ◌==◌, if◌then◌else◌, length, take,
}
use mobile_config.Libc.{Bytes, codes, streq, dec, pad_right}

abbrev pub max_rows : ℕ
max_rows = 128

abbrev pub max_line : ℕ
max_line = 2048

-- A row past `n` keeps what an earlier frame left there; nothing reads it.
pub record Screen : Type 0 where
  pub line : ℕ → Bytes
  pub n : ℕ

abbrev pub set_line : (ℕ → Bytes) → ℕ → Bytes → ℕ → Bytes
set_line line i v k = if k == i then v else line k

unfoldable pub screen_reset : Screen → Screen
screen_reset s = record { line = set_line s.line 0 []; n = 0 }

-- One round of the loop of `out`. A newline past the last row and a byte past the end of its row
-- are dropped.
unfoldable pub out_byte : Screen → ℕ → Screen
out_byte s c =
    if c == b'\n'
    then if ltb (s.n + 1) max_rows
      then record { line = set_line s.line (s.n + 1) []; n = s.n + 1 }
      else s
    else if ltb (length (s.line s.n) + 2) max_line
    then record s { line = set_line s.line s.n (s.line s.n ++ c ∷ []) }
    else s

unfoldable pub out_bytes : Screen → Bytes → Screen
out_bytes s [] = s
out_bytes s (c ∷ text) = out_bytes (out_byte s c) text

-- `text` is what the format string and its arguments print; `vsnprintf` cuts it to the buffer `tmp`.
unfoldable pub out : Screen → Bytes → Screen
unfolding out_bytes
out s text = out_bytes s (take (max_line * 2 - 1) text)

-- `out("\n")`, `times` times
unfoldable pub newlines : ℕ → Screen → Screen
newlines zero s = s
newlines (suc times) s = newlines times (out s (b'\n' ∷ []))

abbrev pub esc : Bytes → Bytes
esc s = 27 ∷ b'[' ∷ s

abbrev pub rst : Bytes
rst = esc (codes "0m")

abbrev pub bld : Bytes
bld = esc (codes "1m")

abbrev pub dim : Bytes
dim = esc (codes "2m")

abbrev pub red : Bytes
red = esc (codes "31m")

abbrev pub grn : Bytes
grn = esc (codes "32m")

abbrev pub yel : Bytes
yel = esc (codes "33m")

abbrev pub blu : Bytes
blu = esc (codes "34m")

abbrev pub mag : Bytes
mag = esc (codes "35m")

abbrev pub cyn : Bytes
cyn = esc (codes "36m")

abbrev pub wht : Bytes
wht = esc (codes "1;37m")

unfoldable pub label : Screen → Bytes → Screen
label s name = out s (codes " " ++ cyn ++ pad_right 6 name ++ rst ++ codes " ")

-- The two formats that `render` emits: a row of text at a row number from 0, and the erasing of
-- everything from a row number from 1 down.
pub data Draw : Type 0 where
  row : ℕ → Bytes → Draw
  below : ℕ → Draw

unfoldable pub encode : Draw → Bytes
encode (row i a) = esc (dec (i + 1) ++ (codes ";1H" ++ (a ++ esc (codes "K"))))
encode (below r) = esc (dec r ++ (codes ";1H" ++ esc (codes "J")))

-- `olen`
abbrev pub total : List Draw → ℕ
total [] = 0
total (d ∷ older) = total older + length (encode d)

-- The bytes in `obuf`, which `render` writes to the terminal.
abbrev pub obuf : List Draw → Bytes
obuf [] = []
obuf (d ∷ older) = obuf older ++ encode d

abbrev pub obuf_size : ℕ
obuf_size = 262144

-- What does not fit is left out whole.
unfoldable pub emit : List Draw → Draw → List Draw
emit buf d =
    let r = length (encode d) in if ltb 0 r && ltb r (obuf_size - total buf) then d ∷ buf else buf

-- `i <= s->n ? s->line[i] : ""`
abbrev pub row_text : Screen → ℕ → Bytes
row_text s i = if leb i s.n then s.line i else []

unfoldable pub draw_row : Bool → Screen → Screen → ℕ → List Draw → List Draw
draw_row force cur prev i buf =
    if not force && streq (row_text cur i) (row_text prev i)
    then buf
    else emit buf (row i (row_text cur i))

-- The loop of `render` over the rounds that are left, from row `i`.
unfoldable pub draw_rows : Bool → Screen → Screen → ℕ → ℕ → List Draw → List Draw
draw_rows force cur prev zero i buf = buf
draw_rows force cur prev (suc left) i buf =
    draw_rows force cur prev left (i + 1) (draw_row force cur prev i buf)

unfoldable pub min_of : ℕ → ℕ → ℕ
min_of a b = if ltb b a then b else a

-- How many rounds the loop makes: `rows + 1`, which is at most `screen_rows` and `MAX_ROWS`.
unfoldable pub rounds : ℕ → Screen → Screen → ℕ
unfolding min_of
rounds screen_rows cur prev =
    let most = if ltb prev.n cur.n then cur.n else prev.n in
    min_of (min_of (most + 1) screen_rows) max_rows

unfoldable pub draw_below : Bool → ℕ → Screen → Screen → List Draw → List Draw
draw_below force screen_rows cur prev buf =
    if (force || ltb cur.n prev.n) && leb (cur.n + 2) screen_rows
    then emit buf (below (cur.n + 2))
    else buf

-- What one call of `render` emits, the newest first.
unfoldable pub frame : Bool → ℕ → Screen → Screen → List Draw
unfolding draw_row draw_rows rounds draw_below emit
frame force screen_rows cur prev =
    draw_below force screen_rows cur prev
      (draw_rows force cur prev (rounds screen_rows cur prev) 0 [])

-- `cur` and `prev`, and the measured size of the terminal.
pub record Display : Type 0 where
  pub cur : Screen
  pub prev : Screen
  pub screen_rows : ℕ
  pub screen_cols : ℕ

-- The display behind `render`, and the bytes that it wrote.
unfoldable pub render : Bool → Display → Display × Bytes
render force d = (
  record d { cur = screen_reset d.prev; prev = d.cur },
  obuf (frame force d.screen_rows d.cur d.prev),
)
