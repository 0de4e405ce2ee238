-- ===== src/Screen/Vt.antt =====
-- A terminal that is fed the bytes that `render` of modules/console/panel.c writes, one by one: printed
-- bytes, and the control sequences `ESC [ … H`, `K`, `J` and `m`. Every printed byte counts as a column.
use mobile_config.Base.{
  ℕ, ◌+◌, ◌-◌, ◌*◌, Bool, true, false, ◌&&◌, [], ◌∷◌, ◌++◌, ltb, leb, ◌==◌, if◌then◌else◌, take,
}
use mobile_config.Libc.{Bytes, scan_digits}
use mobile_config.Screen.Terminal.{lands_on}

-- Between sequences, behind an ESC, or behind `ESC [` with the parameters so far.
pub data Mode : Type 0 where
  between escaped : Mode
  in_csi : Bytes → Mode

-- The cursor stands on row `row`, from 0, and has printed `col` columns of it; `written` is what was
-- written there left of the cursor. A row is shown once the rest of it is erased.
pub record Vt : Type 0 where
  pub mode : Mode
  pub row : ℕ
  pub col : ℕ
  pub written : Bytes
  pub shown : ℕ → Bytes

-- The row and the column of an address; a column that is not given is the first.
abbrev pub address : Bytes → ℕ → ℕ × ℕ
address [] n = (n, 1)
address (c ∷ ps) n = if c == b';' then (n, scan_digits ps 0) else address ps (n * 10 + (c - b'0'))

-- The byte that ends a sequence, with the parameters before it. An address past the last row is the
-- last row; what stands in front of the column stays.
abbrev pub csi : ℕ → ℕ → Bytes → Vt → Vt
csi rows c ps v =
    let to = address ps 0 in
    let line = lands_on rows (to.0 - 1) in
    if c == b'H'
    then record v {
      mode = between;
      row = line;
      col = to.1 - 1;
      written = take (to.1 - 1) (v.shown line);
    }
    else if c == b'K'
    then record v { mode = between; shown = λ k. if k == v.row then v.written else v.shown k }
    else if c == b'J'
    then record v {
      mode = between;
      shown = λ k. if k == v.row then v.written else if leb v.row k then [] else v.shown k;
    }
    else if c == b'm'
    then record v { mode = between; written = v.written ++ ((27 ∷ b'[' ∷ ps) ++ c ∷ []) }
    else record v { mode = between }

-- A printed byte. The cursor stays on the last column of a row, where a byte is erased with the rest of
-- the row; one more goes to the start of the next row.
abbrev pub print : ℕ → ℕ → ℕ → Vt → Vt
print rows cols c v =
    if ltb (v.col + 1) cols
    then record v { col = v.col + 1; written = v.written ++ c ∷ [] }
    else if ltb v.col cols
    then record v { col = v.col + 1 }
    else record v { row = lands_on rows (v.row + 1); col = 1; written = c ∷ [] }

-- A byte that ends a control sequence.
abbrev pub ends_csi : ℕ → Bool
ends_csi c = leb 64 c && leb c 126

abbrev pub vt_step : Mode → ℕ → ℕ → ℕ → Vt → Vt
vt_step between rows cols c v = if c == 27 then record v { mode = escaped } else print rows cols c v
vt_step escaped rows cols c v =
    if c == b'[' then record v { mode = in_csi [] } else record v { mode = between }
vt_step (in_csi ps) rows cols c v =
    if ends_csi c then csi rows c ps v else record v { mode = in_csi (ps ++ c ∷ []) }

abbrev pub vt_run : ℕ → ℕ → Bytes → Vt → Vt
vt_run rows cols [] v = v
vt_run rows cols (c ∷ s) v = vt_run rows cols s (vt_step v.mode rows cols c v)

-- Whether a text prints bytes from the space on and changes colours only, ends between two sequences,
-- and is narrower than the columns that are left.
abbrev pub is_text : Bytes → ℕ → Mode → Bool
is_text [] left between = true
is_text [] left escaped = false
is_text [] left (in_csi ps) = false
is_text (c ∷ s) left between =
    if c == 27
    then is_text s left escaped
    else leb 32 c && (ltb 1 left && is_text s (left - 1) between)
is_text (c ∷ s) left escaped = c == b'[' && is_text s left (in_csi [])
is_text (c ∷ s) left (in_csi ps) =
    if ends_csi c
    then c == b'm' && is_text s left between
    else is_text s left (in_csi (ps ++ c ∷ []))
