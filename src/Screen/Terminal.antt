-- ===== src/Screen/Terminal.antt =====
-- What the two formats of `render` are to do, as the source describes it: a row address past the last
-- row means the last row; a row's text and the erasing of the rest of it replace the row. Shown relates
-- this to the bytes, for rows that are narrower than the terminal.
use mobile_config.Base.{ℕ, ◌-◌, List, [], ◌∷◌, ltb, leb, ◌==◌, if◌then◌else◌}
use mobile_config.Libc.{Bytes}
use mobile_config.Screen.{Draw, row, below}

-- The row on which an address from 0 lands.
abbrev pub lands_on : ℕ → ℕ → ℕ
lands_on screen_rows i = if ltb i screen_rows then i else screen_rows - 1

-- The rows that are shown after one of them is drawn.
abbrev pub apply_draw : ℕ → Draw → (ℕ → Bytes) → ℕ → Bytes
apply_draw screen_rows (row i a) shown k = if k == lands_on screen_rows i then a else shown k
apply_draw screen_rows (below r) shown k =
    if leb (lands_on screen_rows (r - 1)) k then [] else shown k

-- The rows that are shown after everything emitted is drawn, the oldest first.
abbrev pub paint : ℕ → List Draw → (ℕ → Bytes) → ℕ → Bytes
paint screen_rows [] shown = shown
paint screen_rows (d ∷ older) shown = apply_draw screen_rows d (paint screen_rows older shown)
