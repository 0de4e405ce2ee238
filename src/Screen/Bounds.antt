-- ===== src/Screen/Bounds.antt =====
-- The frame buffer stays inside its arrays.
use mobile_config.Base.{ℕ, zero, suc, ◌+◌, ◌≤◌, ◌<◌, [], ◌∷◌, arith, length, length-append, take}
use mobile_config.Libc.{Bytes}
use mobile_config.Screen.{
  Screen, screen_reset, out_byte, out_bytes, out, set_line, max_rows, max_line, newlines,
}

-- The row number is inside the array, and every row has room for its final NUL.
pub record IsValid (s : Screen) : Type 0 where
  pub row_fits : s.n < max_rows
  pub line_fits : (i : ℕ) → length (s.line i) + 2 ≤ max_line

set_line-fits :
    (line : ℕ → Bytes) (i k : ℕ) (v : Bytes)
    → length (line k) + 2 ≤ max_line
    → length v + 2 ≤ max_line
    → length (set_line line i v k) + 2 ≤ max_line
set_line-fits line i k v h e = ground arith

out_byte-IsValid : (s : Screen) (c : ℕ) → IsValid s → IsValid (out_byte s c)
unfolding out_byte
out_byte-IsValid s c v = record {
  row_fits = ground (arith, v.row_fits);
  line_fits = λ i. ground (
    arith,
    v.line_fits i,
    set_line-fits s.line (s.n + 1) i [] (v.line_fits i) (omega arith),
    length-append (s.line s.n) (c ∷ []),
  );
}

out_bytes-IsValid : (text : Bytes) (s : Screen) → IsValid s → IsValid (out_bytes s text)
unfolding out_bytes
out_bytes-IsValid [] s v = v
out_bytes-IsValid (c ∷ text) s v = out_bytes-IsValid text (out_byte s c) (out_byte-IsValid s c v)

-- Whatever is printed, and however much of it, a frame buffer that stays inside its 128 rows of
-- 2048 bytes still does so afterwards.
pub out-IsValid : (s : Screen) (text : Bytes) → IsValid s → IsValid (out s text)
unfolding out
out-IsValid s text v = out_bytes-IsValid (take 4095 text) s v

pub screen_reset-IsValid : (s : Screen) → IsValid s → IsValid (screen_reset s)
unfolding screen_reset
screen_reset-IsValid s v = record {
  row_fits = omega arith;
  line_fits = λ i. set_line-fits s.line 0 i [] (v.line_fits i) (omega arith);
}

pub newlines-IsValid : (times : ℕ) (s : Screen) → IsValid s → IsValid (newlines times s)
unfolding newlines
newlines-IsValid zero s v = v
newlines-IsValid (suc times) s v = newlines-IsValid times (out s (b'\n' ∷ [])) (out-IsValid s _ v)
