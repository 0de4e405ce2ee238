-- ===== src/Text/Buffer.antt =====
-- modules/console/panel.c: `struct textbuf`, `tb_free`, `tb_push` and `tb_pushf`. Each push comes with
-- what the allocator answers.
use mobile_config.Base.{ℕ, ◌*◌, Bool, true, List, [], ◌∷◌, ◌++◌, ◌==◌, if◌then◌else◌, length}
use mobile_config.Libc.{Bytes, snprintf}

-- `line` is the used part of the array, so `n` is its length.
pub record TextBuf : Type 0 where
  pub line : List Bytes
  pub cap : ℕ

abbrev pub empty_buf : TextBuf
empty_buf = record { line = []; cap = 0 }

-- Whether `realloc` and `strdup` give memory.
pub record Memory : Type 0 where
  pub grows : Bool
  pub copies : Bool

abbrev pub enough_memory : Memory
enough_memory = record { grows = true; copies = true }

unfoldable pub tb_free : TextBuf → TextBuf
tb_free tb = empty_buf

unfoldable pub store_line : Memory → Bytes → TextBuf → TextBuf
store_line m s tb = if m.copies then record tb { line = tb.line ++ s ∷ [] } else tb

unfoldable pub tb_push : Memory → Bytes → TextBuf → TextBuf
unfolding store_line
tb_push m s tb =
    if length tb.line == tb.cap
    then if m.grows
      then store_line m s (record tb { cap = if tb.cap == 0 then 256 else tb.cap * 2 })
      else tb
    else store_line m s tb

-- `text` is what the format prints.
unfoldable pub tb_pushf : Memory → Bytes → TextBuf → TextBuf
unfolding tb_push
tb_pushf m text tb = tb_push m (snprintf 4096 text) tb

-- A sequence of pushes.
unfoldable pub push_all : List (Memory × Bytes) → TextBuf → TextBuf
unfolding tb_push
push_all [] tb = tb
push_all ((m, s) ∷ rest) tb = push_all rest (tb_push m s tb)
