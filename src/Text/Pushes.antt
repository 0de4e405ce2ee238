-- ===== src/Text/Pushes.antt =====
-- What a sequence of pushes leaves in a `struct textbuf`.
use mobile_config.Base.{
  ◌≡◌, ◌≤◌, ◌⊎◌, ◌∙◌, ap, sym, List, [], ◌∷◌, ◌++◌, length, length-append, map, arith, append_assoc,
  append-nil, inl, inr,
}
use mobile_config.Libc.{Bytes}
use mobile_config.Text.Buffer.{TextBuf, Memory, enough_memory, store_line, tb_push, push_all}

-- `out` is `xs` with some elements left out.
pub data Sub : List Bytes → List Bytes → Type 0 where
  done : Sub [] []
  keep : {s : Bytes} {out xs : List Bytes} → Sub out xs → Sub (s ∷ out) (s ∷ xs)
  skip : {s : Bytes} {out xs : List Bytes} → Sub out xs → Sub out (s ∷ xs)

abbrev pub texts : List (Memory × Bytes) → List Bytes
texts [] = []
texts ((m, s) ∷ rest) = s ∷ texts rest

-- The array holds its lines.
abbrev pub IsValid : TextBuf → Type 0
IsValid tb = length tb.line ≤ tb.cap

tb_push-IsValid : (m : Memory) (s : Bytes) (tb : TextBuf) → IsValid tb → IsValid (tb_push m s tb)
unfolding tb_push store_line
tb_push-IsValid m s tb h = ground (arith, length-append tb.line (s ∷ []))

push_all-IsValid :
    (pushes : List (Memory × Bytes)) (tb : TextBuf) → IsValid tb → IsValid (push_all pushes tb)
unfolding push_all
push_all-IsValid [] tb h = h
push_all-IsValid ((m, s) ∷ rest) tb h =
    push_all-IsValid rest (tb_push m s tb) (tb_push-IsValid m s tb h)

-- A push adds the line at the end or leaves the lines.
tb_push_cases :
    (m : Memory) (s : Bytes) (tb : TextBuf)
    → ((tb_push m s tb).line ≡ tb.line ++ s ∷ []) ⊎ ((tb_push m s tb).line ≡ tb.line)
unfolding tb_push store_line
tb_push_cases m s tb = ground arith

-- Pushes for which the allocator gives memory.
abbrev pub all_stored : List Bytes → List (Memory × Bytes)
all_stored lines = map (λ s. (enough_memory, s)) lines

tb_push_enough : (s : Bytes) (tb : TextBuf) → (tb_push enough_memory s tb).line ≡ tb.line ++ s ∷ []
unfolding tb_push store_line
tb_push_enough s tb = ground arith

push_all_enough :
    (lines : List Bytes) (tb : TextBuf) → (push_all (all_stored lines) tb).line ≡ tb.line ++ lines
unfolding push_all
push_all_enough [] tb = sym (append-nil tb.line)
push_all_enough (s ∷ rest) tb =
    push_all_enough rest (tb_push enough_memory s tb)
    ∙ (ap (λ l. l ++ rest) (tb_push_enough s tb) ∙ append_assoc tb.line (s ∷ []) rest)

pushed-Sub :
    (pushes : List (Memory × Bytes)) (tb : TextBuf)
    → (out : List Bytes) × ((push_all pushes tb).line ≡ tb.line ++ out) × Sub out (texts pushes)
unfolding push_all
pushed-Sub [] tb = ([], sym (append-nil tb.line), Sub.done)
pushed-Sub ((m, s) ∷ rest) tb =
    let (out, e, sub) = pushed-Sub rest (tb_push m s tb) in
    elim (tb_push_cases m s tb) [
      | inl h ↦
          (s ∷ out, e ∙ (ap (λ l. l ++ out) h ∙ append_assoc tb.line (s ∷ []) out), Sub.keep sub)
      | inr h ↦ (out, e ∙ ap (λ l. l ++ out) h, Sub.skip sub)
    ]

-- For a sequence of pushes, whatever `realloc` and `strdup` answer to each: the used part of the array
-- stays inside its capacity, the lines that were there stay in front, and behind them is what is
-- pushed, in order, with some lines left out; and if there is memory for every push, none is left out.
pub push_all-Holds :
    (pushes : List (Memory × Bytes)) (tb : TextBuf)
    → IsValid tb
    → IsValid (push_all pushes tb)
      × ((out : List Bytes) × ((push_all pushes tb).line ≡ tb.line ++ out) × Sub out (texts pushes))
      × ((push_all (all_stored (texts pushes)) tb).line ≡ tb.line ++ texts pushes)
push_all-Holds pushes tb h =
    (push_all-IsValid pushes tb h, pushed-Sub pushes tb, push_all_enough (texts pushes) tb)
