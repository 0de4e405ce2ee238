-- ===== src/Screen/Shown.antt =====
-- The bytes that `render` writes show the whole new frame.
use mobile_config.Base.{
  ℕ, zero, suc, ◌+◌, ◌-◌, ◌≤◌, ◌≡◌, refl, sym, ap, subst, ◌∙◌, ◌⊎◌, inl, inr, Bool, true, not, ◌&&◌,
  ◌||◌, List, [], ◌∷◌, ◌++◌, arith, ltb, leb, ◌==◌, if◌then◌else◌, if_ind, length, Bool-cases, All,
}
use mobile_config.Libc.{Bytes, codes, streq}
use mobile_config.Screen.{
  Screen, Draw, row, below, encode, esc, obuf, row_text, draw_row, draw_rows, draw_below, frame,
  emit, Display, render, rounds, total, obuf_size,
}
use mobile_config.Screen.Bounds.{IsValid}
use mobile_config.Screen.Terminal.{lands_on, apply_draw, paint}
use mobile_config.Screen.Repaint.{Shows, frame-Shows}
use mobile_config.Screen.Vt.{Vt, between, vt_run, is_text}
use mobile_config.Screen.Wire.{pending, vt_run-append, text-Typed, go_to}

erase_line :
    (rows cols : ℕ) (w : Vt)
    → w.mode ≡ between
    → vt_run rows cols (esc (codes "K")) w
      ≡ record w { mode = between; shown = λ k. if k == w.row then w.written else w.shown k }
erase_line rows cols w e = ap (λ m. vt_run rows cols (esc (codes "K")) (record w { mode = m })) e

-- A drawing that changes no more than its rows.
abbrev pub IsPlain : ℕ → Draw → Type 0
IsPlain cols (row i a) = is_text a cols between ≡ true
IsPlain cols (below r) = Unit

-- What the terminal shows behind the bytes of a drawing.
record Drew (rows : ℕ) (shown : ℕ → Bytes) (w : Vt) : Type 0 where
  ready : w.mode ≡ between
  shows : (k : ℕ) → w.shown k ≡ shown k

apply_draw-same :
    (rows : ℕ) (d : Draw) (k : ℕ) (f g : ℕ → Bytes)
    → f k ≡ g k
    → apply_draw rows d f k ≡ apply_draw rows d g k
apply_draw-same rows (row i a) k f g e = ap (λ t. if k == lands_on rows i then a else t) e
apply_draw-same rows (below r) k f g e = ap (λ t. if leb (lands_on rows (r - 1)) k then [] else t) e

minus_zero : (n : ℕ) → n - 0 ≡ n
minus_zero n = omega arith

before_next : (i : ℕ) → i + 1 - 1 ≡ i
before_next i = omega arith

-- A text and the erasing of the rest, behind the address of their row.
typed-Drew :
    (rows cols i : ℕ) (a : Bytes) (sh : ℕ → Bytes)
    → is_text a cols between ≡ true
    → Drew rows (apply_draw rows (row i a) sh) (
        vt_run rows cols
          (a ++ esc (codes "K"))
          (record { mode = between; row = lands_on rows i; col = 0; written = []; shown = sh }))
unfolding pending
typed-Drew rows cols i a sh h =
    let fits : is_text a (cols - 0) between ≡ true =
      subst (λ l. is_text a l between ≡ true) (sym (minus_zero cols)) h in
    let t = text-Typed rows cols a between (lands_on rows i) 0 [] sh fits in
    let at = vt_run-append rows cols a (esc (codes "K")) _ ∙ erase_line rows cols _ t.ready in
    subst (Drew rows (apply_draw rows (row i a) sh)) (sym at) (record {
      ready = refl;
      shows = λ k. λ j. if k == t.same_row j then t.appended j else t.same_shown j k;
    })

encode-Drew :
    (rows cols : ℕ) (d : Draw) (v : Vt)
    → v.mode ≡ between
    → IsPlain cols d
    → Drew rows (apply_draw rows d v.shown) (vt_run rows cols (encode d) v)
unfolding encode
encode-Drew rows cols (row i a) v e h =
    let at =
      ap (λ m. vt_run rows cols (encode (row i a)) (record v { mode = m })) e
      ∙ (go_to rows cols (i + 1) (a ++ esc (codes "K")) v.row v.col v.written v.shown
          ∙ ap
              (λ n. vt_run rows cols (a ++ esc (codes "K")) (record {
                mode = between;
                row = lands_on rows n;
                col = 0;
                written = [];
                shown = v.shown;
              }))
              (before_next i)) in
    subst (Drew rows (apply_draw rows (row i a) v.shown)) (sym at)
      (typed-Drew rows cols i a v.shown h)
encode-Drew rows cols (below r) v e h =
    let at =
      ap (λ m. vt_run rows cols (encode (below r)) (record v { mode = m })) e
      ∙ go_to rows cols r (esc (codes "J")) v.row v.col v.written v.shown in
    subst (Drew rows (apply_draw rows (below r) v.shown)) (sym at)
      (record { ready = refl; shows = λ k. ground arith })

-- What is emitted, the oldest first.
obuf-Drew :
    (rows cols : ℕ) (buf : List Draw) (v : Vt)
    → v.mode ≡ between
    → All (IsPlain cols) buf
    → Drew rows (paint rows buf v.shown) (vt_run rows cols (obuf buf) v)
obuf-Drew rows cols [] v e h = record { ready = e; shows = λ k. refl }
obuf-Drew rows cols (d ∷ older) v e (h, a) =
    let o = obuf-Drew rows cols older v e a in
    let n = encode-Drew rows cols d (vt_run rows cols (obuf older) v) o.ready h in
    rw (vt_run-append rows cols (obuf older) (encode d) v) (record {
      ready = n.ready;
      shows = λ k. n.shows k ∙ apply_draw-same rows d k _ _ (o.shows k);
    })

module _ (cols : ℕ) where
  emit-IsPlain :
      (buf : List Draw) (d : Draw)
      → IsPlain cols d
      → All (IsPlain cols) buf
      → All (IsPlain cols) (emit buf d)
  unfolding emit
  emit-IsPlain buf d h a =
      let r = length (encode d) in
      if_ind (All (IsPlain cols)) (ltb 0 r && ltb r (obuf_size - total buf)) {x = d ∷ buf} (h, a) a

  -- Every row of a frame is a text that leaves the terminal's last column free.
  abbrev pub HasTexts : Screen → Type 0
  HasTexts s = (i : ℕ) → i ≤ s.n → is_text (s.line i) cols between ≡ true

  row_text-fits : (s : Screen) (i : ℕ) → HasTexts s → is_text (row_text s i) cols between ≡ true
  row_text-fits s i h = elim (Bool-cases (leb i s.n)) [
    | inl e ↦ rw e (h i (ground (arith, e)))
    | inr e ↦ rw e refl
  ]

  rows-IsPlain :
      (force : Bool) (cur prev : Screen) (left i : ℕ) (buf : List Draw)
      → HasTexts cur
      → All (IsPlain cols) buf
      → All (IsPlain cols) (draw_rows force cur prev left i buf)
  unfolding draw_rows draw_row
  rows-IsPlain force cur prev zero i buf h a = a
  rows-IsPlain force cur prev (suc left) i buf h a = rows-IsPlain force cur prev left (i + 1) _ h (
      if_ind (All (IsPlain cols)) (not force && streq (row_text cur i) (row_text prev i)) a
        (emit-IsPlain buf (row i (row_text cur i)) (row_text-fits cur i h) a))

  frame-IsPlain :
      (force : Bool) (rows : ℕ) (cur prev : Screen)
      → HasTexts cur
      → All (IsPlain cols) (frame force rows cur prev)
  unfolding frame draw_below
  frame-IsPlain force rows cur prev h =
      let above = rows-IsPlain force cur prev (rounds rows cur prev) 0 [] h tt in
      if_ind (All (IsPlain cols)) ((force || ltb cur.n prev.n) && leb (cur.n + 2) rows)
        (emit-IsPlain _ (below (cur.n + 2)) tt above) above

-- A terminal of at most 127 rows that is fed the bytes that `render` writes, from between two control
-- sequences, shows the new frame in every row, blank rows included, and stands between two sequences
-- again, if both frames are valid, every row of the new one is a text that prints bytes from the space
-- on and changes colours only and is narrower than the terminal, and either the repaint is forced, whatever was shown
-- before, or the terminal showed the previous frame.
pub render-Shows :
    (force : Bool) (d : Display) (v : Vt)
    → IsValid d.cur
    → IsValid d.prev
    → d.screen_rows ≤ 127
    → HasTexts d.screen_cols d.cur
    → v.mode ≡ between
    → (force ≡ true) ⊎ Shows d.screen_rows v.shown d.prev
    → let w = vt_run d.screen_rows d.screen_cols (render force d).1 v in
      Shows d.screen_rows w.shown d.cur × (w.mode ≡ between)
unfolding render
render-Shows force d v valid valid' few texts ready known =
    let buf = frame force d.screen_rows d.cur d.prev in
    let o =
      obuf-Drew d.screen_rows d.screen_cols buf v ready
        (frame-IsPlain d.screen_cols force d.screen_rows d.cur d.prev texts) in
    (
      λ k h.
          o.shows k
          ∙ frame-Shows force d.screen_rows d.cur d.prev v.shown valid valid' few known k h,
      o.ready,
    )
