-- ===== src/Screen/Repaint.antt =====
-- Redrawing only the rows that changed shows the whole new frame.
use mobile_config.Base.{
  ℕ, zero, suc, ◌+◌, ◌*◌, ◌≤◌, ◌<◌, ◌≡◌, refl, ◌∙◌, ◌⊎◌, inl, inr, Bool, true, false, not, ◌&&◌,
  ◌||◌, List, [], ◌∷◌, ◌++◌, arith, length, length-append, Bool-cases, ltb, leb,
}
use native.Mathlib.Decide.{dec_lt}
use mobile_config.Libc.{Bytes, codes, streq, streq→eq, dec}
use mobile_config.Libc.RoundTrip.{length-dec}
use mobile_config.Screen.{
  Screen, Draw, row, below, encode, esc, total, emit, row_text, draw_row, draw_rows, rounds,
  draw_below, frame,
}
use mobile_config.Screen.Bounds.{IsValid}
use mobile_config.Screen.Terminal.{paint}

-- No row takes more than this in the output buffer.
abbrev row_room : ℕ
row_room = 2057

length-row :
    (i : ℕ) (a : Bytes) → i < 128 → length a + 2 ≤ 2048 → length (encode (row i a)) ≤ row_room
unfolding encode
length-row i a h fits = omega (
  arith,
  length-dec (i + 1) 2 (omega arith),
  length-append (dec (i + 1)) (codes ";1H" ++ (a ++ esc (codes "K"))),
  length-append a (esc (codes "K")),
)

length-below : (r : ℕ) → r < 1000 → length (encode (below r)) ≤ 11
unfolding encode
length-below r h =
    omega
      (arith, length-dec r 2 (omega arith), length-append (dec r) (codes ";1H" ++ esc (codes "J")))

encode-pos : (d : Draw) → 0 < length (encode d)
unfolding encode
encode-pos (row i a) = omega arith
encode-pos (below r) = omega arith

-- What has room is emitted.
emit-room :
    (buf : List Draw) (d : Draw) → total buf + length (encode d) < 262144 → emit buf d ≡ d ∷ buf
unfolding emit
emit-room buf d h = ground (arith, encode-pos d)

row_text-fits : (s : Screen) (i : ℕ) → IsValid s → length (row_text s i) + 2 ≤ 2048
row_text-fits s i v = ground (arith, v.line_fits i)

-- The terminal shows a frame.
abbrev pub Shows : ℕ → (ℕ → Bytes) → Screen → Type 0
Shows screen_rows shown s = (k : ℕ) → k < screen_rows → shown k ≡ row_text s k

module _ (force : Bool) (screen_rows : ℕ) (cur prev : Screen) (shown : ℕ → Bytes) (v : IsValid cur)
    (w : IsValid prev) (few : screen_rows ≤ 127)
    (known : (force ≡ true) ⊎ Shows screen_rows shown prev) where
  -- The rows above `i` are drawn and the rest is as it was, within the room for `i` rows.
  record Drawn (i : ℕ) (buf : List Draw) : Type 0 where
    room : total buf ≤ row_room * i
    above : (k : ℕ) → k < i → k < screen_rows → paint screen_rows buf shown k ≡ row_text cur k
    rest : (k : ℕ) → i ≤ k → k < screen_rows → paint screen_rows buf shown k ≡ shown k

  -- A row that is skipped is already shown.
  skipped :
      (i : ℕ)
      → i < screen_rows
      → not force && streq (row_text cur i) (row_text prev i) ≡ true
      → shown i ≡ row_text cur i
  skipped i h e = ground (arith, streq→eq (row_text cur i) (row_text prev i), at i h)
    where
      at : (i : ℕ) → i < screen_rows → (force ≡ true) ⊎ (shown i ≡ row_text prev i)
      at i h = elim known [ inl f ↦ inl f | inr s ↦ inr (s i h) ]

  skip-Drawn :
      (i : ℕ) (buf : List Draw)
      → i < screen_rows
      → Drawn i buf
      → not force && streq (row_text cur i) (row_text prev i) ≡ true
      → Drawn (i + 1) buf
  skip-Drawn i buf h d e = record {
    room = omega (arith, d.room);
    above = λ k lt ks. elim (dec_lt k i) [
      | yes p ↦ d.above k p ks
      | no p ↦ let at : k ≡ i = omega arith in rw at (d.rest i (omega arith) h ∙ skipped i h e)
    ];
    rest = λ k le ks. d.rest k (omega arith) ks;
  }

  emit-Drawn :
      (i : ℕ) (buf : List Draw)
      → i < screen_rows
      → Drawn i buf
      → Drawn (i + 1) (emit buf (row i (row_text cur i)))
  emit-Drawn i buf h d =
      rw
        (emit-room buf (row i (row_text cur i)) (
          omega
            (arith, d.room, length-row i (row_text cur i) (omega arith) (row_text-fits cur i v))))
        (record {
          room =
              omega (
                arith,
                d.room,
                length-row i (row_text cur i) (omega arith) (row_text-fits cur i v),
              );
          above = λ k lt ks. ground (arith, d.above k);
          rest = λ k le ks. ground (arith, d.rest k);
        })

  row-Drawn :
      (i : ℕ) (buf : List Draw)
      → i < screen_rows
      → Drawn i buf
      → Drawn (i + 1) (draw_row force cur prev i buf)
  unfolding draw_row
  row-Drawn i buf h d = elim (Bool-cases (not force && streq (row_text cur i) (row_text prev i))) [
    | inl e ↦ rw (e, draw_row) (skip-Drawn i buf h d e)
    | inr e ↦ rw (e, draw_row) (emit-Drawn i buf h d)
  ]

  rows-Drawn :
      (left i j : ℕ) (buf : List Draw)
      → i + left ≡ j
      → j ≤ screen_rows
      → Drawn i buf
      → Drawn j (draw_rows force cur prev left i buf)
  unfolding draw_rows
  rows-Drawn zero i j buf e h d = let at : i ≡ j = omega arith in rw (← at) d
  rows-Drawn (suc left) i j buf e h d =
      rows-Drawn left (i + 1) j (draw_row force cur prev i buf) (omega arith) h
        (row-Drawn i buf (omega arith) d)

  start-Drawn : Drawn 0 []
  start-Drawn = record {
    room = omega arith;
    above = λ k lt ks. absurd (omega arith);
    rest = λ k le ks. refl;
  }

  -- Every row of the terminal is in the loop, or is blank in both frames.
  rounds_reach :
      (k : ℕ) → k < screen_rows → (k < rounds screen_rows cur prev) ⊎ ((cur.n < k) × (prev.n < k))
  unfolding rounds
  rounds_reach k h = ground arith

  rounds-le : rounds screen_rows cur prev ≤ screen_rows
  unfolding rounds
  rounds-le = ground arith

  drawn :
      Drawn
        (rounds screen_rows cur prev)
        (draw_rows force cur prev (rounds screen_rows cur prev) 0 [])
  drawn =
      rows-Drawn (rounds screen_rows cur prev) 0 (rounds screen_rows cur prev) [] (omega arith)
        rounds-le start-Drawn

  -- The rows that the loop leaves alone are blank in the new frame.
  loop_shows :
      (k : ℕ) (buf : List Draw)
      → Drawn (rounds screen_rows cur prev) buf
      → k < screen_rows
      → (k ≤ cur.n) ⊎ (force ≡ false)
      → paint screen_rows buf shown k ≡ row_text cur k
  loop_shows k buf d h why = elim (rounds_reach k h) [
    | inl p ↦ d.above k p h
    | inr q ↦ elim (dec_lt k (rounds screen_rows cur prev)) [
      | yes p ↦ d.above k p h
      | no p ↦ d.rest k (omega arith) h ∙ blank why q
    ]
  ]
    where
      blank : (k ≤ cur.n) ⊎ (force ≡ false) → (cur.n < k) × (prev.n < k) → shown k ≡ row_text cur k
      blank (inl le) q = absurd (omega arith)
      blank (inr f) q = elim known [ inl t ↦ absurd (clash f t) | inr s ↦ s k h ∙ ground arith ]
        where
          clash : force ≡ false → force ≡ true → ⊥
          clash f t = cc

  below-Shows :
      (buf : List Draw)
      → Drawn (rounds screen_rows cur prev) buf
      → Shows screen_rows (paint screen_rows (draw_below force screen_rows cur prev buf) shown) cur
  unfolding draw_below
  below-Shows buf d k h =
      elim (Bool-cases ((force || ltb cur.n prev.n) && leb (cur.n + 2) screen_rows)) [
        | inl e ↦
            rw (e, draw_below)
              (rw
                (emit-room buf (below (cur.n + 2)) (
                  omega (
                    arith,
                    d.room,
                    rounds-le,
                    length-below (cur.n + 2) (omega (arith, v.row_fits)),
                  )))
                (erased (ground arith)))
        | inr e ↦ rw (e, draw_below) (loop_shows k buf d h (ground arith))
      ]
    where
      erased :
          cur.n + 2 ≤ screen_rows
          → paint screen_rows (below (cur.n + 2) ∷ buf) shown k ≡ row_text cur k
      erased le = elim (dec_lt cur.n k) [
        | yes p ↦ ground arith
        | no p ↦ ground (arith, loop_shows k buf d h (inl (omega arith)))
      ]

-- What `render` emits paints the new frame on a terminal of at most 127 rows, blank rows included, if
-- both frames are valid, and either the repaint is forced, whatever was painted before, or the previous
-- frame was. Nothing of the frame is lost to the output buffer.
pub frame-Shows :
    (force : Bool) (screen_rows : ℕ) (cur prev : Screen) (shown : ℕ → Bytes)
    → IsValid cur
    → IsValid prev
    → screen_rows ≤ 127
    → (force ≡ true) ⊎ Shows screen_rows shown prev
    → Shows screen_rows (paint screen_rows (frame force screen_rows cur prev) shown) cur
unfolding frame
frame-Shows force screen_rows cur prev shown v w few known =
    below-Shows force screen_rows cur prev shown v w few known _
      (drawn force screen_rows cur prev shown v w few known)
