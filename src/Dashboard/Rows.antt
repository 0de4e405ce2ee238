-- ===== src/Dashboard/Rows.antt =====
-- The rows of the logo, and the padding above the tagline.
use mobile_config.Base.{
  ℕ, zero, suc, ◌+◌, ◌-◌, ◌≤◌, ◌<◌, ◌≡◌, ◌≢◌, refl, sym, ◌∙◌, ap, true, false, [], ◌∷◌, ◌++◌, ltb,
  leb, ◌==◌, lt→ltb, ltb→lt, arith, length, length-append, All-append, take_all, Bool, not, ◌&&◌,
  append_assoc, append-nil, replicate, All, if◌then◌else◌, ℤ, Bool-cases, inl, inr, none, some,
}
use mobile_config.Libc.{Bytes}
use mobile_config.Screen.{Screen, out, out_bytes, out_byte, rst, dim}
use mobile_config.Screen.Bounds.{IsValid, out-IsValid}
use mobile_config.Dashboard.Logo.{ramp_byte, row_from, logo_row, pad_down, tag_left, tag, tagline}

-- A printable byte that is not the space.
abbrev pub IsGraphic : ℕ → Type 0
IsGraphic c = (33 ≤ c) × (c ≤ 126)

ramp_byte-IsGraphic : (offset : ℤ) (c : ℕ) → IsGraphic (ramp_byte offset c)
unfolding ramp_byte
ramp_byte-IsGraphic offset c = ground arith

row_from-IsGraphic : (left c : ℕ) (offset : ℤ) → All IsGraphic (row_from left c offset)
unfolding row_from
row_from-IsGraphic zero c offset = tt
row_from-IsGraphic (suc left) c offset =
    (ramp_byte-IsGraphic offset c, row_from-IsGraphic left (c + 1) offset)

length-row_from : (left c : ℕ) (offset : ℤ) → length (row_from left c offset) ≡ left
unfolding row_from
length-row_from zero c offset = refl
length-row_from (suc left) c offset = ap suc (length-row_from left (c + 1) offset)

-- A row of the logo is as wide as asked for and holds printable bytes only, however far the
-- animation has scrolled it in either direction.
pub logo_row-IsGraphic :
    (width : ℕ) (offset : ℤ)
    → (length (logo_row width offset) ≡ width) × All IsGraphic (logo_row width offset)
unfolding logo_row
logo_row-IsGraphic width offset =
    (length-row_from width 0 offset, row_from-IsGraphic width 0 offset)

-- A newline goes to the next row, and stays where it is on the last one.
out_newline : (s : Screen) → (out s (b'\n' ∷ [])).n ≡ (if ltb (s.n + 1) 128 then s.n + 1 else s.n)
unfolding out out_bytes out_byte
out_newline s = ground arith

-- The lines behind the padding of `s` to `rows` rows, and the row that it ends on.
record Padded (rows : ℕ) (s t : Screen) : Type 0 where
  last_row : t.n ≡ rows - 1
  blank : (k : ℕ) → k < rows → t.line k ≡ (if leb k s.n then s.line k else [])

newline-Padded :
    (rows : ℕ) (s t : Screen) → s.n + 1 < 128 → Padded rows (out s (b'\n' ∷ [])) t → Padded rows s t
unfolding out out_bytes out_byte
newline-Padded rows s t h p = record {
  last_row = p.last_row;
  blank = λ k lt. ground (arith, p.blank k lt);
}

-- The loop ends, if it has a round for each row that is left.
pad_down-Padded :
    (rounds rows : ℕ) (s : Screen)
    → s.n < rows
    → rows ≤ 128
    → rows ≤ s.n + rounds + 1
    → (t : Screen) × (pad_down rounds rows s ≡ some t) × Padded rows s t
unfolding pad_down
pad_down-Padded zero rows s h few enough =
    let ended : ltb s.n (rows - 1) ≡ false = ground arith in
    (s, rw ended refl, record { last_row = omega arith; blank = λ k lt. ground arith })
pad_down-Padded (suc rounds) rows s h few enough =
    let next = out_newline s in
    elim (Bool-cases (ltb s.n (rows - 1))) [
      | inl e ↦
          let (t, ends, p) =
            pad_down-Padded rounds rows (out s (b'\n' ∷ [])) (ground (arith, next)) few
              (ground (arith, next)) in
          (t, rw e ends, newline-Padded rows s t (ground arith) p)
      | inr e ↦ (s, rw e refl, record { last_row = ground arith; blank = λ k lt. ground arith })
    ]

-- A frame that reaches below the terminal is not padded.
below_ends : (rounds rows : ℕ) (s : Screen) → rows ≤ s.n → pad_down rounds rows s ≡ some s
unfolding pad_down
below_ends zero rows s h = ground arith
below_ends (suc rounds) rows s h = ground arith

-- On a terminal of at most 128 rows the loop ends from every frame.
pad_down-some :
    (rows : ℕ) (s : Screen) → rows ≤ 128 → (t : Screen) × (pad_down rows rows s ≡ some t)
pad_down-some rows s few = elim (Bool-cases (ltb s.n rows)) [
  | inl e ↦
      let (t, ends, p) = pad_down-Padded rows rows s (ltb→lt _ _ e) few (omega arith) in (t, ends)
  | inr e ↦ (s, below_ends rows rows s (ground arith))
]

pub tagline-some :
    (rows cols : ℕ) (s : Screen) → rows ≤ 128 → (t : Screen) × (tagline rows cols s ≡ some t)
unfolding tagline
tagline-some rows cols s few =
    let (t, e) = pad_down-some rows s few in
    (out t (replicate (tag_left cols) 32 ++ (dim ++ (tag ++ (rst ++ b'\n' ∷ [])))), rw e refl)

out_bytes-append : (a b : Bytes) (s : Screen) → out_bytes s (a ++ b) ≡ out_bytes (out_bytes s a) b
unfolding out_bytes
out_bytes-append [] b s = refl
out_bytes-append (c ∷ a) b s = out_bytes-append a b (out_byte s c)

-- A text without a newline that fits goes to the end of the row.
record Written (text : Bytes) (s t : Screen) : Type 0 where
  same_row : t.n ≡ s.n
  at_row : t.line s.n ≡ s.line s.n ++ text
  elsewhere : (k : ℕ) → k ≢ s.n → t.line k ≡ s.line k

out_byte-Written :
    (c : ℕ) (s : Screen)
    → c ≢ b'\n'
    → length (s.line s.n) + 2 < 2048
    → Written (c ∷ []) s (out_byte s c)
unfolding out_byte
out_byte-Written c s h fits = record {
  same_row = ground arith;
  at_row = ground arith;
  elsewhere = λ k ne. ground arith;
}

out_bytes-Written :
    (text : Bytes) (s : Screen)
    → All (λ c. c ≢ b'\n') text
    → length (s.line s.n) + length text + 1 < 2048
    → Written text s (out_bytes s text)
unfolding out_bytes
out_bytes-Written [] s a fits = record {
  same_row = refl;
  at_row = sym (append-nil _);
  elsewhere = λ k ne. refl;
}
out_bytes-Written (c ∷ text) s (h, a) fits =
    let w = out_byte-Written c s h (omega (arith, fits)) in
    let row : (out_byte s c).line (out_byte s c).n ≡ s.line s.n ++ c ∷ [] =
      ap (out_byte s c).line w.same_row ∙ w.at_row in
    let r =
      out_bytes-Written text (out_byte s c) a
        (omega (arith, fits, ap length row, length-append (s.line s.n) (c ∷ []))) in
    record {
      same_row = r.same_row ∙ w.same_row;
      at_row =
          ap (out_bytes (out_byte s c) text).line (sym w.same_row)
          ∙ (r.at_row ∙ (ap (λ l. l ++ text) row ∙ append_assoc (s.line s.n) (c ∷ []) text));
      elsewhere = λ k ne. r.elsewhere k (λ e. ne (e ∙ w.same_row)) ∙ w.elsewhere k ne;
    }

-- The tag line without its newline.
abbrev pub tag_text : ℕ → Bytes
tag_text cols = replicate (tag_left cols) 32 ++ (dim ++ (tag ++ rst))

-- What stands in row `k` behind `tagline`: the frame, blank rows below it, and the tag line last.
abbrev pub tagged : ℕ → ℕ → Screen → ℕ → Bytes
tagged rows cols s k = if leb k s.n then s.line k else if k == rows - 1 then tag_text cols else []

is_plain : Bytes → Bool
is_plain [] = true
is_plain (c ∷ text) = not (c == b'\n') && is_plain text

plain-All : (text : Bytes) → is_plain text ≡ true → All (λ c. c ≢ b'\n') text
unfolding is_plain
plain-All [] h = tt
plain-All (c ∷ text) h = (ground (arith, h), plain-All text (ground (arith, h)))

spaces_plain : (n : ℕ) → All (λ (c : ℕ). c ≢ b'\n') (replicate {A = ℕ} n 32)
spaces_plain zero = tt
spaces_plain (suc n) = (omega arith, spaces_plain n)

tag_text_plain : (cols : ℕ) → All (λ c. c ≢ b'\n') (tag_text cols)
unfolding tag is_plain
tag_text_plain cols =
    All-append (λ c. c ≢ b'\n') (replicate (tag_left cols) 32) (dim ++ (tag ++ rst))
      (spaces_plain (tag_left cols)) (plain-All (dim ++ (tag ++ rst)) refl)

length-spaces : (n : ℕ) → length (replicate {A = ℕ} n 32) ≡ n
length-spaces zero = refl
length-spaces (suc n) = ap suc (length-spaces n)

tag_left-le : (cols : ℕ) → cols ≤ 4000 → tag_left cols ≤ 1980
unfolding tag_left tag
tag_left-le cols h = ground arith

length-tag_text : (cols : ℕ) → cols ≤ 4000 → length (tag_text cols) ≤ 2029
unfolding tag
length-tag_text cols h = omega (
  arith,
  tag_left-le cols h,
  length-spaces (tag_left cols),
  length-append (replicate (tag_left cols) 32) (dim ++ (tag ++ rst)),
)

out_byte-newline : (s : Screen) (k : ℕ) → k ≤ s.n → (out_byte s b'\n').line k ≡ s.line k
unfolding out_byte
out_byte-newline s k h = ground arith

Written-line :
    (text : Bytes) (s t : Screen) (k : ℕ)
    → Written text s t
    → s.line s.n ≡ []
    → t.line k ≡ (if k == s.n then text else s.line k)
Written-line text s t k w empty = elim (Bool-cases (k == s.n)) [
  | inl e ↦
      let at : k ≡ s.n = ground (arith, e) in
      rw e (ap t.line at ∙ (w.at_row ∙ ap (λ l. l ++ text) empty))
  | inr e ↦ rw e (w.elsewhere k (ground (arith, e)))
]

-- A line that fits is written on an empty row, and the rows above stay.
out-line :
    (text : Bytes) (s : Screen) (k : ℕ)
    → All (λ c. c ≢ b'\n') text
    → length text ≤ 2029
    → s.line s.n ≡ []
    → k ≤ s.n
    → (out s (text ++ b'\n' ∷ [])).line k ≡ (if k == s.n then text else s.line k)
unfolding out out_bytes
out-line text s k plain fits empty le =
    let whole =
      take_all 4095 (text ++ b'\n' ∷ []) (omega (arith, fits, length-append text (b'\n' ∷ []))) in
    let w = out_bytes-Written text s plain (omega (arith, fits, ap length empty)) in
    let same = w.same_row in
    rw (whole, out_bytes-append text (b'\n' ∷ []) s)
      (out_byte-newline (out_bytes s text) k (omega (arith, same, le))
        ∙ Written-line text s (out_bytes s text) k w empty)

tag_text_line :
    (cols : ℕ)
    → replicate (tag_left cols) 32 ++ (dim ++ (tag ++ (rst ++ b'\n' ∷ [])))
      ≡ tag_text cols ++ b'\n' ∷ []
tag_text_line cols =
    ap (λ u. replicate (tag_left cols) 32 ++ (dim ++ u)) (sym (append_assoc tag rst (b'\n' ∷ [])))
    ∙ sym (append_assoc (replicate (tag_left cols) 32) (dim ++ (tag ++ rst)) (b'\n' ∷ []))

tagged_row :
    (rows cols : ℕ) (s p : Screen) (k : ℕ)
    → k < rows
    → p.n ≡ rows - 1
    → p.line k ≡ (if leb k s.n then s.line k else [])
    → s.n + 1 < rows
    → (if k == p.n then tag_text cols else p.line k) ≡ tagged rows cols s k
tagged_row rows cols s p k lt last blank h = ground (arith, last, blank)

-- On a terminal of at most 128 rows and 4000 columns the tagline's loop ends from every frame that ends
-- above the last row, and the tag line then stands on the last row, behind the spaces that centre it;
-- the rows of the frame are as they were, and those between are blank.
pub pad_down_ends :
    (rows cols : ℕ) (s : Screen)
    → s.n + 1 < rows
    → rows ≤ 128
    → cols ≤ 4000
    → (t : Screen) × (tagline rows cols s ≡ some t)
      × ((k : ℕ) → k < rows → t.line k ≡ tagged rows cols s k)
unfolding tagline
pad_down_ends rows cols s h few narrow =
    let (p, ends, pad) = pad_down-Padded rows rows s (omega arith) few (omega arith) in
    let last = pad.last_row in
    let empty : p.line p.n ≡ [] =
      ap p.line last ∙ (pad.blank (rows - 1) (omega arith) ∙ ground arith) in
    (
      out p (tag_text cols ++ b'\n' ∷ []),
      rw (ends, tag_text_line cols) refl,
      λ k lt.
          out-line (tag_text cols) p k (tag_text_plain cols) (length-tag_text cols narrow) empty
            (omega arith)
          ∙ tagged_row rows cols s p k lt last (pad.blank k lt) h,
    )

-- On a terminal of more than 128 rows the loop of the tagline never ends: after any number of rounds,
-- from a valid frame, its condition still holds.
pub pad_down_hangs :
    (rounds rows : ℕ) (s : Screen) → IsValid s → 128 < rows → pad_down rounds rows s ≡ none
unfolding pad_down
pad_down_hangs zero rows s v many = rw (lt→ltb s.n (rows - 1) (omega (arith, v.row_fits))) refl
pad_down_hangs (suc rounds) rows s v many =
    rw (lt→ltb s.n (rows - 1) (omega (arith, v.row_fits)))
      (pad_down_hangs rounds rows (out s (b'\n' ∷ [])) (out-IsValid s (b'\n' ∷ []) v) many)
