-- ===== src/Screen/Wire.antt =====
-- What a terminal does with the parts of a drawing: an address, and the text of a row.
use mobile_config.Base.{
  ℕ, ◌+◌, ◌-◌, ◌*◌, ◌≡◌, refl, sym, ap, subst, ◌∙◌, inl, inr, true, false, [], ◌∷◌, ◌++◌, arith,
  ltb, ◌==◌, take, Bool-cases, All, append_assoc, append-nil,
}
use mobile_config.Libc.{Bytes, codes, dec, scan_digits}
use mobile_config.Libc.RoundTrip.{IsDigit, All-dec, scan-dec}
use mobile_config.Screen.{esc}
use mobile_config.Screen.Terminal.{lands_on}
use mobile_config.Screen.Vt.{
  Mode, between, escaped, in_csi, Vt, address, ends_csi, vt_step, vt_run, is_text,
}

pub vt_run-append :
    (rows cols : ℕ) (a b : Bytes) (v : Vt)
    → vt_run rows cols (a ++ b) v ≡ vt_run rows cols b (vt_run rows cols a v)
vt_run-append rows cols [] b v = refl
vt_run-append rows cols (c ∷ a) b v = vt_run-append rows cols a b (vt_step v.mode rows cols c v)

-- What a sequence that is not at its end has taken.
unfoldable pub pending : Mode → Bytes
pending between = []
pending escaped = 27 ∷ []
pending (in_csi ps) = 27 ∷ b'[' ∷ ps

-- The terminal behind a text: nothing but the text was written, in the row of the cursor.
pub record Typed (text : Bytes) (v w : Vt) : Type 0 where
  pub ready : w.mode ≡ between
  pub same_row : w.row ≡ v.row
  pub same_shown : w.shown ≡ v.shown
  pub appended : w.written ≡ v.written ++ (pending v.mode ++ text)

more-Typed :
    (c : ℕ) (s : Bytes) {v v' w : Vt}
    → v'.row ≡ v.row
    → v'.shown ≡ v.shown
    → v'.written ++ (pending v'.mode ++ s) ≡ v.written ++ (pending v.mode ++ c ∷ s)
    → Typed s v' w
    → Typed (c ∷ s) v w
more-Typed c s a b e t = record {
  ready = t.ready;
  same_row = t.same_row ∙ a;
  same_shown = t.same_shown ∙ b;
  appended = t.appended ∙ e;
}

rest_eq : (cols n : ℕ) → cols - n - 1 ≡ cols - (n + 1)
rest_eq cols n = omega arith

pub text-Typed :
    (rows cols : ℕ) (s : Bytes) (m : Mode) (r n : ℕ) (w : Bytes) (sh : ℕ → Bytes)
    → is_text s (cols - n) m ≡ true
    → Typed s
        (record { mode = m; row = r; col = n; written = w; shown = sh })
        (vt_run rows cols s (record { mode = m; row = r; col = n; written = w; shown = sh }))
unfolding pending
text-Typed rows cols [] between r n w sh h = record {
  ready = refl;
  same_row = refl;
  same_shown = refl;
  appended = sym (append-nil w);
}
text-Typed rows cols [] escaped r n w sh h = absurd (ground arith)
text-Typed rows cols [] (in_csi ps) r n w sh h = absurd (ground arith)
text-Typed rows cols (c ∷ s) between r n w sh h = elim (Bool-cases (c == 27)) [
  | inl e ↦
      let at : c ≡ 27 = ground (arith, e) in
      rw e (
        more-Typed c s refl refl (ap (λ b. w ++ b ∷ s) (sym at))
          (text-Typed rows cols s escaped r n w sh (ground (arith, h, e))))
  | inr e ↦
      let room : ltb (n + 1) cols ≡ true = ground (arith, h, e) in
      rw (e, room)
        (more-Typed c s refl refl (append_assoc w (c ∷ []) s) (
          text-Typed rows cols s between r (n + 1) (w ++ c ∷ []) sh
            (subst (λ l. is_text s l between ≡ true) (rest_eq cols n) (ground (arith, h, e)))))
]
text-Typed rows cols (c ∷ s) escaped r n w sh h =
    let e : (c == b'[') ≡ true = ground (arith, h) in
    let at : c ≡ b'[' = ground (arith, e) in
    rw e (
      more-Typed c s refl refl (ap (λ b. w ++ 27 ∷ b ∷ s) (sym at))
        (text-Typed rows cols s (in_csi []) r n w sh (ground (arith, h, e))))
text-Typed rows cols (c ∷ s) (in_csi ps) r n w sh h = elim (Bool-cases (ends_csi c)) [
  | inl e ↦
      let m : (c == b'm') ≡ true = ground (arith, h, e) in
      let at : c ≡ b'm' = ground (arith, m) in
      rw at (
        more-Typed b'm' s refl refl
          (append_assoc w ((27 ∷ b'[' ∷ ps) ++ b'm' ∷ []) s
            ∙ ap (λ t. w ++ 27 ∷ b'[' ∷ t) (append_assoc ps (b'm' ∷ []) s))
          (text-Typed rows cols s between r n (w ++ ((27 ∷ b'[' ∷ ps) ++ b'm' ∷ [])) sh
            (ground (arith, h, e, m))))
  | inr e ↦ rw e (
      more-Typed c s refl refl (ap (λ t. w ++ 27 ∷ b'[' ∷ t) (append_assoc ps (c ∷ []) s))
        (text-Typed rows cols s (in_csi (ps ++ c ∷ [])) r n w sh (ground (arith, h, e))))
]

-- Parameters are kept until the byte that ends the sequence.
csi-params :
    (rows cols : ℕ) (ps rest acc : Bytes) (r n : ℕ) (w : Bytes) (sh : ℕ → Bytes)
    → All (λ c. ends_csi c ≡ false) ps
    → vt_run rows cols
        (ps ++ rest)
        (record { mode = in_csi acc; row = r; col = n; written = w; shown = sh })
      ≡ vt_run rows cols rest
          (record { mode = in_csi (acc ++ ps); row = r; col = n; written = w; shown = sh })
csi-params rows cols [] rest acc r n w sh h =
    ap
      (λ ps.
        vt_run rows cols rest
          (record { mode = in_csi ps; row = r; col = n; written = w; shown = sh }))
      (sym (append-nil acc))
csi-params rows cols (c ∷ ps) rest acc r n w sh (e, h) =
    rw (e, vt_run)
      (csi-params rows cols ps rest (acc ++ c ∷ []) r n w sh h
        ∙ ap
            (λ ps.
              vt_run rows cols rest
                (record { mode = in_csi ps; row = r; col = n; written = w; shown = sh }))
            (append_assoc acc (c ∷ []) ps))

address-digits :
    (ds : Bytes) (n : ℕ) → All IsDigit ds → address (ds ++ codes ";1") n ≡ (scan_digits ds n, 1)
address-digits [] n h = refl
address-digits (c ∷ ds) n (d, h) =
    let apart : (c == b';') ≡ false = ground (arith, d) in
    rw (apart, d) (address-digits ds (n * 10 + (c - b'0')) h)

params-end : (ds : Bytes) → All IsDigit ds → All (λ c. ends_csi c ≡ false) (ds ++ codes ";1")
params-end [] h = (refl, (refl, tt))
params-end (c ∷ ds) (d, h) = (ground (arith, d), params-end ds h)

-- The bytes that put the cursor on a row.
pub go_to :
    (rows cols r : ℕ) (rest : Bytes) (i n : ℕ) (w : Bytes) (sh : ℕ → Bytes)
    → vt_run rows cols
        (esc (dec r ++ (codes ";1H" ++ rest)))
        (record { mode = between; row = i; col = n; written = w; shown = sh })
      ≡ vt_run rows cols rest (record {
        mode = between;
        row = lands_on rows (r - 1);
        col = 0;
        written = [];
        shown = sh;
      })
go_to rows cols r rest i n w sh =
    let ps = dec r ++ codes ";1" in
    let to : address ps 0 ≡ (r, 1) =
      address-digits (dec r) 0 (All-dec r) ∙ ap (λ n. (n, 1)) (scan-dec r) in
    ap
      (λ s.
        vt_run rows cols s (record { mode = in_csi []; row = i; col = n; written = w; shown = sh }))
      (sym (append_assoc (dec r) (codes ";1") (b'H' ∷ rest)))
    ∙ (csi-params rows cols ps (b'H' ∷ rest) [] i n w sh (params-end (dec r) (All-dec r))
        ∙ ap {A = ℕ × ℕ}
            (λ to. vt_run rows cols rest (record {
              mode = between;
              row = lands_on rows (to.0 - 1);
              col = to.1 - 1;
              written = take (to.1 - 1) (sh (lands_on rows (to.0 - 1)));
              shown = sh;
            }))
            to)
