-- ===== src/Net/Words.antt =====
-- Words, numbers and separators of a line, as the conversions of `sscanf` and `strrchr` take them apart.
use mobile_config.Base.{
  ℕ, zero, suc, ◌≡◌, refl, ◌∙◌, ap, ◌<◌, ◌≤◌, true, false, [], ◌∷◌, ◌++◌, ◌==◌, some, none, length,
  replicate, All, arith, ℤ,
}
use mobile_config.Libc.{
  Bytes, is_space, is_digit, skip_spaces, starts_digit, signed, scan_ll, scan_word, take_word,
  after_sign, skip_digits, split_last,
}
use mobile_config.Libc.RoundTrip.{IsDigit}

abbrev pub IsWordByte : ℕ → Type 0
IsWordByte c = is_space c ≡ false

pub take_word-All :
    (w : ℕ) (text more : Bytes)
    → All IsWordByte text
    → length text ≤ w
    → take_word w (text ++ 32 ∷ more) ≡ (text, 32 ∷ more)
take_word-All zero [] more a h = refl
take_word-All zero (c ∷ text) more a h = absurd (omega (arith, h))
take_word-All (suc w) [] more a h = refl
take_word-All (suc w) (c ∷ text) more a h =
    rw (take_word-All w text more a.1 (omega (arith, h)), a.0) refl

pub scan_word-All :
    (text more : Bytes)
    → All IsWordByte text
    → 0 < length text
    → length text ≤ 127
    → scan_word 127 (32 ∷ (text ++ 32 ∷ more)) ≡ some (text, 32 ∷ more)
unfolding scan_word
scan_word-All [] more a z h = absurd (omega (arith, z))
scan_word-All (c ∷ text) more a z h = rw a.0 (ap some (take_word-All 127 (c ∷ text) more a h))

abbrev pub NoColon : ℕ → Type 0
NoColon c = (c == b':') ≡ false

pub split_last-none : (s : Bytes) → All NoColon s → split_last b':' s ≡ none
split_last-none [] a = refl
split_last-none (c ∷ s) a = rw (split_last-none s a.1, a.0) refl

pub split_last-colon :
    (xs ys : Bytes) → All NoColon ys → split_last b':' (xs ++ b':' ∷ ys) ≡ some (xs, ys)
split_last-colon [] ys a = rw (split_last-none ys a) refl
split_last-colon (x ∷ xs) ys a = rw (split_last-colon xs ys a) refl

pub skip_digits-All :
    (ds more : Bytes) → All IsDigit ds → skip_digits (ds ++ b':' ∷ more) ≡ b':' ∷ more
skip_digits-All [] more a = refl
skip_digits-All (d ∷ ds) more a = rw a.0 (skip_digits-All ds more a.1)

pub skip_spaces-pad : (k : ℕ) (s : Bytes) → skip_spaces (replicate k 32 ++ s) ≡ skip_spaces s
skip_spaces-pad zero s = refl
skip_spaces-pad (suc k) s = skip_spaces-pad k s

pub scan_ll_from :
    (s t : Bytes)
    → skip_spaces s ≡ t
    → after_sign t ≡ t
    → starts_digit t ≡ true
    → scan_ll s ≡ some ((signed t).value, skip_digits t)
unfolding scan_ll
scan_ll_from s t e sign starts = rw (e, sign, starts) refl

pub after_sign-digit : (d : ℕ) (s : Bytes) → is_digit d ≡ true → after_sign (d ∷ s) ≡ d ∷ s
after_sign-digit d s h = ground arith

pub skip_spaces-digit : (d : ℕ) (s : Bytes) → is_digit d ≡ true → skip_spaces (d ∷ s) ≡ d ∷ s
skip_spaces-digit d s h = ground arith

-- The number of the row, which `%*d` skips.
pub scan_ll-number :
    (k : ℕ) (ds more : Bytes)
    → All IsDigit ds
    → starts_digit ds ≡ true
    → (v : ℤ) × (scan_ll (replicate k 32 ++ (ds ++ b':' ∷ more)) ≡ some (v, b':' ∷ more))
scan_ll-number k [] more a h = absurd (ground arith)
scan_ll-number k (d ∷ ds) more a h =
    let t = d ∷ (ds ++ b':' ∷ more) in
    let at = skip_spaces-pad k t ∙ skip_spaces-digit d (ds ++ b':' ∷ more) h in
    (
      (signed t).value,
      scan_ll_from (replicate k 32 ++ t) t at (after_sign-digit d (ds ++ b':' ∷ more) h) h
          ∙ ap (λ r. some ((signed t).value, r)) (skip_digits-All (d ∷ ds) more a),
    )
