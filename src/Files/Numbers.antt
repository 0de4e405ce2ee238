-- ===== src/Files/Numbers.antt =====
-- What `write_num` stores, `read_ll` reads.
use mobile_config.Base.{
  Bool, ℕ, ◌<◌, ◌≡◌, ◌≢◌, refl, ◌∙◌, inl, inr, true, false, Option, none, some, [], ◌∷◌, ◌++◌,
  arith, Bool-cases, Option-cases, length-append, take, take_all, All, ℤ,
}
use mobile_config.Libc.{Bytes, streq, streq→eq, streq_refl, until_stop, until-All, dec_ℤ}
use mobile_config.Libc.RoundTrip.{
  IsInt64, IsNumeric, All-dec_ℤ, length-dec_ℤ, dec_ℤ-ne-nil, strtoll-dec_ℤ, strtoll-IsInt64,
}
use mobile_config.Config.{is_empty}
use mobile_config.Files.{
  Fs, unlink, update, slurp, line_of, first_line, number_of, parse_line, read_ll, write_num,
}

numeric-ne : (b : ℕ) (s : Bytes) → b < b'-' → All IsNumeric s → All (λ c. c ≢ b) s
numeric-ne b [] h a = tt
numeric-ne b (c ∷ s) h a = (λ e. omega arith, numeric-ne b s h a.1)

All-snoc : (b : ℕ) (s : Bytes) → All (λ c. c ≢ 0) s → b ≢ 0 → All (λ c. c ≢ 0) (s ++ b ∷ [])
All-snoc b [] a h = (h, tt)
All-snoc b (c ∷ s) a h = (a.0, All-snoc b s a.1 h)

-- The line of a stored number is its print.
line-dec_ℤ : (z : ℤ) → IsInt64 z → line_of (take 4095 (dec_ℤ z ++ b'\n' ∷ [])) ≡ dec_ℤ z
line-dec_ℤ z h =
    let nul = numeric-ne 0 (dec_ℤ z) (omega arith) (All-dec_ℤ z) in
    rw
      (take_all 4095 (dec_ℤ z ++ b'\n' ∷ [])
        (omega (arith, length-append (dec_ℤ z) (b'\n' ∷ []), length-dec_ℤ z h)))
      (rw (until-All 0 (dec_ℤ z ++ b'\n' ∷ []) (All-snoc b'\n' (dec_ℤ z) nul (omega arith)))
        (until_stop b'\n' (dec_ℤ z) [] (numeric-ne b'\n' (dec_ℤ z) (omega arith) (All-dec_ℤ z))))

is_empty-ne : (s : Bytes) → s ≢ [] → is_empty s ≡ false
is_empty-ne [] h = absurd (h refl)
is_empty-ne (c ∷ s) h = refl

first_line-dec_ℤ :
    (fs : Fs) (path : Bytes) (z : ℤ)
    → IsInt64 z
    → fs.content path ≡ some (dec_ℤ z ++ b'\n' ∷ [])
    → first_line fs path 64 ≡ (some (dec_ℤ z), true)
unfolding first_line
first_line-dec_ℤ fs path z h e =
    rw (e, first_line, slurp)
      (rw (line-dec_ℤ z h) (
        rw (take_all 63 (dec_ℤ z) (omega (arith, length-dec_ℤ z h)))
          (rw (is_empty-ne (dec_ℤ z) (dec_ℤ-ne-nil z)))))

-- A file that holds a printed 64-bit number reads as that number.
pub read_ll-dec_ℤ :
    (fs : Fs) (path : Bytes) (z dflt : ℤ)
    → IsInt64 z
    → fs.content path ≡ some (dec_ℤ z ++ b'\n' ∷ [])
    → read_ll fs path dflt ≡ z
unfolding read_ll
read_ll-dec_ℤ fs path z dflt h e =
    rw (first_line-dec_ℤ fs path z h e) (unfold parse_line number_of in rw (strtoll-dec_ℤ z h))

-- A file that is not there reads as the default.
pub read_ll-missing :
    (fs : Fs) (path : Bytes) (dflt : ℤ) → fs.content path ≡ none → read_ll fs path dflt ≡ dflt
unfolding read_ll
read_ll-missing fs path dflt e = rw (e, first_line, slurp)

-- Reading depends on the content of that file alone.
pub read_ll_cong :
    (fs gs : Fs) (path : Bytes) (dflt : ℤ)
    → fs.content path ≡ gs.content path
    → read_ll fs path dflt ≡ read_ll gs path dflt
unfolding read_ll
read_ll_cong fs gs path dflt e = rw (e, first_line, slurp)

pub update_self : (m : Bytes → Option Bytes) (p : Bytes) (v : Option Bytes) → update m p v p ≡ v
update_self m p v = rw (streq_refl p)

pub update_ne :
    (m : Bytes → Option Bytes) (p q : Bytes) (v : Option Bytes) → q ≢ p → update m p v q ≡ m q
update_ne m p q v h = elim (Bool-cases (streq q p)) [
  | inl e ↦ absurd (h (streq→eq q p e))
  | inr e ↦ rw e
]

-- A file can be written: it is there, and its mode allows it.
pub record CanWrite (fs : Fs) (p : Bytes) : Type 0 where
  pub old : Bytes
  pub present : fs.content p ≡ some old
  pub allowed : fs.writable p ≡ true

-- Where the file can be written, its content is the number's line and nothing else changes.
pub write_num_lem :
    (fs : Fs) (p : Bytes) (v : ℤ)
    → CanWrite fs p
    → (write_num fs p v)
      ≡ (record fs { content = update fs.content p (some (dec_ℤ v ++ b'\n' ∷ [])) }, true)
unfolding write_num
write_num_lem fs p v c = rw (c.present, write_num) (rw c.allowed)

-- Otherwise the file system stays as it is.
pub write_num-missing :
    (fs : Fs) (p : Bytes) (v : ℤ) → fs.content p ≡ none → write_num fs p v ≡ (fs, false)
unfolding write_num
write_num-missing fs p v e = rw (e, write_num)

-- A 64-bit number that `write_num` stores in a file that it can write is what `read_ll` returns
-- from that file, whatever the default.
pub read_ll-write_num :
    (fs : Fs) (p : Bytes) (v dflt : ℤ)
    → CanWrite fs p
    → IsInt64 v
    → read_ll (write_num fs p v).0 p dflt ≡ v
read_ll-write_num fs p v dflt c h =
    rw (write_num_lem fs p v c) (read_ll-dec_ℤ _ p v dflt h (update_self fs.content p _))

pub write_num_ne :
    (fs : Fs) (p q : Bytes) (v : ℤ) → q ≢ p → (write_num fs p v).0.content q ≡ fs.content q
unfolding write_num
write_num_ne fs p q v h = elim (Option-cases (fs.content p)) [
  | inl e ↦ rw (e, write_num)
  | inr (old, e) ↦
      rw (e, write_num) (ground (arith, update_ne fs.content p q (some (dec_ℤ v ++ b'\n' ∷ [])) h))
]

-- The other files read as before, whether the write succeeds or not.
pub read_ll-write_num_ne :
    (fs : Fs) (p q : Bytes) (v dflt : ℤ)
    → q ≢ p
    → read_ll (write_num fs p v).0 q dflt ≡ read_ll fs q dflt
read_ll-write_num_ne fs p q v dflt h = read_ll_cong _ fs q dflt (write_num_ne fs p q v h)

write_num-writable :
    (fs : Fs) (p q : Bytes) (v : ℤ) → (write_num fs p v).0.writable q ≡ fs.writable q
unfolding write_num
write_num-writable fs p q v = elim (Option-cases (fs.content p)) [
  | inl e ↦ rw (e, write_num)
  | inr (old, e) ↦ rw (e, write_num) (ground arith)
]

pub unlink_ne : (fs : Fs) (p q : Bytes) → q ≢ p → (unlink fs p).content q ≡ fs.content q
unfolding unlink
unlink_ne fs p q h = ground (arith, update_ne fs.content p q none h)

-- Writing one file leaves another one writable.
pub write_num-CanWrite_ne :
    (fs : Fs) (p q : Bytes) (v : ℤ) → q ≢ p → CanWrite fs q → CanWrite (write_num fs p v).0 q
write_num-CanWrite_ne fs p q v h c = record {
  old = c.old;
  present = write_num_ne fs p q v h ∙ c.present;
  allowed = write_num-writable fs p q v ∙ c.allowed;
}

-- A file written to can still be written.
pub write_num-CanWrite :
    (fs : Fs) (p : Bytes) (v : ℤ) → CanWrite fs p → CanWrite (write_num fs p v).0 p
write_num-CanWrite fs p v c = record {
  old = dec_ℤ v ++ b'\n' ∷ [];
  present = rw (write_num_lem fs p v c) (update_self fs.content p _);
  allowed = write_num-writable fs p p v ∙ c.allowed;
}

pub read_ll-unlink_ne :
    (fs : Fs) (p q : Bytes) (dflt : ℤ) → q ≢ p → read_ll (unlink fs p) q dflt ≡ read_ll fs q dflt
read_ll-unlink_ne fs p q dflt h = read_ll_cong _ fs q dflt (unlink_ne fs p q h)

pub unlink_self : (fs : Fs) (p : Bytes) → fs.removable p ≡ true → (unlink fs p).content p ≡ none
unfolding unlink
unlink_self fs p r = rw r (update_self fs.content p none)

number_of-IsInt64 : (buf : Bytes) (dflt : ℤ) → IsInt64 dflt → IsInt64 (number_of buf dflt)
unfolding number_of
number_of-IsInt64 buf dflt h = ground (arith, strtoll-IsInt64 buf)

parse_line-IsInt64 :
    (r : Option Bytes × Bool) (dflt : ℤ) → IsInt64 dflt → IsInt64 (parse_line r dflt)
unfolding parse_line
parse_line-IsInt64 (some buf, true) dflt h = number_of-IsInt64 buf dflt h
parse_line-IsInt64 (some buf, false) dflt h = h
parse_line-IsInt64 (none, b) dflt h = h

-- What is read is a 64-bit value, since `strtoll` returns one.
pub read_ll-IsInt64 : (fs : Fs) (p : Bytes) (dflt : ℤ) → IsInt64 dflt → IsInt64 (read_ll fs p dflt)
unfolding read_ll
read_ll-IsInt64 fs p dflt h = parse_line-IsInt64 (first_line fs p 64) dflt h

-- Removing a file that is not there changes nothing.
pub unlink-missing : (fs : Fs) (p : Bytes) → fs.content p ≡ none → (unlink fs p).content p ≡ none
unfolding unlink
unlink-missing fs p e = ground (arith, update_self fs.content p none)
