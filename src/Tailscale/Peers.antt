-- ===== src/Tailscale/Peers.antt =====
-- The number that is drained is the number of lines that name a peer.
use mobile_config.Base.{
  ℕ, zero, suc, ◌+◌, ◌≤◌, ◌≡◌, refl, sym, ap, ◌∙◌, Bool, true, false, List, [], ◌∷◌, ◌++◌, ltb,
  ◌==◌, if◌then◌else◌, length, take, arith, Bool-cases, inl, inr, Option, none, some,
}
use mobile_config.Libc.{Bytes, starts_with, snprintf, dec}
use mobile_config.Tailscale.{
  Child, peer_prefix, drain_byte, drain_bytes, TsRead, some_bytes, interrupted, again, ended,
  reap_child, tailscale_drain,
}

-- The reference: how many of the lines that a newline ends begin with the prefix, where `line` has
-- been read of the first one. A line has no limit here.
abbrev pub peers_in : Bytes → Bytes → ℕ
peers_in line [] = 0
peers_in line (c ∷ text) =
    if c == b'\n'
    then (if starts_with peer_prefix line then 1 else 0) + peers_in [] text
    else peers_in (line ++ c ∷ []) text

-- The buffer keeps the first 4095 bytes of a line, which are enough for its prefix.
starts_with-take : (p s : Bytes) (k : ℕ) → length p ≤ k → starts_with p (take k s) ≡ starts_with p s
starts_with-take [] s k h = refl
starts_with-take (p ∷ ps) s zero h = absurd (omega arith)
starts_with-take (p ∷ ps) [] (suc k) h = refl
starts_with-take (p ∷ ps) (c ∷ s) (suc k) h = rw (starts_with-take ps s k (omega arith)) refl

take-step :
    (k : ℕ) (s : Bytes) (c : ℕ)
    → (if ltb (length (take k s) + 1) (suc k) then take k s ++ c ∷ [] else take k s)
      ≡ take k (s ++ c ∷ [])
take-step zero s c = refl
take-step (suc zero) [] c = refl
take-step (suc (suc k)) [] c = ground arith
take-step (suc k) (x ∷ s) c = ground (arith, take-step k s c)

abbrev child : Bool → Bytes → ℕ → Bytes → Child
child r p n b = record { running = r; count = n; buf = b; peers = p }

-- A child of which `line` has been read of the current line.
abbrev reading : Bool → Bytes → ℕ → Bytes → Child
reading r p n line = child r p n (take 4095 line)

if-child :
    (b r : Bool) (p x y : Bytes) (n : ℕ)
    → (if b then child r p n x else child r p n y) ≡ child r p n (if b then x else y)
if-child true r p x y n = refl
if-child false r p x y n = refl

newline-reading :
    (r : Bool) (p : Bytes) (n : ℕ) (line : Bytes) (c : ℕ)
    → (c == b'\n') ≡ true
    → drain_byte c (reading r p n line)
      ≡ reading r p (if starts_with peer_prefix line then suc n else n) []
unfolding drain_byte
newline-reading r p n line c e = rw (e, starts_with-take peer_prefix line 4095 (omega arith)) refl

byte-reading :
    (r : Bool) (p : Bytes) (n : ℕ) (line : Bytes) (c : ℕ)
    → (c == b'\n') ≡ false
    → drain_byte c (reading r p n line) ≡ reading r p n (line ++ c ∷ [])
unfolding drain_byte
byte-reading r p n line c e = rw e (
    if-child (ltb (length (take 4095 line) + 1) 4096) r p (take 4095 line ++ c ∷ [])
      (take 4095 line) n
    ∙ ap (child r p n) (take-step 4095 line c))

add_one : (b : Bool) (n : ℕ) (k : ℕ) → (if b then suc n else n) + k ≡ n + ((if b then 1 else 0) + k)
add_one true n k = omega arith
add_one false n k = omega arith

drain_bytes-count :
    (r : Bool) (p : Bytes) (text line : Bytes) (n : ℕ)
    → (drain_bytes text (reading r p n line)).count ≡ n + peers_in line text
unfolding drain_bytes
drain_bytes-count r p [] line n = omega arith
drain_bytes-count r p (c ∷ text) line n = elim (Bool-cases (c == b'\n')) [
  | inl e ↦
      rw (e, peers_in)
        (ap (λ t. (drain_bytes text t).count) (newline-reading r p n line c e)
          ∙ (drain_bytes-count r p text [] _
              ∙ add_one (starts_with peer_prefix line) n (peers_in [] text)))
  | inr e ↦
      rw (e, peers_in)
        (ap (λ t. (drain_bytes text t).count) (byte-reading r p n line c e)
          ∙ drain_bytes-count r p text (line ++ c ∷ []) n)
]

-- What the reads give until one ends the draining.
abbrev pub text_of : List TsRead → Bytes
text_of [] = []
text_of (some_bytes cs ∷ rs) = cs ++ text_of rs
text_of (interrupted ∷ rs) = text_of rs
text_of (again ∷ rs) = []
text_of (ended ok ∷ rs) = []

-- How the draining ends, if it sees the child's end.
abbrev pub end_of : List TsRead → Option Bool
end_of [] = none
end_of (some_bytes cs ∷ rs) = end_of rs
end_of (interrupted ∷ rs) = end_of rs
end_of (again ∷ rs) = none
end_of (ended ok ∷ rs) = some ok

drain_bytes-append :
    (a b : Bytes) (t : Child) → drain_bytes (a ++ b) t ≡ drain_bytes b (drain_bytes a t)
unfolding drain_bytes
drain_bytes-append [] b t = refl
drain_bytes-append (c ∷ a) b t = drain_bytes-append a b (drain_byte c t)

drain_all :
    (rs : List TsRead) (t : Child)
    → end_of rs ≡ some true
    → (tailscale_drain rs t).peers ≡ snprintf 32 (dec (drain_bytes (text_of rs) t).count)
unfolding tailscale_drain reap_child drain_bytes
drain_all [] t e = cc
drain_all (some_bytes cs ∷ rs) t e =
    drain_all rs (drain_bytes cs t) e
    ∙ ap (λ t. snprintf 32 (dec t.count)) (sym (drain_bytes-append cs (text_of rs) t))
drain_all (interrupted ∷ rs) t e = drain_all rs t e
drain_all (again ∷ rs) t e = cc
drain_all (ended true ∷ rs) t e = refl
drain_all (ended false ∷ rs) t e = cc

-- Where the child ends well, the count that the dashboard shows is the number of lines of its output
-- that begin with the prefix of a peer's address, however the output is cut into reads, whichever of
-- them are interrupted, and however long its lines are.
pub tailscale_drain-peers_in :
    (rs : List TsRead) (former : Bytes)
    → end_of rs ≡ some true
    → (tailscale_drain rs (record { running = true; count = 0; buf = []; peers = former })).peers
      ≡ snprintf 32 (dec (peers_in [] (text_of rs)))
tailscale_drain-peers_in rs former e =
    drain_all rs (reading true former 0 []) e
    ∙ ap (λ n. snprintf 32 (dec n))
        (drain_bytes-count true former (text_of rs) [] 0 ∙ no_more (peers_in [] (text_of rs)))
  where
    no_more : (n : ℕ) → 0 + n ≡ n
    no_more n = omega arith
