-- ===== src/Machine/Typing.antt =====
-- Escape sequences among the typed bytes.
use mobile_config.Base.{ℕ, ◌≡◌, refl, ap, ◌∙◌, Bool, true, false, ◌||◌, [], ◌∷◌, ◌++◌, ◌==◌, All}
use mobile_config.Libc.{Bytes, is_alpha}
use mobile_config.Config.{Config}
use mobile_config.Views.State.{Env}
use mobile_config.Machine.{Machine, typed_byte, typed}

-- A letter or a tilde, which ends an escape sequence.
abbrev pub ends_escape : ℕ → Bool
ends_escape c = is_alpha c || c == b'~'

-- However the typed bytes are cut into reads, the effect is the same.
pub typed-append :
    (cfg : Config) (env : Env) (a b : Bytes) (m : Machine)
    → typed cfg env (a ++ b) m ≡ typed cfg env b (typed cfg env a m)
unfolding typed
typed-append cfg env [] b m = refl
typed-append cfg env (c ∷ a) b m = typed-append cfg env a b (typed_byte cfg env c m)

stays :
    (cfg : Config) (env : Env) (c : ℕ) (m : Machine)
    → m.in_escape ≡ true
    → ends_escape c ≡ false
    → typed_byte cfg env c m ≡ m
unfolding typed_byte
stays cfg env c m e n = rw (e, n) refl

ends :
    (cfg : Config) (env : Env) (c : ℕ) (m : Machine)
    → m.in_escape ≡ true
    → ends_escape c ≡ true
    → typed_byte cfg env c m ≡ record m { in_escape = false }
unfolding typed_byte
ends cfg env c m e n = rw (e, n) refl

starts :
    (cfg : Config) (env : Env) (m : Machine)
    → m.in_escape ≡ false
    → typed_byte cfg env 27 m ≡ record m { in_escape = true }
unfolding typed_byte
starts cfg env m e = rw e refl

back_again : (m : Machine) → m.in_escape ≡ false → record m { in_escape = false } ≡ m
back_again m e = rw e refl

-- The rest of a sequence changes nothing until its last byte.
typed_escaped :
    (cfg : Config) (env : Env) (body rest : Bytes) (last : ℕ) (m : Machine)
    → m.in_escape ≡ true
    → All (λ c. ends_escape c ≡ false) body
    → ends_escape last ≡ true
    → typed cfg env (body ++ last ∷ rest) m ≡ typed cfg env rest (record m { in_escape = false })
unfolding typed
typed_escaped cfg env [] rest last m e a l = ap (typed cfg env rest) (ends cfg env last m e l)
typed_escaped cfg env (c ∷ body) rest last m e (n, a) l =
    ap (typed cfg env (body ++ last ∷ rest)) (stays cfg env c m e n)
    ∙ typed_escaped cfg env body rest last m e a l

-- A whole escape sequence that is typed, from the escape byte to the first letter or tilde after it,
-- has no effect: what follows it is read as if the sequence had not been typed, so none of its bytes
-- is taken for a key.
pub typed_sequence :
    (cfg : Config) (env : Env) (body rest : Bytes) (last : ℕ) (m : Machine)
    → m.in_escape ≡ false
    → All (λ c. ends_escape c ≡ false) body
    → ends_escape last ≡ true
    → typed cfg env (27 ∷ (body ++ last ∷ rest)) m ≡ typed cfg env rest m
unfolding typed
typed_sequence cfg env body rest last m e a l =
    ap (typed cfg env (body ++ last ∷ rest)) (starts cfg env m e)
    ∙ (typed_escaped cfg env body rest last (record m { in_escape = true }) refl a l
        ∙ ap (typed cfg env rest) (back_again m e))
