-- ===== src/Start/Restore.antt =====
-- What the terminal is left with when the panel ends.
use mobile_config.Base.{
  ◌≡◌, refl, ap, ◌∙◌, Bool, true, false, [], ◌∷◌, ◌++◌, Option, none, some, take,
}
use mobile_config.Libc.{Bytes}
use mobile_config.Start.Terminal.{
  Termios, Terminal, term_raw, put_back, farewell, term_restore, enter_screen, Parse, ground_state,
  in_sequence, parse_byte, parse_bytes,
}

-- Whether the two calls of `term_raw` succeed or not, the settings that were in force before the panel
-- are in force behind a `term_restore` whose call succeeds, and nothing is left to be put back, so that a second
-- `term_restore` leaves them.
pub term_restore-current :
    (reads sets : Bool) (t : Terminal)
    → t.saved ≡ none
    → ((term_restore true (enter_screen (term_raw reads sets t))).current ≡ t.current)
      × ((term_restore true (enter_screen (term_raw reads sets t))).saved ≡ none)
      × ((term_restore true (term_restore true (enter_screen (term_raw reads sets t)))).current
          ≡ t.current)
unfolding term_restore put_back enter_screen term_raw
term_restore-current true true t e = (refl, refl, refl)
term_restore-current true false t e = rw e (refl, refl, refl)
term_restore-current false sets t e = rw e (refl, refl, refl)

parse-append : (p : Parse) (a b : Bytes) → parse_bytes p (a ++ b) ≡ parse_bytes (parse_bytes p a) b
parse-append p [] b = refl
parse-append p (c ∷ a) b = parse-append (parse_byte p c) a b

put_back-written :
    (restores : Bool) (o : Option Termios) (t : Terminal)
    → (put_back restores o t).written ≡ t.written
unfolding put_back
put_back-written restores none t = refl
put_back-written restores (some old) t = refl

-- `term_restore` leaves a terminal that stood between two sequences inside one: the eight bytes that it
-- writes end in the first two of the sequence that resets the colours, whether its call succeeds or not.
pub term_restore_dangles :
    (restores : Bool) (t : Terminal)
    → parse_bytes ground_state t.written ≡ ground_state
    → parse_bytes ground_state (term_restore restores t).written ≡ in_sequence
unfolding term_restore
term_restore_dangles restores t e =
    parse-append ground_state (put_back restores t.saved t).written (take 8 farewell)
    ∙ ap (λ p. parse_bytes p (take 8 farewell))
        (ap (parse_bytes ground_state) (put_back-written restores t.saved t) ∙ e)
