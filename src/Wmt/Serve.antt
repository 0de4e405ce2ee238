-- ===== src/Wmt/Serve.antt =====
-- modules/connectivity/wmt-loader.c: the service loop of `main`.
use mobile_config.Base.{
  ℕ, suc, ◌+◌, ◌≡◌, refl, ◌∙◌, Bool, true, false, List, [], ◌∷◌, if◌then◌else◌, Option, none, some,
  arith, take, length,
}
use mobile_config.Libc.{Bytes, codes, until}
use mobile_config.Wmt.Firmware.{Store}
use mobile_config.Wmt.Patches.{Kernel, Loader, handle_command}
use mobile_config.Wmt.Startup.{exit_latched}
use mobile_config.Wmt.Once.{ToldOnce, handle_command-ToldOnce}

-- One round: `poll` is interrupted, fails otherwise, or returns; then there is nothing to read (or a
-- read that gives nothing) or a command's bytes, with the firmware's files as they are then, and
-- last whether the child that powers the chip on is found to have ended, with its success.
pub data Round : Type 0 where
  interrupted broken : Round
  quiet : Option Bool → Round
  command : Store → Bytes → Option Bool → Round

-- `child` is whether it is still to be reaped; `powered` what its end reported. Replies are the
-- newest first; whether their write succeeds is not looked at.
pub record Server : Type 0 where
  pub loader : Loader
  pub child : Bool
  pub powered : Option Bool
  pub replies : List Bytes

abbrev reply_of : Bool → Bytes
reply_of true = codes "ok"
reply_of false = codes "fail"

-- The buffer is zeroed and takes 255 bytes, so the command ends at its first NUL.
answer : Kernel → Store → Bytes → Server → Server
answer k st bytes s =
    let r = handle_command st k (until 0 (take 255 bytes)) s.loader in
    record s { loader = r.0; replies = reply_of r.1 ∷ s.replies }

reap : Option Bool → Server → Server
reap none s = s
reap (some ok) s = if s.child then record s { child = false; powered = some ok } else s

-- The service over the rounds that it lives to see; `some` is the exit status.
unfoldable pub serve : Kernel → List Round → Server → Server × Option ℕ
unfolding answer reap
serve k [] s = (s, none)
serve k (interrupted ∷ rs) s = serve k rs s
serve k (broken ∷ rs) s = (s, some exit_latched)
serve k (quiet ended ∷ rs) s = serve k rs (reap ended s)
serve k (command st bytes ended ∷ rs) s = serve k rs (reap ended (answer k st bytes s))

-- The rounds before the first failing poll in which a command is read.
abbrev pub asked : List Round → ℕ
asked [] = 0
asked (interrupted ∷ rs) = asked rs
asked (broken ∷ rs) = 0
asked (quiet ended ∷ rs) = asked rs
asked (command st bytes ended ∷ rs) = suc (asked rs)

-- Whether a poll fails.
abbrev pub breaks : List Round → Bool
breaks [] = false
breaks (interrupted ∷ rs) = breaks rs
breaks (broken ∷ rs) = true
breaks (quiet ended ∷ rs) = breaks rs
breaks (command st bytes ended ∷ rs) = breaks rs

reap-keeps :
    (e : Option Bool) (s : Server)
    → ((reap e s).replies ≡ s.replies) × ((reap e s).loader ≡ s.loader)
unfolding reap
reap-keeps none s = (refl, refl)
reap-keeps (some ok) s = ground arith

-- What a run of the service shows: one reply more for each command that was read, an end only
-- where a poll failed, and a count of patches that is told at most once.
pub record Served (k : Kernel) (rs : List Round) (s : Server) : Type 0 where
  pub replied : length (serve k rs s).0.replies ≡ length s.replies + asked rs
  pub ends : (serve k rs s).1 ≡ (if breaks rs then some exit_latched else none)
  pub once : ToldOnce k (serve k rs s).0.loader

answered :
    (k : Kernel) (st : Store) (bytes : Bytes) (s : Server)
    → ToldOnce k s.loader
    → (length (answer k st bytes s).replies ≡ suc (length s.replies))
      × ToldOnce k (answer k st bytes s).loader
unfolding answer
answered k st bytes s t = (refl, handle_command-ToldOnce st k (until 0 (take 255 bytes)) s.loader t)

-- If the loader remembers rightly whether the kernel has accepted the count of patches, then over
-- any rounds the service adds one reply for each command that it reads before a poll fails,
-- whatever the child that powers the chip on has come to; it ends exactly where a poll fails, with
-- the latched status; and the count is accepted at most once in all of it.
pub serve-Served : (k : Kernel) (rs : List Round) (s : Server) → ToldOnce k s.loader → Served k rs s
unfolding serve
serve-Served k [] s t = record { replied = omega arith; ends = refl; once = t }
serve-Served k (interrupted ∷ rs) s t =
    let r = serve-Served k rs s t in record { replied = r.replied; ends = r.ends; once = r.once }
serve-Served k (broken ∷ rs) s t = record { replied = omega arith; ends = refl; once = t }
serve-Served k (quiet ended ∷ rs) s t =
    let (same, kept) = reap-keeps ended s in
    let r = serve-Served k rs (reap ended s) (rw kept t) in
    record { replied = r.replied ∙ rw same; ends = r.ends; once = r.once }
serve-Served k (command st bytes ended ∷ rs) s t =
    let (more, told) = answered k st bytes s t in
    let (same, kept) = reap-keeps ended (answer k st bytes s) in
    let r = serve-Served k rs (reap ended (answer k st bytes s)) (rw kept told) in
    record { replied = r.replied ∙ rw (same, more) (omega arith); ends = r.ends; once = r.once }
