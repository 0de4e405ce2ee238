-- ===== src/System/Below.antt =====
-- A system of which only what lies below `--root` is left, and what the readers see of it.
use mobile_config.Base.{
  ℕ, zero, suc, ◌-◌, ◌≡◌, refl, ◌<◌, ◌≤◌, true, false, [], ◌∷◌, ◌++◌, if◌then◌else◌, none, some,
  length, take, arith, ℤ,
}
use mobile_config.Libc.{Bytes, codes, snprintf, starts_with}
use mobile_config.Config.{Config, rp, is_empty, path_max}
use mobile_config.Files.{Fs, slurp, first_line, read_ll}
use mobile_config.System.{System, read_link, fixture, fixture_path, unit_state, failed_units}

-- What is not below the root is not there.
abbrev pub only_below {ℓ} : {A : Type ℓ} → Bytes → A → (Bytes → A) → Bytes → A
only_below root missing f path = if starts_with root path then f path else missing

abbrev pub fs_below : Config → Fs → Fs
fs_below cfg fs = record fs { content = only_below cfg.root none fs.content }

-- Without the files, directories, links and sessions elsewhere, without statvfs, interfaces and bus.
abbrev pub below : Config → System → System
below cfg sys = record sys {
  fs = fs_below cfg sys.fs;
  entries = only_below cfg.root none sys.entries;
  link = only_below cfg.root none sys.link;
  utmp = only_below cfg.root [] sys.utmp;
  root_statvfs = none;
  interfaces = none;
  bus = none;
}

starts_with-take :
    (n : ℕ) (root rest : Bytes) → length root ≤ n → starts_with root (take n (root ++ rest)) ≡ true
starts_with-take n [] rest h = refl
starts_with-take zero (c ∷ root) rest h = absurd (omega (arith, h))
starts_with-take (suc n) (c ∷ root) rest h =
    ground (arith, starts_with-take n root rest (omega (arith, h)))

-- A root that is given and fits a path's buffer.
pub record HasRoot (cfg : Config) : Type 0 where
  pub given : is_empty cfg.root ≡ false
  pub fits : length cfg.root < path_max

-- A path below the root.
abbrev pub IsInside : Config → Bytes → Type 0
IsInside cfg path = starts_with cfg.root path ≡ true

module _ (cfg : Config) (h : HasRoot cfg) where
  -- A path of the buffer that begins with the root.
  pub print-IsInside : (rest : Bytes) → IsInside cfg (snprintf path_max (cfg.root ++ rest))
  print-IsInside rest = starts_with-take (path_max - 1) cfg.root rest (omega (arith, h.fits))

  pub rp-IsInside : (path : Bytes) → IsInside cfg (rp cfg path)
  unfolding rp
  rp-IsInside path = rw h.given (print-IsInside path)

module _ (cfg : Config) (path : Bytes) (inside : IsInside cfg path) where
  pub same_below {ℓ} :
      {A : Type ℓ} (missing : A) (f : Bytes → A) → only_below cfg.root missing f path ≡ f path
  same_below missing f = rw inside refl

  pub slurp-below : (fs : Fs) (n : ℕ) → slurp (fs_below cfg fs) path n ≡ slurp fs path n
  unfolding slurp
  slurp-below fs n = rw (slurp, inside) refl

  pub first_line-below :
      (fs : Fs) (n : ℕ) → first_line (fs_below cfg fs) path n ≡ first_line fs path n
  unfolding first_line
  first_line-below fs n = rw (first_line, slurp-below fs 4096) refl

  pub read_ll-below : (fs : Fs) (d : ℤ) → read_ll (fs_below cfg fs) path d ≡ read_ll fs path d
  unfolding read_ll
  read_ll-below fs d = rw (read_ll, first_line-below fs 64) refl

  pub read_link-below :
      (sys : System) (n : ℕ) → read_link (below cfg sys) path n ≡ read_link sys path n
  unfolding read_link
  read_link-below sys n = rw (read_link, inside) refl

module _ (cfg : Config) (h : HasRoot cfg) (sys : System) where
  pub unit_state-below :
      (n : ℕ) (unit : Bytes) → unit_state cfg (below cfg sys) n unit ≡ unit_state cfg sys n unit
  unfolding unit_state
  unit_state-below n unit =
      let path =
        snprintf path_max (cfg.root ++ (codes "/fixture/units/" ++ (unit ++ codes ".service"))) in
      let inside = print-IsInside cfg h (codes "/fixture/units/" ++ (unit ++ codes ".service")) in
      rw (h.given, first_line-below cfg path inside sys.fs n) refl

  pub failed_units-below : (n : ℕ) → failed_units cfg (below cfg sys) n ≡ failed_units cfg sys n
  unfolding failed_units
  failed_units-below n =
      let path = snprintf path_max (cfg.root ++ codes "/fixture/failed") in
      let inside = print-IsInside cfg h (codes "/fixture/failed") in
      rw (h.given, first_line-below cfg path inside sys.fs n) refl

  pub fixture-IsInside :
      (name : Bytes) → (path : Bytes) × (fixture cfg name ≡ some path) × IsInside cfg path
  unfolding fixture fixture_path
  fixture-IsInside name =
      (fixture_path cfg name, rw h.given refl, print-IsInside cfg h (codes "/fixture/" ++ name))
