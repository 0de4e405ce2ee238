-- ===== src/Config/Bounds.antt =====
-- What every parsed command line guarantees.
use mobile_config.Base.{
  ◌≤◌, ◌<◌, ◌≡◌, refl, Option, none, some, List, [], ◌∷◌, arith, Bool, true, false, ◌↔◌, length,
  length-append, length-take-le, All, All-append, pos, ◌≤ℤ◌, Bool-cases, leb, inl, inr,
}
use mobile_config.Libc.{Bytes, behind, until}
use mobile_config.Config.{
  Config, Service, Opt, opt_service, add_service, service_of, apply_option, parse_args,
  max_services,
}

-- The array of services holds at most its 16 entries, and each unit name fits its 64 bytes with
-- the final NUL.
pub record IsBounded (cfg : Config) : Type 0 where
  pub services_fit : length cfg.services ≤ max_services
  pub units_fit : All (λ (s : Service). length s.unit < 64) cfg.services

service_of-fits : (spec : Bytes) (p : Option Bytes) → length (service_of spec p).unit < 64
unfolding service_of
service_of-fits spec none = omega (arith, length-take-le 63 spec)
service_of-fits spec (some p) = omega (arith, length-take-le 63 (until b':' spec))

add_service-IsBounded :
    (cfg : Config) (spec : Bytes) → IsBounded cfg → IsBounded (add_service cfg spec)
unfolding add_service
add_service-IsBounded cfg spec h = elim (Bool-cases (leb max_services (length cfg.services))) [
  | inl full ↦ rw (full, add_service) h
  | inr room ↦
      rw (room, add_service)
        (record {
          services_fit =
              ground (arith, length-append cfg.services (service_of spec (behind b':' spec) ∷ []));
          units_fit =
              All-append _ cfg.services _ h.units_fit (service_of-fits spec (behind b':' spec), tt);
        })
]

-- Every option but `--service` leaves the services alone.
apply_option-IsBounded :
    (cfg : Config) (o : Opt) (arg : Bytes) → IsBounded cfg → IsBounded (apply_option cfg o arg)
unfolding apply_option
apply_option-IsBounded cfg opt_service arg h = add_service-IsBounded cfg arg h
apply_option-IsBounded cfg _ arg h = record {
  services_fit = h.services_fit;
  units_fit = h.units_fit;
}

-- A parsed command line has at most 16 services whose unit names fit their buffers, a stats
-- interval of at least one second and a logo interval that is not negative, whatever the options
-- were, if the configuration it started from had such services.
pub parse_args-IsBounded :
    (args : List (Option (Opt × Bytes))) (cfg : Config) {done : Config}
    → IsBounded cfg
    → parse_args cfg args ≡ some done
    → IsBounded done × (pos 1 ≤ℤ done.interval) × (pos 0 ≤ℤ done.logo_interval_ms)
unfolding parse_args
parse_args-IsBounded [] cfg h e = ground arith
parse_args-IsBounded (none ∷ rest) cfg h e = cc
parse_args-IsBounded (some (o, arg) ∷ rest) cfg h e =
    parse_args-IsBounded rest (apply_option cfg o arg) (apply_option-IsBounded cfg o arg h) e

-- Whether `getopt_long` refused an option.
abbrev pub refuses : List (Option (Opt × Bytes)) → Bool
refuses [] = false
refuses (none ∷ rest) = true
refuses (some a ∷ rest) = refuses rest

-- Parsing fails exactly when an option is refused; no value of an option makes it fail.
pub parse_args-none_iff :
    (args : List (Option (Opt × Bytes))) (cfg : Config)
    → (parse_args cfg args ≡ none) ↔ (refuses args ≡ true)
unfolding parse_args
parse_args-none_iff [] cfg = (λ e. cc, λ e. cc)
parse_args-none_iff (none ∷ rest) cfg = (λ e. refl, λ e. refl)
parse_args-none_iff (some (o, arg) ∷ rest) cfg = parse_args-none_iff rest (apply_option cfg o arg)
