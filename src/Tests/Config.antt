-- ===== src/Tests/Config.antt =====
-- Patterns, keys and the validation, at concrete inputs.
use sshmux.Base.{
  Text, codes, List, [], ◌∷◌, ◌≡◌, refl, ok, err, nat_eq, text_eq, ◌↔◌, All, has_prefix, trim_space,
  has_suffix, trim_prefix, trim_suffix, strip,
}
use sshmux.Config.{Config}
use sshmux.Config.Pattern.{
  Pattern, empty_pattern, is_regexp, regexp_text, add_regexp, add_glob, add_part, parse_parts,
  parse_pattern, match,
}
use sshmux.Config.Pattern.Spec.{accepts, match-parse_pattern}
use sshmux.Config.SshKey.{parse_ssh_key, parse_key_data, read_key_file, only_raw}
use sshmux.Config.SshKey.Laws.{IsWellFormed, parse_ssh_key-IsWellFormed}
use sshmux.Config.Validate.{validate, validate_from, validate_route, not_supported}
use sshmux.Config.Validate.Laws.{RouteIsValid, Refused, validate_iff, validate-Refused}
use sshmux.Tests.Sample.{libs, system, config, cloud_route}

abbrev parts : List Text
parts = codes "alice" ∷ codes "!/mallory/" ∷ []

abbrev pattern : Pattern libs
pattern = record (empty_pattern libs) {
  allow = codes "alice" ∷ [];
  deny_regexp = codes "mallory" ∷ [];
}

parsed : parse_pattern libs parts ≡ ok pattern
unfolding parse_pattern parse_parts add_part add_regexp add_glob is_regexp regexp_text has_prefix
    has_suffix trim_prefix trim_suffix strip nat_eq text_eq
parsed = refl

match-parse_pattern_example :
    match libs pattern (codes "alice") ≡ accepts libs parts (codes "alice")
match-parse_pattern_example = match-parse_pattern libs parts (codes "alice") pattern parsed

flipped : parse_pattern libs (codes "!/mallory/" ∷ codes "alice" ∷ []) ≡ ok pattern
unfolding parse_pattern parse_parts add_part add_regexp add_glob is_regexp regexp_text has_prefix
    has_suffix trim_prefix trim_suffix strip nat_eq text_eq
flipped = refl

fingerprint_parsed :
    parse_ssh_key libs system (codes "SHA256:x")
    ≡ ok (record (only_raw libs (codes "SHA256:x")) { fingerprint = codes "SHA256:x" })
unfolding parse_ssh_key parse_key_data read_key_file trim_space has_prefix strip nat_eq text_eq
fingerprint_parsed = refl

parse_ssh_key-IsWellFormed_example :
    IsWellFormed libs (record (only_raw libs (codes "SHA256:x")) { fingerprint = codes "SHA256:x" })
parse_ssh_key-IsWellFormed_example =
    parse_ssh_key-IsWellFormed libs system (codes "SHA256:x")
      (record (only_raw libs (codes "SHA256:x")) { fingerprint = codes "SHA256:x" })
      fingerprint_parsed

validate_iff_example : (validate libs config ≡ ok tt) ↔ All RouteIsValid config.routes
validate_iff_example = validate_iff config

abbrev unknown : Config libs
unknown = record config {
  routes =
      record (cloud_route (codes "a") []) {
        cloud = record (cloud_route (codes "a") []).cloud { provider = codes "x" };
      }
      ∷ [];
}

unknown_refused :
    validate libs unknown ≡ err (record { index = 0; fault = not_supported (codes "x") })
unfolding validate validate_from validate_route nat_eq text_eq
unknown_refused = refl

validate-Refused_example : Refused unknown.routes 0 (not_supported (codes "x"))
validate-Refused_example =
    validate-Refused unknown (record { index = 0; fault = not_supported (codes "x") })
      unknown_refused
