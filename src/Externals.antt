-- ===== src/Externals.antt =====
-- Third-party and platform code that sshmux calls and does not contain, as parameters: regular
-- expressions, `path.Match` and `time.ParseDuration`, SSH keys (golang.org/x/crypto/ssh, charmbracelet/ssh), htpasswd,
-- and the answers of the operating system.
use sshmux.Base.{Text, Option, Bool, List, ℤ}

-- The libraries' types and their pure functions.
pub record Libs : Type 1 where
  pub Regexp : Type 0
  -- `regexp.Compile`; `none` is its error.
  pub compile : Text → Option Regexp
  -- `(*Regexp).MatchString`
  pub match_string : Regexp → Text → Bool
  -- `path.Match(pattern, name)`; `none` is `ErrBadPattern`.
  pub path_match : Text → Text → Option Bool
  -- `time.ParseDuration`, in nanoseconds; `none` is its error.
  pub parse_duration : Text → Option ℤ
  pub PublicKey : Type 0
  pub Signer : Type 0
  -- `signer.PublicKey()`
  pub signer_public_key : Signer → PublicKey
  -- `ssh.KeysEqual`
  pub keys_equal : PublicKey → PublicKey → Bool
  -- `gossh.FingerprintSHA256`
  pub fingerprint_sha256 : PublicKey → Text
  -- `key.Marshal()`
  pub marshal : PublicKey → Text
  pub parse_private_key : Text → Option Signer
  pub parse_authorized_key : Text → Option PublicKey
  pub parse_public_key : Text → Option PublicKey
  -- `htpasswd.DefaultSystems`: each parses a stored password into its test; `none` is an error or nil.
  pub default_systems : List (Text → Option (Text → Bool))

-- What the operating system answers.
pub record System : Type 0 where
  -- `os.ReadFile`; `none` is its error.
  pub read_file : Text → Option Text
  -- `os.UserHomeDir`; `none` is its error.
  pub user_home_dir : Option Text
