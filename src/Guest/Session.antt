-- ===== src/Guest/Session.antt =====
-- A session of support/guest/main.go: the command that is started, its environment, and the exit
-- code that is sent; and the settings of support/guest/config.go.
pub mod Laws
use sshmux.Base.{
  ℕ, zero, suc, negsuc, ◌>>=◌, Text, codes, Bool, true, false, not, ◌&&◌, ◌||◌, Option, none, some,
  List, [], ◌∷◌, ◌++◌, ◌==◌, text_eq, Result, ok, err, if◌then◌else◌, ℤ, pos, is_some, is_negative,
  trim_space, ◌≡◌, ◌≢◌, refl, arith,
}
use sshmux.Errors.{Error, as_exec_exit}
use sshmux.Externals.{Libs}

-- `cmp.Or(s, t)`
unfoldable pub cmp_or : Text → Text → Text
cmp_or s t = if s == [] then t else s

-- `ssh.Pty`, by the two fields that the session reads
pub record GuestPty : Type 0 where
  pub term : Text
  pub name : Text

-- `exec.Cmd`: the arguments after the path, and the environment
pub record Command : Type 0 where
  pub path : Text
  pub args : List Text
  pub env : List Text

-- `guestShell`, `guestHome` and `os.Environ()`
pub record Settings : Type 0 where
  pub shell : Text
  pub home : Text
  pub environ : List Text

-- `buildEnv`
unfoldable pub build_env : Settings → Text → List Text
build_env g term =
    (if term == [] then g.environ else g.environ ++ (codes "TERM=" ++ term) ∷ [])
    ++ (codes "HOME=" ++ g.home) ∷ []

-- The command of `handleSession`. Without a PTY the requested command runs through the shell; the
-- first clause is taken whatever command was requested.
unfoldable pub session_command : Settings → Option GuestPty → Text → Command
session_command g (some pty) raw = record {
  path = g.shell;
  args = codes "-li" ∷ [];
  env = build_env g pty.term ++ (codes "SSH_TTY=" ++ pty.name) ∷ [];
}
session_command g none raw =
    if not (raw == [])
    then record { path = g.shell; args = codes "-lc" ∷ raw ∷ []; env = build_env g [] }
    else record { path = g.shell; args = codes "-l" ∷ []; env = build_env g [] }

-- What became of a command: it did not start, or it was waited for.
pub data Run : Type 0 where
  start_failed : Error → Run
  waited : Option Error → Run

-- The end of `runWithPTY`: the exit code that is sent, and the error that is returned.
unfoldable pub run_with_pty : Run → ℤ × Option Error
run_with_pty (start_failed e) = (pos 1, some e)
run_with_pty (waited (some e)) = elim (as_exec_exit e) [
  | some code ↦ (code, none)
  | none ↦ (pos 1, some e)
]
run_with_pty (waited none) = (pos 0, none)

-- The end of `runDirect`
unfoldable pub run_direct : Run → ℤ × Option Error
run_direct (start_failed e) = (pos 1, some e)
run_direct (waited (some e)) = elim (as_exec_exit e) [
  | some code ↦ (code, none)
  | none ↦ (pos 1, some e)
]
run_direct (waited none) = (pos 0, none)

-- `isExpectedExit`
unfoldable pub is_expected_exit : Option Error → Bool
is_expected_exit none = true
is_expected_exit (some e) = is_some (as_exec_exit e)

-- `runWithPTY` or `runDirect`
unfoldable pub run_session : Option GuestPty → Run → ℤ × Option Error
run_session (some pty) r = run_with_pty r
run_session none r = run_direct r

-- The outcome of a session: the exit code that is sent to the client, and whether `handleSession`
-- logs an error.
unfoldable pub session_outcome : Option GuestPty → Run → ℤ × Bool
unfolding run_session is_expected_exit
session_outcome pty r =
    let (code, e) = run_session pty r in (code, is_some e && not (is_expected_exit e))

pub data ConfigError : Type 0 where
  -- "%s env var is not set"
  not_set : Text → ConfigError
  -- "parse %s: %w"
  parse_failed : Text → ConfigError
  -- "GUEST_IDLE_TIMEOUT must be positive"
  not_positive : ConfigError

-- `time.Minute`
abbrev pub default_guest_idle_timeout : ℤ
default_guest_idle_timeout = pos 60000000000

-- `idleTimeout > 0`
abbrev pub is_positive : ℤ → Bool
is_positive (pos zero) = false
is_positive (pos (suc n)) = true
is_positive (negsuc n) = false

-- The variables that `init` reads, each empty if it is not set.
pub record Variables : Type 0 where
  pub guest_host_key : Text
  pub guest_allow_key : Text
  pub guest_idle_timeout : Text
  pub shell : Text
  pub home : Text

module _ (L : Libs) where
  -- The variables that `init` sets.
  pub record GuestConfig : Type 0 where
    pub host_key : L.Signer
    pub allow_key : L.PublicKey
    pub idle_timeout : ℤ
    pub shell : Text
    pub home : Text

  -- `parseHostKey`
  unfoldable pub parse_host_key : Text → Result ConfigError L.Signer
  parse_host_key value =
      let pem = trim_space value in
      if pem == [] then err (not_set (codes "GUEST_HOST_KEY")) else elim (L.parse_private_key pem) [
        | none ↦ err (parse_failed (codes "GUEST_HOST_KEY"))
        | some signer ↦ ok signer
      ]

  -- `parseAllowKey`
  unfoldable pub parse_allow_key : Text → Result ConfigError L.PublicKey
  parse_allow_key value =
      let line = trim_space value in
      if line == []
      then err (not_set (codes "GUEST_ALLOW_KEY"))
      else elim (L.parse_authorized_key line) [
        | none ↦ err (parse_failed (codes "GUEST_ALLOW_KEY"))
        | some key ↦ ok key
      ]

  -- `parseIdleTimeout`
  unfoldable pub parse_idle_timeout : Text → Result ConfigError ℤ
  parse_idle_timeout value =
      let raw = trim_space value in
      if raw == [] then ok default_guest_idle_timeout else elim (L.parse_duration raw) [
        | none ↦ err (parse_failed (codes "GUEST_IDLE_TIMEOUT"))
        | some timeout ↦ if not (is_positive timeout) then err not_positive else ok timeout
      ]

  -- `init`; an error ends the process.
  unfoldable pub init : Variables → Result ConfigError GuestConfig
  unfolding parse_host_key parse_allow_key parse_idle_timeout
  init v = do
    host_key ← parse_host_key v.guest_host_key
    allow_key ← parse_allow_key v.guest_allow_key
    idle_timeout ← parse_idle_timeout v.guest_idle_timeout
    ok (record {
      host_key = host_key;
      allow_key = allow_key;
      idle_timeout = idle_timeout;
      shell = cmp_or v.shell (codes "/bin/sh");
      home = cmp_or v.home (codes "/home/user");
    })

  -- `allowMuxKey`
  unfoldable pub allow_mux_key : GuestConfig → L.PublicKey → Bool
  allow_mux_key g key = L.keys_equal key g.allow_key
