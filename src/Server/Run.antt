-- ===== src/Server/Run.antt =====
-- `Load` of internal/config/config.go, `Run` and `ServerOptions` of internal/server/server.go, and
-- cmd/sshmux/main.go: from the command line to the server, and its end by signals.
pub mod Signals
pub mod Start
use sshmux.Base.{
  ℕ, suc, Text, codes, Bool, true, false, Option, none, some, List, [], ◌∷◌, ◌++◌, map, Result, ok,
  err, ◌>>=◌, if◌then◌else◌, is_empty,
}
use sshmux.Errors.{Error}
use sshmux.Externals.{Libs, System}
use sshmux.Config.{CloudEntry, Config}
use sshmux.Config.Validate.{ValidateError, validate}
use sshmux.Cloud.Provider.{BuildError, build_providers}

-- The errors of `Load`. The YAML decoder's is `D`.
pub data LoadError (D : Type 0) : Type 0 where
  -- "read config: %w"
  read_config : Text → LoadError D
  -- "parse config: %w"
  parse_config : D → LoadError D
  invalid : ValidateError → LoadError D

-- The options that depend on the command line; the others are the same for every server.
pub data ServerOption : Type 0 where
  with_address : Text → ServerOption
  with_pty_requests : ServerOption
  with_auth : ServerOption
  with_session_routing_policy : ServerOption
  -- `MuxMiddleware` around the logging one
  with_middleware : ServerOption
  host_key_file : Text → ServerOption
  with_host_key_path : Text → ServerOption

-- `ServerOptions`, less the configuration and the providers, which it hands on.
unfoldable pub server_options : Text → List Text → List ServerOption
server_options host host_keys =
    (with_address host
      ∷ with_pty_requests
      ∷ with_auth
      ∷ with_session_routing_policy
      ∷ with_middleware
      ∷ [])
    ++ map host_key_file host_keys
    ++ (if is_empty host_keys then with_host_key_path (codes ".ssh/id_sshmux") ∷ [] else [])

-- How `Run` may fail: before it listens, while it listens, and when it shuts down.
pub data RunError (E : Type 0) : Type 0 where
  providers_error : BuildError E → RunError E
  -- "create server: %w"
  create_server : Error → RunError E
  -- "server error: %w"
  server_error : Error → RunError E
  -- "shutdown server: %w"
  shutdown_server : Error → RunError E

-- The errors of the program
pub data StartError (D E : Type 0) : Type 0 where
  load_error : LoadError D → StartError D E
  run_error : RunError E → StartError D E

-- `unmarshal` is `yaml.UnmarshalStrict`, `new` is `NewUnikraftProvider`, and `new_server` is
-- `wish.NewServer` of the options, the configuration and the providers.
module _ (L : Libs) {D E P Server : Type 0} (unmarshal : Text → Result D (Config L))
    (new : CloudEntry → Result E P)
    (new_server : List ServerOption → Config L → List (ℕ × P) → Result Error Server) where
  -- `Load`
  unfoldable pub load : System → Text → Result (LoadError D) (Config L)
  load sys path = elim (sys.read_file path) [
    | none ↦ err (read_config path)
    | some data_read ↦ elim (unmarshal data_read) [
      | err e ↦ err (parse_config e)
      | ok cfg ↦ elim (validate L cfg) [ err e ↦ err (invalid e) | ok _ ↦ ok cfg ]
    ]
  ]

  -- `opts.Provider`, or what `BuildProviders` gives
  unfoldable pub given_or_built :
      Option (List (ℕ × P)) → Config L → Result (BuildError E) (List (ℕ × P))
  given_or_built (some ps) cfg = ok ps
  given_or_built none cfg = build_providers L new cfg

  -- `Run` up to its signals, with the providers it was given, if any: the server, and the providers
  -- that its sessions use.
  unfoldable pub prepare :
      Option (List (ℕ × P))
      → Config L
      → Text
      → List Text
      → Result (RunError E) (Server × List (ℕ × P))
  unfolding server_options given_or_built
  prepare given cfg host host_keys = elim (given_or_built given cfg) [
    | err e ↦ err (providers_error e)
    | ok ps ↦ elim (new_server (server_options host host_keys) cfg ps) [
      | err e ↦ err (create_server e)
      | ok s ↦ ok (s, ps)
    ]
  ]

  -- `run` of the command, up to the signals: the configuration, the server and its providers.
  unfoldable pub start :
      System → Text → Text → List Text → Result (StartError D E) (Config L × Server × List (ℕ × P))
  start sys config host host_keys = elim (load sys config) [
    | err e ↦ err (load_error e)
    | ok cfg ↦ elim (prepare none cfg host host_keys) [
      | err e ↦ err (run_error e)
      | ok (s, ps) ↦ ok (cfg, s, ps)
    ]
  ]
