-- ===== src/Lib.antt =====
-- A verification library for sshmux, an SSH server that sends each session, by its username, to a
-- local command, to another SSH server or to a guest in the cloud.
--
-- The parts of the program, and the files that model them:
--
-- - internal/config: Config.antt has the types of config.go; Config/Pattern.antt is pattern.go
--   (`ParsePattern`, `Match`), Config/SshKey.antt is sshkey.go (`ParseSSHKey`, `IsZero`),
--   Config/Unmarshal.antt has the JSON methods, Config/Validate.antt is `validate`.
-- - internal/server: Server/Session.antt is role.go and pty.go, with the context of a connection
--   passed as a state; Server/Auth.antt is auth.go (`publicKeyRoles`, `passwordRoles`, `canReachRoute`,
--   `authCallbacks`, `WithAuth`); Server/Router.antt is router.go and `ExitCode` of server.go, where
--   `mux` is the handler of `MuxMiddleware` over a record of the three handlers; Server/Proxy.antt is
--   proxy.go, with its threads in Server/Proxy/Forwarding.antt; Server/Command.antt is cmd.go, with
--   the threads that copy the output of a PTY in Server/Command/Terminal.antt; Server/Login.antt joins authentication and routing;
--   Server/Run.antt is `Load` of config.go, `Run` and `ServerOptions` of server.go, and `run` of
--   cmd/sshmux/main.go; Server/Run/Signals.antt has the threads of `Run` as a step relation, with
--   the signals that arrive counted.
-- - internal/cloud: Cloud/Provider.antt is provider.go; Cloud/Unikraft.antt has the names, keys and
--   requests of unikraft.go, Cloud/Unikraft/Instances.antt its look-up, limit, creation, handshake and dial loop,
--   Cloud/Unikraft/Instances/Sources.antt says where its instances come from,
--   and Cloud/Unikraft/Keys.antt compares the keys of the two ends.
-- - support/guest: Guest/Idle.antt is the idle timer of main.go as a step relation, in which the
--   function of a timer may wait for the mutex after the timer is stopped; Guest/Modes.antt is
--   `terminalModesString`, Guest/Session.antt the rest of main.go and config.go.
-- - support/hello-world-shell: Shell/Paths.antt is package path as far as fs.go uses it, and
--   `fsName`; Shell/WriteFs.antt and Shell/WriteFs/Operations.antt are fs.go, with the maps as
--   association lists; Shell/WriteFs/Table.antt is its view as a table of entries, with
--   Shell/WriteFs/Guards.antt for what the table allows; Shell/WriteFs/Seen.antt and
--   Shell/WriteFs/Listing.antt are about `ReadDir`. Shell/Syntax.antt has the parts of a syntax tree
--   that shell.go tells apart, Shell/State.antt the `shell` and its files, Shell/Reading.antt and
--   Shell/Builtins.antt the commands of cmd.go, Shell/Interpreter.antt the rest of shell.go as
--   functions from a shell to a shell with its output and error, Shell/Interactive.antt `run` and
--   main.go.
--
-- A configuration that `validate` accepts is given to `BuildProviders` and to the server. The
-- authentication callbacks put roles into the context of the connection, and the router reads them
-- from there for each session.
--
-- Shared helpers stand in Base.antt and the files below it; Errors.antt has Go's errors as far as
-- `errors.As` looks into them. Strings are lists of bytes; Base/Utf8.antt
-- is `utf8.ValidString`, which `fs.ValidPath` asks of a name. Third-party code is a parameter:
-- Externals.antt has regular expressions, `path.Match`, SSH keys, htpasswd and the answers of the
-- operating system, `Crypto` and `Platform` below Cloud/Unikraft the cryptography and the platform, and
-- the read-only file system of the shell is a function. Tests.antt has runs of the definitions.
--
-- All loops over lists are structural. The loop of `Dial` recurses on the list that says how each of
-- its waits ends; it gives no result only if the list ends before the loop does. `TrimSpace` recurses
-- on the length of its text, and each round drops a byte.
--
-- The interpreter of the shell recurses on the syntax tree: a substitution holds a smaller script.
--
-- Not modelled: the copying of input to a command or a backend; interrupts while a command of the
-- guest's shell runs; parsing of flags, of YAML and of shell scripts; logging.
pub mod Base
pub mod Errors
pub mod Externals
pub mod Config
pub mod Cloud
pub mod Server
pub mod Guest
pub mod Shell
pub mod Tests
