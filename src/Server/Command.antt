-- ===== src/Server/Command.antt =====
-- internal/server/cmd.go: the local command of a route.
pub mod Laws
pub mod Terminal
use sshmux.Base.{
  ℕ, Text, codes, Bool, true, false, not, ◌&&◌, ◌||◌, Option, none, some, List, [], ◌∷◌, ◌++◌,
  Result, ok, err, if◌then◌else◌, is_some,
}
use sshmux.Errors.{Error, message, wrap}
use sshmux.Server.Session.{
  Context, Session, Pty, Winsize, roles_from_context, session_pty, pty_window_size,
}

-- `strings.Join(parts, ",")`
unfoldable pub join_comma : List Text → Text
join_comma [] = []
join_comma (p ∷ []) = p
join_comma (p ∷ q ∷ ps) = p ++ b',' ∷ join_comma (q ∷ ps)

-- `exec.Cmd`: the arguments, the environment, and the size of the local PTY, if one is allocated.
pub record Launch : Type 0 where
  pub args : List Text
  pub env : List Text
  pub pty : Option Winsize

-- The environment without `TERM`. `environ` is `os.Environ()`.
unfoldable pub command_env : List Text → Context → Session → List Text
command_env environ ctx s =
    (environ ++ s.environ)
    ++ (codes "SSHMUX_USERNAME=" ++ s.user)
      ∷ (codes "SSHMUX_COMMAND=" ++ s.raw_command)
      ∷ (codes "SSHMUX_ROLES=" ++ join_comma (roles_from_context ctx))
      ∷ []

-- `withPTY == nil || *withPTY`
abbrev pub allows_pty : Option Bool → Bool
allows_pty none = true
allows_pty (some b) = b

-- `withPTY != nil && *withPTY`
abbrev pub requires_pty : Option Bool → Bool
requires_pty none = false
requires_pty (some b) = b

-- `runCmd` up to the start of the command
unfoldable pub launch : List Text → Context → Session → Text → Option Bool → Result Error Launch
launch environ ctx s command with_pty =
    let args = codes "sh" ∷ codes "-c" ∷ command ∷ [] in
    let env = command_env environ ctx s in
    let plain = ok (record { args = args; env = env; pty = none }) in
    elim (session_pty ctx s) [
      | none ↦
          if requires_pty with_pty
          then err (message (codes "pty requested but client did not allocate one"))
          else plain
      | some pty ↦
          if allows_pty with_pty
          then ok (record {
            args = args;
            env = env ++ (codes "TERM=" ++ pty.term) ∷ [];
            pty = some (pty_window_size pty.window);
          })
          else plain
    ]

-- What the start and the end of the command answer; `none` is no error.
pub record Process : Type 0 where
  pub to_start : Option Error
  pub to_wait : Option Error

-- `runCmd`
unfoldable pub run_cmd : List Text → Process → Context → Session → Text → Option Bool → Option Error
unfolding launch
run_cmd environ p ctx s command with_pty = elim (launch environ ctx s command with_pty) [
  | err e ↦ some e
  | ok l ↦ elim p.to_start [
    | some e ↦
        some (if is_some l.pty then wrap (codes "start pty cmd") e else wrap (codes "start cmd") e)
    | none ↦ p.to_wait
  ]
]
