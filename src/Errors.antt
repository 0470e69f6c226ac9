-- ===== src/Errors.antt =====
-- Go errors, and `errors.As` for the two types of error that carry an exit code.
use sshmux.Base.{Text, Option, none, some, ℤ}

-- A Go error, as far as `errors.As` looks into it.
pub data Error : Type 0 where
  -- `*exec.ExitError`, with its exit code
  exec_exit : ℤ → Error
  -- `*gossh.ExitError`, with its exit status
  ssh_exit : ℤ → Error
  -- any other error, with its text
  message : Text → Error
  -- `fmt.Errorf("...: %w", err)`
  wrap : Text → Error → Error

-- `errors.As(err, &exitErr)` for `*exec.ExitError`
unfoldable pub as_exec_exit : Error → Option ℤ
as_exec_exit (exec_exit code) = some code
as_exec_exit (ssh_exit code) = none
as_exec_exit (message text) = none
as_exec_exit (wrap text e) = as_exec_exit e

-- `errors.As(err, &sshExitErr)` for `*gossh.ExitError`
unfoldable pub as_ssh_exit : Error → Option ℤ
as_ssh_exit (exec_exit code) = none
as_ssh_exit (ssh_exit code) = some code
as_ssh_exit (message text) = none
as_ssh_exit (wrap text e) = as_ssh_exit e
