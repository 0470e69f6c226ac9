-- ===== src/Server/Session.antt =====
-- internal/server/role.go and pty.go: the context of a connection, its roles, and its PTY requests.
pub mod Requests
use sshmux.Base.{
  ℕ, ◌%◌, ◌^◌, Text, Option, none, some, List, [], ◌∷◌, ◌==◌, nat_eq, if◌then◌else◌, get_or,
}

-- `ssh.Window`
pub record Window : Type 0 where
  pub width : ℕ
  pub height : ℕ
  pub width_pixels : ℕ
  pub height_pixels : ℕ

-- `ssh.Pty`
pub record Pty : Type 0 where
  pub term : Text
  pub window : Window
  -- `gossh.TerminalModes`
  pub modes : List (ℕ × ℕ)

-- The values that `ssh.Context` holds for sshmux: the roles, and the PTY request of each session.
pub record Context : Type 0 where
  pub roles : Option (List Text)
  pub ptys : List (ℕ × Option Pty)

abbrev pub fresh_context : Context
fresh_context = record { roles = none; ptys = [] }

-- `ssh.Session`: what the client asked for. `id` is the identity of the session object, and `pty`
-- is what `s.Pty()` gives.
pub record Session : Type 0 where
  pub id : ℕ
  pub user : Text
  pub environ : List Text
  pub raw_command : Text
  pub pty : Option Pty

-- `ContextWithRoles`
unfoldable pub context_with_roles : Context → List Text → Context
context_with_roles ctx roles = record ctx { roles = some roles }

-- `RolesFromContext`, also named `G`
unfoldable pub roles_from_context : Context → List Text
roles_from_context ctx = get_or ctx.roles []

-- `ctx.Value(ptyRequestKey{session: s})`
unfoldable pub pty_value : List (ℕ × Option Pty) → ℕ → Option Pty
pty_value [] id = none
pty_value ((j, v) ∷ values) id = if id == j then v else pty_value values id

-- `ctx.SetValue(key, v)`: the latest value of a key is the one that is found.
unfoldable pub set_pty_value : Context → ℕ → Option Pty → Context
set_pty_value ctx id v = record ctx { ptys = (id, v) ∷ ctx.ptys }

-- The handler of `WithPtyRequests` stores the request.
unfoldable pub pty_handler : Context → Session → Pty → Context
pty_handler ctx s pty = set_pty_value ctx s.id (some pty)

-- The function that the handler returns, called when the session ends.
unfoldable pub pty_release : Context → Session → Context
pty_release ctx s = set_pty_value ctx s.id none

-- `sessionPty`, without the channel of window changes
unfoldable pub session_pty : Context → Session → Option Pty
session_pty ctx s = elim s.pty [ some pty ↦ some pty | none ↦ pty_value ctx.ptys s.id ]

-- `creackpty.Winsize`: four fields of type uint16
pub record Winsize : Type 0 where
  pub rows : ℕ
  pub cols : ℕ
  pub x : ℕ
  pub y : ℕ

-- `ptyWindowSize`: the conversions to uint16 wrap.
unfoldable pub pty_window_size : Window → Winsize
pty_window_size win = record {
  rows = win.height % 2 ^ 16;
  cols = win.width % 2 ^ 16;
  x = win.width_pixels % 2 ^ 16;
  y = win.height_pixels % 2 ^ 16;
}

-- What wakes the `select` of `resizePty`.
pub data Resize : Type 0 where
  -- a window change
  win : Window → Resize
  -- the channel of window changes is closed
  closed : Resize
  -- the command has ended
  done : Resize

-- `resizePty`: the sizes that are set, in order.
unfoldable pub resize_pty : List Resize → List Winsize
unfolding pty_window_size
resize_pty [] = []
resize_pty (win w ∷ events) = pty_window_size w ∷ resize_pty events
resize_pty (closed ∷ events) = []
resize_pty (done ∷ events) = []
