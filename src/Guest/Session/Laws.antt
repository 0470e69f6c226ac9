-- ===== src/Guest/Session/Laws.antt =====
-- What a guest session starts, and the settings of a guest that runs.
use sshmux.Base.{
  Text, codes, true, none, some, [], ◌∷◌, text_eq, ok, ◌≡◌, ◌≢◌, refl, arith, trim_space, Option, ℤ,
  pos, get_or, is_some, false,
}
use sshmux.Externals.{Libs}
use sshmux.Errors.{as_exec_exit}
use sshmux.Guest.Session.{
  Run, start_failed, waited, run_with_pty, run_direct, run_session, is_expected_exit,
  session_outcome, Settings, GuestPty, session_command, cmp_or, Variables, GuestConfig, init,
  is_positive,
}

-- With a PTY the command that the client requested is not run: every request starts the same
-- interactive shell. Without a PTY a requested command is passed to the shell whole.
pub session_command-pty :
    (g : Settings) (pty : GuestPty) (raw other : Text)
    → raw ≢ []
    → (session_command g (some pty) raw ≡ session_command g (some pty) other)
      × ((session_command g (some pty) raw).args ≡ codes "-li" ∷ [])
      × ((session_command g none raw).args ≡ codes "-lc" ∷ raw ∷ [])
unfolding session_command
session_command-pty g pty raw other h = (refl, refl, ground arith)

-- What the command of a session came to, as the client should see it: its exit code, if it had one.
abbrev pub own_code : Run → Option ℤ
own_code (start_failed e) = none
own_code (waited none) = some (pos 0)
own_code (waited (some e)) = as_exec_exit e

-- With a PTY or without, the client gets the exit code of the command, also out of an error that wraps
-- it, and 1 where there is none; and an error is logged only if there is none.
pub session_outcome_lem :
    (pty : Option GuestPty) (r : Run)
    → ((session_outcome pty r).0 ≡ get_or (own_code r) (pos 1))
      × (is_some (own_code r) ≡ true → (session_outcome pty r).1 ≡ false)
unfolding session_outcome run_session run_with_pty run_direct is_expected_exit
session_outcome_lem none r = ground arith
session_outcome_lem (some pty) r = ground arith

-- A guest that comes up has keys that parse from its variables, a positive timeout and a shell and
-- a home that are not empty.
pub record IsUsable {L : Libs} (v : Variables) (g : GuestConfig L) : Type 0 where
  pub host : L.parse_private_key (trim_space v.guest_host_key) ≡ some g.host_key
  pub allowed : L.parse_authorized_key (trim_space v.guest_allow_key) ≡ some g.allow_key
  pub positive : is_positive g.idle_timeout ≡ true
  pub has_shell : g.shell ≢ []
  pub has_home : g.home ≢ []

cmp_or-ne-nil : (s t : Text) → t ≢ [] → cmp_or s t ≢ []
unfolding cmp_or
cmp_or-ne-nil s t h = ground arith

pub init-IsUsable : {L : Libs} (v : Variables) (g : GuestConfig L) → init L v ≡ ok g → IsUsable v g
unfolding init
init-IsUsable v g h =
    ground
      (arith, cmp_or-ne-nil v.shell (codes "/bin/sh"), cmp_or-ne-nil v.home (codes "/home/user"))
