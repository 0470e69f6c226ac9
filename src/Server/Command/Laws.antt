-- ===== src/Server/Command/Laws.antt =====
-- What the local command sees.
use sshmux.Base.{
  Text, codes, Bool, true, false, Option, none, some, List, [], ◌∷◌, ◌++◌, ◌==◌, text_eq, nat_eq,
  ok, if◌then◌else◌, is_ok, ◌≡◌, refl, arith, ◌∙◌, ◌↔◌, Option-cases, Bool-cases, inl, inr,
}
use mathlib.Core.Option
use sshmux.Server.Session.{Context, Session, Pty, roles_from_context, session_pty, pty_window_size}
use sshmux.Server.Proxy.{cut}
use sshmux.Server.Command.{join_comma, Launch, command_env, allows_pty, launch}

-- A variable of an entry `k=v`
abbrev entry_value : Text → Text → Option Text
entry_value name entry = elim (cut entry) [
  | none ↦ none
  | some (k, v) ↦ if k == name then some v else none
]

abbrev or_else : Option Text → Option Text → Option Text
or_else (some v) o = some v
or_else none o = o

-- The value of a variable in an environment: package exec keeps the last entry of each name.
unfoldable pub getenv : List Text → Text → Option Text
getenv [] name = none
getenv (entry ∷ env) name = or_else (getenv env name) (entry_value name entry)

getenv-append :
    (xs ys : List Text) (name : Text)
    → getenv (xs ++ ys) name ≡ or_else (getenv ys name) (getenv xs name)
unfolding getenv
getenv-append [] ys name = ground arith
getenv-append (x ∷ xs) ys name = ground (arith, getenv-append xs ys name)

-- The three variables of sshmux.
pub record Tells (env : List Text) (ctx : Context) (s : Session) : Type 0 where
  pub username : getenv env (codes "SSHMUX_USERNAME") ≡ some s.user
  pub command : getenv env (codes "SSHMUX_COMMAND") ≡ some s.raw_command
  pub roles : getenv env (codes "SSHMUX_ROLES") ≡ some (join_comma (roles_from_context ctx))

command_env-Tells :
    (environ : List Text) (ctx : Context) (s : Session) → Tells (command_env environ ctx s) ctx s
unfolding command_env
command_env-Tells environ ctx s = record {
  username = getenv-append (environ ++ s.environ) _ _ ∙ unfold getenv cut nat_eq text_eq in refl;
  command = getenv-append (environ ++ s.environ) _ _ ∙ unfold getenv cut nat_eq text_eq in refl;
  roles = getenv-append (environ ++ s.environ) _ _ ∙ unfold getenv cut nat_eq text_eq in refl;
}

Tells-with_term :
    (term : Text) (env : List Text) (ctx : Context) (s : Session)
    → Tells env ctx s
    → Tells (env ++ (codes "TERM=" ++ term) ∷ []) ctx s
Tells-with_term term env ctx s t = record {
  username = getenv-append env _ _ ∙ unfold getenv cut nat_eq text_eq in t.username;
  command = getenv-append env _ _ ∙ unfold getenv cut nat_eq text_eq in t.command;
  roles = getenv-append env _ _ ∙ unfold getenv cut nat_eq text_eq in t.roles;
}

-- Whatever environment the client sends, the command sees the username, the requested command and
-- the roles that sshmux knows.
pub launch-Tells :
    (environ : List Text) (ctx : Context) (s : Session) (command : Text) (with_pty : Option Bool)
    (l : Launch)
    → launch environ ctx s command with_pty ≡ ok l
    → Tells l.env ctx s
unfolding launch
launch-Tells environ ctx s command with_pty l h = elim (Option-cases (session_pty ctx s)) [
  | inl e ↦
      let same : l.env ≡ command_env environ ctx s = ground arith in
      rw same (command_env-Tells environ ctx s)
  | inr (pty, e) ↦ elim (Bool-cases (allows_pty with_pty)) [
    | inl a ↦
        let same : l.env ≡ command_env environ ctx s ++ (codes "TERM=" ++ pty.term) ∷ [] =
          ground arith in
        rw same (Tells-with_term pty.term _ ctx s (command_env-Tells environ ctx s))
    | inr a ↦
        let same : l.env ≡ command_env environ ctx s = ground arith in
        rw same (command_env-Tells environ ctx s)
  ]
]

-- A command that starts has a local PTY exactly if the client has one and `run.pty` is not false, in
-- the client's size, cut to 16 bits.
pub launch-pty :
    (environ : List Text) (ctx : Context) (s : Session) (command : Text) (with_pty : Option Bool)
    (l : Launch)
    → launch environ ctx s command with_pty ≡ ok l
    → l.pty ≡ (
        if allows_pty with_pty
        then Option.map (λ (p : Pty). pty_window_size p.window) (session_pty ctx s)
        else none)
unfolding launch
launch-pty environ ctx s command none l h = ground arith
launch-pty environ ctx s command (some b) l h = ground arith

-- A command is refused exactly if `run.pty` is true and the client has no PTY.
pub launch-refuses :
    (environ : List Text) (ctx : Context) (s : Session) (command : Text) (with_pty : Option Bool)
    → (is_ok (launch environ ctx s command with_pty) ≡ false)
      ↔ ((with_pty ≡ some true) × (session_pty ctx s ≡ none))
unfolding launch
launch-refuses environ ctx s command none = ground arith
launch-refuses environ ctx s command (some b) = ground arith
