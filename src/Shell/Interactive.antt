-- ===== src/Shell/Interactive.antt =====
-- `run` of support/hello-world-shell/shell.go, and main.go: scripts, the loop over the lines that are
-- typed, and the command line.
pub mod Laws
use sshmux.Base.{
  ℕ, Text, codes, Bool, true, false, ◌||◌, Option, none, some, List, [], ◌∷◌, ◌++◌, ◌==◌, text_eq,
  if◌then◌else◌,
}
use sshmux.Shell.Syntax.{Stmts}
use sshmux.Shell.State.{Failure, parse_error, Shell}
use sshmux.Shell.Ran.{Ran, refused, newline}
use sshmux.Shell.Interpreter.{run_file}

-- What happens at the terminal between two commands: a line, or an interrupt.
pub data Event : Type 0 where
  typed : Text → Event
  interrupt : Event

-- What the loop comes to: the shell, what was written to its output, and the errors that were written
-- to its error output.
pub record Talk : Type 0 where
  pub shell : Shell
  pub out : Text
  pub errors : List Failure

-- What is said before the rest.
abbrev pub said : Text → Option Failure → Talk → Talk
said t none k = record k { out = t ++ k.out }
said t (some e) k = record k { out = t ++ k.out; errors = e ∷ k.errors }

-- `printPrompt`
abbrev pub prompt : Shell → Text
prompt s = s.cwd ++ codes " $ "

-- How the process ends: what it wrote, and its exit code.
pub record Ended : Type 0 where
  pub out : Text
  pub errors : List Failure
  pub code : ℕ

-- `parse` is the parser of mvdan.cc/sh for the Bash variant; `none` is its error.
module _ (parse : Text → Option Stmts) where
  -- `run`
  unfoldable pub run : Shell → Text → Ran
  run s src = elim (parse src) [ none ↦ refused s parse_error | some stmts ↦ run_file stmts s ]

  -- The loop of `runInteractive`, after a prompt. An interrupt starts a new line.
  unfoldable pub talk : Shell → List Event → Talk
  talk s [] = record { shell = s; out = newline; errors = [] }
  talk s (typed l ∷ events) =
      let r = run s l in said (r.out ++ prompt r.shell) r.failed (talk r.shell events)
  talk s (interrupt ∷ events) = said (newline ++ prompt s) none (talk s events)

  -- `runInteractive`
  unfoldable pub run_interactive : Shell → List Event → Talk
  unfolding talk
  run_interactive s events = said (prompt s) none (talk s events)

  -- The last part of `main`
  abbrev pub ended_by : Text → Talk → Ended
  ended_by t k = record { out = t ++ k.out; errors = k.errors; code = 0 }

  -- `main`, given the two flags
  unfoldable pub main : Text → Bool → Shell → List Event → Ended
  unfolding run run_interactive
  main command interactive s events =
      if command == []
      then ended_by [] (run_interactive s events)
      else let r = run s command in
        elim r.failed [
          | some e ↦ record { out = r.out; errors = e ∷ []; code = 1 }
          | none ↦
              if interactive
              then ended_by r.out (run_interactive r.shell events)
              else record { out = r.out; errors = []; code = 0 }
        ]
