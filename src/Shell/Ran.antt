-- ===== src/Shell/Ran.antt =====
-- What a command of the guest's shell comes to.
use sshmux.Base.{Text, Option, none, some, [], ◌∷◌, ◌++◌, nat_eq, text_eq}
use sshmux.Shell.State.{Failure, Shell}

-- What a command comes to: the shell afterwards, what was written to its output, and its error.
pub record Ran : Type 0 where
  pub shell : Shell
  pub out : Text
  pub failed : Option Failure

abbrev pub printed : Shell → Text → Ran
printed s t = record { shell = s; out = t; failed = none }

abbrev pub refused : Shell → Failure → Ran
refused s f = record { shell = s; out = []; failed = some f }

-- What is written before the rest.
abbrev pub before : Text → Ran → Ran
before t r = record r { out = t ++ r.out }

abbrev pub newline : Text
newline = 10 ∷ []
