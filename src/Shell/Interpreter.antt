-- ===== src/Shell/Interpreter.antt =====
-- The interpreter of support/hello-world-shell/shell.go. The file system, the variables and the input
-- are shared with command substitutions; the working directory is not.
pub mod Induction
pub mod Files
pub mod Scripts
pub mod RoundTrip
pub mod Substitution
use sshmux.Base.{
  Text, Bool, true, false, Option, none, some, List, [], ◌∷◌, ◌++◌, ◌==◌, nat_eq, text_eq, Result,
  ok, err, if◌then◌else◌, Map, lookup, insert, get_or, is_some, reverse,
}
use sshmux.Shell.Syntax.{
  RedirOp, write_out, append_out, read_in, other_redir, Part, lit, sgl_quoted, dbl_quoted, param,
  no_param, cmd_subst, other_part, Word, no_parts, part_of, Words, no_words, word_of, Assigns,
  no_assigns, assign, declare, Redirs, no_redirs, redir, Stmt, with_operator, other_cmd, call,
  Stmts, no_stmts, stmt_of,
}
use sshmux.Shell.State.{
  Failure, file_system, unsupported_operator, unsupported_command, unsupported_parameter,
  unsupported_part, unsupported_redirect, Shell, load, store,
}
use sshmux.Shell.Ran.{Ran, printed, refused, before}
use sshmux.Shell.Builtins.{run_args}

-- What the expansion of words may do to the shell, also where it fails.
abbrev pub M : Type 0 → Type 0
M A = Shell → Result Failure A × Shell

infixl 5 ◌>>=◌
abbrev pub ◌>>=◌ : {A B : Type 0} → M A → (A → M B) → M B
◌>>=◌ m f s = let (r, s') = m s in elim r [ err e ↦ (err e, s') | ok a ↦ f a s' ]

abbrev pub return : {A : Type 0} → A → M A
return a s = (ok a, s)

abbrev pub fail : {A : Type 0} → Failure → M A
fail e s = (err e, s)

abbrev pub Locals : Type 0
Locals = Map Text Text

-- A variable: of the statement, or else of the shell, or else empty.
unfoldable pub variable : Text → Locals → Shell → Text
variable name locals s = elim (lookup name locals) [
  | some value ↦ value
  | none ↦ get_or (lookup name s.env) []
]

-- `strings.TrimRight(s, "\n")`
unfoldable pub drop_newlines : Text → Text
drop_newlines [] = []
drop_newlines (c ∷ s) = if c == 10 then drop_newlines s else c ∷ s

unfoldable pub trim_newlines : Text → Text
unfolding drop_newlines
trim_newlines s = reverse (drop_newlines (reverse s))

-- The end of `commandSubstitution`: the child was a copy of the shell, so that its working directory
-- is dropped, and what it shares is kept.
abbrev pub substituted : Shell → Ran → Result Failure Text × Shell
substituted s r = (
  elim r.failed [ some e ↦ err e | none ↦ ok (trim_newlines r.out) ],
  record r.shell { cwd = s.cwd },
)

-- The assignments of a statement without arguments, put into the variables of the shell.
unfoldable pub set_env : Locals → Map Text Text → Map Text Text
set_env [] env = env
set_env ((name, value) ∷ locals) env = set_env locals (insert name value env)

-- The output and the input of a statement: the file that the output is written to at the end, with
-- whether it is appended to, and the text that is read.
pub record Redirected : Type 0 where
  pub target : Option (Text × Bool)
  pub source : Option Text

abbrev pub not_redirected : Redirected
not_redirected = record { target = none; source = none }

-- One redirection, once its word is expanded.
unfoldable pub redirect : RedirOp → Text → Redirected → M Redirected
redirect write_out target d s = return (record d { target = some (target, false) }) s
redirect append_out target d s = return (record d { target = some (target, true) }) s
redirect read_in target d s = elim (load s target) [
  | err e ↦ fail e s
  | ok content ↦ return (record d { source = some content }) s
]
redirect other_redir target d s = fail unsupported_redirect s

-- `writeback.fn`, called when the command has succeeded
unfoldable pub write_back : Option (Text × Bool) → Ran → Ran
write_back none r = r
write_back (some (target, append)) r = elim r.failed [
  | some e ↦ refused r.shell e
  | none ↦ elim (store r.shell target r.out append) [
    | err e ↦ refused r.shell (file_system e)
    | ok w ↦ printed (record r.shell { fs = w }) []
  ]
]

-- The command, with its input and its output. The input of the shell is left as it is if there is
-- another.
unfoldable pub run_redirected : Redirected → Shell → Text → List Text → Ran
unfolding write_back
run_redirected d s name args = elim d.source [
  | none ↦ write_back d.target (run_args s name args)
  | some content ↦
      let r = run_args (record s { input = content }) name args in
      write_back d.target (record r { shell = record r.shell { input = s.input } })
]

-- Goes on with the value of an expansion, or gives its error.
abbrev pub with_value : {A : Type 0} → Result Failure A × Shell → (A → Shell → Ran) → Ran
with_value (err e, s) f = refused s e
with_value (ok a, s) f = f a s

-- A statement, once its assignments and arguments are expanded. Without arguments it sets its
-- variables, and its redirections are not looked at.
unfoldable pub run_call : Locals → List Text → M Redirected → Shell → Ran
unfolding run_redirected set_env
run_call locals [] redirected s = printed (record s { env = set_env locals s.env }) []
run_call locals (name ∷ args) redirected s =
    with_value (redirected s) λ d s'. run_redirected d s' name args

-- The next statement runs if there was no error.
abbrev pub then_run : Ran → (Shell → Ran) → Ran
then_run r f = elim r.failed [ some e ↦ r | none ↦ before r.out (f r.shell) ]

unfoldable mutual
  unfolding variable

  -- `word`
  pub word : Word → Locals → M Text
  word no_parts locals = return []
  word (part_of p ps) locals = do
    value ← word_part p locals
    rest ← word ps locals
    return (value ++ rest)

  -- `wordPart`
  pub word_part : Part → Locals → M Text
  word_part (lit t) locals = return t
  word_part (sgl_quoted t) locals = return t
  word_part (dbl_quoted w) locals = word w locals
  word_part (param name) locals = λ s. (ok (variable name locals s), s)
  word_part no_param locals = fail unsupported_parameter
  word_part (cmd_subst stmts) locals = λ s. substituted s (run_file stmts s)
  word_part other_part locals = fail unsupported_part

  -- The loop over the arguments
  pub words : Words → Locals → M (List Text)
  words no_words locals = return []
  words (word_of w ws) locals = do arg ← word w locals; args ← words ws locals; return (arg ∷ args)

  -- The loop over the assignments: each sees those before it.
  pub assigns : Assigns → Locals → M Locals
  assigns no_assigns locals = return locals
  assigns (assign name w rest) locals = do
    value ← word w locals
    assigns rest (insert name value locals)
  assigns (declare name rest) locals = assigns rest (insert name [] locals)

  -- The loop over the redirections
  pub redirs : Redirs → Locals → Redirected → M Redirected
  redirs no_redirs locals d = return d
  redirs (redir op w rs) locals d = do
    target ← word w locals
    d' ← redirect op target d
    redirs rs locals d'

  -- `runStmt`
  pub run_stmt : Stmt → Shell → Ran
  run_stmt with_operator s = refused s unsupported_operator
  run_stmt other_cmd s = refused s unsupported_command
  run_stmt (call given ws rs) s = with_value (assigns given [] s) λ locals s₁.
      with_value (words ws locals s₁)
        λ args s₂. run_call locals args (redirs rs locals not_redirected) s₂

  -- `runFile`
  pub run_file : Stmts → Shell → Ran
  run_file no_stmts s = printed s []
  run_file (stmt_of t ts) s = then_run (run_stmt t s) (λ s'. run_file ts s')
