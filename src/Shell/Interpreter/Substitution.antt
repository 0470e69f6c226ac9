-- ===== src/Shell/Interpreter/Substitution.antt =====
-- What a command substitution leaves behind.
use sshmux.Base.{Text, codes, true, [], ◌∷◌, ◌++◌, ok, insert, text_eq, ◌≡◌, refl, ap, ◌∙◌}
use sshmux.Shell.Syntax.{Stmt, cmd_subst, no_parts, part_of, no_redirs, no_stmts, stmt_of}
use sshmux.Shell.Paths.{fs_name}
use sshmux.Shell.WriteFs.{stat}
use sshmux.Shell.WriteFs.Operations.{is_directory}
use sshmux.Shell.State.{Shell, clean_path}
use sshmux.Shell.Ran.{printed}
use sshmux.Shell.Builtins.{run_args, run_builtin, run_cd, change_dir}
use sshmux.Shell.Interpreter.{
  Locals, ◌>>=◌, return, substituted, then_run, word, run_file, trim_newlines, drop_newlines,
}
use sshmux.Shell.Interpreter.Scripts.{command, run_stmt-plain, builtin-cd}

-- `cd` to a place
abbrev pub cd_to : Text → Stmt
cd_to d = command (codes "cd") (d ∷ []) no_redirs

-- The shell in which the variable `PWD` has another value
abbrev pub with_pwd : Shell → Text → Shell
with_pwd s d = record s { env = insert (codes "PWD") d s.env }

run_stmt-cd :
    (d : Text) (s : Shell)
    → is_directory (stat s.fs (fs_name (clean_path s d))) ≡ true
    → run_args s (codes "cd") (d ∷ [])
      ≡ printed (record (with_pwd s (clean_path s d)) { cwd = clean_path s d }) []
unfolding run_args run_builtin run_cd change_dir
run_stmt-cd d s h = rw (builtin-cd, run_args) (rw (h, change_dir) refl)

run_file-cd_to :
    (d : Text) (s : Shell)
    → is_directory (stat s.fs (fs_name (clean_path s d))) ≡ true
    → run_file (stmt_of (cd_to d) no_stmts) s
      ≡ printed (record (with_pwd s (clean_path s d)) { cwd = clean_path s d }) []
unfolding word
run_file-cd_to d s h =
    ap (λ r. then_run r (λ t. printed t []))
      (run_stmt-plain (codes "cd") (d ∷ []) s ∙ run_stmt-cd d s h)

-- `cd` to a directory in a substitution expands to nothing and leaves the working directory as it was;
-- but the variable `PWD` names the other directory from then on.
pub word-cd_to :
    (d : Text) (locals : Locals) (s : Shell)
    → is_directory (stat s.fs (fs_name (clean_path s d))) ≡ true
    → word (part_of (cmd_subst (stmt_of (cd_to d) no_stmts)) no_parts) locals s
      ≡ (ok [], with_pwd s (clean_path s d))
unfolding word trim_newlines drop_newlines
word-cd_to d locals s h =
    ap (λ r. ((λ t. substituted s r) >>= λ value. return (value ++ [])) s) (run_file-cd_to d s h)
