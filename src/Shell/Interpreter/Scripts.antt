-- ===== src/Shell/Interpreter/Scripts.antt =====
-- Scripts of plain commands: their order, what `exit` does, what a substitution leaves behind, and
-- files that are written and read by redirections.
use sshmux.Base.{
  Text, codes, false, none, ◌≢◌, ◌++◌, some, List, [], ◌∷◌, text_eq, nat_eq, ok, ◌≡◌, refl, arith,
  ap, sym, ◌∙◌, Option-cases, inl, inr, append-nil, append_assoc,
}
use mathlib.Core.Path.{fun_ext}
use sshmux.Shell.Syntax.{
  write_out, lit, Word, no_parts, part_of, Words, no_words, word_of, no_assigns, Redirs, no_redirs,
  redir, Stmt, call, Stmts, no_stmts, stmt_of,
}
use sshmux.Shell.State.{Failure, Shell}
use sshmux.Shell.Ran.{Ran, printed, before}
use sshmux.Shell.Builtins.{builtin, run_builtin, cat, cd, echo, exit, run_args}
use sshmux.Shell.Interpreter.{
  Locals, not_redirected, redirect, write_back, run_redirected, run_call, with_value, then_run,
  word, words, redirs, run_stmt, run_file,
}

-- Words without expansions
abbrev pub lit_word : Text → Word
lit_word t = part_of (lit t) no_parts

abbrev pub lit_words : List Text → Words
lit_words [] = no_words
lit_words (t ∷ ts) = word_of (lit_word t) (lit_words ts)

-- A command of plain words, with redirections
abbrev pub command : Text → List Text → Redirs → Stmt
command name args rs = call no_assigns (lit_words (name ∷ args)) rs

word-lit_word : (t : Text) (locals : Locals) (s : Shell) → word (lit_word t) locals s ≡ (ok t, s)
unfolding word
word-lit_word t locals s = ap (λ u. (ok u, s)) (append-nil t)

words-lit_words :
    (ts : List Text) (locals : Locals) (s : Shell) → words (lit_words ts) locals s ≡ (ok ts, s)
unfolding word
words-lit_words [] locals s = refl
words-lit_words (t ∷ ts) locals s =
    ground (arith, word-lit_word t locals s, words-lit_words ts locals s)

run_stmt-command :
    (name : Text) (args : List Text) (rs : Redirs) (s : Shell)
    → run_stmt (command name args rs) s
      ≡ with_value (redirs rs [] not_redirected s) (λ d s'. run_redirected d s' name args)
unfolding word run_call
run_stmt-command name args rs s = rw (words-lit_words (name ∷ args) [] s, with_value) refl

-- Without redirections it is the command.
pub run_stmt-plain :
    (name : Text) (args : List Text) (s : Shell)
    → run_stmt (command name args no_redirs) s ≡ run_args s name args
run_stmt-plain name args s =
    run_stmt-command name args no_redirs s ∙ unfold word run_redirected write_back in refl

redirs_to_file :
    (t : Text) (locals : Locals) (s : Shell)
    → redirs (redir write_out (lit_word t) no_redirs) locals not_redirected s
      ≡ (ok (record not_redirected { target = some (t, false) }), s)
unfolding word redirect
redirs_to_file t locals s = ground (arith, word-lit_word t locals s)

pub run_stmt-to_file :
    (name : Text) (args : List Text) (t : Text) (s : Shell)
    → run_stmt (command name args (redir write_out (lit_word t) no_redirs)) s
      ≡ write_back (some (t, false)) (run_args s name args)
run_stmt-to_file name args t s =
    run_stmt-command name args (redir write_out (lit_word t) no_redirs) s
    ∙ unfold run_redirected in rw (redirs_to_file t [] s, with_value) refl

builtin-exit : builtin (codes "exit") ≡ some exit
unfolding builtin text_eq nat_eq
builtin-exit = refl

pub builtin-echo : builtin (codes "echo") ≡ some echo
unfolding builtin text_eq nat_eq
builtin-echo = refl

pub builtin-cat : builtin (codes "cat") ≡ some cat
unfolding builtin text_eq nat_eq
builtin-cat = refl

pub builtin-cd : builtin (codes "cd") ≡ some cd
unfolding builtin text_eq nat_eq
builtin-cd = refl

run_args-exit : (args : List Text) (s : Shell) → run_args s (codes "exit") args ≡ printed s []
unfolding run_args run_builtin
run_args-exit args s = rw (builtin-exit, run_args) refl

-- `exit` ends nothing: what follows it in a script runs as if it were not there.
pub run_file-exit :
    (args : List Text) (ts : Stmts) (s : Shell)
    → run_file (stmt_of (command (codes "exit") args no_redirs) ts) s ≡ run_file ts s
unfolding word
run_file-exit args ts s =
    ap (λ r. then_run r (λ s'. run_file ts s'))
      (run_stmt-plain (codes "exit") args s ∙ run_args-exit args s)

abbrev pub append_stmts : Stmts → Stmts → Stmts
append_stmts no_stmts us = us
append_stmts (stmt_of t ts) us = stmt_of t (append_stmts ts us)

then_run_assoc :
    (r : Ran) (f g : Shell → Ran) → then_run (then_run r f) g ≡ then_run r (λ s. then_run (f s) g)
then_run_assoc r f g = elim (Option-cases r.failed) [
  | inr (e, x) ↦ ground arith
  | inl x ↦ elim (Option-cases (f r.shell).failed) [
    | inr (e, y) ↦ ground arith
    | inl y ↦ ground (arith, append_assoc r.out (f r.shell).out (g (f r.shell).shell).out)
  ]
]

run_file_of_append :
    (ts us : Stmts) (s : Shell)
    → run_file (append_stmts ts us) s ≡ then_run (run_file ts s) (run_file us)
unfolding word
run_file_of_append no_stmts us s = refl
run_file_of_append (stmt_of t ts) us s =
    ap (then_run (run_stmt t s)) (fun_ext (λ s'. run_file_of_append ts us s'))
    ∙ sym (then_run_assoc (run_stmt t s) (λ s'. run_file ts s') (run_file us))

then_run_stop : (r : Ran) (f : Shell → Ran) → r.failed ≢ none → then_run r f ≡ r
then_run_stop r f h = elim (Option-cases r.failed) [
  | inl x ↦ absurd (h x)
  | inr (e, x) ↦ ground arith
]

then_run_go :
    (r : Ran) (f : Shell → Ran) → r.failed ≡ none → then_run r f ≡ before r.out (f r.shell)
then_run_go r f h = ground arith

run_file_of_failing :
    (t : Stmt) (us : Stmts) (s : Shell) (e : Failure)
    → (run_stmt t s).failed ≡ some e
    → run_file (stmt_of t us) s ≡ run_stmt t s
unfolding word
run_file_of_failing t us s e h = ground arith

-- How a script runs with more statements behind it.
pub record Sequenced (ts : Stmts) (s : Shell) : Type 0 where
  pub stops :
      (us : Stmts) → (run_file ts s).failed ≢ none → run_file (append_stmts ts us) s ≡ run_file ts s
  pub goes :
      (us : Stmts)
      → (run_file ts s).failed ≡ none
      → run_file (append_stmts ts us) s ≡ record {
        shell = (run_file us (run_file ts s).shell).shell;
        out = (run_file ts s).out ++ (run_file us (run_file ts s).shell).out;
        failed = (run_file us (run_file ts s).shell).failed;
      }
  pub error :
      (t : Stmt) (us : Stmts) (e : Failure)
      → (run_file ts s).failed ≡ none
      → (run_stmt t (run_file ts s).shell).failed ≡ some e
      → run_file (append_stmts ts (stmt_of t us)) s ≡ record {
        shell = (run_stmt t (run_file ts s).shell).shell;
        out = (run_file ts s).out ++ (run_stmt t (run_file ts s).shell).out;
        failed = some e;
      }

-- A script with more statements behind it: if it has an error, they do not run, and it ends as it does
-- without them; if it has none, they run from the shell that it left, their output stands behind its
-- own, and their error is the script's. The first statement with an error is the last that runs, and
-- its error is the script's.
pub run_file-append : (ts : Stmts) (s : Shell) → Sequenced ts s
run_file-append ts s = record {
  stops = λ us h. run_file_of_append ts us s ∙ then_run_stop (run_file ts s) (run_file us) h;
  goes = λ us h. run_file_of_append ts us s ∙ then_run_go (run_file ts s) (run_file us) h;
  error = λ t us e h k. ground (
    arith,
    run_file_of_append ts (stmt_of t us) s,
    then_run_go (run_file ts s) (run_file (stmt_of t us)) h,
    run_file_of_failing t us (run_file ts s).shell e k,
    k,
  );
}
