-- ===== src/Shell/Interpreter/RoundTrip.antt =====
-- Files that one command writes by a redirection and the next one reads.
use sshmux.Base.{
  Text, codes, false, some, List, [], ◌∷◌, ◌++◌, text_eq, nat_eq, ok, ◌≡◌, refl, ap, ◌∙◌,
  append-nil, has_suffix, has_prefix, strip,
}
use mathlib.Core.List.{reverse-append}
use sshmux.Shell.Syntax.{write_out, no_redirs, redir, no_stmts, stmt_of}
use sshmux.Shell.WriteFs.{WriteFs}
use sshmux.Shell.WriteFs.Writing.{IsLive}
use sshmux.Shell.State.{Shell, load, store}
use sshmux.Shell.Ran.{printed, before, newline}
use sshmux.Shell.Reading.{ended, cat_files, join_blank, run_echo, run_cat}
use sshmux.Shell.Builtins.Copying.{place, load-store}
use sshmux.Shell.Builtins.{run_args, run_builtin}
use sshmux.Shell.Interpreter.{write_back, then_run, run_file, word}
use sshmux.Shell.Interpreter.Scripts.{
  lit_word, command, run_stmt-plain, run_stmt-to_file, builtin-echo, builtin-cat,
}

-- A text that ends with a newline gets no other.
pub ended_of_line : (t : Text) → ended (t ++ newline) ≡ t ++ newline
unfolding ended has_suffix nat_eq
ended_of_line t = rw (reverse-append t newline, has_prefix, strip) refl

run_args-echo :
    (args : List Text) (s : Shell)
    → run_args s (codes "echo") args ≡ printed s (join_blank args ++ newline)
unfolding run_args run_builtin run_echo
run_args-echo args s = rw (builtin-echo, run_args) refl

run_args-cat :
    (name : Text) (s : Shell) → run_args s (codes "cat") (name ∷ []) ≡ cat_files s (name ∷ [])
unfolding run_args run_builtin run_cat
run_args-cat name s = rw (builtin-cat, run_args) refl

cat_files-line :
    (name text : Text) (s : Shell)
    → load s name ≡ ok (text ++ newline)
    → cat_files s (name ∷ []) ≡ printed s (text ++ newline)
unfolding cat_files
cat_files-line name text s h =
    rw (h, cat_files) (ap (printed s) (append-nil (ended (text ++ newline)) ∙ ended_of_line text))

write_back-printed :
    (s : Shell) (w : WriteFs) (name text : Text)
    → store s name text false ≡ ok w
    → write_back (some (name, false)) (printed s text) ≡ printed (record s { fs = w }) []
unfolding write_back
write_back-printed s w name text h = rw (h, write_back) refl

-- `echo` to a file and then `cat` of that file prints the arguments with blanks between them, in a
-- line, and changes nothing but the file system, which is what the write made it. The conditions
-- are that the write succeeds, and that the file's name is not that of a made directory that is
-- marked as deleted, as a rename of it leaves it.
pub run_file-echo_cat :
    (args : List Text) (name : Text) (s : Shell) (w : WriteFs)
    → IsLive s.fs (place s name)
    → store s name (join_blank args ++ newline) false ≡ ok w
    → run_file
        (stmt_of
          (command (codes "echo") args (redir write_out (lit_word name) no_redirs))
          (stmt_of (command (codes "cat") (name ∷ []) no_redirs) no_stmts))
        s
      ≡ printed (record s { fs = w }) (join_blank args ++ newline)
unfolding word
run_file-echo_cat args name s w live h =
    let text = join_blank args ++ newline in
    let s' = record s { fs = w } in
    let wrote =
      run_stmt-to_file (codes "echo") args name s
      ∙ ap (write_back (some (name, false))) (run_args-echo args s)
      ∙ write_back-printed s w name text h in
    let read =
      run_stmt-plain (codes "cat") (name ∷ []) s'
      ∙ run_args-cat name s'
      ∙ cat_files-line name (join_blank args) s' (load-store s w name text live h) in
    let cat_next = stmt_of (command (codes "cat") (name ∷ []) no_redirs) no_stmts in
    ap (λ r. then_run r (λ t. run_file cat_next t)) wrote
    ∙ ap (λ r. before [] (then_run r (λ t. printed t []))) read
    ∙ ap (printed s') (append-nil text)
