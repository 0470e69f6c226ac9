-- ===== src/Tests/Scripts.antt =====
-- Scripts and conversations with the guest's shell, at concrete inputs.
use sshmux.Base.{
  ◌≤◌, Text, codes, true, false, Option, none, some, List, [], ◌∷◌, ◌++◌, ◌==◌, ◌≡◌, refl, ok,
  nat_eq, text_eq, trim_prefix, strip, lookup, insert, erase, if◌then◌else◌,
}
use sshmux.Shell.Paths.{
  split, join, go_up, clean_element, clean_elements, is_abs, clean, before_slash, from_slash, dir,
  drop_slashes, base, fs_name,
}
use sshmux.Shell.Syntax.{
  Stmts, write_out, dbl_quoted, param, cmd_subst, part_of, no_parts, word_of, no_words, no_assigns,
  assign, no_redirs, redir, call, no_stmts, stmt_of,
}
use sshmux.Shell.WriteFs.{
  new_write_fs, max_filesystem_bytes, is_set, read_node, open_file, handle_is_dir, stat,
  read_handle, read_file, used_without, check_space,
}
use sshmux.Shell.WriteFs.Operations.{is_directory, append_base, write}
use sshmux.Shell.WriteFs.Space.{used}
use sshmux.Shell.State.{Shell, new_shell, ls_no_directory, clean_path, load, store}
use sshmux.Shell.Ran.{printed, refused, newline}
use sshmux.Shell.Reading.{join_blank, lines, grep_text, run_echo, run_pwd, say, run_ls}
use sshmux.Shell.Builtins.{run_cp, cp_target, builtin, run_builtin, run_args}
use sshmux.Shell.Builtins.Copying.{Copied, run_cp-Copied, run_ls_of_new_file}
use sshmux.Shell.Builtins.Grep.{matching, lines-grep_text}
use sshmux.Shell.Interpreter.{
  variable, set_env, drop_newlines, trim_newlines, write_back, run_redirected, run_call, word,
  run_file,
}
use sshmux.Shell.Interpreter.Scripts.{lit_word, command, append_stmts, Sequenced, run_file-append}
use sshmux.Shell.Interpreter.RoundTrip.{run_file-echo_cat}
use sshmux.Shell.Interpreter.Substitution.{cd_to, with_pwd, word-cd_to}
use sshmux.Shell.Interactive.{Event, typed, interrupt, run_interactive}
use sshmux.Shell.Interactive.Laws.{run_interactive-Fits}
use sshmux.Tests.Shell.{base_fs, start, with_file, rooted, start-IsSound}

abbrev shell : Shell
shell = new_shell start []

-- `echo hi > /a`, and `cat /a`
abbrev pub write_a : Stmts
write_a =
    stmt_of
      (command (codes "echo") (codes "hi" ∷ []) (redir write_out (lit_word (codes "/a")) no_redirs))
      no_stmts

abbrev show_a : Stmts
show_a = stmt_of (command (codes "cat") (codes "/a" ∷ []) no_redirs) no_stmts

a_stored :
    store shell (codes "/a") (join_blank (codes "hi" ∷ []) ++ newline) false
    ≡ ok (with_file (codes "a") (codes "hi" ++ newline))
unfolding store clean_path join_blank write append_base stat open_file handle_is_dir check_space
    used_without is_set lookup insert erase fs_name dir base clean clean_elements clean_element
    go_up split join is_abs before_slash from_slash drop_slashes trim_prefix strip nat_eq text_eq
a_stored = refl

run_file-echo_cat_example :
    run_file (append_stmts write_a show_a) shell
    ≡ printed
        (record shell { fs = with_file (codes "a") (codes "hi" ++ newline) })
        (join_blank (codes "hi" ∷ []) ++ newline)
run_file-echo_cat_example =
    run_file-echo_cat (codes "hi" ∷ []) (codes "/a") shell
      (with_file (codes "a") (codes "hi" ++ newline)) (start-IsSound _) a_stored

run_file-append_example : Sequenced write_a shell
run_file-append_example = run_file-append write_a shell

abbrev in_root : Shell
in_root = new_shell (new_write_fs rooted) []

root_is_directory : is_directory (stat in_root.fs (fs_name (clean_path in_root (codes "/")))) ≡ true
unfolding clean_path stat open_file handle_is_dir is_set lookup fs_name clean clean_elements
    clean_element go_up split join is_abs trim_prefix strip nat_eq text_eq
root_is_directory = refl

word-cd_to_example :
    word (part_of (cmd_subst (stmt_of (cd_to (codes "/")) no_stmts)) no_parts) [] in_root
    ≡ (ok [], with_pwd in_root (clean_path in_root (codes "/")))
word-cd_to_example = word-cd_to (codes "/") [] in_root root_is_directory

b_copied : (run_cp shell (codes "/a" ∷ codes "/b" ∷ [])).failed ≡ none
unfolding run_cp cp_target load read_file read_handle read_node store clean_path write append_base
    stat open_file handle_is_dir check_space used_without is_set lookup insert erase fs_name dir
    base clean clean_elements clean_element go_up split join is_abs before_slash from_slash
    drop_slashes trim_prefix strip nat_eq text_eq
b_copied = refl

run_cp-Copied_example :
    Copied shell (codes "/a") (codes "/b") (run_cp shell (codes "/a" ∷ codes "/b" ∷ [])).shell
run_cp-Copied_example = run_cp-Copied shell (codes "/a") (codes "/b") (start-IsSound _) b_copied

b_stored : store shell (codes "/b") (codes "x") false ≡ ok (with_file (codes "b") (codes "x"))
unfolding store clean_path write append_base stat open_file handle_is_dir check_space used_without
    is_set lookup insert erase fs_name dir base clean clean_elements clean_element go_up split join
    is_abs before_slash from_slash drop_slashes trim_prefix strip nat_eq text_eq
b_stored = refl

b_is_new : start.base_fs (fs_name (clean_path shell (codes "/b"))) ≡ none
unfolding clean_path fs_name clean clean_elements clean_element go_up split join is_abs trim_prefix
    strip nat_eq text_eq
b_is_new = refl

abbrev with_b : Shell
with_b = record shell { fs = with_file (codes "b") (codes "x") }

run_ls_of_new_file_example :
    (load with_b (codes "/b") ≡ ok (codes "x"))
    × (run_ls with_b (codes "/b" ∷ [])
        ≡ refused with_b (ls_no_directory (clean_path shell (codes "/b"))))
run_ls_of_new_file_example =
    run_ls_of_new_file shell (with_file (codes "b") (codes "x")) (codes "/b") (codes "x")
      (start-IsSound _) b_is_new b_stored

abbrev two_lines : Text
two_lines = codes "one" ++ newline ++ codes "two" ++ newline

lines-grep_text_example :
    lines (grep_text (codes "w") two_lines) ≡ matching (codes "w") (lines two_lines) ++ [] ∷ []
lines-grep_text_example = lines-grep_text (codes "w") two_lines

-- A parser of one command, `w`
abbrev pub parse_w : Text → Option Stmts
parse_w src = if src == codes "w" then some write_a else none

abbrev typing : List Event
typing = typed (codes "w") ∷ interrupt ∷ typed (codes "x") ∷ []

run_interactive-Fits_example :
    (used (run_interactive parse_w (new_shell (new_write_fs base_fs) []) typing).shell.fs.files
      ≤ max_filesystem_bytes)
    × ((run_interactive parse_w (new_shell (new_write_fs base_fs) []) typing).shell.fs.base_fs
        ≡ base_fs)
run_interactive-Fits_example = run_interactive-Fits parse_w base_fs [] typing

-- `X=1; echo "$X" $(pwd)`
expansions_run :
    run_file
      (stmt_of (call (assign (codes "X") (lit_word (codes "1")) no_assigns) no_words no_redirs) (
        stmt_of
          (call no_assigns
            (word_of (lit_word (codes "echo")) (
              word_of (part_of (dbl_quoted (part_of (param (codes "X")) no_parts)) no_parts) (
                word_of
                  (part_of
                    (cmd_subst (stmt_of (command (codes "pwd") [] no_redirs) no_stmts))
                    no_parts)
                  no_words)))
            no_redirs)
          no_stmts))
      shell
    ≡ printed
        (record shell { env = (codes "X", codes "1") ∷ shell.env })
        (codes "1 /home/guest" ++ newline)
unfolding word run_call run_redirected write_back run_args run_builtin builtin run_pwd say run_echo
    join_blank variable set_env trim_newlines drop_newlines lookup insert erase nat_eq text_eq
expansions_run = refl
