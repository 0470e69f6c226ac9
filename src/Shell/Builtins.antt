-- ===== src/Shell/Builtins.antt =====
-- support/hello-world-shell/cmd.go: the commands of the shell.
pub mod Files
pub mod Copying
pub mod Grep
pub mod Removed
use sshmux.Shell.Ran.{Ran, printed, refused, before, newline}
use sshmux.Shell.Reading.{
  say, run_pwd, run_whoami, run_clear, run_help, sort_by_name, entry_lines, is_missing, list_target,
  run_ls, ended, cat_files, run_cat, join_blank, run_echo, add_to_lines, lines, matching_lines,
  grep_text, grep_files, run_grep,
}
use sshmux.Base.{
  ℕ, Text, codes, Bool, true, false, not, ◌&&◌, ◌||◌, Option, none, some, List, [], ◌∷◌, ◌++◌, ◌==◌,
  nat_eq, text_eq, Result, ok, err, if◌then◌else◌, Map, lookup, insert, get_or, has_infix,
  has_suffix, is_empty,
}
use sshmux.Shell.Paths.{base, fs_name, join_path}
use sshmux.Shell.WriteFs.{
  DirEntry, WriteFs, FsError, not_exist, insert_sorted, read_dir, stat, read_file,
}
use sshmux.Shell.WriteFs.Operations.{is_directory, write, remove, mkdir, rmdir, rename, touch}
use sshmux.Shell.State.{
  Failure, no_arguments, at_most_one_path, at_least_one_path, source_and_destination,
  pattern_required, unknown_command, ls_no_directory, cd_no_directory, in_command, in_cp,
  file_system, Shell, clean_path, load, store,
}

-- The loops of `mkdir`, `rmdir`, `touch` and `rm`: what was done before an error stays.
unfoldable pub each_path :
    Text → (WriteFs → Text → Result FsError WriteFs) → Shell → List Text → Ran
each_path name op s [] = printed s []
each_path name op s (a ∷ args) = elim (op s.fs (clean_path s a)) [
  | err e ↦ refused s (in_command name e)
  | ok w ↦ each_path name op (record s { fs = w }) args
]

unfoldable pub some_paths :
    Text → (WriteFs → Text → Result FsError WriteFs) → Shell → List Text → Ran
unfolding each_path
some_paths name op s [] = refused s (at_least_one_path name)
some_paths name op s (a ∷ args) = each_path name op s (a ∷ args)

unfoldable pub run_mkdir : Shell → List Text → Ran
run_mkdir = some_paths (codes "mkdir") mkdir

unfoldable pub run_rmdir : Shell → List Text → Ran
run_rmdir = some_paths (codes "rmdir") rmdir

unfoldable pub run_touch : Shell → List Text → Ran
run_touch = some_paths (codes "touch") touch

unfoldable pub run_rm : Shell → List Text → Ran
run_rm = some_paths (codes "rm") remove

-- Where `cp` puts the copy: into the destination, if that is a directory.
unfoldable pub cp_target : Shell → Text → Text → Text
cp_target s src dst =
    let target = clean_path s dst in
    if is_directory (stat s.fs (fs_name target))
    then join_path target (base (clean_path s src))
    else target

-- After an operation of the file system
abbrev pub changed : Shell → (FsError → Failure) → Result FsError WriteFs → Ran
changed s f (err e) = refused s (f e)
changed s f (ok w) = printed (record s { fs = w }) []

unfoldable pub run_cp : Shell → List Text → Ran
run_cp s (src ∷ dst ∷ []) = elim (load s src) [
  | err f ↦ refused s (in_cp f)
  | ok content ↦ changed s file_system (store s (cp_target s src dst) content false)
]
run_cp s args = refused s (source_and_destination (codes "cp"))

unfoldable pub run_mv : Shell → List Text → Ran
run_mv s (src ∷ dst ∷ []) =
    changed s (in_command (codes "mv")) (rename s.fs (clean_path s src) (clean_path s dst))
run_mv s args = refused s (source_and_destination (codes "mv"))

-- `cd` to a directory
unfoldable pub change_dir : Shell → Text → Ran
change_dir s target =
    if is_directory (stat s.fs (fs_name target))
    then printed (record s { cwd = target; env = insert (codes "PWD") target s.env }) []
    else refused s (cd_no_directory target)

-- `cd`; `s.env["HOME"]` is empty if it is not set.
unfoldable pub run_cd : Shell → List Text → Ran
unfolding change_dir
run_cd s [] = change_dir s (get_or (lookup (codes "HOME") s.env) [])
run_cd s (a ∷ []) = change_dir s (clean_path s a)
run_cd s (a ∷ b ∷ args) = refused s (at_most_one_path (codes "cd"))

-- The commands. `exit` does nothing.
pub data Builtin : Type 0 where
  cat cd clear cp echo exit grep help ls mkdir_cmd mv pwd rm rmdir_cmd touch_cmd whoami : Builtin

-- The names in the order of the `switch`
unfoldable pub builtin : Text → Option Builtin
builtin name =
    if name == codes "cat"
    then some cat
    else if name == codes "cd"
    then some cd
    else if name == codes "clear"
    then some clear
    else if name == codes "cp"
    then some cp
    else if name == codes "echo"
    then some echo
    else if name == codes "exit"
    then some exit
    else if name == codes "grep"
    then some grep
    else if name == codes "help"
    then some help
    else if name == codes "ls"
    then some ls
    else if name == codes "mkdir"
    then some mkdir_cmd
    else if name == codes "mv"
    then some mv
    else if name == codes "pwd"
    then some pwd
    else if name == codes "rm"
    then some rm
    else if name == codes "rmdir"
    then some rmdir_cmd
    else if name == codes "touch"
    then some touch_cmd
    else if name == codes "whoami"
    then some whoami
    else none

unfoldable pub run_builtin : Builtin → Shell → List Text → Ran
run_builtin cat s args = run_cat s args
run_builtin cd s args = run_cd s args
run_builtin clear s args = run_clear s args
run_builtin cp s args = run_cp s args
run_builtin echo s args = run_echo s args
run_builtin exit s args = printed s []
run_builtin grep s args = run_grep s args
run_builtin help s args = run_help s args
run_builtin ls s args = run_ls s args
run_builtin mkdir_cmd s args = run_mkdir s args
run_builtin mv s args = run_mv s args
run_builtin pwd s args = run_pwd s args
run_builtin rm s args = run_rm s args
run_builtin rmdir_cmd s args = run_rmdir s args
run_builtin touch_cmd s args = run_touch s args
run_builtin whoami s args = run_whoami s args

-- `runArgs` of the name and the arguments that follow it
unfoldable pub run_args : Shell → Text → List Text → Ran
run_args s name args = elim (builtin name) [
  | some b ↦ run_builtin b s args
  | none ↦ refused s (unknown_command name)
]
