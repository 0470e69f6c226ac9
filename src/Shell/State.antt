-- ===== src/Shell/State.antt =====
-- The state of the shell in support/hello-world-shell/shell.go, its errors, and its access to files.
use sshmux.Base.{Text, codes, Bool, [], ◌∷◌, text_eq, Result, ok, err, if◌then◌else◌, Map}
use sshmux.Shell.Paths.{is_abs, clean, join_path, fs_name}
use sshmux.Shell.WriteFs.{WriteFs, FsError, stat, read_file}
use sshmux.Shell.WriteFs.Operations.{is_directory, write}

-- The errors of shell.go and cmd.go.
pub data Failure : Type 0 where
  -- "pwd takes no arguments", and so on
  no_arguments : Text → Failure
  -- "ls takes at most one path"
  at_most_one_path : Text → Failure
  -- "mkdir requires at least one path"
  at_least_one_path : Text → Failure
  -- "cp requires source and destination"
  source_and_destination : Text → Failure
  -- "grep requires a pattern"
  pattern_required : Failure
  -- "unknown command %q"
  unknown_command : Text → Failure
  -- "ls: %s: no such directory"
  ls_no_directory : Text → Failure
  -- "cd: %s: not a directory"
  cd_no_directory : Text → Failure
  -- "cat: %s: is a directory", "cat: %s: no such file"
  cat_directory : Text → Failure
  cat_no_file : Text → Failure
  -- "mkdir: %w", and so on
  in_command : Text → FsError → Failure
  -- "cp: %w"
  in_cp : Failure → Failure
  -- an error of the file system as it is
  file_system : FsError → Failure
  -- "operators, background jobs, and coprocesses are not supported"
  unsupported_operator : Failure
  -- "unsupported command %T"
  unsupported_command : Failure
  -- "unsupported parameter expansion"
  unsupported_parameter : Failure
  -- "unsupported expansion or quoting %T"
  unsupported_part : Failure
  -- "unsupported redirect %s"
  unsupported_redirect : Failure
  -- an error of the parser
  parse_error : Failure

-- `shell`. `input` is what can still be read from `in`; what is written to `out` is a result of each
-- function.
pub record Shell : Type 0 where
  pub fs : WriteFs
  pub cwd : Text
  pub env : Map Text Text
  pub input : Text

abbrev pub home_guest : Text
home_guest = codes "/home/guest"

-- `newShell`
abbrev pub new_shell : WriteFs → Text → Shell
new_shell fsys input = record {
  fs = fsys;
  cwd = home_guest;
  env = (codes "HOME", home_guest) ∷ (codes "PWD", home_guest) ∷ [];
  input = input;
}

-- `shell.clean`
unfoldable pub clean_path : Shell → Text → Text
clean_path s name = if is_abs name then clean name else clean (join_path s.cwd name)

-- `shell.readFile`
unfoldable pub load : Shell → Text → Result Failure Text
load s name =
    let path = clean_path s name in
    elim (read_file s.fs (fs_name path)) [
      | ok content ↦ ok content
      | err e ↦
          if is_directory (stat s.fs (fs_name path))
          then err (cat_directory path)
          else err (cat_no_file path)
    ]

-- `shell.writeFile`
unfoldable pub store : Shell → Text → Text → Bool → Result FsError WriteFs
store s name content append = write s.fs (clean_path s name) content append
