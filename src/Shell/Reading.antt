-- ===== src/Shell/Reading.antt =====
-- support/hello-world-shell/cmd.go: the commands that only print.
use sshmux.Base.{
  ℕ, Text, codes, Bool, true, false, not, none, List, [], ◌∷◌, ◌++◌, ◌==◌, nat_eq, text_eq, ok, err,
  if◌then◌else◌, has_infix, has_suffix,
}
use sshmux.Shell.Paths.{base, fs_name}
use sshmux.Shell.WriteFs.{DirEntry, FsError, not_exist, invalid, insert_sorted, read_dir, read_file}
use sshmux.Shell.State.{
  no_arguments, at_most_one_path, pattern_required, ls_no_directory, file_system, Shell, clean_path,
  load,
}
use sshmux.Shell.Ran.{Ran, printed, refused, before, newline}

-- `pwd`, `whoami`, `clear` and `help`: a text, if there are no arguments.
unfoldable pub say : Text → Text → Shell → List Text → Ran
say name text s [] = printed s text
say name text s (a ∷ args) = refused s (no_arguments name)

unfoldable pub run_pwd : Shell → List Text → Ran
unfolding say
run_pwd s args = say (codes "pwd") (s.cwd ++ newline) s args

unfoldable pub run_whoami : Shell → List Text → Ran
unfolding say
run_whoami s args = say (codes "whoami") (codes "guest" ++ newline) s args

-- The escape sequences that put the cursor home and clear the screen.
unfoldable pub run_clear : Shell → List Text → Ran
unfolding say
run_clear s args = say (codes "clear") (27 ∷ codes "[H" ++ 27 ∷ codes "[2J") s args

unfoldable pub run_help : Shell → List Text → Ran
unfolding say
run_help s args =
    say (codes "help")
      (codes "builtins: cat cd clear cp echo exit grep help ls mkdir mv pwd rm rmdir touch whoami"
        ++ newline)
      s args

-- The lines of `ls`: the entries by name.
unfoldable pub sort_by_name : List DirEntry → List DirEntry
sort_by_name [] = []
sort_by_name (e ∷ entries) = insert_sorted e (sort_by_name entries)

unfoldable pub entry_lines : List DirEntry → Text
entry_lines [] = []
entry_lines (e ∷ entries) =
    (if e.is_dir then e.name ++ b'/' ∷ newline else e.name ++ newline) ++ entry_lines entries

-- Whether an error is `fs.ErrInvalid` or `fs.ErrNotExist`.
abbrev pub is_missing : FsError → Bool
is_missing (not_exist name) = true
is_missing (invalid name) = true
is_missing e = false

-- `ls` of a path
unfoldable pub list_target : Shell → Text → Ran
unfolding sort_by_name entry_lines
list_target s target = elim (read_dir s.fs (fs_name target)) [
  | ok entries ↦ printed s (entry_lines (sort_by_name entries))
  | err e ↦
      if is_missing e
      then refused s (ls_no_directory target)
      else elim (read_file s.fs (fs_name target)) [
        | ok content ↦ printed s (base target ++ newline)
        | err _ ↦ refused s (file_system e)
      ]
]

unfoldable pub run_ls : Shell → List Text → Ran
unfolding list_target
run_ls s [] = list_target s s.cwd
run_ls s (a ∷ []) = list_target s (clean_path s a)
run_ls s (a ∷ b ∷ args) = refused s (at_most_one_path (codes "ls"))

-- A newline is put behind a content that does not end with one.
unfoldable pub ended : Text → Text
ended content = if not (has_suffix content newline) then content ++ newline else content

-- The loop of `cat`
unfoldable pub cat_files : Shell → List Text → Ran
cat_files s [] = printed s []
cat_files s (a ∷ args) =
    let rest = cat_files s args in
    elim (load s a) [ err f ↦ refused s f | ok content ↦ before (ended content) rest ]

-- `cat`; without arguments it copies the input.
unfoldable pub run_cat : Shell → List Text → Ran
unfolding cat_files
run_cat s [] = record { shell = record s { input = [] }; out = s.input; failed = none }
run_cat s (a ∷ args) = cat_files s (a ∷ args)

-- `strings.Join(args, " ")`
unfoldable pub join_blank : List Text → Text
join_blank [] = []
join_blank (a ∷ []) = a
join_blank (a ∷ b ∷ args) = a ++ b' ' ∷ join_blank (b ∷ args)

unfoldable pub run_echo : Shell → List Text → Ran
run_echo s args = printed s (join_blank args ++ newline)

-- Puts a byte before the first line; a newline begins a line of its own.
abbrev pub add_to_lines : ℕ → List Text → List Text
add_to_lines c [] = (c ∷ []) ∷ []
add_to_lines c (l ∷ ls) = if c == 10 then [] ∷ l ∷ ls else (c ∷ l) ∷ ls

-- `strings.Split(s, "\n")`
unfoldable pub lines : Text → List Text
lines [] = [] ∷ []
lines (c ∷ s) = add_to_lines c (lines s)

-- The loop of `grepReader`: each line that contains the pattern, with a newline.
unfoldable pub matching_lines : Text → List Text → Text
matching_lines pattern [] = []
matching_lines pattern (l ∷ ls) =
    let rest = matching_lines pattern ls in
    if has_infix l pattern then l ++ newline ++ rest else rest

-- `grepReader`
unfoldable pub grep_text : Text → Text → Text
unfolding matching_lines
grep_text pattern text = matching_lines pattern (lines text)

-- The loop of `grep`
unfoldable pub grep_files : Shell → Text → List Text → Ran
grep_files s pattern [] = printed s []
grep_files s pattern (a ∷ args) =
    let rest = grep_files s pattern args in
    elim (load s a) [ err f ↦ refused s f | ok content ↦ before (grep_text pattern content) rest ]

unfoldable pub run_grep : Shell → List Text → Ran
unfolding grep_files
run_grep s [] = refused s pattern_required
run_grep s (pattern ∷ []) = record {
  shell = record s { input = [] };
  out = grep_text pattern s.input;
  failed = none;
}
run_grep s (pattern ∷ a ∷ args) = grep_files s pattern (a ∷ args)
