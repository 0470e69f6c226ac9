-- ===== src/Tests/Listing.antt =====
-- What `ls` can list after a command was typed.
use sshmux.Base.{
  Text, codes, false, List, [], ◌∷◌, ◌≡◌, refl, ok, is_ok, is_some, ◌∙◌, arith, nat_eq, text_eq,
  trim_prefix, strip, lookup, insert, erase,
}
use sshmux.Shell.Paths.{
  dot, split, join, go_up, clean_element, clean_elements, is_abs, clean, before_slash, from_slash,
  dir, drop_slashes, base, join_path, fs_name,
}
use sshmux.Shell.Paths.Names.{IsProper}
use sshmux.Shell.Paths.Children.{IsName, child_iff, join_path-IsName}
use sshmux.Shell.WriteFs.{
  WriteFs, DirEntry, new_write_fs, is_set, open_file, handle_is_dir, stat, used_without,
  check_space, read_dir, base_read_dir, seen_base, seen_files, seen_dirs, sort_entries,
  insert_sorted,
}
use sshmux.Shell.WriteFs.Operations.{append_base, write}
use sshmux.Shell.WriteFs.Seen.{is_listed}
use sshmux.Shell.WriteFs.Listing.{IsListing}
use sshmux.Shell.State.{new_shell, clean_path, store}
use sshmux.Shell.Reading.{join_blank, run_echo}
use sshmux.Shell.Builtins.{builtin, run_builtin, run_args}
use sshmux.Shell.Interpreter.{redirect, write_back, run_redirected, run_call, word}
use sshmux.Shell.Interactive.{typed, run, talk, run_interactive}
use sshmux.Shell.Interactive.Laws.{run_interactive-is_listed}
use sshmux.Tests.Shell.{rooted}
use sshmux.Tests.Scripts.{parse_w}

root_base : base dot ≡ dot
unfolding base before_slash drop_slashes text_eq nat_eq
root_base = refl

rooted_no_child : (d n : Text) → IsName d → IsProper n → is_some (rooted (join_path d n)) ≡ false
rooted_no_child d n hd h =
    ground (
      arith,
      (child_iff (join_path d n) d n (join_path-IsName d n hd h) hd h).1 refl,
      h.1,
      root_base,
    )

rooted-IsListing : IsListing rooted
unfolding base_read_dir is_listed text_eq
rooted-IsListing d n hd h = rooted_no_child d n hd h ∙ ground arith

-- The root after `w` is typed
abbrev a_entry : List DirEntry
a_entry = record { name = codes "a"; is_dir = false } ∷ []

abbrev after_w : WriteFs
after_w =
    (run_interactive parse_w (new_shell (new_write_fs rooted) []) (typed (codes "w") ∷ [])).shell.fs

a-IsProper : IsProper (codes "a")
a-IsProper = ((λ e. cc), (λ e. ground (arith, e)), (λ e. cc), ((λ e. ground (arith, e)), tt))

root_lists : read_dir after_w (codes "/") ≡ ok a_entry
unfolding run_interactive talk run word run_call run_redirected write_back redirect run_args
    run_builtin builtin run_echo join_blank read_dir base_read_dir seen_base seen_files seen_dirs
    sort_entries insert_sorted store clean_path write append_base stat open_file handle_is_dir
    check_space used_without is_set lookup insert erase fs_name dir base clean clean_elements
    clean_element go_up split join is_abs before_slash from_slash drop_slashes trim_prefix strip
    nat_eq text_eq
root_lists = refl

run_interactive-is_listed_example :
    is_listed (codes "a") a_entry
    ≡ is_ok (stat after_w (join_path (fs_name (codes "/")) (codes "a")))
run_interactive-is_listed_example =
    run_interactive-is_listed parse_w rooted [] (typed (codes "w") ∷ []) (codes "/") (codes "a")
      a_entry rooted-IsListing a-IsProper root_lists
