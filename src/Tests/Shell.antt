-- ===== src/Tests/Shell.antt =====
-- Paths and the file system of the guest's shell, at concrete inputs.
use sshmux.Base.{
  ◌<◌, ◌+◌, Text, codes, true, false, Option, none, some, [], ◌∷◌, ◌≡◌, ◌≢◌, ◌↔◌, ◌⊎◌, refl, ok,
  err, nat_eq, text_eq, arith, trim_prefix, strip, lookup, insert, erase, if◌then◌else◌, ◌==◌,
  length, valid_utf8, utf8_from, following,
}
use sshmux.Shell.Paths.{
  dot, split, join, go_up, clean_element, clean_elements, is_abs, clean, before_slash, from_slash,
  dir, drop_slashes, base, fs_name,
}
use sshmux.Shell.Paths.Names.{AreElements, fs_name-AreElements}
use sshmux.Shell.WriteFs.{
  Node, file, directory, not_exist, invalid, missing, filesystem_is_full, WriteFs, new_write_fs,
  is_set, base_read_dir, read_node, seen_base, seen_files, seen_dirs, sort_entries, insert_sorted,
  read_dir, open_file, handle_is_dir, stat, read_handle, read_file, used_without, check_space,
  max_filesystem_bytes,
}
use sshmux.Shell.WriteFs.Operations.{append_base, write, rename_target, rename, touch}
use sshmux.Shell.WriteFs.Table.{IsTidy, Refines, look}
use sshmux.Shell.WriteFs.Guards.{
  HasRoot, Answers, allowed, can_hold, lacks_space, is_occupied, is_unreadable, write_full_iff,
}
use sshmux.Shell.WriteFs.Answers.{perform-Answers}
use sshmux.Shell.WriteFs.Refinement.{perform-Refines}
use sshmux.Shell.WriteFs.Writing.{IsSound, written, read_file-append_to_emptied}
use sshmux.Shell.WriteFs.Changing.{read_file-rename, rename_of_directory}
use sshmux.Shell.WriteFs.Space.{used, write_file, perform}

fs_name-AreElements_example :
    (fs_name (codes "/a/../../b/") ≡ dot) ⊎ AreElements (split (fs_name (codes "/a/../../b/")))
fs_name-AreElements_example = fs_name-AreElements (codes "/a/../../b/")

-- One file, `a`
abbrev pub base_fs : Text → Option Node
base_fs name = if name == codes "a" then some (file (codes "old")) else none

abbrev pub start : WriteFs
start = new_write_fs base_fs

pub start-IsSound : IsSound start
unfolding is_set lookup
start-IsSound name h = cc

abbrev pub with_file : Text → Text → WriteFs
with_file name content = record start { files = (name, content) ∷ []; deleted = (name, false) ∷ [] }

file-IsSound : (name content : Text) → IsSound (with_file name content)
unfolding is_set lookup
file-IsSound name content other h = cc

pub new_written :
    write start (codes "/a") (codes "new") false ≡ ok (with_file (codes "a") (codes "new"))
unfolding write append_base stat open_file handle_is_dir check_space used_without is_set lookup
    insert erase fs_name dir base clean clean_elements clean_element go_up split join is_abs
    before_slash from_slash drop_slashes trim_prefix strip nat_eq text_eq
new_written = refl

a_in_base : start.base_fs (fs_name (codes "/a")) ≡ some (file (codes "old"))
unfolding write append_base stat open_file handle_is_dir check_space used_without is_set lookup
    insert erase fs_name dir base clean clean_elements clean_element go_up split join is_abs
    before_slash from_slash drop_slashes trim_prefix strip nat_eq text_eq
a_in_base = refl

a_emptied : lookup (fs_name (codes "/a")) (with_file (codes "a") []).files ≡ some []
unfolding write append_base stat open_file handle_is_dir check_space used_without is_set lookup
    insert erase fs_name dir base clean clean_elements clean_element go_up split join is_abs
    before_slash from_slash drop_slashes trim_prefix strip nat_eq text_eq
a_emptied = refl

a_present : is_set (fs_name (codes "/a")) (with_file (codes "a") []).deleted ≡ false
unfolding write append_base stat open_file handle_is_dir check_space used_without is_set lookup
    insert erase fs_name dir base clean clean_elements clean_element go_up split join is_abs
    before_slash from_slash drop_slashes trim_prefix strip nat_eq text_eq
a_present = refl

a_resurrected :
    write (with_file (codes "a") []) (codes "/a") (codes "er") true
    ≡ ok (with_file (codes "a") (codes "older"))
unfolding write append_base stat open_file handle_is_dir check_space used_without is_set lookup
    insert erase fs_name dir base clean clean_elements clean_element go_up split join is_abs
    before_slash from_slash drop_slashes trim_prefix strip nat_eq text_eq read_node
a_resurrected = refl

read_file-append_to_emptied_example :
    (read_file (with_file (codes "a") []) (codes "/a") ≡ ok [])
    × (read_file (with_file (codes "a") (codes "older")) (codes "/a") ≡ ok (codes "older"))
read_file-append_to_emptied_example =
    read_file-append_to_emptied (with_file (codes "a") []) (with_file (codes "a") (codes "older"))
      (codes "/a") (codes "er") (codes "old") (file-IsSound (codes "a") []) a_in_base a_emptied
      a_present a_resurrected

-- The root is a directory of the read-only file system.
abbrev pub rooted : Text → Option Node
rooted name = if name == codes "." then some (directory []) else none

abbrev with_dir : WriteFs
with_dir = record (new_write_fs rooted) {
  dirs = (codes "d", true) ∷ [];
  deleted = (codes "d", false) ∷ [];
}

-- A file that was renamed to its own name
abbrev lost : WriteFs
lost = record start { deleted = (codes "a", true) ∷ [] }

a_renamed : rename start (codes "/a") (codes "/a") ≡ ok lost
unfolding rename rename_target read_file read_handle read_node write append_base stat open_file
    handle_is_dir check_space used_without is_set lookup insert erase fs_name dir base clean
    clean_elements clean_element go_up split join is_abs before_slash from_slash drop_slashes
    trim_prefix strip nat_eq text_eq
a_renamed = refl

read_file-rename_example : read_file lost (codes "a") ≡ (
    if fs_name (codes "a") == fs_name (codes "/a")
    then err (not_exist (fs_name (codes "/a")))
    else if fs_name (codes "a")
        == fs_name (rename_target start (fs_name (codes "/a")) (fs_name (codes "/a")))
    then read_file start (fs_name (codes "/a"))
    else read_file start (codes "a"))
read_file-rename_example =
    read_file-rename start lost (codes "/a") (codes "/a") (codes "a") (start-IsSound _) a_renamed

dir-IsSound : IsSound with_dir
unfolding is_set lookup text_eq nat_eq
dir-IsSound name h = ground arith

abbrev moved : WriteFs
moved = record with_dir {
  files = (codes "e", []) ∷ [];
  deleted = (codes "d", true) ∷ (codes "e", false) ∷ [];
}

d_is_made : is_set (fs_name (codes "/d")) with_dir.dirs ≡ true
unfolding write append_base stat open_file handle_is_dir check_space used_without is_set lookup
    insert erase fs_name dir base clean clean_elements clean_element go_up split join is_abs
    before_slash from_slash drop_slashes trim_prefix strip nat_eq text_eq
d_is_made = refl

d_renamed : rename with_dir (codes "/d") (codes "/e") ≡ ok moved
unfolding rename rename_target read_file read_handle read_node read_dir base_read_dir seen_base
    seen_files seen_dirs sort_entries insert_sorted write append_base stat open_file handle_is_dir
    check_space used_without is_set lookup insert erase fs_name dir base clean clean_elements
    clean_element go_up split join is_abs before_slash from_slash drop_slashes trim_prefix strip
    nat_eq text_eq
d_renamed = refl

rename_of_directory_example :
    (stat with_dir (codes "/d") ≡ ok true)
    × (stat moved (codes "/d") ≡ err (not_exist (fs_name (codes "/d"))))
    × (fs_name (rename_target with_dir (fs_name (codes "/d")) (fs_name (codes "/e")))
        ≢ fs_name (codes "/d"))
    × (stat moved (rename_target with_dir (fs_name (codes "/d")) (fs_name (codes "/e"))) ≡ ok false)
    × (read_file moved (rename_target with_dir (fs_name (codes "/d")) (fs_name (codes "/e")))
        ≡ ok [])
rename_of_directory_example =
    rename_of_directory with_dir moved (codes "/d") (codes "/e") (dir-IsSound _) d_is_made d_renamed

start-IsTidy : IsTidy start
unfolding is_set lookup
start-IsTidy = record {
  sound = start-IsSound;
  no_deleted_file = λ name h. refl;
  no_file_of_dir = λ name h. refl;
}

perform-Refines_example :
    Refines start
      (with_file (codes "a") (codes "new"))
      (write_file (codes "/a") (codes "new") false)
perform-Refines_example =
    perform-Refines start (with_file (codes "a") (codes "new"))
      (write_file (codes "/a") (codes "new") false) start-IsTidy tt new_written

start-HasRoot : HasRoot start
unfolding is_set lookup
start-HasRoot = refl

perform-Answers_example :
    Answers
      (perform start (write_file (codes "/a") (codes "new") true))
      (allowed (write_file (codes "/a") (codes "new") true) (look start))
      (lacks_space start (write_file (codes "/a") (codes "new") true))
      (is_occupied start (write_file (codes "/a") (codes "new") true))
      (is_unreadable start (write_file (codes "/a") (codes "new") true))
perform-Answers_example =
    perform-Answers start (write_file (codes "/a") (codes "new") true) start-HasRoot tt

write_full_iff_example : (write start (codes "/a") (codes "new") true ≡ err filesystem_is_full) ↔ (
    (can_hold (look start) (codes "/a") ≡ true)
    × (max_filesystem_bytes
        < used (erase (fs_name (codes "/a")) start.files)
          + length (written start (fs_name (codes "/a")) (codes "new") true)))
write_full_iff_example = write_full_iff start (codes "/a") (codes "new") true start-HasRoot

-- `touch` of a name that is not valid UTF-8: it is refused as invalid, and not written.
touch_of_invalid : touch start (b'/' ∷ 255 ∷ []) ≡ err (invalid (255 ∷ []))
unfolding touch missing valid_utf8 utf8_from following write append_base stat open_file
    handle_is_dir check_space used_without is_set lookup insert erase fs_name dir base clean
    clean_elements clean_element go_up split join is_abs before_slash from_slash drop_slashes
    trim_prefix strip nat_eq text_eq
touch_of_invalid = refl

-- `mkdir /d; mv /d /e`, and then `echo hi > /d`: the file reads as an empty directory.
write_of_moved :
    ((w' : WriteFs) × (write moved (codes "/d") (codes "hi") false ≡ ok w')
      × (read_file w' (codes "/d") ≡ ok []))
unfolding rename rename_target read_file read_handle read_node read_dir base_read_dir seen_base
    seen_files seen_dirs sort_entries insert_sorted write append_base stat open_file handle_is_dir
    check_space used_without is_set lookup insert erase fs_name dir base clean clean_elements
    clean_element go_up split join is_abs before_slash from_slash drop_slashes trim_prefix strip
    nat_eq text_eq missing
write_of_moved = (_, refl, refl)
