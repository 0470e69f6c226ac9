-- ===== src/Shell/WriteFs/Operations.antt =====
-- The operations of `writeFS` that change it. Each returns the file system afterwards and its error.
use sshmux.Base.{
  Text, Bool, true, false, not, ◌&&◌, none, some, [], ◌++◌, ◌==◌, text_eq, Result, ok, err, ◌>>=◌,
  ◌>>◌, fail_if, if◌then◌else◌, lookup, insert, erase, get_or, is_empty,
}
use sshmux.Shell.Paths.{dot, base, dir, join_path, fs_name, display_path}
use sshmux.Shell.WriteFs.{
  WriteFs, FsError, not_exist, no_such_directory, no_such_file, is_a_directory, file_exists,
  cannot_remove_root, not_a_directory, directory_not_empty, is_set, read_node, read_dir, stat,
  read_file, check_space,
}

-- `err == nil && info.IsDir()`
abbrev pub is_directory : Result FsError Bool → Bool
is_directory (ok d) = d
is_directory (err e) = false

-- What `WriteFile` appends to: the bytes that were written, and if there are none those of the
-- read-only file, unless it is deleted.
unfoldable pub append_base : WriteFs → Text → Text
append_base w name =
    let written = get_or (lookup name w.files) [] in
    if is_empty written && not (is_set name w.deleted)
    then elim (w.base_fs name) [
      | none ↦ []
      | some node ↦ elim (read_node name node) [ ok content ↦ content | err e ↦ [] ]
    ]
    else written

-- `WriteFile`
unfoldable pub write : WriteFs → Text → Text → Bool → Result FsError WriteFs
write w path content append = do
  let name = fs_name path
  fail_if (is_set (dir name) w.deleted) (no_such_directory (display_path (dir name)))
  fail_if (is_directory (stat w name)) (is_a_directory (display_path name))
  fail_if (not (dir name == dot) && not (is_directory (stat w (dir name))))
      (no_such_directory (display_path (dir name)))
  let bytes = if append then append_base w name ++ content else content
  check_space w name bytes
  ok (record w { deleted = insert name false w.deleted; files = insert name bytes w.files })

-- `Remove`
unfoldable pub remove : WriteFs → Text → Result FsError WriteFs
remove w path =
    let name = fs_name path in
    elim (stat w name) [
      | err e ↦ err (no_such_file (display_path name))
      | ok true ↦ err (is_a_directory (display_path name))
      | ok false ↦
          ok (record w { files = erase name w.files; deleted = insert name true w.deleted })
    ]

-- `Mkdir`
unfoldable pub mkdir : WriteFs → Text → Result FsError WriteFs
mkdir w path =
    let name = fs_name path in
    if name == dot then err (file_exists (display_path name)) else elim (stat w name) [
      | ok d ↦ err (file_exists (display_path name))
      | err e ↦
          if not (is_directory (stat w (dir name)))
          then err (no_such_directory (display_path (dir name)))
          else ok
              (record w { deleted = insert name false w.deleted; dirs = insert name true w.dirs })
    ]

-- `Rmdir`
unfoldable pub rmdir : WriteFs → Text → Result FsError WriteFs
rmdir w path =
    let name = fs_name path in
    if name == dot then err (cannot_remove_root (display_path name)) else elim (stat w name) [
      | err e ↦ err (no_such_directory (display_path name))
      | ok false ↦ err (not_a_directory (display_path name))
      | ok true ↦ elim (read_dir w name) [
        | err e ↦ err e
        | ok entries ↦
            if not (is_empty entries)
            then err (directory_not_empty (display_path name))
            else ok (record w { dirs = erase name w.dirs; deleted = insert name true w.deleted })
      ]
    ]

-- Where `Rename` puts a file: into the target, if that is a directory.
unfoldable pub rename_target : WriteFs → Text → Text → Text
rename_target w old_name new_name =
    if is_directory (stat w new_name) then join_path new_name (base old_name) else new_name

-- `Rename`
unfoldable pub rename : WriteFs → Text → Text → Result FsError WriteFs
rename w old_path new_path =
    let old_name = fs_name old_path in
    let new_name = rename_target w old_name (fs_name new_path) in
    elim (read_file w old_name) [
      | err e ↦ err (no_such_file (display_path old_name))
      | ok content ↦ write w new_name content false >>= λ w'.
          ok (record w' {
            files = erase old_name w'.files;
            deleted = insert old_name true w'.deleted;
          })
    ]

-- `Touch`
unfoldable pub touch : WriteFs → Text → Result FsError WriteFs
touch w path =
    let name = fs_name path in
    elim (stat w name) [
      | ok true ↦ err (is_a_directory (display_path name))
      | ok false ↦ ok w
      | err (not_exist p) ↦ write w name [] false
      | err e ↦ err e
    ]
