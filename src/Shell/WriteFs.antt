-- ===== src/Shell/WriteFs.antt =====
-- support/hello-world-shell/fs.go: a writable file system laid over a read-only one.
pub mod View
pub mod Operations
pub mod Writing
pub mod Changing
pub mod Space
pub mod Table
pub mod Refinement
pub mod Guards
pub mod Answers
pub mod Seen
pub mod Listing
pub mod Keys
use sshmux.Base.{
  ℕ, ◌+◌, Text, Bool, true, false, not, ◌&&◌, ◌||◌, Option, none, some, List, [], ◌∷◌, ◌++◌, map,
  ◌==◌, text_eq, nat_eq, Result, ok, err, if◌then◌else◌, ltb, length, Map, lookup, insert, erase,
  get_or, valid_utf8,
}
use sshmux.Shell.Paths.{dot, base, dir, join_path, fs_name, display_path}

-- `fs.DirEntry`: a name, and whether it is a directory.
pub record DirEntry : Type 0 where
  pub name : Text
  pub is_dir : Bool

-- What the read-only file system holds under a name: a file, or a directory with its entries.
pub data Node : Type 0 where
  file : Text → Node
  directory : List DirEntry → Node

-- The errors. The first four are those of `fs.PathError`: `ErrNotExist`, `ErrInvalid`, and what the embedded file
-- system says of a directory that is read as a file and of a file that is read as a directory. The
-- others are the messages of fs.go, with the path that they show.
pub data FsError : Type 0 where
  not_exist : Text → FsError
  invalid : Text → FsError
  read_directory : Text → FsError
  read_dir_file : Text → FsError
  no_such_directory : Text → FsError
  no_such_file : Text → FsError
  is_a_directory : Text → FsError
  file_exists : Text → FsError
  cannot_remove_root : Text → FsError
  not_a_directory : Text → FsError
  directory_not_empty : Text → FsError
  filesystem_is_full : FsError

-- `writeFS`. The read-only file system is embedded in the program: `none` is that it opens nothing
-- under the name.
pub record WriteFs : Type 0 where
  pub base_fs : Text → Option Node
  pub files : Map Text Text
  pub dirs : Map Text Bool
  pub deleted : Map Text Bool

-- `maxFilesystemBytes`
abbrev pub max_filesystem_bytes : ℕ
max_filesystem_bytes = 65536

-- `newWriteFS`
abbrev pub new_write_fs : (Text → Option Node) → WriteFs
new_write_fs base_fs = record { base_fs = base_fs; files = []; dirs = []; deleted = [] }

-- `w.deleted[name]`, `w.dirs[name]`: false for a missing key
unfoldable pub is_set : Text → Map Text Bool → Bool
is_set name m = get_or (lookup name m) false

-- What `Open` returns: a node of the read-only file system, or a `writeDir` or a `writeFile`.
pub data Handle : Type 0 where
  base_node : Node → Handle
  write_dir : List DirEntry → Handle
  write_file : Text → Handle

-- What `Open` and `ReadDir` of the read-only file system say where it has nothing: `fs.ValidPath` refuses
-- a name that is not valid UTF-8, which is all that it refuses of a name that `fsName` gave.
unfoldable pub missing : Text → FsError
missing name = if valid_utf8 name then not_exist name else invalid name

-- `fs.ReadDir` of the read-only file system
unfoldable pub base_read_dir : (Text → Option Node) → Text → Result FsError (List DirEntry)
base_read_dir base_fs name = elim (base_fs name) [
  | none ↦ err (missing name)
  | some (file content) ↦ err (read_dir_file name)
  | some (directory entries) ↦ ok entries
]

-- `fs.ReadFile` of a node of the read-only file system
unfoldable pub read_node : Text → Node → Result FsError Text
read_node name (file content) = ok content
read_node name (directory entries) = err (read_directory name)

-- The first loop of `ReadDir`: the entries of the read-only file system that are not deleted.
unfoldable pub seen_base :
    Map Text Bool → Text → List DirEntry → Map Text DirEntry → Map Text DirEntry
seen_base deleted name [] seen = seen
seen_base deleted name (entry ∷ entries) seen =
    seen_base deleted name entries
      (if is_set (join_path name entry.name) deleted then seen else insert entry.name entry seen)

-- The second loop: the files that were written in the directory.
unfoldable pub seen_files :
    Map Text Bool → Text → Map Text Text → Map Text DirEntry → Map Text DirEntry
seen_files deleted name [] seen = seen
seen_files deleted name ((path, content) ∷ files) seen = seen_files deleted name files (
    if dir path == name && not (is_set path deleted)
    then insert (base path) (record { name = base path; is_dir = false }) seen
    else seen)

-- The third loop: the directories that were made in the directory.
unfoldable pub seen_dirs :
    Map Text Bool → Text → Map Text Bool → Map Text DirEntry → Map Text DirEntry
seen_dirs deleted name [] seen = seen
seen_dirs deleted name ((path, made) ∷ dirs) seen = seen_dirs deleted name dirs (
    if not (path == name) && dir path == name && not (is_set path deleted)
    then insert (base path) (record { name = base path; is_dir = true }) seen
    else seen)

-- Go's `<` on strings
unfoldable pub text_lt : Text → Text → Bool
text_lt s [] = false
text_lt [] (d ∷ t) = true
text_lt (c ∷ s) (d ∷ t) = ltb c d || (c == d && text_lt s t)

-- `sort.Strings` on the names, together with the look-up of each: the entries by ascending name.
unfoldable pub insert_sorted : DirEntry → List DirEntry → List DirEntry
insert_sorted e [] = e ∷ []
insert_sorted e (f ∷ fs) = if text_lt f.name e.name then f ∷ insert_sorted e fs else e ∷ f ∷ fs

unfoldable pub sort_entries : Map Text DirEntry → List DirEntry
unfolding insert_sorted
sort_entries [] = []
sort_entries ((name, e) ∷ seen) = insert_sorted e (sort_entries seen)

-- `writeFS.ReadDir`
unfoldable pub read_dir : WriteFs → Text → Result FsError (List DirEntry)
read_dir w path =
    let name = fs_name path in
    let list = λ (entries : List DirEntry). sort_entries (
      seen_dirs w.deleted name w.dirs
        (seen_files w.deleted name w.files (seen_base w.deleted name entries []))) in
    elim (base_read_dir w.base_fs name) [
      | ok entries ↦ ok (list entries)
      | err e ↦ if not (is_set name w.dirs) then err e else ok (list [])
    ]

-- `writeFS.Open`
unfoldable pub open_file : WriteFs → Text → Result FsError Handle
open_file w path =
    let name = fs_name path in
    if is_set name w.deleted
    then err (not_exist name)
    else if is_set name w.dirs
    then elim (read_dir w name) [ err e ↦ err e | ok entries ↦ ok (write_dir entries) ]
    else elim (lookup name w.files) [
      | some content ↦ ok (write_file content)
      | none ↦ elim (w.base_fs name) [ none ↦ err (missing name) | some node ↦ ok (base_node node) ]
    ]

-- `info.IsDir()` after `file.Stat()`
unfoldable pub handle_is_dir : Handle → Bool
handle_is_dir (base_node (file content)) = false
handle_is_dir (base_node (directory entries)) = true
handle_is_dir (write_dir entries) = true
handle_is_dir (write_file content) = false

-- `fs.Stat(w, name)`, as far as `info.IsDir()`
unfoldable pub stat : WriteFs → Text → Result FsError Bool
unfolding handle_is_dir
stat w name = elim (open_file w name) [ err e ↦ err e | ok h ↦ ok (handle_is_dir h) ]

-- `fs.ReadFile`: it reads until `io.EOF`, which the `Read` of a `writeDir` returns at once.
unfoldable pub read_handle : Text → Handle → Result FsError Text
unfolding read_node
read_handle name (base_node n) = read_node name n
read_handle name (write_dir entries) = ok []
read_handle name (write_file content) = ok content

unfoldable pub read_file : WriteFs → Text → Result FsError Text
unfolding read_handle
read_file w name = elim (open_file w name) [ err e ↦ err e | ok h ↦ read_handle (fs_name name) h ]

-- The sum over the files in `checkSpace`.
unfoldable pub used_without : Text → Map Text Text → ℕ
used_without name [] = 0
used_without name ((path, content) ∷ files) =
    let rest = used_without name files in if path == name then rest else length content + rest

-- `checkSpace`
unfoldable pub check_space : WriteFs → Text → Text → Result FsError (Unit {0})
check_space w name content =
    if ltb max_filesystem_bytes (used_without name w.files + length content)
    then err filesystem_is_full
    else ok tt
