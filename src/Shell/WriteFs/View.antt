-- ===== src/Shell/WriteFs/View.antt =====
-- What is visible under a name: `fs.Stat` and `fs.ReadFile` as tables over the three maps.
use sshmux.Base.{
  Text, Bool, true, false, none, some, [], ◌==◌, text_eq, Result, ok, err, is_ok, if◌then◌else◌,
  Map, lookup, insert, lookup-insert, ◌≡◌, arith,
}
use sshmux.Shell.Paths.{fs_name}
use sshmux.Shell.Paths.Names.{fs_name_idem}
use sshmux.Shell.WriteFs.{
  WriteFs, FsError, not_exist, missing, Node, file, directory, is_set, read_node, read_dir, stat,
  open_file, read_file,
}

pub is_set-insert :
    (j k : Text) (b : Bool) (m : Map Text Bool)
    → is_set j (insert k b m) ≡ (if j == k then b else is_set j m)
unfolding is_set
is_set-insert j k b m = ground (arith, lookup-insert j k b m)

read_dir_made :
    (w : WriteFs) (path : Text)
    → is_set (fs_name path) w.dirs ≡ true
    → is_ok (read_dir w (fs_name path)) ≡ true
unfolding read_dir
read_dir_made w path h = ground (arith, fs_name_idem path)

-- The kind of a node: whether it is a directory.
abbrev node_kind : Node → Bool
node_kind (file content) = false
node_kind (directory entries) = true

-- Whether a name that `fsName` gave is a directory, in the order in which `Open` asks.
unfoldable pub kind : WriteFs → Text → Result FsError Bool
kind w name =
    if is_set name w.deleted
    then err (not_exist name)
    else if is_set name w.dirs
    then ok true
    else elim (lookup name w.files) [
      | some content ↦ ok false
      | none ↦ elim (w.base_fs name) [ none ↦ err (missing name) | some node ↦ ok (node_kind node) ]
    ]

-- What such a name reads as.
unfoldable pub contents : WriteFs → Text → Result FsError Text
contents w name =
    if is_set name w.deleted
    then err (not_exist name)
    else if is_set name w.dirs
    then ok []
    else elim (lookup name w.files) [
      | some content ↦ ok content
      | none ↦ elim (w.base_fs name) [ none ↦ err (missing name) | some node ↦ read_node name node ]
    ]

pub stat-kind : (w : WriteFs) (path : Text) → stat w path ≡ kind w (fs_name path)
unfolding stat open_file kind
stat-kind w path = ground (arith, read_dir_made w path)

pub read_file-contents : (w : WriteFs) (path : Text) → read_file w path ≡ contents w (fs_name path)
unfolding read_file open_file contents
read_file-contents w path = ground (arith, read_dir_made w path)
