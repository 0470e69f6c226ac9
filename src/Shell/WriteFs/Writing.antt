-- ===== src/Shell/WriteFs/Writing.antt =====
-- What a successful write does: the file reads back as written or appended to, and no other file
-- changes.
use sshmux.Base.{
  ◌+◌, ◌≤◌, Text, Bool, true, false, some, [], ◌++◌, ◌==◌, text_eq, ok, if◌then◌else◌, lookup,
  insert, lookup-insert, length, ◌≡◌, ◌≢◌, arith,
}
use sshmux.Shell.Paths.{fs_name}
use sshmux.Shell.Paths.Names.{fs_name_idem}
use sshmux.Shell.WriteFs.{
  WriteFs, file, is_set, read_node, read_file, check_space, used_without, max_filesystem_bytes,
}
use sshmux.Shell.WriteFs.View.{is_set-insert, kind, contents, stat-kind, read_file-contents}
use sshmux.Shell.WriteFs.Operations.{is_directory, append_base, write}

-- The bytes that a write stores.
abbrev pub written : WriteFs → Text → Text → Bool → Text
written w name content append = if append then append_base w name ++ content else content

-- What a write that succeeds has checked, and what it does.
pub record Wrote (w w' : WriteFs) (name content : Text) (append : Bool) : Type 0 where
  pub not_dir : is_directory (kind w name) ≡ false
  pub fits :
      used_without name w.files + length (written w name content append) ≤ max_filesystem_bytes
  pub state : w' ≡ record w {
    deleted = insert name false w.deleted;
    files = insert name (written w name content append) w.files;
  }

pub write-Wrote :
    (w w' : WriteFs) (path content : Text) (append : Bool)
    → write w path content append ≡ ok w'
    → Wrote w w' (fs_name path) content append
unfolding write check_space
write-Wrote w w' path content append h =
    ground (arith, stat-kind w (fs_name path), fs_name_idem path)

-- No directory that was made is marked as deleted.
abbrev pub IsSound : WriteFs → Type 0
IsSound w = (name : Text) → is_set name w.dirs ≡ true → is_set name w.deleted ≡ false

-- A name is not that of a made directory that is marked as deleted, as a rename of it leaves it. What
-- is written under such a name is taken for a directory afterwards.
abbrev pub IsLive : WriteFs → Text → Type 0
IsLive w name = is_set name w.dirs ≡ true → is_set name w.deleted ≡ false

pub contents-Wrote :
    (w w' : WriteFs) (name other content : Text) (append : Bool)
    → IsLive w name
    → Wrote w w' name content append
    → contents w' other
      ≡ (if other == name then ok (written w name content append) else contents w other)
unfolding contents kind
contents-Wrote w w' name other content append live h = rw h.state (
    ground (
      arith,
      live,
      h.not_dir,
      is_set-insert other name false w.deleted,
      lookup-insert other name (written w name content append) w.files,
    ))

-- After a write to a name that is live, the file reads as what was stored, and every other name reads
-- as before.
pub read_file-write :
    (w w' : WriteFs) (path other content : Text) (append : Bool)
    → IsLive w (fs_name path)
    → write w path content append ≡ ok w'
    → read_file w' other ≡ (
        if fs_name other == fs_name path
        then ok (written w (fs_name path) content append)
        else read_file w other)
read_file-write w w' path other content append live h =
    rw (read_file-contents w', read_file-contents w)
      (contents-Wrote w w' (fs_name path) (fs_name other) content append live
        (write-Wrote w w' path content append h))

pub append_base-contents :
    (w : WriteFs) (name c : Text)
    → is_directory (kind w name) ≡ false
    → contents w name ≡ ok c
    → lookup name w.files ≢ some []
    → append_base w name ≡ c
unfolding contents kind append_base
append_base-contents w name c not_dir h nonempty = ground arith

-- Appending to a file that reads as `c` makes it read as `c` with the new bytes behind, unless the
-- file has been written to be empty.
pub read_file-append :
    (w w' : WriteFs) (path content c : Text)
    → IsSound w
    → lookup (fs_name path) w.files ≢ some []
    → read_file w path ≡ ok c
    → write w path content true ≡ ok w'
    → read_file w' path ≡ ok (c ++ content)
read_file-append w w' path content c sound nonempty h e =
    let wrote = write-Wrote w w' path content true e in
    ground (
      arith,
      read_file-write w w' path path content true (sound (fs_name path)) e,
      append_base-contents w (fs_name path) c wrote.not_dir,
      read_file-contents w path,
    )

-- A file of the read-only file system that has been written to be empty reads as empty; appending
-- to it brings its old bytes back.
pub read_file-append_to_emptied :
    (w w' : WriteFs) (path content old : Text)
    → IsSound w
    → w.base_fs (fs_name path) ≡ some (file old)
    → lookup (fs_name path) w.files ≡ some []
    → is_set (fs_name path) w.deleted ≡ false
    → write w path content true ≡ ok w'
    → (read_file w path ≡ ok []) × (read_file w' path ≡ ok (old ++ content))
unfolding append_base read_node contents kind
read_file-append_to_emptied w w' path content old sound b emptied live e =
    let wrote = write-Wrote w w' path content true e in
    ground (
      arith,
      wrote.not_dir,
      read_file-write w w' path path content true (sound (fs_name path)) e,
      read_file-contents w path,
    )
