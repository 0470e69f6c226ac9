-- ===== src/Shell/WriteFs/Guards.antt =====
-- When an operation of the file system succeeds, in terms of its table of entries.
use sshmux.Base.{
  ◌+◌, ◌<◌, Text, Bool, true, false, not, ◌&&◌, ◌||◌, ◌==◌, text_eq, Result, ok, err, is_ok, ◌≡◌,
  ◌↔◌, arith, [], ltb, length, erase, is_empty, valid_utf8,
}
use sshmux.Shell.Paths.{dot, dir, fs_name}
use sshmux.Shell.Paths.Names.{fs_name_idem}
use sshmux.Shell.Paths.Parents.{fs_name-dir}
use sshmux.Shell.WriteFs.{
  WriteFs, FsError, filesystem_is_full, directory_not_empty, invalid, is_set, read_node,
  check_space, read_dir, max_filesystem_bytes,
}
use sshmux.Shell.WriteFs.View.{kind, contents, stat-kind}
use sshmux.Shell.WriteFs.Operations.{is_directory, write, remove, mkdir}
use sshmux.Shell.WriteFs.Writing.{written}
use sshmux.Shell.WriteFs.Space.{
  used, used-erase, Op, write_file, remove_file, make_dir, remove_dir, rename_file, touch_file,
}
use sshmux.Shell.WriteFs.Table.{
  Entry, absent, folder, holding, Table, look, is_folder, held, moved_to, look-entry,
}

-- A file
abbrev pub is_file : Entry → Bool
is_file absent = false
is_file folder = false
is_file (holding content) = true

abbrev pub is_absent : Entry → Bool
is_absent absent = true
is_absent folder = false
is_absent (holding content) = false

-- A file can stand at a path where no directory is, in the root or in a directory.
abbrev pub can_hold : Table → Text → Bool
can_hold t path =
    not (is_folder (t path)) && (dir (fs_name path) == dot || is_folder (t (dir (fs_name path))))

-- What an operation asks of the table.
unfoldable pub allowed : Op → Table → Bool
allowed (write_file path content append) t = can_hold t path
allowed (remove_file path) t = is_file (t path)
allowed (make_dir path) t =
    not (fs_name path == dot) && (is_absent (t path) && is_folder (t (dir (fs_name path))))
allowed (remove_dir path) t = not (fs_name path == dot) && is_folder (t path)
allowed (rename_file old_path new_path) t =
    is_file (t (fs_name old_path)) && can_hold t (moved_to t old_path new_path)
allowed (touch_file path) t = is_file (t path) || (is_absent (t path) && can_hold t path)

-- Whether a file with these bytes and the other files that were written exceed the limit.
abbrev pub exceeds : WriteFs → Text → Text → Bool
exceeds w name bytes = ltb max_filesystem_bytes (used (erase name w.files) + length bytes)

-- Whether what an operation stores exceeds the limit.
unfoldable pub lacks_space : WriteFs → Op → Bool
lacks_space w (write_file path content append) =
    exceeds w (fs_name path) (written w (fs_name path) content append)
lacks_space w (rename_file old_path new_path) =
    exceeds w (fs_name (moved_to (look w) old_path new_path)) (held (look w (fs_name old_path)))
lacks_space w (touch_file path) = is_absent (look w path) && exceeds w (fs_name path) []
lacks_space w op = false

-- Whether the directory that an operation removes has entries.
unfoldable pub is_occupied : WriteFs → Op → Bool
is_occupied w (remove_dir path) = elim (read_dir w path) [
  | ok entries ↦ not (is_empty entries)
  | err e ↦ false
]
is_occupied w op = false

-- Whether an operation touches a name that is neither there nor marked as deleted, and that is not
-- valid UTF-8.
unfoldable pub is_unreadable : WriteFs → Op → Bool
is_unreadable w (touch_file path) =
    is_absent (look w path)
    && not (is_set (fs_name path) w.deleted)
    && not (valid_utf8 (fs_name path))
is_unreadable w op = false

-- Whether a reason that holds is the one of an error.
abbrev pub explains : FsError → Bool → Bool → Bool → Bool
explains filesystem_is_full full occupied unreadable = full
explains (directory_not_empty path) full occupied unreadable = occupied
explains (invalid path) full occupied unreadable = unreadable
explains e full occupied unreadable = false

-- An answer, by whether the table allows the operation and by the three reasons to refuse what it
-- allows: it succeeds exactly when it is allowed and no reason holds, and if it is allowed and fails,
-- then with the error of a reason that holds.
pub record Answers (r : Result FsError WriteFs) (b full occupied unreadable : Bool) : Type 0 where
  pub succeeds : is_ok r ≡ (b && (not full && (not occupied && not unreadable)))
  pub fails : (e : FsError) → b ≡ true → r ≡ err e → explains e full occupied unreadable ≡ true

pub look-is_folder :
    (w : WriteFs) (path : Text) → is_folder (look w path) ≡ is_directory (kind w (fs_name path))
look-is_folder w path = ground (arith, look-entry w path)

pub look-is_file :
    (w : WriteFs) (path : Text)
    → (is_file (look w path) ≡ true) ↔ (kind w (fs_name path) ≡ ok false)
unfolding kind contents read_node
look-is_file w path = ground (arith, look-entry w path)

pub look-is_absent :
    (w : WriteFs) (path : Text) → is_absent (look w path) ≡ not (is_ok (kind w (fs_name path)))
unfolding kind contents read_node
look-is_absent w path = ground (arith, look-entry w path)

pub remove-Answers :
    (w : WriteFs) (path : Text)
    → Answers (remove w path) (allowed (remove_file path) (look w)) false false false
unfolding remove allowed
remove-Answers w path = record {
  succeeds = ground (arith, look-is_file w path, stat-kind w (fs_name path), fs_name_idem path);
  fails = λ e b h.
      absurd
        (ground (arith, b, h, look-is_file w path, stat-kind w (fs_name path), fs_name_idem path));
}

pub mkdir-Answers :
    (w : WriteFs) (path : Text)
    → Answers (mkdir w path) (allowed (make_dir path) (look w)) false false false
unfolding mkdir allowed
mkdir-Answers w path =
    let absence = look-is_absent w path in
    let parent = look-is_folder w (dir (fs_name path)) in
    let seen = stat-kind w (fs_name path) in
    let above = stat-kind w (dir (fs_name path)) in
    record {
      succeeds = ground (arith, absence, parent, seen, fs_name_idem path, above);
      fails =
          λ e b h. absurd (ground (arith, b, h, absence, parent, seen, fs_name_idem path, above));
    }

-- The root is not deleted.
abbrev pub HasRoot : WriteFs → Type 0
HasRoot w = is_set dot w.deleted ≡ false

-- A deleted name is no directory.
kind_of_deleted :
    (w : WriteFs) (name : Text) → is_set name w.deleted ≡ true → is_directory (kind w name) ≡ false
unfolding kind
kind_of_deleted w name h = ground arith

-- What a write answers, by what it stores
pub write-Answers :
    (w : WriteFs) (path content : Text) (append : Bool)
    → HasRoot w
    → Answers
        (write w path content append)
        (can_hold (look w) path)
        (exceeds w (fs_name path) (written w (fs_name path) content append))
        false
        false
unfolding write check_space
write-Answers w path content append root =
    let name = fs_name path in
    let parent = look-is_folder w (dir name) in
    let itself = look-is_folder w path in
    let gone = kind_of_deleted w (dir name) in
    let seen = stat-kind w name in
    let above = stat-kind w (dir name) in
    let bytes = used-erase name w.files in
    record {
      succeeds = ground (
        arith,
        root,
        parent,
        itself,
        gone,
        seen,
        above,
        bytes,
        fs_name-dir path,
        fs_name_idem path,
      );
      fails = λ e b h. ground (
        arith,
        b,
        h,
        root,
        parent,
        itself,
        gone,
        seen,
        above,
        bytes,
        fs_name-dir path,
        fs_name_idem path,
      );
    }

-- In a file system whose root is not deleted, a write is refused for lack of space exactly when a file
-- can stand at the path and the bytes that it would hold, together with those of the files that were
-- written under other names, are more than the limit.
pub write_full_iff :
    (w : WriteFs) (path content : Text) (append : Bool)
    → HasRoot w
    → (write w path content append ≡ err filesystem_is_full) ↔ (
        (can_hold (look w) path ≡ true)
        × (max_filesystem_bytes
            < used (erase (fs_name path) w.files)
              + length (written w (fs_name path) content append)))
unfolding write check_space
write_full_iff w path content append root = ground (
  arith,
  root,
  look-is_folder w (dir (fs_name path)),
  look-is_folder w path,
  kind_of_deleted w (dir (fs_name path)),
  stat-kind w (fs_name path),
  stat-kind w (dir (fs_name path)),
  used-erase (fs_name path) w.files,
  fs_name-dir path,
  fs_name_idem path,
)
