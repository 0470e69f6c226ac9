-- ===== src/Shell/WriteFs/Table.antt =====
-- The file system as a table: what stands under each name, without the three maps and the read-only
-- file system below them; and what a write does to it.
pub mod Directories
use sshmux.Base.{
  Text, Bool, true, false, Option, none, some, List, [], ◌∷◌, ◌++◌, ◌==◌, text_eq, Result, ok, err,
  is_ok, if◌then◌else◌, Map, lookup, insert, erase, lookup-insert, lookup-erase, ◌≡◌, ◌≢◌, refl,
  arith, ap, sym, ◌∙◌, ◌⊎◌, inl, inr,
}
use sshmux.Shell.Paths.{base, join_path, fs_name}
use sshmux.Shell.Paths.Names.{fs_name_idem}
use sshmux.Shell.WriteFs.{WriteFs, FsError, not_exist, is_set, read_node, stat, read_file}
use sshmux.Shell.WriteFs.View.{is_set-insert, kind, contents, stat-kind, read_file-contents}
use sshmux.Shell.WriteFs.Operations.{
  is_directory, append_base, write, remove, mkdir, rmdir, rename, rename_target, touch,
}
use sshmux.Shell.WriteFs.Writing.{
  IsSound, Wrote, write-Wrote, written, append_base-contents, contents-Wrote,
}
use sshmux.Shell.WriteFs.Changing.{is_set-erase, Renamed, rename-Renamed}
use sshmux.Shell.WriteFs.Space.{
  Op, write_file, remove_file, make_dir, remove_dir, rename_file, touch_file, perform, touch-cases,
}

-- What stands under a name.
pub data Entry : Type 0 where
  absent : Entry
  folder : Entry
  holding : Text → Entry

abbrev pub Table : Type 0
Table = Text → Entry

-- What `fs.Stat` and `fs.ReadFile` together say
abbrev pub entry : Result FsError Bool → Result FsError Text → Entry
entry (err e) r = absent
entry (ok true) r = folder
entry (ok false) (ok content) = holding content
entry (ok false) (err e) = absent

unfoldable pub look : WriteFs → Table
look w path = entry (stat w path) (read_file w path)

-- The table with another entry under one name, in all its spellings
abbrev pub put : Text → Entry → Table → Table
put path e t other = if fs_name other == fs_name path then e else t other

abbrev pub held : Entry → Text
held absent = []
held folder = []
held (holding content) = content

abbrev pub is_folder : Entry → Bool
is_folder absent = false
is_folder folder = true
is_folder (holding content) = false

-- Where a file is moved to
abbrev pub moved_to : Table → Text → Text → Text
moved_to t old_path new_path =
    if is_folder (t (fs_name new_path))
    then join_path (fs_name new_path) (base (fs_name old_path))
    else fs_name new_path

abbrev pub touched : Text → Table → Table
touched path t = elim (t path) [
  | absent ↦ put path (holding []) t
  | folder ↦ t
  | holding content ↦ t
]

-- What an operation that succeeds does to the table.
unfoldable pub effect : Op → Table → Table
effect (write_file path content false) t = put path (holding content) t
effect (write_file path content true) t = put path (holding (held (t path) ++ content)) t
effect (remove_file path) t = put path absent t
effect (make_dir path) t = put path folder t
effect (remove_dir path) t = put path absent t
effect (rename_file old_path new_path) t =
    put old_path absent
      (put (moved_to t old_path new_path) (holding (held (t (fs_name old_path)))) t)
effect (touch_file path) t = touched path t

pub look-entry :
    (w : WriteFs) (path : Text)
    → look w path ≡ entry (kind w (fs_name path)) (contents w (fs_name path))
unfolding look
look-entry w path = rw (stat-kind w path, read_file-contents w path) refl

-- What the three maps keep to: a made directory is not deleted, and neither it nor a deleted name has
-- a file.
pub record IsTidy (w : WriteFs) : Type 0 where
  pub sound : IsSound w
  pub no_deleted_file : (name : Text) → is_set name w.deleted ≡ true → lookup name w.files ≡ none
  pub no_file_of_dir : (name : Text) → is_set name w.dirs ≡ true → lookup name w.files ≡ none

-- What is left out: a rename of a made directory, and appending to a file that was written to be
-- empty.
abbrev pub IsPlain : WriteFs → Op → Type 0
IsPlain w (write_file path content true) = lookup (fs_name path) w.files ≢ some []
IsPlain w (rename_file old_path new_path) = is_set (fs_name old_path) w.dirs ≡ false
IsPlain w op = Unit {0}

kind-Wrote :
    (w w' : WriteFs) (name other content : Text) (append : Bool)
    → IsSound w
    → Wrote w w' name content append
    → kind w' other ≡ (if other == name then ok false else kind w other)
unfolding kind
kind-Wrote w w' name other content append sound h = rw h.state (
    ground (
      arith,
      sound name,
      h.not_dir,
      is_set-insert other name false w.deleted,
      lookup-insert other name (written w name content append) w.files,
    ))

pub look-Wrote :
    (w w' : WriteFs) (path content : Text) (append : Bool) (other : Text)
    → IsSound w
    → Wrote w w' (fs_name path) content append
    → look w' other ≡ put path (holding (written w (fs_name path) content append)) (look w) other
look-Wrote w w' path content append other sound h = ground (
  arith,
  look-entry w other,
  look-entry w' other,
  kind-Wrote w w' (fs_name path) (fs_name other) content append sound h,
  contents-Wrote w w' (fs_name path) (fs_name other) content append (sound (fs_name path)) h,
)

append_base-held :
    (w : WriteFs) (path : Text)
    → IsTidy w
    → is_directory (kind w (fs_name path)) ≡ false
    → lookup (fs_name path) w.files ≢ some []
    → append_base w (fs_name path) ≡ held (look w path)
unfolding append_base contents kind
append_base-held w path tidy not_dir nonempty =
    ground (arith, look-entry w path, tidy.no_deleted_file (fs_name path), nonempty)

-- Each operation that changes the file system, when it succeeds, keeps the maps tidy and does to the
-- table what `effect` says.
pub record Refines (w w' : WriteFs) (op : Op) : Type 0 where
  pub tidy : IsTidy w'
  pub table : (other : Text) → look w' other ≡ effect op (look w) other

pub Wrote-IsTidy :
    (w w' : WriteFs) (name content : Text) (append : Bool)
    → IsTidy w
    → Wrote w w' name content append
    → IsTidy w'
unfolding kind
Wrote-IsTidy w w' name content append tidy h = rw h.state (record {
  sound = λ other made_dir.
      ground (arith, tidy.sound other made_dir, is_set-insert other name false w.deleted);
  no_deleted_file = λ other gone. ground (
    arith,
    tidy.no_deleted_file other,
    is_set-insert other name false w.deleted,
    lookup-insert other name (written w name content append) w.files,
  );
  no_file_of_dir = λ other made_dir. ground (
    arith,
    h.not_dir,
    tidy.sound name,
    tidy.no_file_of_dir other made_dir,
    lookup-insert other name (written w name content append) w.files,
  );
})

pub write-Refines :
    (w w' : WriteFs) (path content : Text) (append : Bool)
    → IsTidy w
    → IsPlain w (write_file path content append)
    → write w path content append ≡ ok w'
    → Refines w w' (write_file path content append)
unfolding effect
write-Refines w w' path content false tidy plain h =
    let wrote = write-Wrote w w' path content false h in
    record {
      tidy = Wrote-IsTidy w w' (fs_name path) content false tidy wrote;
      table = λ other. look-Wrote w w' path content false other tidy.sound wrote;
    }
write-Refines w w' path content true tidy plain h =
    let wrote = write-Wrote w w' path content true h in
    record {
      tidy = Wrote-IsTidy w w' (fs_name path) content true tidy wrote;
      table = λ other.
          look-Wrote w w' path content true other tidy.sound wrote
          ∙ ap (λ t. put path (holding (t ++ content)) (look w) other)
              (append_base-held w path tidy wrote.not_dir plain);
    }
