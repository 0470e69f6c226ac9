-- ===== src/Shell/WriteFs/Refinement.antt =====
-- Every operation of the file system does to the table of its entries what it means to do.
use sshmux.Base.{
  Text, true, false, [], text_eq, ok, is_ok, insert, erase, lookup-erase, ◌≡◌, arith, ◌∙◌, ◌⊎◌, inl,
  inr,
}
use sshmux.Shell.Paths.{fs_name}
use sshmux.Shell.Paths.Names.{fs_name_idem}
use sshmux.Shell.WriteFs.{WriteFs, is_set, read_node, read_file}
use sshmux.Shell.WriteFs.View.{is_set-insert, kind, contents, stat-kind, read_file-contents}
use sshmux.Shell.WriteFs.Operations.{write, remove, rename, rename_target, touch}
use sshmux.Shell.WriteFs.Writing.{write-Wrote}
use sshmux.Shell.WriteFs.Changing.{rename-Renamed}
use sshmux.Shell.WriteFs.Space.{
  Op, write_file, remove_file, make_dir, remove_dir, rename_file, touch_file, perform,
}
use sshmux.Shell.WriteFs.Table.{
  absent, holding, look, put, moved_to, touched, effect, look-entry, IsTidy, IsPlain, Refines,
  Wrote-IsTidy, look-Wrote, write-Refines,
}
use sshmux.Shell.WriteFs.Table.Directories.{mkdir-Refines, rmdir-Refines}

-- A file that is taken away: `Remove`, and the end of `Rename`.
abbrev dropped : WriteFs → Text → WriteFs
dropped w name = record w { files = erase name w.files; deleted = insert name true w.deleted }

dropped-IsTidy :
    (w : WriteFs) (name : Text) → IsTidy w → is_set name w.dirs ≡ false → IsTidy (dropped w name)
dropped-IsTidy w name tidy plain = record {
  sound = λ other made_dir.
      ground (arith, tidy.sound other made_dir, plain, is_set-insert other name true w.deleted);
  no_deleted_file = λ other gone. ground (
    arith,
    tidy.no_deleted_file other,
    is_set-insert other name true w.deleted,
    lookup-erase other name w.files,
  );
  no_file_of_dir = λ other made_dir.
      ground (arith, tidy.no_file_of_dir other made_dir, lookup-erase other name w.files);
}

look-dropped :
    (w : WriteFs) (path other : Text)
    → look (dropped w (fs_name path)) other ≡ put path absent (look w) other
unfolding kind contents
look-dropped w path other = ground (
  arith,
  look-entry w other,
  look-entry (dropped w (fs_name path)) other,
  is_set-insert (fs_name other) (fs_name path) true w.deleted,
  lookup-erase (fs_name other) (fs_name path) w.files,
)

remove-dropped :
    (w w' : WriteFs) (path : Text)
    → IsTidy w
    → remove w path ≡ ok w'
    → (is_set (fs_name path) w.dirs ≡ false) × (w' ≡ dropped w (fs_name path))
unfolding remove kind
remove-dropped w w' path tidy h =
    ground (arith, stat-kind w (fs_name path), fs_name_idem path, tidy.sound (fs_name path))

remove-Refines :
    (w w' : WriteFs) (path : Text)
    → IsTidy w
    → remove w path ≡ ok w'
    → Refines w w' (remove_file path)
unfolding effect
remove-Refines w w' path tidy h =
    let e = remove-dropped w w' path tidy h in
    rw e.1 (record { tidy = dropped-IsTidy w (fs_name path) tidy e.0; table = look-dropped w path })

pub rename_target-moved_to :
    (w : WriteFs) (old_path new_path : Text)
    → rename_target w (fs_name old_path) (fs_name new_path) ≡ moved_to (look w) old_path new_path
unfolding rename_target look
rename_target-moved_to w old_path new_path = ground (arith, stat-kind w (fs_name new_path))

pub look-file :
    (w : WriteFs) (path content : Text)
    → is_set (fs_name path) w.dirs ≡ false
    → read_file w (fs_name path) ≡ ok content
    → look w (fs_name path) ≡ holding content
unfolding kind contents read_node
look-file w path content plain h =
    ground
      (arith, look-entry w (fs_name path), fs_name_idem path, read_file-contents w (fs_name path))

rename-Refines :
    (w w' : WriteFs) (old_path new_path : Text)
    → IsTidy w
    → is_set (fs_name old_path) w.dirs ≡ false
    → rename w old_path new_path ≡ ok w'
    → Refines w w' (rename_file old_path new_path)
unfolding effect
rename-Refines w w' old_path new_path tidy plain h =
    let old_name = fs_name old_path in
    let target = rename_target w old_name (fs_name new_path) in
    let renamed = rename-Renamed w w' old_path new_path h in
    let wrote = write-Wrote w renamed.middle target renamed.content false renamed.wrote in
    rw renamed.state (record {
      tidy =
          dropped-IsTidy renamed.middle old_name
            (Wrote-IsTidy w renamed.middle (fs_name target) renamed.content false tidy wrote)
            (ground (arith, wrote.state, plain));
      table = λ other. ground (
        arith,
        look-dropped renamed.middle old_path other,
        look-Wrote w renamed.middle target renamed.content false other tidy.sound wrote,
        rename_target-moved_to w old_path new_path,
        look-file w old_path renamed.content plain renamed.read,
      );
    })

touch-split :
    (w w' : WriteFs) (path : Text)
    → touch w path ≡ ok w'
    → ((kind w (fs_name path) ≡ ok false) × (w' ≡ w))
      ⊎ ((is_ok (kind w (fs_name path)) ≡ false) × (write w (fs_name path) [] false ≡ ok w'))
unfolding touch
touch-split w w' path h = ground (arith, stat-kind w (fs_name path), fs_name_idem path)

touched-file :
    (w : WriteFs) (path other : Text)
    → kind w (fs_name path) ≡ ok false
    → look w other ≡ touched path (look w) other
unfolding kind contents read_node
touched-file w path other h = ground (arith, look-entry w path)

touched-absent :
    (w : WriteFs) (path other : Text)
    → is_ok (kind w (fs_name path)) ≡ false
    → put (fs_name path) (holding []) (look w) other ≡ touched path (look w) other
touched-absent w path other h = ground (arith, look-entry w path, fs_name_idem path)

touch-Refines :
    (w w' : WriteFs) (path : Text)
    → IsTidy w
    → touch w path ≡ ok w'
    → Refines w w' (touch_file path)
unfolding effect
touch-Refines w w' path tidy h = elim (touch-split w w' path h) [
  | inl (was, e) ↦ rw e (record { tidy = tidy; table = λ other. touched-file w path other was })
  | inr (was, e) ↦
      let r = write-Refines w w' (fs_name path) [] false tidy tt e in
      record {
        tidy = r.tidy;
        table = λ other. r.table other ∙ unfold effect in touched-absent w path other was;
      }
]

-- Every operation that succeeds, other than the two that `IsPlain` leaves out, keeps the maps tidy and
-- changes what stands under each name as `effect` says, and so under no names but its own.
pub perform-Refines :
    (w w' : WriteFs) (op : Op) → IsTidy w → IsPlain w op → perform w op ≡ ok w' → Refines w w' op
perform-Refines w w' (write_file path content append) tidy plain h =
    write-Refines w w' path content append tidy plain h
perform-Refines w w' (remove_file path) tidy plain h = remove-Refines w w' path tidy h
perform-Refines w w' (make_dir path) tidy plain h = mkdir-Refines w w' path tidy h
perform-Refines w w' (remove_dir path) tidy plain h = rmdir-Refines w w' path tidy h
perform-Refines w w' (rename_file old_path new_path) tidy plain h =
    rename-Refines w w' old_path new_path tidy plain h
perform-Refines w w' (touch_file path) tidy plain h = touch-Refines w w' path tidy h
