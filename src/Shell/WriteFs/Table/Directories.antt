-- ===== src/Shell/WriteFs/Table/Directories.antt =====
-- `Mkdir` and `Rmdir` on the table.
use sshmux.Base.{Text, true, false, text_eq, ok, is_ok, insert, erase, ◌≡◌, arith}
use sshmux.Shell.Paths.{fs_name}
use sshmux.Shell.Paths.Names.{fs_name_idem}
use sshmux.Shell.WriteFs.{WriteFs}
use sshmux.Shell.WriteFs.View.{is_set-insert, kind, contents, stat-kind}
use sshmux.Shell.WriteFs.Operations.{mkdir, rmdir}
use sshmux.Shell.WriteFs.Changing.{is_set-erase}
use sshmux.Shell.WriteFs.Space.{make_dir, remove_dir}
use sshmux.Shell.WriteFs.Table.{effect, look-entry, IsTidy, Refines}

abbrev pub made : WriteFs → Text → WriteFs
made w name = record w { deleted = insert name false w.deleted; dirs = insert name true w.dirs }

pub mkdir-made :
    (w w' : WriteFs) (path : Text)
    → mkdir w path ≡ ok w'
    → (is_ok (kind w (fs_name path)) ≡ false) × (w' ≡ made w (fs_name path))
unfolding mkdir
mkdir-made w w' path h = ground (arith, stat-kind w (fs_name path), fs_name_idem path)

pub mkdir-Refines :
    (w w' : WriteFs) (path : Text) → IsTidy w → mkdir w path ≡ ok w' → Refines w w' (make_dir path)
unfolding effect kind contents
mkdir-Refines w w' path tidy h =
    let name = fs_name path in
    let (free, e) = mkdir-made w w' path h in
    rw e (record {
      tidy = record {
        sound = λ other made_dir. ground (
          arith,
          tidy.sound other,
          is_set-insert other name true w.dirs,
          is_set-insert other name false w.deleted,
        );
        no_deleted_file = λ other gone.
            ground (arith, tidy.no_deleted_file other, is_set-insert other name false w.deleted);
        no_file_of_dir = λ other made_dir. ground (
          arith,
          free,
          tidy.no_deleted_file name,
          tidy.no_file_of_dir other,
          is_set-insert other name true w.dirs,
        );
      };
      table = λ other. ground (
        arith,
        look-entry w other,
        look-entry (made w name) other,
        is_set-insert (fs_name other) name true w.dirs,
        is_set-insert (fs_name other) name false w.deleted,
      );
    })

abbrev pub unmade : WriteFs → Text → WriteFs
unmade w name = record w { dirs = erase name w.dirs; deleted = insert name true w.deleted }

pub rmdir-gone :
    (w w' : WriteFs) (path : Text)
    → rmdir w path ≡ ok w'
    → (kind w (fs_name path) ≡ ok true) × (w' ≡ unmade w (fs_name path))
unfolding rmdir
rmdir-gone w w' path h = ground (arith, stat-kind w (fs_name path), fs_name_idem path)

pub rmdir-Refines :
    (w w' : WriteFs) (path : Text)
    → IsTidy w
    → rmdir w path ≡ ok w'
    → Refines w w' (remove_dir path)
unfolding effect kind contents
rmdir-Refines w w' path tidy h =
    let name = fs_name path in
    let (was, e) = rmdir-gone w w' path h in
    rw e (record {
      tidy = record {
        sound = λ other made_dir. ground (
          arith,
          tidy.sound other,
          is_set-erase other name w.dirs,
          is_set-insert other name true w.deleted,
        );
        no_deleted_file = λ other gone. ground (
          arith,
          was,
          tidy.no_deleted_file other,
          tidy.no_file_of_dir other,
          is_set-insert other name true w.deleted,
        );
        no_file_of_dir = λ other made_dir.
            ground (arith, tidy.no_file_of_dir other, is_set-erase other name w.dirs);
      };
      table = λ other. ground (
        arith,
        look-entry w other,
        look-entry (unmade w name) other,
        is_set-erase (fs_name other) name w.dirs,
        is_set-insert (fs_name other) name true w.deleted,
      );
    })
