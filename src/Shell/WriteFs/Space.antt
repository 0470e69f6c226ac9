-- ===== src/Shell/WriteFs/Space.antt =====
-- The space limit, and runs of operations.
use sshmux.Base.{
  ℕ, ◌+◌, ◌≤◌, Text, Bool, false, Option, List, [], ◌∷◌, text_eq, Result, ok, err, Map, lookup,
  insert, erase, length, ◌≡◌, ◌⊎◌, refl, arith, Result-cases, inl, inr,
}
use sshmux.Shell.Paths.{fs_name}
use sshmux.Shell.WriteFs.{
  WriteFs, Node, FsError, is_set, new_write_fs, used_without, max_filesystem_bytes,
}
use sshmux.Shell.WriteFs.Operations.{write, remove, mkdir, rmdir, rename, touch}
use sshmux.Shell.WriteFs.Writing.{write-Wrote, written, IsSound}
use sshmux.Shell.WriteFs.Changing.{
  rename-Renamed, write-IsSound, remove-IsSound, mkdir-IsSound, rmdir-IsSound, rename-IsSound,
}

-- The bytes of all files that were written.
unfoldable pub used : Map Text Text → ℕ
used [] = 0
used ((path, content) ∷ files) = length content + used files

pub used-erase :
    (name : Text) (files : Map Text Text) → used (erase name files) ≡ used_without name files
unfolding used erase used_without
used-erase name [] = refl
used-erase name ((path, content) ∷ files) = ground (arith, used-erase name files)

used_without-le : (name : Text) (files : Map Text Text) → used_without name files ≤ used files
unfolding used used_without
used_without-le name [] = omega arith
used_without-le name ((path, content) ∷ files) = ground (arith, used_without-le name files)

used-insert :
    (name content : Text) (files : Map Text Text)
    → used (insert name content files) ≡ length content + used_without name files
unfolding used insert
used-insert name content files = omega (arith, used-erase name files)

-- The limit is kept.
abbrev pub Fits : WriteFs → Type 0
Fits w = used w.files ≤ max_filesystem_bytes

write-Fits :
    (w w' : WriteFs) (path content : Text) (append : Bool)
    → write w path content append ≡ ok w'
    → Fits w'
write-Fits w w' path content append h =
    let wrote = write-Wrote w w' path content append h in
    ground
      (arith, wrote, used-insert (fs_name path) (written w (fs_name path) content append) w.files)

erase-Fits :
    (name : Text) (files : Map Text Text)
    → used files ≤ max_filesystem_bytes
    → used (erase name files) ≤ max_filesystem_bytes
erase-Fits name files h = omega (arith, used-erase name files, used_without-le name files)

-- A call of one of the operations that change the file system.
pub data Op : Type 0 where
  write_file : Text → Text → Bool → Op
  remove_file : Text → Op
  make_dir : Text → Op
  remove_dir : Text → Op
  rename_file : Text → Text → Op
  touch_file : Text → Op

abbrev pub perform : WriteFs → Op → Result FsError WriteFs
perform w (write_file path content append) = write w path content append
perform w (remove_file path) = remove w path
perform w (make_dir path) = mkdir w path
perform w (remove_dir path) = rmdir w path
perform w (rename_file old_path new_path) = rename w old_path new_path
perform w (touch_file path) = touch w path

touch-Fits : (w w' : WriteFs) (path : Text) → Fits w → touch w path ≡ ok w' → Fits w'
unfolding touch
touch-Fits w w' path fits h = ground (arith, write-Fits w w' (fs_name path) [] false)

pub perform-Fits : (w w' : WriteFs) (op : Op) → Fits w → perform w op ≡ ok w' → Fits w'
unfolding remove mkdir rmdir
perform-Fits w w' (write_file path content append) fits h = write-Fits w w' path content append h
perform-Fits w w' (remove_file path) fits h = ground (arith, erase-Fits (fs_name path) w.files)
perform-Fits w w' (make_dir path) fits h = ground arith
perform-Fits w w' (remove_dir path) fits h = ground arith
perform-Fits w w' (rename_file old_path new_path) fits h =
    let renamed = rename-Renamed w w' old_path new_path h in
    let fitted = write-Fits w renamed.middle _ renamed.content false renamed.wrote in
    ground (arith, renamed, erase-Fits (fs_name old_path) renamed.middle.files fitted)
perform-Fits w w' (touch_file path) fits h = touch-Fits w w' path fits h

-- No operation changes the read-only file system.
pub perform-base_fs : (w w' : WriteFs) (op : Op) → perform w op ≡ ok w' → w'.base_fs ≡ w.base_fs
unfolding remove mkdir rmdir touch
perform-base_fs w w' (write_file path content append) h =
    ground (arith, write-Wrote w w' path content append h)
perform-base_fs w w' (remove_file path) h = ground arith
perform-base_fs w w' (make_dir path) h = ground arith
perform-base_fs w w' (remove_dir path) h = ground arith
perform-base_fs w w' (rename_file old_path new_path) h =
    let renamed = rename-Renamed w w' old_path new_path h in
    ground (arith, renamed, write-Wrote w renamed.middle _ renamed.content false renamed.wrote)
perform-base_fs w w' (touch_file path) h = ground (arith, write-Wrote w w' (fs_name path) [] false)

-- The state after an operation: one that fails changes nothing.
abbrev pub after : WriteFs → Result FsError WriteFs → WriteFs
after w (ok w') = w'
after w (err e) = w

unfoldable pub run_ops : WriteFs → List Op → WriteFs
run_ops w [] = w
run_ops w (op ∷ ops) = run_ops (after w (perform w op)) ops

after-Fits : (w : WriteFs) (op : Op) → Fits w → Fits (after w (perform w op))
after-Fits w op fits = elim (Result-cases (perform w op)) [
  | inl (e, x) ↦ rw x fits
  | inr (w', x) ↦ rw x (perform-Fits w w' op fits x)
]

run_ops-Fits_from : (w : WriteFs) (ops : List Op) → Fits w → Fits (run_ops w ops)
unfolding run_ops
run_ops-Fits_from w [] fits = fits
run_ops-Fits_from w (op ∷ ops) fits =
    run_ops-Fits_from (after w (perform w op)) ops (after-Fits w op fits)

pub new_write_fs-Fits : (base_fs : Text → Option Node) → Fits (new_write_fs base_fs)
unfolding used
new_write_fs-Fits base_fs = omega arith

-- Whatever the operations, the files that were written never take more than the limit.
pub run_ops-Fits :
    (base_fs : Text → Option Node) (ops : List Op) → Fits (run_ops (new_write_fs base_fs) ops)
run_ops-Fits base_fs ops = run_ops-Fits_from (new_write_fs base_fs) ops (new_write_fs-Fits base_fs)

-- A rename of a directory that was made is the one operation that is left out here.
abbrev pub IsGentle : WriteFs → Op → Type 0
IsGentle w (rename_file old_path new_path) = is_set (fs_name old_path) w.dirs ≡ false
IsGentle w op = Unit {0}

abbrev pub AllGentle : WriteFs → List Op → Type 0
AllGentle w [] = Unit {0}
AllGentle w (op ∷ ops) = IsGentle w op × AllGentle (after w (perform w op)) ops

pub touch-cases :
    (w w' : WriteFs) (path : Text)
    → touch w path ≡ ok w'
    → (w' ≡ w) ⊎ (write w (fs_name path) [] false ≡ ok w')
unfolding touch
touch-cases w w' path h = ground arith

touch-IsSound : (w w' : WriteFs) (path : Text) → IsSound w → touch w path ≡ ok w' → IsSound w'
touch-IsSound w w' path sound h = elim (touch-cases w w' path h) [
  | inl e ↦ rw e sound
  | inr e ↦ write-IsSound w w' (fs_name path) [] false sound e
]

perform-IsSound :
    (w w' : WriteFs) (op : Op) → IsSound w → IsGentle w op → perform w op ≡ ok w' → IsSound w'
perform-IsSound w w' (write_file path content append) s g h =
    write-IsSound w w' path content append s h
perform-IsSound w w' (remove_file path) s g h = remove-IsSound w w' path s h
perform-IsSound w w' (make_dir path) s g h = mkdir-IsSound w w' path s h
perform-IsSound w w' (remove_dir path) s g h = rmdir-IsSound w w' path s h
perform-IsSound w w' (rename_file old_path new_path) s g h =
    rename-IsSound w w' old_path new_path s g h
perform-IsSound w w' (touch_file path) s g h = touch-IsSound w w' path s h

run_ops-IsSound_from :
    (w : WriteFs) (ops : List Op) → IsSound w → AllGentle w ops → IsSound (run_ops w ops)
unfolding run_ops
run_ops-IsSound_from w [] sound g = sound
run_ops-IsSound_from w (op ∷ ops) sound g =
    run_ops-IsSound_from (after w (perform w op)) ops
      (elim (Result-cases (perform w op)) [
        | inl (e, x) ↦ rw x sound
        | inr (w', x) ↦ rw x (perform-IsSound w w' op sound g.0 x)
      ])
      g.1

-- From a new file system, operations that rename no directory that was made leave no directory that
-- is made and deleted at once.
pub run_ops-IsSound :
    (base_fs : Text → Option Node) (ops : List Op)
    → AllGentle (new_write_fs base_fs) ops
    → IsSound (run_ops (new_write_fs base_fs) ops)
run_ops-IsSound base_fs ops =
    run_ops-IsSound_from (new_write_fs base_fs) ops (λ name made. unfold is_set lookup in refl)
