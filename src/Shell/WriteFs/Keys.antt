-- ===== src/Shell/WriteFs/Keys.antt =====
-- The keys of the maps of a `writeFS` are names that `fsName` gives, whatever is done to it.
use sshmux.Base.{
  Text, Bool, true, false, Option, [], ◌∷◌, ◌==◌, text_eq, ok, if◌then◌else◌, Map, insert, erase,
  All, ◌≡◌, refl, arith, inl, inr,
}
use sshmux.Shell.Paths.{fs_name}
use sshmux.Shell.Paths.Names.{fs_name_idem}
use sshmux.Shell.Paths.Children.{IsName}
use sshmux.Shell.WriteFs.{WriteFs, Node, new_write_fs}
use sshmux.Shell.WriteFs.Operations.{write, remove, rename, rename_target}
use sshmux.Shell.WriteFs.Writing.{Wrote, write-Wrote, written}
use sshmux.Shell.WriteFs.Changing.{rename-Renamed}
use sshmux.Shell.WriteFs.Space.{
  Op, write_file, remove_file, make_dir, remove_dir, rename_file, touch_file, perform, touch-cases,
}
use sshmux.Shell.WriteFs.Table.Directories.{mkdir-made, rmdir-gone}
use sshmux.Shell.WriteFs.Seen.{IsKeyed}

module _ {V : Type 0} (P : Text × V → Type 0) where
  All_chosen : (b : Bool) (x y : Map Text V) → All P x → All P y → All P (if b then x else y)
  All_chosen true x y h k = h
  All_chosen false x y h k = k

  All-erase : (k : Text) (m : Map Text V) → All P m → All P (erase k m)
  unfolding erase
  All-erase k [] h = tt
  All-erase k ((j, v) ∷ m) (h, hs) =
      let rest = All-erase k m hs in
      All_chosen (k == j) (erase k m) ((j, v) ∷ erase k m) rest (h, rest)

  All-insert : (k : Text) (v : V) (m : Map Text V) → P (k, v) → All P m → All P (insert k v m)
  unfolding insert
  All-insert k v m p h = (p, All-erase k m h)

-- What the maps of files and directories hold
abbrev FileName : Text × Text → Type 0
FileName p = IsName p.0

abbrev DirName : Text × Bool → Type 0
DirName p = IsName p.0 × (p.1 ≡ true)

Wrote-IsKeyed :
    (w w' : WriteFs) (name content : Text) (append : Bool)
    → IsName name
    → IsKeyed w
    → Wrote w w' name content append
    → IsKeyed w'
Wrote-IsKeyed w w' name content append named keyed h = rw h.state (record {
  file_names =
      All-insert FileName name (written w name content append) w.files named keyed.file_names;
  dir_names = keyed.dir_names;
})

erased-IsKeyed :
    (w : WriteFs) (name : Text) (del : Map Text Bool)
    → IsKeyed w
    → IsKeyed (record w { files = erase name w.files; deleted = del })
erased-IsKeyed w name del keyed = record {
  file_names = All-erase FileName name w.files keyed.file_names;
  dir_names = keyed.dir_names;
}

remove-erased :
    (w w' : WriteFs) (path : Text)
    → remove w path ≡ ok w'
    → w' ≡ record w {
      files = erase (fs_name path) w.files;
      deleted = insert (fs_name path) true w.deleted;
    }
unfolding remove
remove-erased w w' path h = ground arith

write-IsKeyed :
    (w w' : WriteFs) (path content : Text) (append : Bool)
    → IsKeyed w
    → write w path content append ≡ ok w'
    → IsKeyed w'
write-IsKeyed w w' path content append keyed h =
    Wrote-IsKeyed w w' (fs_name path) content append (fs_name_idem path) keyed
      (write-Wrote w w' path content append h)

rename-IsKeyed :
    (w w' : WriteFs) (old_path new_path : Text)
    → IsKeyed w
    → rename w old_path new_path ≡ ok w'
    → IsKeyed w'
rename-IsKeyed w w' old_path new_path keyed h =
    let renamed = rename-Renamed w w' old_path new_path h in
    let target = rename_target w (fs_name old_path) (fs_name new_path) in
    rw renamed.state (
      erased-IsKeyed renamed.middle (fs_name old_path)
        (insert (fs_name old_path) true renamed.middle.deleted)
        (write-IsKeyed w renamed.middle target renamed.content false keyed renamed.wrote))

pub perform-IsKeyed : (w w' : WriteFs) (op : Op) → IsKeyed w → perform w op ≡ ok w' → IsKeyed w'
perform-IsKeyed w w' (write_file path content append) keyed h =
    write-IsKeyed w w' path content append keyed h
perform-IsKeyed w w' (remove_file path) keyed h =
    rw (remove-erased w w' path h)
      (erased-IsKeyed w (fs_name path) (insert (fs_name path) true w.deleted) keyed)
perform-IsKeyed w w' (make_dir path) keyed h = rw ((mkdir-made w w' path h).1) (record {
  file_names = keyed.file_names;
  dir_names =
      All-insert DirName (fs_name path) true w.dirs (fs_name_idem path, refl) keyed.dir_names;
})
perform-IsKeyed w w' (remove_dir path) keyed h = rw ((rmdir-gone w w' path h).1) (record {
  file_names = keyed.file_names;
  dir_names = All-erase DirName (fs_name path) w.dirs keyed.dir_names;
})
perform-IsKeyed w w' (rename_file old_path new_path) keyed h =
    rename-IsKeyed w w' old_path new_path keyed h
perform-IsKeyed w w' (touch_file path) keyed h = elim (touch-cases w w' path h) [
  | inl e ↦ rw e keyed
  | inr e ↦ write-IsKeyed w w' (fs_name path) [] false keyed e
]

pub new_write_fs-IsKeyed : (base_fs : Text → Option Node) → IsKeyed (new_write_fs base_fs)
new_write_fs-IsKeyed base_fs = record { file_names = tt; dir_names = tt }
