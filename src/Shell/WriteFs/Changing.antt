-- ===== src/Shell/WriteFs/Changing.antt =====
-- `Remove`, `Mkdir`, `Rmdir` and `Rename`: what is visible afterwards, under every name.
use sshmux.Base.{
  Text, Bool, true, false, [], ◌==◌, text_eq, ok, err, is_ok, if◌then◌else◌, Map, insert, erase,
  lookup-insert, lookup-erase, ◌≡◌, ◌≢◌, arith, Result-cases, inl, inr,
}
use sshmux.Shell.Paths.{dot, dir, fs_name}
use sshmux.Shell.Paths.Names.{fs_name_idem}
use sshmux.Shell.WriteFs.{WriteFs, not_exist, is_set, read_dir, stat, read_file}
use sshmux.Shell.WriteFs.View.{is_set-insert, kind, contents, stat-kind, read_file-contents}
use sshmux.Shell.WriteFs.Operations.{write, remove, mkdir, rmdir, rename_target, rename}
use sshmux.Shell.WriteFs.Writing.{write-Wrote, IsSound, IsLive, read_file-write}

pub is_set-erase :
    (j k : Text) (m : Map Text Bool) → is_set j (erase k m) ≡ (if j == k then false else is_set j m)
unfolding is_set
is_set-erase j k m = ground (arith, lookup-erase j k m)

-- A file can be removed exactly if there is one. Then its name is gone, and all else is as it was.
pub read_file-remove :
    (w w' : WriteFs) (path other : Text)
    → remove w path ≡ ok w'
    → (kind w (fs_name path) ≡ ok false)
      × (read_file w' other ≡ (
          if fs_name other == fs_name path
          then err (not_exist (fs_name path))
          else read_file w other))
unfolding remove contents
read_file-remove w w' path other h = ground (
  arith,
  stat-kind w (fs_name path),
  fs_name_idem path,
  read_file-contents w other,
  read_file-contents w' other,
  lookup-erase (fs_name other) (fs_name path) w.files,
  is_set-insert (fs_name other) (fs_name path) true w.deleted,
)

pub remove-IsSound : (w w' : WriteFs) (path : Text) → IsSound w → remove w path ≡ ok w' → IsSound w'
unfolding remove kind
remove-IsSound w w' path sound h name made = ground (
  arith,
  stat-kind w (fs_name path),
  fs_name_idem path,
  sound name,
  is_set-insert name (fs_name path) true w.deleted,
)

-- A directory can be made only where nothing is, in a directory. Then it is there, and every other
-- name is what it was.
pub stat-mkdir :
    (w w' : WriteFs) (path other : Text)
    → mkdir w path ≡ ok w'
    → (is_ok (stat w path) ≡ false)
      × (stat w (dir (fs_name path)) ≡ ok true)
      × (stat w' other ≡ (if fs_name other == fs_name path then ok true else stat w other))
unfolding mkdir kind
stat-mkdir w w' path other h = ground (
  arith,
  stat-kind w (fs_name path),
  stat-kind w path,
  fs_name_idem path,
  stat-kind w other,
  stat-kind w' other,
  is_set-insert (fs_name other) (fs_name path) true w.dirs,
  is_set-insert (fs_name other) (fs_name path) false w.deleted,
)

pub mkdir-IsSound : (w w' : WriteFs) (path : Text) → IsSound w → mkdir w path ≡ ok w' → IsSound w'
unfolding mkdir
mkdir-IsSound w w' path sound h name made = ground (
  arith,
  sound name,
  is_set-insert name (fs_name path) true w.dirs,
  is_set-insert name (fs_name path) false w.deleted,
)

-- A directory can be removed only if it is one, other than the root, and lists no entry. Then its
-- name is gone, and every other name is what it was.
pub stat-rmdir :
    (w w' : WriteFs) (path other : Text)
    → rmdir w path ≡ ok w'
    → (fs_name path ≢ dot)
      × (stat w path ≡ ok true)
      × (read_dir w (fs_name path) ≡ ok [])
      × (stat w' other ≡ (
          if fs_name other == fs_name path then err (not_exist (fs_name path)) else stat w other))
unfolding rmdir kind
stat-rmdir w w' path other h = ground (
  arith,
  stat-kind w (fs_name path),
  stat-kind w path,
  fs_name_idem path,
  stat-kind w other,
  stat-kind w' other,
  is_set-erase (fs_name other) (fs_name path) w.dirs,
  is_set-insert (fs_name other) (fs_name path) true w.deleted,
)

pub rmdir-IsSound : (w w' : WriteFs) (path : Text) → IsSound w → rmdir w path ≡ ok w' → IsSound w'
unfolding rmdir
rmdir-IsSound w w' path sound h name made = ground (
  arith,
  sound name,
  is_set-erase name (fs_name path) w.dirs,
  is_set-insert name (fs_name path) true w.deleted,
)

pub write-IsSound :
    (w w' : WriteFs) (path content : Text) (append : Bool)
    → IsSound w
    → write w path content append ≡ ok w'
    → IsSound w'
write-IsSound w w' path content append sound h name made = ground (
  arith,
  write-Wrote w w' path content append h,
  sound name,
  is_set-insert name (fs_name path) false w.deleted,
)

-- What a rename that succeeds does: it writes the old content to the target, then drops the old name.
pub record Renamed (w w' : WriteFs) (old_name target : Text) : Type 0 where
  pub content : Text
  pub middle : WriteFs
  pub read : read_file w old_name ≡ ok content
  pub wrote : write w target content false ≡ ok middle
  pub state : w' ≡ record middle {
    files = erase old_name middle.files;
    deleted = insert old_name true middle.deleted;
  }

pub rename-Renamed :
    (w w' : WriteFs) (old_path new_path : Text)
    → rename w old_path new_path ≡ ok w'
    → Renamed w w' (fs_name old_path) (rename_target w (fs_name old_path) (fs_name new_path))
unfolding rename
rename-Renamed w w' old_path new_path h = elim (Result-cases (read_file w (fs_name old_path))) [
  | inl (e, x) ↦ absurd (ground arith)
  | inr (content, x) ↦
      let target = rename_target w (fs_name old_path) (fs_name new_path) in
      elim (Result-cases (write w target content false)) [
        | inl (e, y) ↦ absurd (ground arith)
        | inr (middle, y) ↦ record {
          content = content;
          middle = middle;
          read = x;
          wrote = y;
          state = ground arith;
        }
      ]
]

-- After a rename the old name is gone, also where it was the target itself; the target reads as the
-- old name did, and every other name reads as before. The condition is that the target's name is
-- not that of a made directory that is marked as deleted, as a rename of it leaves it.
pub read_file-rename :
    (w w' : WriteFs) (old_path new_path other : Text)
    → IsLive w (fs_name (rename_target w (fs_name old_path) (fs_name new_path)))
    → rename w old_path new_path ≡ ok w'
    → read_file w' other ≡ (
        if fs_name other == fs_name old_path
        then err (not_exist (fs_name old_path))
        else if fs_name other == fs_name (rename_target w (fs_name old_path) (fs_name new_path))
        then read_file w (fs_name old_path)
        else read_file w other)
unfolding contents
read_file-rename w w' old_path new_path other live h =
    let renamed = rename-Renamed w w' old_path new_path h in
    ground (
      arith,
      renamed,
      read_file-contents w' other,
      read_file-contents renamed.middle other,
      read_file-write w renamed.middle (rename_target w (fs_name old_path) (fs_name new_path)) other
          renamed.content false live renamed.wrote,
      lookup-erase (fs_name other) (fs_name old_path) renamed.middle.files,
      is_set-insert (fs_name other) (fs_name old_path) true renamed.middle.deleted,
    )

pub rename-IsSound :
    (w w' : WriteFs) (old_path new_path : Text)
    → IsSound w
    → is_set (fs_name old_path) w.dirs ≡ false
    → rename w old_path new_path ≡ ok w'
    → IsSound w'
rename-IsSound w w' old_path new_path sound plain h name made =
    let renamed = rename-Renamed w w' old_path new_path h in
    ground (
      arith,
      renamed,
      write-Wrote w renamed.middle (rename_target w (fs_name old_path) (fs_name new_path))
          renamed.content false renamed.wrote,
      sound name,
      is_set-insert name (fs_name (rename_target w (fs_name old_path) (fs_name new_path))) false
          w.deleted,
      is_set-insert name (fs_name old_path) true renamed.middle.deleted,
    )

-- A directory that was made can be renamed, and is then gone: the target is an empty file. The
-- condition is that the target's name is not that of a made directory that is marked as deleted, as
-- a rename of it leaves it.
pub rename_of_directory :
    (w w' : WriteFs) (old_path new_path : Text)
    → IsLive w (fs_name (rename_target w (fs_name old_path) (fs_name new_path)))
    → is_set (fs_name old_path) w.dirs ≡ true
    → rename w old_path new_path ≡ ok w'
    → let target = rename_target w (fs_name old_path) (fs_name new_path) in
      (stat w old_path ≡ ok true)
      × (stat w' old_path ≡ err (not_exist (fs_name old_path)))
      × (fs_name target ≢ fs_name old_path)
      × (stat w' target ≡ ok false)
      × (read_file w' target ≡ ok [])
unfolding kind contents
rename_of_directory w w' old_path new_path live made h =
    let renamed = rename-Renamed w w' old_path new_path h in
    let target = rename_target w (fs_name old_path) (fs_name new_path) in
    let wrote = write-Wrote w renamed.middle target renamed.content false renamed.wrote in
    ground (
      arith,
      renamed,
      wrote,
      fs_name_idem old_path,
      live,
      stat-kind w old_path,
      stat-kind w' old_path,
      stat-kind w' target,
      read_file-contents w (fs_name old_path),
      read_file-contents w' target,
      is_set-insert (fs_name old_path) (fs_name old_path) true renamed.middle.deleted,
      is_set-insert (fs_name target) (fs_name old_path) true renamed.middle.deleted,
      is_set-insert (fs_name target) (fs_name target) false w.deleted,
      lookup-erase (fs_name target) (fs_name old_path) renamed.middle.files,
      lookup-insert (fs_name target) (fs_name target) renamed.content w.files,
    )
