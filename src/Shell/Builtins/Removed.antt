-- ===== src/Shell/Builtins/Removed.antt =====
-- What `ls` and `cd` say about an embedded directory that was removed.
use sshmux.Base.{Text, true, none, some, List, [], ◌∷◌, ok, is_ok, ◌≡◌, arith, text_eq}
use sshmux.Shell.Paths.{fs_name}
use sshmux.Shell.Paths.Names.{fs_name_idem}
use sshmux.Shell.WriteFs.{DirEntry, WriteFs, directory, base_read_dir, read_dir}
use sshmux.Shell.WriteFs.Operations.{rmdir}
use sshmux.Shell.WriteFs.Changing.{stat-rmdir}
use sshmux.Shell.WriteFs.Space.{remove_dir, perform-base_fs}
use sshmux.Shell.State.{Shell, cd_no_directory, clean_path}
use sshmux.Shell.Ran.{refused}
use sshmux.Shell.Reading.{run_ls, list_target}
use sshmux.Shell.Builtins.{run_cd, change_dir}

read_dir_of_base :
    (w : WriteFs) (path : Text) (entries : List DirEntry)
    → w.base_fs (fs_name path) ≡ some (directory entries)
    → is_ok (read_dir w (fs_name path)) ≡ true
unfolding read_dir base_read_dir
read_dir_of_base w path entries h = ground (arith, h, fs_name_idem path)

list_target_of_listed :
    (s : Shell) (target : Text)
    → is_ok (read_dir s.fs (fs_name target)) ≡ true
    → (list_target s target).failed ≡ none
unfolding list_target
list_target_of_listed s target h = ground (arith, h)

-- An embedded directory that was removed is no directory to `cd`, but `ls` of it has no error.
pub run_ls_of_removed :
    (s : Shell) (w : WriteFs) (name : Text) (entries : List DirEntry)
    → let path = clean_path s name in
      s.fs.base_fs (fs_name path) ≡ some (directory entries)
      → rmdir s.fs path ≡ ok w
      → let s' = record s { fs = w } in
        ((run_ls s' (name ∷ [])).failed ≡ none)
        × (run_cd s' (name ∷ []) ≡ refused s' (cd_no_directory (clean_path s name)))
unfolding run_ls run_cd clean_path change_dir
run_ls_of_removed s w name entries b h =
    let path = clean_path s name in
    let s' = record s { fs = w } in
    let kept = perform-base_fs s.fs w (remove_dir path) h in
    let gone = stat-rmdir s.fs w path (fs_name path) h in
    (
      list_target_of_listed s' path (read_dir_of_base w path entries (ground (arith, kept, b))),
      ground (arith, gone, fs_name_idem path),
    )
