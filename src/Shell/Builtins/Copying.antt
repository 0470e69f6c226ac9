-- ===== src/Shell/Builtins/Copying.antt =====
-- What `cp`, `ls` and `cd` say about files that were written.
use sshmux.Base.{
  Text, false, true, none, [], ◌∷◌, ◌==◌, text_eq, ok, err, ◌≡◌, ◌≢◌, refl, ◌∙◌, arith,
  Result-cases, inl, inr, if◌then◌else◌,
}
use sshmux.Shell.Paths.{fs_name}
use sshmux.Shell.Paths.Names.{fs_name_idem}
use sshmux.Shell.WriteFs.{WriteFs, FsError, missing, base_read_dir, read_file, read_dir}
use sshmux.Shell.WriteFs.View.{kind}
use sshmux.Shell.WriteFs.Operations.{write}
use sshmux.Shell.WriteFs.Writing.{IsLive, write-Wrote, read_file-write}
use sshmux.Shell.State.{Failure, ls_no_directory, Shell, clean_path, load, store}
use sshmux.Shell.Ran.{printed, refused}
use sshmux.Shell.Reading.{is_missing, list_target, run_ls}
use sshmux.Shell.Builtins.{changed, cp_target, run_cp}

-- The name in the file system that a name given to a command stands for.
abbrev pub place : Shell → Text → Text
place s name = fs_name (clean_path s name)

pub load-read_file :
    (s : Shell) (name content : Text)
    → load s name ≡ ok content
    → read_file s.fs (place s name) ≡ ok content
unfolding load
load-read_file s name content h = ground arith

read_file-load :
    (s : Shell) (name content : Text)
    → read_file s.fs (place s name) ≡ ok content
    → load s name ≡ ok content
unfolding load
read_file-load s name content h = rw (h, load) refl

-- What was stored is what `load` reads, in a shell with the same working directory.
pub load-store :
    (s : Shell) (w : WriteFs) (name content : Text)
    → IsLive s.fs (place s name)
    → store s name content false ≡ ok w
    → load (record s { fs = w }) name ≡ ok content
unfolding store clean_path
load-store s w name content live h =
    let path = clean_path s name in
    let reads = read_file-write s.fs w path (fs_name path) content false live h in
    read_file-load (record s { fs = w }) name content (ground (arith, reads, fs_name_idem path))

-- What `cp` has done when it has no error.
pub record Copied (s : Shell) (src dst : Text) (s' : Shell) : Type 0 where
  pub content : Text
  pub had : load s src ≡ ok content
  pub copy : load s' (cp_target s src dst) ≡ ok content
  pub source : load s' src ≡ ok content
  pub others :
      (other : Text)
      → read_file s'.fs other ≡ (
          if fs_name other == place s (cp_target s src dst)
          then ok content
          else read_file s.fs other)

run_cp_error :
    (s : Shell) (src dst : Text) (e : Failure)
    → load s src ≡ err e
    → (run_cp s (src ∷ dst ∷ [])).failed ≢ none
unfolding run_cp
run_cp_error s src dst e x = rw (x, run_cp) (λ h. ground (arith, h))

run_cp_write_error :
    (s : Shell) (src dst content : Text) (e : FsError)
    → load s src ≡ ok content
    → store s (cp_target s src dst) content false ≡ err e
    → (run_cp s (src ∷ dst ∷ [])).failed ≢ none
unfolding run_cp
run_cp_write_error s src dst content e x y =
    rw (x, run_cp) (rw (y, changed) (λ h. ground (arith, h)))

run_cp_ok :
    (s : Shell) (src dst content : Text) (w : WriteFs)
    → load s src ≡ ok content
    → store s (cp_target s src dst) content false ≡ ok w
    → run_cp s (src ∷ dst ∷ []) ≡ printed (record s { fs = w }) []
unfolding run_cp
run_cp_ok s src dst content w x y = rw (x, run_cp) (rw (y, changed) refl)

read_file-store :
    (s : Shell) (w : WriteFs) (name content other : Text)
    → IsLive s.fs (place s name)
    → store s name content false ≡ ok w
    → read_file w other
      ≡ (if fs_name other == place s name then ok content else read_file s.fs other)
unfolding store
read_file-store s w name content other live h =
    read_file-write s.fs w (clean_path s name) other content false live h

stored-Copied :
    (s : Shell) (w : WriteFs) (src dst content : Text)
    → IsLive s.fs (place s (cp_target s src dst))
    → load s src ≡ ok content
    → store s (cp_target s src dst) content false ≡ ok w
    → Copied s src dst (record s { fs = w })
unfolding clean_path
stored-Copied s w src dst content live x y = record {
  content = content;
  had = x;
  copy = load-store s w (cp_target s src dst) content live y;
  source =
      read_file-load (record s { fs = w }) src content
        (ground (
          arith,
          load-read_file s src content x,
          read_file-store s w (cp_target s src dst) content (place s src) live y,
        ));
  others = λ other. read_file-store s w (cp_target s src dst) content other live y;
}

-- When `cp` of two names has no error, then the source could be read, and afterwards both it and
-- the copy read as it did before, also where the two are one file; every other name reads as
-- before. The condition is that the copy's name is not that of a made directory that is marked as
-- deleted, as a rename of it leaves it.
pub run_cp-Copied :
    (s : Shell) (src dst : Text)
    → IsLive s.fs (place s (cp_target s src dst))
    → (run_cp s (src ∷ dst ∷ [])).failed ≡ none
    → Copied s src dst (run_cp s (src ∷ dst ∷ [])).shell
run_cp-Copied s src dst live h = elim (Result-cases (load s src)) [
  | inl (e, x) ↦ absurd (run_cp_error s src dst e x h)
  | inr (content, x) ↦ elim (Result-cases (store s (cp_target s src dst) content false)) [
    | inl (e, y) ↦ absurd (run_cp_write_error s src dst content e x y h)
    | inr (w, y) ↦
        rw (run_cp_ok s src dst content w x y) (stored-Copied s w src dst content live x y)
  ]
]

-- `ls` with one name
run_ls-one : (s : Shell) (name : Text) → run_ls s (name ∷ []) ≡ list_target s (clean_path s name)
unfolding run_ls
run_ls-one s name = refl

-- What the read-only file system says where it has nothing
is_missing-missing : (name : Text) → is_missing (missing name) ≡ true
unfolding missing
is_missing-missing name = ground arith

list_target-missing :
    (s : Shell) (target name : Text)
    → read_dir s.fs (fs_name target) ≡ err (missing name)
    → list_target s target ≡ refused s (ls_no_directory target)
unfolding list_target
list_target-missing s target name h = rw (h, list_target) (rw (is_missing-missing name) refl)

read_dir-new :
    (w w' : WriteFs) (path content : Text)
    → IsLive w (fs_name path)
    → w.base_fs (fs_name path) ≡ none
    → write w path content false ≡ ok w'
    → read_dir w' (fs_name path) ≡ err (missing (fs_name path))
unfolding read_dir base_read_dir kind
read_dir-new w w' path content live new h =
    let wrote = write-Wrote w w' path content false h in
    ground (arith, wrote.state, wrote.not_dir, live, new, fs_name_idem path)

-- A file that was written where the read-only file system has nothing can be read, but `ls` of it
-- says that there is no such directory. The condition is that the file's name is not that of a made
-- directory that is marked as deleted, as a rename of it leaves it.
pub run_ls_of_new_file :
    (s : Shell) (w : WriteFs) (name content : Text)
    → IsLive s.fs (place s name)
    → s.fs.base_fs (place s name) ≡ none
    → store s name content false ≡ ok w
    → let s' = record s { fs = w } in
      (load s' name ≡ ok content)
      × (run_ls s' (name ∷ []) ≡ refused s' (ls_no_directory (clean_path s name)))
unfolding store clean_path
run_ls_of_new_file s w name content live new h =
    let s' = record s { fs = w } in
    (
      load-store s w name content live h,
      run_ls-one s' name
          ∙ list_target-missing s' (clean_path s name) _
              (read_dir-new s.fs w (clean_path s name) content live new h),
    )
