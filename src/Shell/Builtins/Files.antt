-- ===== src/Shell/Builtins/Files.antt =====
-- What the commands do to the files: nothing, or what operations of the file system do.
use sshmux.Base.{
  Text, Bool, true, false, List, [], ◌∷◌, ok, ◌≡◌, refl, arith, ap, Result-cases, Option-cases, inl,
  inr,
}
use sshmux.Shell.WriteFs.{WriteFs, FsError}
use sshmux.Shell.WriteFs.Space.{
  Op, write_file, remove_file, make_dir, remove_dir, rename_file, touch_file, perform,
}
use sshmux.Shell.State.{Failure, Shell, load, store, clean_path}
use sshmux.Shell.Reading.{
  say, list_target, cat_files, grep_files, run_pwd, run_whoami, run_clear, run_help, run_ls,
  run_cat, run_echo, run_grep,
}
use sshmux.Shell.Builtins.{
  change_dir, run_cd, each_path, some_paths, run_mkdir, run_rmdir, run_touch, run_rm, run_cp,
  run_mv, cp_target, changed, Builtin, cat, cd, clear, cp, echo, exit, grep, help, ls, mkdir_cmd,
  mv, pwd, rm, rmdir_cmd, touch_cmd, whoami, builtin, run_builtin, run_args,
}

say-fs : (name text : Text) (s : Shell) (args : List Text) → (say name text s args).shell ≡ s
unfolding say
say-fs name text s [] = refl
say-fs name text s (a ∷ args) = refl

cat_files-shell : (s : Shell) (args : List Text) → (cat_files s args).shell ≡ s
unfolding cat_files
cat_files-shell s [] = refl
cat_files-shell s (a ∷ args) = ground (arith, cat_files-shell s args)

grep_files-shell :
    (s : Shell) (pattern : Text) (args : List Text) → (grep_files s pattern args).shell ≡ s
unfolding grep_files
grep_files-shell s pattern [] = refl
grep_files-shell s pattern (a ∷ args) = ground (arith, grep_files-shell s pattern args)

-- The commands that have no operation of the file system to call.
abbrev pub only_reads : Builtin → Bool
only_reads cp = false
only_reads mkdir_cmd = false
only_reads mv = false
only_reads rm = false
only_reads rmdir_cmd = false
only_reads touch_cmd = false
only_reads _ = true

run_ls-fs : (s : Shell) (args : List Text) → (run_ls s args).shell.fs ≡ s.fs
unfolding run_ls list_target
run_ls-fs s [] = ground arith
run_ls-fs s (a ∷ []) = ground arith
run_ls-fs s (a ∷ b ∷ args) = refl

run_cat-fs : (s : Shell) (args : List Text) → (run_cat s args).shell.fs ≡ s.fs
unfolding run_cat
run_cat-fs s [] = refl
run_cat-fs s (a ∷ args) = ground (arith, cat_files-shell s (a ∷ args))

run_grep-fs : (s : Shell) (args : List Text) → (run_grep s args).shell.fs ≡ s.fs
unfolding run_grep
run_grep-fs s [] = refl
run_grep-fs s (p ∷ []) = refl
run_grep-fs s (p ∷ a ∷ args) = ground (arith, grep_files-shell s p (a ∷ args))

run_cd-fs : (s : Shell) (args : List Text) → (run_cd s args).shell.fs ≡ s.fs
unfolding run_cd change_dir
run_cd-fs s [] = ground arith
run_cd-fs s (a ∷ []) = ground arith
run_cd-fs s (a ∷ b ∷ args) = refl

run_builtin-fs :
    (b : Builtin) (s : Shell) (args : List Text)
    → only_reads b ≡ true
    → (run_builtin b s args).shell.fs ≡ s.fs
unfolding run_builtin run_pwd run_whoami run_clear run_help run_echo
run_builtin-fs cat s args h = run_cat-fs s args
run_builtin-fs cd s args h = run_cd-fs s args
run_builtin-fs clear s args h = ap (λ t. t.fs) (say-fs _ _ s args)
run_builtin-fs cp s args h = absurd (cc)
run_builtin-fs echo s args h = refl
run_builtin-fs exit s args h = refl
run_builtin-fs grep s args h = run_grep-fs s args
run_builtin-fs help s args h = ap (λ t. t.fs) (say-fs _ _ s args)
run_builtin-fs ls s args h = run_ls-fs s args
run_builtin-fs mkdir_cmd s args h = absurd (cc)
run_builtin-fs mv s args h = absurd (cc)
run_builtin-fs pwd s args h = ap (λ t. t.fs) (say-fs _ _ s args)
run_builtin-fs rm s args h = absurd (cc)
run_builtin-fs rmdir_cmd s args h = absurd (cc)
run_builtin-fs touch_cmd s args h = absurd (cc)
run_builtin-fs whoami s args h = ap (λ t. t.fs) (say-fs _ _ s args)

-- A property of the file system that every operation keeps where it succeeds.
module _ (P : WriteFs → Type 0)
    (keeps : (w w' : WriteFs) (op : Op) → P w → perform w op ≡ ok w' → P w') where
  each_path-keeps :
      (name : Text) (as_op : Text → Op) (s : Shell) (args : List Text)
      → P s.fs
      → P (each_path name (λ w path. perform w (as_op path)) s args).shell.fs
  unfolding each_path
  each_path-keeps name as_op s [] h = h
  each_path-keeps name as_op s (a ∷ args) h =
      elim (Result-cases (perform s.fs (as_op (clean_path s a)))) [
        | inl (e, x) ↦ rw (x, each_path) h
        | inr (w, x) ↦
            rw (x, each_path)
              (each_path-keeps name as_op (record s { fs = w }) args
                (keeps s.fs w (as_op (clean_path s a)) h x))
      ]

  some_paths-keeps :
      (name : Text) (as_op : Text → Op) (s : Shell) (args : List Text)
      → P s.fs
      → P (some_paths name (λ w path. perform w (as_op path)) s args).shell.fs
  unfolding some_paths
  some_paths-keeps name as_op s [] h = h
  some_paths-keeps name as_op s (a ∷ args) h = each_path-keeps name as_op s (a ∷ args) h

  changed-keeps :
      (s : Shell) (f : FsError → Failure) (op : Op)
      → P s.fs
      → P (changed s f (perform s.fs op)).shell.fs
  changed-keeps s f op h = elim (Result-cases (perform s.fs op)) [
    | inl (e, x) ↦ rw x h
    | inr (w, x) ↦ rw x (keeps s.fs w op h x)
  ]

  run_cp-keeps : (s : Shell) (args : List Text) → P s.fs → P (run_cp s args).shell.fs
  unfolding run_cp store
  run_cp-keeps s [] h = h
  run_cp-keeps s (a ∷ []) h = h
  run_cp-keeps s (a ∷ b ∷ []) h = elim (Result-cases (load s a)) [
    | inl (e, x) ↦ rw (x, run_cp) h
    | inr (c, x) ↦
        rw (x, run_cp) (changed-keeps s _ (write_file (clean_path s (cp_target s a b)) c false) h)
  ]
  run_cp-keeps s (a ∷ b ∷ c ∷ args) h = h

  run_mv-keeps : (s : Shell) (args : List Text) → P s.fs → P (run_mv s args).shell.fs
  unfolding run_mv
  run_mv-keeps s [] h = h
  run_mv-keeps s (a ∷ []) h = h
  run_mv-keeps s (a ∷ b ∷ []) h =
      changed-keeps s _ (rename_file (clean_path s a) (clean_path s b)) h
  run_mv-keeps s (a ∷ b ∷ c ∷ args) h = h

  reading-keeps :
      (b : Builtin) (s : Shell) (args : List Text)
      → only_reads b ≡ true
      → P s.fs
      → P (run_builtin b s args).shell.fs
  reading-keeps b s args r h = rw (run_builtin-fs b s args r) h

  run_builtin-keeps :
      (b : Builtin) (s : Shell) (args : List Text) → P s.fs → P (run_builtin b s args).shell.fs
  unfolding run_builtin run_mkdir run_rmdir run_touch run_rm
  run_builtin-keeps cp s args h = run_cp-keeps s args h
  run_builtin-keeps mkdir_cmd s args h = some_paths-keeps _ make_dir s args h
  run_builtin-keeps mv s args h = run_mv-keeps s args h
  run_builtin-keeps rm s args h = some_paths-keeps _ remove_file s args h
  run_builtin-keeps rmdir_cmd s args h = some_paths-keeps _ remove_dir s args h
  run_builtin-keeps touch_cmd s args h = some_paths-keeps _ touch_file s args h
  run_builtin-keeps cat s args h = reading-keeps cat s args refl h
  run_builtin-keeps cd s args h = reading-keeps cd s args refl h
  run_builtin-keeps clear s args h = reading-keeps clear s args refl h
  run_builtin-keeps echo s args h = reading-keeps echo s args refl h
  run_builtin-keeps exit s args h = reading-keeps exit s args refl h
  run_builtin-keeps grep s args h = reading-keeps grep s args refl h
  run_builtin-keeps help s args h = reading-keeps help s args refl h
  run_builtin-keeps ls s args h = reading-keeps ls s args refl h
  run_builtin-keeps pwd s args h = reading-keeps pwd s args refl h
  run_builtin-keeps whoami s args h = reading-keeps whoami s args refl h

  -- A command keeps what the operations keep.
  pub run_args-keeps :
      (s : Shell) (name : Text) (args : List Text) → P s.fs → P (run_args s name args).shell.fs
  unfolding run_args
  run_args-keeps s name args h = elim (Option-cases (builtin name)) [
    | inl e ↦ rw (e, run_args) h
    | inr (b, e) ↦ rw (e, run_args) (run_builtin-keeps b s args h)
  ]
