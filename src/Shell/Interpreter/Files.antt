-- ===== src/Shell/Interpreter/Files.antt =====
-- What a script can do to the files, and to the working directory.
use sshmux.Base.{
  Text, Option, none, some, List, ok, ◌≡◌, refl, ◌∙◌, Bool, Result-cases, Option-cases, inl, inr,
}
use sshmux.Shell.Syntax.{Word, Stmts}
use sshmux.Shell.WriteFs.{WriteFs}
use sshmux.Shell.WriteFs.Space.{Op, write_file, perform, Fits, perform-Fits, perform-base_fs}
use sshmux.Shell.State.{Shell, clean_path, store}
use sshmux.Shell.Ran.{Ran}
use sshmux.Shell.Builtins.Files.{run_args-keeps}
use sshmux.Shell.Interpreter.{Locals, Redirected, write_back, run_redirected, word, run_file}
use sshmux.Shell.Interpreter.Induction.{word_induction, script_induction}

module _ (P : WriteFs → Type 0)
    (keeps : (w w' : WriteFs) (op : Op) → P w → perform w op ≡ ok w' → P w') where
  write_back-keeps :
      (target : Option (Text × Bool)) (r : Ran) → P r.shell.fs → P (write_back target r).shell.fs
  unfolding write_back
  write_back-keeps none r h = h
  write_back-keeps (some (target, append)) r h = elim (Option-cases r.failed) [
    | inr (e, x) ↦ rw (x, write_back) h
    | inl x ↦ elim (Result-cases (store r.shell target r.out append)) [
      | inl (e, y) ↦ rw (x, write_back) (rw (y, write_back) h)
      | inr (w, y) ↦
          rw (x, write_back)
            (rw (y, write_back)
              (keeps r.shell.fs w (write_file (clean_path r.shell target) r.out append) h
                (unfold store in y)))
    ]
  ]

  run_redirected-keeps :
      (d : Redirected) (s : Shell) (name : Text) (args : List Text)
      → P s.fs
      → P (run_redirected d s name args).shell.fs
  unfolding run_redirected
  run_redirected-keeps d s name args h = elim (Option-cases d.source) [
    | inl x ↦
        rw (x, run_redirected) (write_back-keeps d.target _ (run_args-keeps P keeps s name args h))
    | inr (content, x) ↦
        rw (x, run_redirected)
          (write_back-keeps d.target _
            (run_args-keeps P keeps (record s { input = content }) name args h))
  ]

  abbrev Passes : Shell → Shell → Type 0
  Passes s t = P s.fs → P t.fs

  -- What every operation of the file system keeps, every script keeps, also one that fails.
  pub run_file-keeps : (ts : Stmts) (s : Shell) → P s.fs → P (run_file ts s).shell.fs
  run_file-keeps =
      script_induction Passes Passes (λ s h. h) (λ s t u f g h. g (f h)) (λ s t u f g h. g (f h))
        (λ s t f. f) (λ s t f. f) (λ s env h. h) run_redirected-keeps

-- No script, whether it fails or not, makes the written files exceed the limit of the file system.
pub run_file-Fits : (ts : Stmts) (s : Shell) → Fits s.fs → Fits (run_file ts s).shell.fs
run_file-Fits = run_file-keeps Fits perform-Fits

-- No script changes the files that the file system was made from.
pub run_file-base_fs : (ts : Stmts) (s : Shell) → (run_file ts s).shell.fs.base_fs ≡ s.fs.base_fs
run_file-base_fs ts s =
    run_file-keeps (λ w. w.base_fs ≡ s.fs.base_fs) (λ w w' op e h. perform-base_fs w w' op h ∙ e) ts
      s refl

-- The expansion of a word leaves the working directory as it is, whatever commands it substitutes.
pub word-cwd : (w : Word) (locals : Locals) (s : Shell) → (word w locals s).1.cwd ≡ s.cwd
word-cwd =
    word_induction (λ s t. t.cwd ≡ s.cwd) (λ s t. Unit {0}) (λ s. refl) (λ s t u f g. g ∙ f)
      (λ s t u f g. tt) (λ s t f. tt) (λ s t f. refl) (λ s env. tt) (λ d s name args. tt)
