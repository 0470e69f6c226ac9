-- ===== src/Shell/Interactive/Laws.antt =====
-- What holds over a whole conversation with the shell, and how its process ends.
use sshmux.Base.{
  Text, Bool, Option, none, some, is_ok, List, [], ◌∷◌, ◌++◌, text_eq, ok, ◌≡◌, ◌≢◌, ◌↔◌, ◌≤◌, refl,
  subst, arith, ap, ◌⊎◌, sym, ◌∙◌, Option-cases, inl, inr,
}
use sshmux.Shell.Syntax.{Stmts}
use sshmux.Shell.WriteFs.{WriteFs, Node, new_write_fs, max_filesystem_bytes}
use sshmux.Shell.WriteFs.Space.{
  Op, perform, used, Fits, perform-Fits, perform-base_fs, new_write_fs-Fits,
}
use sshmux.Shell.Paths.{fs_name, join_path}
use sshmux.Shell.Paths.Names.{IsProper}
use sshmux.Shell.WriteFs.{DirEntry, read_dir, stat}
use sshmux.Shell.WriteFs.Seen.{IsKeyed, is_listed}
use sshmux.Shell.WriteFs.Listing.{IsListing, read_dir-is_listed}
use sshmux.Shell.WriteFs.Keys.{perform-IsKeyed, new_write_fs-IsKeyed}
use sshmux.Shell.State.{Failure, Shell, new_shell}
use sshmux.Shell.Interpreter.Files.{run_file-keeps}
use sshmux.Shell.Interactive.{
  Event, typed, interrupt, Talk, said, prompt, run, talk, run_interactive, main,
}

-- The lines that are typed, without the interrupts
pub lines_of : List Event → List Event
lines_of [] = []
lines_of (typed l ∷ events) = typed l ∷ lines_of events
lines_of (interrupt ∷ events) = lines_of events

module _ (parse : Text → Option Stmts) where
  said-shell : (t : Text) (e : Option Failure) (k : Talk) → (said t e k).shell ≡ k.shell
  said-shell t none k = refl
  said-shell t (some e) k = refl

  said-errors :
      (t t' : Text) (e : Option Failure) (k k' : Talk)
      → k.errors ≡ k'.errors
      → (said t e k).errors ≡ (said t' e k').errors
  said-errors t t' none k k' h = h
  said-errors t t' (some e) k k' h = ap (λ es. e ∷ es) h

  -- Interrupts change neither the shell in the end nor the errors that are shown, wherever they come
  -- between the lines.
  pub talk-lines_of :
      (s : Shell) (events : List Event)
      → ((talk parse s events).shell ≡ (talk parse s (lines_of events)).shell)
        × ((talk parse s events).errors ≡ (talk parse s (lines_of events)).errors)
  unfolding talk lines_of
  talk-lines_of s [] = (refl, refl)
  talk-lines_of s (typed l ∷ events) =
      let r = run parse s l in
      let t = r.out ++ prompt r.shell in
      let (same_shell, same_errors) = talk-lines_of r.shell events in
      (
        said-shell t r.failed _ ∙ same_shell ∙ sym (said-shell t r.failed _),
        said-errors t t r.failed _ _ same_errors,
      )
  talk-lines_of s (interrupt ∷ events) = talk-lines_of s events

  run-keeps :
      (P : WriteFs → Type 0)
      → ((w w' : WriteFs) (op : Op) → P w → perform w op ≡ ok w' → P w')
      → (s : Shell) (src : Text) → P s.fs
      → P (run parse s src).shell.fs
  unfolding run
  run-keeps P keeps s src h = elim (Option-cases (parse src)) [
    | inl x ↦ rw (x, run) h
    | inr (stmts, x) ↦ rw (x, run) (run_file-keeps P keeps stmts s h)
  ]

  talk-keeps :
      (P : WriteFs → Type 0)
      → ((w w' : WriteFs) (op : Op) → P w → perform w op ≡ ok w' → P w')
      → (s : Shell) (events : List Event) → P s.fs
      → P (talk parse s events).shell.fs
  unfolding talk
  talk-keeps P keeps s [] h = h
  talk-keeps P keeps s (typed l ∷ events) h =
      let r = run parse s l in
      subst (λ t. P t.fs) (sym (said-shell (r.out ++ prompt r.shell) r.failed _))
        (talk-keeps P keeps r.shell events (run-keeps P keeps s l h))
  talk-keeps P keeps s (interrupt ∷ events) h = talk-keeps P keeps s events h

  -- Whatever is typed, from the start of the shell on, the files that were written never take more
  -- than the limit, and the embedded files are never changed.
  pub run_interactive-Fits :
      (base_fs : Text → Option Node) (input : Text) (events : List Event)
      → let w = (run_interactive parse (new_shell (new_write_fs base_fs) input) events).shell.fs in
        (used w.files ≤ max_filesystem_bytes) × (w.base_fs ≡ base_fs)
  unfolding run_interactive
  run_interactive-Fits base_fs input events =
      let s = new_shell (new_write_fs base_fs) input in
      (
        talk-keeps Fits perform-Fits s events (new_write_fs-Fits base_fs),
        talk-keeps (λ w. w.base_fs ≡ base_fs) (λ w w' op e h. perform-base_fs w w' op h ∙ e) s
            events refl,
      )

  -- The process fails exactly if there is a command and it has an error. Then nothing is read from the
  -- terminal, and what the command wrote before its error is still written.
  pub main_fails_iff :
      (command : Text) (interactive : Bool) (s : Shell) (events : List Event)
      → let end = main parse command interactive s events in
        (end.code ≡ 0 ⊎ ((end.code ≡ 1) × (end.out ≡ (run parse s command).out)))
        × ((end.code ≡ 1) ↔ ((command ≢ []) × ((run parse s command).failed ≢ none)))
  unfolding main
  main_fails_iff command interactive s events = ground arith

  -- Whatever was typed, from the start of the shell on: the entries of a directory that can be listed
  -- are exactly the names that can be opened in it, if that is so of the embedded files.
  pub run_interactive-is_listed :
      (base_fs : Text → Option Node) (input : Text) (events : List Event) (path n : Text)
      (entries : List DirEntry)
      → IsListing base_fs
      → IsProper n
      → let w = (run_interactive parse (new_shell (new_write_fs base_fs) input) events).shell.fs in
        read_dir w path ≡ ok entries
        → is_listed n entries ≡ is_ok (stat w (join_path (fs_name path) n))
  unfolding run_interactive
  run_interactive-is_listed base_fs input events path n entries listing proper h =
      let s = new_shell (new_write_fs base_fs) input in
      let w = (talk parse s events).shell.fs in
      let keyed = talk-keeps IsKeyed perform-IsKeyed s events (new_write_fs-IsKeyed base_fs) in
      let kept = (run_interactive-Fits base_fs input events).1 in
      read_dir-is_listed w path n entries keyed (subst IsListing (sym kept) listing) proper h
