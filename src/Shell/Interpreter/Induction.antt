-- ===== src/Shell/Interpreter/Induction.antt =====
-- Induction over a script: what holds between the shell before and after, from the commands on.
use sshmux.Base.{
  Text, List, [], ◌∷◌, ◌++◌, ◌≡◌, refl, arith, Result-cases, Option-cases, inl, inr, Map, insert,
  text_eq,
}
use sshmux.Shell.Syntax.{
  RedirOp, write_out, append_out, read_in, other_redir, Part, lit, sgl_quoted, dbl_quoted, param,
  no_param, cmd_subst, other_part, Word, no_parts, part_of, Words, no_words, word_of, Assigns,
  no_assigns, assign, declare, Redirs, no_redirs, redir, Stmt, with_operator, other_cmd, call,
  Stmts, no_stmts, stmt_of,
}
use sshmux.Shell.State.{Shell}
use sshmux.Shell.Ran.{Ran}
use sshmux.Shell.Interpreter.{
  M, ◌>>=◌, return, Locals, Redirected, not_redirected, redirect, run_redirected, run_call,
  with_value, then_run, word, word_part, words, assigns, redirs, run_stmt, run_file, set_env,
}

pub redirect-shell :
    (op : RedirOp) (target : Text) (d : Redirected) (s : Shell) → (redirect op target d s).1 ≡ s
unfolding redirect
redirect-shell write_out target d s = refl
redirect-shell append_out target d s = refl
redirect-shell read_in target d s = ground arith
redirect-shell other_redir target d s = refl

-- `K` is for the expansion of words and `R` for statements. What a substitution does is seen through
-- the working directory that is put back.
module _ (K R : Shell → Shell → Type 0) (K-refl : (s : Shell) → K s s)
    (K-trans : (s t u : Shell) → K s t → K t u → K s u)
    (R-trans : (s t u : Shell) → R s t → R t u → R s u) (K-R : (s t : Shell) → K s t → R s t)
    (leaves : (s t : Shell) → R s t → K s (record t { cwd = s.cwd }))
    (sets : (s : Shell) (env : Map Text Text) → R s (record s { env = env }))
    (runs : (d : Redirected) (s : Shell) (name : Text) (args : List Text)
      → R s (run_redirected d s name args).shell) where
  abbrev Keeps : {A : Type 0} → M A → Type 0
  Keeps m = (s : Shell) → K s (m s).1

  bind-Keeps :
      {A B : Type 0} (m : M A) (f : A → M B) → Keeps m → ((a : A) → Keeps (f a)) → Keeps (m >>= f)
  bind-Keeps m f hm hf s = elim (Result-cases (m s).0) [
    | inl (e, x) ↦ rw (x, ◌>>=◌) (hm s)
    | inr (a, x) ↦ rw (x, ◌>>=◌) (K-trans s (m s).1 _ (hm s) (hf a (m s).1))
  ]

  with_value-R :
      {A : Type 0} (m : M A) (f : A → Shell → Ran)
      → Keeps m
      → ((a : A) (s : Shell) → R s (f a s).shell)
      → (s : Shell) → R s (with_value (m s) f).shell
  with_value-R m f hm hf s = elim (Result-cases (m s).0) [
    | inl (e, x) ↦ rw (x, with_value) (K-R s (m s).1 (hm s))
    | inr (a, x) ↦ rw (x, with_value) (R-trans s (m s).1 _ (K-R s (m s).1 (hm s)) (hf a (m s).1))
  ]

  then_run-R :
      (s : Shell) (r : Ran) (f : Shell → Ran)
      → R s r.shell
      → ((t : Shell) → R t (f t).shell)
      → R s (then_run r f).shell
  then_run-R s r f h k = elim (Option-cases r.failed) [
    | inl x ↦ rw (x, then_run) (R-trans s r.shell _ h (k r.shell))
    | inr (e, x) ↦ rw (x, then_run) h
  ]

  run_call-R :
      (locals : Locals) (args : List Text) (m : M Redirected)
      → Keeps m
      → (s : Shell) → R s (run_call locals args m s).shell
  unfolding run_call
  run_call-R locals [] m hm s = sets s (set_env locals s.env)
  run_call-R locals (name ∷ args) m hm s =
      with_value-R m (λ d s'. run_redirected d s' name args) hm (λ d s'. runs d s' name args) s

  redirect-Keeps : (op : RedirOp) (target : Text) (d : Redirected) → Keeps (redirect op target d)
  redirect-Keeps op target d s = rw (redirect-shell op target d s) (K-refl s)

  mutual
    unfolding word

    word-Keeps : (w : Word) (locals : Locals) → Keeps (word w locals)
    word-Keeps no_parts locals = K-refl
    word-Keeps (part_of p ps) locals =
        bind-Keeps (word_part p locals) (λ value. word ps locals >>= λ rest. return (value ++ rest))
          (word_part-Keeps p locals)
          (λ value.
            bind-Keeps (word ps locals) (λ rest. return (value ++ rest)) (word-Keeps ps locals)
              (λ rest. K-refl))

    word_part-Keeps : (p : Part) (locals : Locals) → Keeps (word_part p locals)
    word_part-Keeps (lit t) locals = K-refl
    word_part-Keeps (sgl_quoted t) locals = K-refl
    word_part-Keeps (dbl_quoted w) locals = word-Keeps w locals
    word_part-Keeps (param name) locals = K-refl
    word_part-Keeps no_param locals = K-refl
    word_part-Keeps (cmd_subst stmts) locals =
        λ s. leaves s (run_file stmts s).shell (run_file-R stmts s)
    word_part-Keeps other_part locals = K-refl

    words-Keeps : (ws : Words) (locals : Locals) → Keeps (words ws locals)
    words-Keeps no_words locals = K-refl
    words-Keeps (word_of w ws) locals =
        bind-Keeps (word w locals) (λ arg. words ws locals >>= λ args. return (arg ∷ args))
          (word-Keeps w locals)
          (λ arg.
            bind-Keeps (words ws locals) (λ args. return (arg ∷ args)) (words-Keeps ws locals)
              (λ args. K-refl))

    assigns-Keeps : (given : Assigns) (locals : Locals) → Keeps (assigns given locals)
    assigns-Keeps no_assigns locals = K-refl
    assigns-Keeps (assign name w rest) locals =
        bind-Keeps (word w locals) (λ value. assigns rest (insert name value locals))
          (word-Keeps w locals) (λ value. assigns-Keeps rest (insert name value locals))
    assigns-Keeps (declare name rest) locals = assigns-Keeps rest (insert name [] locals)

    redirs-Keeps : (rs : Redirs) (locals : Locals) (d : Redirected) → Keeps (redirs rs locals d)
    redirs-Keeps no_redirs locals d = K-refl
    redirs-Keeps (redir op w rs) locals d =
        bind-Keeps (word w locals) (λ target. redirect op target d >>= λ d'. redirs rs locals d')
          (word-Keeps w locals)
          (λ target.
            bind-Keeps (redirect op target d) (λ d'. redirs rs locals d')
              (redirect-Keeps op target d) (λ d'. redirs-Keeps rs locals d'))

    run_stmt-R : (t : Stmt) (s : Shell) → R s (run_stmt t s).shell
    run_stmt-R with_operator s = K-R s s (K-refl s)
    run_stmt-R other_cmd s = K-R s s (K-refl s)
    run_stmt-R (call given ws rs) s =
        with_value-R (assigns given [])
          (λ locals s₁.
            with_value (words ws locals s₁)
              λ args s₂. run_call locals args (redirs rs locals not_redirected) s₂)
          (assigns-Keeps given [])
          (λ locals.
            with_value-R (words ws locals)
              (λ args s₂. run_call locals args (redirs rs locals not_redirected) s₂)
              (words-Keeps ws locals)
              (λ args.
                run_call-R locals args (redirs rs locals not_redirected)
                  (redirs-Keeps rs locals not_redirected)))
          s

    run_file-R : (ts : Stmts) (s : Shell) → R s (run_file ts s).shell
    run_file-R no_stmts s = K-R s s (K-refl s)
    run_file-R (stmt_of t ts) s =
        then_run-R s (run_stmt t s) (λ s'. run_file ts s') (run_stmt-R t s) (run_file-R ts)

  pub word_induction : (w : Word) (locals : Locals) (s : Shell) → K s (word w locals s).1
  word_induction = word-Keeps

  pub script_induction : (ts : Stmts) (s : Shell) → R s (run_file ts s).shell
  script_induction = run_file-R
