-- ===== src/Shell/Syntax.antt =====
-- The syntax trees of mvdan.cc/sh, as far as support/hello-world-shell/shell.go looks into them.
use sshmux.Base.{Text}

-- The operators of redirections: `>` and `>|`, `>>`, `<`, and all others.
pub data RedirOp : Type 0 where
  write_out : RedirOp
  append_out : RedirOp
  read_in : RedirOp
  other_redir : RedirOp

mutual
  -- `syntax.WordPart`
  pub data Part : Type 0 where
    lit : Text → Part
    sgl_quoted : Text → Part
    dbl_quoted : Word → Part
    -- `ParamExp` with a name; what follows the name in braces is not looked at.
    param : Text → Part
    -- `ParamExp` whose `Param` is nil
    no_param : Part
    cmd_subst : Stmts → Part
    other_part : Part

  -- `syntax.Word`
  pub data Word : Type 0 where
    no_parts : Word
    part_of : Part → Word → Word

  -- `[]*syntax.Word`
  pub data Words : Type 0 where
    no_words : Words
    word_of : Word → Words → Words

  -- `[]*syntax.Assign`: a name with a value, or with none.
  pub data Assigns : Type 0 where
    no_assigns : Assigns
    assign : Text → Word → Assigns → Assigns
    declare : Text → Assigns → Assigns

  -- `[]*syntax.Redirect`
  pub data Redirs : Type 0 where
    no_redirs : Redirs
    redir : RedirOp → Word → Redirs → Redirs

  -- `syntax.Stmt`
  pub data Stmt : Type 0 where
    -- `Negated`, `Background` or `Coprocess`
    with_operator : Stmt
    -- a `Cmd` that is no `CallExpr`
    other_cmd : Stmt
    call : Assigns → Words → Redirs → Stmt

  -- `[]*syntax.Stmt`
  pub data Stmts : Type 0 where
    no_stmts : Stmts
    stmt_of : Stmt → Stmts → Stmts
