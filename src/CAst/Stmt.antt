-- ===== src/CAst/Stmt.antt =====
-- src/c_ast.rs: C statements and their convenience constructors.
use rustc_codegen_c.Prelude.{List, [], ◌∷◌, Option, none, some}
use rustc_codegen_c.Prelude.Text.{Text}
use rustc_codegen_c.CAst.Expr.{CExpr}

-- `CStmts` is `Vec<CStmt>`.
mutual
  pub data CStmt : Type 0 where
    assign : CExpr → CExpr → CStmt
    expr : CExpr → CStmt
    return : Option CExpr → CStmt
    goto : Text → CStmt
    cond_goto : CExpr → Text → Text → CStmt
    switch : CExpr → List (CExpr × Text) → Text → CStmt
    unreachable : CStmt
    do_while : CStmts → CExpr → CStmt
    fallthrough : CStmt
    raw : Text → CStmt

  pub data CStmts : Type 0 where
    nil : CStmts
    cons : CStmt → CStmts → CStmts

abbrev pub stmts : List CStmt → CStmts
stmts [] = nil
stmts (s ∷ ss) = cons s (stmts ss)

abbrev pub ret : Option CExpr → CStmt
ret v = return v

abbrev pub ret_val : CExpr → CStmt
ret_val v = return (some v)

abbrev pub ret_void : CStmt
ret_void = return none
