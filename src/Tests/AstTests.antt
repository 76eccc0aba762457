-- ===== src/Tests/AstTests.antt =====
-- src/c_ast.rs at concrete statements.
use rustc_codegen_c.Prelude.{◌≡◌, refl, [], ◌∷◌, ◌++◌}
use rustc_codegen_c.Prelude.Text.{str}
use rustc_codegen_c.Prelude.Brackets.{IsBalanced}
use rustc_codegen_c.CAst.Op.{CBinOp}
use rustc_codegen_c.CAst.Expr.{CExpr, display}
use rustc_codegen_c.CAst.Build.{var, lit, call, paren}
use rustc_codegen_c.CAst.Build as Expr
use rustc_codegen_c.CAst.Stmt.{CStmt, CStmts}
use rustc_codegen_c.CAst.Printer.{fmt_stmt, print_stmts}
use rustc_codegen_c.CAst.Layout.{layout, fmt_stmt-layout}
use rustc_codegen_c.CAst.StmtBrackets.{print_stmts-IsBalanced}

-- `(a + 1)`, and `f((a + 1), 2)`
abbrev sum_expr : CExpr
sum_expr = paren (Expr.binop (var (str "a")) CBinOp.add (lit (str "1")))

abbrev call_expr : CExpr
call_expr = call (var (str "f")) (sum_expr ∷ lit (str "2") ∷ [])

abbrev loop_stmt : CStmt
loop_stmt =
    CStmt.do_while (CStmts.cons (CStmt.assign (var (str "a")) sum_expr) CStmts.nil) (var (str "a"))

abbrev switch_stmt : CStmt
switch_stmt = CStmt.switch call_expr ((lit (str "1ULL"), str "bb1") ∷ []) (str "bb2")

call_text : display call_expr ≡ str "f((a + 1), 2)"
unfolding display
call_text = refl

fmt_stmt-layout_example :
    fmt_stmt loop_stmt (record { buf = str "x"; indent = 1 })
    ≡ record { buf = str "x" ++ layout 1 loop_stmt; indent = 1 }
fmt_stmt-layout_example = fmt_stmt-layout loop_stmt (record { buf = str "x"; indent = 1 })

print_stmts-IsBalanced_example :
    IsBalanced (print_stmts (CStmt.goto (str "bb1") ∷ CStmt.raw (str "{ x; }") ∷ []) 1)
print_stmts-IsBalanced_example =
    print_stmts-IsBalanced (CStmt.goto (str "bb1") ∷ CStmt.raw (str "{ x; }") ∷ []) 1
      (λ st. refl, (λ st. refl, tt))
