-- ===== src/CAst/Expr.antt =====
-- src/c_ast.rs: C expressions and `Display for CExpr`.
use rustc_codegen_c.Prelude.{List, [], ◌∷◌, ◌++◌}
use rustc_codegen_c.Prelude.Text.{Text, str, fmt}
use rustc_codegen_c.CAst.Op.{CBinOp, CUnaryOp, display_binop, display_unary}

-- `CExprs` is `Vec<CExpr>`.
mutual
  pub data CExpr : Type 0 where
    var : Text → CExpr
    lit : Text → CExpr
    bin_op : CExpr → CBinOp → CExpr → CExpr
    unary_op : CUnaryOp → CExpr → CExpr
    cast : Text → CExpr → CExpr
    deref : Text → CExpr → CExpr
    addr_of : CExpr → CExpr
    call : CExpr → CExprs → CExpr
    field : CExpr → Text → CExpr
    index : CExpr → CExpr → CExpr
    ternary : CExpr → CExpr → CExpr → CExpr
    sizeof : CExpr → CExpr
    sizeof_type : Text → CExpr
    compound_literal : Text → CExprs → CExpr
    paren : CExpr → CExpr
    raw : Text → CExpr

  pub data CExprs : Type 0 where
    nil : CExprs
    cons : CExpr → CExprs → CExprs

abbrev pub exprs : List CExpr → CExprs
exprs [] = nil
exprs (e ∷ es) = cons e (exprs es)

-- `display_items` and `display_more` are the loops over `args` and `elts`: the first item is
-- written as it is, each later one behind a comma.
unfoldable mutual
  unfolding display_binop display_unary

  pub display : CExpr → Text
  display (var name) = name
  display (lit s) = s
  display (bin_op lhs op rhs) =
      fmt (display lhs ∷ str " " ∷ display_binop op ∷ str " " ∷ display rhs ∷ [])
  display (unary_op op expr) = fmt (display_unary op ∷ str "(" ∷ display expr ∷ str ")" ∷ [])
  display (cast ty expr) = fmt (str "(" ∷ ty ∷ str ")" ∷ display expr ∷ [])
  display (deref cast_ty ptr) = fmt (str "*(" ∷ cast_ty ∷ str ")" ∷ display ptr ∷ [])
  display (addr_of expr) = fmt (str "&" ∷ display expr ∷ [])
  display (call func args) = fmt (display func ∷ str "(" ∷ display_items args ∷ str ")" ∷ [])
  display (field expr name) = fmt (display expr ∷ str "." ∷ name ∷ [])
  display (index expr idx) = fmt (display expr ∷ str "[" ∷ display idx ∷ str "]" ∷ [])
  display (ternary cond then_expr else_expr) = fmt (
      str "("
      ∷ display cond
      ∷ str ") ? ("
      ∷ display then_expr
      ∷ str ") : ("
      ∷ display else_expr
      ∷ str ")"
      ∷ [])
  display (sizeof expr) = fmt (str "sizeof(" ∷ display expr ∷ str ")" ∷ [])
  display (sizeof_type ty) = fmt (str "sizeof(" ∷ ty ∷ str ")" ∷ [])
  display (compound_literal ty elts) =
      fmt (str "(" ∷ ty ∷ str "){ " ∷ display_items elts ∷ str " }" ∷ [])
  display (paren expr) = fmt (str "(" ∷ display expr ∷ str ")" ∷ [])
  display (raw s) = s

  pub display_items : CExprs → Text
  display_items nil = []
  display_items (cons e es) = display e ++ display_more es

  pub display_more : CExprs → Text
  display_more nil = []
  display_more (cons e es) = fmt (str ", " ∷ display e ∷ display_more es ∷ [])
