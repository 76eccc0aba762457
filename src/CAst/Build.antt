-- ===== src/CAst/Build.antt =====
-- src/c_ast.rs: the convenience constructors of expressions.
use rustc_codegen_c.Prelude.{List}
use rustc_codegen_c.Prelude.Text.{Text}
use rustc_codegen_c.CAst.Op.{CBinOp, CUnaryOp}
use rustc_codegen_c.CAst.Expr.{CExpr, exprs}

abbrev pub var : Text → CExpr
var s = CExpr.var s

abbrev pub lit : Text → CExpr
lit s = CExpr.lit s

abbrev pub raw : Text → CExpr
raw s = CExpr.raw s

abbrev pub binop : CExpr → CBinOp → CExpr → CExpr
binop lhs op rhs = CExpr.bin_op lhs op rhs

abbrev pub unary : CUnaryOp → CExpr → CExpr
unary op expr = CExpr.unary_op op expr

abbrev pub cast : Text → CExpr → CExpr
cast ty expr = CExpr.cast ty expr

abbrev pub deref : Text → CExpr → CExpr
deref cast_ty ptr = CExpr.deref cast_ty ptr

abbrev pub addr_of : CExpr → CExpr
addr_of expr = CExpr.addr_of expr

abbrev pub call : CExpr → List CExpr → CExpr
call func args = CExpr.call func (exprs args)

abbrev pub field : CExpr → Text → CExpr
field expr name = CExpr.field expr name

abbrev pub index : CExpr → CExpr → CExpr
index expr idx = CExpr.index expr idx

abbrev pub ternary : CExpr → CExpr → CExpr → CExpr
ternary cond then_expr else_expr = CExpr.ternary cond then_expr else_expr

abbrev pub sizeof_expr : CExpr → CExpr
sizeof_expr expr = CExpr.sizeof expr

abbrev pub sizeof_ty : Text → CExpr
sizeof_ty ty = CExpr.sizeof_type ty

abbrev pub paren : CExpr → CExpr
paren expr = CExpr.paren expr
