-- ===== src/Builder/Emit.antt =====
-- src/builder.rs: statements, temporaries and the shapes that the operations share.
use rustc_codegen_c.Prelude.{Bool, true, false, ◌==◌, [], ◌∷◌, Option, none, some, if◌then◌else◌}
use rustc_codegen_c.Prelude.Text.{Text, str, fmt}
use rustc_codegen_c.Prelude.Decimal.{show}
use rustc_codegen_c.CAst.Op.{CBinOp}
use rustc_codegen_c.CAst.Expr.{CExpr}
use rustc_codegen_c.CAst.Build.{var, paren}
use rustc_codegen_c.CAst.Build as Expr
use rustc_codegen_c.CAst.Stmt.{CStmt}
use rustc_codegen_c.Types.Kind.{TypeRef, CTypeKind, int, ptr, ptr_width}
use rustc_codegen_c.Values.Store.{ValueRef}
use rustc_codegen_c.Module.Function.{FunctionDef, BasicBlockData, BasicBlockId, block_at}
use rustc_codegen_c.Module.Function as Function
use rustc_codegen_c.Builder.State.{
  Builder, Build, ◌>>=◌, ◌>>◌, give, get_type, get_kind, render_value, render_type,
  render_type_decl, intern_type, new_temp, current_function, with_function, add_local_decl,
}

unfoldable pub emit : CStmt → Build Unit
emit stmt b = with_function (λ f. Function.emit f b.current_bb stmt) b

unfoldable pub new_temp_with_stmt : TypeRef → CExpr → Build ValueRef
new_temp_with_stmt ty expr = do
  val ← new_temp ty
  name ← render_value val
  decl_str ← render_type_decl ty name
  add_local_decl (fmt (decl_str ∷ str ";" ∷ []))
  emit (CStmt.assign (var name) expr)
  give val

unfoldable pub binop : CBinOp → ValueRef → ValueRef → Build ValueRef
binop op lhs rhs = do
  ty ← get_type lhs
  l ← render_value lhs
  r ← render_value rhs
  new_temp_with_stmt ty (Expr.binop (var l) op (var r))

unfoldable pub cast : ValueRef → TypeRef → Build ValueRef
cast val dest_ty = do
  v ← render_value val
  t ← render_type dest_ty
  new_temp_with_stmt dest_ty (Expr.cast t (var v))

abbrev pub needs_cast : CTypeKind → CTypeKind → Bool
needs_cast ptr (ptr_width signed) = true
needs_cast ptr (int bits signed) = true
needs_cast (ptr_width signed) ptr = true
needs_cast (int bits signed) ptr = true
needs_cast _ _ = false

-- The rest of `coerce_ptr_int`, where the types differ.
abbrev pub coerce_kinds : ValueRef → TypeRef → TypeRef → Build ValueRef
coerce_kinds val src_ty dest_ty = do
  src ← get_kind src_ty
  dst ← get_kind dest_ty
  if needs_cast src dst then cast val dest_ty else give val

unfoldable pub coerce_ptr_int : ValueRef → TypeRef → Build ValueRef
coerce_ptr_int val dest_ty = do
  src_ty ← get_type val
  if src_ty == dest_ty then give val else coerce_kinds val src_ty dest_ty

abbrev pub unsigned_kind : CTypeKind → Option CTypeKind
unsigned_kind (int bits true) = some (int bits false)
unsigned_kind (ptr_width true) = some (ptr_width false)
unsigned_kind _ = none

abbrev pub intern_option : Option CTypeKind → Build (Option TypeRef)
intern_option none = give none
intern_option (some kind) = do ty ← intern_type kind; give (some ty)

unfoldable pub unsigned_type : TypeRef → Build (Option TypeRef)
unsigned_type ty = do kind ← get_kind ty; intern_option (unsigned_kind kind)

abbrev pub unsigned_binop_at :
    CBinOp → ValueRef → ValueRef → TypeRef → Option TypeRef → Build ValueRef
unsigned_binop_at op lhs rhs ty none = binop op lhs rhs
unsigned_binop_at op lhs rhs ty (some unsigned_ty) = do
  l ← render_value lhs
  r ← render_value rhs
  ut ← render_type unsigned_ty
  t ← render_type ty
  new_temp_with_stmt ty
      (Expr.cast t (paren (Expr.binop (Expr.cast ut (var l)) op (Expr.cast ut (var r)))))

unfoldable pub unsigned_binop : CBinOp → ValueRef → ValueRef → Build ValueRef
unsigned_binop op lhs rhs = do
  ty ← get_type lhs
  unsigned_ty ← unsigned_type ty
  unsigned_binop_at op lhs rhs ty unsigned_ty

-- The label of a block of a function that may be missing, and of a block that may be.
abbrev pub label_or : BasicBlockId → Option BasicBlockData → Text
label_or bb none = fmt (str "bb" ∷ show bb ∷ [])
label_or bb (some block) = block.label

abbrev pub label_in : BasicBlockId → Option FunctionDef → Text
label_in bb none = fmt (str "bb" ∷ show bb ∷ [])
label_in bb (some func) = label_or bb (block_at func bb)

unfoldable pub block_label : Builder → BasicBlockId → Text
block_label b bb = label_in bb (current_function b)
