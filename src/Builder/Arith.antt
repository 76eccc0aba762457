-- ===== src/Builder/Arith.antt =====
-- src/builder.rs: the arithmetic of the builder.
use rustc_codegen_c.Prelude.{Bool, true, false, [], ◌∷◌, Option, none, some, if◌then◌else◌, ◌==◌}
use rustc_codegen_c.Prelude.Text.{Text, str}
use rustc_codegen_c.CAst.Op.{CBinOp, CUnaryOp}
use rustc_codegen_c.CAst.Expr.{CExpr}
use rustc_codegen_c.CAst.Build.{var, paren, call, addr_of, unary}
use rustc_codegen_c.CAst.Build as Expr
use rustc_codegen_c.Types.Kind.{TypeRef, CTypeKind, bool, int}
use rustc_codegen_c.Values.Store.{ValueRef}
use rustc_codegen_c.Builder.State.{
  Build, ◌>>=◌, give, get_type, get_kind, render_value, render_type, intern_type,
}
use rustc_codegen_c.Builder.Emit.{new_temp_with_stmt, binop, unsigned_type, unsigned_binop}

-- An operation with two operands.
abbrev pub Binary : Type 0
Binary = ValueRef → ValueRef → Build ValueRef

unfoldable pub add : Binary
add = binop CBinOp.add

unfoldable pub fadd : Binary
fadd = binop CBinOp.add

unfoldable pub fadd_fast : Binary
fadd_fast = binop CBinOp.add

unfoldable pub fadd_algebraic : Binary
fadd_algebraic = binop CBinOp.add

unfoldable pub sub : Binary
sub = binop CBinOp.sub

unfoldable pub fsub : Binary
fsub = binop CBinOp.sub

unfoldable pub fsub_fast : Binary
fsub_fast = binop CBinOp.sub

unfoldable pub fsub_algebraic : Binary
fsub_algebraic = binop CBinOp.sub

unfoldable pub mul : Binary
mul = binop CBinOp.mul

unfoldable pub fmul : Binary
fmul = binop CBinOp.mul

unfoldable pub fmul_fast : Binary
fmul_fast = binop CBinOp.mul

unfoldable pub fmul_algebraic : Binary
fmul_algebraic = binop CBinOp.mul

unfoldable pub udiv : Binary
udiv = unsigned_binop CBinOp.div

unfoldable pub exactudiv : Binary
exactudiv = unsigned_binop CBinOp.div

unfoldable pub sdiv : Binary
sdiv = binop CBinOp.div

unfoldable pub exactsdiv : Binary
exactsdiv = binop CBinOp.div

unfoldable pub fdiv : Binary
fdiv = binop CBinOp.div

unfoldable pub fdiv_fast : Binary
fdiv_fast = binop CBinOp.div

unfoldable pub fdiv_algebraic : Binary
fdiv_algebraic = binop CBinOp.div

unfoldable pub urem : Binary
urem = unsigned_binop CBinOp.rem

unfoldable pub srem : Binary
srem = binop CBinOp.rem

unfoldable pub frem : Binary
frem lhs rhs = do
  ty ← get_type lhs
  l ← render_value lhs
  r ← render_value rhs
  new_temp_with_stmt ty (call (var (str "fmod")) (var l ∷ var r ∷ []))

unfoldable pub frem_fast : Binary
frem_fast lhs rhs = frem lhs rhs

unfoldable pub frem_algebraic : Binary
frem_algebraic lhs rhs = frem lhs rhs

-- The left operand in its own type, shifted.
abbrev shifted : Text → Text → CBinOp → Text → CExpr
shifted t l op r = Expr.binop (Expr.cast t (paren (var l))) op (paren (var r))

unfoldable pub shl : Binary
shl lhs rhs = do
  ty ← get_type lhs
  l ← render_value lhs
  r ← render_value rhs
  t ← render_type ty
  new_temp_with_stmt ty (shifted t l CBinOp.shl r)

abbrev pub lshr_at : TypeRef → Text → Text → Option TypeRef → Build ValueRef
lshr_at ty l r (some unsigned_ty) = do
  ut ← render_type unsigned_ty
  t ← render_type ty
  new_temp_with_stmt ty (Expr.cast t (paren (shifted ut l CBinOp.shr r)))
lshr_at ty l r none = do t ← render_type ty; new_temp_with_stmt ty (shifted t l CBinOp.shr r)

unfoldable pub lshr : Binary
lshr lhs rhs = do
  ty ← get_type lhs
  l ← render_value lhs
  r ← render_value rhs
  unsigned_ty ← unsigned_type ty
  lshr_at ty l r unsigned_ty

unfoldable pub ashr : Binary
ashr lhs rhs = do
  ty ← get_type lhs
  l ← render_value lhs
  r ← render_value rhs
  t ← render_type ty
  new_temp_with_stmt ty (shifted t l CBinOp.shr r)

unfoldable pub and : Binary
and = binop CBinOp.bit_and

unfoldable pub or : Binary
or = binop CBinOp.bit_or

unfoldable pub xor : Binary
xor = binop CBinOp.bit_xor

unfoldable pub neg : ValueRef → Build ValueRef
neg v = do
  ty ← get_type v
  val ← render_value v
  new_temp_with_stmt ty (unary CUnaryOp.neg (var val))

unfoldable pub fneg : ValueRef → Build ValueRef
fneg v = neg v

-- `matches!(kind, CTypeKind::Bool | CTypeKind::Int { bits: 1, .. })`
abbrev pub is_bool_kind : CTypeKind → Bool
is_bool_kind bool = true
is_bool_kind (int bits signed) = bits == 1
is_bool_kind _ = false

unfoldable pub not : ValueRef → Build ValueRef
not v = do
  ty ← get_type v
  val ← render_value v
  kind ← get_kind ty
  if is_bool_kind kind
      then new_temp_with_stmt ty (unary CUnaryOp.log_not (var val))
      else new_temp_with_stmt ty (unary CUnaryOp.bit_not (var val))

abbrev pub from_kind : ValueRef → CTypeKind → Build ValueRef
from_kind val bool = do
  i8_ty ← intern_type (int 8 true)
  v ← render_value val
  new_temp_with_stmt i8_ty (Expr.cast (str "int8_t") (paren (var v)))
from_kind val _ = give val

unfoldable pub from_immediate : ValueRef → Build ValueRef
from_immediate val = do ty ← get_type val; kind ← get_kind ty; from_kind val kind
