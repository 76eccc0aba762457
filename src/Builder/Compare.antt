-- ===== src/Builder/Compare.antt =====
-- src/builder.rs: comparisons and the choice between two values.
use rustc_codegen_c.Prelude.{
  ℕ, Bool, true, false, not, ◌||◌, Option, none, some, if◌then◌else◌, leb, ltb,
}
use rustc_codegen_c.Prelude.Text.{Text}
use rustc_codegen_c.CAst.Op.{CBinOp, CUnaryOp}
use rustc_codegen_c.CAst.Expr.{CExpr}
use rustc_codegen_c.CAst.Build.{var, unary, ternary}
use rustc_codegen_c.CAst.Build as Expr
use rustc_codegen_c.Types.Kind.{TypeRef, CTypeKind, bool, int, ptr, ptr_width}
use rustc_codegen_c.Values.Store.{ValueRef}
use rustc_codegen_c.Builder.State.{
  Build, ◌>>=◌, get_type, get_kind, render_value, render_type, intern_type,
}
use rustc_codegen_c.Builder.Emit.{new_temp_with_stmt}
use rustc_codegen_c.Consts.Values.{const_bool}

-- rustc's comparisons of integers.
pub data IntPredicate : Type 0 where
  int_eq int_ne int_ugt int_uge int_ult int_ule : IntPredicate
  int_sgt int_sge int_slt int_sle : IntPredicate

unfoldable pub int_op : IntPredicate → CBinOp
int_op IntPredicate.int_eq = CBinOp.eq
int_op IntPredicate.int_ne = CBinOp.ne
int_op IntPredicate.int_ugt = CBinOp.gt
int_op IntPredicate.int_sgt = CBinOp.gt
int_op IntPredicate.int_uge = CBinOp.ge
int_op IntPredicate.int_sge = CBinOp.ge
int_op IntPredicate.int_ult = CBinOp.lt
int_op IntPredicate.int_slt = CBinOp.lt
int_op IntPredicate.int_ule = CBinOp.le
int_op IntPredicate.int_sle = CBinOp.le

abbrev pub is_unsigned : IntPredicate → Bool
is_unsigned IntPredicate.int_ugt = true
is_unsigned IntPredicate.int_uge = true
is_unsigned IntPredicate.int_ult = true
is_unsigned IntPredicate.int_ule = true
is_unsigned _ = false

abbrev pub is_signed : IntPredicate → Bool
is_signed IntPredicate.int_sgt = true
is_signed IntPredicate.int_sge = true
is_signed IntPredicate.int_slt = true
is_signed IntPredicate.int_sle = true
is_signed _ = false

abbrev pub is_ptr_width : CTypeKind → Bool
is_ptr_width (ptr_width signed) = true
is_ptr_width _ = false

-- `int_width` of `icmp`: the width that a comparison gives a type.
abbrev pub compared_width : CTypeKind → ℕ
compared_width (int bits signed) = bits
compared_width bool = 1
compared_width ptr = 64
compared_width _ = 0

abbrev pub wider : ℕ → ℕ → ℕ
wider a b = if leb a b then b else a

-- The type that both operands are cast to.
abbrev pub compared_kind : IntPredicate → CTypeKind → CTypeKind → Option CTypeKind
compared_kind op lhs rhs =
    if is_ptr_width lhs || is_ptr_width rhs
    then some (ptr_width (not (is_unsigned op)))
    else if is_unsigned op
    then some (int (wider (compared_width lhs) (compared_width rhs)) false)
    else if is_signed op || ltb 0 (wider (compared_width lhs) (compared_width rhs))
    then some (int (wider (compared_width lhs) (compared_width rhs)) true)
    else none

abbrev pub compare_in : TypeRef → CBinOp → Text → Text → Option CTypeKind → Build ValueRef
compare_in bool_ty c_op l r none = new_temp_with_stmt bool_ty (Expr.binop (var l) c_op (var r))
compare_in bool_ty c_op l r (some kind) = do
  cast_ty ← intern_type kind
  ct ← render_type cast_ty
  new_temp_with_stmt bool_ty (Expr.binop (Expr.cast ct (var l)) c_op (Expr.cast ct (var r)))

unfoldable pub icmp : IntPredicate → ValueRef → ValueRef → Build ValueRef
icmp op lhs rhs = do
  bool_ty ← intern_type bool
  l ← render_value lhs
  r ← render_value rhs
  lhs_ty ← get_type lhs
  rhs_ty ← get_type rhs
  lhs_kind ← get_kind lhs_ty
  rhs_kind ← get_kind rhs_ty
  compare_in bool_ty (int_op op) l r (compared_kind op lhs_kind rhs_kind)

-- rustc's comparisons of floats.
pub data RealPredicate : Type 0 where
  real_predicate_false real_oeq real_ogt real_oge real_olt real_ole real_one : RealPredicate
  real_ord real_uno real_ueq real_ugt real_uge real_ult real_ule real_une : RealPredicate
  real_predicate_true : RealPredicate

-- `x != x`, which holds of NaN only.
abbrev pub is_nan : Text → CExpr
is_nan x = Expr.binop (var x) CBinOp.ne (var x)

-- What a comparison of floats is written as, or its constant result.
pub data RealTest : Type 0 where
  constant : Bool → RealTest
  test : CExpr → RealTest

unfoldable pub real_test : RealPredicate → Text → Text → RealTest
real_test RealPredicate.real_oeq l r = test (Expr.binop (var l) CBinOp.eq (var r))
real_test RealPredicate.real_ueq l r = test (Expr.binop (var l) CBinOp.eq (var r))
real_test RealPredicate.real_one l r = test (Expr.binop (var l) CBinOp.ne (var r))
real_test RealPredicate.real_une l r = test (Expr.binop (var l) CBinOp.ne (var r))
real_test RealPredicate.real_ogt l r = test (Expr.binop (var l) CBinOp.gt (var r))
real_test RealPredicate.real_ugt l r = test (Expr.binop (var l) CBinOp.gt (var r))
real_test RealPredicate.real_oge l r = test (Expr.binop (var l) CBinOp.ge (var r))
real_test RealPredicate.real_uge l r = test (Expr.binop (var l) CBinOp.ge (var r))
real_test RealPredicate.real_olt l r = test (Expr.binop (var l) CBinOp.lt (var r))
real_test RealPredicate.real_ult l r = test (Expr.binop (var l) CBinOp.lt (var r))
real_test RealPredicate.real_ole l r = test (Expr.binop (var l) CBinOp.le (var r))
real_test RealPredicate.real_ule l r = test (Expr.binop (var l) CBinOp.le (var r))
real_test RealPredicate.real_predicate_false l r = constant false
real_test RealPredicate.real_predicate_true l r = constant true
real_test RealPredicate.real_ord l r = test (
    Expr.binop (unary CUnaryOp.log_not (is_nan l)) CBinOp.log_and
      (unary CUnaryOp.log_not (is_nan r)))
real_test RealPredicate.real_uno l r = test (Expr.binop (is_nan l) CBinOp.log_or (is_nan r))

abbrev pub run_test : TypeRef → RealTest → Build ValueRef
run_test bool_ty (constant value) = const_bool value
run_test bool_ty (test expr) = new_temp_with_stmt bool_ty expr

unfoldable pub fcmp : RealPredicate → ValueRef → ValueRef → Build ValueRef
fcmp op lhs rhs = do
  bool_ty ← intern_type bool
  l ← render_value lhs
  r ← render_value rhs
  run_test bool_ty (real_test op l r)

unfoldable pub select : ValueRef → ValueRef → ValueRef → Build ValueRef
select cond then_val else_val = do
  ty ← get_type then_val
  c ← render_value cond
  t ← render_value then_val
  e ← render_value else_val
  new_temp_with_stmt ty (ternary (var c) (var t) (var e))
