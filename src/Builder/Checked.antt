-- ===== src/Builder/Checked.antt =====
-- src/builder.rs: arithmetic with a flag for overflow.
use rustc_codegen_c.Prelude.{Bool, [], ◌∷◌, if◌then◌else◌}
use rustc_codegen_c.Prelude.Text.{Text, str, fmt}
use rustc_codegen_c.Prelude.Decimal.{show}
use rustc_codegen_c.CAst.Build.{var, call, addr_of}
use rustc_codegen_c.CAst.Stmt.{CStmt}
use rustc_codegen_c.Types.Kind.{CTypeKind, c_bits, bool, int, ptr_width}
use rustc_codegen_c.Values.Store.{ValueRef}
use rustc_codegen_c.Builder.State.{
  Build, ◌>>=◌, ◌>>◌, give, get_type, get_kind, render_value, render_type, intern_type, new_temp,
  add_local_decl,
}
use rustc_codegen_c.Builder.Emit.{emit}

pub data OverflowOp : Type 0 where
  add sub mul : OverflowOp

abbrev pub sign_letter : Bool → Text
sign_letter signed = if signed then str "i" else str "u"

-- What the helper's name ends in.
abbrev pub overflow_suffix : CTypeKind → Text
overflow_suffix (int bits signed) = fmt (sign_letter signed ∷ show (c_bits bits) ∷ [])
overflow_suffix (ptr_width signed) = fmt (sign_letter signed ∷ str "size" ∷ [])
overflow_suffix _ = str "u64"

abbrev pub overflow_name : OverflowOp → Text
overflow_name OverflowOp.add = str "add"
overflow_name OverflowOp.sub = str "sub"
overflow_name OverflowOp.mul = str "mul"

unfoldable pub checked_binop : OverflowOp → ValueRef → ValueRef → Build (ValueRef × ValueRef)
checked_binop oop lhs rhs = do
  val_ty ← get_type lhs
  result ← new_temp val_ty
  result_name ← render_value result
  type_str ← render_type val_ty
  add_local_decl (fmt (type_str ∷ str " " ∷ result_name ∷ str ";" ∷ []))
  l ← render_value lhs
  r ← render_value rhs
  kind ← get_kind val_ty
  bool_ty ← intern_type bool
  overflow ← new_temp bool_ty
  flag_name ← render_value overflow
  add_local_decl (fmt (str "_Bool " ∷ flag_name ∷ str ";" ∷ []))
  emit (
      CStmt.assign (var flag_name) (
        call
          (var (
            fmt
              (str "__rustc_" ∷ overflow_name oop ∷ str "_overflow_" ∷ overflow_suffix kind ∷ [])))
          (var l ∷ var r ∷ addr_of (var result_name) ∷ [])))
  give (result, overflow)
