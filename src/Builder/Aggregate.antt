-- ===== src/Builder/Aggregate.antt =====
-- src/builder.rs: values inside of values.
use rustc_codegen_c.Prelude.{
  ℕ, zero, suc, Bool, true, false, [], ◌∷◌, Option, none, some, if◌then◌else◌, ◌==◌, get_elem?,
}
use rustc_codegen_c.Prelude.Text.{Text, str, fmt}
use rustc_codegen_c.Prelude.Decimal.{show}
use rustc_codegen_c.Prelude.Outcome.{Outcome, ok, expect}
use rustc_codegen_c.Prelude.Outcome as Outcome
use rustc_codegen_c.CAst.Expr.{CExpr, CExprs, nil, cons}
use rustc_codegen_c.CAst.Build.{var, lit, raw, call, field, index, addr_of, sizeof_expr}
use rustc_codegen_c.CAst.Build as Expr
use rustc_codegen_c.CAst.Stmt.{CStmt}
use rustc_codegen_c.Types.Kind.{TypeRef, CTypeKind, bool, struct, vector}
use rustc_codegen_c.Values.Store.{ValueRef, CValueKind, undef, poison, inline_expr}
use rustc_codegen_c.Values.Store as Values
use rustc_codegen_c.Builder.State.{
  Build, ◌>>=◌, ◌>>◌, give, ask, get_type, get_kind, render_value, render_type, intern_type,
  new_temp,
}
use rustc_codegen_c.Builder.Emit.{emit, new_temp_with_stmt, coerce_ptr_int}
use rustc_codegen_c.Builder.Queries.{element_type}
use rustc_codegen_c.Builder.Memory.{declare, emit_call}
use rustc_codegen_c.Consts.Values.{intern_value}

unfoldable pub va_arg : ValueRef → TypeRef → Build ValueRef
va_arg list ty = do
  l ← render_value list
  t ← render_type ty
  new_temp_with_stmt ty (call (var (str "va_arg")) (var l ∷ raw t ∷ []))

unfoldable pub extract_element : ValueRef → ValueRef → Build ValueRef
extract_element vec idx = do
  vec_ty ← get_type vec
  ty ← element_type vec_ty
  v ← render_value vec
  i ← render_value idx
  new_temp_with_stmt ty (index (var v) (var i))

-- `n` times the same expression.
abbrev pub repeated : ℕ → CExpr → CExprs
repeated zero e = nil
repeated (suc n) e = cons e (repeated n e)

unfoldable pub vector_splat : ℕ → ValueRef → Build ValueRef
vector_splat num_elts elt = do
  elem_ty ← get_type elt
  vec_ty ← intern_type (vector elem_ty num_elts)
  vec_ty_str ← render_type vec_ty
  e ← render_value elt
  new_temp_with_stmt vec_ty (CExpr.compound_literal vec_ty_str (repeated num_elts (var e)))

-- `fields[idx as usize]` of a struct; nothing of another type.
abbrev pub field_type : CTypeKind → ℕ → Outcome (Option TypeRef)
field_type (struct fields packed name) idx =
    Outcome.◌>>=◌ (expect (get_elem? fields idx)) λ ft. ok (some ft)
field_type _ idx = ok none

abbrev pub field_name : ℕ → Text
field_name idx = fmt (str "f" ∷ show idx ∷ [])

abbrev pub type_or : TypeRef → Option TypeRef → TypeRef
type_or ty none = ty
type_or ty (some ft) = ft

unfoldable pub extract_value : ValueRef → ℕ → Build ValueRef
extract_value agg_val idx = do
  agg_ty ← get_type agg_val
  kind ← get_kind agg_ty
  ft ← ask λ _. field_type kind idx
  v ← render_value agg_val
  new_temp_with_stmt (type_or agg_ty ft) (field (var v) (field_name idx))

abbrev pub coerce_field : ValueRef → Option TypeRef → Build ValueRef
coerce_field elt none = give elt
coerce_field elt (some ft) = coerce_ptr_int elt ft

-- `matches!(kind, CValueKind::Undef | CValueKind::Poison)`
abbrev pub is_undef : CValueKind → Bool
is_undef undef = true
is_undef poison = true
is_undef _ = false

abbrev pub value_kind : ValueRef → Build CValueKind
value_kind v = ask λ b. Outcome.◌>>=◌ (Values.get b.values v) λ info. ok info.kind

-- The aggregate that is changed: zeros for an undefined one.
abbrev pub copy_aggregate : ValueRef → Text → Bool → Build Unit
copy_aggregate agg_val result_name true =
    emit_call (str "memset") (addr_of (var result_name)) (lit (str "0"))
      (sizeof_expr (var result_name))
copy_aggregate agg_val result_name false = do
  agg ← render_value agg_val
  emit (CStmt.assign (var result_name) (var agg))

unfoldable pub insert_value : ValueRef → ValueRef → ℕ → Build ValueRef
insert_value agg_val elt idx = do
  agg_ty ← get_type agg_val
  kind ← get_kind agg_ty
  ft ← ask λ _. field_type kind idx
  elt' ← coerce_field elt ft
  result ← new_temp agg_ty
  result_name ← render_value result
  e ← render_value elt'
  t ← render_type agg_ty
  declare t result_name
  value ← value_kind agg_val
  copy_aggregate agg_val result_name (is_undef value)
  emit (CStmt.assign (field (var result_name) (field_name idx)) (var e))
  give result

-- A boolean that is kept as an `int8_t` is read as a `_Bool`.
abbrev pub to_bool : ValueRef → Build ValueRef
to_bool val = do
  bool_ty ← intern_type bool
  actual_ty ← get_type val
  if actual_ty == bool_ty then give val else cast_to_bool bool_ty
  where
    cast_to_bool : TypeRef → Build ValueRef
    cast_to_bool bool_ty = do
      v ← render_value val
      new_temp_with_stmt bool_ty (Expr.cast (str "_Bool") (Expr.paren (var v)))

-- The same expression under another type.
abbrev pub retype : ValueRef → TypeRef → Build ValueRef
retype val expected_ty = do
  actual_ty ← get_type val
  if actual_ty == expected_ty then give val else rewrap
  where
    rewrap : Build ValueRef
    rewrap = do expr ← render_value val; intern_value (inline_expr expr) expected_ty

-- A scalar by whether it is a boolean, and by `scalar_to_c_type`, the C type of its layout.
unfoldable pub to_immediate_scalar : ValueRef → Bool → Build TypeRef → Build ValueRef
to_immediate_scalar val is_bool scalar_to_c_type =
    if is_bool then to_bool val else do expected_ty ← scalar_to_c_type; retype val expected_ty
