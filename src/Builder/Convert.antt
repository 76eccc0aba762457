-- ===== src/Builder/Convert.antt =====
-- src/builder.rs: conversions. The width of pointers in bits, which rustc's data layout gives, is a
-- parameter of `bitcast`.
use rustc_codegen_c.Prelude.{
  ℕ, ◌+◌, ◌-◌, ◌%◌, ◌^◌, Bool, true, false, ◌&&◌, [], ◌∷◌, Option, none, some, if◌then◌else◌, ◌==◌,
  leb, ltb,
}
use rustc_codegen_c.Prelude.Text.{Text, str, fmt}
use rustc_codegen_c.Prelude.Decimal.{show}
use rustc_codegen_c.CAst.Op.{CBinOp}
use rustc_codegen_c.CAst.Expr.{CExpr}
use rustc_codegen_c.CAst.Build.{var, lit, addr_of, sizeof_expr, ternary}
use rustc_codegen_c.CAst.Build as Expr
use rustc_codegen_c.CAst.Stmt.{CStmt}
use rustc_codegen_c.Types.Kind.{TypeRef, CTypeKind, int, ptr, ptr_width}
use rustc_codegen_c.Values.Store.{ValueRef}
use rustc_codegen_c.Builder.State.{
  Build, ◌>>=◌, ◌>>◌, give, get_type, get_kind, render_value, render_type, intern_type, new_temp,
}
use rustc_codegen_c.Builder.Emit.{emit, new_temp_with_stmt, cast, unsigned_type}
use rustc_codegen_c.Builder.Memory.{declare, emit_call}

-- A conversion of a value to a type.
abbrev pub Conversion : Type 0
Conversion = ValueRef → TypeRef → Build ValueRef

unfoldable pub trunc : Conversion
trunc val dest_ty = cast val dest_ty

unfoldable pub sext : Conversion
sext val dest_ty = cast val dest_ty

unfoldable pub fptosi : Conversion
fptosi val dest_ty = cast val dest_ty

unfoldable pub sitofp : Conversion
sitofp val dest_ty = cast val dest_ty

unfoldable pub fptrunc : Conversion
fptrunc val dest_ty = cast val dest_ty

unfoldable pub fpext : Conversion
fpext val dest_ty = cast val dest_ty

unfoldable pub ptrtoint : Conversion
ptrtoint val dest_ty = cast val dest_ty

unfoldable pub inttoptr : Conversion
inttoptr val dest_ty = cast val dest_ty

unfoldable pub pointercast : Conversion
pointercast val dest_ty = cast val dest_ty

-- `(dt)(mid_ty)v`
abbrev pub cast_through : ValueRef → TypeRef → TypeRef → Build ValueRef
cast_through val mid_ty dest_ty = do
  v ← render_value val
  mid ← render_type mid_ty
  dt ← render_type dest_ty
  new_temp_with_stmt dest_ty (Expr.cast dt (Expr.cast mid (var v)))

abbrev pub cast_by : ValueRef → TypeRef → Option TypeRef → Build ValueRef
cast_by val dest_ty (some mid_ty) = cast_through val mid_ty dest_ty
cast_by val dest_ty none = cast val dest_ty

unfoldable pub fptoui : Conversion
fptoui val dest_ty = do unsigned_dest ← unsigned_type dest_ty; cast_by val dest_ty unsigned_dest

unfoldable pub uitofp : Conversion
uitofp val dest_ty = do
  src_ty ← get_type val
  unsigned_src ← unsigned_type src_ty
  cast_by val dest_ty unsigned_src

unfoldable pub zext : Conversion
zext val dest_ty = do
  src_ty ← get_type val
  unsigned_src ← unsigned_type src_ty
  cast_by val dest_ty unsigned_src

-- The signed type that an unsigned source of `intcast` is read in.
abbrev pub signed_kind : CTypeKind → Option CTypeKind
signed_kind (int bits false) = some (int bits true)
signed_kind (ptr_width false) = some (ptr_width true)
signed_kind _ = none

abbrev pub sext_kind : ValueRef → TypeRef → Option CTypeKind → Build ValueRef
sext_kind val dest_ty none = cast val dest_ty
sext_kind val dest_ty (some kind) = do
  signed_src ← intern_type kind
  cast_through val signed_src dest_ty

abbrev pub intcast_signed : Conversion
intcast_signed val dest_ty = do
  src_ty ← get_type val
  src ← get_kind src_ty
  sext_kind val dest_ty (signed_kind src)

unfoldable pub intcast : ValueRef → TypeRef → Bool → Build ValueRef
intcast val dest_ty is_signed = if is_signed then intcast_signed val dest_ty else zext val dest_ty

-- The bounds of a saturating conversion, as C texts.
abbrev pub max_unsigned : CTypeKind → Option Text
max_unsigned (int bits signed) =
    if ltb bits 128
    then some (
        if bits == 64
        then str "18446744073709551615.0"
        else fmt (show (2 ^ bits - 1) ∷ str ".0" ∷ []))
    else none
max_unsigned (ptr_width signed) = some (str "(double)UINTPTR_MAX")
max_unsigned _ = none

-- `isnan(v) ? (dt)0 : v < low ? least : v > high ? (dt)high : (dt)v`
abbrev pub saturated : Text → Text → Text → CExpr → Text → CExpr
saturated v dt low least high =
    ternary (Expr.binop (var v) CBinOp.ne (var v)) (Expr.cast dt (lit (str "0"))) (
      ternary (Expr.binop (var v) CBinOp.lt (lit low)) least (
        ternary (Expr.binop (var v) CBinOp.gt (lit high)) (Expr.cast dt (lit high))
          (Expr.cast dt (var v))))

abbrev pub fptoui_sat_to : ValueRef → TypeRef → Text → Text → Option Text → Build ValueRef
fptoui_sat_to val dest_ty v dt none = cast val dest_ty
fptoui_sat_to val dest_ty v dt (some max_val) =
    new_temp_with_stmt dest_ty (saturated v dt (str "0.0") (Expr.cast dt (lit (str "0"))) max_val)

unfoldable pub fptoui_sat : Conversion
fptoui_sat val dest_ty = do
  v ← render_value val
  dt ← render_type dest_ty
  kind ← get_kind dest_ty
  fptoui_sat_to val dest_ty v dt (max_unsigned kind)

-- The shift `bits - 1` of `1i128 << (bits - 1)`, which wraps as a `u32` and counts modulo 128.
abbrev pub sign_shift : ℕ → ℕ
sign_shift bits = (bits + 2 ^ 32 - 1) % 2 ^ 32 % 128

abbrev pub signed_bounds : CTypeKind → Option (Text × Text)
signed_bounds (int bits true) =
    if leb bits 64
    then some (
      fmt (str "-" ∷ show (2 ^ sign_shift bits) ∷ str ".0" ∷ []),
      fmt (show (2 ^ sign_shift bits - 1) ∷ str ".0" ∷ []),
    )
    else none
signed_bounds (ptr_width true) = some (str "(double)INTPTR_MIN", str "(double)INTPTR_MAX")
signed_bounds _ = none

abbrev pub fptosi_sat_to : ValueRef → TypeRef → Text → Text → Option (Text × Text) → Build ValueRef
fptosi_sat_to val dest_ty v dt none = cast val dest_ty
fptosi_sat_to val dest_ty v dt (some (min_val, max_val)) =
    new_temp_with_stmt dest_ty (saturated v dt min_val (Expr.cast dt (lit min_val)) max_val)

unfoldable pub fptosi_sat : Conversion
fptosi_sat val dest_ty = do
  v ← render_value val
  dt ← render_type dest_ty
  kind ← get_kind dest_ty
  fptosi_sat_to val dest_ty v dt (signed_bounds kind)

abbrev pub is_ptr : CTypeKind → Bool
is_ptr ptr = true
is_ptr _ = false

-- `both_int_same_width`
abbrev pub same_width : ℕ → CTypeKind → CTypeKind → Bool
same_width pointer_bits (int a signed) (int b signed') = a == b
same_width pointer_bits (ptr_width signed) (ptr_width signed') = true
same_width pointer_bits (ptr_width signed) (int bits signed') = bits == pointer_bits
same_width pointer_bits (int bits signed) (ptr_width signed') = bits == pointer_bits
same_width pointer_bits _ _ = false

-- The bits are copied from one temporary to another.
abbrev pub copy_bits : ValueRef → TypeRef → TypeRef → Build ValueRef
copy_bits val src_ty dest_ty = do
  result ← new_temp dest_ty
  result_name ← render_value result
  dt ← render_type dest_ty
  v ← render_value val
  st ← render_type src_ty
  src_temp ← new_temp src_ty
  src_name ← render_value src_temp
  declare dt result_name
  declare st src_name
  emit (CStmt.assign (var src_name) (var v))
  emit_call (str "memcpy") (addr_of (var result_name)) (addr_of (var src_name))
      (sizeof_expr (var result_name))
  give result

-- The rest of `bitcast`, where the types differ.
abbrev pub bitcast_kinds : ℕ → ValueRef → TypeRef → TypeRef → Build ValueRef
bitcast_kinds pointer_bits val src_ty dest_ty = do
  src ← get_kind src_ty
  dst ← get_kind dest_ty
  if is_ptr src && is_ptr dst
      then cast val dest_ty
      else if same_width pointer_bits src dst
      then cast val dest_ty
      else copy_bits val src_ty dest_ty

unfoldable pub bitcast : ℕ → ValueRef → TypeRef → Build ValueRef
bitcast pointer_bits val dest_ty = do
  src_ty ← get_type val
  if src_ty == dest_ty then give val else bitcast_kinds pointer_bits val src_ty dest_ty
