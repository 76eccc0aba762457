-- ===== src/Builder/Memory.antt =====
-- src/builder.rs: stack slots, loads and stores. Sizes and alignments are numbers of bytes.
use rustc_codegen_c.Prelude.{ℕ, Bool, true, false, [], ◌∷◌, if◌then◌else◌, ◌==◌, ltb}
use rustc_codegen_c.Prelude.Text.{Text, str, fmt}
use rustc_codegen_c.Prelude.Decimal.{show}
use rustc_codegen_c.CAst.Op.{CUnaryOp}
use rustc_codegen_c.CAst.Expr.{CExpr}
use rustc_codegen_c.CAst.Build.{var, lit, call, addr_of, deref, sizeof_expr, unary}
use rustc_codegen_c.CAst.Build as Expr
use rustc_codegen_c.CAst.Stmt.{CStmt, stmts}
use rustc_codegen_c.Types.Kind.{TypeRef, CTypeKind, int, array, function}
use rustc_codegen_c.Values.Store.{ValueRef}
use rustc_codegen_c.Builder.State.{
  Build, ◌>>=◌, ◌>>◌, give, get_type, get_kind, render_value, render_type, render_type_decl,
  intern_type, new_temp, add_local_decl,
}
use rustc_codegen_c.Builder.Emit.{emit, new_temp_with_stmt}
use rustc_codegen_c.Builder.Queries.{type_ptr}

-- The bytes of a slot, and the pointer to them.
abbrev pub storage_decl : ℕ → ℕ → Text → Text
storage_decl align size arr_name = fmt (
    str "_Alignas("
    ∷ show align
    ∷ str ") uint8_t "
    ∷ arr_name
    ∷ str "["
    ∷ show size
    ∷ str "];"
    ∷ [])

abbrev pub pointer_decl : Text → Text → Text
pointer_decl name arr_name = fmt (str "void *" ∷ name ∷ str " = (void *)" ∷ arr_name ∷ str ";" ∷ [])

unfoldable pub alloca : ℕ → ℕ → Build ValueRef
alloca size align = do
  byte_ty ← intern_type (int 8 true)
  arr_ty ← intern_type (array byte_ty size)
  ptr_ty ← type_ptr
  val ← new_temp ptr_ty
  name ← render_value val
  add_local_decl (storage_decl align size (fmt (name ∷ str "_storage" ∷ [])))
  add_local_decl (pointer_decl name (fmt (name ∷ str "_storage" ∷ [])))
  give val

unfoldable pub scalable_alloca : ℕ → ℕ → Build ValueRef
scalable_alloca elt align = alloca elt align

-- `func.add_local_decl(format!("{t} {name};"))`
abbrev pub declare : Text → Text → Build Unit
declare t name = add_local_decl (fmt (t ∷ str " " ∷ name ∷ str ";" ∷ []))

-- A call whose result is dropped.
abbrev pub emit_call : Text → CExpr → CExpr → CExpr → Build Unit
emit_call f a b c = emit (CStmt.expr (call (var f) (a ∷ b ∷ c ∷ [])))

abbrev pub load_array : TypeRef → Text → Build ValueRef
load_array ty p = do
  result ← new_temp ty
  result_name ← render_value result
  t ← render_type_decl ty result_name
  add_local_decl (fmt (t ∷ str ";" ∷ []))
  emit_call (str "memcpy") (var result_name) (var p) (sizeof_expr (var result_name))
  give result

abbrev pub load_wide : TypeRef → Text → Build ValueRef
load_wide ty p = do
  result ← new_temp ty
  result_name ← render_value result
  t ← render_type ty
  declare t result_name
  emit_call (str "memcpy") (addr_of (var result_name)) (var p) (sizeof_expr (var result_name))
  give result

abbrev pub load_plain : TypeRef → Text → Build ValueRef
load_plain ty p = do
  t ← render_type ty
  new_temp_with_stmt ty (deref (fmt (t ∷ str " *" ∷ [])) (var p))

abbrev pub load_kind : TypeRef → Text → CTypeKind → Build ValueRef
load_kind ty p (array element len) = load_array ty p
load_kind ty p (function ret args variadic) = do
  ptr_to_fnptr ← render_type_decl ty (str "*")
  new_temp_with_stmt ty (deref ptr_to_fnptr (var p))
load_kind ty p (int bits signed) = if bits == 128 then load_wide ty p else load_plain ty p
load_kind ty p _ = load_plain ty p

unfoldable pub load : TypeRef → ValueRef → Build ValueRef
load ty ptr = do p ← render_value ptr; kind ← get_kind ty; load_kind ty p kind

-- `matches!(kind, CTypeKind::Int { bits: 128, .. })`
abbrev pub is_i128 : CTypeKind → Bool
is_i128 (int bits signed) = bits == 128
is_i128 _ = false

-- The loop that copies sixteen bytes.
abbrev pub volatile_copy : Text → Text → Text
volatile_copy p result_name = fmt (
    str "{ volatile char *__src = (volatile char *)"
    ∷ p
    ∷ str "; char *__dst = (char *)&"
    ∷ result_name
    ∷ str "; for (int __i = 0; __i < 16; __i++) __dst[__i] = __src[__i]; }"
    ∷ [])

abbrev pub volatile_wide : TypeRef → Text → Text → Build ValueRef
volatile_wide ty p t = do
  result ← new_temp ty
  result_name ← render_value result
  declare t result_name
  emit (CStmt.raw (volatile_copy p result_name))
  give result

unfoldable pub volatile_load : TypeRef → ValueRef → Build ValueRef
volatile_load ty ptr = do
  p ← render_value ptr
  t ← render_type ty
  kind ← get_kind ty
  if is_i128 kind
      then volatile_wide ty p t
      else new_temp_with_stmt ty (deref (fmt (str "volatile " ∷ t ∷ str " *" ∷ [])) (var p))

-- The expression of an atomic load: a compare and swap of zero where the size is above 8 bytes.
abbrev pub atomic_load_expr : ℕ → Text → Text → CExpr
atomic_load_expr size t p =
    if ltb 8 size
    then call (var (str "__sync_val_compare_and_swap"))
        (Expr.cast (fmt (t ∷ str " *" ∷ [])) (var p) ∷ lit (str "0") ∷ lit (str "0") ∷ [])
    else call (var (str "atomic_load"))
        (Expr.cast (fmt (str "_Atomic(" ∷ t ∷ str ") *" ∷ [])) (var p) ∷ [])

unfoldable pub atomic_load : TypeRef → ValueRef → ℕ → Build ValueRef
atomic_load ty ptr size = do
  p ← render_value ptr
  t ← render_type ty
  new_temp_with_stmt ty (atomic_load_expr size t p)

abbrev pub store_plain : TypeRef → Text → Text → Build Unit
store_plain ty v p = do
  t ← render_type ty
  emit (CStmt.assign (deref (fmt (t ∷ str " *" ∷ [])) (var p)) (var v))

abbrev pub store_wide : TypeRef → Text → Text → Build Unit
store_wide ty v p = do
  t ← render_type ty
  src_tmp ← new_temp ty
  src_name ← render_value src_tmp
  declare t src_name
  emit (CStmt.assign (var src_name) (var v))
  emit_call (str "memcpy") (var p) (addr_of (var src_name)) (lit (str "16"))

abbrev pub store_kind : TypeRef → Text → Text → CTypeKind → Build Unit
store_kind ty v p (array element len) =
    emit_call (str "memcpy") (var p) (addr_of (var v)) (sizeof_expr (var v))
store_kind ty v p (int bits signed) = if bits == 128 then store_wide ty v p else store_plain ty v p
store_kind ty v p _ = store_plain ty v p

unfoldable pub store : ValueRef → ValueRef → Build ValueRef
store val ptr = do
  v ← render_value val
  p ← render_value ptr
  ty ← get_type val
  kind ← get_kind ty
  store_kind ty v p kind
  give val

unfoldable pub store_with_flags : ValueRef → ValueRef → Build ValueRef
store_with_flags val ptr = store val ptr

-- A store of more than 8 bytes: a loop around a compare and swap.
abbrev pub store_loop : Text → Text → Text → Text → CStmt
store_loop t old_name v p =
    CStmt.do_while
      (stmts (CStmt.assign (var old_name) (deref (fmt (t ∷ str " *" ∷ [])) (var p)) ∷ []))
      (unary CUnaryOp.log_not (
        call (var (str "__sync_bool_compare_and_swap"))
          (Expr.cast (fmt (t ∷ str " *" ∷ [])) (var p) ∷ var old_name ∷ var v ∷ [])))

abbrev pub atomic_store_wide : TypeRef → Text → Text → Text → Build Unit
atomic_store_wide ty v p t = do
  old ← new_temp ty
  old_name ← render_value old
  declare t old_name
  emit (store_loop t old_name v p)

abbrev pub atomic_store_plain : Text → Text → Text → Build Unit
atomic_store_plain v p t = emit (
    CStmt.expr (
      call (var (str "atomic_store"))
        (Expr.cast (fmt (str "_Atomic(" ∷ t ∷ str ") *" ∷ [])) (var p) ∷ var v ∷ [])))

unfoldable pub atomic_store : ValueRef → ValueRef → ℕ → Build Unit
atomic_store val ptr size = do
  v ← render_value val
  p ← render_value ptr
  ty ← get_type val
  t ← render_type ty
  if ltb 8 size then atomic_store_wide ty v p t else atomic_store_plain v p t
