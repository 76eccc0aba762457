-- ===== src/Builder/Call.antt =====
-- src/builder.rs: calls. Of the calling convention, which rustc computes, a call uses three facts:
-- they are a record.
use rustc_codegen_c.Prelude.{
  ℕ, suc, Bool, true, false, ◌&&◌, List, [], ◌∷◌, Option, none, some, if◌then◌else◌, get_elem?,
}
use rustc_codegen_c.Prelude.Text.{Text, str, fmt}
use rustc_codegen_c.Prelude.Outcome.{Outcome, ok, panic}
use rustc_codegen_c.CAst.Expr.{CExpr}
use rustc_codegen_c.CAst.Build.{var, call as call_expr, deref, paren}
use rustc_codegen_c.CAst.Build as Expr
use rustc_codegen_c.CAst.Stmt.{CStmt}
use rustc_codegen_c.Types.Kind.{TypeRef, CTypeKind, void, bool, struct, function}
use rustc_codegen_c.Values.Store.{ValueRef, inline_expr}
use rustc_codegen_c.Values.Store as Values
use rustc_codegen_c.Builder.State.{
  Build, ◌>>=◌, ◌>>◌, give, ask, get_type, get_kind, render_value, render_type, intern_type,
  current_function,
}
use rustc_codegen_c.Builder.Emit.{emit, new_temp_with_stmt, coerce_ptr_int}
use rustc_codegen_c.Builder.Queries.{type_ptr}
use rustc_codegen_c.Builder.Convert.{is_ptr}
use rustc_codegen_c.Builder.Flow.{is_void_kind, retbuf_of, ret, ret_void}
use rustc_codegen_c.Consts.Values.{intern_value, const_null, const_undef}

-- Of `FnAbi`: `ret.is_indirect()`, whether the result is a boolean scalar, and the C type of the
-- layout of the result, as `layout_to_c_type` gives it.
pub record FnAbi : Type 0 where
  pub is_indirect : Bool
  pub returns_bool : Bool
  pub ret_layout : Build TypeRef

abbrev pub is_indirect_ret : Option FnAbi → Bool
is_indirect_ret none = false
is_indirect_ret (some abi) = abi.is_indirect

abbrev pub returns_bool_scalar : Option FnAbi → Bool
returns_bool_scalar none = false
returns_bool_scalar (some abi) = abi.returns_bool

-- The buffer for an indirect result is the first argument.
abbrev pub split_sret : Bool → List ValueRef → Option ValueRef × List ValueRef
split_sret true (sret ∷ args) = (some sret, args)
split_sret _ args = (none, args)

-- `values.get_fn_sig(v)`
abbrev pub get_fn_sig : ValueRef → Build (Option TypeRef)
get_fn_sig v = ask λ b. Values.get_fn_sig b.values v

abbrev pub sig_or : TypeRef → Option TypeRef → TypeRef
sig_or llty none = llty
sig_or llty (some sig) = sig

abbrev pub params_of : CTypeKind → List TypeRef
params_of (function ret args variadic) = args
params_of _ = []

abbrev pub is_struct : CTypeKind → Bool
is_struct (struct fields packed name) = true
is_struct _ = false

-- A struct that is passed by value is read behind the pointer to it.
abbrev pub pass_by_value : ValueRef → TypeRef → Build ValueRef
pass_by_value a pty = do
  ptr_str ← render_value a
  ty_str ← render_type pty
  intern_value (inline_expr (fmt (str "*(" ∷ ty_str ∷ str " *)" ∷ ptr_str ∷ []))) pty

abbrev pub coerce_arg : ValueRef → Option TypeRef → Build ValueRef
coerce_arg a none = give a
coerce_arg a (some pty) = do
  param ← get_kind pty
  val_ty ← get_type a
  value ← get_kind val_ty
  if is_struct param && is_ptr value then pass_by_value a pty else coerce_ptr_int a pty

unfoldable pub coerce_args : ℕ → List TypeRef → List ValueRef → Build (List ValueRef)
coerce_args i params [] = give []
coerce_args i params (a ∷ args) = do
  arg ← coerce_arg a (get_elem? params i)
  rest ← coerce_args (suc i) params args
  give (arg ∷ rest)

unfoldable pub render_args : List ValueRef → Build (List CExpr)
render_args [] = give []
render_args (a ∷ args) = do x ← render_value a; xs ← render_args args; give (var x ∷ xs)

-- The return type of a function type. For another type, `intern_type` borrows the types for
-- writing while they are borrowed for reading: a panic.
abbrev pub return_of : CTypeKind → Outcome TypeRef
return_of (function ret args variadic) = ok ret
return_of _ = panic

-- The return type and the C text of the callee: its name, or a cast to the function type.
abbrev pub callee_by : ValueRef → TypeRef → Option TypeRef → Build (TypeRef × Text)
callee_by fn_val llty (some sig) = do
  kind ← get_kind sig
  ret_ty ← ask λ _. return_of kind
  f ← render_value fn_val
  give (ret_ty, f)
callee_by fn_val llty none = do
  f_raw ← render_value fn_val
  kind ← get_kind llty
  ret_ty ← ask λ _. return_of kind
  fn_ptr_ty ← render_type llty
  give (ret_ty, fmt (str "((" ∷ fn_ptr_ty ∷ str ")" ∷ f_raw ∷ str ")" ∷ []))

abbrev pub indirect_ret_ty : Option FnAbi → Build TypeRef
indirect_ret_ty none = type_ptr
indirect_ret_ty (some abi) = abi.ret_layout

-- The value that stands for the result of a call that returns nothing.
abbrev pub void_result : Option FnAbi → Bool → Build ValueRef
void_result abi true = do real_ret_ty ← indirect_ret_ty abi; const_undef real_ret_ty
void_result abi false = do ptr_ty ← type_ptr; const_null ptr_ty

abbrev pub call_void : Option FnAbi → Text → List CExpr → Build ValueRef
call_void abi f args_exprs = do
  emit (CStmt.expr (call_expr (var f) args_exprs))
  void_result abi (is_indirect_ret abi)

-- The result is put into the buffer, or read as a `_Bool`.
abbrev pub convert_result : Bool → TypeRef → ValueRef → Option ValueRef → Build ValueRef
convert_result returns_bool ret_ty result (some sret) = do
  r ← render_value result
  s ← render_value sret
  t ← render_type ret_ty
  emit (CStmt.assign (deref (fmt (t ∷ str " *" ∷ [])) (var s)) (var r))
  give sret
convert_result true ret_ty result none = do
  bool_ty ← intern_type bool
  v ← render_value result
  new_temp_with_stmt bool_ty (Expr.cast (str "_Bool") (paren (var v)))
convert_result false ret_ty result none = give result

abbrev pub call_value :
    Option FnAbi → TypeRef → Text → List CExpr → Option ValueRef → Build ValueRef
call_value abi ret_ty f args_exprs sret_ptr = do
  result ← new_temp_with_stmt ret_ty (call_expr (var f) args_exprs)
  convert_result (returns_bool_scalar abi) ret_ty result sret_ptr

abbrev pub call_rest :
    TypeRef → Option FnAbi → ValueRef → Option ValueRef → List ValueRef → Build ValueRef
call_rest llty abi fn_val sret_ptr actual_args = do
  fn_sig ← get_fn_sig fn_val
  sig_kind ← get_kind (sig_or llty fn_sig)
  coerced_args ← coerce_args 0 (params_of sig_kind) actual_args
  args_exprs ← render_args coerced_args
  callee ← callee_by fn_val llty fn_sig
  ret_kind ← get_kind callee.0
  if is_void_kind ret_kind
      then call_void abi callee.1 args_exprs
      else call_value abi callee.0 callee.1 args_exprs sret_ptr

unfoldable pub call : TypeRef → Option FnAbi → ValueRef → List ValueRef → Build ValueRef
call llty abi fn_val args =
    let (sret_ptr, actual_args) = split_sret (is_indirect_ret abi) args in
    call_rest llty abi fn_val sret_ptr actual_args

-- The return type that a tail call looks up: `void` for a callee without a signature.
abbrev pub tail_ret_ty : Option TypeRef → Build TypeRef
tail_ret_ty none = intern_type void
tail_ret_ty (some sig) = do kind ← get_kind sig; ask λ _. return_of kind

abbrev pub return_by : ValueRef → Option TypeRef → Build Unit
return_by result sig = do
  ret_ty ← tail_ret_ty sig
  kind ← get_kind ret_ty
  if is_void_kind kind then ret_void else ret result

abbrev pub tail_return : ValueRef → ValueRef → Option Text → Build Unit
tail_return llfn result (some retbuf) = ret_void
tail_return llfn result none = do sig ← get_fn_sig llfn; return_by result sig

unfoldable pub tail_call : TypeRef → FnAbi → ValueRef → List ValueRef → Build Unit
tail_call llty fn_abi llfn args = do
  result ← call llty (some fn_abi) llfn args
  retbuf ← ask λ b. ok (retbuf_of (current_function b))
  tail_return llfn result retbuf
