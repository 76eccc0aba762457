-- ===== src/Builder/Address.antt =====
-- src/builder.rs: address arithmetic and the copies of memory.
use rustc_codegen_c.Prelude.{List, [], ◌∷◌}
use rustc_codegen_c.Prelude.Text.{Text, str}
use rustc_codegen_c.Prelude.Outcome.{panic}
use rustc_codegen_c.CAst.Op.{CBinOp}
use rustc_codegen_c.CAst.Expr.{CExpr}
use rustc_codegen_c.CAst.Build.{var, paren, sizeof_ty}
use rustc_codegen_c.CAst.Build as Expr
use rustc_codegen_c.Types.Kind.{TypeRef}
use rustc_codegen_c.Values.Store.{ValueRef}
use rustc_codegen_c.Builder.State.{Build, ◌>>=◌, ask, render_value, render_type}
use rustc_codegen_c.Builder.Emit.{new_temp_with_stmt}
use rustc_codegen_c.Builder.Queries.{type_ptr}
use rustc_codegen_c.Builder.Memory.{emit_call}

-- `(__rustc_usize)p + (__rustc_isize)(idx) * (__rustc_isize)sizeof(t)`
abbrev pub scaled_sum : Text → Text → Text → CExpr
scaled_sum p t idx0 = Expr.binop (Expr.cast (str "__rustc_usize") (var p)) CBinOp.add (
    Expr.binop (Expr.cast (str "__rustc_isize") (paren (var idx0))) CBinOp.mul
      (Expr.cast (str "__rustc_isize") (sizeof_ty t)))

abbrev pub as_pointer : CExpr → CExpr
as_pointer sum = Expr.cast (str "void *") (paren sum)

-- The rest of `gep`, by the indices behind the first one: only a single one is added.
abbrev pub gep_rest : TypeRef → CExpr → List ValueRef → Build ValueRef
gep_rest ptr_ty sum (index1 ∷ []) = do
  idx1 ← render_value index1
  new_temp_with_stmt ptr_ty
      (as_pointer (Expr.binop sum CBinOp.add (Expr.cast (str "__rustc_isize") (paren (var idx1)))))
gep_rest ptr_ty sum _ = new_temp_with_stmt ptr_ty (as_pointer sum)

-- Without an index, `indices[0]` is out of bounds.
abbrev pub gep_from : TypeRef → TypeRef → Text → List ValueRef → Build ValueRef
gep_from ptr_ty ty p [] = ask λ _. panic
gep_from ptr_ty ty p (index0 ∷ indices) = do
  idx0 ← render_value index0
  t ← render_type ty
  gep_rest ptr_ty (scaled_sum p t idx0) indices

unfoldable pub gep : TypeRef → ValueRef → List ValueRef → Build ValueRef
gep ty ptr indices = do ptr_ty ← type_ptr; p ← render_value ptr; gep_from ptr_ty ty p indices

unfoldable pub inbounds_gep : TypeRef → ValueRef → List ValueRef → Build ValueRef
inbounds_gep ty ptr indices = gep ty ptr indices

unfoldable pub memcpy : ValueRef → ValueRef → ValueRef → Build Unit
memcpy dst src size = do
  d ← render_value dst
  s ← render_value src
  sz ← render_value size
  emit_call (str "memcpy") (var d) (var s) (var sz)

unfoldable pub memmove : ValueRef → ValueRef → ValueRef → Build Unit
memmove dst src size = do
  d ← render_value dst
  s ← render_value src
  sz ← render_value size
  emit_call (str "memmove") (var d) (var s) (var sz)

unfoldable pub memset : ValueRef → ValueRef → ValueRef → Build Unit
memset ptr fill_byte size = do
  p ← render_value ptr
  byte ← render_value fill_byte
  sz ← render_value size
  emit_call (str "memset") (var p) (var byte) (var sz)
