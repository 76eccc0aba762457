-- ===== src/Builder/Params.antt =====
-- src/builder.rs: the place of a builder, and the parameters of its function. The size of a pointer
-- in bytes, which rustc's data layout gives, is a parameter.
use rustc_codegen_c.Prelude.{
  ℕ, ◌-◌, Bool, false, List, [], ◌∷◌, Option, none, some, if◌then◌else◌, ◌==◌, ◌&&◌, ◌||◌,
  get_elem?, leb, ℕ_discrete,
}
use rustc_codegen_c.Prelude.Text.{Text, str, fmt}
use rustc_codegen_c.Prelude.Decimal.{show}
use rustc_codegen_c.Prelude.Dict.{get}
use rustc_codegen_c.Prelude.Outcome.{ok}
use rustc_codegen_c.Types.Kind.{TypeRef}
use rustc_codegen_c.Types.Store.{TypeStore}
use rustc_codegen_c.Types.Align.{natural_align_bytes}
use rustc_codegen_c.Values.Store.{ValueStore, ValueRef, inline_expr, param}
use rustc_codegen_c.Module.Function.{FunctionDef, BasicBlockId}
use rustc_codegen_c.Module.Function as Function
use rustc_codegen_c.Module.Source.{CModule}
use rustc_codegen_c.Builder.State.{
  Builder, Build, ◌>>=◌, ◌>>◌, give, ask, render_type_decl, current_function, with_function,
}
use rustc_codegen_c.Builder.Queries.{type_ptr}
use rustc_codegen_c.Builder.Flow.{retbuf_of}
use rustc_codegen_c.Consts.Values.{intern_value}

abbrev name_or_empty : Option Text → Text
name_or_empty none = []
name_or_empty (some name) = name

-- `Builder::build`, from the cells of the context. An unknown block belongs to the empty name.
unfoldable pub build : TypeStore → ValueStore → CModule → BasicBlockId → Builder
build types values m llbb = record {
  types = types;
  values = values;
  c_module = m;
  current_bb = llbb;
  current_fn = name_or_empty (get ℕ_discrete m.block_to_function llbb);
}

unfoldable pub llbb : Builder → BasicBlockId
llbb b = b.current_bb

abbrev pub contains_index : ℕ → List ℕ → Bool
contains_index i [] = false
contains_index i (x ∷ xs) = i == x || contains_index i xs

abbrev pub returns_indirectly : Option FunctionDef → Bool
returns_indirectly none = false
returns_indirectly (some f) = f.has_indirect_ret

abbrev pub on_stack : Option FunctionDef → ℕ → Bool
on_stack none i = false
on_stack (some f) i = contains_index i f.on_stack_params

abbrev pub ret_data_of : Option FunctionDef → Option TypeRef
ret_data_of none = none
ret_data_of (some f) = f.ret_data_type

abbrev pub param_of : Option FunctionDef → ℕ → Option (TypeRef × Text)
param_of none i = none
param_of (some f) i = get_elem? f.params i

-- `.unwrap_or(self.cx.type_ptr())`, which interns the pointer type in both cases.
abbrev pub type_or_ptr : Option TypeRef → Build TypeRef
type_or_ptr none = type_ptr
type_or_ptr (some ty) = do ptr_ty ← type_ptr; give ty

abbrev pub param_ty : Option (TypeRef × Text) → Option TypeRef
param_ty none = none
param_ty (some p) = some p.0

-- `intern_value(CValueKind::InlineExpr(text), self.cx.type_ptr())`
abbrev pub pointer_to : Text → Build ValueRef
pointer_to text = do ptr_ty ← type_ptr; intern_value (inline_expr text) ptr_ty

-- The buffer for the result, with at least the alignment of 16 bytes.
abbrev pub retbuf_decl : ℕ → Text → Text
retbuf_decl natural_align t = fmt (
    str "_Alignas("
    ∷ show (if leb natural_align 16 then 16 else natural_align)
    ∷ str ") "
    ∷ t
    ∷ str ";"
    ∷ [])

abbrev pub keep_retbuf : FunctionDef → FunctionDef
keep_retbuf f = record f { retbuf_name = some (str "_retbuf") }

abbrev pub retbuf_param : ℕ → Option Text → Build ValueRef
retbuf_param pointer_bytes (some arr_name) = pointer_to (fmt (str "(void *)&" ∷ arr_name ∷ []))
retbuf_param pointer_bytes none = do
  f ← ask λ b. ok (current_function b)
  ret_ty ← type_or_ptr (ret_data_of f)
  t ← render_type_decl ret_ty (str "_retbuf")
  natural_align ← ask λ b. natural_align_bytes b.types ret_ty pointer_bytes
  with_function λ g. keep_retbuf (Function.add_local_decl g (retbuf_decl natural_align t))
  pointer_to (str "(void *)&_retbuf")

abbrev pub plain_param : ℕ → Build ValueRef
plain_param c_index = do
  f ← ask λ b. ok (current_function b)
  if on_stack f c_index
      then pointer_to (fmt (str "(void *)&_arg" ∷ show c_index ∷ []))
      else typed_param f
  where
    typed_param : Option FunctionDef → Build ValueRef
    typed_param f = do
      ty ← type_or_ptr (param_ty (param_of f c_index))
      intern_value (param c_index) ty

-- The buffer for the result takes the number 0, which the C function has no parameter for.
unfoldable pub get_param : ℕ → ℕ → Build ValueRef
get_param pointer_bytes index = do
  f ← ask λ b. ok (current_function b)
  if returns_indirectly f && index == 0
      then retbuf_param pointer_bytes (retbuf_of f)
      else plain_param (if returns_indirectly f then index - 1 else index)
