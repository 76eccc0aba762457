-- ===== src/Types/Render.antt =====
-- src/types.rs: the C spelling of types. Types refer to other types by index, so the recursion
-- takes fuel: a store with n types has no chain of references longer than n without a cycle, and
-- on a cycle the source does not return either (`diverge`).
use rustc_codegen_c.Prelude.{
  ℕ, zero, suc, Bool, List, [], ◌∷◌, ◌++◌, none, some, ◌==◌, if◌then◌else◌, length,
}
use rustc_codegen_c.Prelude.Text.{Text, str, fmt, join}
use rustc_codegen_c.Prelude.Decimal.{show}
use rustc_codegen_c.Prelude.Outcome.{Outcome, ok, panic, diverge, ◌>>=◌, traverse}
use rustc_codegen_c.Types.Kind.{
  TypeRef, CTypeKind, c_bits, void, bool, int, float, ptr, array, struct, function, vector,
  ptr_width,
}
use rustc_codegen_c.Types.Store.{TypeStore, get}

-- The parameter list of a function type.
abbrev pub arg_list : List Text → Text
arg_list [] = str "void"
arg_list (a ∷ as') = join (str ", ") (a ∷ as')

unfoldable pub args_joined : List Text → Bool → Text
args_joined args_str variadic =
    if variadic then arg_list args_str ++ str ", ..." else arg_list args_str

unfoldable pub render_int : ℕ → Bool → Text
unfolding c_bits show
render_int bits signed =
    if bits == 1
    then str "_Bool"
    else fmt ((if signed then str "int" else str "uint") ∷ show (c_bits bits) ∷ str "_t" ∷ [])

unfoldable pub render_float : ℕ → Outcome Text
render_float bits =
    if bits == 16
    then ok (str "_Float16")
    else if bits == 32
    then ok (str "float")
    else if bits == 64
    then ok (str "double")
    else if bits == 128
    then ok (str "_Float128")
    else panic

-- One round of `render`: `rec` is the recursive call, `ty` the index of the kind.
unfoldable pub render_kind : (TypeRef → Outcome Text) → TypeRef → CTypeKind → Outcome Text
render_kind rec ty void = ok (str "void")
render_kind rec ty bool = ok (str "_Bool")
render_kind rec ty (int bits signed) = ok (render_int bits signed)
render_kind rec ty (float bits) = render_float bits
render_kind rec ty ptr = ok (str "void *")
render_kind rec ty (array element len) = do
  e ← rec element
  ok (fmt (e ∷ str "[" ∷ show len ∷ str "]" ∷ []))
render_kind rec ty (struct fields packed (some name)) = ok (str "struct " ++ name)
render_kind rec ty (struct fields packed none) = ok (str "struct _S" ++ show ty)
render_kind rec ty (function ret args variadic) = do
  args_str ← traverse rec args
  r ← rec ret
  ok (fmt (r ∷ str " (*)(" ∷ args_joined args_str variadic ∷ str ")" ∷ []))
render_kind rec ty (vector element len) = ok (str "_V" ++ show ty)
render_kind rec ty (ptr_width signed) =
    ok (if signed then str "__rustc_isize" else str "__rustc_usize")

unfoldable pub render_fuel : ℕ → TypeStore → TypeRef → Outcome Text
render_fuel zero s ty = diverge
render_fuel (suc f) s ty = get s ty >>= render_kind (render_fuel f s) ty

unfoldable pub render : TypeStore → TypeRef → Outcome Text
render s ty = render_fuel (suc (length s.types)) s ty

unfoldable pub decl_kind : TypeStore → TypeRef → Text → CTypeKind → Outcome Text
decl_kind s ty name (array element len) = do
  e ← render s element
  ok (fmt (e ∷ str " " ∷ name ∷ str "[" ∷ show len ∷ str "]" ∷ []))
decl_kind s ty name (function ret args variadic) = do
  args_str ← traverse (render s) args
  r ← render s ret
  ok (fmt (r ∷ str " (*" ∷ name ∷ str ")(" ∷ args_joined args_str variadic ∷ str ")" ∷ []))
decl_kind s ty name _ = do r ← render s ty; ok (fmt (r ∷ str " " ∷ name ∷ []))

unfoldable pub render_decl : TypeStore → TypeRef → Text → Outcome Text
render_decl s ty name = get s ty >>= decl_kind s ty name
