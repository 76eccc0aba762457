-- ===== src/Module/Render.antt =====
-- src/module.rs: `FunctionDef::render`.
use rustc_codegen_c.Prelude.{
  ℕ, suc, Bool, true, false, not, ◌&&◌, List, [], ◌∷◌, ◌++◌, Option, none, some, if◌then◌else◌,
  ℕ_discrete,
}
use rustc_codegen_c.Prelude.Text.{Text, str, fmt, fmt_line, join, newline, contains_text}
use rustc_codegen_c.Prelude.Dict.{get}
use rustc_codegen_c.Prelude.Outcome.{Outcome, ok, ◌>>=◌}
use rustc_codegen_c.CAst.Printer.{print_stmts}
use rustc_codegen_c.Types.Kind.{TypeRef}
use rustc_codegen_c.Types.Store.{TypeStore}
use rustc_codegen_c.Types.Render.{render, render_decl}
use rustc_codegen_c.Module.Function.{FunctionDef, BasicBlockData}

abbrev pub param_text : TypeStore → TypeRef → Text → Option Text → Outcome Text
param_text types ty name (some override_ty) = ok (fmt (override_ty ∷ str " " ∷ name ∷ []))
param_text types ty name none = render_decl types ty name

-- The parameters from number `i` on, with the overrides of their types.
unfoldable pub params_from :
    TypeStore → List (ℕ × Text) → ℕ → List (TypeRef × Text) → Outcome (List Text)
params_from types overrides i [] = ok []
params_from types overrides i ((ty, name) ∷ params) = do
  p ← param_text types ty name (get ℕ_discrete overrides i)
  ps ← params_from types overrides (suc i) params
  ok (p ∷ ps)

abbrev pub is_empty {ℓ} : {A : Type ℓ} → List A → Bool
is_empty [] = true
is_empty (x ∷ xs) = false

-- `params_joined` before the dots of a variadic function.
abbrev pub fixed_params : List Text → Bool → Text
fixed_params params_str variadic =
    if is_empty params_str then if variadic then [] else str "void" else join (str ", ") params_str

unfoldable pub params_joined : List Text → Bool → Text
params_joined params_str variadic =
    let fixed = fixed_params params_str variadic in
    if variadic then (if is_empty fixed then fixed else fixed ++ str ", ") ++ str "..." else fixed

-- `for decl in &self.local_decls`
unfoldable pub decl_lines : List Text → Text
decl_lines [] = []
decl_lines (d ∷ ds) = fmt_line (str "  " ∷ d ∷ []) ++ decl_lines ds

unfoldable pub block_text : BasicBlockData → Text
block_text b = fmt (
    fmt_line (b.label ∷ str ":" ∷ [])
    ∷ print_stmts b.statements 1
    ∷ (if not b.terminated then fmt_line (str "  ; /* fallthrough */" ∷ []) else [])
    ∷ [])

unfoldable pub block_texts : List (ℕ × BasicBlockData) → Text
block_texts [] = []
block_texts ((id, b) ∷ bs) = block_text b ++ block_texts bs

unfoldable pub weak_pragma : FunctionDef → Text
weak_pragma f =
    if f.is_weak && not (contains_text f.linkage_prefix (str "static"))
    then fmt_line (str "#pragma weak " ∷ f.name ∷ [])
    else []

unfoldable pub signature_line : FunctionDef → Text → List Text → Text
signature_line f ret params_str = fmt_line (
    f.linkage_prefix
    ∷ ret
    ∷ str " "
    ∷ f.name
    ∷ str "("
    ∷ params_joined params_str f.is_variadic
    ∷ str ") {"
    ∷ [])

unfoldable pub render_function : FunctionDef → TypeStore → Outcome Text
render_function f types = do
  params_str ← params_from types f.param_type_overrides 0 f.params
  ret ← render types f.return_type
  ok (
      fmt (
        weak_pragma f
        ∷ signature_line f ret params_str
        ∷ decl_lines f.local_decls
        ∷ (if not (is_empty f.local_decls) then newline else [])
        ∷ block_texts f.blocks
        ∷ str "}\n"
        ∷ []))
