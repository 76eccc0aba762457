-- ===== src/Module/Total.antt =====
-- src/module.rs: a function whose signature names types of the store is always written.
use rustc_codegen_c.Prelude.{
  ℕ, suc, ◌<◌, refl, List, [], ◌∷◌, Option, none, some, All, length, ℕ_discrete,
}
use rustc_codegen_c.Prelude.Text.{Text}
use rustc_codegen_c.Prelude.Dict.{get}
use rustc_codegen_c.Types.Kind.{TypeRef}
use rustc_codegen_c.Types.Store.{TypeStore}
use rustc_codegen_c.Types.Total.{Ends, Ends-bind, IsClosed, render_total, render_decl_total}
use rustc_codegen_c.Module.Function.{FunctionDef}
use rustc_codegen_c.Module.Render.{param_text, params_from, render_function}

-- The types that the signature of a function names are in the store.
pub record SignatureClosed (types : TypeStore) (f : FunctionDef) : Type 0 where
  pub ret : f.return_type < length types.types
  pub params : All (λ p. p.0 < length types.types) f.params

module _ (types : TypeStore) (c : IsClosed types) where
  param_text-Ends :
      (ty : TypeRef) (name : Text) (o : Option Text)
      → ty < length types.types
      → Ends (param_text types ty name o)
  param_text-Ends ty name none inside = render_decl_total types ty name c inside
  param_text-Ends ty name (some t) inside = (_, refl)

  params_from-Ends :
      (overrides : List (ℕ × Text)) (i : ℕ) (params : List (TypeRef × Text))
      → All (λ p. p.0 < length types.types) params
      → Ends (params_from types overrides i params)
  unfolding params_from
  params_from-Ends overrides i [] _ = ([], refl)
  params_from-Ends overrides i ((ty, name) ∷ params) (h, hs) =
      Ends-bind (param_text types ty name (get ℕ_discrete overrides i)) _
        (param_text-Ends ty name (get ℕ_discrete overrides i) h)
        λ p. let (ps, e) = params_from-Ends overrides (suc i) params hs in (p ∷ ps, rw e refl)

  -- Over a closed store, a function whose return and parameter types are in the store is written:
  -- `render` returns.
  pub render_function_total :
      (f : FunctionDef) → SignatureClosed types f → Ends (render_function f types)
  unfolding render_function
  render_function_total f h =
      let (ps, e) = params_from-Ends f.param_type_overrides 0 f.params h.params in
      let (ret, r) = render_total types f.return_type c h.ret in rw (e, r) (_, refl)
