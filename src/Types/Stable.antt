-- ===== src/Types/Stable.antt =====
-- src/types.rs: what is rendered once stays: interning further types changes no spelling.
use rustc_codegen_c.Prelude.{
  ℕ, zero, suc, ◌-◌, ◌≤◌, ◌≡◌, ap, ◌∙◌, [], ◌∷◌, length, length-append, arith, inl, inr,
  Option-cases,
}
use rustc_codegen_c.Prelude.Text.{Text}
use rustc_codegen_c.Prelude.Outcome.{ok, traverse, >>=-eq-ok}
use rustc_codegen_c.Types.Kind.{TypeRef, CTypeKind, array, function}
use rustc_codegen_c.Types.Store.{TypeStore, get, intern, index_of}
use rustc_codegen_c.Types.Interning.{get-intern_stable, intern_old, intern_new}
use rustc_codegen_c.Types.Render.{render_fuel, render, decl_kind, render_decl}
use rustc_codegen_c.Types.Fuel.{Extends, traverse-Extends, render_kind-Extends, render_fuel_mono}

module _ (s : TypeStore) (j : CTypeKind) where
  pub length-intern : length s.types ≤ length (intern s j).0.types
  length-intern = elim (Option-cases (index_of s j)) [
    | inl fresh ↦ rw (intern_new s j fresh) (omega (arith, length-append {0} s.types (j ∷ [])))
    | inr (i, old) ↦ rw (intern_old s j old) (omega arith)
  ]

  render_fuel-intern : (f : ℕ) → Extends (render_fuel f s) (render_fuel f (intern s j).0)
  unfolding render_fuel
  render_fuel-intern zero t x h = cc
  render_fuel-intern (suc f) t x h =
      let (k, hk, h') = >>=-eq-ok (get s t) _ h in
      rw (get-intern_stable s j t hk) (render_kind-Extends _ _ t k (render_fuel-intern f) h')

  render-Extends : Extends (render s) (render (intern s j).0)
  unfolding render
  render-Extends t x h =
      let n = length s.types in
      let m = length (intern s j).0.types in
      ap (λ f. render_fuel f (intern s j).0 t) (omega (arith, length-intern))
      ∙ render_fuel_mono (m - n) (suc n) (intern s j).0 t (render_fuel-intern (suc n) t x h)

  -- A type that has a spelling has the same one after another type is interned.
  pub render-intern : (t : TypeRef) {x : Text} → render s t ≡ ok x → render (intern s j).0 t ≡ ok x
  render-intern t {x} h = render-Extends t x h

  decl_kind-intern :
      (t : TypeRef) (name : Text) (k : CTypeKind) {x : Text}
      → decl_kind s t name k ≡ ok x
      → decl_kind (intern s j).0 t name k ≡ ok x
  unfolding decl_kind
  decl_kind-intern t name (array element len) h =
      let (e, he, h') = >>=-eq-ok (render s element) _ h in rw (render-Extends element e he) h'
  decl_kind-intern t name (function ret args variadic) h =
      let (xs, hxs, h') = >>=-eq-ok (traverse (render s) args) _ h in
      let (r, hr, h'') = >>=-eq-ok (render s ret) _ h' in
      rw (traverse-Extends _ _ args render-Extends hxs) (rw (render-Extends ret r hr) h'')
  decl_kind-intern t name _ h =
      let (r, hr, h') = >>=-eq-ok (render s t) _ h in rw (render-Extends t r hr) h'

  -- A declaration of a variable that can be written is written the same after another type is
  -- interned.
  pub render_decl-intern :
      (t : TypeRef) (name : Text) {x : Text}
      → render_decl s t name ≡ ok x
      → render_decl (intern s j).0 t name ≡ ok x
  unfolding render_decl
  render_decl-intern t name h =
      let (k, hk, h') = >>=-eq-ok (get s t) _ h in
      rw (get-intern_stable s j t hk) (decl_kind-intern t name k h')
