-- ===== src/Values/Total.antt =====
-- src/values.rs: values that refer to earlier values only have a spelling.
use rustc_codegen_c.Prelude.{
  ℕ, zero, suc, ◌<◌, inl, inr, ◌≡◌, refl, some, All, All-map, length, get_elem?-push_cases,
  get_elem?, get_elem?_total, arith,
}
use rustc_codegen_c.Prelude.Text.{Text}
use rustc_codegen_c.Prelude.Outcome.{Outcome, traverse}
use rustc_codegen_c.Types.Total.{Ends, Ends-bind, traverse-Ends}
use rustc_codegen_c.Types.Kind.{TypeRef}
use rustc_codegen_c.Values.Store.{
  ValueRef, CValueKind, CValueInfo, ValueStore, new, alloc, get, struct_const, vector_const,
  ptr_offset,
}
use rustc_codegen_c.Values.Render.{render_kind, render_fuel, render}

-- Every value that the kind refers to has an index below `n`.
abbrev pub RefsBelow : ℕ → CValueKind → Type 0
RefsBelow n (struct_const fields) = All (λ f. f < n) fields
RefsBelow n (vector_const elements type_str) = All (λ e. e < n) elements
RefsBelow n (ptr_offset base offset) = base < n
RefsBelow n _ = Unit

abbrev pub IsClosed : ValueStore → Type 0
IsClosed s =
    (v : ValueRef) (info : CValueInfo) → get_elem? s.values v ≡ some info → RefsBelow v info.kind

pub new-IsClosed : IsClosed new
unfolding new
new-IsClosed v info h = cc

-- Allocating a value that refers to values of the store keeps the store closed: values refer to
-- earlier values only.
pub alloc-IsClosed :
    (s : ValueStore) (kind : CValueKind) (ty : TypeRef)
    → IsClosed s
    → RefsBelow (length s.values) kind
    → IsClosed (alloc s kind ty).0
unfolding alloc
alloc-IsClosed s kind ty c below v info h = elim (get_elem?-push_cases s.values _ info v h) [
  | inl old ↦ c v info old
  | inr (e, p) ↦ rw (e, ← p) below
]

render_kind-Ends :
    (rec : ValueRef → Outcome Text) (n : ℕ) (k : CValueKind)
    → ((v : ValueRef) → v < n → Ends (rec v))
    → RefsBelow n k
    → Ends (render_kind rec k)
unfolding render_kind
render_kind-Ends rec n (struct_const fields) ih b =
    Ends-bind (traverse rec fields) _ (traverse-Ends rec fields (All-map fields ih b))
      λ e. (_, refl)
render_kind-Ends rec n (vector_const elements type_str) ih b =
    Ends-bind (traverse rec elements) _ (traverse-Ends rec elements (All-map elements ih b))
      λ e. (_, refl)
render_kind-Ends rec n (ptr_offset base offset) ih b =
    Ends-bind (rec base) _ (ih base b) λ e. (_, refl)
render_kind-Ends rec n _ ih b = (_, refl)

render_fuel-Ends :
    (f : ℕ) (s : ValueStore) (v : ValueRef)
    → IsClosed s
    → v < f
    → v < length s.values
    → Ends (render_fuel f s v)
unfolding render_fuel get
render_fuel-Ends zero s v c lt inside = elim lt [ ]
render_fuel-Ends (suc f) s v c lt inside =
    let (info, e) = get_elem?_total s.values v inside in
    rw e (
      render_kind-Ends (render_fuel f s) v info.kind
        (λ u below. render_fuel-Ends f s u c (omega arith) (omega arith)) (c v info e))

-- Every value of a closed store has a C spelling: `render` returns.
pub render_value_total :
    (s : ValueStore) (v : ValueRef) → IsClosed s → v < length s.values → Ends (render s v)
unfolding render
render_value_total s v c inside =
    render_fuel-Ends (suc (length s.values)) s v c (omega arith) inside
