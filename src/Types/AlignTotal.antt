-- ===== src/Types/AlignTotal.antt =====
-- src/types.rs: natural_align_bytes on a closed store.
use rustc_codegen_c.Prelude.{
  ℕ, zero, suc, ◌<◌, refl, true, false, All-map, length, get_elem?_total, arith,
}
use rustc_codegen_c.Prelude.Outcome.{Outcome, traverse}
use rustc_codegen_c.Types.Kind.{TypeRef, CTypeKind, array, struct, vector}
use rustc_codegen_c.Types.Store.{TypeStore}
use rustc_codegen_c.Types.Interning.{get_of_elem}
use rustc_codegen_c.Types.Align.{align_kind, align_fuel, natural_align_bytes}
use rustc_codegen_c.Types.Total.{RefsBelow, IsClosed, Ends, Ends-bind, traverse-Ends}

align_kind-Ends :
    (rec : TypeRef → Outcome ℕ) (pointer_bytes n : ℕ) (k : CTypeKind)
    → ((t : TypeRef) → t < n → Ends (rec t))
    → RefsBelow n k
    → Ends (align_kind rec pointer_bytes k)
unfolding align_kind
align_kind-Ends rec p n (array element len) ih b = ih element b
align_kind-Ends rec p n (vector element len) ih b =
    Ends-bind (rec element) _ (ih element b) λ x. (_, refl)
align_kind-Ends rec p n (struct fields true name) ih b = (_, refl)
align_kind-Ends rec p n (struct fields false name) ih b =
    Ends-bind (traverse rec fields) _ (traverse-Ends rec fields (All-map fields ih b))
      λ xs. (_, refl)
align_kind-Ends rec p n _ ih b = (_, refl)

align_fuel-Ends :
    (f : ℕ) (s : TypeStore) (p : ℕ) (t : TypeRef)
    → IsClosed s
    → t < f
    → t < length s.types
    → Ends (align_fuel f s p t)
unfolding align_fuel
align_fuel-Ends zero s p t c lt _ = elim lt [ ]
align_fuel-Ends (suc f) s p t c lt inside =
    let (k, e) = get_elem?_total s.types t inside in
    rw (get_of_elem s t e) (
      align_kind-Ends (align_fuel f s p) p t k
        (λ u below. align_fuel-Ends f s p u c (omega arith) (omega arith)) (c.refs k t e))

-- Every type of a closed store has an alignment: no index is out of bounds and the recursion ends.
pub natural_align_bytes_total :
    (s : TypeStore) (t : TypeRef) (pointer_bytes : ℕ)
    → IsClosed s
    → t < length s.types
    → Ends (natural_align_bytes s t pointer_bytes)
unfolding natural_align_bytes
natural_align_bytes_total s t p c inside =
    align_fuel-Ends (suc (length s.types)) s p t c (omega arith) inside
