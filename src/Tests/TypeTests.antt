-- ===== src/Tests/TypeTests.antt =====
-- src/types.rs at concrete stores.
use rustc_codegen_c.Prelude.{
  ℕ, zero, suc, ◌≡◌, ◌↔◌, refl, true, false, [], ◌∷◌, some, arith, get_elem?,
}
use rustc_codegen_c.Prelude.Text.{str}
use rustc_codegen_c.Prelude.Outcome.{ok}
use rustc_codegen_c.Types.Kind.{CTypeKind-discrete, int, array, vector, function}
use rustc_codegen_c.Types.Store.{new, intern, get}
use rustc_codegen_c.Types.Render.{
  render, render_decl, decl_kind, render_fuel, render_kind, render_int,
}
use rustc_codegen_c.Types.Align.{natural_align_bytes}
use rustc_codegen_c.Types.Interning.{HasRoom, get-intern, intern-canonical}
use rustc_codegen_c.Types.Total.{Ends, IsClosed, intern-IsClosed, render_total}
use rustc_codegen_c.Types.Stable.{render-intern}
use rustc_codegen_c.Types.AlignPower.{IsPowerOfTwo, VectorsFit, natural_align-IsPowerOfTwo}
use rustc_codegen_c.Tests.Samples.{
  ints, arrays, ints-long, arrays-long, ints-IsWf, ints-IsClosed, arrays-IsClosed,
}

ints-HasRoom : HasRoom ints
ints-HasRoom = rw ints-long (omega arith)

arrays-HasRoom : HasRoom arrays
arrays-HasRoom = rw arrays-long (omega arith)

-- An array type is spelled with its length.
array_text : render arrays 1 ≡ ok (str "int32_t[4]")
unfolding intern new get render render_fuel render_kind render_int CTypeKind-discrete
array_text = refl

get-intern_example : get (intern ints (array 0 4)).0 (intern ints (array 0 4)).1 ≡ ok (array 0 4)
get-intern_example = get-intern ints (array 0 4) ints-IsWf ints-HasRoom

intern-canonical_example :
    ((intern ints (array 0 4)).1 ≡ (intern (intern ints (array 0 4)).0 (array 0 4)).1)
    ↔ (array 0 4 ≡ array 0 4)
intern-canonical_example =
    intern-canonical ints (array 0 4) (array 0 4) ints-IsWf ints-HasRoom arrays-HasRoom

intern-IsClosed_example : IsClosed (intern arrays (function 0 (1 ∷ []) true)).0
intern-IsClosed_example =
    intern-IsClosed arrays (function 0 (1 ∷ []) true) arrays-IsClosed
      (rw arrays-long (omega arith, (omega arith, tt))) tt

render_total_example : Ends (render arrays 1)
render_total_example = render_total arrays 1 arrays-IsClosed (rw arrays-long (omega arith))

render-intern_example : render (intern arrays (int 8 false)).0 1 ≡ ok (str "int32_t[4]")
render-intern_example = render-intern arrays (int 8 false) 1 array_text

array_decl : render_decl arrays 1 (str "x") ≡ ok (str "int32_t x[4]")
unfolding intern new get render render_decl decl_kind render_fuel render_kind render_int
    CTypeKind-discrete
array_decl = refl

no_vectors : (i element len : ℕ) → get_elem? ints.types i ≡ some (vector element len) → ⊥
unfolding intern new
no_vectors zero element len h = cc
no_vectors (suc i) element len h = cc

ints-VectorsFit : VectorsFit ints
ints-VectorsFit = record {
  short = λ i element len h. elim (no_vectors i element len h) [ ];
  scalar = λ i element len k h e. elim (no_vectors i element len h) [ ];
}

natural_align-IsPowerOfTwo_example :
    (a : ℕ) × (natural_align_bytes ints 0 8 ≡ ok a) × IsPowerOfTwo a
natural_align-IsPowerOfTwo_example =
    natural_align-IsPowerOfTwo 8 ((3, refl), omega arith) ints ints-IsClosed ints-VectorsFit 0
      (rw ints-long (omega arith))
