-- ===== src/Safe/Values.antt =====
-- src/values.rs: the brackets in the C spelling of a value.
use rustc_codegen_c.Prelude.{
  ℕ, zero, suc, ◌<◌, ◌%◌, ◌/◌, ◌^◌, true, false, ◌≡◌, refl, ◌∙◌, ◌&&◌, ◌||◌, List, [], ◌∷◌, some,
  All, length, get_elem?, leb, both_branches, Option-cases, inl, inr,
}
use rustc_codegen_c.Prelude.Text.{Text, str, join}
use rustc_codegen_c.Prelude.Int.{ℤ, pos, negsuc, ltb_ℤ, leb_ℤ, eq_ℤ, show_ℤ, to_u128}
use rustc_codegen_c.Prelude.Decimal.{show}
use rustc_codegen_c.Prelude.Brackets.{
  IsBalanced, scan_over, append-IsBalanced, show-IsBalanced, join-IsBalanced,
}
use rustc_codegen_c.Prelude.Outcome.{Outcome, ok, traverse, Gives, Gives-bind, Gives-ok}
use rustc_codegen_c.Values.Store.{
  ValueRef, F64, nan, infinite, finite, CValueKind, CValueInfo, ValueStore, get, param, temp,
  int_const, uint_const, float_const, bool_const, null_ptr, undef, poison, global, function,
  struct_const, vector_const, byte_string, string_literal, ptr_offset, inline_expr,
}
use rustc_codegen_c.Values.Render.{
  render_int_const, render_uint_const, render_float_const, contains, i64_min, i64_max, u64_max,
  render_kind, render_fuel, render,
}

-- The texts that a value copies have matching brackets, and the signature of a function is one of
-- the first `n` types.
abbrev pub KindSound : ℕ → CValueKind → Type 0
KindSound n (float_const (finite s)) = IsBalanced s
KindSound n (global name) = IsBalanced name
KindSound n (function name sig) = IsBalanced name × (sig < n)
KindSound n (vector_const elements type_str) = IsBalanced type_str
KindSound n (inline_expr expr) = IsBalanced expr
KindSound n _ = Unit

show_ℤ-IsBalanced : (z : ℤ) → IsBalanced (show_ℤ z)
unfolding show_ℤ
show_ℤ-IsBalanced (pos n) = show-IsBalanced n
show_ℤ-IsBalanced (negsuc n) = λ st. show-IsBalanced (suc n) st

int_const-IsBalanced : (z : ℤ) → IsBalanced (render_int_const z)
unfolding render_int_const
int_const-IsBalanced z =
    both_branches IsBalanced (ltb_ℤ i64_min z && leb_ℤ z i64_max)
      (append-IsBalanced (show_ℤ z) (str "LL") (show_ℤ-IsBalanced z) λ st. refl)
      (both_branches IsBalanced (eq_ℤ z i64_min) (λ st. refl)
        λ st.
          scan_over (show (to_u128 z / 2 ^ 64)) _ _ (show-IsBalanced (to_u128 z / 2 ^ 64))
          ∙ scan_over (show (to_u128 z % 2 ^ 64)) _ _ (show-IsBalanced (to_u128 z % 2 ^ 64)))

uint_const-IsBalanced : (u : ℕ) → IsBalanced (render_uint_const u)
unfolding render_uint_const
uint_const-IsBalanced u =
    both_branches IsBalanced (leb u u64_max)
      (append-IsBalanced (show u) (str "ULL") (show-IsBalanced u) λ st. refl)
      λ st.
        scan_over (show (u / 2 ^ 64)) _ _ (show-IsBalanced (u / 2 ^ 64))
        ∙ scan_over (show (u % 2 ^ 64)) _ _ (show-IsBalanced (u % 2 ^ 64))

float_const-IsBalanced :
    (n : ℕ) (f : F64) → KindSound n (float_const f) → IsBalanced (render_float_const f)
unfolding render_float_const
float_const-IsBalanced n nan h = λ st. refl
float_const-IsBalanced n (infinite true) h = λ st. refl
float_const-IsBalanced n (infinite false) h = λ st. refl
float_const-IsBalanced n (finite s) h =
    both_branches IsBalanced (contains s b'.' || contains s b'e' || contains s b'E') h
      (append-IsBalanced s (str ".0") h λ st. refl)

traverse-Gives :
    (rec : ValueRef → Outcome Text) (vs : List ValueRef)
    → ((v : ValueRef) → Gives IsBalanced (rec v))
    → Gives (All IsBalanced) (traverse rec vs)
unfolding traverse
traverse-Gives rec [] h = tt
traverse-Gives rec (v ∷ vs) h = Gives-bind IsBalanced (All IsBalanced) (rec v) _ (h v) λ x hx.
    Gives-bind (All IsBalanced) (All IsBalanced) (traverse rec vs) _ (traverse-Gives rec vs h)
      λ xs hxs. (hx, hxs)

commas-IsBalanced : (xs : List Text) → All IsBalanced xs → IsBalanced (join (str ", ") xs)
commas-IsBalanced xs h = join-IsBalanced (str ", ") xs (λ st. refl) h

render_kind-Gives :
    (rec : ValueRef → Outcome Text) (n : ℕ) (k : CValueKind)
    → ((v : ValueRef) → Gives IsBalanced (rec v))
    → KindSound n k
    → Gives IsBalanced (render_kind rec k)
unfolding render_kind
render_kind-Gives rec n (param index) ih h = λ st. show-IsBalanced index st
render_kind-Gives rec n (temp id) ih h = λ st. show-IsBalanced id st
render_kind-Gives rec n (int_const i) ih h = int_const-IsBalanced i
render_kind-Gives rec n (uint_const u) ih h = uint_const-IsBalanced u
render_kind-Gives rec n (float_const f) ih h = float_const-IsBalanced n f h
render_kind-Gives rec n (bool_const true) ih h = λ st. refl
render_kind-Gives rec n (bool_const false) ih h = λ st. refl
render_kind-Gives rec n null_ptr ih h = λ st. refl
render_kind-Gives rec n undef ih h = λ st. refl
render_kind-Gives rec n poison ih h = λ st. refl
render_kind-Gives rec n (global name) ih h = h
render_kind-Gives rec n (function name sig) ih h = h.0
render_kind-Gives rec n (struct_const fields) ih h =
    Gives-bind (All IsBalanced) IsBalanced (traverse rec fields) _ (traverse-Gives rec fields ih)
      λ xs hxs st. scan_over (join (str ", ") xs) _ _ (commas-IsBalanced xs hxs)
render_kind-Gives rec n (vector_const elements type_str) ih h =
    Gives-bind (All IsBalanced) IsBalanced (traverse rec elements) _
      (traverse-Gives rec elements ih)
      λ xs hxs st.
        scan_over type_str _ _ h ∙ scan_over (join (str ", ") xs) _ _ (commas-IsBalanced xs hxs)
render_kind-Gives rec n (byte_string bytes id) ih h = λ st. show-IsBalanced id st
render_kind-Gives rec n (string_literal text id) ih h = λ st. show-IsBalanced id st
render_kind-Gives rec n (ptr_offset base offset) ih h =
    Gives-bind IsBalanced IsBalanced (rec base) _ (ih base)
      λ x hx st. scan_over x _ _ hx ∙ scan_over (show offset) _ _ (show-IsBalanced offset)
render_kind-Gives rec n (inline_expr expr) ih h = h

-- Every value of the store is sound.
abbrev pub KindsSound : ℕ → ValueStore → Type 0
KindsSound n s =
    (v : ValueRef) (info : CValueInfo) → get_elem? s.values v ≡ some info → KindSound n info.kind

module _ (n : ℕ) (s : ValueStore) (sound : KindsSound n s) where
  render_fuel-Gives : (f : ℕ) (v : ValueRef) → Gives IsBalanced (render_fuel f s v)
  unfolding render_fuel get
  render_fuel-Gives zero v = tt
  render_fuel-Gives (suc f) v = elim (Option-cases (get_elem? s.values v)) [
    | inl missing ↦ rw missing tt
    | inr (info, e) ↦
        rw e
          (render_kind-Gives (render_fuel f s) n info.kind (render_fuel-Gives f) (sound v info e))
  ]

  -- The spelling of a value has matching brackets.
  pub render-IsBalanced : (v : ValueRef) {x : Text} → render s v ≡ ok x → IsBalanced x
  unfolding render
  render-IsBalanced v e =
      Gives-ok IsBalanced (render s v) (render_fuel-Gives (suc (length s.values)) v) e
