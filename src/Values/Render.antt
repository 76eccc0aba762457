-- ===== src/Values/Render.antt =====
-- src/values.rs: the C spelling of values. Constants refer to other values by index, so the
-- recursion takes fuel, as for types.
use rustc_codegen_c.Prelude.{
  ℕ, zero, suc, ◌-◌, ◌/◌, ◌%◌, ◌^◌, Bool, false, ◌&&◌, ◌||◌, [], ◌∷◌, ◌++◌, ◌==◌, leb,
  if◌then◌else◌, length,
}
use rustc_codegen_c.Prelude.Text.{Text, str, fmt, join}
use rustc_codegen_c.Prelude.Int.{ℤ, pos, negsuc, ltb_ℤ, leb_ℤ, eq_ℤ, show_ℤ, to_u128}
use rustc_codegen_c.Prelude.Decimal.{show}
use rustc_codegen_c.Prelude.Outcome.{Outcome, ok, diverge, ◌>>=◌, traverse}
use rustc_codegen_c.Values.Store.{
  ValueRef, F64, nan, infinite, finite, CValueKind, ValueStore, get, param, temp, int_const,
  uint_const, float_const, bool_const, null_ptr, undef, poison, global, function, struct_const,
  vector_const, byte_string, string_literal, ptr_offset, inline_expr,
}

abbrev pub i64_min : ℤ
i64_min = negsuc (2 ^ 63 - 1)

abbrev pub i64_max : ℤ
i64_max = pos (2 ^ 63 - 1)

abbrev pub u64_max : ℕ
u64_max = 2 ^ 64 - 1

unfoldable pub render_int_const : ℤ → Text
render_int_const i =
    if ltb_ℤ i64_min i && leb_ℤ i i64_max
    then show_ℤ i ++ str "LL"
    else if eq_ℤ i i64_min
    then str "(-9223372036854775807LL - 1LL)"
    else let bits = to_u128 i in
      let lo = bits % 2 ^ 64 in
      let hi = bits / 2 ^ 64 in
      fmt
        (str "((int128_t)((uint128_t)" ∷ show hi ∷ str "ULL << 64 | " ∷ show lo ∷ str "ULL))" ∷ [])

unfoldable pub render_uint_const : ℕ → Text
render_uint_const u =
    if leb u u64_max
    then show u ++ str "ULL"
    else let lo = u % 2 ^ 64 in
      let hi = u / 2 ^ 64 in
      fmt (str "((uint128_t)" ∷ show hi ∷ str "ULL << 64 | " ∷ show lo ∷ str "ULL)" ∷ [])

-- `s.contains(c)`
abbrev pub contains : Text → ℕ → Bool
contains [] c = false
contains (d ∷ t) c = d == c || contains t c

unfoldable pub render_float_const : F64 → Text
render_float_const nan = str "NAN"
render_float_const (infinite positive) = if positive then str "INFINITY" else str "(-INFINITY)"
render_float_const (finite s) =
    if contains s b'.' || contains s b'e' || contains s b'E' then s else s ++ str ".0"

-- One round of `render`: `rec` is the recursive call.
unfoldable pub render_kind : (ValueRef → Outcome Text) → CValueKind → Outcome Text
render_kind rec (param index) = ok (str "_arg" ++ show index)
render_kind rec (temp id) = ok (str "_t" ++ show id)
render_kind rec (int_const i) = ok (render_int_const i)
render_kind rec (uint_const u) = ok (render_uint_const u)
render_kind rec (float_const f) = ok (render_float_const f)
render_kind rec (bool_const b) = ok (if b then str "1" else str "0")
render_kind rec null_ptr = ok (str "0")
render_kind rec undef = ok (str "0 /* undef */")
render_kind rec poison = ok (str "0 /* undef */")
render_kind rec (global name) = ok name
render_kind rec (function name sig) = ok name
render_kind rec (struct_const fields) = do
  elts ← traverse rec fields
  ok (fmt (str "{ " ∷ join (str ", ") elts ∷ str " }" ∷ []))
render_kind rec (vector_const elements type_str) = do
  elts ← traverse rec elements
  ok (fmt (str "(" ∷ type_str ∷ str "){ .v = { " ∷ join (str ", ") elts ∷ str " } }" ∷ []))
render_kind rec (byte_string bytes id) = ok (str "_bytes" ++ show id)
render_kind rec (string_literal text id) = ok (str "_str" ++ show id)
render_kind rec (ptr_offset base offset) = do
  b ← rec base
  ok (fmt (str "((char *)" ∷ b ∷ str " + " ∷ show offset ∷ str ")" ∷ []))
render_kind rec (inline_expr expr) = ok expr

unfoldable pub render_fuel : ℕ → ValueStore → ValueRef → Outcome Text
render_fuel zero s v = diverge
render_fuel (suc f) s v = get s v >>= λ info. render_kind (render_fuel f s) info.kind

unfoldable pub render : ValueStore → ValueRef → Outcome Text
render s v = render_fuel (suc (length s.values)) s v
