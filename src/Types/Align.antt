-- ===== src/Types/Align.antt =====
-- src/types.rs: the alignment that the C compiler gives a type. Fuel as in `Types/Render`.
use rustc_codegen_c.Prelude.{
  ℕ, zero, suc, ◌*◌, ◌/◌, ◌%◌, ◌^◌, max, true, false, List, [], ◌∷◌, leb, if◌then◌else◌, length,
}
use rustc_codegen_c.Prelude.Outcome.{Outcome, ok, diverge, ◌>>=◌, traverse}
use rustc_codegen_c.Types.Kind.{
  TypeRef, CTypeKind, c_bits, void, bool, int, float, ptr, array, struct, function, vector,
  ptr_width,
}
use rustc_codegen_c.Types.Store.{TypeStore, get}

-- `u64::next_power_of_two`: the first power of two that is not below `n`; past 2^63 the result
-- wraps to 0. `grow` tries the powers from `p` on.
unfoldable pub grow : ℕ → ℕ → ℕ → ℕ
grow zero p n = 0
grow (suc f) p n = let more = grow f (2 * p) n in if leb n p then p else more

unfoldable pub next_power_of_two : ℕ → ℕ
unfolding grow
next_power_of_two n = grow 64 1 n

-- `iter().max().unwrap_or(1)`
abbrev pub max_from : ℕ → List ℕ → ℕ
max_from m [] = m
max_from m (x ∷ xs) = max_from (max m x) xs

abbrev pub max_or_one : List ℕ → ℕ
max_or_one [] = 1
max_or_one (x ∷ xs) = max_from x xs

unfoldable pub align_kind : (TypeRef → Outcome ℕ) → ℕ → CTypeKind → Outcome ℕ
align_kind rec pointer_bytes void = ok 1
align_kind rec pointer_bytes bool = ok 1
align_kind rec pointer_bytes (int bits signed) = ok (max (c_bits bits / 8) 1)
align_kind rec pointer_bytes (float bits) = ok (max (bits / 8) 1)
align_kind rec pointer_bytes ptr = ok pointer_bytes
align_kind rec pointer_bytes (ptr_width signed) = ok pointer_bytes
align_kind rec pointer_bytes (array element len) = rec element
align_kind rec pointer_bytes (vector element len) = do
  elem_bytes ← rec element
  ok (next_power_of_two (elem_bytes * len % 2 ^ 64))
align_kind rec pointer_bytes (struct fields true name) = ok 1
align_kind rec pointer_bytes (struct fields false name) = do
  aligns ← traverse rec fields
  ok (max_or_one aligns)
align_kind rec pointer_bytes (function ret args variadic) = ok pointer_bytes

unfoldable pub align_fuel : ℕ → TypeStore → ℕ → TypeRef → Outcome ℕ
align_fuel zero s pointer_bytes ty = diverge
align_fuel (suc f) s pointer_bytes ty =
    get s ty >>= align_kind (align_fuel f s pointer_bytes) pointer_bytes

unfoldable pub natural_align_bytes : TypeStore → TypeRef → ℕ → Outcome ℕ
natural_align_bytes s ty pointer_bytes = align_fuel (suc (length s.types)) s pointer_bytes ty
