-- ===== src/Consts/Values.antt =====
-- src/consts.rs: scalar constants. The width of pointers in bits, which rustc's data layout gives,
-- is a parameter.
use rustc_codegen_c.Prelude.{ℕ, Bool, true, false, Option, none, some}
use rustc_codegen_c.Prelude.Int.{ℤ}
use rustc_codegen_c.Prelude.Outcome.{ok}
use rustc_codegen_c.Types.Kind.{TypeRef, CTypeKind, bool, int, ptr_width}
use rustc_codegen_c.Values.Store.{
  ValueRef, CValueKind, null_ptr, undef, poison, bool_const, int_const, uint_const, float_const,
  F64, alloc,
}
use rustc_codegen_c.Builder.State.{Build, ◌>>=◌, get_kind, intern_type}
use rustc_codegen_c.Consts.Signed.{sign_extend_to_i128}

-- `intern_value`
unfoldable pub intern_value : CValueKind → TypeRef → Build ValueRef
intern_value kind ty b = let r = alloc b.values kind ty in ok (r.1, record b { values = r.0 })

unfoldable pub const_null : TypeRef → Build ValueRef
const_null t = intern_value null_ptr t

unfoldable pub const_undef : TypeRef → Build ValueRef
const_undef t = intern_value undef t

unfoldable pub const_poison : TypeRef → Build ValueRef
const_poison t = intern_value poison t

unfoldable pub const_bool : Bool → Build ValueRef
const_bool val = do ty ← intern_type bool; intern_value (bool_const val) ty

-- A signed constant of a type of `bits` bits that is interned for it.
abbrev signed_const : ℕ → ℤ → Build ValueRef
signed_const bits i = do ty ← intern_type (int bits true); intern_value (int_const i) ty

abbrev unsigned_const : ℕ → ℕ → Build ValueRef
unsigned_const bits i = do ty ← intern_type (int bits true); intern_value (uint_const i) ty

unfoldable pub const_i8 : ℤ → Build ValueRef
const_i8 i = signed_const 8 i

unfoldable pub const_i16 : ℤ → Build ValueRef
const_i16 i = signed_const 16 i

unfoldable pub const_i32 : ℤ → Build ValueRef
const_i32 i = signed_const 32 i

unfoldable pub const_int : TypeRef → ℤ → Build ValueRef
const_int t i = intern_value (int_const i) t

unfoldable pub const_u8 : ℕ → Build ValueRef
const_u8 i = unsigned_const 8 i

unfoldable pub const_u32 : ℕ → Build ValueRef
const_u32 i = unsigned_const 32 i

unfoldable pub const_u64 : ℕ → Build ValueRef
const_u64 i = unsigned_const 64 i

unfoldable pub const_u128 : ℕ → Build ValueRef
const_u128 i = unsigned_const 128 i

-- `const_usize`
unfoldable pub const_usize : ℕ → Build ValueRef
const_usize i = do ty ← intern_type (ptr_width false); intern_value (uint_const i) ty

unfoldable pub const_real : TypeRef → F64 → Build ValueRef
const_real t val = intern_value (float_const val) t

-- `signed_bits`
abbrev pub signed_bits : ℕ → CTypeKind → Option ℕ
signed_bits pointer_bits (int bits true) = some bits
signed_bits pointer_bits (ptr_width true) = some pointer_bits
signed_bits pointer_bits _ = none

-- The constant of the bits `u`, by the width of its type if that is signed.
abbrev pub bits_const : ℕ → Option ℕ → CValueKind
bits_const u (some bits) = int_const (sign_extend_to_i128 u bits)
bits_const u none = uint_const u

unfoldable pub const_uint_big : ℕ → TypeRef → ℕ → Build ValueRef
const_uint_big pointer_bits t u = do
  kind ← get_kind t
  intern_value (bits_const u (signed_bits pointer_bits kind)) t

-- The same code as `const_uint_big`, for a `u64`.
unfoldable pub const_uint : ℕ → TypeRef → ℕ → Build ValueRef
const_uint pointer_bits t i = do
  kind ← get_kind t
  intern_value (bits_const i (signed_bits pointer_bits kind)) t
