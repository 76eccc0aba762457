-- ===== src/Builder/Queries.antt =====
-- src/types.rs: the types that code generation asks the context for, and what it asks about a type.
-- The width of pointers in bits, which rustc's data layout gives, is a parameter.
use rustc_codegen_c.Prelude.{ℕ, ◌/◌, ◌%◌, ◌^◌, true, false, List, if◌then◌else◌, ◌==◌}
use rustc_codegen_c.Prelude.Outcome.{Outcome, ok, panic}
use rustc_codegen_c.Types.Kind.{TypeRef, CTypeKind, bool, int, ptr, ptr_width}
use rustc_codegen_c.Values.Store.{ValueRef}
use rustc_codegen_c.Builder.State.{Build, ◌>>=◌, give, ask, get_type, get_kind, intern_type}

unfoldable pub type_i8 : Build TypeRef
type_i8 = intern_type (int 8 true)

unfoldable pub type_i16 : Build TypeRef
type_i16 = intern_type (int 16 true)

unfoldable pub type_i32 : Build TypeRef
type_i32 = intern_type (int 32 true)

unfoldable pub type_i64 : Build TypeRef
type_i64 = intern_type (int 64 true)

unfoldable pub type_i128 : Build TypeRef
type_i128 = intern_type (int 128 true)

unfoldable pub type_isize : Build TypeRef
type_isize = intern_type (ptr_width true)

unfoldable pub type_f16 : Build TypeRef
type_f16 = intern_type (CTypeKind.float 16)

unfoldable pub type_f32 : Build TypeRef
type_f32 = intern_type (CTypeKind.float 32)

unfoldable pub type_f64 : Build TypeRef
type_f64 = intern_type (CTypeKind.float 64)

unfoldable pub type_f128 : Build TypeRef
type_f128 = intern_type (CTypeKind.float 128)

unfoldable pub type_array : TypeRef → ℕ → Build TypeRef
type_array ty len = intern_type (CTypeKind.array ty len)

unfoldable pub type_func : List TypeRef → TypeRef → Build TypeRef
type_func args ret = intern_type (CTypeKind.function ret args false)

unfoldable pub type_ptr : Build TypeRef
type_ptr = intern_type ptr

-- The kinds of types that rustc tells apart, those that the code answers with.
pub data TypeKind : Type 0 where
  void integer half float double fp128 pointer array struct function scalable_vector : TypeKind

abbrev pub float_kind : ℕ → TypeKind
float_kind bits =
    if bits == 16
    then TypeKind.half
    else if bits == 64
    then TypeKind.double
    else if bits == 128
    then TypeKind.fp128
    else TypeKind.float

abbrev pub kind_of : CTypeKind → TypeKind
kind_of CTypeKind.void = TypeKind.void
kind_of bool = TypeKind.integer
kind_of (int bits signed) = TypeKind.integer
kind_of (CTypeKind.float bits) = float_kind bits
kind_of ptr = TypeKind.pointer
kind_of (CTypeKind.array element len) = TypeKind.array
kind_of (CTypeKind.struct fields packed name) = TypeKind.struct
kind_of (CTypeKind.function ret args variadic) = TypeKind.function
kind_of (CTypeKind.vector element len) = TypeKind.scalable_vector
kind_of (ptr_width signed) = TypeKind.integer

unfoldable pub type_kind : TypeRef → Build TypeKind
type_kind ty = do kind ← get_kind ty; give (kind_of kind)

-- A query that panics on the kinds that it does not know.
abbrev pub query : {A : Type 0} → (CTypeKind → Outcome A) → TypeRef → Build A
query f ty = do kind ← get_kind ty; ask λ _. f kind

abbrev pub element_of : CTypeKind → Outcome TypeRef
element_of (CTypeKind.array element len) = ok element
element_of (CTypeKind.vector element len) = ok element
element_of _ = panic

unfoldable pub element_type : TypeRef → Build TypeRef
element_type ty = query element_of ty

abbrev pub length_of : CTypeKind → Outcome ℕ
length_of (CTypeKind.vector element len) = ok len
length_of _ = panic

unfoldable pub vector_length : TypeRef → Build ℕ
vector_length ty = query length_of ty

abbrev pub float_width_of : CTypeKind → Outcome ℕ
float_width_of (CTypeKind.float bits) = ok bits
float_width_of _ = panic

unfoldable pub float_width : TypeRef → Build ℕ
float_width ty = query float_width_of ty

abbrev pub int_width_of : ℕ → CTypeKind → Outcome ℕ
int_width_of pointer_bits bool = ok 1
int_width_of pointer_bits (int bits signed) = ok bits
int_width_of pointer_bits (ptr_width signed) = ok pointer_bits
int_width_of pointer_bits ptr = ok pointer_bits
int_width_of pointer_bits _ = panic

unfoldable pub int_width : ℕ → TypeRef → Build ℕ
int_width pointer_bits ty = query (int_width_of pointer_bits) ty

unfoldable pub val_ty : ValueRef → Build TypeRef
val_ty v = get_type v

-- rustc's `RegKind`: how a register is used to pass a value.
pub data RegKind : Type 0 where
  integer float vector : RegKind

-- A register by its kind and its size in bits. A `u32` keeps the width.
unfoldable pub reg_backend_type : RegKind → ℕ → Build TypeRef
reg_backend_type RegKind.integer bits = intern_type (int (bits % 2 ^ 32) true)
reg_backend_type RegKind.float bits = intern_type (CTypeKind.float (bits % 2 ^ 32))
reg_backend_type RegKind.vector bits = do
  elem ← intern_type (int 8 true)
  intern_type (CTypeKind.vector elem (bits / 8))
