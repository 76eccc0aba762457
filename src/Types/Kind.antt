-- ===== src/Types/Kind.antt =====
-- src/types.rs: the kinds of C types.
use rustc_codegen_c.Prelude.{ℕ, Bool, Option, List, leb, if◌then◌else◌, ℕ_discrete}
use rustc_codegen_c.Prelude.Text.{Text}

-- `TypeRef(u32)`, an index into the store.
abbrev pub TypeRef : Type 0
TypeRef = ℕ

-- int bits signed, float bits, array element len, struct fields packed name,
-- function ret args variadic, vector element len, ptr_width signed
pub data CTypeKind : Type 0 where
  void : CTypeKind
  bool : CTypeKind
  int : ℕ → Bool → CTypeKind
  float : ℕ → CTypeKind
  ptr : CTypeKind
  array : TypeRef → ℕ → CTypeKind
  struct : List TypeRef → Bool → Option Text → CTypeKind
  function : TypeRef → List TypeRef → Bool → CTypeKind
  vector : TypeRef → ℕ → CTypeKind
  ptr_width : Bool → CTypeKind

unfoldable pub CTypeKind-discrete : Discrete CTypeKind
CTypeKind-discrete = hlevel ℕ_discrete

-- The next width that C has: `match bits { 0..=8 => 8, … }`.
unfoldable pub c_bits : ℕ → ℕ
c_bits bits =
    if leb bits 8
    then 8
    else if leb bits 16
    then 16
    else if leb bits 32
    then 32
    else if leb bits 64
    then 64
    else 128
