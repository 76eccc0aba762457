-- ===== src/Values/Store.antt =====
-- src/values.rs: the store of values. A `&mut self` method returns the new store.
use rustc_codegen_c.Prelude.{
  ℕ, ◌+◌, ◌%◌, ◌^◌, Bool, List, [], ◌∷◌, ◌++◌, Option, none, some, ltb, if◌then◌else◌, length,
  get_elem?,
}
use rustc_codegen_c.Prelude.Text.{Text}
use rustc_codegen_c.Prelude.Int.{ℤ, pos, to_u128, leb_ℤ}
use rustc_codegen_c.Prelude.Outcome.{Outcome, ok, ◌>>=◌, expect}
use rustc_codegen_c.Types.Kind.{TypeRef}

-- `ValueRef(u32)`, an index into the store.
abbrev pub ValueRef : Type 0
ValueRef = ℕ

-- A `f64` by its class: NaN, an infinity (positive or not), or a finite number with the text that
-- `format!("{f}")` gives for it.
pub data F64 : Type 0 where
  nan : F64
  infinite : Bool → F64
  finite : Text → F64

pub data CValueKind : Type 0 where
  param : ℕ → CValueKind
  temp : ℕ → CValueKind
  int_const : ℤ → CValueKind
  uint_const : ℕ → CValueKind
  float_const : F64 → CValueKind
  bool_const : Bool → CValueKind
  null_ptr : CValueKind
  undef : CValueKind
  poison : CValueKind
  global : Text → CValueKind
  function : Text → TypeRef → CValueKind
  struct_const : List ValueRef → CValueKind
  vector_const : List ValueRef → Text → CValueKind
  byte_string : List ℕ → ℕ → CValueKind
  string_literal : Text → ℕ → CValueKind
  ptr_offset : ValueRef → ℕ → CValueKind
  inline_expr : Text → CValueKind

pub record CValueInfo : Type 0 where
  pub kind : CValueKind
  pub ty : TypeRef

pub record ValueStore : Type 0 where
  pub values : List CValueInfo
  pub temp_counter : ℕ
  pub byte_string_counter : ℕ
  pub string_literal_counter : ℕ

unfoldable pub new : ValueStore
new = record { values = []; temp_counter = 0; byte_string_counter = 0; string_literal_counter = 0 }

unfoldable pub alloc : ValueStore → CValueKind → TypeRef → ValueStore × ValueRef
alloc s kind ty = (
  record s { values = s.values ++ (record { kind = kind; ty = ty }) ∷ [] },
  length s.values % 2 ^ 32,
)

-- The counters are `u32` and wrap.
unfoldable pub next_temp : ValueStore → TypeRef → ValueStore × ValueRef
next_temp s ty =
    let id = s.temp_counter in
    alloc (record s { temp_counter = (s.temp_counter + 1) % 2 ^ 32 }) (temp id) ty

unfoldable pub next_byte_string : ValueStore → List ℕ → TypeRef → ValueStore × ValueRef
next_byte_string s bytes ty =
    let id = s.byte_string_counter in
    alloc (record s { byte_string_counter = (s.byte_string_counter + 1) % 2 ^ 32 })
      (byte_string bytes id) ty

unfoldable pub next_string_literal : ValueStore → Text → TypeRef → ValueStore × ValueRef
next_string_literal s text ty =
    let id = s.string_literal_counter in
    alloc (record s { string_literal_counter = (s.string_literal_counter + 1) % 2 ^ 32 })
      (string_literal text id) ty

unfoldable pub get : ValueStore → ValueRef → Outcome CValueInfo
get s v = expect (get_elem? s.values v)

unfoldable pub get_type : ValueStore → ValueRef → Outcome TypeRef
get_type s v = get s v >>= λ info. ok info.ty

abbrev pub kind_fn_sig : CValueKind → Option TypeRef
kind_fn_sig (function name sig) = some sig
kind_fn_sig _ = none

unfoldable pub get_fn_sig : ValueStore → ValueRef → Outcome (Option TypeRef)
get_fn_sig s v = get s v >>= λ info. ok (kind_fn_sig info.kind)

-- `u64::try_from(n).ok()`
abbrev pub fit_u64 : ℕ → Option ℕ
fit_u64 n = if ltb n (2 ^ 64) then some n else none

abbrev pub kind_as_u64 : CValueKind → Option ℕ
kind_as_u64 (uint_const u) = fit_u64 u
kind_as_u64 (int_const (pos n)) = fit_u64 n
kind_as_u64 (bool_const b) = some (if b then 1 else 0)
kind_as_u64 _ = none

unfoldable pub as_u64 : ValueStore → ValueRef → Outcome (Option ℕ)
as_u64 s v = get s v >>= λ info. ok (kind_as_u64 info.kind)

abbrev pub kind_as_u128 : CValueKind → Bool → Option ℕ
kind_as_u128 (uint_const u) sign_ext = some u
kind_as_u128 (int_const i) sign_ext =
    if sign_ext then some (to_u128 i) else if leb_ℤ (pos 0) i then some (to_u128 i) else none
kind_as_u128 (bool_const b) sign_ext = some (if b then 1 else 0)
kind_as_u128 _ sign_ext = none

unfoldable pub as_u128 : ValueStore → ValueRef → Bool → Outcome (Option ℕ)
as_u128 s v sign_ext = get s v >>= λ info. ok (kind_as_u128 info.kind sign_ext)
