-- ===== src/Safe/Sound.antt =====
-- src/builder.rs: the invariant of a builder with the cells of its context, and what a call leaves
-- as it is.
use rustc_codegen_c.Prelude.{
  ℕ, ◌≤◌, ◌<◌, ◌≡◌, List, some, All, All-map, length, get_elem?, get_elem?-lt, get_elem?_total,
  arith,
}
use rustc_codegen_c.Prelude.Text.{Text}
use rustc_codegen_c.Prelude.Brackets.{IsBalanced}
use rustc_codegen_c.Types.Kind.{TypeRef, CTypeKind}
use rustc_codegen_c.Types.Store.{index_of}
use rustc_codegen_c.Types.Brackets.{NamesBalanced}
use rustc_codegen_c.Types.Total.{IsClosed}
use rustc_codegen_c.Values.Store.{ValueRef, CValueKind, CValueInfo, F64}
use rustc_codegen_c.Values.Total as Values
use rustc_codegen_c.Module.Function.{FunctionDef}
use rustc_codegen_c.Module.Balance.{FunctionBalanced}
use rustc_codegen_c.Module.Source.{CModule}
use rustc_codegen_c.Module.Wellformed.{ModuleBalanced}
use rustc_codegen_c.Builder.State.{Builder, current_function}
use rustc_codegen_c.Safe.Values.{KindSound}

-- Over `n` types: the texts that the function copies have matching brackets, and the types that it
-- names are in the store.
pub record FunctionSound (n : ℕ) (f : FunctionDef) : Type 0 where
  pub balanced : FunctionBalanced f
  pub ret : f.return_type < n
  pub params : All (λ p. p.0 < n) f.params
  pub ret_data : (ty : TypeRef) → f.ret_data_type ≡ some ty → ty < n
  pub retbuf : (name : Text) → f.retbuf_name ≡ some name → IsBalanced name

-- Over `n` types: the value's type is in the store and the texts that it copies have matching
-- brackets.
abbrev pub ValueSound : ℕ → CValueInfo → Type 0
ValueSound n info = (info.ty < n) × KindSound n info.kind

-- The invariant: types and values refer to earlier ones, what the index of types leads to is in the
-- store, and so are the types of all values and of the open functions, whose texts have matching
-- brackets.
pub record IsSound (b : Builder) : Type 0 where
  pub types : IsClosed b.types
  pub index : (k : CTypeKind) (i : TypeRef) → index_of b.types k ≡ some i → i < length b.types.types
  pub names : NamesBalanced b.types
  pub values : Values.IsClosed b.values
  pub sound :
      (v : ValueRef) (info : CValueInfo)
      → get_elem? b.values.values v ≡ some info
      → ValueSound (length b.types.types) info
  pub functions : All (λ p. FunctionSound (length b.types.types) p.1) b.c_module.open_functions

abbrev pub HasType : Builder → TypeRef → Type 0
HasType b ty = ty < length b.types.types

abbrev pub HasValue : Builder → ValueRef → Type 0
HasValue b v = v < length b.values.values

abbrev pub IsOpen : Builder → Type 0
IsOpen b = (f : FunctionDef) × (current_function b ≡ some f)

-- A call leaves the types and the values where they are, the current function open, and the texts of
-- the module that are written already with matching brackets.
pub record Grows (b b' : Builder) : Type 0 where
  pub types :
      (i : TypeRef) (k : CTypeKind)
      → get_elem? b.types.types i ≡ some k
      → get_elem? b'.types.types i ≡ some k
  pub values :
      (v : ValueRef) (info : CValueInfo)
      → get_elem? b.values.values v ≡ some info
      → get_elem? b'.values.values v ≡ some info
  pub opened : IsOpen b → IsOpen b'
  pub balanced : ModuleBalanced b.c_module → ModuleBalanced b'.c_module

pub Grows-refl : {b : Builder} → Grows b b
Grows-refl = record {
  types = λ i k h. h;
  values = λ v info h. h;
  opened = λ o. o;
  balanced = λ h. h;
}

pub Grows-trans : {b b' b'' : Builder} → Grows b b' → Grows b' b'' → Grows b b''
Grows-trans g h = record {
  types = λ i k e. h.types i k (g.types i k e);
  values = λ v info e. h.values v info (g.values v info e);
  opened = λ o. h.opened (g.opened o);
  balanced = λ m. h.balanced (g.balanced m);
}

pub HasType-Grows : {b b' : Builder} {ty : TypeRef} → Grows b b' → HasType b ty → HasType b' ty
HasType-Grows {b = b} {b' = b'} {ty = ty} g h =
    let (k, e) = get_elem?_total b.types.types ty h in
    get_elem?-lt b'.types.types ty (g.types ty k e)

pub HasValue-Grows : {b b' : Builder} {v : ValueRef} → Grows b b' → HasValue b v → HasValue b' v
HasValue-Grows {b = b} {b' = b'} {v = v} g h =
    let (info, e) = get_elem?_total b.values.values v h in
    get_elem?-lt b'.values.values v (g.values v info e)

pub KindSound-mono : (m n : ℕ) (kind : CValueKind) → m ≤ n → KindSound m kind → KindSound n kind
KindSound-mono m n (CValueKind.function name sig) le (h, s) = (h, omega arith)
KindSound-mono m n (CValueKind.float_const (F64.finite s)) le h = h
KindSound-mono m n (CValueKind.global name) le h = h
KindSound-mono m n (CValueKind.vector_const elements type_str) le h = h
KindSound-mono m n (CValueKind.inline_expr expr) le h = h
KindSound-mono m n _ le h = tt

pub FunctionSound-mono : (m n : ℕ) (f : FunctionDef) → m ≤ n → FunctionSound m f → FunctionSound n f
FunctionSound-mono m n f le h = record {
  balanced = h.balanced;
  ret = (let lt = h.ret in omega arith);
  params = All-map f.params (λ p lt. omega arith) h.params;
  ret_data = λ ty e. let lt = h.ret_data ty e in omega arith;
  retbuf = h.retbuf;
}

-- The open functions are no text of the module.
pub ModuleBalanced-with_open :
    (m : CModule) (fns : List (Text × FunctionDef)) (owners : List (ℕ × Text))
    → ModuleBalanced m
    → ModuleBalanced (record m { open_functions = fns; block_to_function = owners })
ModuleBalanced-with_open m fns owners h = record {
  types = h.types;
  struct_defs = h.struct_defs;
  global_extern_decls = h.global_extern_decls;
  global_decls = h.global_decls;
  function_decls = h.function_decls;
  function_defs = h.function_defs;
  data_sections = h.data_sections;
  constructor_defs = h.constructor_defs;
  precompiled = h.precompiled;
}
