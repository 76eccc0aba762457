-- ===== src/Types/Defs.antt =====
-- src/types.rs: the definitions of unnamed structs and of vectors in the preamble of a C file.
use rustc_codegen_c.Prelude.{ℕ, suc, Bool, List, [], ◌∷◌, ◌++◌, none, if◌then◌else◌}
use rustc_codegen_c.Prelude.Text.{Text, str, fmt, join, newline}
use rustc_codegen_c.Prelude.Decimal.{show}
use rustc_codegen_c.Prelude.Outcome.{Outcome, ok, ◌>>=◌}
use rustc_codegen_c.Types.Kind.{TypeRef, CTypeKind, ptr, struct, vector, ptr_width}
use rustc_codegen_c.Types.Store.{TypeStore, get}
use rustc_codegen_c.Types.Render.{render, render_decl}

-- The lines of the fields from number `j` on.
unfoldable pub field_lines : TypeStore → ℕ → List TypeRef → Outcome (List Text)
field_lines s j [] = ok []
field_lines s j (f ∷ fs) = do
  decl ← render_decl s f (str "f" ++ show j)
  rest ← field_lines s (suc j) fs
  ok (fmt (str "  " ∷ decl ∷ str ";" ∷ []) ∷ rest)

unfoldable pub struct_def : ℕ → Bool → List Text → Text
struct_def i packed fields_str =
    let body = fmt (
      str "struct _S"
      ∷ show i
      ∷ str " {"
      ∷ newline
      ∷ join newline fields_str
      ∷ newline
      ∷ str "};"
      ∷ []) in
    if packed
    then fmt (str "#pragma pack(push, 1)" ∷ newline ∷ body ∷ newline ∷ str "#pragma pack(pop)" ∷ [])
    else body

-- The spelling of a vector's element: pointers stand as integers.
unfoldable pub vector_elem : TypeStore → TypeRef → CTypeKind → Outcome Text
vector_elem s element ptr = ok (str "__rustc_usize")
vector_elem s element (ptr_width signed) = ok (str "__rustc_usize")
vector_elem s element _ = render s element

-- The definitions that the type with number `i` asks for: one or none.
unfoldable pub type_defs : TypeStore → ℕ → CTypeKind → Outcome (List Text)
type_defs s i (struct fields packed none) = do
  fields_str ← field_lines s 0 fields
  ok (struct_def i packed fields_str ∷ [])
type_defs s i (vector element len) = do
  k ← get s element
  elem_str ← vector_elem s element k
  ok (
      fmt (
        str "typedef struct { "
        ∷ elem_str
        ∷ str " v["
        ∷ show len
        ∷ str "]; } _V"
        ∷ show i
        ∷ str ";"
        ∷ [])
      ∷ [])
type_defs s i _ = ok []

-- The loop over the types from number `i` on.
unfoldable pub struct_defs_from : TypeStore → ℕ → List CTypeKind → Outcome (List Text)
struct_defs_from s i [] = ok []
struct_defs_from s i (k ∷ ks) = do
  here ← type_defs s i k
  rest ← struct_defs_from s (suc i) ks
  ok (here ++ rest)

unfoldable pub render_struct_defs : TypeStore → Outcome (List Text)
render_struct_defs s = struct_defs_from s 0 s.types
