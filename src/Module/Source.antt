-- ===== src/Module/Source.antt =====
-- src/module.rs: `CModule` and its C file. The text of `c/preamble.c` is a parameter.
use rustc_codegen_c.Prelude.{
  ℕ, Bool, true, false, not, List, [], ◌∷◌, ◌++◌, Option, none, some, if◌then◌else◌,
}
use rustc_codegen_c.Prelude.Text.{Text, str, fmt, newline, text_eq, Text-discrete}
use rustc_codegen_c.Prelude.Dict.{get, remove}
use rustc_codegen_c.Prelude.Outcome.{Outcome, ok, ◌>>=◌}
use rustc_codegen_c.Types.Store.{TypeStore}
use rustc_codegen_c.Types.Store as Types
use rustc_codegen_c.Types.Defs.{render_struct_defs}
use rustc_codegen_c.Values.Store.{ValueStore}
use rustc_codegen_c.Values.Store as Values
use rustc_codegen_c.Module.Function.{FunctionDef}
use rustc_codegen_c.Module.Render.{is_empty, render_function}
use rustc_codegen_c.Module.Signature.{defined_sigs, kept_decls}

-- The sets hold each of their names once. The open functions stand in the order of their names, in
-- which a BTreeMap goes through them; of the other map only look-ups are used.
pub record CModule : Type 0 where
  pub name : Text
  pub types : TypeStore
  pub values : ValueStore
  pub struct_defs : List Text
  pub global_extern_decls : List Text
  pub global_decls : List Text
  pub function_decls : List Text
  pub declared_fns : List Text
  pub declared_globals : List Text
  pub declared_extern_globals : List Text
  pub function_defs : List Text
  pub open_functions : List (Text × FunctionDef)
  pub block_to_function : List (ℕ × Text)
  pub data_sections : List Text
  pub constructor_defs : List Text
  pub precompiled_source : Option Text

unfoldable pub new_module : Text → CModule
new_module name = record {
  name = name;
  types = Types.new;
  values = Values.new;
  struct_defs = [];
  global_extern_decls = [];
  global_decls = [];
  function_decls = [];
  declared_fns =
      str "memcpy"
      ∷ str "memset"
      ∷ str "memmove"
      ∷ str "abort"
      ∷ str "__rust_try"
      ∷ str "_Unwind_RaiseException"
      ∷ [];
  declared_globals = [];
  declared_extern_globals = [];
  function_defs = [];
  open_functions = [];
  block_to_function = [];
  data_sections = [];
  constructor_defs = [];
  precompiled_source = none;
}

-- `set.contains(&name)`
abbrev pub contains_name : List Text → Text → Bool
contains_name [] name = false
contains_name (n ∷ names) name =
    let rest = contains_name names name in if text_eq n name then true else rest

unfoldable pub add_global_decl : CModule → Text → Text → CModule
add_global_decl m name decl = if contains_name m.declared_extern_globals name then m else record m {
  declared_extern_globals = m.declared_extern_globals ++ name ∷ [];
  global_extern_decls = m.global_extern_decls ++ decl ∷ [];
}

-- The function leaves the open functions before it is written.
abbrev pub finalized : CModule → Text → TypeStore → Option FunctionDef → Outcome CModule
finalized m name types none = ok m
finalized m name types (some func) = do
  rendered ← render_function func types
  ok (record m {
    open_functions = remove Text-discrete m.open_functions name;
    function_defs = m.function_defs ++ rendered ∷ [];
  })

unfoldable pub finalize_function : CModule → Text → TypeStore → Outcome CModule
finalize_function m name types = finalized m name types (get Text-discrete m.open_functions name)

-- Every text on a line of its own.
unfoldable pub on_lines : List Text → Text
on_lines [] = []
on_lines (t ∷ ts) = fmt (t ∷ newline ∷ on_lines ts ∷ [])

-- A group of lines, and an empty line behind it unless `all` is empty.
abbrev pub section : List Text → List Text → Text
section all shown = on_lines shown ++ (if not (is_empty all) then newline else [])

-- The C file without a pre-compiled source.
unfoldable pub generated_source : Text → CModule → Outcome Text
generated_source preamble m = do
  structs ← render_struct_defs m.types
  sigs ← defined_sigs m.function_defs []
  decls ← kept_decls sigs m.function_decls
  ok (
      fmt (
        preamble
        ∷ on_lines structs
        ∷ section m.struct_defs m.struct_defs
        ∷ section m.global_extern_decls m.global_extern_decls
        ∷ section m.function_decls decls
        ∷ section m.data_sections m.data_sections
        ∷ section m.global_decls m.global_decls
        ∷ on_lines m.function_defs
        ∷ on_lines m.constructor_defs
        ∷ []))

abbrev pub source_or : Option Text → Outcome Text → Outcome Text
source_or (some src) generated = ok src
source_or none generated = generated

unfoldable pub to_c_source : Text → CModule → Outcome Text
to_c_source preamble m = source_or m.precompiled_source (generated_source preamble m)
