-- ===== src/Tests/ModuleTests.antt =====
-- src/module.rs at a concrete function and module.
use rustc_codegen_c.Prelude.{
  ℕ, ◌+◌, ◌^◌, ◌<◌, ◌≡◌, refl, sym, ◌∙◌, subst, All, Bool, true, false, List, [], ◌∷◌, ◌++◌, none,
  some, arith, length, ◌==◌, if◌then◌else◌,
}
use mathlib.Core.Option.{some-injective}
use rustc_codegen_c.Prelude.Text.{Text, str, Text-discrete}
use rustc_codegen_c.Prelude.Brackets.{IsBalanced}
use rustc_codegen_c.Prelude.Outcome.{ok, Gives-ok}
use rustc_codegen_c.Prelude.Dict.{get}
use rustc_codegen_c.Types.Total.{Ends}
use rustc_codegen_c.Module.Function.{FunctionDef, block_at, new, new_block}
use rustc_codegen_c.Module.Render.{params_from, render_function}
use rustc_codegen_c.Types.Render.{render}
use rustc_codegen_c.Module.Blocks.{
  BlocksBelow, empty_block, new-BlocksBelow, new_block-block_at, new_block-BlocksBelow,
}
use rustc_codegen_c.Module.Balance.{FunctionBalanced, render_function-IsBalanced}
use rustc_codegen_c.Module.Total.{render_function_total}
use rustc_codegen_c.Module.Signature.{Lacks, signature_of, defined_sigs, kept_decls}
use rustc_codegen_c.Module.Declarations.{
  IsSelection, IsReadable, signature_of-render_function, kept_decls-IsSelection,
}
use rustc_codegen_c.Module.ParamTexts.{SaysParams, lacks-Lacks}
use rustc_codegen_c.Module.Source.{
  CModule, new_module, generated_source, to_c_source, finalize_function,
}
use rustc_codegen_c.Module.Source.{add_global_decl}
use rustc_codegen_c.Module.Globals.{DeclaredOnce, add_global_decl-DeclaredOnce}
use rustc_codegen_c.Module.Wellformed.{
  ModuleBalanced, to_c_source-IsBalanced, finalize_function-ModuleBalanced,
}
use rustc_codegen_c.Tests.Samples.{arrays, arrays-long, arrays-IsClosed, arrays-NamesBalanced}

-- `int32_t inc(int32_t x)`, at first without blocks and then with one.
abbrev inc : FunctionDef
inc = new (str "inc") 0 ((0, str "x") ∷ [])

abbrev inc_block : FunctionDef
inc_block = (new_block inc (str "bb0")).0

inc_block-BlocksBelow : BlocksBelow inc_block
inc_block-BlocksBelow =
    new_block-BlocksBelow inc (str "bb0") (new-BlocksBelow (str "inc") 0 ((0, str "x") ∷ []))
      (unfold new in omega arith)

new_block-block_at_example :
    (block_at inc_block (new_block inc_block (str "bb1")).1 ≡ none)
    × (block_at (new_block inc_block (str "bb1")).0 0 ≡ (
        if (new_block inc_block (str "bb1")).1 == 0
        then some (empty_block (str "bb1"))
        else block_at inc_block 0))
new_block-block_at_example = new_block-block_at inc_block (str "bb1") 0 inc_block-BlocksBelow

new_block-BlocksBelow_example : BlocksBelow (new_block inc_block (str "bb1")).0
new_block-BlocksBelow_example =
    new_block-BlocksBelow inc_block (str "bb1") inc_block-BlocksBelow
      (unfold new_block new in omega arith)

render_function_total_example : Ends (render_function inc arrays)
render_function_total_example = render_function_total arrays arrays-IsClosed inc (record {
  ret = unfold new in rw arrays-long (omega arith);
  params = unfold new in (rw arrays-long (omega arith), tt);
})

inc-FunctionBalanced : FunctionBalanced inc
unfolding new
inc-FunctionBalanced = record {
  name = λ st. refl;
  prefix = λ st. refl;
  params = (λ st. refl, tt);
  overrides = λ i t h. cc;
  decls = tt;
  blocks = tt;
}

-- The text of the function without blocks.
abbrev inc_text : Text
inc_text = str "#pragma weak inc\nint32_t inc(int32_t x) {\n}\n"

inc_renders : render_function inc arrays ≡ ok inc_text
unfolding new render_function params_from rustc_codegen_c.Types.Render.render_decl
    rustc_codegen_c.Types.Store.get rustc_codegen_c.Types.Store.intern
    rustc_codegen_c.Types.Store.new rustc_codegen_c.Types.Kind.CTypeKind-discrete
    rustc_codegen_c.Types.Render.decl_kind render rustc_codegen_c.Types.Render.render_fuel
    rustc_codegen_c.Types.Render.render_kind rustc_codegen_c.Module.Render.weak_pragma
    rustc_codegen_c.Module.Render.signature_line rustc_codegen_c.Types.Render.render_int
    rustc_codegen_c.Module.Render.params_joined rustc_codegen_c.Module.Render.decl_lines
    rustc_codegen_c.Module.Render.block_texts
inc_renders = refl

render_function-IsBalanced_example : IsBalanced inc_text
render_function-IsBalanced_example =
    render_function-IsBalanced arrays arrays-NamesBalanced inc inc-FunctionBalanced inc_renders

inc_ret : render arrays 0 ≡ ok (str "int32_t")
unfolding render rustc_codegen_c.Types.Render.render_fuel rustc_codegen_c.Types.Store.get
    rustc_codegen_c.Types.Store.intern rustc_codegen_c.Types.Store.new
    rustc_codegen_c.Types.Kind.CTypeKind-discrete rustc_codegen_c.Types.Render.render_kind
    rustc_codegen_c.Types.Render.render_int
inc_ret = refl

inc_params : params_from arrays [] 0 ((0, str "x") ∷ []) ≡ ok (str "int32_t x" ∷ [])
unfolding params_from rustc_codegen_c.Types.Render.render_decl rustc_codegen_c.Types.Store.get
    rustc_codegen_c.Types.Store.intern rustc_codegen_c.Types.Store.new
    rustc_codegen_c.Types.Kind.CTypeKind-discrete rustc_codegen_c.Types.Render.decl_kind render
    rustc_codegen_c.Types.Render.render_fuel rustc_codegen_c.Types.Render.render_kind
    rustc_codegen_c.Types.Render.render_int
inc_params = refl

inc-IsReadable : IsReadable arrays inc
unfolding new
inc-IsReadable = record {
  fixed = refl;
  name = (lacks-Lacks b'(' (str "inc") refl, (refl, (refl, (refl, tt))));
  prefix = tt;
  ret = λ x h.
      Gives-ok (Lacks b'(') (ok (str "int32_t")) (lacks-Lacks b'(' (str "int32_t") refl)
        (sym inc_ret ∙ h);
  params = λ xs h.
      Gives-ok (λ ys. All (Lacks b',') ys × All (Lacks b')') ys × SaysParams ys)
        (ok (str "int32_t x" ∷ []))
        (
          (lacks-Lacks b',' (str "int32_t x") refl, tt),
          (lacks-Lacks b')' (str "int32_t x") refl, tt),
          refl,
        )
        (sym inc_params ∙ h);
}

signature_of-render_function_example : signature_of inc_text ≡ ok (some (str "inc", 1))
unfolding new
signature_of-render_function_example =
    signature_of-render_function arrays inc inc-IsReadable inc_renders

-- The second declaration has another number of parameters than the definition of `inc`.
abbrev decls : List Text
decls = str "int f(void);" ∷ str "int inc(int a, int b);" ∷ []

-- The signature of the definition.
definitions_read : defined_sigs (inc_text ∷ []) [] ≡ ok ((str "inc", 1) ∷ [])
unfolding defined_sigs new
definitions_read = rw (signature_of-render_function arrays inc inc-IsReadable inc_renders) refl

decls_kept : kept_decls ((str "inc", 1) ∷ []) decls ≡ ok (str "int f(void);" ∷ [])
unfolding kept_decls signature_of rustc_codegen_c.Module.Signature.split_first
    rustc_codegen_c.Module.Signature.split_last_space rustc_codegen_c.Module.Signature.skips
    Text-discrete rustc_codegen_c.Prelude.ℕ_discrete rustc_codegen_c.Module.Signature.param_count
decls_kept = refl

kept_decls-IsSelection_example : IsSelection (inc_text ∷ []) decls (str "int f(void);" ∷ [])
kept_decls-IsSelection_example =
    kept_decls-IsSelection (inc_text ∷ []) decls definitions_read decls_kept

-- A module with the function open, and with the function done.
abbrev open_module : CModule
open_module = record (new_module (str "m")) {
  types = arrays;
  open_functions = (str "inc", inc) ∷ [];
}

abbrev done_module : CModule
done_module = record (new_module (str "m")) {
  types = arrays;
  open_functions = [];
  function_defs = inc_text ∷ [];
}

open-ModuleBalanced : ModuleBalanced open_module
unfolding new_module
open-ModuleBalanced = record {
  types = arrays-NamesBalanced;
  struct_defs = tt;
  global_extern_decls = tt;
  global_decls = tt;
  function_decls = tt;
  function_defs = tt;
  data_sections = tt;
  constructor_defs = tt;
  precompiled = λ t h. cc;
}

inc_opens :
    (f : FunctionDef)
    → get Text-discrete open_module.open_functions (str "inc") ≡ some f
    → FunctionBalanced f
unfolding new_module Text-discrete rustc_codegen_c.Prelude.ℕ_discrete
inc_opens f h = subst FunctionBalanced (some-injective inc f h) inc-FunctionBalanced

inc_finishes : finalize_function open_module (str "inc") arrays ≡ ok done_module
unfolding new_module finalize_function Text-discrete rustc_codegen_c.Prelude.ℕ_discrete
inc_finishes = rw inc_renders refl

finalize_function-ModuleBalanced_example : ModuleBalanced done_module
finalize_function-ModuleBalanced_example =
    finalize_function-ModuleBalanced open_module (str "inc") arrays arrays-NamesBalanced inc_opens
      open-ModuleBalanced inc_finishes

source_text : to_c_source (str "/* preamble */\n") open_module ≡ ok (str "/* preamble */\n")
unfolding new_module to_c_source generated_source rustc_codegen_c.Types.Defs.render_struct_defs
    rustc_codegen_c.Types.Defs.struct_defs_from rustc_codegen_c.Types.Store.intern
    rustc_codegen_c.Types.Store.new rustc_codegen_c.Types.Kind.CTypeKind-discrete
    rustc_codegen_c.Types.Defs.type_defs rustc_codegen_c.Module.Signature.defined_sigs kept_decls
    rustc_codegen_c.Module.Source.on_lines
source_text = refl

to_c_source-IsBalanced_example : IsBalanced (str "/* preamble */\n")
to_c_source-IsBalanced_example =
    to_c_source-IsBalanced (str "/* preamble */\n") open_module (λ st. refl) open-ModuleBalanced
      source_text

no_globals : DeclaredOnce (new_module (str "m"))
unfolding new_module
no_globals = record { names = tt; decls = refl }

add_global_decl-DeclaredOnce_example :
    DeclaredOnce (add_global_decl (new_module (str "m")) (str "x") (str "extern int x;"))
add_global_decl-DeclaredOnce_example =
    add_global_decl-DeclaredOnce (new_module (str "m")) (str "x") (str "extern int x;") no_globals
