-- ===== src/Safe/Finish.antt =====
-- src/lib.rs: the end of module_codegen, after calls on a sound builder.
use rustc_codegen_c.Prelude.Brackets.{IsBalanced}
use rustc_codegen_c.Module.Render.{render_function}
use rustc_codegen_c.Prelude.{
  ◌+◌, arith, length-append, ◌≡◌, refl, List, [], ◌∷◌, ◌++◌, All, All-append, length, map,
}
use mathlib.Core.Logic.{if_pos}
use rustc_codegen_c.Prelude.Text.{Text, Text-discrete}
use rustc_codegen_c.Prelude.Outcome.{Gives, Outcome, ok}
use rustc_codegen_c.Types.Store.{TypeStore}
use rustc_codegen_c.Types.Brackets.{NamesBalanced}
use rustc_codegen_c.Types.Total.{IsClosed}
use rustc_codegen_c.Values.Store.{ValueStore}
use rustc_codegen_c.Module.Function.{FunctionDef}
use rustc_codegen_c.Module.Balance.{render_function-IsBalanced}
use rustc_codegen_c.Module.Total.{render_function_total}
use rustc_codegen_c.Module.Source.{CModule, finalize_function}
use rustc_codegen_c.Module.Unit.{finalize_all, finish_module}
use rustc_codegen_c.Module.Wellformed.{ModuleBalanced}
use rustc_codegen_c.Safe.Sound.{FunctionSound}

-- A call that finishes the functions `fns` of `m`: it returns a module without open functions, whose
-- texts have matching brackets, and for each of the functions there is one text more.
pub record Finished (m : CModule) (fns : List (Text × FunctionDef)) (run : Outcome CModule)
    : Type 0 where
  pub done : CModule
  pub returns : run ≡ ok done
  pub balanced : ModuleBalanced done
  pub closed : done.open_functions ≡ []
  pub count : length done.function_defs ≡ length m.function_defs + length fns

module _ (types : TypeStore) (closed : IsClosed types) (names : NamesBalanced types) where
  -- The module after the first open function is written.
  abbrev written : CModule → List (Text × FunctionDef) → Text → CModule
  written m fns t = record m { open_functions = fns; function_defs = m.function_defs ++ t ∷ [] }

  finalize_first :
      (m : CModule) (name : Text) (f : FunctionDef) (fns : List (Text × FunctionDef)) {t : Text}
      → m.open_functions ≡ (name, f) ∷ fns
      → render_function f types ≡ ok t
      → finalize_function m name types ≡ ok (written m fns t)
  unfolding finalize_function
  finalize_first m name f fns e r =
      rw (e, if_pos (Text-discrete name name) refl, r, if_pos (Text-discrete name name) refl) refl

  written-ModuleBalanced :
      (m : CModule) (fns : List (Text × FunctionDef)) (t : Text)
      → ModuleBalanced m
      → IsBalanced t
      → ModuleBalanced (written m fns t)
  written-ModuleBalanced m fns t h bt = record {
    types = h.types;
    struct_defs = h.struct_defs;
    global_extern_decls = h.global_extern_decls;
    global_decls = h.global_decls;
    function_decls = h.function_decls;
    function_defs = All-append _ m.function_defs (t ∷ []) h.function_defs (bt, tt);
    data_sections = h.data_sections;
    constructor_defs = h.constructor_defs;
    precompiled = h.precompiled;
  }

  finalize_all-Finished :
      (m : CModule) (fns : List (Text × FunctionDef))
      → m.open_functions ≡ fns
      → ModuleBalanced m
      → All (λ p. FunctionSound (length types.types) p.1) fns
      → Finished m fns (finalize_all m (map (λ p. p.0) fns) types)
  unfolding finalize_all
  finalize_all-Finished m [] e h hs = record {
    done = m;
    returns = refl;
    balanced = h;
    closed = e;
    count = omega arith;
  }
  finalize_all-Finished m ((name, f) ∷ fns) e h (hf, hs) =
      let (t, r) =
        render_function_total types closed f (record { ret = hf.ret; params = hf.params }) in
      let bt = render_function-IsBalanced types names f hf.balanced r in
      let rest =
        finalize_all-Finished (written m fns t) fns refl (written-ModuleBalanced m fns t h bt) hs in
      let one = length-append {0} m.function_defs (t ∷ []) in
      let total = rest.count in
      rw (finalize_first m name f fns e r) (record {
        done = rest.done;
        returns = rest.returns;
        balanced = rest.balanced;
        closed = rest.closed;
        count = omega arith;
      })

  -- Over closed types with names of matching brackets, a module whose texts have matching brackets
  -- and whose open functions are sound is finished.
  pub finish_module-Finished :
      (m : CModule) (values : ValueStore)
      → ModuleBalanced m
      → All (λ p. FunctionSound (length types.types) p.1) m.open_functions
      → Finished m m.open_functions (finish_module m types values)
  unfolding finish_module
  finish_module-Finished m values h hs =
      let d = finalize_all-Finished m m.open_functions refl h hs in
      rw d.returns (record {
        done = record d.done { types = types; values = values };
        returns = refl;
        balanced = record {
          types = names;
          struct_defs = d.balanced.struct_defs;
          global_extern_decls = d.balanced.global_extern_decls;
          global_decls = d.balanced.global_decls;
          function_decls = d.balanced.function_decls;
          function_defs = d.balanced.function_defs;
          data_sections = d.balanced.data_sections;
          constructor_defs = d.balanced.constructor_defs;
          precompiled = d.balanced.precompiled;
        };
        closed = d.closed;
        count = d.count;
      })

  -- The types of a finished module are those of the context.
  pub finish_module_types :
      (m : CModule) (values : ValueStore)
      → ModuleBalanced m
      → All (λ p. FunctionSound (length types.types) p.1) m.open_functions
      → Gives (λ m'. m'.types ≡ types) (finish_module m types values)
  unfolding finish_module
  finish_module_types m values h hs =
      let d = finalize_all-Finished m m.open_functions refl h hs in rw d.returns refl
