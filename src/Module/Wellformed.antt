-- ===== src/Module/Wellformed.antt =====
-- src/module.rs: a module whose texts have matching brackets is written as a C file with matching
-- brackets, and the module's operations keep its texts so.
use rustc_codegen_c.Prelude.{
  ℕ, ◌≡◌, refl, ◌∙◌, not, List, [], ◌∷◌, Option, none, some, All, All-append, both_branches,
}
use rustc_codegen_c.Prelude.Text.{Text, Text-discrete}
use rustc_codegen_c.Prelude.Dict.{get}
use rustc_codegen_c.Prelude.Brackets.{IsBalanced, scan_over, append-IsBalanced}
use rustc_codegen_c.Prelude.Outcome.{Outcome, ok, Gives, Gives-bind, Gives-ok, Gives-of-ok}
use rustc_codegen_c.Types.Brackets.{NamesBalanced}
use rustc_codegen_c.Types.DefsBrackets.{render_struct_defs-Gives}
use rustc_codegen_c.Types.Defs.{render_struct_defs}
use rustc_codegen_c.Types.Store.{TypeStore}
use rustc_codegen_c.Module.Function.{FunctionDef}
use rustc_codegen_c.Module.Render.{is_empty, render_function}
use rustc_codegen_c.Module.Balance.{FunctionBalanced, render_function-IsBalanced}
use rustc_codegen_c.Module.Signature.{signature_of, skips, kept_decls, defined_sigs}
use rustc_codegen_c.Module.Source.{
  CModule, finalized, finalize_function, on_lines, section, generated_source, source_or,
  to_c_source,
}

-- Every text that the C file is put together from has matching brackets.
pub record ModuleBalanced (m : CModule) : Type 0 where
  pub types : NamesBalanced m.types
  pub struct_defs : All IsBalanced m.struct_defs
  pub global_extern_decls : All IsBalanced m.global_extern_decls
  pub global_decls : All IsBalanced m.global_decls
  pub function_decls : All IsBalanced m.function_decls
  pub function_defs : All IsBalanced m.function_defs
  pub data_sections : All IsBalanced m.data_sections
  pub constructor_defs : All IsBalanced m.constructor_defs
  pub precompiled : (t : Text) → m.precompiled_source ≡ some t → IsBalanced t

on_lines-IsBalanced : (ts : List Text) → All IsBalanced ts → IsBalanced (on_lines ts)
unfolding on_lines
on_lines-IsBalanced [] _ st = refl
on_lines-IsBalanced (t ∷ ts) (h, hs) st = scan_over t _ st h ∙ on_lines-IsBalanced ts hs st

section-IsBalanced : (all shown : List Text) → All IsBalanced shown → IsBalanced (section all shown)
section-IsBalanced all shown h =
    append-IsBalanced (on_lines shown) _ (on_lines-IsBalanced shown h)
      (both_branches IsBalanced (not (is_empty all)) (λ st. refl) (λ st. refl))

kept_decls-Gives :
    (sigs : List (Text × ℕ)) (decls : List Text)
    → All IsBalanced decls
    → Gives (All IsBalanced) (kept_decls sigs decls)
unfolding kept_decls
kept_decls-Gives sigs [] _ = tt
kept_decls-Gives sigs (d ∷ decls) (h, hs) =
    Gives-bind (λ _. Unit) (All IsBalanced) (signature_of d) _
      (Gives-of-ok (signature_of d) λ x e. tt)
      λ sig _.
        Gives-bind (All IsBalanced) (All IsBalanced) (kept_decls sigs decls) _
          (kept_decls-Gives sigs decls hs)
          λ rest hr. both_branches (All IsBalanced) (skips sigs sig) hr (h, hr)

generated-Gives :
    (preamble : Text) (m : CModule)
    → IsBalanced preamble
    → ModuleBalanced m
    → Gives IsBalanced (generated_source preamble m)
unfolding generated_source
generated-Gives preamble m hp h =
    Gives-bind (All IsBalanced) IsBalanced (render_struct_defs m.types) _
      (render_struct_defs-Gives m.types h.types)
      λ structs hstructs.
        Gives-bind (λ _. Unit) IsBalanced (defined_sigs m.function_defs []) _
          (Gives-of-ok (defined_sigs m.function_defs []) λ x e. tt)
          λ sigs _.
            Gives-bind (All IsBalanced) IsBalanced (kept_decls sigs m.function_decls) _
              (kept_decls-Gives sigs m.function_decls h.function_decls)
              λ decls hdecls st.
                scan_over preamble _ st hp
                ∙ scan_over (on_lines structs) _ _ (on_lines-IsBalanced structs hstructs)
                ∙ scan_over (section m.struct_defs m.struct_defs) _ _
                    (section-IsBalanced m.struct_defs m.struct_defs h.struct_defs)
                ∙ scan_over (section m.global_extern_decls m.global_extern_decls) _ _ (
                    section-IsBalanced m.global_extern_decls m.global_extern_decls
                      h.global_extern_decls)
                ∙ scan_over (section m.function_decls decls) _ _
                    (section-IsBalanced m.function_decls decls hdecls)
                ∙ scan_over (section m.data_sections m.data_sections) _ _
                    (section-IsBalanced m.data_sections m.data_sections h.data_sections)
                ∙ scan_over (section m.global_decls m.global_decls) _ _
                    (section-IsBalanced m.global_decls m.global_decls h.global_decls)
                ∙ scan_over (on_lines m.function_defs) _ _
                    (on_lines-IsBalanced m.function_defs h.function_defs)
                ∙ on_lines-IsBalanced m.constructor_defs h.constructor_defs st

source_or-IsBalanced :
    (src : Option Text) (generated : Outcome Text) {t : Text}
    → ((s : Text) → src ≡ some s → IsBalanced s)
    → Gives IsBalanced generated
    → source_or src generated ≡ ok t
    → IsBalanced t
source_or-IsBalanced none generated hs hg e = Gives-ok IsBalanced generated hg e
source_or-IsBalanced (some s) generated hs hg e = Gives-ok IsBalanced (ok s) (hs s refl) e

-- If `to_c_source` returns, its C file has matching round, square and curly brackets, provided
-- that the preamble, the struct names and every text that the module holds have.
pub to_c_source-IsBalanced :
    (preamble : Text) (m : CModule) {t : Text}
    → IsBalanced preamble
    → ModuleBalanced m
    → to_c_source preamble m ≡ ok t
    → IsBalanced t
unfolding to_c_source
to_c_source-IsBalanced preamble m hp h e =
    source_or-IsBalanced m.precompiled_source (generated_source preamble m) h.precompiled
      (generated-Gives preamble m hp h) e

-- If an open function with matching brackets is finished, or no function of the name is open,
-- every text that the module holds still has matching brackets.
pub finalize_function-ModuleBalanced :
    (m : CModule) (name : Text) (types : TypeStore) {m' : CModule}
    → NamesBalanced types
    → ((f : FunctionDef) → get Text-discrete m.open_functions name ≡ some f → FunctionBalanced f)
    → ModuleBalanced m
    → finalize_function m name types ≡ ok m'
    → ModuleBalanced m'
unfolding finalize_function
finalize_function-ModuleBalanced m name types {m' = m'} names hf h e =
    finalized_cases (get Text-discrete m.open_functions name) hf e
  where
    finalized_cases :
        (o : Option FunctionDef)
        → ((f : FunctionDef) → o ≡ some f → FunctionBalanced f)
        → finalized m name types o ≡ ok m'
        → ModuleBalanced m'
    finalized_cases none hf e = Gives-ok ModuleBalanced (ok m) h e
    finalized_cases (some f) hf e =
        Gives-ok ModuleBalanced (finalized m name types (some f))
          (Gives-bind IsBalanced ModuleBalanced (render_function f types) _
            (Gives-of-ok (render_function f types)
              λ t r. render_function-IsBalanced types names f (hf f refl) r)
            λ t ht. record {
              types = h.types;
              struct_defs = h.struct_defs;
              global_extern_decls = h.global_extern_decls;
              global_decls = h.global_decls;
              function_decls = h.function_decls;
              function_defs =
                  All-append IsBalanced m.function_defs (t ∷ []) h.function_defs (ht, tt);
              data_sections = h.data_sections;
              constructor_defs = h.constructor_defs;
              precompiled = h.precompiled;
            })
          e
