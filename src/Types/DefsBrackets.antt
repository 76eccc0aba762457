-- ===== src/Types/DefsBrackets.antt =====
-- src/types.rs: the definitions of structs and vectors have matching brackets.
use rustc_codegen_c.Prelude.{
  ℕ, suc, Bool, true, false, refl, ◌∙◌, List, [], ◌∷◌, ◌++◌, none, some, All, All-append,
}
use rustc_codegen_c.Prelude.Text.{Text, str, join, newline}
use rustc_codegen_c.Prelude.Decimal.{show}
use rustc_codegen_c.Prelude.Brackets.{IsBalanced, scan_over, join-IsBalanced, show-IsBalanced}
use rustc_codegen_c.Prelude.Outcome.{Gives, Gives-bind, Gives-of-ok}
use rustc_codegen_c.Types.Kind.{TypeRef, CTypeKind, ptr, struct, vector, ptr_width}
use rustc_codegen_c.Types.Store.{TypeStore, get}
use rustc_codegen_c.Types.Render.{render, render_decl}
use rustc_codegen_c.Types.Brackets.{NamesBalanced, render-IsBalanced, render_decl-IsBalanced}
use rustc_codegen_c.Types.Defs.{
  field_lines, struct_def, vector_elem, type_defs, struct_defs_from, render_struct_defs,
}

struct_body-IsBalanced :
    (i : ℕ) (ls : List Text) → All IsBalanced ls → IsBalanced (struct_def i false ls)
unfolding struct_def
struct_body-IsBalanced i ls h st =
    scan_over (show i) _ _ (show-IsBalanced i)
    ∙ scan_over (join newline ls) _ _ (join-IsBalanced newline ls (λ st. refl) h)

struct_def-IsBalanced :
    (i : ℕ) (packed : Bool) (ls : List Text)
    → All IsBalanced ls
    → IsBalanced (struct_def i packed ls)
unfolding struct_def
struct_def-IsBalanced i false ls h = struct_body-IsBalanced i ls h
struct_def-IsBalanced i true ls h =
    λ st. scan_over (struct_def i false ls) _ st (struct_body-IsBalanced i ls h)

module _ (s : TypeStore) (names : NamesBalanced s) where
  field_lines-Gives : (j : ℕ) (fs : List TypeRef) → Gives (All IsBalanced) (field_lines s j fs)
  unfolding field_lines
  field_lines-Gives j [] = tt
  field_lines-Gives j (f ∷ fs) =
      Gives-bind IsBalanced (All IsBalanced) (render_decl s f (str "f" ++ show j)) _
        (Gives-of-ok (render_decl s f (str "f" ++ show j)) λ x e.
          render_decl-IsBalanced s names f (str "f" ++ show j) (λ st. show-IsBalanced j st) e)
        λ d hd.
          Gives-bind (All IsBalanced) (All IsBalanced) (field_lines s (suc j) fs) _
            (field_lines-Gives (suc j) fs) λ ls hls. (λ st. scan_over d _ st hd, hls)

  vector_elem-Gives :
      (element : TypeRef) (k : CTypeKind) → Gives IsBalanced (vector_elem s element k)
  unfolding vector_elem
  vector_elem-Gives element ptr = λ st. refl
  vector_elem-Gives element (ptr_width signed) = λ st. refl
  vector_elem-Gives element _ =
      Gives-of-ok (render s element) λ x e. render-IsBalanced s names element e

  type_defs-Gives : (i : ℕ) (k : CTypeKind) → Gives (All IsBalanced) (type_defs s i k)
  unfolding type_defs
  type_defs-Gives i (struct fields packed none) =
      Gives-bind (All IsBalanced) (All IsBalanced) (field_lines s 0 fields) _
        (field_lines-Gives 0 fields) λ ls h. (struct_def-IsBalanced i packed ls h, tt)
  type_defs-Gives i (struct fields packed (some name)) = tt
  type_defs-Gives i (vector element len) =
      Gives-bind (λ _. Unit) (All IsBalanced) (get s element) _
        (Gives-of-ok (get s element) λ x e. tt)
        λ k _.
          Gives-bind IsBalanced (All IsBalanced) (vector_elem s element k) _
            (vector_elem-Gives element k)
            λ e he. (
              λ st.
                  scan_over e _ _ he
                  ∙ scan_over (show len) _ _ (show-IsBalanced len)
                  ∙ scan_over (show i) _ _ (show-IsBalanced i),
              tt,
            )
  type_defs-Gives i _ = tt

  struct_defs_from-Gives :
      (i : ℕ) (ks : List CTypeKind) → Gives (All IsBalanced) (struct_defs_from s i ks)
  unfolding struct_defs_from
  struct_defs_from-Gives i [] = tt
  struct_defs_from-Gives i (k ∷ ks) =
      Gives-bind (All IsBalanced) (All IsBalanced) (type_defs s i k) _ (type_defs-Gives i k)
        λ here h.
          Gives-bind (All IsBalanced) (All IsBalanced) (struct_defs_from s (suc i) ks) _
            (struct_defs_from-Gives (suc i) ks) λ rest hr. All-append IsBalanced here rest h hr

  pub render_struct_defs-Gives : Gives (All IsBalanced) (render_struct_defs s)
  unfolding render_struct_defs
  render_struct_defs-Gives = struct_defs_from-Gives 0 s.types
