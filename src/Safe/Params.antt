-- ===== src/Safe/Params.antt =====
-- src/builder.rs: the parameters of the current function, on a sound builder.
use rustc_codegen_c.Prelude.{
  ℕ, ◌-◌, ◌<◌, ◌≡◌, refl, ◌∙◌, ◌&&◌, List, [], ◌∷◌, Option, none, some, All, length, leb, ◌==◌,
  if◌then◌else◌, both_branches, get_elem?, zero, suc, subst,
}
use rustc_codegen_c.Prelude.Text.{Text, str, fmt}
use mathlib.Core.Option.{some-injective}
use rustc_codegen_c.Prelude.Decimal.{show}
use rustc_codegen_c.Prelude.Brackets.{IsBalanced, scan_over, show-IsBalanced}
use rustc_codegen_c.Types.Kind.{TypeRef, CTypeKind}
use rustc_codegen_c.Types.AlignTotal.{natural_align_bytes_total}
use rustc_codegen_c.Values.Store.{ValueRef, CValueKind}
use rustc_codegen_c.Module.Function.{FunctionDef}
use rustc_codegen_c.Builder.State.{Builder, Build, current_function}
use rustc_codegen_c.Builder.Queries.{type_ptr}
use rustc_codegen_c.Builder.Flow.{retbuf_of}
use rustc_codegen_c.Builder.Params.{
  returns_indirectly, on_stack, ret_data_of, param_of, type_or_ptr, param_ty, pointer_to,
  retbuf_decl, keep_retbuf, retbuf_param, plain_param, get_param,
}
use rustc_codegen_c.Safe.Sound.{FunctionSound, IsSound, HasType-Grows}
use rustc_codegen_c.Safe.Changes.{change-IsSound, change-Grows}
use rustc_codegen_c.Safe.Rules.{
  Done, IsValue, IsType, here, grow, after_run, with_answer, with_decl_text,
}
use rustc_codegen_c.Safe.Emit.{IsTypeOption, with_intern}
use rustc_codegen_c.Safe.Compare.{intern_value_safe}
use rustc_codegen_c.Safe.Flow.{CurrentSound, current_sound}
use rustc_codegen_c.Safe.Unwind.{decl_sound}

type_or_ptr_safe :
    {b : Builder} (o : Option TypeRef)
    → IsSound b
    → IsTypeOption b o
    → Done b IsType (type_or_ptr o b)
unfolding type_ptr
type_or_ptr_safe none s h = with_intern CTypeKind.ptr s tt tt tt λ s' g ht. here s' ht
type_or_ptr_safe (some ty) s h =
    with_intern CTypeKind.ptr s tt tt tt λ s' g ht. here {a = ty} s' (HasType-Grows g h)

pointer_to_safe :
    {b : Builder} (text : Text) → IsSound b → IsBalanced text → Done b IsValue (pointer_to text b)
unfolding type_ptr
pointer_to_safe text s h =
    with_intern CTypeKind.ptr s tt tt tt
      λ s' g ht. intern_value_safe (CValueKind.inline_expr text) s' ht tt h

ret_data_inside :
    (b : Builder) (o : Option FunctionDef) → CurrentSound b o → IsTypeOption b (ret_data_of o)
ret_data_inside b none h = tt
ret_data_inside b (some f) h = by_data f.ret_data_type h.ret_data
  where
    by_data :
        (o : Option TypeRef)
        → ((ty : TypeRef) → o ≡ some ty → ty < length b.types.types)
        → IsTypeOption b o
    by_data none h = tt
    by_data (some ty) h = h ty refl

param_inside :
    (b : Builder) (o : Option FunctionDef) (i : ℕ)
    → CurrentSound b o
    → IsTypeOption b (param_ty (param_of o i))
param_inside b none i h = tt
param_inside b (some f) i h = in_params f.params i h.params
  where
    in_params :
        (ps : List (TypeRef × Text)) (i : ℕ)
        → All (λ p. p.0 < length b.types.types) ps
        → IsTypeOption b (param_ty (get_elem? ps i))
    in_params [] i h = tt
    in_params (p ∷ ps) zero (h, hs) = h
    in_params (p ∷ ps) (suc i) (h, hs) = in_params ps i hs

retbuf_decl-IsBalanced : (align : ℕ) (t : Text) → IsBalanced t → IsBalanced (retbuf_decl align t)
retbuf_decl-IsBalanced align t h = λ st.
    scan_over (show (if leb align 16 then 16 else align)) _ _
      (show-IsBalanced (if leb align 16 then 16 else align))
    ∙ scan_over t _ st h

keep_retbuf_sound : (n : ℕ) (f : FunctionDef) → FunctionSound n f → FunctionSound n (keep_retbuf f)
keep_retbuf_sound n f h = record {
  balanced = record {
    name = h.balanced.name;
    prefix = h.balanced.prefix;
    params = h.balanced.params;
    overrides = h.balanced.overrides;
    decls = h.balanced.decls;
    blocks = h.balanced.blocks;
  };
  ret = h.ret;
  params = h.params;
  ret_data = h.ret_data;
  retbuf = λ name e. subst IsBalanced (some-injective (str "_retbuf") name e) (λ st. refl);
}

-- The text of a buffer that is there.
abbrev BufBalanced : Option Text → Type 0
BufBalanced none = Unit
BufBalanced (some name) = IsBalanced name

buf_balanced : (b : Builder) (o : Option FunctionDef) → CurrentSound b o → BufBalanced (retbuf_of o)
buf_balanced b none h = tt
buf_balanced b (some f) h = by_name f.retbuf_name h.retbuf
  where
    by_name : (o : Option Text) → ((t : Text) → o ≡ some t → IsBalanced t) → BufBalanced o
    by_name none h = tt
    by_name (some t) h = h t refl

retbuf_param_safe :
    {b : Builder} (pointer_bytes : ℕ) (buf : Option Text)
    → IsSound b
    → BufBalanced buf
    → Done b IsValue (retbuf_param pointer_bytes buf b)
retbuf_param_safe pointer_bytes (some name) s h =
    pointer_to_safe (fmt (str "(void *)&" ∷ name ∷ [])) s λ st. h st
retbuf_param_safe {b = b} pointer_bytes none s h =
    after_run _
      (type_or_ptr_safe (ret_data_of (current_function b)) s
        (ret_data_inside b (current_function b) (current_sound s)))
      λ ty b1 s1 g1 ht.
        with_decl_text s1 (str "_retbuf") _ ht (λ st. refl)
          λ t bt.
            let (align, e) = natural_align_bytes_total b1.types ty pointer_bytes s1.types ht in
            with_answer _ e (
              grow (change-Grows b1 _) (
                pointer_to_safe (str "(void *)&_retbuf")
                  (change-IsSound b1 _ s1 λ f hf.
                    keep_retbuf_sound _ _
                      (decl_sound _ f (retbuf_decl align t) (retbuf_decl-IsBalanced align t bt) hf))
                  λ st. refl))

plain_param_safe : {b : Builder} (i : ℕ) → IsSound b → Done b IsValue (plain_param i b)
plain_param_safe {b = b} i s =
    both_branches (λ (m : Build ValueRef). Done b IsValue (m b)) (on_stack (current_function b) i)
      (pointer_to_safe (fmt (str "(void *)&_arg" ∷ show i ∷ [])) s λ st. show-IsBalanced i st)
      (after_run _
        (type_or_ptr_safe (param_ty (param_of (current_function b) i)) s
          (param_inside b (current_function b) i (current_sound s)))
        λ ty b1 s1 g1 ht. intern_value_safe (CValueKind.param i) s1 ht tt tt)

-- On a sound builder, every parameter of the current function, the buffer for an indirect result
-- included, is returned as a value of the store and the builder stays sound.
pub get_param_safe :
    {b : Builder} (pointer_bytes index : ℕ)
    → IsSound b
    → Done b IsValue (get_param pointer_bytes index b)
unfolding get_param
get_param_safe {b = b} pointer_bytes index s =
    both_branches (λ (m : Build ValueRef). Done b IsValue (m b))
      (returns_indirectly (current_function b) && index == 0)
      (retbuf_param_safe pointer_bytes (retbuf_of (current_function b)) s
        (buf_balanced b (current_function b) (current_sound s)))
      (plain_param_safe (if returns_indirectly (current_function b) then index - 1 else index) s)
