-- ===== src/Safe/Scalars.antt =====
-- src/builder.rs: values that are read as scalars, on a sound builder.
use rustc_codegen_c.Prelude.{refl, Bool, true, false, both_branches, ◌==◌}
use rustc_codegen_c.Types.Kind.{TypeRef, CTypeKind}
use rustc_codegen_c.Types.Store.{intern}
use rustc_codegen_c.Values.Store.{ValueRef, CValueKind}
use rustc_codegen_c.Builder.State.{Builder, Build}
use rustc_codegen_c.Builder.Aggregate.{to_bool, retype, to_immediate_scalar}
use rustc_codegen_c.Safe.Sound.{IsSound, HasType, HasValue, HasValue-Grows}
use rustc_codegen_c.Safe.Changes.{with_type}
use rustc_codegen_c.Safe.Rules.{Done, IsValue, IsType, here, after_run, with_type_of, with_text}
use rustc_codegen_c.Safe.Emit.{with_intern, new_temp_with_stmt_safe}
use rustc_codegen_c.Safe.Compare.{intern_value_safe}

to_bool_safe :
    {b : Builder} {v : ValueRef} → IsSound b → HasValue b v → Done b IsValue (to_bool v b)
to_bool_safe {b = b} {v = v} s h = with_intern CTypeKind.bool s tt tt tt λ s1 g1 ht.
    with_type_of s1 _ (HasValue-Grows g1 h) λ ty hty.
      both_branches
        (λ (m : Build ValueRef).
          Done (with_type b CTypeKind.bool) IsValue (m (with_type b CTypeKind.bool)))
        (ty == (intern b.types CTypeKind.bool).1) (here s1 (HasValue-Grows g1 h))
        (with_text s1 _ (HasValue-Grows g1 h)
          λ x bx. new_temp_with_stmt_safe _ s1 ht (λ st. refl, bx))

retype_safe :
    {b : Builder} {v : ValueRef} {ty : TypeRef}
    → IsSound b
    → HasValue b v
    → HasType b ty
    → Done b IsValue (retype v ty b)
retype_safe {b = b} {ty = ty} s h ht = with_type_of s _ h λ actual hty.
    both_branches (λ (m : Build ValueRef). Done b IsValue (m b)) (actual == ty) (here s h)
      (with_text s _ h λ x bx. intern_value_safe (CValueKind.inline_expr x) s ht tt bx)

-- On a sound builder, reading a value of the store as a scalar, whose type is found, returns a
-- value of the store and leaves the builder sound.
pub to_immediate_scalar_safe :
    {b : Builder} {v : ValueRef} (is_bool : Bool) (scalar_to_c_type : Build TypeRef)
    → IsSound b
    → HasValue b v
    → ((b : Builder) → IsSound b → Done b IsType (scalar_to_c_type b))
    → Done b IsValue (to_immediate_scalar v is_bool scalar_to_c_type b)
unfolding to_immediate_scalar
to_immediate_scalar_safe true scalar s h found = to_bool_safe s h
to_immediate_scalar_safe {b = b} false scalar s h found =
    after_run _ (found b s) λ ty b' s' g ht. retype_safe s' (HasValue-Grows g h) ht
