-- ===== src/Safe/Store.antt =====
-- src/builder.rs: stores on a sound builder.
use rustc_codegen_c.Prelude.{ℕ, [], ◌∷◌, both_branches, refl, ◌==◌, ltb}
use rustc_codegen_c.Prelude.Text.{Text, str, fmt}
use rustc_codegen_c.Prelude.Brackets.{IsBalanced}
use rustc_codegen_c.Types.Kind.{TypeRef, CTypeKind}
use rustc_codegen_c.Values.Store.{ValueRef}
use rustc_codegen_c.Builder.State.{Builder, Build}
use rustc_codegen_c.Builder.Memory.{
  store_plain, store_wide, store_kind, store, store_loop, atomic_store,
}
use rustc_codegen_c.Safe.Sound.{IsSound, HasType, HasValue, HasValue-Grows}
use rustc_codegen_c.Safe.Rules.{
  Done, IsValue, IsUnit, here, after_run, with_type_of, with_kind_of, with_text, with_type_text,
}
use rustc_codegen_c.Safe.Emit.{emit_safe, with_new_temp, with_decl}
use rustc_codegen_c.Safe.Memory.{
  atomic_type-IsBalanced, declare_text-IsBalanced, emit_call_safe, pointer_type-IsBalanced,
}

store_plain_safe :
    {b : Builder} {ty : TypeRef} (v p : Text)
    → IsSound b
    → HasType b ty
    → IsBalanced v
    → IsBalanced p
    → Done b IsUnit (store_plain ty v p b)
store_plain_safe v p s ht hv hp =
    with_type_text s _ ht λ t bt. emit_safe _ s ((pointer_type-IsBalanced t bt, hp), hv)

store_wide_safe :
    {b : Builder} {ty : TypeRef} (v p : Text)
    → IsSound b
    → HasType b ty
    → IsBalanced v
    → IsBalanced p
    → Done b IsUnit (store_wide ty v p b)
store_wide_safe v p s ht hv hp = with_type_text s _ ht λ t bt. with_new_temp s ht λ s1 g1 hx.
    with_text s1 _ hx λ name hn.
      with_decl (fmt (t ∷ str " " ∷ name ∷ str ";" ∷ [])) s1 (declare_text-IsBalanced t name bt hn)
        λ s2 g2.
          after_run _ (emit_safe _ s2 (hn, hv))
            λ _ b3 s3 g3 _. emit_call_safe (str "memcpy") _ _ _ s3 (λ st. refl) hp hn (λ st. refl)

store_kind_safe :
    {b : Builder} {ty : TypeRef} (v p : Text) (kind : CTypeKind)
    → IsSound b
    → HasType b ty
    → IsBalanced v
    → IsBalanced p
    → Done b IsUnit (store_kind ty v p kind b)
store_kind_safe v p (CTypeKind.array element len) s ht hv hp =
    emit_call_safe (str "memcpy") _ _ _ s (λ st. refl) hp hv hv
store_kind_safe {b = b} v p (CTypeKind.int bits signed) s ht hv hp =
    both_branches (λ (m : Build Unit). Done b IsUnit (m b)) (bits == 128)
      (store_wide_safe v p s ht hv hp) (store_plain_safe v p s ht hv hp)
store_kind_safe v p _ s ht hv hp = store_plain_safe v p s ht hv hp

-- On a sound builder, a store of one value of the store to another returns the value and leaves the
-- builder sound.
pub store_safe :
    {b : Builder} {v p : ValueRef}
    → IsSound b
    → HasValue b v
    → HasValue b p
    → Done b IsValue (store v p b)
unfolding store
store_safe s hv hp = with_text s _ hv λ x bx. with_text s _ hp λ y by. with_type_of s _ hv λ ty ht.
    with_kind_of s _ ht λ kind e _.
      after_run _ (store_kind_safe x y kind s ht bx by) λ _ b' s' g _. here s' (HasValue-Grows g hv)

pub atomic_store_safe :
    {b : Builder} {v p : ValueRef} (size : ℕ)
    → IsSound b
    → HasValue b v
    → HasValue b p
    → Done b IsUnit (atomic_store v p size b)
unfolding atomic_store
atomic_store_safe {b = b} size s hv hp = with_text s _ hv λ x bx. with_text s _ hp λ y by.
    with_type_of s _ hv λ ty ht. with_type_text s _ ht λ t bt.
      both_branches (λ (m : Build Unit). Done b IsUnit (m b)) (ltb 8 size)
        (with_new_temp s ht λ s1 g1 ho. with_text s1 _ ho λ name hn.
          with_decl (fmt (t ∷ str " " ∷ name ∷ str ";" ∷ [])) s1
            (declare_text-IsBalanced t name bt hn)
            λ s2 g2. emit_safe (store_loop t name x y) s2 (
              ((hn, (pointer_type-IsBalanced t bt, by)), tt),
              (λ st. refl, ((pointer_type-IsBalanced t bt, by), (hn, (bx, tt)))),
            ))
        (emit_safe _ s (λ st. refl, ((atomic_type-IsBalanced t bt, by), (bx, tt))))
