-- ===== src/Safe/Bitcast.antt =====
-- src/builder.rs: bitcasts on a sound builder.
use rustc_codegen_c.Prelude.{ℕ, ◌&&◌, [], ◌∷◌, both_branches, refl, ◌==◌}
use rustc_codegen_c.Prelude.Text.{str, fmt}
use rustc_codegen_c.Types.Kind.{TypeRef}
use rustc_codegen_c.Values.Store.{ValueRef}
use rustc_codegen_c.Builder.State.{Builder, Build}
use rustc_codegen_c.Builder.Convert.{is_ptr, same_width, copy_bits, bitcast}
use rustc_codegen_c.Safe.Sound.{IsSound, HasType, HasValue, HasType-Grows, HasValue-Grows}
use rustc_codegen_c.Safe.Rules.{
  Done, IsValue, here, after_run, with_type_of, with_kind_of, with_text, with_type_text,
}
use rustc_codegen_c.Safe.Emit.{emit_safe, with_new_temp, with_decl, cast_safe}
use rustc_codegen_c.Safe.Memory.{declare_text-IsBalanced, emit_call_safe}

copy_bits_safe :
    {b : Builder} {v : ValueRef} {src_ty dest_ty : TypeRef}
    → IsSound b
    → HasValue b v
    → HasType b src_ty
    → HasType b dest_ty
    → Done b IsValue (copy_bits v src_ty dest_ty b)
copy_bits_safe s hv hs hd = with_new_temp s hd λ s1 g1 hr. with_text s1 _ hr λ name hn.
    with_type_text s1 _ (HasType-Grows g1 hd) λ d bd. with_text s1 _ (HasValue-Grows g1 hv) λ x bx.
      with_type_text s1 _ (HasType-Grows g1 hs) λ t bt.
        with_new_temp s1 (HasType-Grows g1 hs) λ s2 g2 hsrc. with_text s2 _ hsrc λ src bsrc.
          with_decl (fmt (d ∷ str " " ∷ name ∷ str ";" ∷ [])) s2
            (declare_text-IsBalanced d name bd hn)
            λ s3 g3.
              with_decl (fmt (t ∷ str " " ∷ src ∷ str ";" ∷ [])) s3
                (declare_text-IsBalanced t src bt bsrc)
                λ s4 g4. after_run _ (emit_safe _ s4 (bsrc, bx)) λ _ b5 s5 g5 _.
                  after_run _ (emit_call_safe (str "memcpy") _ _ _ s5 (λ st. refl) hn bsrc hn)
                    λ _ b6 s6 g6 _.
                      here s6 (HasValue-Grows g6 (HasValue-Grows g5 (HasValue-Grows g2 hr)))

-- On a sound builder, a copy of the bits of a value of the store returns a value of the store and
-- leaves the builder sound.
pub bitcast_safe :
    {b : Builder} (pointer_bits : ℕ) {v : ValueRef} {dest_ty : TypeRef}
    → IsSound b
    → HasValue b v
    → HasType b dest_ty
    → Done b IsValue (bitcast pointer_bits v dest_ty b)
unfolding bitcast
bitcast_safe {b = b} pointer_bits {dest_ty = dest_ty} s hv hd = with_type_of s _ hv λ src_ty hs.
    both_branches Returns (src_ty == dest_ty) (here s hv) (
      with_kind_of s _ hs λ src e _. with_kind_of s _ hd λ dst e' _.
        both_branches Returns (is_ptr src && is_ptr dst) (cast_safe s hv hd) (
          both_branches Returns (same_width pointer_bits src dst) (cast_safe s hv hd)
            (copy_bits_safe s hv hs hd)))
  where
    Returns : Build ValueRef → Type 0
    Returns m = Done b IsValue (m b)
