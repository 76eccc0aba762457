-- ===== src/Safe/Checked.antt =====
-- src/builder.rs: checked arithmetic on a sound builder.
use rustc_codegen_c.Prelude.{refl, ◌∙◌, Bool, true, false, [], ◌∷◌}
use rustc_codegen_c.Prelude.Text.{str, fmt}
use rustc_codegen_c.Prelude.Brackets.{IsBalanced, scan_over, show-IsBalanced}
use rustc_codegen_c.Types.Kind.{CTypeKind, c_bits}
use rustc_codegen_c.Values.Store.{ValueRef}
use rustc_codegen_c.Builder.State.{Builder}
use rustc_codegen_c.Builder.Checked.{
  OverflowOp, overflow_name, sign_letter, overflow_suffix, checked_binop,
}
use rustc_codegen_c.Safe.Sound.{IsSound, HasValue, HasType-Grows, HasValue-Grows}
use rustc_codegen_c.Safe.Rules.{
  Done, here, after_run, with_type_of, with_kind_of, with_text, with_type_text,
}
use rustc_codegen_c.Safe.Emit.{emit_safe, with_intern, with_new_temp, with_decl}
use rustc_codegen_c.Safe.Memory.{declare_text-IsBalanced}
use rustc_codegen_c.Safe.Atomics.{IsPair}

letter-IsBalanced : (signed : Bool) → IsBalanced (sign_letter signed)
letter-IsBalanced true = λ st. refl
letter-IsBalanced false = λ st. refl

suffix-IsBalanced : (kind : CTypeKind) → IsBalanced (overflow_suffix kind)
suffix-IsBalanced (CTypeKind.int bits signed) = λ st.
    scan_over (sign_letter signed) _ st (letter-IsBalanced signed)
    ∙ show-IsBalanced (c_bits bits) st
suffix-IsBalanced (CTypeKind.ptr_width signed) =
    λ st. scan_over (sign_letter signed) _ st (letter-IsBalanced signed)
suffix-IsBalanced _ = λ st. refl

overflow-IsBalanced : (op : OverflowOp) → IsBalanced (overflow_name op)
overflow-IsBalanced OverflowOp.add = λ st. refl
overflow-IsBalanced OverflowOp.sub = λ st. refl
overflow-IsBalanced OverflowOp.mul = λ st. refl

helper-IsBalanced :
    (op : OverflowOp) (kind : CTypeKind)
    → IsBalanced
        (fmt (str "__rustc_" ∷ overflow_name op ∷ str "_overflow_" ∷ overflow_suffix kind ∷ []))
helper-IsBalanced op kind =
    λ st. scan_over (overflow_name op) _ st (overflow-IsBalanced op) ∙ suffix-IsBalanced kind st

-- On a sound builder, a checked operation on values of the store returns two values of the store
-- and leaves the builder sound.
pub checked_binop_safe :
    {b : Builder} (op : OverflowOp) {lhs rhs : ValueRef}
    → IsSound b
    → HasValue b lhs
    → HasValue b rhs
    → Done b IsPair (checked_binop op lhs rhs b)
unfolding checked_binop
checked_binop_safe op s hl hr = with_type_of s _ hl λ ty ht. with_new_temp s ht λ s1 g1 hres.
    with_text s1 _ hres λ name hn. with_type_text s1 _ (HasType-Grows g1 ht) λ t bt.
      with_decl (fmt (t ∷ str " " ∷ name ∷ str ";" ∷ [])) s1 (declare_text-IsBalanced t name bt hn)
        λ s2 g2. with_text s2 _ (HasValue-Grows g1 hl) λ l bl.
          with_text s2 _ (HasValue-Grows g1 hr) λ r br.
            with_kind_of s2 _ (HasType-Grows g1 ht) λ kind e _.
              with_intern CTypeKind.bool s2 tt tt tt λ s3 g3 hb. with_new_temp s3 hb λ s4 g4 hf.
                with_text s4 _ hf λ flag bf.
                  with_decl (fmt (str "_Bool " ∷ flag ∷ str ";" ∷ [])) s4
                    (λ st. scan_over flag _ st bf)
                    λ s5 g5.
                      after_run _
                        (emit_safe _ s5 (bf, (helper-IsBalanced op kind, (bl, (br, (hn, tt))))))
                        λ _ b6 s6 g6 _. here s6 (
                          HasValue-Grows g6 (HasValue-Grows g4 (HasValue-Grows g3 hres)),
                          HasValue-Grows g6 hf,
                        )
