-- ===== src/Safe/Call.antt =====
-- src/builder.rs: calls of functions on a sound builder.
use rustc_codegen_c.Prelude.{
  ◌≡◌, refl, ◌∙◌, Bool, true, false, List, [], ◌∷◌, Option, none, some, both_branches,
}
use rustc_codegen_c.Prelude.Text.{Text}
use rustc_codegen_c.Prelude.Brackets.{IsBalanced, scan_over}
use rustc_codegen_c.Prelude.Outcome.{ok}
use rustc_codegen_c.CAst.Expr.{CExpr, exprs}
use rustc_codegen_c.CAst.Brackets.{ItemsBalanced}
use rustc_codegen_c.CAst.Build.{var, call as call_expr}
use rustc_codegen_c.Types.Kind.{TypeRef, CTypeKind}
use rustc_codegen_c.Types.Store as Types
use rustc_codegen_c.Values.Store.{ValueRef, CValueKind}
use rustc_codegen_c.Builder.State.{Builder, Build}
use rustc_codegen_c.Builder.Queries.{type_ptr}
use rustc_codegen_c.Builder.Flow.{is_void_kind}
use rustc_codegen_c.Builder.Call.{
  FnAbi, is_indirect_ret, returns_bool_scalar, split_sret, sig_or, callee_by, indirect_ret_ty,
  void_result, call_void, convert_result, call_rest, call,
}
use rustc_codegen_c.Consts.Values.{const_null, const_undef}
use rustc_codegen_c.Safe.Sound.{IsSound, Grows, HasType, HasValue, HasType-Grows, HasValue-Grows}
use rustc_codegen_c.Safe.Rules.{
  Done, IsValue, IsType, here, after_run, with_answer, with_kind_of, with_text, with_type_text,
}
use rustc_codegen_c.Safe.Emit.{emit_safe, with_intern, new_temp_with_stmt_safe}
use rustc_codegen_c.Safe.Memory.{pointer_type-IsBalanced}
use rustc_codegen_c.Safe.Compare.{intern_value_safe}
use rustc_codegen_c.Safe.Aggregate.{refs_of}
use rustc_codegen_c.Safe.Args.{
  AbiSafe, AreValues, IsCallable, coerce_args_safe, get-Grows, render_args_safe,
}

-- A call that returns the callee.
abbrev IsCallee : Builder → TypeRef × Text → Type 0
IsCallee b c = HasType b c.0 × IsBalanced c.1

IsCallee-safe :
    {b : Builder} {fn_val : ValueRef} (llty : TypeRef) {ret : TypeRef} {params : List TypeRef}
    {variadic : Bool} (sig : Option TypeRef)
    → IsSound b
    → HasValue b fn_val
    → Types.get b.types (sig_or llty sig) ≡ ok (CTypeKind.function ret params variadic)
    → Done b IsCallee (callee_by fn_val llty sig b)
IsCallee-safe llty (some sig) s hf e =
    let (refs, inside) = refs_of s e in
    with_answer _ e (with_text s _ hf λ x bx. here s (refs.0, bx))
IsCallee-safe llty none s hf e =
    let (refs, inside) = refs_of s e in
    with_text s _ hf λ x bx. with_answer _ e (
      with_type_text s _ inside
        λ t bt. here s (refs.0, λ st. scan_over t _ _ bt ∙ scan_over x _ _ bx))

indirect_ret_ty_safe :
    {b : Builder} (abi : Option FnAbi)
    → IsSound b
    → AbiSafe abi
    → Done b IsType (indirect_ret_ty abi b)
unfolding type_ptr
indirect_ret_ty_safe none s h = with_intern CTypeKind.ptr s tt tt tt λ s' g ht. here s' ht
indirect_ret_ty_safe {b = b} (some abi) s h = h b s

void_result_safe :
    {b : Builder} (abi : Option FnAbi) (indirect : Bool)
    → IsSound b
    → AbiSafe abi
    → Done b IsValue (void_result abi indirect b)
unfolding const_undef const_null type_ptr
void_result_safe abi true s h =
    after_run _ (indirect_ret_ty_safe abi s h)
      λ ty b' s' g ht. intern_value_safe CValueKind.undef s' ht tt tt
void_result_safe abi false s h =
    with_intern CTypeKind.ptr s tt tt tt
      λ s' g ht. intern_value_safe CValueKind.null_ptr s' ht tt tt

call_void_safe :
    {b : Builder} (abi : Option FnAbi) (f : Text) (es : List CExpr)
    → IsSound b
    → AbiSafe abi
    → IsBalanced f
    → ItemsBalanced (exprs es)
    → Done b IsValue (call_void abi f es b)
call_void_safe abi f es s h hf hes =
    after_run _ (emit_safe _ s (hf, hes))
      λ _ b' s' g _. void_result_safe abi (is_indirect_ret abi) s' h

-- The buffer for the result, if any, is a value of the store.
abbrev SretSound : Builder → Option ValueRef → Type 0
SretSound b none = Unit
SretSound b (some sret) = HasValue b sret

sret-Grows :
    {b b' : Builder} (sret : Option ValueRef) → Grows b b' → SretSound b sret → SretSound b' sret
sret-Grows none g h = tt
sret-Grows (some sret) g h = HasValue-Grows g h

convert_result_safe :
    {b : Builder} (returns_bool : Bool) {ret_ty : TypeRef} {result : ValueRef}
    (sret : Option ValueRef)
    → IsSound b
    → HasType b ret_ty
    → HasValue b result
    → SretSound b sret
    → Done b IsValue (convert_result returns_bool ret_ty result sret b)
convert_result_safe returns_bool (some sret) s ht hr hs = with_text s _ hr λ r br.
    with_text s _ hs λ x bx. with_type_text s _ ht λ t bt.
      after_run _ (emit_safe _ s ((pointer_type-IsBalanced t bt, bx), br))
        λ _ b' s' g _. here s' (HasValue-Grows g hs)
convert_result_safe true none s ht hr hs = with_intern CTypeKind.bool s tt tt tt λ s' g hb.
    with_text s' _ (HasValue-Grows g hr) λ x bx. new_temp_with_stmt_safe _ s' hb (λ st. refl, bx)
convert_result_safe false none s ht hr hs = here s hr

pub split_sound :
    (b : Builder) (indirect : Bool) (args : List ValueRef)
    → AreValues b args
    → SretSound b (split_sret indirect args).0 × AreValues b (split_sret indirect args).1
split_sound b true (sret ∷ args) (h, hs) = (h, hs)
split_sound b true [] h = (tt, tt)
split_sound b false args h = (tt, h)

call_rest_safe :
    {b : Builder} {llty : TypeRef} (abi : Option FnAbi) {fn_val : ValueRef} (sret : Option ValueRef)
    (args : List ValueRef)
    → IsSound b
    → AbiSafe abi
    → HasValue b fn_val
    → IsCallable b llty fn_val
    → SretSound b sret
    → AreValues b args
    → Done b IsValue (call_rest llty abi fn_val sret args b)
call_rest_safe {llty = llty} abi sret args s habi hf c hs ha =
    let (refs, inside) = refs_of s c.known in
    with_answer _ c.signed (
      with_answer _ c.known (
        after_run _ (coerce_args_safe 0 c.params args s refs.1 ha) λ coerced b1 s1 g1 hc.
          after_run _ (render_args_safe coerced s1 hc) λ es b2 s2 g2 hes.
            after_run _
              (IsCallee-safe llty c.sig s2 (HasValue-Grows g2 (HasValue-Grows g1 hf))
                (get-Grows (sig_or llty c.sig) g2 (get-Grows (sig_or llty c.sig) g1 c.known)))
              λ callee b3 s3 g3 hcallee. with_kind_of s3 _ hcallee.0 λ kind e _.
                both_branches (λ (m : Build ValueRef). Done b3 IsValue (m b3)) (is_void_kind kind)
                  (call_void_safe abi callee.1 es s3 habi hcallee.1 hes)
                  (after_run _
                    (new_temp_with_stmt_safe (call_expr (var callee.1) es) s3 hcallee.0
                      (hcallee.1, hes))
                    λ result b4 s4 g4 hr.
                      convert_result_safe (returns_bool_scalar abi) sret s4
                        (HasType-Grows g4 hcallee.0) hr
                        (sret-Grows sret g4
                          (sret-Grows sret g3 (sret-Grows sret g2 (sret-Grows sret g1 hs)))))))

-- On a sound builder, a call of a value of the store by a function type, with arguments of the
-- store and a calling convention that gives the result a type of the store, returns a value of the
-- store and leaves the builder sound.
pub call_safe :
    {b : Builder} {llty : TypeRef} (abi : Option FnAbi) {fn_val : ValueRef} (args : List ValueRef)
    → IsSound b
    → AbiSafe abi
    → HasValue b fn_val
    → IsCallable b llty fn_val
    → AreValues b args
    → Done b IsValue (call llty abi fn_val args b)
unfolding call
call_safe {b = b} abi args s habi hf c ha =
    let (hs, hargs) = split_sound b (is_indirect_ret abi) args ha in
    call_rest_safe abi (split_sret (is_indirect_ret abi) args).0
      (split_sret (is_indirect_ret abi) args).1 s habi hf c hs hargs
