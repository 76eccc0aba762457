-- ===== src/Safe/Args.antt =====
-- src/builder.rs: the arguments of a call, on a sound builder.
use rustc_codegen_c.Prelude.{
  ℕ, zero, suc, ◌≡◌, ◌∙◌, Bool, ◌&&◌, List, [], ◌∷◌, Option, none, some, All, All-map, get_elem?,
  both_branches,
}
use rustc_codegen_c.Prelude.Text.{str, fmt}
use rustc_codegen_c.Prelude.Brackets.{scan_over}
use rustc_codegen_c.Prelude.Outcome.{ok}
use rustc_codegen_c.CAst.Expr.{CExpr, exprs}
use rustc_codegen_c.CAst.Brackets.{ItemsBalanced}
use rustc_codegen_c.CAst.Build.{var}
use rustc_codegen_c.Types.Kind.{TypeRef, CTypeKind}
use rustc_codegen_c.Types.Store as Types
use rustc_codegen_c.Types.Interning.{get-eq-ok, get_of_elem}
use rustc_codegen_c.Values.Store.{ValueRef, CValueKind}
use rustc_codegen_c.Values.Store as Values
use rustc_codegen_c.Builder.State.{Builder, Build}
use rustc_codegen_c.Builder.Convert.{is_ptr}
use rustc_codegen_c.Builder.Call.{
  FnAbi, sig_or, is_struct, pass_by_value, coerce_arg, coerce_args, render_args,
}
use rustc_codegen_c.Safe.Sound.{IsSound, Grows, HasType, HasValue, HasType-Grows, HasValue-Grows}
use rustc_codegen_c.Safe.Rules.{
  Done, IsValue, IsType, here, after_run, with_type_of, with_kind_of, with_text, with_type_text,
}
use rustc_codegen_c.Safe.Emit.{IsTypeOption, coerce_ptr_int_safe}
use rustc_codegen_c.Safe.Compare.{intern_value_safe}

-- The calling convention, if any, gives the result a type of the store.
abbrev pub AbiSafe : Option FnAbi → Type 0
AbiSafe none = Unit
AbiSafe (some abi) = (b : Builder) → IsSound b → Done b IsType (abi.ret_layout b)

-- The type that the call goes by, the callee's signature or the type that is given, is a function
-- type.
pub record IsCallable (b : Builder) (llty : TypeRef) (fn_val : ValueRef) : Type 0 where
  pub sig : Option TypeRef
  pub ret : TypeRef
  pub params : List TypeRef
  pub variadic : Bool
  pub signed : Values.get_fn_sig b.values fn_val ≡ ok sig
  pub known : Types.get b.types (sig_or llty sig) ≡ ok (CTypeKind.function ret params variadic)

pub get-Grows :
    {b b' : Builder} (ty : TypeRef) {kind : CTypeKind}
    → Grows b b'
    → Types.get b.types ty ≡ ok kind
    → Types.get b'.types ty ≡ ok kind
get-Grows {b = b} {b' = b'} ty {kind = kind} g e =
    get_of_elem b'.types ty (g.types ty kind (get-eq-ok b.types ty e))

pass_by_value_safe :
    {b : Builder} {a : ValueRef} {pty : TypeRef}
    → IsSound b
    → HasValue b a
    → HasType b pty
    → Done b IsValue (pass_by_value a pty b)
pass_by_value_safe s ha ht = with_text s _ ha λ x bx. with_type_text s _ ht λ t bt.
    intern_value_safe (CValueKind.inline_expr (fmt (str "*(" ∷ t ∷ str " *)" ∷ x ∷ []))) s ht tt
      λ st. scan_over t _ _ bt ∙ bx st

coerce_arg_safe :
    {b : Builder} {a : ValueRef} (pty : Option TypeRef)
    → IsSound b
    → HasValue b a
    → IsTypeOption b pty
    → Done b IsValue (coerce_arg a pty b)
coerce_arg_safe none s ha ht = here s ha
coerce_arg_safe {b = b} (some pty) s ha ht = with_kind_of s _ ht λ param e _.
    with_type_of s _ ha λ ty hty. with_kind_of s _ hty λ value e' _.
      both_branches (λ (m : Build ValueRef). Done b IsValue (m b)) (is_struct param && is_ptr value)
        (pass_by_value_safe s ha ht) (coerce_ptr_int_safe s ha ht)

param_inside :
    (b : Builder) (params : List TypeRef) (i : ℕ)
    → All (HasType b) params
    → IsTypeOption b (get_elem? params i)
param_inside b [] i h = tt
param_inside b (p ∷ params) zero (h, hs) = h
param_inside b (p ∷ params) (suc i) (h, hs) = param_inside b params i hs

-- A call that returns values of the store.
abbrev pub AreValues : Builder → List ValueRef → Type 0
AreValues b vs = All (HasValue b) vs

pub values_grow :
    {b b' : Builder} (vs : List ValueRef) → Grows b b' → AreValues b vs → AreValues b' vs
values_grow vs g h = All-map vs (λ v hv. HasValue-Grows g hv) h

pub types_grow :
    {b b' : Builder} (ts : List TypeRef) → Grows b b' → All (HasType b) ts → All (HasType b') ts
types_grow ts g h = All-map ts (λ t ht. HasType-Grows g ht) h

pub coerce_args_safe :
    {b : Builder} (i : ℕ) (params : List TypeRef) (args : List ValueRef)
    → IsSound b
    → All (HasType b) params
    → AreValues b args
    → Done b AreValues (coerce_args i params args b)
unfolding coerce_args
coerce_args_safe i params [] s hp ha = here s tt
coerce_args_safe {b = b} i params (a ∷ args) s hp (h, hs) =
    after_run _ (coerce_arg_safe (get_elem? params i) s h (param_inside b params i hp))
      λ arg b1 s1 g1 harg.
        after_run _
          (coerce_args_safe (suc i) params args s1 (types_grow params g1 hp)
            (values_grow args g1 hs))
          λ rest b2 s2 g2 hrest. here s2 (HasValue-Grows g2 harg, hrest)

abbrev AreExprs : Builder → List CExpr → Type 0
AreExprs b es = ItemsBalanced (exprs es)

pub render_args_safe :
    {b : Builder} (args : List ValueRef)
    → IsSound b
    → AreValues b args
    → Done b AreExprs (render_args args b)
unfolding render_args
render_args_safe [] s h = here s tt
render_args_safe (a ∷ args) s (h, hs) = with_text s _ h λ x bx.
    after_run _ (render_args_safe args s hs) λ xs b' s' g hxs. here {a = var x ∷ xs} s' (bx, hxs)
