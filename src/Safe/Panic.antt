-- ===== src/Safe/Panic.antt =====
-- src/builder.rs: calls that go by a type that is no function type.
use rustc_codegen_c.Prelude.{Bool, ℕ, suc, ◌≡◌, refl, List, [], ◌∷◌, Option, none, some}
use rustc_codegen_c.Prelude.Outcome.{ok, panic}
use rustc_codegen_c.CAst.Expr.{CExpr}
use rustc_codegen_c.CAst.Build.{var}
use rustc_codegen_c.Types.Kind.{TypeRef, CTypeKind}
use rustc_codegen_c.Types.Store as Types
use rustc_codegen_c.Values.Store.{ValueRef}
use rustc_codegen_c.Values.Store as Values
use rustc_codegen_c.Values.Total.{render_value_total}
use rustc_codegen_c.Builder.State.{Builder}
use rustc_codegen_c.Builder.Call.{
  FnAbi, is_indirect_ret, split_sret, sig_or, params_of, coerce_args, render_args, return_of,
  call_rest, call,
}
use rustc_codegen_c.Safe.Sound.{IsSound, HasValue}
use rustc_codegen_c.Safe.Call.{split_sound}
use rustc_codegen_c.Safe.Args.{AreValues}

-- Without parameter types, the arguments stay as they are.
coerce_args_plain :
    (i : ℕ) (args : List ValueRef) (b : Builder) → coerce_args i [] args b ≡ ok (args, b)
unfolding coerce_args
coerce_args_plain i [] b = refl
coerce_args_plain i (a ∷ args) b = rw (coerce_args_plain (suc i) args b) refl

render_args_stays :
    (args : List ValueRef) (b : Builder)
    → IsSound b
    → AreValues b args
    → (es : List CExpr) × (render_args args b ≡ ok (es, b))
unfolding render_args
render_args_stays [] b s h = ([], refl)
render_args_stays (a ∷ args) b s (h, hs) =
    let (x, e) = render_value_total b.values a s.values h in
    let (es, es_eq) = render_args_stays args b s hs in (var x ∷ es, rw (e, es_eq) refl)

pub data IsFunction : CTypeKind → Type 0 where
  is_function :
      {ret : TypeRef} {args : List TypeRef} {variadic : Bool}
      → IsFunction (CTypeKind.function ret args variadic)

-- Such a type has no parameters and no return type.
no_function :
    (kind : CTypeKind) → ¬ IsFunction kind → (params_of kind ≡ []) × (return_of kind ≡ panic)
no_function (CTypeKind.function ret args variadic) h = absurd (h IsFunction.is_function)
no_function _ h = (refl, refl)

call_rest_panics :
    (b : Builder) (llty : TypeRef) (abi : Option FnAbi) (fn_val : ValueRef) (sret : Option ValueRef)
    (args : List ValueRef) (sig : Option TypeRef) {kind : CTypeKind}
    → IsSound b
    → HasValue b fn_val
    → AreValues b args
    → Values.get_fn_sig b.values fn_val ≡ ok sig
    → Types.get b.types (sig_or llty sig) ≡ ok kind
    → ¬ IsFunction kind
    → call_rest llty abi fn_val sret args b ≡ panic
call_rest_panics b llty abi fn_val sret args none {kind = kind} s hf ha hs hk hp =
    let (es, e) = render_args_stays args b s ha in
    let (no_params, no_return) = no_function kind hp in
    let (f, ef) = render_value_total b.values fn_val s.values hf in
    rw (hs, hk, no_params, coerce_args_plain 0 args b, e, ef, hk, no_return) refl
call_rest_panics b llty abi fn_val sret args (some sig) {kind = kind} s hf ha hs hk hp =
    let (es, e) = render_args_stays args b s ha in
    let (no_params, no_return) = no_function kind hp in
    rw (hs, hk, no_params, coerce_args_plain 0 args b, e, hk, no_return) refl

-- On a sound builder, a call of a value of the store with arguments of the store is a panic if the
-- type that it goes by, the callee's signature or else the type that is given, is any type but a
-- function type.
pub call_panics :
    (b : Builder) (llty : TypeRef) (abi : Option FnAbi) (fn_val : ValueRef) (args : List ValueRef)
    (sig : Option TypeRef) {kind : CTypeKind}
    → IsSound b
    → HasValue b fn_val
    → AreValues b args
    → Values.get_fn_sig b.values fn_val ≡ ok sig
    → Types.get b.types (sig_or llty sig) ≡ ok kind
    → ¬ IsFunction kind
    → call llty abi fn_val args b ≡ panic
unfolding call
call_panics b llty abi fn_val args sig s hf ha hs hk hp =
    let (_, hargs) = split_sound b (is_indirect_ret abi) args ha in
    call_rest_panics b llty abi fn_val (split_sret (is_indirect_ret abi) args).0
      (split_sret (is_indirect_ret abi) args).1 sig s hf hargs hs hk hp
