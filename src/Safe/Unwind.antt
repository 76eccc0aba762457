-- ===== src/Safe/Unwind.antt =====
-- src/builder.rs: tail calls, calls with a landing pad, and what stands for landing pads, on a
-- sound builder.
use rustc_codegen_c.Prelude.{
  ℕ, ◌≡◌, refl, subst, Bool, true, List, [], ◌∷◌, Option, none, some, ◌==◌, get_elem?_total,
  if◌then◌else◌, both_branches,
}
use rustc_codegen_c.Prelude.Int.{pos}
use rustc_codegen_c.Prelude.Text.{Text, str, fmt}
use rustc_codegen_c.Prelude.Brackets.{IsBalanced, scan_over}
use rustc_codegen_c.Prelude.Outcome.{Outcome, ok, expect}
use rustc_codegen_c.Prelude.Outcome as Outcome
use rustc_codegen_c.Types.Kind.{TypeRef, CTypeKind}
use rustc_codegen_c.Types.Store as Types
use rustc_codegen_c.Values.Store.{ValueRef, CValueKind, CValueInfo}
use rustc_codegen_c.Values.Store as Values
use rustc_codegen_c.Module.Function.{FunctionDef, BasicBlockId}
use rustc_codegen_c.Module.Function as Function
use rustc_codegen_c.Module.Balance.{add_local_decl-FunctionBalanced}
use rustc_codegen_c.Builder.State.{Builder, Build, current_function}
use rustc_codegen_c.Builder.Emit.{block_label}
use rustc_codegen_c.Builder.Queries.{type_ptr}
use rustc_codegen_c.Builder.Flow.{retbuf_of, is_void_kind, ret, ret_void}
use rustc_codegen_c.Builder.Call.{FnAbi, sig_or, return_by, tail_return, tail_call}
use rustc_codegen_c.Builder.Unwind.{
  count_invoke, declare_unwind, setjmp_text, push_context, invoke, cleanup_landing_pad, unwind_text,
  resume, cleanup_ret, catch_switch,
}
use rustc_codegen_c.Consts.Values.{const_i32, const_null}
use rustc_codegen_c.Safe.Sound.{
  FunctionSound, IsSound, Grows, Grows-trans, HasValue, HasValue-Grows, IsOpen,
}
use rustc_codegen_c.Safe.Changes.{change-IsSound, change-Grows}
use rustc_codegen_c.Safe.Rules.{
  Done, IsValue, IsUnit, here, grow, after_run, with_answer, with_kind_of, with_text,
}
use rustc_codegen_c.Safe.Emit.{emit_safe, with_intern}
use rustc_codegen_c.Safe.Compare.{intern_value_safe}
use rustc_codegen_c.Safe.Aggregate.{refs_of}
use rustc_codegen_c.Safe.Atomics.{IsPair}
use rustc_codegen_c.Safe.Flow.{block_label-IsBalanced, end_with_safe, ret_safe, ret_void_safe}
use rustc_codegen_c.Safe.Call.{call_safe}
use rustc_codegen_c.Safe.Args.{AbiSafe, IsCallable, AreValues, values_grow, get-Grows}

abbrev SigAt : Option TypeRef → Option CValueInfo → Type 0
SigAt sig o =
    Outcome.◌>>=◌ (expect o) (λ (info : CValueInfo). ok (Values.kind_fn_sig info.kind)) ≡ ok sig

pub get_fn_sig-Grows :
    {b b' : Builder} (v : ValueRef) {sig : Option TypeRef}
    → Grows b b'
    → HasValue b v
    → Values.get_fn_sig b.values v ≡ ok sig
    → Values.get_fn_sig b'.values v ≡ ok sig
unfolding Values.get_fn_sig Values.get
get_fn_sig-Grows {b = b} {b' = b'} v {sig = sig} g h e =
    let (info, i) = get_elem?_total b.values.values v h in
    rw (g.values v info i) (subst (SigAt sig) i e)

return_kind_safe :
    {b : Builder} {result : ValueRef} (kind : CTypeKind)
    → IsSound b
    → HasValue b result
    → Done b IsUnit ((if is_void_kind kind then ret_void else ret result) b)
return_kind_safe {b = b} kind s h =
    both_branches (λ (m : Build Unit). Done b IsUnit (m b)) (is_void_kind kind) (ret_void_safe s)
      (ret_safe s h)

return_by_safe :
    {b : Builder} {result : ValueRef} (llty : TypeRef) (sig : Option TypeRef) {ret : TypeRef}
    {params : List TypeRef} {variadic : Bool}
    → IsSound b
    → HasValue b result
    → Types.get b.types (sig_or llty sig) ≡ ok (CTypeKind.function ret params variadic)
    → Done b IsUnit (return_by result sig b)
return_by_safe llty none s hr e =
    with_intern CTypeKind.void s tt tt tt
      λ s' g ht. with_kind_of s' _ ht λ kind e' _. return_kind_safe kind s' (HasValue-Grows g hr)
return_by_safe llty (some sig) s hr e =
    let (refs, inside) = refs_of s e in
    rw e (with_kind_of s _ refs.0 λ kind e' _. return_kind_safe kind s hr)

tail_return_safe :
    {b : Builder} (llfn : ValueRef) {result : ValueRef} (llty : TypeRef) {sig : Option TypeRef}
    {ret : TypeRef} {params : List TypeRef} {variadic : Bool} (retbuf : Option Text)
    → IsSound b
    → HasValue b result
    → Values.get_fn_sig b.values llfn ≡ ok sig
    → Types.get b.types (sig_or llty sig) ≡ ok (CTypeKind.function ret params variadic)
    → Done b IsUnit (tail_return llfn result retbuf b)
tail_return_safe llfn llty (some retbuf) s hr hs e = ret_void_safe s
tail_return_safe llfn llty {sig = sig} none s hr hs e =
    with_answer _ hs (return_by_safe llty sig s hr e)

-- On a sound builder, a tail call under the conditions of a call returns and leaves the builder
-- sound.
pub tail_call_safe :
    {b : Builder} {llty : TypeRef} (abi : FnAbi) {llfn : ValueRef} (args : List ValueRef)
    → IsSound b
    → AbiSafe (some abi)
    → HasValue b llfn
    → IsCallable b llty llfn
    → AreValues b args
    → Done b IsUnit (tail_call llty abi llfn args b)
unfolding tail_call
tail_call_safe {b = b} {llty = llty} abi {llfn = llfn} args s habi hf c ha =
    after_run _ (call_safe (some abi) args s habi hf c ha) λ result b1 s1 g1 hr.
      tail_return_safe llfn llty (retbuf_of (current_function b1)) s1 hr
        (get_fn_sig-Grows llfn g1 hf c.signed) (get-Grows (sig_or llty c.sig) g1 c.known)

pub decl_sound :
    (n : ℕ) (f : FunctionDef) (decl : Text)
    → IsBalanced decl
    → FunctionSound n f
    → FunctionSound n (Function.add_local_decl f decl)
unfolding Function.add_local_decl
decl_sound n f decl hd h = record {
  balanced = add_local_decl-FunctionBalanced f decl hd h.balanced;
  ret = h.ret;
  params = h.params;
  ret_data = h.ret_data;
  retbuf = h.retbuf;
}

count_sound : (n : ℕ) (f : FunctionDef) → FunctionSound n f → FunctionSound n (count_invoke f)
count_sound n f h =
    let d =
      both_branches (FunctionSound n) (f.invoke_counter == 0)
        (decl_sound n _ (str "struct __rustc_unwind_context __unwind_ctx;") (λ st. refl)
          (decl_sound n f (str "void *__exn_ptr;") (λ st. refl) h))
        h in
    record {
      balanced = record {
        name = d.balanced.name;
        prefix = d.balanced.prefix;
        params = d.balanced.params;
        overrides = d.balanced.overrides;
        decls = d.balanced.decls;
        blocks = d.balanced.blocks;
      };
      ret = d.ret;
      params = d.params;
      ret_data = d.ret_data;
      retbuf = d.retbuf;
    }

pub IsCallable-Grows :
    {b b' : Builder} {llty : TypeRef} {fn_val : ValueRef}
    → Grows b b'
    → HasValue b fn_val
    → IsCallable b llty fn_val
    → IsCallable b' llty fn_val
IsCallable-Grows {llty = llty} {fn_val = fn_val} g h c = record {
  sig = c.sig;
  ret = c.ret;
  params = c.params;
  variadic = c.variadic;
  signed = get_fn_sig-Grows fn_val g h c.signed;
  known = get-Grows (sig_or llty c.sig) g c.known;
}

-- Where the current function is open, counting the landing pad returns.
declare_unwind_safe : {b : Builder} → IsSound b → IsOpen b → Done b IsUnit (declare_unwind b)
unfolding declare_unwind
declare_unwind_safe {b = b} s (f, e) = rw e (
    grow (change-Grows b count_invoke)
      (here (change-IsSound b count_invoke s (λ g h. count_sound _ g h)) tt))

setjmp-IsBalanced : (l : Text) → IsBalanced l → IsBalanced (setjmp_text l)
setjmp-IsBalanced l h = λ st. scan_over l _ _ h

push_context_safe :
    {b : Builder} (l : Text) → IsSound b → IsBalanced l → Done b IsUnit (push_context l b)
push_context_safe l s h =
    after_run _ (emit_safe _ s ((λ st. refl, λ st. refl), λ st. refl)) λ _ b1 s1 g1 _.
      after_run _ (emit_safe _ s1 ((λ st. refl, λ st. refl), (λ st. refl, λ st. refl)))
        λ _ b2 s2 g2 _.
          after_run _ (emit_safe _ s2 (λ st. refl, λ st. refl))
            λ _ b3 s3 g3 _. emit_safe _ s3 (setjmp-IsBalanced l h)

-- On a sound builder with an open function, a call with a landing pad, under the conditions of a
-- call, returns a value of the store and leaves the builder sound.
pub invoke_safe :
    {b : Builder} {llty : TypeRef} (abi : Option FnAbi) {llfn : ValueRef} (args : List ValueRef)
    (then_bb catch_bb : BasicBlockId)
    → IsSound b
    → IsOpen b
    → AbiSafe abi
    → HasValue b llfn
    → IsCallable b llty llfn
    → AreValues b args
    → Done b IsValue (invoke llty abi llfn args then_bb catch_bb b)
unfolding invoke
invoke_safe {b = b} {llty = llty} abi {llfn = llfn} args then_bb catch_bb s o habi hf c ha =
    after_run _ (declare_unwind_safe s o) λ _ b1 s1 g1 _.
      after_run _
        (push_context_safe (block_label b1 catch_bb) s1 (block_label-IsBalanced catch_bb s1))
        λ _ b2 s2 g2 _.
          let g = Grows-trans g1 g2 in
          after_run _
            (call_safe abi args s2 habi (HasValue-Grows g hf) (IsCallable-Grows g hf c)
              (values_grow args g ha))
            λ result b3 s3 g3 hr.
              after_run _ (emit_safe _ s3 (λ st. refl, (λ st. refl, λ st. refl))) λ _ b4 s4 g4 _.
                after_run _ (end_with_safe _ s4 (block_label-IsBalanced then_bb s1))
                  λ _ b5 s5 g5 _. here s5 (HasValue-Grows g5 (HasValue-Grows g4 hr))

pub cleanup_landing_pad_safe : {b : Builder} → IsSound b → Done b IsPair (cleanup_landing_pad b)
unfolding cleanup_landing_pad type_ptr const_i32
cleanup_landing_pad_safe s = with_intern CTypeKind.ptr s tt tt tt λ s1 g1 ht.
    after_run _ (intern_value_safe (CValueKind.inline_expr (str "__exn_ptr")) s1 ht tt (λ st. refl))
      λ exn b2 s2 g2 he. with_intern (CTypeKind.int 32 true) s2 tt tt tt λ s3 g3 hi.
        after_run _ (intern_value_safe (CValueKind.int_const (pos 0)) s3 hi tt tt)
          λ zero b4 s4 g4 hz. here s4 (HasValue-Grows g4 (HasValue-Grows g3 he), hz)

unwind-IsBalanced : (e : Text) → IsBalanced e → IsBalanced (unwind_text e)
unwind-IsBalanced e h = λ st. scan_over e _ _ h

pub resume_safe :
    {b : Builder} {exn : ValueRef} → IsSound b → HasValue b exn → Done b IsUnit (resume exn b)
unfolding resume
resume_safe s h =
    with_text s _ h
      λ x bx. end_with_safe _ s (unwind-IsBalanced (fmt (str "(void *)" ∷ x ∷ [])) λ st. bx st)

pub cleanup_ret_safe :
    {b : Builder} (unwind : Option BasicBlockId) → IsSound b → Done b IsUnit (cleanup_ret unwind b)
unfolding cleanup_ret
cleanup_ret_safe none s = end_with_safe _ s (unwind-IsBalanced (str "__exn_ptr") λ st. refl)
cleanup_ret_safe (some target) s = end_with_safe _ s (block_label-IsBalanced target s)

pub catch_switch_safe : {b : Builder} → IsSound b → Done b IsValue (catch_switch b)
unfolding catch_switch type_ptr const_null
catch_switch_safe s =
    with_intern CTypeKind.ptr s tt tt tt
      λ s' g ht. intern_value_safe CValueKind.null_ptr s' ht tt tt
