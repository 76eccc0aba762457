-- ===== src/Safe/Atomics.antt =====
-- src/builder.rs: atomic operations on a sound builder.
use rustc_codegen_c.Prelude.{refl, ◌∙◌, [], ◌∷◌, Option, none, some}
use rustc_codegen_c.Prelude.Text.{Text, str, fmt}
use rustc_codegen_c.Prelude.Brackets.{IsBalanced, scan_over}
use rustc_codegen_c.CAst.Op.{CBinOp}
use rustc_codegen_c.CAst.Expr.{CExpr}
use rustc_codegen_c.CAst.Build.{var, call, addr_of}
use rustc_codegen_c.CAst.Brackets.{LeavesBalanced}
use rustc_codegen_c.Types.Kind.{TypeRef, CTypeKind}
use rustc_codegen_c.Values.Store.{ValueRef}
use rustc_codegen_c.Builder.State.{Builder}
use rustc_codegen_c.Builder.Atomics.{
  AtomicOrdering, atomic_ordering_to_c, SynchronizationScope, fence_fn, atomic_fence,
  atomic_cmpxchg, AtomicRmwBinOp, RmwMethod, rmw_method, choice_sign, choice_text, unsigned_text,
  unsigned_choice_text, rmw_text, rmw_loop, wanted_expr, rmw_with_loop, rmw_by, atomic_rmw,
  atomic_ptr,
}
use rustc_codegen_c.Safe.Sound.{IsSound, HasType, HasValue, HasType-Grows, HasValue-Grows}
use rustc_codegen_c.Safe.Rules.{
  Done, IsValue, IsUnit, here, after_run, with_type_of, with_text, with_type_text,
}
use rustc_codegen_c.Safe.Emit.{
  IsTypeOption, emit_safe, with_intern, with_new_temp, with_decl, new_temp_with_stmt_safe,
  unsigned_type_safe,
}
use rustc_codegen_c.Safe.Memory.{declare_text-IsBalanced, atomic_type-IsBalanced}

ordering-IsBalanced : (order : AtomicOrdering) → IsBalanced (atomic_ordering_to_c order)
unfolding atomic_ordering_to_c
ordering-IsBalanced AtomicOrdering.relaxed = λ st. refl
ordering-IsBalanced _ = λ st. refl

fence-IsBalanced : (scope : SynchronizationScope) → IsBalanced (fence_fn scope)
fence-IsBalanced SynchronizationScope.single_thread = λ st. refl
fence-IsBalanced SynchronizationScope.cross_thread = λ st. refl

pub atomic_fence_safe :
    {b : Builder} (order : AtomicOrdering) (scope : SynchronizationScope)
    → IsSound b
    → Done b IsUnit (atomic_fence order scope b)
unfolding atomic_fence
atomic_fence_safe order scope s =
    emit_safe _ s (fence-IsBalanced scope, (ordering-IsBalanced order, tt))

-- A call that returns two values of the store.
abbrev pub IsPair : Builder → ValueRef × ValueRef → Type 0
IsPair b p = HasValue b p.0 × HasValue b p.1

-- On a sound builder, a compare and exchange of values of the store returns two values of the store
-- and leaves the builder sound.
pub atomic_cmpxchg_safe :
    {b : Builder} {dst cmp src : ValueRef}
    → IsSound b
    → HasValue b dst
    → HasValue b cmp
    → HasValue b src
    → Done b IsPair (atomic_cmpxchg dst cmp src b)
unfolding atomic_cmpxchg
atomic_cmpxchg_safe s hd hc hs = with_type_of s _ hc λ ty ht.
    with_intern CTypeKind.bool s tt tt tt λ s1 g1 hb. with_text s1 _ (HasValue-Grows g1 hd) λ d bd.
      with_text s1 _ (HasValue-Grows g1 hc) λ c bc. with_text s1 _ (HasValue-Grows g1 hs) λ x bx.
        with_type_text s1 _ (HasType-Grows g1 ht) λ t bt.
          after_run _ (new_temp_with_stmt_safe (var c) s1 (HasType-Grows g1 ht) bc)
            λ old b2 s2 g2 ho. with_text s2 _ ho λ name hn.
              after_run _
                (new_temp_with_stmt_safe
                  (call (var (str "atomic_compare_exchange_strong"))
                    (atomic_ptr t d ∷ addr_of (var name) ∷ var x ∷ []))
                  s2 (HasType-Grows g2 hb)
                  (λ st. refl, ((atomic_type-IsBalanced t bt, bd), (hn, (bx, tt)))))
                λ success b3 s3 g3 hv. here s3 (HasValue-Grows g3 ho, hv)

sign-IsBalanced : (op : CBinOp) → IsBalanced (choice_sign op)
sign-IsBalanced CBinOp.lt = λ st. refl
sign-IsBalanced _ = λ st. refl

choice-IsBalanced :
    (op : CBinOp) (old x : Text) → IsBalanced old → IsBalanced x → IsBalanced (choice_text op old x)
choice-IsBalanced op old x ho hx = λ st.
    scan_over old _ st ho
    ∙ scan_over (choice_sign op) _ st (sign-IsBalanced op)
    ∙ scan_over x _ st hx
    ∙ scan_over old _ st ho
    ∙ hx st

unsigned-IsBalanced :
    (op : CBinOp) (t ut old x : Text)
    → IsBalanced t
    → IsBalanced ut
    → IsBalanced old
    → IsBalanced x
    → IsBalanced (unsigned_text op t ut old x)
unsigned-IsBalanced op t ut old x ht hu ho hx = λ st.
    scan_over t _ _ ht
    ∙ scan_over ut _ _ hu
    ∙ scan_over old _ _ ho
    ∙ scan_over (choice_sign op) _ _ (sign-IsBalanced op)
    ∙ scan_over ut _ _ hu
    ∙ scan_over x _ _ hx
    ∙ scan_over ut _ _ hu
    ∙ scan_over old _ _ ho
    ∙ scan_over ut _ _ hu
    ∙ scan_over x _ _ hx

abbrev IsText : Builder → Text → Type 0
IsText b t = IsBalanced t

abbrev IsExpr : Builder → CExpr → Type 0
IsExpr b e = LeavesBalanced e

unsigned_choice_safe :
    {b : Builder} (op : CBinOp) (t old x : Text) (ut : Option TypeRef)
    → IsSound b
    → IsBalanced t
    → IsBalanced old
    → IsBalanced x
    → IsTypeOption b ut
    → Done b IsText (unsigned_choice_text op t old x ut b)
unsigned_choice_safe op t old x none s ht ho hx hu = here s (choice-IsBalanced op old x ho hx)
unsigned_choice_safe op t old x (some ut) s ht ho hx hu =
    with_type_text s _ hu λ u bu. here s (unsigned-IsBalanced op t u old x ht bu ho hx)

rmw_text_safe :
    {b : Builder} (method : RmwMethod) {ty : TypeRef} (t old x : Text)
    → IsSound b
    → HasType b ty
    → IsBalanced t
    → IsBalanced old
    → IsBalanced x
    → Done b IsText (rmw_text method ty t old x b)
rmw_text_safe (RmwMethod.unsigned_choice op) t old x s hty ht ho hx =
    after_run _ (unsigned_type_safe s hty)
      λ ut b' s' g hu. unsigned_choice_safe op t old x ut s' ht ho hx hu
rmw_text_safe (RmwMethod.choice op) t old x s hty ht ho hx =
    here s (choice-IsBalanced op old x ho hx)
rmw_text_safe _ t old x s hty ht ho hx = here s (λ st. refl)

wanted_safe :
    {b : Builder} (method : RmwMethod) {ty : TypeRef} (t old x : Text)
    → IsSound b
    → HasType b ty
    → IsBalanced t
    → IsBalanced old
    → IsBalanced x
    → Done b IsExpr (wanted_expr method ty t old x b)
wanted_safe RmwMethod.nand t old x s hty ht ho hx = here s (ho, hx)
wanted_safe (RmwMethod.unsigned_choice op) t old x s hty ht ho hx =
    after_run _ (rmw_text_safe (RmwMethod.unsigned_choice op) t old x s hty ht ho hx)
      λ cmp b' s' g hc. here s' hc
wanted_safe (RmwMethod.choice op) t old x s hty ht ho hx = here s (choice-IsBalanced op old x ho hx)
wanted_safe (RmwMethod.direct f) t old x s hty ht ho hx = here s (λ st. refl)

rmw_loop_safe :
    {b : Builder} (t d old desired : Text) (wanted : CExpr)
    → IsSound b
    → IsBalanced t
    → IsBalanced d
    → IsBalanced old
    → IsBalanced desired
    → LeavesBalanced wanted
    → Done b IsUnit (rmw_loop t d old desired wanted b)
rmw_loop_safe t d old desired wanted s ht hd ho hw he =
    after_run _ (emit_safe _ s (ho, (λ st. refl, ((atomic_type-IsBalanced t ht, hd), tt))))
      λ _ b1 s1 g1 _.
        emit_safe _ s1
          (((hw, he), tt), (λ st. refl, ((atomic_type-IsBalanced t ht, hd), (ho, (hw, tt)))))

rmw_with_loop_safe :
    {b : Builder} (method : RmwMethod) {ty : TypeRef} (d x t : Text)
    → IsSound b
    → HasType b ty
    → IsBalanced d
    → IsBalanced x
    → IsBalanced t
    → Done b IsValue (rmw_with_loop method ty d x t b)
rmw_with_loop_safe method d x t s ht hd hx bt = with_new_temp s ht λ s1 g1 ho.
    with_text s1 _ ho λ old bo. with_new_temp s1 (HasType-Grows g1 ht) λ s2 g2 hw.
      with_text s2 _ hw λ desired bw.
        with_decl (fmt (t ∷ str " " ∷ old ∷ str ";" ∷ [])) s2 (declare_text-IsBalanced t old bt bo)
          λ s3 g3.
            with_decl (fmt (t ∷ str " " ∷ desired ∷ str ";" ∷ [])) s3
              (declare_text-IsBalanced t desired bt bw)
              λ s4 g4.
                after_run _
                  (wanted_safe method t old x s4 (HasType-Grows g2 (HasType-Grows g1 ht)) bt bo hx)
                  λ wanted b5 s5 g5 hwanted.
                    after_run _ (rmw_loop_safe t d old desired wanted s5 bt hd bo bw hwanted)
                      λ _ b6 s6 g6 _.
                        here s6 (HasValue-Grows g6 (HasValue-Grows g5 (HasValue-Grows g2 ho)))

abbrev MethodBalanced : RmwMethod → Type 0
MethodBalanced (RmwMethod.direct f) = IsBalanced f
MethodBalanced _ = Unit

rmw_method-MethodBalanced : (op : AtomicRmwBinOp) → MethodBalanced (rmw_method op)
unfolding rmw_method
rmw_method-MethodBalanced AtomicRmwBinOp.atomic_xchg = λ st. refl
rmw_method-MethodBalanced AtomicRmwBinOp.atomic_add = λ st. refl
rmw_method-MethodBalanced AtomicRmwBinOp.atomic_sub = λ st. refl
rmw_method-MethodBalanced AtomicRmwBinOp.atomic_and = λ st. refl
rmw_method-MethodBalanced AtomicRmwBinOp.atomic_or = λ st. refl
rmw_method-MethodBalanced AtomicRmwBinOp.atomic_xor = λ st. refl
rmw_method-MethodBalanced _ = tt

rmw_by_safe :
    {b : Builder} (method : RmwMethod) {ty : TypeRef} (d x t : Text)
    → IsSound b
    → MethodBalanced method
    → HasType b ty
    → IsBalanced d
    → IsBalanced x
    → IsBalanced t
    → Done b IsValue (rmw_by method ty d x t b)
rmw_by_safe (RmwMethod.direct f) d x t s hf ht hd hx bt =
    new_temp_with_stmt_safe _ s ht (hf, ((atomic_type-IsBalanced t bt, hd), (hx, tt)))
rmw_by_safe RmwMethod.nand d x t s hf ht hd hx bt =
    rmw_with_loop_safe RmwMethod.nand d x t s ht hd hx bt
rmw_by_safe (RmwMethod.choice op) d x t s hf ht hd hx bt =
    rmw_with_loop_safe (RmwMethod.choice op) d x t s ht hd hx bt
rmw_by_safe (RmwMethod.unsigned_choice op) d x t s hf ht hd hx bt =
    rmw_with_loop_safe (RmwMethod.unsigned_choice op) d x t s ht hd hx bt

-- On a sound builder, an atomic change of memory returns a value of the store and leaves the
-- builder sound.
pub atomic_rmw_safe :
    {b : Builder} (op : AtomicRmwBinOp) {dst src : ValueRef}
    → IsSound b
    → HasValue b dst
    → HasValue b src
    → Done b IsValue (atomic_rmw op dst src b)
unfolding atomic_rmw
atomic_rmw_safe op s hd hs = with_type_of s _ hs λ ty ht. with_text s _ hd λ d bd.
    with_text s _ hs λ x bx.
      with_type_text s _ ht
        λ t bt. rmw_by_safe (rmw_method op) d x t s (rmw_method-MethodBalanced op) ht bd bx bt
