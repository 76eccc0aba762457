-- ===== src/Safe/Compare.antt =====
-- src/builder.rs: comparisons on a sound builder.
use rustc_codegen_c.Prelude.{ℕ, length, Bool, ◌||◌, Option, none, some, both_branches, ltb}
use rustc_codegen_c.Prelude.Text.{Text}
use rustc_codegen_c.Prelude.Brackets.{IsBalanced}
use rustc_codegen_c.CAst.Op.{CBinOp}
use rustc_codegen_c.CAst.Brackets.{LeavesBalanced}
use rustc_codegen_c.Types.Kind.{TypeRef, CTypeKind}
use rustc_codegen_c.Types.Brackets.{NameBalanced}
use rustc_codegen_c.Types.Total.{RefsBelow, WidthKnown}
use rustc_codegen_c.Values.Store.{ValueRef, CValueKind}
use rustc_codegen_c.Builder.State.{Builder}
use rustc_codegen_c.Builder.Compare.{
  IntPredicate, int_op, is_unsigned, is_signed, is_ptr_width, compared_width, wider, compared_kind,
  compare_in, icmp, RealPredicate, RealTest, real_test, run_test, fcmp, select,
}
use rustc_codegen_c.Consts.Values.{intern_value, const_bool}
use rustc_codegen_c.Values.Total as ValueTotal
use rustc_codegen_c.Safe.Values.{KindSound}
use rustc_codegen_c.Safe.Sound.{IsSound, HasType, HasValue, HasType-Grows, HasValue-Grows}
use rustc_codegen_c.Safe.Changes.{alloc-IsSound, alloc-Grows, alloc_inside}
use rustc_codegen_c.Safe.Rules.{
  Done, IsValue, here, grow, with_type_of, with_kind_of, with_text, with_type_text,
}
use rustc_codegen_c.Safe.Emit.{with_intern, new_temp_with_stmt_safe}

-- A constant of a type of the store.
pub intern_value_safe :
    {b : Builder} (kind : CValueKind) {ty : TypeRef}
    → IsSound b
    → HasType b ty
    → ValueTotal.RefsBelow (length b.values.values) kind
    → KindSound (length b.types.types) kind
    → Done b IsValue (intern_value kind ty b)
unfolding intern_value
intern_value_safe {b = b} kind {ty = ty} s ht below sound =
    grow (alloc-Grows b kind ty)
      (here (alloc-IsSound b kind ty s ht below sound) (alloc_inside b.values kind ty))

pub const_bool_safe : {b : Builder} (val : Bool) → IsSound b → Done b IsValue (const_bool val b)
unfolding const_bool
const_bool_safe val s =
    with_intern CTypeKind.bool s tt tt tt
      λ s' g ht. intern_value_safe (CValueKind.bool_const val) s' ht tt tt

-- A kind that names no other type.
abbrev IsScalar : Option CTypeKind → Type 0
IsScalar none = Unit
IsScalar (some kind) = NameBalanced kind × ((n : ℕ) → RefsBelow n kind) × WidthKnown kind

compared_kind-IsScalar :
    (op : IntPredicate) (lhs rhs : CTypeKind) → IsScalar (compared_kind op lhs rhs)
compared_kind-IsScalar op lhs rhs =
    both_branches IsScalar (is_ptr_width lhs || is_ptr_width rhs) (tt, λ n. tt, tt)
      (both_branches IsScalar (is_unsigned op) (tt, λ n. tt, tt)
        (both_branches IsScalar
          (is_signed op || ltb 0 (wider (compared_width lhs) (compared_width rhs)))
          (tt, λ n. tt, tt) tt))

compare_in_safe :
    {b : Builder} {bool_ty : TypeRef} (c_op : CBinOp) (l r : Text) (kind : Option CTypeKind)
    → IsSound b
    → HasType b bool_ty
    → IsBalanced l
    → IsBalanced r
    → IsScalar kind
    → Done b IsValue (compare_in bool_ty c_op l r kind b)
compare_in_safe c_op l r none s ht hl hr hk = new_temp_with_stmt_safe _ s ht (hl, hr)
compare_in_safe {b = b} c_op l r (some kind) s ht hl hr (hn, hb, hw) =
    with_intern kind s hn (hb (length b.types.types)) hw λ s' g hk.
      with_type_text s' _ hk
        λ t bt. new_temp_with_stmt_safe _ s' (HasType-Grows g ht) ((bt, hl), (bt, hr))

-- On a sound builder, a comparison of values of the store as integers returns a value of the store
-- and leaves the builder sound.
pub icmp_safe :
    {b : Builder} (op : IntPredicate) {lhs rhs : ValueRef}
    → IsSound b
    → HasValue b lhs
    → HasValue b rhs
    → Done b IsValue (icmp op lhs rhs b)
unfolding icmp
icmp_safe op s hl hr = with_intern CTypeKind.bool s tt tt tt λ s' g hb.
    with_text s' _ (HasValue-Grows g hl) λ l bl. with_text s' _ (HasValue-Grows g hr) λ r br.
      with_type_of s' _ (HasValue-Grows g hl) λ lt hlt.
        with_type_of s' _ (HasValue-Grows g hr) λ rt hrt. with_kind_of s' _ hlt λ lk e _.
          with_kind_of s' _ hrt λ rk e' _.
            compare_in_safe (int_op op) l r (compared_kind op lk rk) s' hb bl br
              (compared_kind-IsScalar op lk rk)

abbrev TestBalanced : RealTest → Type 0
TestBalanced (RealTest.constant value) = Unit
TestBalanced (RealTest.test expr) = LeavesBalanced expr

real_test-TestBalanced :
    (op : RealPredicate) (l r : Text)
    → IsBalanced l
    → IsBalanced r
    → TestBalanced (real_test op l r)
unfolding real_test
real_test-TestBalanced RealPredicate.real_predicate_false l r hl hr = tt
real_test-TestBalanced RealPredicate.real_predicate_true l r hl hr = tt
real_test-TestBalanced RealPredicate.real_ord l r hl hr = ((hl, hl), (hr, hr))
real_test-TestBalanced RealPredicate.real_uno l r hl hr = ((hl, hl), (hr, hr))
real_test-TestBalanced _ l r hl hr = (hl, hr)

run_test_safe :
    {b : Builder} {bool_ty : TypeRef} (test : RealTest)
    → IsSound b
    → HasType b bool_ty
    → TestBalanced test
    → Done b IsValue (run_test bool_ty test b)
run_test_safe (RealTest.constant value) s ht h = const_bool_safe value s
run_test_safe (RealTest.test expr) s ht h = new_temp_with_stmt_safe expr s ht h

pub fcmp_safe :
    {b : Builder} (op : RealPredicate) {lhs rhs : ValueRef}
    → IsSound b
    → HasValue b lhs
    → HasValue b rhs
    → Done b IsValue (fcmp op lhs rhs b)
unfolding fcmp
fcmp_safe op s hl hr = with_intern CTypeKind.bool s tt tt tt λ s' g hb.
    with_text s' _ (HasValue-Grows g hl) λ l bl.
      with_text s' _ (HasValue-Grows g hr)
        λ r br. run_test_safe (real_test op l r) s' hb (real_test-TestBalanced op l r bl br)

pub select_safe :
    {b : Builder} {cond x y : ValueRef}
    → IsSound b
    → HasValue b cond
    → HasValue b x
    → HasValue b y
    → Done b IsValue (select cond x y b)
unfolding select
select_safe s hc hx hy = with_type_of s _ hx λ ty ht. with_text s _ hc λ c bc.
    with_text s _ hx λ t bt. with_text s _ hy λ e be. new_temp_with_stmt_safe _ s ht (bc, bt, be)
