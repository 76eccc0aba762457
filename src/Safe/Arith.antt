-- ===== src/Safe/Arith.antt =====
-- src/builder.rs: arithmetic on a sound builder.
use rustc_codegen_c.Prelude.{true, Option, none, some, both_branches, refl}
use rustc_codegen_c.Prelude.Text.{Text}
use rustc_codegen_c.Prelude.Brackets.{IsBalanced}
use rustc_codegen_c.CAst.Op.{CUnaryOp}
use rustc_codegen_c.CAst.Build.{var, unary}
use rustc_codegen_c.Types.Kind.{TypeRef, CTypeKind}
use rustc_codegen_c.Values.Store.{ValueRef}
use rustc_codegen_c.Builder.State.{Builder, Build}
use rustc_codegen_c.Builder.Arith as Arith
use rustc_codegen_c.Builder.Arith.{Binary, lshr_at, is_bool_kind, from_kind}
use rustc_codegen_c.Safe.Sound.{IsSound, HasType, HasValue, HasType-Grows, HasValue-Grows}
use rustc_codegen_c.Safe.Rules.{
  Done, IsValue, here, after_run, with_type_of, with_kind_of, with_text, with_type_text,
}
use rustc_codegen_c.Safe.Emit.{
  IsTypeOption, with_intern, new_temp_with_stmt_safe, binop_safe, unsigned_binop_safe,
  unsigned_type_safe,
}

-- The operations with two operands.
pub data BinaryOp : Type 0 where
  add fadd fadd_fast fadd_algebraic sub fsub fsub_fast fsub_algebraic : BinaryOp
  mul fmul fmul_fast fmul_algebraic udiv exactudiv sdiv exactsdiv : BinaryOp
  fdiv fdiv_fast fdiv_algebraic urem srem frem frem_fast frem_algebraic : BinaryOp
  shl lshr ashr and or xor : BinaryOp

abbrev pub binary : BinaryOp → Binary
binary BinaryOp.add = Arith.add
binary BinaryOp.fadd = Arith.fadd
binary BinaryOp.fadd_fast = Arith.fadd_fast
binary BinaryOp.fadd_algebraic = Arith.fadd_algebraic
binary BinaryOp.sub = Arith.sub
binary BinaryOp.fsub = Arith.fsub
binary BinaryOp.fsub_fast = Arith.fsub_fast
binary BinaryOp.fsub_algebraic = Arith.fsub_algebraic
binary BinaryOp.mul = Arith.mul
binary BinaryOp.fmul = Arith.fmul
binary BinaryOp.fmul_fast = Arith.fmul_fast
binary BinaryOp.fmul_algebraic = Arith.fmul_algebraic
binary BinaryOp.udiv = Arith.udiv
binary BinaryOp.exactudiv = Arith.exactudiv
binary BinaryOp.sdiv = Arith.sdiv
binary BinaryOp.exactsdiv = Arith.exactsdiv
binary BinaryOp.fdiv = Arith.fdiv
binary BinaryOp.fdiv_fast = Arith.fdiv_fast
binary BinaryOp.fdiv_algebraic = Arith.fdiv_algebraic
binary BinaryOp.urem = Arith.urem
binary BinaryOp.srem = Arith.srem
binary BinaryOp.frem = Arith.frem
binary BinaryOp.frem_fast = Arith.frem_fast
binary BinaryOp.frem_algebraic = Arith.frem_algebraic
binary BinaryOp.shl = Arith.shl
binary BinaryOp.lshr = Arith.lshr
binary BinaryOp.ashr = Arith.ashr
binary BinaryOp.and = Arith.and
binary BinaryOp.or = Arith.or
binary BinaryOp.xor = Arith.xor

frem_safe :
    {b : Builder} {lhs rhs : ValueRef}
    → IsSound b
    → HasValue b lhs
    → HasValue b rhs
    → Done b IsValue (Arith.frem lhs rhs b)
unfolding Arith.frem
frem_safe s hl hr = with_type_of s _ hl λ ty ht.
    with_text s _ hl
      λ l bl. with_text s _ hr λ r br. new_temp_with_stmt_safe _ s ht (λ st. refl, (bl, (br, tt)))

shift_safe :
    {b : Builder} {lhs rhs : ValueRef}
    → IsSound b
    → HasValue b lhs
    → HasValue b rhs
    → Done b IsValue (Arith.shl lhs rhs b) × Done b IsValue (Arith.ashr lhs rhs b)
unfolding Arith.shl Arith.ashr
shift_safe s hl hr = (
  with_type_of s _ hl λ ty ht. with_text s _ hl λ l bl.
      with_text s _ hr
        λ r br. with_type_text s _ ht λ t bt. new_temp_with_stmt_safe _ s ht ((bt, bl), br),
  with_type_of s _ hl λ ty ht. with_text s _ hl λ l bl.
      with_text s _ hr
        λ r br. with_type_text s _ ht λ t bt. new_temp_with_stmt_safe _ s ht ((bt, bl), br),
)

lshr_safe :
    {b : Builder} {lhs rhs : ValueRef}
    → IsSound b
    → HasValue b lhs
    → HasValue b rhs
    → Done b IsValue (Arith.lshr lhs rhs b)
unfolding Arith.lshr
lshr_safe {b = b} s hl hr = with_type_of s _ hl λ ty ht. with_text s _ hl λ l bl.
    with_text s _ hr λ r br.
      after_run _ (unsigned_type_safe s ht)
        λ ut b' s' g hu. let ht' = HasType-Grows g ht in by_type ty l r ut s' ht' hu bl br
  where
    by_type :
        {b : Builder} (ty : TypeRef) (l r : Text) (ut : Option TypeRef)
        → IsSound b
        → HasType b ty
        → IsTypeOption b ut
        → IsBalanced l
        → IsBalanced r
        → Done b IsValue (lshr_at ty l r ut b)
    by_type ty l r none s ht hu bl br =
        with_type_text s _ ht λ t bt. new_temp_with_stmt_safe _ s ht ((bt, bl), br)
    by_type ty l r (some ut) s ht hu bl br =
        with_type_text s _ hu
          λ u bu. with_type_text s _ ht λ t bt. new_temp_with_stmt_safe _ s ht (bt, ((bu, bl), br))

-- On a sound builder, an operation on two values of the store returns a value of the store and
-- leaves the builder sound.
pub binary_safe :
    {b : Builder} (op : BinaryOp) {lhs rhs : ValueRef}
    → IsSound b
    → HasValue b lhs
    → HasValue b rhs
    → Done b IsValue (binary op lhs rhs b)
unfolding Arith.add Arith.fadd Arith.fadd_fast Arith.fadd_algebraic Arith.sub Arith.fsub
    Arith.fsub_fast Arith.fsub_algebraic Arith.mul Arith.fmul Arith.fmul_fast Arith.fmul_algebraic
    Arith.udiv Arith.exactudiv Arith.sdiv Arith.exactsdiv Arith.fdiv Arith.fdiv_fast
    Arith.fdiv_algebraic Arith.urem Arith.srem Arith.frem_fast Arith.frem_algebraic Arith.and
    Arith.or Arith.xor
binary_safe BinaryOp.udiv s hl hr = unsigned_binop_safe _ s hl hr
binary_safe BinaryOp.exactudiv s hl hr = unsigned_binop_safe _ s hl hr
binary_safe BinaryOp.urem s hl hr = unsigned_binop_safe _ s hl hr
binary_safe BinaryOp.frem s hl hr = frem_safe s hl hr
binary_safe BinaryOp.frem_fast s hl hr = frem_safe s hl hr
binary_safe BinaryOp.frem_algebraic s hl hr = frem_safe s hl hr
binary_safe BinaryOp.shl s hl hr = (shift_safe s hl hr).0
binary_safe BinaryOp.ashr s hl hr = (shift_safe s hl hr).1
binary_safe BinaryOp.lshr s hl hr = lshr_safe s hl hr
binary_safe BinaryOp.add s hl hr = binop_safe _ s hl hr
binary_safe BinaryOp.fadd s hl hr = binop_safe _ s hl hr
binary_safe BinaryOp.fadd_fast s hl hr = binop_safe _ s hl hr
binary_safe BinaryOp.fadd_algebraic s hl hr = binop_safe _ s hl hr
binary_safe BinaryOp.sub s hl hr = binop_safe _ s hl hr
binary_safe BinaryOp.fsub s hl hr = binop_safe _ s hl hr
binary_safe BinaryOp.fsub_fast s hl hr = binop_safe _ s hl hr
binary_safe BinaryOp.fsub_algebraic s hl hr = binop_safe _ s hl hr
binary_safe BinaryOp.mul s hl hr = binop_safe _ s hl hr
binary_safe BinaryOp.fmul s hl hr = binop_safe _ s hl hr
binary_safe BinaryOp.fmul_fast s hl hr = binop_safe _ s hl hr
binary_safe BinaryOp.fmul_algebraic s hl hr = binop_safe _ s hl hr
binary_safe BinaryOp.sdiv s hl hr = binop_safe _ s hl hr
binary_safe BinaryOp.exactsdiv s hl hr = binop_safe _ s hl hr
binary_safe BinaryOp.fdiv s hl hr = binop_safe _ s hl hr
binary_safe BinaryOp.fdiv_fast s hl hr = binop_safe _ s hl hr
binary_safe BinaryOp.fdiv_algebraic s hl hr = binop_safe _ s hl hr
binary_safe BinaryOp.srem s hl hr = binop_safe _ s hl hr
binary_safe BinaryOp.and s hl hr = binop_safe _ s hl hr
binary_safe BinaryOp.or s hl hr = binop_safe _ s hl hr
binary_safe BinaryOp.xor s hl hr = binop_safe _ s hl hr

-- The operations with one operand.
pub data UnaryOp : Type 0 where
  neg fneg not from_immediate : UnaryOp

abbrev pub unary_op : UnaryOp → ValueRef → Build ValueRef
unary_op UnaryOp.neg = Arith.neg
unary_op UnaryOp.fneg = Arith.fneg
unary_op UnaryOp.not = Arith.not
unary_op UnaryOp.from_immediate = Arith.from_immediate

neg_safe : {b : Builder} {v : ValueRef} → IsSound b → HasValue b v → Done b IsValue (Arith.neg v b)
unfolding Arith.neg
neg_safe s h = with_type_of s _ h λ ty ht. with_text s _ h λ x bx. new_temp_with_stmt_safe _ s ht bx

not_safe : {b : Builder} {v : ValueRef} → IsSound b → HasValue b v → Done b IsValue (Arith.not v b)
unfolding Arith.not
not_safe {b = b} s h = with_type_of s _ h λ ty ht. with_text s _ h λ x bx.
    with_kind_of s _ ht λ kind e _.
      both_branches (λ (m : Build ValueRef). Done b IsValue (m b)) (is_bool_kind kind)
        (new_temp_with_stmt_safe (unary CUnaryOp.log_not (var x)) s ht bx)
        (new_temp_with_stmt_safe (unary CUnaryOp.bit_not (var x)) s ht bx)

from_kind_safe :
    {b : Builder} {v : ValueRef} (kind : CTypeKind)
    → IsSound b
    → HasValue b v
    → Done b IsValue (from_kind v kind b)
from_kind_safe CTypeKind.bool s h = with_intern (CTypeKind.int 8 true) s tt tt tt λ s' g ht.
    with_text s' _ (HasValue-Grows g h) λ x bx. new_temp_with_stmt_safe _ s' ht (λ st. refl, bx)
from_kind_safe _ s h = here s h

-- On a sound builder, an operation on a value of the store returns a value of the store and leaves
-- the builder sound.
pub unary_safe :
    {b : Builder} (op : UnaryOp) {v : ValueRef}
    → IsSound b
    → HasValue b v
    → Done b IsValue (unary_op op v b)
unfolding Arith.fneg Arith.from_immediate
unary_safe UnaryOp.neg s h = neg_safe s h
unary_safe UnaryOp.fneg s h = neg_safe s h
unary_safe UnaryOp.not s h = not_safe s h
unary_safe UnaryOp.from_immediate s h =
    with_type_of s _ h λ ty ht. with_kind_of s _ ht λ kind e _. from_kind_safe kind s h
