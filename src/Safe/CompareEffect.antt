-- ===== src/Safe/CompareEffect.antt =====
-- src/builder.rs: what a comparison of integers writes.
use rustc_codegen_c.CAst.Op.{CBinOp}
use rustc_codegen_c.Prelude.{
  ◌≤◌, ◌⊎◌, ℕ, ◌<◌, ◌≡◌, refl, Bool, true, false, not, ◌||◌, none, some, length, arith, inl, inr,
  lt→ltb, if◌then◌else◌,
}
use rustc_codegen_c.Prelude.Text.{Text}
use rustc_codegen_c.Prelude.Outcome.{ok}
use rustc_codegen_c.CAst.Build.{var}
use rustc_codegen_c.CAst.Build as Expr
use rustc_codegen_c.Types.Kind.{TypeRef, CTypeKind, bool, int}
use rustc_codegen_c.Types.Store as Types
use rustc_codegen_c.Types.Render as TypeText
use rustc_codegen_c.Types.Interning.{get-intern_stable}
use rustc_codegen_c.Types.Total.{intern-IsClosed}
use rustc_codegen_c.Types.Stable.{length-intern}
use rustc_codegen_c.Values.Store.{ValueRef}
use rustc_codegen_c.Values.Store as Values
use rustc_codegen_c.Values.Render as ValueText
use rustc_codegen_c.Module.Function.{FunctionDef, BasicBlockData}
use rustc_codegen_c.Builder.State.{Builder}
use rustc_codegen_c.Builder.Compare.{
  IntPredicate, int_op, is_unsigned, is_signed, wider, compared_kind, icmp,
}
use rustc_codegen_c.Builder.Effect.{WritesTo, AddsTemp, new_temp_with_stmt_adds}
use rustc_codegen_c.Builder.Operators.{IsReady}
use rustc_codegen_c.Safe.Changes.{with_type, intern_inside}

-- How C compares integers for a predicate: by the operator, in a signed type or in an unsigned one.
-- Equality is compared in a signed type.
pub data ComparesBy : IntPredicate → CBinOp → Bool → Type 0 where
  equal : ComparesBy IntPredicate.int_eq CBinOp.eq true
  not_equal : ComparesBy IntPredicate.int_ne CBinOp.ne true
  unsigned_greater : ComparesBy IntPredicate.int_ugt CBinOp.gt false
  unsigned_at_least : ComparesBy IntPredicate.int_uge CBinOp.ge false
  unsigned_less : ComparesBy IntPredicate.int_ult CBinOp.lt false
  unsigned_at_most : ComparesBy IntPredicate.int_ule CBinOp.le false
  signed_greater : ComparesBy IntPredicate.int_sgt CBinOp.gt true
  signed_at_least : ComparesBy IntPredicate.int_sge CBinOp.ge true
  signed_less : ComparesBy IntPredicate.int_slt CBinOp.lt true
  signed_at_most : ComparesBy IntPredicate.int_sle CBinOp.le true

-- Every predicate is compared in one of these ways.
pub ComparesBy-total : (op : IntPredicate) → (c_op : CBinOp) × (s : Bool) × ComparesBy op c_op s
ComparesBy-total IntPredicate.int_eq = (_, _, ComparesBy.equal)
ComparesBy-total IntPredicate.int_ne = (_, _, ComparesBy.not_equal)
ComparesBy-total IntPredicate.int_ugt = (_, _, ComparesBy.unsigned_greater)
ComparesBy-total IntPredicate.int_uge = (_, _, ComparesBy.unsigned_at_least)
ComparesBy-total IntPredicate.int_ult = (_, _, ComparesBy.unsigned_less)
ComparesBy-total IntPredicate.int_ule = (_, _, ComparesBy.unsigned_at_most)
ComparesBy-total IntPredicate.int_sgt = (_, _, ComparesBy.signed_greater)
ComparesBy-total IntPredicate.int_sge = (_, _, ComparesBy.signed_at_least)
ComparesBy-total IntPredicate.int_slt = (_, _, ComparesBy.signed_less)
ComparesBy-total IntPredicate.int_sle = (_, _, ComparesBy.signed_at_most)

by_predicate :
    (op : IntPredicate) (c_op : CBinOp) (s : Bool)
    → ComparesBy op c_op s
    → (int_op op ≡ c_op) × (is_unsigned op ≡ not s)
unfolding int_op
by_predicate _ _ _ ComparesBy.equal = (refl, refl)
by_predicate _ _ _ ComparesBy.not_equal = (refl, refl)
by_predicate _ _ _ ComparesBy.unsigned_greater = (refl, refl)
by_predicate _ _ _ ComparesBy.unsigned_at_least = (refl, refl)
by_predicate _ _ _ ComparesBy.unsigned_less = (refl, refl)
by_predicate _ _ _ ComparesBy.unsigned_at_most = (refl, refl)
by_predicate _ _ _ ComparesBy.signed_greater = (refl, refl)
by_predicate _ _ _ ComparesBy.signed_at_least = (refl, refl)
by_predicate _ _ _ ComparesBy.signed_less = (refl, refl)
by_predicate _ _ _ ComparesBy.signed_at_most = (refl, refl)

-- `w` is the greater of both.
pub record IsGreater (w a c : ℕ) : Type 0 where
  pub left : a ≤ w
  pub right : c ≤ w
  pub reached : (w ≡ a) ⊎ (w ≡ c)

wider_lem : (w a c : ℕ) → IsGreater w a c → wider a c ≡ w
wider_lem w a c h =
    let le = h.left in
    let le' = h.right in elim h.reached [ inl e ↦ ground arith | inr e ↦ ground arith ]

compared_kind-int :
    (op : IntPredicate) (s : Bool) (w a c : ℕ) (sa sc : Bool)
    → is_unsigned op ≡ not s
    → IsGreater w a c
    → 0 < w
    → compared_kind op (int a sa) (int c sc) ≡ some (int w s)
compared_kind-int op false w a c sa sc e g h = rw (e, wider_lem w a c g) refl
compared_kind-int op true w a c sa sc e g h =
    rw (e, wider_lem w a c g, lt→ltb 0 w h) (by_sign (is_signed op))
  where
    by_sign : (t : Bool) → (if t || true then some (int w true) else none) ≡ some (int w true)
    by_sign true = refl
    by_sign false = refl

-- The operands of a comparison: both have a spelling and a type of integers.
pub record IntOperands (b : Builder) (lhs rhs : ValueRef) (l r : Text) (a c : ℕ) (sa sc : Bool)
    : Type 0 where
  pub lhs_ty : TypeRef
  pub rhs_ty : TypeRef
  pub left : ValueText.render b.values lhs ≡ ok l
  pub right : ValueText.render b.values rhs ≡ ok r
  pub lhs_typed : Values.get_type b.values lhs ≡ ok lhs_ty
  pub rhs_typed : Values.get_type b.values rhs ≡ ok rhs_ty
  pub lhs_kind : Types.get b.types lhs_ty ≡ ok (int a sa)
  pub rhs_kind : Types.get b.types rhs_ty ≡ ok (int c sc)

-- The builder after the types of a comparison are interned.
abbrev pub compared : Builder → ℕ → Bool → Builder
compared b w s = with_type (with_type b bool) (int w s)

-- In a block of an open function, over closed types whose index leads into the store and with room
-- for a value, a comparison of two integers with stated widths casts both to the integer type that
-- has the greater of their widths, if it is not 0: to an unsigned type for `ugt`, `uge`, `ult` and
-- `ule`, and to a signed type for the others, whatever the operands' own signs are. It applies the
-- C operator of the predicate and keeps the result in a new temporary of the boolean type.
pub icmp_adds :
    (b : Builder) (f : FunctionDef) (blk : BasicBlockData) (op : IntPredicate) (c_op : CBinOp)
    (s : Bool) (lhs rhs : ValueRef) (w a c : ℕ) (sa sc : Bool) {l r ct : Text}
    → IsReady b
    → ((k : CTypeKind) (i : TypeRef) → Types.index_of b.types k ≡ some i → i < length b.types.types)
    → WritesTo b f blk
    → IntOperands b lhs rhs l r a c sa sc
    → ComparesBy op c_op s
    → IsGreater w a c
    → 0 < w
    → TypeText.render (compared b w s).types (Types.intern (with_type b bool).types (int w s)).1
      ≡ ok ct
    → AddsTemp
        (compared b w s)
        f
        blk
        (Types.intern b.types bool).1
        (Expr.binop (Expr.cast ct (var l)) c_op (Expr.cast ct (var r)))
        (icmp op lhs rhs b)
unfolding icmp
icmp_adds b f blk op c_op s lhs rhs w a c sa sc ready index wr o by g h hc =
    let inside = intern_inside b.types bool index in
    let le = length-intern (with_type b bool).types (int w s) in
    let (op_eq, sign_eq) = by_predicate op c_op s by in
    rw
      (
        o.left,
        o.right,
        o.lhs_typed,
        o.rhs_typed,
        get-intern_stable b.types bool o.lhs_ty o.lhs_kind,
        get-intern_stable b.types bool o.rhs_ty o.rhs_kind,
        compared_kind-int op s w a c sa sc sign_eq g h,
        hc,
        op_eq,
      )
      (new_temp_with_stmt_adds (compared b w s) f blk (Types.intern b.types bool).1 _
        (intern-IsClosed _ (int w s) (intern-IsClosed b.types bool ready.closed tt tt) tt tt)
        ready.room (omega arith) (record { function = wr.function; block = wr.block }))
