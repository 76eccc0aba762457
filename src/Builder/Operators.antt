-- ===== src/Builder/Operators.antt =====
-- src/builder.rs: what the operations with two operands write.
use rustc_codegen_c.Prelude.{ℕ, ◌<◌, ◌≡◌, true, false, length, arith}
use rustc_codegen_c.Prelude.Text.{Text}
use rustc_codegen_c.Prelude.Outcome.{ok}
use rustc_codegen_c.CAst.Op.{CBinOp}
use rustc_codegen_c.CAst.Build.{var, paren}
use rustc_codegen_c.CAst.Build as Expr
use rustc_codegen_c.Types.Kind.{TypeRef, int}
use rustc_codegen_c.Types.Store.{TypeStore}
use rustc_codegen_c.Types.Store as Types
use rustc_codegen_c.Types.Render as TypeText
use rustc_codegen_c.Types.Stable.{render-intern, length-intern}
use rustc_codegen_c.Types.Total.{IsClosed, intern-IsClosed}
use rustc_codegen_c.Values.Store.{ValueRef}
use rustc_codegen_c.Values.Store as Values
use rustc_codegen_c.Values.Render as ValueText
use rustc_codegen_c.Values.Fresh.{HasRoom}
use rustc_codegen_c.Module.Function.{FunctionDef, BasicBlockData}
use rustc_codegen_c.Builder.State.{Builder}
use rustc_codegen_c.Builder.Emit.{binop, unsigned_type, unsigned_binop}
use rustc_codegen_c.Builder.Effect.{WritesTo, AddsTemp, new_temp_with_stmt_adds}

-- The operands of an operation: both have a spelling, and the left one a type of the store.
pub record Operands (b : Builder) (lhs rhs : ValueRef) (ty : TypeRef) (l r : Text) : Type 0 where
  pub left : ValueText.render b.values lhs ≡ ok l
  pub right : ValueText.render b.values rhs ≡ ok r
  pub typed : Values.get_type b.values lhs ≡ ok ty
  pub inside : ty < length b.types.types

-- A builder that can keep a value: closed types, and room for the value.
pub record IsReady (b : Builder) : Type 0 where
  pub closed : IsClosed b.types
  pub room : HasRoom b.values

-- In a block of an open function, over closed types and with room for a value, an operation on two
-- operands with spellings, the left one of a type of the store, keeps `l op r` in a new temporary
-- of the left operand's type.
pub binop_adds :
    (b : Builder) (f : FunctionDef) (blk : BasicBlockData) (op : CBinOp) (lhs rhs : ValueRef)
    {ty : TypeRef} {l r : Text}
    → IsReady b
    → WritesTo b f blk
    → Operands b lhs rhs ty l r
    → AddsTemp b f blk ty (Expr.binop (var l) op (var r)) (binop op lhs rhs b)
unfolding binop
binop_adds b f blk op lhs rhs {ty = ty} {l = l} {r = r} ready w o =
    rw (o.typed, o.left, o.right)
      (new_temp_with_stmt_adds b f blk ty (Expr.binop (var l) op (var r)) ready.closed ready.room
        o.inside w)

-- The builder after the unsigned type of the width is interned.
abbrev pub with_unsigned : Builder → ℕ → Builder
with_unsigned b bits = record b { types = (Types.intern b.types (int bits false)).0 }

-- In a block of an open function, over closed types and with room for a value, an unsigned
-- operation on operands of a signed integer type with a stated width interns the unsigned type of
-- the same width and keeps `(t)((ut)l op (ut)r)` in a new temporary of the signed type `t`, where
-- `ut` is the spelling of the unsigned type.
pub unsigned_binop_adds :
    (b : Builder) (f : FunctionDef) (blk : BasicBlockData) (op : CBinOp) (lhs rhs : ValueRef)
    (bits : ℕ) {ty : TypeRef} {l r t ut : Text}
    → IsReady b
    → WritesTo b f blk
    → Operands b lhs rhs ty l r
    → Types.get b.types ty ≡ ok (int bits true)
    → TypeText.render b.types ty ≡ ok t
    → TypeText.render (with_unsigned b bits).types (Types.intern b.types (int bits false)).1 ≡ ok ut
    → AddsTemp
        (with_unsigned b bits)
        f
        blk
        ty
        (Expr.cast t (paren (Expr.binop (Expr.cast ut (var l)) op (Expr.cast ut (var r)))))
        (unsigned_binop op lhs rhs b)
unfolding unsigned_binop unsigned_type
unsigned_binop_adds b f blk op lhs rhs bits {ty = ty} {l = l} {r = r} {t = t} {ut = ut} ready w o hk
      ht hu =
    let ht' = render-intern b.types (int bits false) ty ht in
    let inside' : ty < length (with_unsigned b bits).types.types =
      (let h = o.inside in let g = length-intern b.types (int bits false) in omega arith) in
    rw (o.typed, hk, o.left, o.right, hu, ht')
      (new_temp_with_stmt_adds (with_unsigned b bits) f blk ty _
        (intern-IsClosed b.types (int bits false) ready.closed tt tt) ready.room inside'
        (record { function = w.function; block = w.block }))
