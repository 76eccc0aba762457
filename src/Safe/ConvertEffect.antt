-- ===== src/Safe/ConvertEffect.antt =====
-- src/builder.rs: what an extension of a signed integer by zeros writes.
use rustc_codegen_c.Prelude.{ℕ, ◌<◌, ◌≡◌, true, false, length, arith}
use rustc_codegen_c.Prelude.Text.{Text}
use rustc_codegen_c.Prelude.Outcome.{ok}
use rustc_codegen_c.CAst.Build.{var}
use rustc_codegen_c.CAst.Build as Expr
use rustc_codegen_c.Types.Kind.{TypeRef, int}
use rustc_codegen_c.Types.Store as Types
use rustc_codegen_c.Types.Render as TypeText
use rustc_codegen_c.Types.Stable.{render-intern, length-intern}
use rustc_codegen_c.Types.Total.{intern-IsClosed}
use rustc_codegen_c.Values.Store.{ValueRef}
use rustc_codegen_c.Values.Store as Values
use rustc_codegen_c.Values.Render as ValueText
use rustc_codegen_c.Module.Function.{FunctionDef, BasicBlockData}
use rustc_codegen_c.Builder.State.{Builder}
use rustc_codegen_c.Builder.Emit.{unsigned_type}
use rustc_codegen_c.Builder.Convert.{zext}
use rustc_codegen_c.Builder.Effect.{WritesTo, AddsTemp, new_temp_with_stmt_adds}
use rustc_codegen_c.Builder.Operators.{IsReady, with_unsigned}

-- In a block of an open function, over closed types and with room for a value, an extension of a
-- signed integer with a stated width by zeros interns the unsigned type of the same width and
-- keeps `(dt)(ut)v` in a new temporary of the type `dt` that is asked for, where `ut` is the
-- spelling of the unsigned type.
pub zext_adds :
    (b : Builder) (f : FunctionDef) (blk : BasicBlockData) (v : ValueRef) (dest_ty : TypeRef)
    (bits : ℕ) {src_ty : TypeRef} {x dt ut : Text}
    → IsReady b
    → WritesTo b f blk
    → ValueText.render b.values v ≡ ok x
    → Values.get_type b.values v ≡ ok src_ty
    → Types.get b.types src_ty ≡ ok (int bits true)
    → dest_ty < length b.types.types
    → TypeText.render b.types dest_ty ≡ ok dt
    → TypeText.render (with_unsigned b bits).types (Types.intern b.types (int bits false)).1 ≡ ok ut
    → AddsTemp
        (with_unsigned b bits)
        f
        blk
        dest_ty
        (Expr.cast dt (Expr.cast ut (var x)))
        (zext v dest_ty b)
unfolding zext unsigned_type
zext_adds b f blk v dest_ty bits ready w hx ht hk inside hd hu =
    let le = length-intern b.types (int bits false) in
    rw (ht, hk, hx, hu, render-intern b.types (int bits false) dest_ty hd)
      (new_temp_with_stmt_adds (with_unsigned b bits) f blk dest_ty _
        (intern-IsClosed b.types (int bits false) ready.closed tt tt) ready.room (omega arith)
        (record { function = w.function; block = w.block }))
