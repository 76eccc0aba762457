-- ===== src/Tests/BuilderTests.antt =====
-- src/builder.rs and src/context.rs at a builder in the first block of a function.
use rustc_codegen_c.Prelude.{
  All, ◌^◌, ℕ, ◌+◌, ◌^◌, ◌<◌, ◌≡◌, refl, Bool, true, false, List, [], ◌∷◌, ◌++◌, none, some, arith,
  length, if◌then◌else◌,
}
use rustc_codegen_c.Prelude.Text.{Text, str}
use rustc_codegen_c.Prelude.Outcome.{ok}
use rustc_codegen_c.CAst.Build.{var, lit}
use rustc_codegen_c.CAst.Stmt.{CStmt}
use rustc_codegen_c.Types.Kind.{CTypeKind, int}
use rustc_codegen_c.Types.Store as Types
use rustc_codegen_c.Values.Store as Values
use rustc_codegen_c.Values.Render as ValueText
use rustc_codegen_c.Module.Function.{
  FunctionDef, BasicBlockData, BasicBlockId, block_at, new, new_block,
}
use rustc_codegen_c.Module.Source.{new_module}
use rustc_codegen_c.Builder.Names.{IsName, SanitizesAll, sanitize_name, sanitize_name-IsName}
use rustc_codegen_c.Builder.State.{Builder, current_function}
use rustc_codegen_c.Builder.Emit.{new_temp_with_stmt}
use rustc_codegen_c.CAst.Expr.{CExpr}
use rustc_codegen_c.Builder.Ends.{Returns, Scrutinee, Cases, IsTarget}
use rustc_codegen_c.Builder.Flow.{ret, cond_br, switch}
use rustc_codegen_c.Types.Render as TypeText
use rustc_codegen_c.CAst.Build as Expr
use rustc_codegen_c.CAst.Build.{paren}
use rustc_codegen_c.CAst.Op.{CBinOp}
use rustc_codegen_c.Builder.Emit.{unsigned_binop}
use rustc_codegen_c.Builder.Operators.{IsReady, Operands, with_unsigned, unsigned_binop_adds}
use rustc_codegen_c.Builder.Effect.{
  WritesTo, EndsBlock, AddsTemp, cond_br_ends, ret_ends, switch_ends, new_temp_with_stmt_adds,
}
use rustc_codegen_c.Tests.Samples.{arrays, arrays-long, arrays-IsClosed, one_temp, one_temp-long}

-- A function with two blocks, and a builder in the first.
abbrev pub two_blocks : FunctionDef
two_blocks = (new_block (new_block (new (str "f") 0 []) (str "bb0")).0 (str "bb1")).0

abbrev pub first : BasicBlockData
first = record { label = str "bb0"; statements = []; terminated = false }

abbrev second : BasicBlockData
second = record { label = str "bb1"; statements = []; terminated = false }

abbrev pub builder : Builder
builder = record {
  types = arrays;
  values = one_temp;
  c_module = record (new_module (str "m")) { open_functions = (str "f", two_blocks) ∷ [] };
  current_bb = 0;
  current_fn = str "f";
}

pub builder-WritesTo : WritesTo builder two_blocks first
unfolding rustc_codegen_c.Prelude.Text.Text-discrete rustc_codegen_c.Prelude.ℕ_discrete new_block
    new
builder-WritesTo = record { function = builder_function; block = builder_block }
  where
    builder_function : current_function builder ≡ some two_blocks
    builder_function = refl

    builder_block : block_at two_blocks 0 ≡ some first
    builder_block = refl

second_block : block_at two_blocks 1 ≡ some second
unfolding new_block new rustc_codegen_c.Prelude.ℕ_discrete
second_block = refl

pub value_text : ValueText.render one_temp 0 ≡ ok (str "_t0")
unfolding ValueText.render ValueText.render_fuel Values.get Values.next_temp Values.alloc Values.new
    ValueText.render_kind rustc_codegen_c.Prelude.Decimal.show
value_text = refl

pub value_type : Values.get_type one_temp 0 ≡ ok 0
unfolding Values.get_type Values.get Values.next_temp Values.alloc Values.new
value_type = refl

pub int_kind : Types.get arrays 0 ≡ ok (int 32 true)
unfolding Types.get Types.intern Types.new rustc_codegen_c.Types.Kind.CTypeKind-discrete
int_kind = refl

return_kind : Types.get arrays two_blocks.return_type ≡ ok (int 32 true)
unfolding Types.get Types.intern Types.new rustc_codegen_c.Types.Kind.CTypeKind-discrete new_block
    new
return_kind = refl

cond_br_ends_example :
    EndsBlock builder two_blocks first
      (CStmt.cond_goto (var (str "_t0")) (str "bb1") (str "bb1"))
      (cond_br 0 1 1 builder)
cond_br_ends_example =
    cond_br_ends builder two_blocks first second second 0 1 1 builder-WritesTo value_text
      second_block second_block

ret_ends_example :
    (stmt : CStmt) × Returns (int 32 true) (str "_t0") stmt
    × EndsBlock builder two_blocks first stmt (ret 0 builder)
ret_ends_example = ret_ends builder two_blocks first 0 builder-WritesTo return_kind value_text

-- A constant of 64 bits and one above, and the second block for both.
abbrev cases : List (ℕ × BasicBlockId)
cases = (7, 1) ∷ (2 ^ 64, 1) ∷ []

cases-IsTarget : All (IsTarget two_blocks) cases
cases-IsTarget =
    ((omega arith, (second, second_block)), ((omega arith, (second, second_block)), tt))

switch_ends_example :
    (e : CExpr) × (written : List (CExpr × Text)) × Scrutinee (int 32 true) (str "_t0") e
    × Cases two_blocks cases written
    × EndsBlock builder two_blocks first
        (CStmt.switch e written (str "bb1"))
        (switch 0 1 cases builder)
switch_ends_example =
    switch_ends builder two_blocks first second 0 1 cases builder-WritesTo value_text value_type
      int_kind second_block cases-IsTarget

new_temp_with_stmt_adds_example :
    AddsTemp builder two_blocks first 0
      (lit (str "1"))
      (new_temp_with_stmt 0 (lit (str "1")) builder)
new_temp_with_stmt_adds_example =
    new_temp_with_stmt_adds builder two_blocks first 0 (lit (str "1")) arrays-IsClosed
      (rw one_temp-long (omega arith)) (rw arrays-long (omega arith)) builder-WritesTo

sanitize_name-IsName_example :
    IsName (sanitize_name (str "core::fmt"))
    × (length (sanitize_name (str "core::fmt")) ≡ length (str "core::fmt"))
    × SanitizesAll (str "core::fmt") (sanitize_name (str "core::fmt"))
sanitize_name-IsName_example = sanitize_name-IsName (str "core::fmt")

pub builder-IsReady : IsReady builder
builder-IsReady = record { closed = arrays-IsClosed; room = rw one_temp-long (omega arith) }

builder-Operands : Operands builder 0 0 0 (str "_t0") (str "_t0")
builder-Operands = record {
  left = value_text;
  right = value_text;
  typed = value_type;
  inside = rw arrays-long (omega arith);
}

pub int_text : TypeText.render arrays 0 ≡ ok (str "int32_t")
unfolding TypeText.render TypeText.render_fuel Types.get Types.intern Types.new
    rustc_codegen_c.Types.Kind.CTypeKind-discrete TypeText.render_kind TypeText.render_int
int_text = refl

unsigned_text :
    TypeText.render (with_unsigned builder 32).types (Types.intern builder.types (int 32 false)).1
    ≡ ok (str "uint32_t")
unfolding TypeText.render TypeText.render_fuel Types.get Types.intern Types.new
    rustc_codegen_c.Types.Kind.CTypeKind-discrete rustc_codegen_c.Prelude.ℕ_discrete
    TypeText.render_kind TypeText.render_int
unsigned_text = refl

unsigned_binop_adds_example :
    AddsTemp
      (with_unsigned builder 32)
      two_blocks
      first
      0
      (Expr.cast (str "int32_t") (
        paren (
          Expr.binop
            (Expr.cast (str "uint32_t") (var (str "_t0")))
            CBinOp.div
            (Expr.cast (str "uint32_t") (var (str "_t0"))))))
      (unsigned_binop CBinOp.div 0 0 builder)
unsigned_binop_adds_example =
    unsigned_binop_adds builder two_blocks first CBinOp.div 0 0 32 builder-IsReady builder-WritesTo
      builder-Operands int_kind int_text unsigned_text
