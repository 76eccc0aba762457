-- ===== src/Builder/Ends.antt =====
-- src/builder.rs: what a return and a switch write, said without the builder.
use rustc_codegen_c.Prelude.{
  ℕ, ◌^◌, ◌<◌, ◌-◌, ◌≡◌, refl, ◌⊎◌, inl, inr, true, false, Bool-cases, List, [], ◌∷◌, none, some,
  arith, ltb, leb,
}
use mathlib.Core.Logic.{◌≢◌}
use rustc_codegen_c.Prelude.Text.{Text, str, fmt}
use rustc_codegen_c.Prelude.Int.{pos}
use rustc_codegen_c.Prelude.Decimal.{show}
use rustc_codegen_c.CAst.Expr.{CExpr, display}
use rustc_codegen_c.CAst.Build.{var}
use rustc_codegen_c.CAst.Build as Expr
use rustc_codegen_c.CAst.Stmt.{CStmt}
use rustc_codegen_c.Types.Kind.{CTypeKind, void, int, ptr_width}
use rustc_codegen_c.Values.Render.{render_uint_const}
use rustc_codegen_c.Values.Literal.{Spells, uint_const-Spells}
use rustc_codegen_c.Module.Function.{FunctionDef, BasicBlockId, BasicBlockData, block_at}
use rustc_codegen_c.Builder.Flow.{is_void_kind, switch_expr, case_expr}

-- The statement that returns the value `x` from a function of the return type `kind`.
pub data Returns : CTypeKind → Text → CStmt → Type 0 where
  nothing : {x : Text} → Returns void x (CStmt.return none)
  a_value :
      {kind : CTypeKind} {x : Text} → kind ≢ void → Returns kind x (CStmt.return (some (var x)))

pub is_void_kind-Returns :
    (kind : CTypeKind) (x : Text)
    → ((is_void_kind kind ≡ true) × Returns kind x (CStmt.return none))
      ⊎ ((is_void_kind kind ≡ false) × Returns kind x (CStmt.return (some (var x))))
is_void_kind-Returns void x = inl (refl, Returns.nothing)
is_void_kind-Returns _ x = inr (refl, Returns.a_value (λ h. cc))

-- The signed integer types.
pub data IsSigned : CTypeKind → Type 0 where
  int_signed : {bits : ℕ} → IsSigned (int bits true)
  ptr_signed : IsSigned (ptr_width true)

-- What a switch on the value `x` of the type `kind` looks at: a signed value in the unsigned type of
-- its width, and any other as it is.
pub data Scrutinee : CTypeKind → Text → CExpr → Type 0 where
  signed_int :
      {bits : ℕ} {x : Text}
      → Scrutinee
          (int bits true)
          x
          (Expr.cast (fmt (str "uint" ∷ show bits ∷ str "_t" ∷ [])) (var x))
  signed_ptr : {x : Text} → Scrutinee (ptr_width true) x (Expr.cast (str "__rustc_usize") (var x))
  as_it_is : {kind : CTypeKind} {x : Text} → ¬ IsSigned kind → Scrutinee kind x (var x)

pub switch_expr-Scrutinee : (kind : CTypeKind) (x : Text) → Scrutinee kind x (switch_expr kind x)
switch_expr-Scrutinee (int bits true) x = Scrutinee.signed_int
switch_expr-Scrutinee (ptr_width true) x = Scrutinee.signed_ptr
switch_expr-Scrutinee _ x = Scrutinee.as_it_is (λ h. elim h [ ])

-- The cases of a switch in the function: each is a constant of the value and the label of the block
-- that is asked for.
pub data Cases (f : FunctionDef) : List (ℕ × BasicBlockId) → List (CExpr × Text) → Type 0 where
  no_case : Cases f [] []
  case :
      {constant : ℕ} {bb : BasicBlockId} {target : BasicBlockData} {e : CExpr}
      {cases : List (ℕ × BasicBlockId)} {written : List (CExpr × Text)}
      → block_at f bb ≡ some target
      → Spells (display e) (pos constant)
      → Cases f cases written
      → Cases f ((constant, bb) ∷ cases) ((e, target.label) ∷ written)

-- The constants are of 128 bits, and the targets are blocks of the function.
abbrev pub IsTarget : FunctionDef → ℕ × BasicBlockId → Type 0
IsTarget f c = (c.0 < 2 ^ 128) × ((target : BasicBlockData) × (block_at f c.1 ≡ some target))

case_expr-render : (constant : ℕ) → display (case_expr constant) ≡ render_uint_const constant
unfolding display render_uint_const
case_expr-render constant = elim (Bool-cases (ltb (2 ^ 64 - 1) constant)) [
  | inl big ↦ rw (big, no_fit big) refl
  | inr small ↦ rw (small, fits small) refl
]
  where
    no_fit : ltb (2 ^ 64 - 1) constant ≡ true → leb constant (2 ^ 64 - 1) ≡ false
    no_fit h = ground arith

    fits : ltb (2 ^ 64 - 1) constant ≡ false → leb constant (2 ^ 64 - 1) ≡ true
    fits h = ground arith

pub case_expr-Spells :
    (constant : ℕ) → constant < 2 ^ 128 → Spells (display (case_expr constant)) (pos constant)
case_expr-Spells constant h = rw (case_expr-render constant) (uint_const-Spells constant h)
