-- ===== src/Builder/Flow.antt =====
-- src/builder.rs: the ends of blocks, and new blocks.
use rustc_codegen_c.Prelude.{
  ℕ, ◌/◌, ◌%◌, ◌^◌, ◌-◌, Bool, true, false, List, [], ◌∷◌, Option, none, some, if◌then◌else◌, ltb,
  map, ℕ_discrete,
}
use rustc_codegen_c.Prelude.Text.{Text, str, fmt, Text-discrete}
use rustc_codegen_c.Prelude.Decimal.{show}
use rustc_codegen_c.Prelude.Dict.{get, insert, modify}
use rustc_codegen_c.CAst.Expr.{CExpr}
use rustc_codegen_c.CAst.Build.{var, lit}
use rustc_codegen_c.CAst.Build as Expr
use rustc_codegen_c.CAst.Stmt.{CStmt}
use rustc_codegen_c.Types.Kind.{CTypeKind, void, int, ptr_width}
use rustc_codegen_c.Values.Store.{ValueRef}
use rustc_codegen_c.Module.Function.{FunctionDef, BasicBlockId, new_block}
use rustc_codegen_c.Module.Function as Function
use rustc_codegen_c.Module.Render.{is_empty}
use rustc_codegen_c.Module.Source.{CModule}
use rustc_codegen_c.Builder.Names.{sanitize_name}
use rustc_codegen_c.Builder.State.{
  Builder, Build, ◌>>=◌, ◌>>◌, give, ask, get_type, get_kind, render_value, current_function,
  with_function,
}
use rustc_codegen_c.Prelude.Outcome.{ok}
use rustc_codegen_c.Builder.Emit.{emit, block_label}

-- The lines after the last statement of every end of a block.
unfoldable pub set_terminated : Build Unit
set_terminated b = with_function (λ f. Function.set_terminated f b.current_bb) b

-- A block's last statement, and its mark.
unfoldable pub end_with : CStmt → Build Unit
end_with stmt = do emit stmt; set_terminated

unfoldable pub switch_to_block : BasicBlockId → Build Unit
switch_to_block llbb b = ok (tt, record b { current_bb = llbb })

abbrev pub retbuf_of : Option FunctionDef → Option Text
retbuf_of none = none
retbuf_of (some f) = f.retbuf_name

abbrev pub ret_void_stmt : Option Text → CStmt
ret_void_stmt none = CStmt.return none
ret_void_stmt (some name) = CStmt.return (some (var name))

unfoldable pub ret_void : Build Unit
ret_void b = end_with (ret_void_stmt (retbuf_of (current_function b))) b

abbrev pub is_void_kind : CTypeKind → Bool
is_void_kind void = true
is_void_kind _ = false

abbrev pub returns_void : Option FunctionDef → Build Bool
returns_void none = give false
returns_void (some f) = do kind ← get_kind f.return_type; give (is_void_kind kind)

abbrev pub ret_rest : ValueRef → Bool → Build Unit
ret_rest v true = end_with (CStmt.return none)
ret_rest v false = do val ← render_value v; end_with (CStmt.return (some (var val)))

unfoldable pub ret : ValueRef → Build Unit
ret v = do f ← ask λ b. ok (current_function b); is_void ← returns_void f; ret_rest v is_void

abbrev pub label : BasicBlockId → Build Text
label bb = ask λ b. ok (block_label b bb)

unfoldable pub br : BasicBlockId → Build Unit
br dest = do l ← label dest; end_with (CStmt.goto l)

unfoldable pub cond_br : ValueRef → BasicBlockId → BasicBlockId → Build Unit
cond_br cond then_llbb else_llbb = do
  c ← render_value cond
  then_label ← label then_llbb
  else_label ← label else_llbb
  end_with (CStmt.cond_goto (var c) then_label else_label)

abbrev pub switch_expr : CTypeKind → Text → CExpr
switch_expr (int bits true) val = Expr.cast (fmt (str "uint" ∷ show bits ∷ str "_t" ∷ [])) (var val)
switch_expr (ptr_width true) val = Expr.cast (str "__rustc_usize") (var val)
switch_expr _ val = var val

-- A `u128` above `u64::MAX` is written as two halves.
abbrev pub case_expr : ℕ → CExpr
case_expr constant =
    if ltb (2 ^ 64 - 1) constant
    then Expr.raw (
        fmt (
          str "((uint128_t)"
          ∷ show (constant / 2 ^ 64)
          ∷ str "ULL << 64 | "
          ∷ show (constant % 2 ^ 64)
          ∷ str "ULL)"
          ∷ []))
    else lit (fmt (show constant ∷ str "ULL" ∷ []))

abbrev pub switch_cases : Builder → List (ℕ × BasicBlockId) → List (CExpr × Text)
switch_cases b cases = map (λ c. (case_expr c.0, block_label b c.1)) cases

unfoldable pub switch : ValueRef → BasicBlockId → List (ℕ × BasicBlockId) → Build Unit
switch v else_llbb cases = do
  val ← render_value v
  else_label ← label else_llbb
  val_ty ← get_type v
  kind ← get_kind val_ty
  ast_cases ← ask λ b. ok (switch_cases b cases)
  end_with (CStmt.switch (switch_expr kind val) ast_cases else_label)

unfoldable pub unreachable : Build Unit
unreachable = end_with CStmt.unreachable

-- The label of a block that `append_block` makes.
abbrev pub new_label : ℕ → Text → Text
new_label counter name =
    if is_empty name
    then fmt (str "bb" ∷ show counter ∷ [])
    else fmt (str "bb_" ∷ show counter ∷ str "_" ∷ sanitize_name name ∷ [])

-- The label of a block that `append_sibling_block` makes.
abbrev pub sibling_label : ℕ → Text → Text
sibling_label counter name = fmt (str "bb_" ∷ show counter ∷ str "_" ∷ sanitize_name name ∷ [])

-- A new block of the open function `fn_name`. `u32::MAX` stands for a missing function.
abbrev pub block_in : CModule → Text → (ℕ → Text) → Option FunctionDef → CModule × BasicBlockId
block_in m fn_name label_at none = (m, 2 ^ 32 - 1)
block_in m fn_name label_at (some func) =
    let (func', bb) = new_block func (label_at func.block_counter) in
    (
      record m {
        open_functions = modify Text-discrete m.open_functions fn_name (λ _. func');
        block_to_function = insert ℕ_discrete m.block_to_function bb fn_name;
      },
      bb,
    )

unfoldable pub add_block : Text → (ℕ → Text) → Build BasicBlockId
add_block fn_name label_at b =
    let r =
      block_in b.c_module fn_name label_at (get Text-discrete b.c_module.open_functions fn_name) in
    ok (r.1, record b { c_module = r.0 })

-- The context of the builder stands for the parameter `cx`.
unfoldable pub append_block : ValueRef → Text → Build BasicBlockId
append_block llfn name = do
  fn_name ← render_value llfn
  add_block fn_name λ counter. new_label counter name

unfoldable pub append_sibling_block : Text → Build BasicBlockId
append_sibling_block name b = add_block b.current_fn (λ counter. sibling_label counter name) b
