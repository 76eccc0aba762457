-- ===== src/Module/Function.antt =====
-- src/module.rs: a function definition being built. A `&mut self` method returns the new function.
use rustc_codegen_c.Prelude.{
  ℕ, ◌+◌, ◌%◌, ◌^◌, Bool, true, false, List, [], ◌∷◌, ◌++◌, Option, none, ℕ_discrete,
}
use rustc_codegen_c.Prelude.Text.{Text}
use rustc_codegen_c.Prelude.Dict.{get, modify, insert_sorted}
use rustc_codegen_c.CAst.Stmt.{CStmt}
use rustc_codegen_c.Types.Kind.{TypeRef}

-- `BasicBlockId(u32)`
abbrev pub BasicBlockId : Type 0
BasicBlockId = ℕ

pub record BasicBlockData : Type 0 where
  pub label : Text
  pub statements : List CStmt
  pub terminated : Bool

-- `blocks` is a `BTreeMap<u32, BasicBlockData>` in the order of its keys.
pub record FunctionDef : Type 0 where
  pub name : Text
  pub return_type : TypeRef
  pub params : List (TypeRef × Text)
  pub blocks : List (ℕ × BasicBlockData)
  pub block_counter : ℕ
  pub local_decls : List Text
  pub linkage_prefix : Text
  pub has_indirect_ret : Bool
  pub ret_data_type : Option TypeRef
  pub retbuf_name : Option Text
  pub invoke_counter : ℕ
  pub param_type_overrides : List (ℕ × Text)
  pub is_variadic : Bool
  pub is_weak : Bool
  pub on_stack_params : List ℕ

unfoldable pub new : Text → TypeRef → List (TypeRef × Text) → FunctionDef
new name return_type params = record {
  name = name;
  return_type = return_type;
  params = params;
  blocks = [];
  block_counter = 0;
  local_decls = [];
  linkage_prefix = [];
  has_indirect_ret = false;
  ret_data_type = none;
  retbuf_name = none;
  invoke_counter = 0;
  param_type_overrides = [];
  is_variadic = false;
  is_weak = true;
  on_stack_params = [];
}

-- `self.blocks.get(&bb.0)`
abbrev pub block_at : FunctionDef → BasicBlockId → Option BasicBlockData
block_at f bb = get ℕ_discrete f.blocks bb

unfoldable pub new_block : FunctionDef → Text → FunctionDef × BasicBlockId
new_block f label =
    let id = f.block_counter in
    (
      record f {
        block_counter = (f.block_counter + 1) % 2 ^ 32;
        blocks =
            insert_sorted f.blocks id
              (record { label = label; statements = []; terminated = false });
      },
      id,
    )

abbrev pub push_stmt : CStmt → BasicBlockData → BasicBlockData
push_stmt stmt b = record b { statements = b.statements ++ stmt ∷ [] }

unfoldable pub emit : FunctionDef → BasicBlockId → CStmt → FunctionDef
emit f bb stmt = record f { blocks = modify ℕ_discrete f.blocks bb (push_stmt stmt) }

abbrev pub end_block : BasicBlockData → BasicBlockData
end_block b = record b { terminated = true }

unfoldable pub set_terminated : FunctionDef → BasicBlockId → FunctionDef
set_terminated f bb = record f { blocks = modify ℕ_discrete f.blocks bb end_block }

unfoldable pub add_local_decl : FunctionDef → Text → FunctionDef
add_local_decl f decl = record f { local_decls = f.local_decls ++ decl ∷ [] }
