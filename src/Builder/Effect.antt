-- ===== src/Builder/Effect.antt =====
-- src/builder.rs: what a call on a builder does to the block that it writes to.
use rustc_codegen_c.Prelude.{
  ℕ, ◌<◌, ◌≡◌, refl, ◌∙◌, true, false, List, [], ◌∷◌, ◌++◌, none, some, ◌==◌, arith, length, All,
  inl, inr,
}
use rustc_codegen_c.Prelude.Text.{Text, str, fmt, Text-discrete}
use rustc_codegen_c.Prelude.Decimal.{show}
use rustc_codegen_c.Prelude.Dict.{get-modify_self}
use rustc_codegen_c.Prelude.Outcome.{Outcome, ok}
use rustc_codegen_c.CAst.Expr.{CExpr}
use rustc_codegen_c.CAst.Build.{var}
use rustc_codegen_c.CAst.Stmt.{CStmt}
use rustc_codegen_c.Types.Kind.{TypeRef, CTypeKind}
use rustc_codegen_c.Types.Store as Types
use rustc_codegen_c.Types.Render as TypeText
use rustc_codegen_c.Types.Total.{IsClosed, render_decl_total}
use rustc_codegen_c.Values.Store.{ValueRef}
use rustc_codegen_c.Values.Store as Values
use rustc_codegen_c.Values.Render as ValueText
use rustc_codegen_c.Values.Fresh.{HasRoom, next_temp-elem, render_temp}
use rustc_codegen_c.Module.Function.{
  FunctionDef, BasicBlockId, BasicBlockData, block_at, push_stmt, end_block,
}
use rustc_codegen_c.Module.Function as Function
use rustc_codegen_c.Module.Blocks.{emit-block_at, set_terminated-block_at}
use rustc_codegen_c.Builder.State.{Builder, current_function, change_function}
use rustc_codegen_c.Builder.Emit.{emit, new_temp_with_stmt, block_label}
use rustc_codegen_c.Builder.Ends.{
  Returns, is_void_kind-Returns, Scrutinee, switch_expr-Scrutinee, Cases, IsTarget,
  case_expr-Spells,
}
use rustc_codegen_c.Builder.Flow.{
  set_terminated, end_with, ret, br, cond_br, switch, switch_expr, switch_cases,
}

-- The builder writes to block `blk` of the open function `f`.
pub record WritesTo (b : Builder) (f : FunctionDef) (blk : BasicBlockData) : Type 0 where
  pub function : current_function b ≡ some f
  pub block : block_at f b.current_bb ≡ some blk

current_function-change :
    (b : Builder) (g : FunctionDef → FunctionDef) {f : FunctionDef}
    → current_function b ≡ some f
    → current_function (change_function b g) ≡ some (g f)
current_function-change b g h =
    get-modify_self Text-discrete b.c_module.open_functions b.current_fn g h

-- What a call that ends the block with `stmt` leaves: it returns, the block has `stmt` as its last
-- statement and is marked as ended, the other blocks are as before, and so are the stores and the
-- place where the builder stands.
pub record EndsBlock (b : Builder) (f : FunctionDef) (blk : BasicBlockData) (stmt : CStmt)
    (run : Outcome (Unit {0} × Builder)) : Type 0 where
  pub after : Builder
  pub f_after : FunctionDef
  pub returns : run ≡ ok (tt, after)
  pub writes : WritesTo after f_after (end_block (push_stmt stmt blk))
  pub others : (j : BasicBlockId) → (b.current_bb == j) ≡ false → block_at f_after j ≡ block_at f j
  pub types : after.types ≡ b.types
  pub values : after.values ≡ b.values
  pub place : after.current_bb ≡ b.current_bb

same_number : (n : ℕ) → (n == n) ≡ true
same_number n = ground arith

emit_here :
    (f : FunctionDef) (bb : BasicBlockId) (stmt : CStmt) {blk : BasicBlockData}
    → block_at f bb ≡ some blk
    → block_at (Function.emit f bb stmt) bb ≡ some (push_stmt stmt blk)
emit_here f bb stmt h = emit-block_at f bb bb stmt ∙ rw (same_number bb, h) refl

end_here :
    (f : FunctionDef) (bb : BasicBlockId) {blk : BasicBlockData}
    → block_at f bb ≡ some blk
    → block_at (Function.set_terminated f bb) bb ≡ some (end_block blk)
end_here f bb h = set_terminated-block_at f bb bb ∙ rw (same_number bb, h) refl

end_with_ends :
    (b : Builder) (f : FunctionDef) (blk : BasicBlockData) (stmt : CStmt)
    → WritesTo b f blk
    → EndsBlock b f blk stmt (end_with stmt b)
unfolding end_with emit set_terminated
end_with_ends b f blk stmt w = record {
  after =
      change_function (change_function b λ g. Function.emit g b.current_bb stmt)
        λ g. Function.set_terminated g b.current_bb;
  f_after = Function.set_terminated (Function.emit f b.current_bb stmt) b.current_bb;
  returns = refl;
  writes = record {
    function =
        current_function-change (change_function b λ g. Function.emit g b.current_bb stmt) _
          (current_function-change b _ w.function);
    block =
        end_here (Function.emit f b.current_bb stmt) b.current_bb
          (emit_here f b.current_bb stmt w.block);
  };
  others = λ j ne.
      set_terminated-block_at (Function.emit f b.current_bb stmt) b.current_bb j
      ∙ rw ne (emit-block_at f b.current_bb j stmt ∙ rw ne refl);
  types = refl;
  values = refl;
  place = refl;
}

block_label_lem :
    (b : Builder) (bb : BasicBlockId) {f : FunctionDef} {blk : BasicBlockData}
    → current_function b ≡ some f
    → block_at f bb ≡ some blk
    → block_label b bb ≡ blk.label
unfolding block_label
block_label_lem b bb hf hb = rw (hf, hb) refl

-- In a block of an open function, a jump to a block of the function ends the current block with a
-- `goto` to that block's label. The other blocks, the stores and the current block's number stay.
pub br_ends :
    (b : Builder) (f : FunctionDef) (blk target : BasicBlockData) (dest : BasicBlockId)
    → WritesTo b f blk
    → block_at f dest ≡ some target
    → EndsBlock b f blk (CStmt.goto target.label) (br dest b)
unfolding br block_label
br_ends b f blk target dest w h =
    rw (w.function, h) (end_with_ends b f blk (CStmt.goto target.label) w)

-- In a block of an open function, for a condition with a spelling and two blocks of the function,
-- a conditional jump ends the current block with the choice between the labels of both. The other
-- blocks, the stores and the current block's number stay.
pub cond_br_ends :
    (b : Builder) (f : FunctionDef) (blk yes_blk no_blk : BasicBlockData) (cond : ValueRef)
    (then_bb else_bb : BasicBlockId) {c : Text}
    → WritesTo b f blk
    → ValueText.render b.values cond ≡ ok c
    → block_at f then_bb ≡ some yes_blk
    → block_at f else_bb ≡ some no_blk
    → EndsBlock b f blk
        (CStmt.cond_goto (var c) yes_blk.label no_blk.label)
        (cond_br cond then_bb else_bb b)
unfolding cond_br block_label
cond_br_ends b f blk yes_blk no_blk cond then_bb else_bb {c = c} w hc hy hn =
    rw (hc, w.function, hy, hn)
      (end_with_ends b f blk (CStmt.cond_goto (var c) yes_blk.label no_blk.label) w)

-- In a block of an open function whose return type is in the store, for a value with a spelling, a
-- return ends the current block: with a bare `return` where the return type is `void`, and with
-- the value where it is any other. The other blocks, the stores and the current block's number
-- stay.
pub ret_ends :
    (b : Builder) (f : FunctionDef) (blk : BasicBlockData) (v : ValueRef) {kind : CTypeKind}
    {x : Text}
    → WritesTo b f blk
    → Types.get b.types f.return_type ≡ ok kind
    → ValueText.render b.values v ≡ ok x
    → (stmt : CStmt) × Returns kind x stmt × EndsBlock b f blk stmt (ret v b)
unfolding ret
ret_ends b f blk v {kind = kind} {x = x} w hk hx = elim (is_void_kind-Returns kind x) [
  | inl (e, r) ↦ rw (w.function, hk, e) (_, r, end_with_ends b f blk (CStmt.return none) w)
  | inr (e, r) ↦
      rw (w.function, hk, e, hx) (_, r, end_with_ends b f blk (CStmt.return (some (var x))) w)
]

switch_cases-Cases :
    (b : Builder) (f : FunctionDef) (cases : List (ℕ × BasicBlockId))
    → current_function b ≡ some f
    → All (IsTarget f) cases
    → Cases f cases (switch_cases b cases)
switch_cases-Cases b f [] hf _ = Cases.no_case
switch_cases-Cases b f ((constant, bb) ∷ cases) hf ((lt, (target, at)), hs) =
    rw (block_label_lem b bb hf at)
      (Cases.case at (case_expr-Spells constant lt) (switch_cases-Cases b f cases hf hs))

-- In a block of an open function, where the scrutinee has a spelling and a type and the default
-- block exists, and so do the targets, whose constants are below 2^128, a switch ends the current
-- block. A scrutinee of a signed integer of `n` bits is cast to `uintn_t`, one of the signed
-- pointer width to `__rustc_usize`, and any other stands as it is. Each case is a C constant of
-- the value of its number, with the label of its block, and the default has the label of its
-- block. The other blocks, the stores and the current block's number stay.
pub switch_ends :
    (b : Builder) (f : FunctionDef) (blk other : BasicBlockData) (v : ValueRef)
    (else_bb : BasicBlockId) (cases : List (ℕ × BasicBlockId)) {ty : TypeRef} {kind : CTypeKind}
    {x : Text}
    → WritesTo b f blk
    → ValueText.render b.values v ≡ ok x
    → Values.get_type b.values v ≡ ok ty
    → Types.get b.types ty ≡ ok kind
    → block_at f else_bb ≡ some other
    → All (IsTarget f) cases
    → (e : CExpr) × (written : List (CExpr × Text)) × Scrutinee kind x e
      × Cases f cases written
      × EndsBlock b f blk (CStmt.switch e written other.label) (switch v else_bb cases b)
unfolding switch
switch_ends b f blk other v else_bb cases {kind = kind} {x = x} w hx ht hk ho hc =
    rw (hx, ht, hk, block_label_lem b else_bb w.function ho)
      (
        switch_expr kind x,
        switch_cases b cases,
        switch_expr-Scrutinee kind x,
        switch_cases-Cases b f cases w.function hc,
        end_with_ends b f blk (CStmt.switch (switch_expr kind x) (switch_cases b cases) other.label)
            w,
      )

-- What a call that keeps the value of `expr` leaves: it returns a new value of the type `ty`, with
-- the name `_t` and the number of the counter. The function declares a variable of that name, the
-- current block has the assignment as its last statement, and the types stay.
pub record AddsTemp (b : Builder) (f : FunctionDef) (blk : BasicBlockData) (ty : TypeRef)
    (expr : CExpr) (run : Outcome (ValueRef × Builder)) : Type 0 where
  pub after : Builder
  pub f_after : FunctionDef
  pub val : ValueRef
  pub name : Text
  pub decl : Text
  pub returns : run ≡ ok (val, after)
  pub numbered : name ≡ str "_t" ++ show b.values.temp_counter
  pub named : ValueText.render after.values val ≡ ok name
  pub typed : Values.get_type after.values val ≡ ok ty
  pub spelled : TypeText.render_decl b.types ty name ≡ ok decl
  pub declared : f_after.local_decls ≡ f.local_decls ++ fmt (decl ∷ str ";" ∷ []) ∷ []
  pub writes : WritesTo after f_after (push_stmt (CStmt.assign (var name) expr) blk)
  pub types : after.types ≡ b.types

-- Over closed types, with room for a value, for a type of the store and in a block of an open
-- function, `new_temp_with_stmt` returns a new value of the type with the name `_t` and the number
-- of the counter, declares a variable of that name, and puts the assignment behind the statements
-- of the current block.
pub new_temp_with_stmt_adds :
    (b : Builder) (f : FunctionDef) (blk : BasicBlockData) (ty : TypeRef) (expr : CExpr)
    → IsClosed b.types
    → HasRoom b.values
    → ty < length b.types.types
    → WritesTo b f blk
    → AddsTemp b f blk ty expr (new_temp_with_stmt ty expr b)
unfolding new_temp_with_stmt emit
new_temp_with_stmt_adds b f blk ty expr closed room inside w =
    let elem = next_temp-elem b.values ty room in
    let name = str "_t" ++ show b.values.temp_counter in
    let named =
      render_temp (Values.next_temp b.values ty).0 (Values.next_temp b.values ty).1 _
        b.values.temp_counter elem refl in
    let (decl, spelled) = render_decl_total b.types ty name closed inside in
    let made = record b { values = (Values.next_temp b.values ty).0 } in
    let declares = λ (g : FunctionDef). Function.add_local_decl g (fmt (decl ∷ str ";" ∷ [])) in
    let stmt = CStmt.assign (var name) expr in
    let assigns = λ (g : FunctionDef). Function.emit g b.current_bb stmt in
    record {
      after = change_function (change_function made declares) assigns;
      f_after = assigns (declares f);
      val = (Values.next_temp b.values ty).1;
      name = name;
      decl = decl;
      returns = rw (named, spelled) refl;
      numbered = refl;
      named = named;
      typed = unfold Values.get_type Values.get in rw elem refl;
      spelled = spelled;
      declared = unfold Function.emit Function.add_local_decl in refl;
      writes = record {
        function =
            current_function-change (change_function made declares) assigns
              (current_function-change made declares w.function);
        block =
            emit_here (declares f) b.current_bb stmt (unfold Function.add_local_decl in w.block);
      };
      types = refl;
    }
