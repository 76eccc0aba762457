-- ===== src/Builder/Unwind.antt =====
-- src/builder.rs: calls with a landing pad, and what stands for landing pads in C.
use rustc_codegen_c.Prelude.{◌+◌, ◌%◌, ◌^◌, List, [], ◌∷◌, Option, none, some, if◌then◌else◌, ◌==◌}
use rustc_codegen_c.Prelude.Int.{pos}
use rustc_codegen_c.Prelude.Text.{Text, str, fmt}
use rustc_codegen_c.Prelude.Outcome.{ok, panic}
use rustc_codegen_c.CAst.Build.{var, lit, field, addr_of}
use rustc_codegen_c.CAst.Build as Expr
use rustc_codegen_c.CAst.Stmt.{CStmt}
use rustc_codegen_c.Types.Kind.{TypeRef}
use rustc_codegen_c.Values.Store.{ValueRef, inline_expr}
use rustc_codegen_c.Module.Function.{FunctionDef, BasicBlockId}
use rustc_codegen_c.Module.Function as Function
use rustc_codegen_c.Builder.State.{
  Build, ◌>>=◌, ◌>>◌, give, render_value, current_function, change_function,
}
use rustc_codegen_c.Builder.Emit.{emit}
use rustc_codegen_c.Builder.Queries.{type_ptr}
use rustc_codegen_c.Builder.Flow.{label, end_with}
use rustc_codegen_c.Builder.Call.{FnAbi, call}
use rustc_codegen_c.Consts.Values.{intern_value, const_null, const_i32}

-- The first landing pad of a function declares what all of them share. The counter is a `u32`.
abbrev pub with_unwind_decls : FunctionDef → FunctionDef
with_unwind_decls f =
    if f.invoke_counter == 0
    then Function.add_local_decl (Function.add_local_decl f (str "void *__exn_ptr;"))
        (str "struct __rustc_unwind_context __unwind_ctx;")
    else f

abbrev pub count_invoke : FunctionDef → FunctionDef
count_invoke f = record (with_unwind_decls f) {
  invoke_counter = ((with_unwind_decls f).invoke_counter + 1) % 2 ^ 32;
}

-- `open_functions.get_mut(&self.current_fn).unwrap()`: a panic where the function is not open.
abbrev pub count_in : Option FunctionDef → Build Unit
count_in none b = panic
count_in (some f) b = ok (tt, change_function b count_invoke)

unfoldable pub declare_unwind : Build Unit
declare_unwind b = count_in (current_function b) b

abbrev pub setjmp_text : Text → Text
setjmp_text catch_label = fmt (
    str "if (__rustc_setjmp(__unwind_ctx.buf) != 0) { __exn_ptr = __unwind_ctx.exception_ptr; "
    ∷ str "__rustc_unwind_chain = __unwind_ctx.prev; goto "
    ∷ catch_label
    ∷ str "; }"
    ∷ [])

-- The context of the function is put on the chain.
abbrev pub push_context : Text → Build Unit
push_context catch_label = do
  emit (
      CStmt.assign (field (var (str "__unwind_ctx")) (str "prev"))
        (var (str "__rustc_unwind_chain")))
  emit (
      CStmt.assign (field (var (str "__unwind_ctx")) (str "exception_ptr"))
        (Expr.cast (str "void *") (lit (str "0"))))
  emit (CStmt.assign (var (str "__rustc_unwind_chain")) (addr_of (var (str "__unwind_ctx"))))
  emit (CStmt.raw (setjmp_text catch_label))

abbrev pub pop_context : Build Unit
pop_context = emit (
    CStmt.assign (var (str "__rustc_unwind_chain")) (field (var (str "__unwind_ctx")) (str "prev")))

unfoldable pub invoke :
    TypeRef → Option FnAbi → ValueRef → List ValueRef → BasicBlockId → BasicBlockId → Build ValueRef
invoke llty abi llfn args then_bb catch_bb = do
  declare_unwind
  catch_label ← label catch_bb
  then_label ← label then_bb
  push_context catch_label
  result ← call llty abi llfn args
  pop_context
  end_with (CStmt.goto then_label)
  give result

unfoldable pub cleanup_landing_pad : Build (ValueRef × ValueRef)
cleanup_landing_pad = do
  ptr_ty ← type_ptr
  exn ← intern_value (inline_expr (str "__exn_ptr")) ptr_ty
  selector ← const_i32 (pos 0)
  give (exn, selector)

-- The jump to the next handler with the exception `e`, or the end of the program.
abbrev pub unwind_text : Text → Text
unwind_text e = fmt (
    str "if (__rustc_unwind_chain) { __rustc_unwind_chain->exception_ptr = "
    ∷ e
    ∷ str "; __rustc_longjmp(__rustc_unwind_chain->buf, 1); } else { abort(); }"
    ∷ [])

unfoldable pub resume : ValueRef → Build Unit
resume exn0 = do
  e ← render_value exn0
  end_with (CStmt.raw (unwind_text (fmt (str "(void *)" ∷ e ∷ []))))

unfoldable pub cleanup_ret : Option BasicBlockId → Build Unit
cleanup_ret none = end_with (CStmt.raw (unwind_text (str "__exn_ptr")))
cleanup_ret (some target) = do l ← label target; end_with (CStmt.goto l)

unfoldable pub catch_switch : Build ValueRef
catch_switch = do ptr_ty ← type_ptr; const_null ptr_ty
