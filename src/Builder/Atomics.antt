-- ===== src/Builder/Atomics.antt =====
-- src/builder.rs: atomic operations.
use rustc_codegen_c.Prelude.{[], ◌∷◌, Option, none, some}
use rustc_codegen_c.Prelude.Text.{Text, str, fmt}
use rustc_codegen_c.CAst.Op.{CBinOp, CUnaryOp}
use rustc_codegen_c.CAst.Expr.{CExpr}
use rustc_codegen_c.CAst.Build.{var, raw, call, addr_of, unary, paren}
use rustc_codegen_c.CAst.Build as Expr
use rustc_codegen_c.CAst.Stmt.{CStmt, stmts}
use rustc_codegen_c.Types.Kind.{TypeRef, bool}
use rustc_codegen_c.Values.Store.{ValueRef}
use rustc_codegen_c.Builder.State.{
  Build, ◌>>=◌, ◌>>◌, give, get_type, render_value, render_type, intern_type, new_temp,
}
use rustc_codegen_c.Builder.Emit.{emit, new_temp_with_stmt, unsigned_type}
use rustc_codegen_c.Builder.Memory.{declare}

-- rustc's orderings of atomic operations.
pub data AtomicOrdering : Type 0 where
  relaxed acquire release acq_rel seq_cst : AtomicOrdering

unfoldable pub atomic_ordering_to_c : AtomicOrdering → Text
atomic_ordering_to_c AtomicOrdering.relaxed = str "memory_order_relaxed"
atomic_ordering_to_c AtomicOrdering.acquire = str "memory_order_acquire"
atomic_ordering_to_c AtomicOrdering.release = str "memory_order_release"
atomic_ordering_to_c AtomicOrdering.acq_rel = str "memory_order_acq_rel"
atomic_ordering_to_c AtomicOrdering.seq_cst = str "memory_order_seq_cst"

-- rustc's scopes of fences.
pub data SynchronizationScope : Type 0 where
  single_thread cross_thread : SynchronizationScope

abbrev pub fence_fn : SynchronizationScope → Text
fence_fn SynchronizationScope.single_thread = str "atomic_signal_fence"
fence_fn SynchronizationScope.cross_thread = str "atomic_thread_fence"

unfoldable pub atomic_fence : AtomicOrdering → SynchronizationScope → Build Unit
atomic_fence order scope =
    emit (CStmt.expr (call (var (fence_fn scope)) (var (atomic_ordering_to_c order) ∷ [])))

-- `(_Atomic(t) *)d`
abbrev pub atomic_ptr : Text → Text → CExpr
atomic_ptr t d = Expr.cast (fmt (str "_Atomic(" ∷ t ∷ str ") *" ∷ [])) (var d)

unfoldable pub atomic_cmpxchg : ValueRef → ValueRef → ValueRef → Build (ValueRef × ValueRef)
atomic_cmpxchg dst cmp src = do
  ty ← get_type cmp
  bool_ty ← intern_type bool
  d ← render_value dst
  c ← render_value cmp
  s ← render_value src
  t ← render_type ty
  old ← new_temp_with_stmt ty (var c)
  old_name ← render_value old
  success ← new_temp_with_stmt bool_ty (
      call (var (str "atomic_compare_exchange_strong"))
        (atomic_ptr t d ∷ addr_of (var old_name) ∷ var s ∷ []))
  give (old, success)

-- rustc's operations of `atomic_rmw`.
pub data AtomicRmwBinOp : Type 0 where
  atomic_xchg atomic_add atomic_sub atomic_and atomic_nand atomic_or atomic_xor : AtomicRmwBinOp
  atomic_max atomic_min atomic_u_max atomic_u_min : AtomicRmwBinOp

-- The C function that does the operation, where there is one, and the two kinds of loops.
pub data RmwMethod : Type 0 where
  direct : Text → RmwMethod
  nand : RmwMethod
  choice : CBinOp → RmwMethod
  unsigned_choice : CBinOp → RmwMethod

unfoldable pub rmw_method : AtomicRmwBinOp → RmwMethod
rmw_method AtomicRmwBinOp.atomic_xchg = direct (str "atomic_exchange")
rmw_method AtomicRmwBinOp.atomic_add = direct (str "atomic_fetch_add")
rmw_method AtomicRmwBinOp.atomic_sub = direct (str "atomic_fetch_sub")
rmw_method AtomicRmwBinOp.atomic_and = direct (str "atomic_fetch_and")
rmw_method AtomicRmwBinOp.atomic_or = direct (str "atomic_fetch_or")
rmw_method AtomicRmwBinOp.atomic_xor = direct (str "atomic_fetch_xor")
rmw_method AtomicRmwBinOp.atomic_nand = nand
rmw_method AtomicRmwBinOp.atomic_min = choice CBinOp.lt
rmw_method AtomicRmwBinOp.atomic_max = choice CBinOp.gt
rmw_method AtomicRmwBinOp.atomic_u_min = unsigned_choice CBinOp.lt
rmw_method AtomicRmwBinOp.atomic_u_max = unsigned_choice CBinOp.gt

-- The sign of the comparison, which the source writes in the text.
abbrev pub choice_sign : CBinOp → Text
choice_sign CBinOp.lt = str "<"
choice_sign _ = str ">"

-- `old op s ? old : s`
abbrev pub choice_text : CBinOp → Text → Text → Text
choice_text op old_name s =
    fmt (
      old_name ∷ str " " ∷ choice_sign op ∷ str " " ∷ s ∷ str " ? " ∷ old_name ∷ str " : " ∷ s ∷ [])

-- The same with every operand in the unsigned type `ut`, and the result in `t`.
abbrev pub unsigned_text : CBinOp → Text → Text → Text → Text → Text
unsigned_text op t ut old_name s = fmt (
    str "("
    ∷ t
    ∷ str ")(("
    ∷ ut
    ∷ str ")"
    ∷ old_name
    ∷ str " "
    ∷ choice_sign op
    ∷ str " ("
    ∷ ut
    ∷ str ")"
    ∷ s
    ∷ str " ? ("
    ∷ ut
    ∷ str ")"
    ∷ old_name
    ∷ str " : ("
    ∷ ut
    ∷ str ")"
    ∷ s
    ∷ str ")"
    ∷ [])

abbrev pub unsigned_choice_text : CBinOp → Text → Text → Text → Option TypeRef → Build Text
unsigned_choice_text op t old_name s none = give (choice_text op old_name s)
unsigned_choice_text op t old_name s (some ut) = do
  ut_str ← render_type ut
  give (unsigned_text op t ut_str old_name s)

-- `cmp` of the loops for minima and maxima.
abbrev pub rmw_text : RmwMethod → TypeRef → Text → Text → Text → Build Text
rmw_text (unsigned_choice op) ty t old_name s = do
  ut ← unsigned_type ty
  unsigned_choice_text op t old_name s ut
rmw_text (choice op) ty t old_name s = give (choice_text op old_name s)
rmw_text _ ty t old_name s = give []

-- The old value is loaded; the wanted one is put in its place until no other thread was faster.
abbrev pub rmw_loop : Text → Text → Text → Text → CExpr → Build Unit
rmw_loop t d old_name desired_name wanted = do
  emit (CStmt.assign (var old_name) (call (var (str "atomic_load")) (atomic_ptr t d ∷ [])))
  emit (
      CStmt.do_while (stmts (CStmt.assign (var desired_name) wanted ∷ [])) (
        unary CUnaryOp.log_not (
          call (var (str "atomic_compare_exchange_weak"))
            (atomic_ptr t d ∷ addr_of (var old_name) ∷ var desired_name ∷ []))))

-- The expression of the wanted value.
abbrev pub wanted_expr : RmwMethod → TypeRef → Text → Text → Text → Build CExpr
wanted_expr nand ty t old_name s =
    give (unary CUnaryOp.bit_not (paren (Expr.binop (var old_name) CBinOp.bit_and (var s))))
wanted_expr method ty t old_name s = do cmp ← rmw_text method ty t old_name s; give (raw cmp)

abbrev pub rmw_with_loop : RmwMethod → TypeRef → Text → Text → Text → Build ValueRef
rmw_with_loop method ty d s t = do
  old ← new_temp ty
  old_name ← render_value old
  desired ← new_temp ty
  desired_name ← render_value desired
  declare t old_name
  declare t desired_name
  wanted ← wanted_expr method ty t old_name s
  rmw_loop t d old_name desired_name wanted
  give old

abbrev pub rmw_by : RmwMethod → TypeRef → Text → Text → Text → Build ValueRef
rmw_by (direct f) ty d s t = new_temp_with_stmt ty (call (var f) (atomic_ptr t d ∷ var s ∷ []))
rmw_by method ty d s t = rmw_with_loop method ty d s t

unfoldable pub atomic_rmw : AtomicRmwBinOp → ValueRef → ValueRef → Build ValueRef
atomic_rmw op dst src = do
  ty ← get_type src
  d ← render_value dst
  s ← render_value src
  t ← render_type ty
  rmw_by (rmw_method op) ty d s t
