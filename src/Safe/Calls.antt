-- ===== src/Safe/Calls.antt =====
-- src/builder.rs: the calls that code generation makes on a builder, and what they ask for.
use rustc_codegen_c.Prelude.{ℕ, ◌≡◌, Bool, List, ◌∷◌, Option, some, All, length}
use rustc_codegen_c.Prelude.Text.{Text}
use rustc_codegen_c.Prelude.Outcome.{ok}
use rustc_codegen_c.Types.Kind.{TypeRef, CTypeKind}
use rustc_codegen_c.Types.Brackets.{NameBalanced}
use rustc_codegen_c.Types.Total.{RefsBelow, WidthKnown}
use rustc_codegen_c.Values.Store.{ValueRef, CValueKind}
use rustc_codegen_c.Values.Total as Values
use rustc_codegen_c.Module.Function.{BasicBlockId}
use rustc_codegen_c.Builder.State.{Builder, Build, ◌>>=◌, give, intern_type}
use rustc_codegen_c.Builder.Queries.{element_of}
use rustc_codegen_c.Builder.Memory.{alloca, load, volatile_load, atomic_load, store, atomic_store}
use rustc_codegen_c.Builder.Address.{gep}
use rustc_codegen_c.Builder.Convert.{intcast, bitcast}
use rustc_codegen_c.Builder.Compare.{IntPredicate, icmp, RealPredicate, fcmp, select}
use rustc_codegen_c.Builder.Aggregate.{
  va_arg, extract_element, vector_splat, extract_value, insert_value, to_immediate_scalar,
}
use rustc_codegen_c.Builder.Atomics.{
  AtomicOrdering, SynchronizationScope, AtomicRmwBinOp, atomic_fence, atomic_cmpxchg, atomic_rmw,
}
use rustc_codegen_c.Builder.Checked.{OverflowOp, checked_binop}
use rustc_codegen_c.Builder.Flow.{
  switch_to_block, ret_void, ret, br, cond_br, switch, unreachable, append_block,
  append_sibling_block,
}
use rustc_codegen_c.Builder.Call.{FnAbi, call, tail_call}
use rustc_codegen_c.Builder.Unwind.{invoke, cleanup_landing_pad, resume, cleanup_ret, catch_switch}
use rustc_codegen_c.Builder.Params.{get_param}
use rustc_codegen_c.Consts.Values.{intern_value}
use rustc_codegen_c.Safe.Values.{KindSound}
use rustc_codegen_c.Safe.Sound.{IsSound, HasType, HasValue, IsOpen}
use rustc_codegen_c.Safe.Rules.{Done, IsType}
use rustc_codegen_c.Safe.Arith.{BinaryOp, binary, UnaryOp, unary_op}
use rustc_codegen_c.Safe.Address.{MemoryOp, on_memory}
use rustc_codegen_c.Safe.Convert.{ConvertOp, convert}
use rustc_codegen_c.Safe.Aggregate.{HasKind, IndexFits}
use rustc_codegen_c.Safe.Args.{AbiSafe, IsCallable, AreValues}

-- The calls. Sizes and alignments are numbers of bytes.
pub data Call : Type 0 where
  intern : CTypeKind → Call
  constant : CValueKind → TypeRef → Call
  binary_op : BinaryOp → ValueRef → ValueRef → Call
  unary : UnaryOp → ValueRef → Call
  checked : OverflowOp → ValueRef → ValueRef → Call
  conversion : ConvertOp → ValueRef → TypeRef → Call
  int_cast : ValueRef → TypeRef → Bool → Call
  bit_cast : ℕ → ValueRef → TypeRef → Call
  int_compare : IntPredicate → ValueRef → ValueRef → Call
  real_compare : RealPredicate → ValueRef → ValueRef → Call
  choose : ValueRef → ValueRef → ValueRef → Call
  slot : ℕ → ℕ → Call
  load_from volatile_load_from : TypeRef → ValueRef → Call
  atomic_load_from : TypeRef → ValueRef → ℕ → Call
  store_to : ValueRef → ValueRef → Call
  atomic_store_to : ValueRef → ValueRef → ℕ → Call
  address : TypeRef → ValueRef → ValueRef → List ValueRef → Call
  memory : MemoryOp → ValueRef → ValueRef → ValueRef → Call
  next_arg : ValueRef → TypeRef → Call
  element : ValueRef → ValueRef → Call
  splat : ℕ → ValueRef → Call
  field_of : ValueRef → ℕ → Call
  with_field : ValueRef → ValueRef → ℕ → Call
  immediate : ValueRef → Bool → Build TypeRef → Call
  compare_exchange : ValueRef → ValueRef → ValueRef → Call
  read_modify_write : AtomicRmwBinOp → ValueRef → ValueRef → Call
  fence : AtomicOrdering → SynchronizationScope → Call
  call_of : TypeRef → Option FnAbi → ValueRef → List ValueRef → Call
  tail_call_of : TypeRef → FnAbi → ValueRef → List ValueRef → Call
  invoke_of : TypeRef → Option FnAbi → ValueRef → List ValueRef → BasicBlockId → BasicBlockId → Call
  landing_pad : Call
  resume_with : ValueRef → Call
  cleanup_return : Option BasicBlockId → Call
  catch_pads : Call
  parameter : ℕ → ℕ → Call
  move_to : BasicBlockId → Call
  new_block : ValueRef → Text → Call
  sibling_block : Text → Call
  return_void : Call
  return_value : ValueRef → Call
  jump : BasicBlockId → Call
  branch : ValueRef → BasicBlockId → BasicBlockId → Call
  switch_on : ValueRef → BasicBlockId → List (ℕ × BasicBlockId) → Call
  no_return : Call

-- What a call returns.
pub data Answer : Type 0 where
  nothing : Answer
  value : ValueRef → Answer
  values : ValueRef → ValueRef → Answer
  a_type : TypeRef → Answer
  block : BasicBlockId → Answer

abbrev answered : {A : Type 0} → (A → Answer) → Build A → Build Answer
answered f m = m >>= λ a. give (f a)

abbrev value_of : Build ValueRef → Build Answer
value_of m = answered Answer.value m

abbrev values_of : Build (ValueRef × ValueRef) → Build Answer
values_of m = answered (λ p. Answer.values p.0 p.1) m

abbrev unit_of : Build Unit → Build Answer
unit_of m = answered (λ _. Answer.nothing) m

abbrev pub run : Call → Build Answer
run (intern kind) = answered Answer.a_type (intern_type kind)
run (constant kind ty) = value_of (intern_value kind ty)
run (binary_op op lhs rhs) = value_of (binary op lhs rhs)
run (unary op v) = value_of (unary_op op v)
run (checked op lhs rhs) = values_of (checked_binop op lhs rhs)
run (conversion op v ty) = value_of (convert op v ty)
run (int_cast v ty is_signed) = value_of (intcast v ty is_signed)
run (bit_cast pointer_bits v ty) = value_of (bitcast pointer_bits v ty)
run (int_compare op lhs rhs) = value_of (icmp op lhs rhs)
run (real_compare op lhs rhs) = value_of (fcmp op lhs rhs)
run (choose cond x y) = value_of (select cond x y)
run (slot size align) = value_of (alloca size align)
run (load_from ty p) = value_of (load ty p)
run (volatile_load_from ty p) = value_of (volatile_load ty p)
run (atomic_load_from ty p size) = value_of (atomic_load ty p size)
run (store_to v p) = value_of (store v p)
run (atomic_store_to v p size) = unit_of (atomic_store v p size)
run (address ty p index0 indices) = value_of (gep ty p (index0 ∷ indices))
run (memory op x y z) = unit_of (on_memory op x y z)
run (next_arg list ty) = value_of (va_arg list ty)
run (element vec idx) = value_of (extract_element vec idx)
run (splat n v) = value_of (vector_splat n v)
run (field_of agg idx) = value_of (extract_value agg idx)
run (with_field agg v idx) = value_of (insert_value agg v idx)
run (immediate v is_bool scalar) = value_of (to_immediate_scalar v is_bool scalar)
run (compare_exchange dst cmp src) = values_of (atomic_cmpxchg dst cmp src)
run (read_modify_write op dst src) = value_of (atomic_rmw op dst src)
run (fence order scope) = unit_of (atomic_fence order scope)
run (call_of llty abi f args) = value_of (call llty abi f args)
run (tail_call_of llty abi f args) = unit_of (tail_call llty abi f args)
run (invoke_of llty abi f args then_bb catch_bb) =
    value_of (invoke llty abi f args then_bb catch_bb)
run landing_pad = values_of cleanup_landing_pad
run (resume_with v) = unit_of (resume v)
run (cleanup_return unwind) = unit_of (cleanup_ret unwind)
run catch_pads = value_of catch_switch
run (parameter pointer_bytes index) = value_of (get_param pointer_bytes index)
run (move_to bb) = unit_of (switch_to_block bb)
run (new_block f name) = answered Answer.block (append_block f name)
run (sibling_block name) = answered Answer.block (append_sibling_block name)
run return_void = unit_of ret_void
run (return_value v) = unit_of (ret v)
run (jump bb) = unit_of (br bb)
run (branch cond then_bb else_bb) = unit_of (cond_br cond then_bb else_bb)
run (switch_on v else_bb cases) = unit_of (switch v else_bb cases)
run no_return = unit_of unreachable

-- The value is an array or a vector.
abbrev pub HasElements : Builder → ValueRef → Type 0
HasElements b v = (kind : CTypeKind) × (el : TypeRef) × HasKind b v kind × (element_of kind ≡ ok el)

-- The value has a field of the number, or is no struct.
abbrev pub HasField : Builder → ValueRef → ℕ → Type 0
HasField b v idx = (kind : CTypeKind) × HasKind b v kind × IndexFits kind idx

-- What a call asks for: operands and types of the stores; a float width that C has and a struct
-- name with matching brackets; an array, a vector or a struct with the field, where an item is
-- taken; a function type and a convention whose result has a type, where a function is called.
abbrev pub Valid : Builder → Call → Type 0
Valid b (intern kind) = NameBalanced kind × RefsBelow (length b.types.types) kind × WidthKnown kind
Valid b (constant kind ty) =
    HasType b ty
    × Values.RefsBelow (length b.values.values) kind
    × KindSound (length b.types.types) kind
Valid b (binary_op op lhs rhs) = HasValue b lhs × HasValue b rhs
Valid b (unary op v) = HasValue b v
Valid b (checked op lhs rhs) = HasValue b lhs × HasValue b rhs
Valid b (conversion op v ty) = HasValue b v × HasType b ty
Valid b (int_cast v ty is_signed) = HasValue b v × HasType b ty
Valid b (bit_cast pointer_bits v ty) = HasValue b v × HasType b ty
Valid b (int_compare op lhs rhs) = HasValue b lhs × HasValue b rhs
Valid b (real_compare op lhs rhs) = HasValue b lhs × HasValue b rhs
Valid b (choose cond x y) = HasValue b cond × HasValue b x × HasValue b y
Valid b (load_from ty p) = HasType b ty × HasValue b p
Valid b (volatile_load_from ty p) = HasType b ty × HasValue b p
Valid b (atomic_load_from ty p size) = HasType b ty × HasValue b p
Valid b (store_to v p) = HasValue b v × HasValue b p
Valid b (atomic_store_to v p size) = HasValue b v × HasValue b p
Valid b (address ty p index0 indices) =
    HasType b ty × HasValue b p × All (HasValue b) (index0 ∷ indices)
Valid b (memory op x y z) = HasValue b x × HasValue b y × HasValue b z
Valid b (next_arg list ty) = HasValue b list × HasType b ty
Valid b (element vec idx) = HasValue b vec × HasValue b idx × HasElements b vec
Valid b (splat n v) = HasValue b v
Valid b (field_of agg idx) = HasValue b agg × HasField b agg idx
Valid b (with_field agg v idx) = HasValue b agg × HasValue b v × HasField b agg idx
Valid b (immediate v is_bool scalar) =
    HasValue b v × ((b : Builder) → IsSound b → Done b IsType (scalar b))
Valid b (compare_exchange dst cmp src) = HasValue b dst × HasValue b cmp × HasValue b src
Valid b (read_modify_write op dst src) = HasValue b dst × HasValue b src
Valid b (call_of llty abi f args) =
    AbiSafe abi × HasValue b f × IsCallable b llty f × AreValues b args
Valid b (tail_call_of llty abi f args) =
    AbiSafe (some abi) × HasValue b f × IsCallable b llty f × AreValues b args
Valid b (invoke_of llty abi f args then_bb catch_bb) =
    IsOpen b × AbiSafe abi × HasValue b f × IsCallable b llty f × AreValues b args
Valid b (resume_with v) = HasValue b v
Valid b (new_block f name) = HasValue b f
Valid b (return_value v) = HasValue b v
Valid b (branch cond then_bb else_bb) = HasValue b cond
Valid b (switch_on v else_bb cases) = HasValue b v
Valid b _ = Unit

-- What a call returns is of the stores.
abbrev pub AnswerSound : Builder → Answer → Type 0
AnswerSound b (Answer.value v) = HasValue b v
AnswerSound b (Answer.values v w) = HasValue b v × HasValue b w
AnswerSound b (Answer.a_type ty) = HasType b ty
AnswerSound b _ = Unit
