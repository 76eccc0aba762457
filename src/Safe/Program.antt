-- ===== src/Safe/Program.antt =====
-- src/builder.rs: every call of a builder, on a sound builder.
use rustc_codegen_c.Prelude.Outcome.{Outcome, ok}
use rustc_codegen_c.Prelude.Outcome as Outcome
use rustc_codegen_c.Values.Store.{ValueRef}
use rustc_codegen_c.Builder.State.{Builder}
use rustc_codegen_c.Safe.Sound.{IsSound}
use rustc_codegen_c.Safe.Rules.{Done, IsValue, IsUnit, here, after_run}
use rustc_codegen_c.Safe.Emit.{intern_safe}
use rustc_codegen_c.Safe.Arith.{binary_safe, unary_safe}
use rustc_codegen_c.Safe.Memory.{alloca_safe, load_safe, volatile_load_safe, atomic_load_safe}
use rustc_codegen_c.Safe.Store.{store_safe, atomic_store_safe}
use rustc_codegen_c.Safe.Address.{on_memory_safe, gep_safe}
use rustc_codegen_c.Safe.Convert.{convert_safe, intcast_safe}
use rustc_codegen_c.Safe.Bitcast.{bitcast_safe}
use rustc_codegen_c.Safe.Compare.{icmp_safe, fcmp_safe, select_safe, intern_value_safe}
use rustc_codegen_c.Safe.Aggregate.{
  va_arg_safe, extract_element_safe, vector_splat_safe, extract_value_safe, insert_value_safe,
}
use rustc_codegen_c.Safe.Scalars.{to_immediate_scalar_safe}
use rustc_codegen_c.Safe.Atomics.{IsPair, atomic_fence_safe, atomic_cmpxchg_safe, atomic_rmw_safe}
use rustc_codegen_c.Safe.Checked.{checked_binop_safe}
use rustc_codegen_c.Safe.Flow.{
  switch_to_block_safe, ret_void_safe, ret_safe, br_safe, cond_br_safe, switch_safe,
  unreachable_safe,
}
use rustc_codegen_c.Safe.Blocks.{append_block_safe, append_sibling_block_safe}
use rustc_codegen_c.Safe.Call.{call_safe}
use rustc_codegen_c.Safe.Unwind.{
  tail_call_safe, invoke_safe, cleanup_landing_pad_safe, resume_safe, cleanup_ret_safe,
  catch_switch_safe,
}
use rustc_codegen_c.Safe.Params.{get_param_safe}
use rustc_codegen_c.Safe.Calls.{Answer, AnswerSound, Call, Valid, run}

answered_safe :
    {A : Type 0} {b : Builder} (f : A → Answer) {P : Builder → A → Type 0}
    {r : Outcome (A × Builder)}
    → ((b : Builder) (a : A) → P b a → AnswerSound b (f a))
    → Done b P r
    → Done b AnswerSound (Outcome.◌>>=◌ r λ p. ok (f p.0, p.1))
answered_safe f move d = after_run _ d λ a b' s g h. here {a = f a} s (move b' a h)

value_safe :
    {b : Builder} {r : Outcome (ValueRef × Builder)}
    → Done b IsValue r
    → Done b AnswerSound (Outcome.◌>>=◌ r λ p. ok (Answer.value p.0, p.1))
value_safe d = answered_safe Answer.value (λ b' a h. h) d

values_safe :
    {b : Builder} {r : Outcome ((ValueRef × ValueRef) × Builder)}
    → Done b IsPair r
    → Done b AnswerSound (Outcome.◌>>=◌ r λ p. ok (Answer.values p.0.0 p.0.1, p.1))
values_safe d = answered_safe (λ p. Answer.values p.0 p.1) (λ b' a h. h) d

unit_safe :
    {b : Builder} {r : Outcome (Unit {0} × Builder)}
    → Done b IsUnit r
    → Done b AnswerSound (Outcome.◌>>=◌ r λ p. ok (Answer.nothing, p.1))
unit_safe d = answered_safe (λ _. Answer.nothing) (λ b' a h. tt) d

-- A valid call on a sound builder returns: no index is out of bounds, nothing is unwrapped that is
-- not there, and no recursion goes on. The values and types that it returns are of the stores, the
-- builder stays sound, and what was in the stores stays where it is.
pub run_safe : (c : Call) (b : Builder) → IsSound b → Valid b c → Done b AnswerSound (run c b)
run_safe (Call.intern kind) b s (hn, hr, hw) =
    answered_safe Answer.a_type (λ b' a h. h) (intern_safe kind s hn hr hw)
run_safe (Call.constant kind ty) b s (ht, hr, hk) = value_safe (intern_value_safe kind s ht hr hk)
run_safe (Call.binary_op op lhs rhs) b s (hl, hr) = value_safe (binary_safe op s hl hr)
run_safe (Call.unary op v) b s h = value_safe (unary_safe op s h)
run_safe (Call.checked op lhs rhs) b s (hl, hr) = values_safe (checked_binop_safe op s hl hr)
run_safe (Call.conversion op v ty) b s (hv, ht) = value_safe (convert_safe op s hv ht)
run_safe (Call.int_cast v ty is_signed) b s (hv, ht) = value_safe (intcast_safe is_signed s hv ht)
run_safe (Call.bit_cast pointer_bits v ty) b s (hv, ht) =
    value_safe (bitcast_safe pointer_bits s hv ht)
run_safe (Call.int_compare op lhs rhs) b s (hl, hr) = value_safe (icmp_safe op s hl hr)
run_safe (Call.real_compare op lhs rhs) b s (hl, hr) = value_safe (fcmp_safe op s hl hr)
run_safe (Call.choose cond x y) b s (hc, hx, hy) = value_safe (select_safe s hc hx hy)
run_safe (Call.slot size align) b s h = value_safe (alloca_safe size align s)
run_safe (Call.load_from ty p) b s (ht, hp) = value_safe (load_safe s ht hp)
run_safe (Call.volatile_load_from ty p) b s (ht, hp) = value_safe (volatile_load_safe s ht hp)
run_safe (Call.atomic_load_from ty p size) b s (ht, hp) = value_safe (atomic_load_safe size s ht hp)
run_safe (Call.store_to v p) b s (hv, hp) = value_safe (store_safe s hv hp)
run_safe (Call.atomic_store_to v p size) b s (hv, hp) = unit_safe (atomic_store_safe size s hv hp)
run_safe (Call.address ty p index0 indices) b s (ht, hp, hi) =
    value_safe (gep_safe index0 indices s ht hp hi)
run_safe (Call.memory op x y z) b s (hx, hy, hz) = unit_safe (on_memory_safe op s hx hy hz)
run_safe (Call.next_arg list ty) b s (hl, ht) = value_safe (va_arg_safe s hl ht)
run_safe (Call.element vec idx) b s (hv, hi, (kind, el, hk, he)) =
    value_safe (extract_element_safe s hv hi hk he)
run_safe (Call.splat n v) b s h = value_safe (vector_splat_safe n s h)
run_safe (Call.field_of agg idx) b s (hv, (kind, hk, fits)) =
    value_safe (extract_value_safe idx s hv hk fits)
run_safe (Call.with_field agg v idx) b s (hv, he, (kind, hk, fits)) =
    value_safe (insert_value_safe idx s hv he hk fits)
run_safe (Call.immediate v is_bool scalar) b s (hv, found) =
    value_safe (to_immediate_scalar_safe is_bool scalar s hv found)
run_safe (Call.compare_exchange dst cmp src) b s (hd, hc, hs) =
    values_safe (atomic_cmpxchg_safe s hd hc hs)
run_safe (Call.read_modify_write op dst src) b s (hd, hs) = value_safe (atomic_rmw_safe op s hd hs)
run_safe (Call.fence order scope) b s h = unit_safe (atomic_fence_safe order scope s)
run_safe (Call.call_of llty abi f args) b s (habi, hf, hc, ha) =
    value_safe (call_safe abi args s habi hf hc ha)
run_safe (Call.tail_call_of llty abi f args) b s (habi, hf, hc, ha) =
    unit_safe (tail_call_safe abi args s habi hf hc ha)
run_safe (Call.invoke_of llty abi f args then_bb catch_bb) b s (ho, habi, hf, hc, ha) =
    value_safe (invoke_safe abi args then_bb catch_bb s ho habi hf hc ha)
run_safe Call.landing_pad b s h = values_safe (cleanup_landing_pad_safe s)
run_safe (Call.resume_with v) b s h = unit_safe (resume_safe s h)
run_safe (Call.cleanup_return unwind) b s h = unit_safe (cleanup_ret_safe unwind s)
run_safe Call.catch_pads b s h = value_safe (catch_switch_safe s)
run_safe (Call.parameter pointer_bytes index) b s h =
    value_safe (get_param_safe pointer_bytes index s)
run_safe (Call.move_to bb) b s h = unit_safe (switch_to_block_safe bb s)
run_safe (Call.new_block f name) b s h =
    answered_safe Answer.block (λ b' a h. tt) (append_block_safe name s h)
run_safe (Call.sibling_block name) b s h =
    answered_safe Answer.block (λ b' a h. tt) (append_sibling_block_safe name s)
run_safe Call.return_void b s h = unit_safe (ret_void_safe s)
run_safe (Call.return_value v) b s h = unit_safe (ret_safe s h)
run_safe (Call.jump bb) b s h = unit_safe (br_safe bb s)
run_safe (Call.branch cond then_bb else_bb) b s h = unit_safe (cond_br_safe then_bb else_bb s h)
run_safe (Call.switch_on v else_bb cases) b s h = unit_safe (switch_safe else_bb cases s h)
run_safe Call.no_return b s h = unit_safe (unreachable_safe s)
