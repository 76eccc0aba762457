-- ===== src/Safe/Stable.antt =====
-- src/builder.rs: the conditions of a call after other calls.
use rustc_codegen_c.Prelude.{ℕ, ◌≡◌, ◌∷◌, Option, length, get_elem?_total, subst}
use rustc_codegen_c.Prelude.Outcome.{Outcome, ok, expect}
use rustc_codegen_c.Prelude.Outcome as Outcome
use rustc_codegen_c.Types.Kind.{TypeRef, CTypeKind}
use rustc_codegen_c.Types.Total.{RefsBelow}
use rustc_codegen_c.Values.Store.{ValueRef, CValueKind, CValueInfo}
use rustc_codegen_c.Values.Store as Store
use rustc_codegen_c.Values.Total as Values
use rustc_codegen_c.Builder.State.{Builder}
use rustc_codegen_c.Safe.Values.{KindSound}
use rustc_codegen_c.Safe.Sound.{Grows, HasValue, HasType-Grows, HasValue-Grows}
use rustc_codegen_c.Safe.Aggregate.{HasKind}
use rustc_codegen_c.Safe.Args.{get-Grows, values_grow, types_grow}
use rustc_codegen_c.Safe.Unwind.{IsCallable-Grows}
use rustc_codegen_c.Safe.Calls.{Call, Valid, HasField}

abbrev TypeAt : TypeRef → Option CValueInfo → Type 0
TypeAt ty o = Outcome.◌>>=◌ (expect o) (λ (info : CValueInfo). ok info.ty) ≡ ok ty

kind-Grows :
    {b b' : Builder} {v : ValueRef} {kind : CTypeKind}
    → Grows b b'
    → HasValue b v
    → HasKind b v kind
    → HasKind b' v kind
unfolding Store.get_type Store.get
kind-Grows {b = b} {v = v} g h k =
    let (info, i) = get_elem?_total b.values.values v h in
    record {
      ty = k.ty;
      typed = rw (g.values v info i) (subst (TypeAt k.ty) i k.typed);
      known = get-Grows k.ty g k.known;
    }

type_refs_grow :
    {b b' : Builder} (kind : CTypeKind)
    → Grows b b'
    → RefsBelow (length b.types.types) kind
    → RefsBelow (length b'.types.types) kind
type_refs_grow (CTypeKind.array element len) g h = HasType-Grows g h
type_refs_grow (CTypeKind.struct fields packed name) g h = types_grow fields g h
type_refs_grow (CTypeKind.function ret args variadic) g (hr, ha) =
    (HasType-Grows g hr, types_grow args g ha)
type_refs_grow (CTypeKind.vector element len) g h = HasType-Grows g h
type_refs_grow _ g h = tt

value_refs_grow :
    {b b' : Builder} (kind : CValueKind)
    → Grows b b'
    → Values.RefsBelow (length b.values.values) kind
    → Values.RefsBelow (length b'.values.values) kind
value_refs_grow (CValueKind.struct_const fields) g h = values_grow fields g h
value_refs_grow (CValueKind.vector_const elements type_str) g h = values_grow elements g h
value_refs_grow (CValueKind.ptr_offset base offset) g h = HasValue-Grows g h
value_refs_grow _ g h = tt

KindSound-Grows :
    {b b' : Builder} (kind : CValueKind)
    → Grows b b'
    → KindSound (length b.types.types) kind
    → KindSound (length b'.types.types) kind
KindSound-Grows (CValueKind.function name sig) g (h, hs) = (h, HasType-Grows g hs)
KindSound-Grows (CValueKind.float_const (Store.finite s)) g h = h
KindSound-Grows (CValueKind.global name) g h = h
KindSound-Grows (CValueKind.vector_const elements type_str) g h = h
KindSound-Grows (CValueKind.inline_expr expr) g h = h
KindSound-Grows _ g h = tt

field-Grows :
    {b b' : Builder} (v : ValueRef) (idx : ℕ)
    → Grows b b'
    → HasValue b v
    → HasField b v idx
    → HasField b' v idx
field-Grows v idx g h (kind, k, fits) = (kind, kind-Grows g h k, fits)

-- A valid call stays valid when other calls are made before it.
pub Valid-Grows : {b b' : Builder} (c : Call) → Grows b b' → Valid b c → Valid b' c
Valid-Grows (Call.intern kind) g (hn, hr, hw) = (hn, type_refs_grow kind g hr, hw)
Valid-Grows (Call.constant kind ty) g (ht, hr, hk) =
    (HasType-Grows g ht, value_refs_grow kind g hr, KindSound-Grows kind g hk)
Valid-Grows (Call.binary_op op lhs rhs) g (hl, hr) = (HasValue-Grows g hl, HasValue-Grows g hr)
Valid-Grows (Call.unary op v) g h = HasValue-Grows g h
Valid-Grows (Call.checked op lhs rhs) g (hl, hr) = (HasValue-Grows g hl, HasValue-Grows g hr)
Valid-Grows (Call.conversion op v ty) g (hv, ht) = (HasValue-Grows g hv, HasType-Grows g ht)
Valid-Grows (Call.int_cast v ty is_signed) g (hv, ht) = (HasValue-Grows g hv, HasType-Grows g ht)
Valid-Grows (Call.bit_cast pointer_bits v ty) g (hv, ht) = (HasValue-Grows g hv, HasType-Grows g ht)
Valid-Grows (Call.int_compare op lhs rhs) g (hl, hr) = (HasValue-Grows g hl, HasValue-Grows g hr)
Valid-Grows (Call.real_compare op lhs rhs) g (hl, hr) = (HasValue-Grows g hl, HasValue-Grows g hr)
Valid-Grows (Call.choose cond x y) g (hc, hx, hy) =
    (HasValue-Grows g hc, HasValue-Grows g hx, HasValue-Grows g hy)
Valid-Grows (Call.load_from ty p) g (ht, hp) = (HasType-Grows g ht, HasValue-Grows g hp)
Valid-Grows (Call.volatile_load_from ty p) g (ht, hp) = (HasType-Grows g ht, HasValue-Grows g hp)
Valid-Grows (Call.atomic_load_from ty p size) g (ht, hp) = (HasType-Grows g ht, HasValue-Grows g hp)
Valid-Grows (Call.store_to v p) g (hv, hp) = (HasValue-Grows g hv, HasValue-Grows g hp)
Valid-Grows (Call.atomic_store_to v p size) g (hv, hp) = (HasValue-Grows g hv, HasValue-Grows g hp)
Valid-Grows (Call.address ty p index0 indices) g (ht, hp, hi) =
    (HasType-Grows g ht, HasValue-Grows g hp, values_grow (index0 ∷ indices) g hi)
Valid-Grows (Call.memory op x y z) g (hx, hy, hz) =
    (HasValue-Grows g hx, HasValue-Grows g hy, HasValue-Grows g hz)
Valid-Grows (Call.next_arg list ty) g (hl, ht) = (HasValue-Grows g hl, HasType-Grows g ht)
Valid-Grows (Call.element vec idx) g (hv, hi, (kind, el, k, e)) =
    (HasValue-Grows g hv, HasValue-Grows g hi, (kind, el, kind-Grows g hv k, e))
Valid-Grows (Call.splat n v) g h = HasValue-Grows g h
Valid-Grows (Call.field_of agg idx) g (hv, f) = (HasValue-Grows g hv, field-Grows agg idx g hv f)
Valid-Grows (Call.with_field agg v idx) g (ha, hv, f) =
    (HasValue-Grows g ha, HasValue-Grows g hv, field-Grows agg idx g ha f)
Valid-Grows (Call.immediate v is_bool scalar) g (hv, found) = (HasValue-Grows g hv, found)
Valid-Grows (Call.compare_exchange dst cmp src) g (hd, hc, hs) =
    (HasValue-Grows g hd, HasValue-Grows g hc, HasValue-Grows g hs)
Valid-Grows (Call.read_modify_write op dst src) g (hd, hs) =
    (HasValue-Grows g hd, HasValue-Grows g hs)
Valid-Grows (Call.call_of llty abi f args) g (habi, hf, c, ha) =
    (habi, HasValue-Grows g hf, IsCallable-Grows g hf c, values_grow args g ha)
Valid-Grows (Call.tail_call_of llty abi f args) g (habi, hf, c, ha) =
    (habi, HasValue-Grows g hf, IsCallable-Grows g hf c, values_grow args g ha)
Valid-Grows (Call.invoke_of llty abi f args then_bb catch_bb) g (o, habi, hf, c, ha) =
    (g.opened o, habi, HasValue-Grows g hf, IsCallable-Grows g hf c, values_grow args g ha)
Valid-Grows (Call.resume_with v) g h = HasValue-Grows g h
Valid-Grows (Call.new_block f name) g h = HasValue-Grows g h
Valid-Grows (Call.return_value v) g h = HasValue-Grows g h
Valid-Grows (Call.branch cond then_bb else_bb) g h = HasValue-Grows g h
Valid-Grows (Call.switch_on v else_bb cases) g h = HasValue-Grows g h
Valid-Grows _ g h = tt
