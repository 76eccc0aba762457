-- ===== src/Safe/Address.antt =====
-- src/builder.rs: address arithmetic and copies of memory on a sound builder.
use rustc_codegen_c.Prelude.{List, [], ◌∷◌, refl, All}
use rustc_codegen_c.CAst.Expr.{CExpr}
use rustc_codegen_c.CAst.Brackets.{LeavesBalanced}
use rustc_codegen_c.Types.Kind.{TypeRef, CTypeKind}
use rustc_codegen_c.Values.Store.{ValueRef}
use rustc_codegen_c.Builder.State.{Builder, Build}
use rustc_codegen_c.Builder.Queries.{type_ptr}
use rustc_codegen_c.Builder.Address.{scaled_sum, gep_rest, gep}
use rustc_codegen_c.Builder.Address as Address
use rustc_codegen_c.Safe.Sound.{IsSound, HasType, HasValue, HasType-Grows, HasValue-Grows}
use rustc_codegen_c.Safe.Rules.{Done, IsValue, IsUnit, with_text, with_type_text}
use rustc_codegen_c.Safe.Emit.{with_intern, new_temp_with_stmt_safe}
use rustc_codegen_c.Safe.Memory.{emit_call_safe}

gep_rest_safe :
    {b : Builder} {ptr_ty : TypeRef} (sum : CExpr) (indices : List ValueRef)
    → IsSound b
    → HasType b ptr_ty
    → LeavesBalanced sum
    → All (HasValue b) indices
    → Done b IsValue (gep_rest ptr_ty sum indices b)
gep_rest_safe sum [] s ht hs hi = new_temp_with_stmt_safe _ s ht (λ st. refl, hs)
gep_rest_safe sum (i ∷ []) s ht hs (hi, _) =
    with_text s _ hi λ x bx. new_temp_with_stmt_safe _ s ht (λ st. refl, (hs, (λ st. refl, bx)))
gep_rest_safe sum (i ∷ j ∷ indices) s ht hs hi = new_temp_with_stmt_safe _ s ht (λ st. refl, hs)

-- On a sound builder, address arithmetic with at least one index returns a value of the store and
-- leaves the builder sound.
pub gep_safe :
    {b : Builder} {ty : TypeRef} {p : ValueRef} (index0 : ValueRef) (indices : List ValueRef)
    → IsSound b
    → HasType b ty
    → HasValue b p
    → All (HasValue b) (index0 ∷ indices)
    → Done b IsValue (gep ty p (index0 ∷ indices) b)
unfolding gep type_ptr
gep_safe index0 indices s ht hp (h0, hi) = with_intern CTypeKind.ptr s tt tt tt λ s1 g1 hptr.
    with_text s1 _ (HasValue-Grows g1 hp) λ x bx. with_text s1 _ (HasValue-Grows g1 h0) λ i bi.
      with_type_text s1 _ (HasType-Grows g1 ht) λ t bt.
        gep_rest_safe (scaled_sum x t i) indices s1 hptr
          ((λ st. refl, bx), ((λ st. refl, bi), (λ st. refl, bt))) hi

-- The copies of memory.
pub data MemoryOp : Type 0 where
  memcpy memmove memset : MemoryOp

abbrev pub on_memory : MemoryOp → ValueRef → ValueRef → ValueRef → Build Unit
on_memory MemoryOp.memcpy = Address.memcpy
on_memory MemoryOp.memmove = Address.memmove
on_memory MemoryOp.memset = Address.memset

-- On a sound builder, a copy of memory between values of the store returns and leaves the builder
-- sound.
pub on_memory_safe :
    {b : Builder} (op : MemoryOp) {x y z : ValueRef}
    → IsSound b
    → HasValue b x
    → HasValue b y
    → HasValue b z
    → Done b IsUnit (on_memory op x y z b)
unfolding Address.memcpy Address.memmove Address.memset
on_memory_safe MemoryOp.memcpy s hx hy hz = with_text s _ hx λ x bx.
    with_text s _ hy λ y by. with_text s _ hz λ z bz. emit_call_safe _ _ _ _ s (λ st. refl) bx by bz
on_memory_safe MemoryOp.memmove s hx hy hz = with_text s _ hx λ x bx.
    with_text s _ hy λ y by. with_text s _ hz λ z bz. emit_call_safe _ _ _ _ s (λ st. refl) bx by bz
on_memory_safe MemoryOp.memset s hx hy hz = with_text s _ hx λ x bx.
    with_text s _ hy λ y by. with_text s _ hz λ z bz. emit_call_safe _ _ _ _ s (λ st. refl) bx by bz
