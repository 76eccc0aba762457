-- ===== src/Safe/Memory.antt =====
-- src/builder.rs: stack slots and loads on a sound builder.
use rustc_codegen_c.Prelude.{ℕ, true, [], ◌∷◌, ◌∙◌, both_branches, refl, ◌==◌, ltb}
use rustc_codegen_c.Prelude.Text.{Text, str, fmt}
use rustc_codegen_c.Prelude.Decimal.{show}
use rustc_codegen_c.Prelude.Brackets.{IsBalanced, scan_over, show-IsBalanced}
use rustc_codegen_c.CAst.Expr.{CExpr}
use rustc_codegen_c.CAst.Brackets.{LeavesBalanced}
use rustc_codegen_c.CAst.Build.{var, deref}
use rustc_codegen_c.CAst.Stmt.{CStmt}
use rustc_codegen_c.Types.Kind.{TypeRef, CTypeKind}
use rustc_codegen_c.Values.Store.{ValueRef}
use rustc_codegen_c.Builder.State.{Builder, Build}
use rustc_codegen_c.Builder.Queries.{type_ptr}
use rustc_codegen_c.Builder.Memory.{
  alloca, storage_decl, pointer_decl, emit_call, load_array, load_wide, load_plain, load_kind, load,
  is_i128, volatile_copy, volatile_wide, volatile_load, atomic_load_expr, atomic_load,
}
use rustc_codegen_c.Safe.Sound.{IsSound, HasType, HasValue, HasType-Grows, HasValue-Grows}
use rustc_codegen_c.Safe.Rules.{
  Done, IsValue, IsUnit, here, after_run, with_kind_of, with_text, with_type_text, with_decl_text,
}
use rustc_codegen_c.Safe.Emit.{
  emit_safe, with_intern, with_new_temp, with_decl, new_temp_with_stmt_safe,
}

-- `t name;` has matching brackets.
pub declare_text-IsBalanced :
    (t name : Text)
    → IsBalanced t
    → IsBalanced name
    → IsBalanced (fmt (t ∷ str " " ∷ name ∷ str ";" ∷ []))
declare_text-IsBalanced t name ht hn = λ st. scan_over t _ st ht ∙ scan_over name _ st hn

storage-IsBalanced :
    (align size : ℕ) (name : Text)
    → IsBalanced name
    → IsBalanced (storage_decl align size (fmt (name ∷ str "_storage" ∷ [])))
storage-IsBalanced align size name h = λ st.
    scan_over (show align) _ _ (show-IsBalanced align)
    ∙ scan_over (fmt (name ∷ str "_storage" ∷ [])) _ _ (λ st. scan_over name _ st h)
    ∙ scan_over (show size) _ _ (show-IsBalanced size)

pointer-IsBalanced :
    (name : Text)
    → IsBalanced name
    → IsBalanced (pointer_decl name (fmt (name ∷ str "_storage" ∷ [])))
pointer-IsBalanced name h = λ st.
    scan_over name _ st h
    ∙ scan_over (fmt (name ∷ str "_storage" ∷ [])) _ _ (λ st. scan_over name _ st h)

-- On a sound builder, a new stack slot returns a pointer of the store and leaves the builder sound.
pub alloca_safe : {b : Builder} (size align : ℕ) → IsSound b → Done b IsValue (alloca size align b)
unfolding alloca type_ptr
alloca_safe size align s = with_intern (CTypeKind.int 8 true) s tt tt tt λ s1 g1 h1.
    with_intern (CTypeKind.array _ size) s1 tt h1 tt λ s2 g2 h2.
      with_intern CTypeKind.ptr s2 tt tt tt λ s3 g3 h3. with_new_temp s3 h3 λ s4 g4 hv.
        with_text s4 _ hv λ name hn.
          with_decl (storage_decl align size (fmt (name ∷ str "_storage" ∷ []))) s4
            (storage-IsBalanced align size name hn)
            λ s5 g5.
              with_decl (pointer_decl name (fmt (name ∷ str "_storage" ∷ []))) s5
                (pointer-IsBalanced name hn) λ s6 g6. here s6 hv

pub emit_call_safe :
    {b : Builder} (f : Text) (x y z : CExpr)
    → IsSound b
    → IsBalanced f
    → LeavesBalanced x
    → LeavesBalanced y
    → LeavesBalanced z
    → Done b IsUnit (emit_call f x y z b)
emit_call_safe f x y z s hf hx hy hz = emit_safe _ s (hf, (hx, (hy, (hz, tt))))

load_array_safe :
    {b : Builder} {ty : TypeRef} (p : Text)
    → IsSound b
    → HasType b ty
    → IsBalanced p
    → Done b IsValue (load_array ty p b)
load_array_safe p s ht hp = with_new_temp s ht λ s1 g1 hv. with_text s1 _ hv λ name hn.
    with_decl_text s1 name _ (HasType-Grows g1 ht) hn λ d hd.
      with_decl (fmt (d ∷ str ";" ∷ [])) s1 (λ st. scan_over d _ st hd)
        λ s2 g2.
          after_run _ (emit_call_safe (str "memcpy") _ _ _ s2 (λ st. refl) hn hp hn)
            λ _ b3 s3 g3 _. here s3 (HasValue-Grows g3 hv)

load_wide_safe :
    {b : Builder} {ty : TypeRef} (p : Text)
    → IsSound b
    → HasType b ty
    → IsBalanced p
    → Done b IsValue (load_wide ty p b)
load_wide_safe p s ht hp = with_new_temp s ht λ s1 g1 hv. with_text s1 _ hv λ name hn.
    with_type_text s1 _ (HasType-Grows g1 ht) λ t bt.
      with_decl (fmt (t ∷ str " " ∷ name ∷ str ";" ∷ [])) s1 (declare_text-IsBalanced t name bt hn)
        λ s2 g2.
          after_run _ (emit_call_safe (str "memcpy") _ _ _ s2 (λ st. refl) hn hp hn)
            λ _ b3 s3 g3 _. here s3 (HasValue-Grows g3 hv)

load_plain_safe :
    {b : Builder} {ty : TypeRef} (p : Text)
    → IsSound b
    → HasType b ty
    → IsBalanced p
    → Done b IsValue (load_plain ty p b)
load_plain_safe p s ht hp = with_type_text s _ ht λ t bt.
    new_temp_with_stmt_safe (deref (fmt (t ∷ str " *" ∷ [])) (var p)) s ht
      (λ st. scan_over t _ st bt, hp)

load_kind_safe :
    {b : Builder} {ty : TypeRef} (p : Text) (kind : CTypeKind)
    → IsSound b
    → HasType b ty
    → IsBalanced p
    → Done b IsValue (load_kind ty p kind b)
load_kind_safe p (CTypeKind.array element len) s ht hp = load_array_safe p s ht hp
load_kind_safe p (CTypeKind.function ret args variadic) s ht hp =
    with_decl_text s (str "*") _ ht (λ st. refl) λ d hd. new_temp_with_stmt_safe _ s ht (hd, hp)
load_kind_safe {b = b} p (CTypeKind.int bits signed) s ht hp =
    both_branches (λ (m : Build ValueRef). Done b IsValue (m b)) (bits == 128)
      (load_wide_safe p s ht hp) (load_plain_safe p s ht hp)
load_kind_safe p _ s ht hp = load_plain_safe p s ht hp

-- On a sound builder, a load of a type of the store from a value of the store returns a value of
-- the store and leaves the builder sound.
pub load_safe :
    {b : Builder} {ty : TypeRef} {p : ValueRef}
    → IsSound b
    → HasType b ty
    → HasValue b p
    → Done b IsValue (load ty p b)
unfolding load
load_safe s ht hp =
    with_text s _ hp λ p bp. with_kind_of s _ ht λ kind e _. load_kind_safe p kind s ht bp

copy-IsBalanced :
    (p name : Text) → IsBalanced p → IsBalanced name → IsBalanced (volatile_copy p name)
copy-IsBalanced p name hp hn = λ st. scan_over p _ _ hp ∙ scan_over name _ _ hn

volatile_wide_safe :
    {b : Builder} {ty : TypeRef} (p t : Text)
    → IsSound b
    → HasType b ty
    → IsBalanced p
    → IsBalanced t
    → Done b IsValue (volatile_wide ty p t b)
volatile_wide_safe p t s ht hp bt = with_new_temp s ht λ s1 g1 hv. with_text s1 _ hv λ name hn.
    with_decl (fmt (t ∷ str " " ∷ name ∷ str ";" ∷ [])) s1 (declare_text-IsBalanced t name bt hn)
      λ s2 g2.
        after_run _ (emit_safe (CStmt.raw (volatile_copy p name)) s2 (copy-IsBalanced p name hp hn))
          λ _ b3 s3 g3 _. here s3 (HasValue-Grows g3 hv)

pub volatile_load_safe :
    {b : Builder} {ty : TypeRef} {p : ValueRef}
    → IsSound b
    → HasType b ty
    → HasValue b p
    → Done b IsValue (volatile_load ty p b)
unfolding volatile_load
volatile_load_safe {b = b} s ht hp = with_text s _ hp λ p bp. with_type_text s _ ht λ t bt.
    with_kind_of s _ ht λ kind e _.
      both_branches (λ (m : Build ValueRef). Done b IsValue (m b)) (is_i128 kind)
        (volatile_wide_safe p t s ht bp bt)
        (new_temp_with_stmt_safe (deref (fmt (str "volatile " ∷ t ∷ str " *" ∷ [])) (var p)) s ht
          (λ st. scan_over t _ st bt, bp))

-- `_Atomic(t) *` has matching brackets.
pub atomic_type-IsBalanced :
    (t : Text) → IsBalanced t → IsBalanced (fmt (str "_Atomic(" ∷ t ∷ str ") *" ∷ []))
atomic_type-IsBalanced t h = λ st. scan_over t _ _ h

-- `t *` has matching brackets.
pub pointer_type-IsBalanced : (t : Text) → IsBalanced t → IsBalanced (fmt (t ∷ str " *" ∷ []))
pointer_type-IsBalanced t h = λ st. scan_over t _ st h

atomic_load_expr-LeavesBalanced :
    (size : ℕ) (t p : Text)
    → IsBalanced t
    → IsBalanced p
    → LeavesBalanced (atomic_load_expr size t p)
atomic_load_expr-LeavesBalanced size t p ht hp =
    both_branches LeavesBalanced (ltb 8 size)
      (λ st. refl, ((pointer_type-IsBalanced t ht, hp), (λ st. refl, (λ st. refl, tt))))
      (λ st. refl, ((atomic_type-IsBalanced t ht, hp), tt))

pub atomic_load_safe :
    {b : Builder} {ty : TypeRef} {p : ValueRef} (size : ℕ)
    → IsSound b
    → HasType b ty
    → HasValue b p
    → Done b IsValue (atomic_load ty p size b)
unfolding atomic_load
atomic_load_safe size s ht hp = with_text s _ hp λ p bp.
    with_type_text s _ ht
      λ t bt. new_temp_with_stmt_safe _ s ht (atomic_load_expr-LeavesBalanced size t p bt bp)
