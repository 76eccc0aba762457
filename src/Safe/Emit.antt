-- ===== src/Safe/Emit.antt =====
-- src/builder.rs: the shapes that the operations share, on a sound builder.
use rustc_codegen_c.Prelude.{ℕ, length, true, [], ◌∷◌, Option, none, some, ◌==◌, both_branches}
use rustc_codegen_c.Prelude.Text.{Text, str, fmt}
use rustc_codegen_c.Prelude.Brackets.{IsBalanced, scan_over}
use rustc_codegen_c.Prelude.Outcome.{Outcome}
use rustc_codegen_c.CAst.Op.{CBinOp}
use rustc_codegen_c.CAst.Expr.{CExpr}
use rustc_codegen_c.CAst.Build.{var}
use rustc_codegen_c.CAst.Brackets.{LeavesBalanced}
use rustc_codegen_c.CAst.Stmt.{CStmt}
use rustc_codegen_c.CAst.StmtBrackets.{StmtBalanced}
use rustc_codegen_c.Types.Kind.{TypeRef, CTypeKind}
use rustc_codegen_c.Types.Store.{intern}
use rustc_codegen_c.Types.Brackets.{NameBalanced}
use rustc_codegen_c.Types.Total.{RefsBelow, WidthKnown}
use rustc_codegen_c.Values.Store.{ValueRef, next_temp}
use rustc_codegen_c.Builder.State.{Builder, Build, intern_type}
use rustc_codegen_c.Builder.Emit.{
  emit, new_temp_with_stmt, binop, cast, needs_cast, coerce_kinds, coerce_ptr_int, unsigned_kind,
  intern_option, unsigned_type, unsigned_binop_at, unsigned_binop,
}
use rustc_codegen_c.Safe.Sound.{IsSound, Grows, HasType, HasValue, HasType-Grows, HasValue-Grows}
use rustc_codegen_c.Safe.Changes.{
  with_type, with_temp, intern-IsSound, intern-Grows, intern_inside, temp-IsSound, temp-Grows,
  temp_inside, change-Grows,
}
use rustc_codegen_c.Safe.Rules.{
  Done, IsValue, IsType, IsUnit, here, grow, after_run, with_type_of, with_kind_of, with_text,
  declares, with_type_text, with_decl_text, emits-IsSound, declares-IsSound,
}

pub emit_safe :
    {b : Builder} (stmt : CStmt) → IsSound b → StmtBalanced stmt → Done b IsUnit (emit stmt b)
unfolding emit
emit_safe stmt s h = grow (change-Grows _ _) (here (emits-IsSound stmt s h) tt)

-- The steps that change the builder, before the rest of a call.
module _ {A : Type 0} {Q : Builder → A → Type 0} {b : Builder} {run : Outcome (A × Builder)} where
  pub with_intern :
      (kind : CTypeKind)
      → IsSound b
      → NameBalanced kind
      → RefsBelow (length b.types.types) kind
      → WidthKnown kind
      → (IsSound (with_type b kind)
          → Grows b (with_type b kind)
          → HasType (with_type b kind) (intern b.types kind).1
          → Done (with_type b kind) Q run)
      → Done b Q run
  with_intern kind s name below known k =
      let g = intern-Grows b kind in
      grow g (k (intern-IsSound b kind s name below known) g (intern_inside b.types kind s.index))

  pub with_new_temp :
      {ty : TypeRef}
      → IsSound b
      → HasType b ty
      → (IsSound (with_temp b ty)
          → Grows b (with_temp b ty)
          → HasValue (with_temp b ty) (next_temp b.values ty).1
          → Done (with_temp b ty) Q run)
      → Done b Q run
  with_new_temp {ty = ty} s h k =
      grow (temp-Grows b ty) (k (temp-IsSound b ty s h) (temp-Grows b ty) (temp_inside b.values ty))

  pub with_decl :
      (decl : Text)
      → IsSound b
      → IsBalanced decl
      → (IsSound (declares b decl) → Grows b (declares b decl) → Done (declares b decl) Q run)
      → Done b Q run
  with_decl decl s h k = grow (change-Grows b _) (k (declares-IsSound decl s h) (change-Grows b _))

pub intern_safe :
    {b : Builder} (kind : CTypeKind)
    → IsSound b
    → NameBalanced kind
    → RefsBelow (length b.types.types) kind
    → WidthKnown kind
    → Done b IsType (intern_type kind b)
intern_safe kind s name below known = with_intern kind s name below known λ s' g ht. here s' ht

-- On a sound builder, keeping an expression whose texts have matching brackets in a temporary of a
-- type of the store returns a value of the store.
pub new_temp_with_stmt_safe :
    {b : Builder} {ty : TypeRef} (expr : CExpr)
    → IsSound b
    → HasType b ty
    → LeavesBalanced expr
    → Done b IsValue (new_temp_with_stmt ty expr b)
unfolding new_temp_with_stmt
new_temp_with_stmt_safe expr s h he = with_new_temp s h λ s1 g1 hv. with_text s1 _ hv λ name hn.
    with_decl_text s1 name _ (HasType-Grows g1 h) hn λ d hd.
      with_decl (fmt (d ∷ str ";" ∷ [])) s1 (λ st. scan_over d _ st hd)
        λ s2 g2.
          after_run _ (emit_safe (CStmt.assign (var name) expr) s2 (hn, he))
            λ _ b3 s3 g3 _. here s3 (HasValue-Grows g3 hv)

pub binop_safe :
    {b : Builder} (op : CBinOp) {lhs rhs : ValueRef}
    → IsSound b
    → HasValue b lhs
    → HasValue b rhs
    → Done b IsValue (binop op lhs rhs b)
unfolding binop
binop_safe op s hl hr = with_type_of s _ hl λ ty ht.
    with_text s _ hl λ l bl. with_text s _ hr λ r br. new_temp_with_stmt_safe _ s ht (bl, br)

pub cast_safe :
    {b : Builder} {val : ValueRef} {ty : TypeRef}
    → IsSound b
    → HasValue b val
    → HasType b ty
    → Done b IsValue (cast val ty b)
unfolding cast
cast_safe s hv ht =
    with_text s _ hv λ v bv. with_type_text s _ ht λ t bt. new_temp_with_stmt_safe _ s ht (bt, bv)

coerce_kinds_safe :
    {b : Builder} {val : ValueRef} {src_ty dest_ty : TypeRef}
    → IsSound b
    → HasValue b val
    → HasType b src_ty
    → HasType b dest_ty
    → Done b IsValue (coerce_kinds val src_ty dest_ty b)
coerce_kinds_safe {b = b} {val = val} {dest_ty = dest_ty} s hv hs hd =
    with_kind_of s _ hs λ src e _. with_kind_of s _ hd λ dst e' _.
      both_branches (λ (m : Build ValueRef). Done b IsValue (m b)) (needs_cast src dst)
        (cast_safe s hv hd) (here s hv)

pub coerce_ptr_int_safe :
    {b : Builder} {val : ValueRef} {dest_ty : TypeRef}
    → IsSound b
    → HasValue b val
    → HasType b dest_ty
    → Done b IsValue (coerce_ptr_int val dest_ty b)
unfolding coerce_ptr_int
coerce_ptr_int_safe {b = b} {dest_ty = dest_ty} s hv hd = with_type_of s _ hv λ src_ty hs.
    both_branches (λ (m : Build ValueRef). Done b IsValue (m b)) (src_ty == dest_ty) (here s hv)
      (coerce_kinds_safe s hv hs hd)

-- A type of the store, if any.
abbrev pub IsTypeOption : Builder → Option TypeRef → Type 0
IsTypeOption b none = Unit
IsTypeOption b (some ty) = HasType b ty

abbrev IsPlainKind : Option CTypeKind → Type 0
IsPlainKind none = Unit
IsPlainKind (some kind) = NameBalanced kind × ((n : ℕ) → RefsBelow n kind) × WidthKnown kind

unsigned_kind-IsPlainKind : (kind : CTypeKind) → IsPlainKind (unsigned_kind kind)
unsigned_kind-IsPlainKind (CTypeKind.int bits true) = (tt, λ n. tt, tt)
unsigned_kind-IsPlainKind (CTypeKind.ptr_width true) = (tt, λ n. tt, tt)
unsigned_kind-IsPlainKind _ = tt

intern_option_safe :
    {b : Builder} (kind : Option CTypeKind)
    → IsSound b
    → IsPlainKind kind
    → Done b IsTypeOption (intern_option kind b)
intern_option_safe none s h = here s tt
intern_option_safe {b = b} (some kind) s (hn, hr, hw) =
    with_intern kind s hn (hr (length b.types.types)) hw
      λ s' g ht. here {a = some (intern b.types kind).1} s' ht

pub unsigned_type_safe :
    {b : Builder} {ty : TypeRef}
    → IsSound b
    → HasType b ty
    → Done b IsTypeOption (unsigned_type ty b)
unfolding unsigned_type
unsigned_type_safe s h =
    with_kind_of s _ h
      λ kind e _. intern_option_safe (unsigned_kind kind) s (unsigned_kind-IsPlainKind kind)

unsigned_binop_at_safe :
    {b : Builder} (op : CBinOp) {lhs rhs : ValueRef} {ty : TypeRef} (unsigned_ty : Option TypeRef)
    → IsSound b
    → HasValue b lhs
    → HasValue b rhs
    → HasType b ty
    → IsTypeOption b unsigned_ty
    → Done b IsValue (unsigned_binop_at op lhs rhs ty unsigned_ty b)
unsigned_binop_at_safe op none s hl hr ht hu = binop_safe op s hl hr
unsigned_binop_at_safe op (some ut) s hl hr ht hu = with_text s _ hl λ l bl.
    with_text s _ hr λ r br. with_type_text s _ hu λ u bu.
      with_type_text s _ ht λ t bt. new_temp_with_stmt_safe _ s ht (bt, ((bu, bl), (bu, br)))

pub unsigned_binop_safe :
    {b : Builder} (op : CBinOp) {lhs rhs : ValueRef}
    → IsSound b
    → HasValue b lhs
    → HasValue b rhs
    → Done b IsValue (unsigned_binop op lhs rhs b)
unfolding unsigned_binop
unsigned_binop_safe op s hl hr = with_type_of s _ hl λ ty ht.
    after_run _ (unsigned_type_safe s ht) λ ut b' s' g hu.
      unsigned_binop_at_safe op ut s' (HasValue-Grows g hl) (HasValue-Grows g hr)
        (HasType-Grows g ht) hu
