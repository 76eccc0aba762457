-- ===== src/Safe/Aggregate.antt =====
-- src/builder.rs: values inside of values, on a sound builder.
use rustc_codegen_c.Prelude.{
  ℕ, zero, suc, ◌<◌, ◌≡◌, refl, Bool, true, false, [], ◌∷◌, Option, none, some, All-get_elem?,
  length, get_elem?_total,
}
use rustc_codegen_c.Prelude.Text.{Text, str, fmt}
use rustc_codegen_c.Prelude.Brackets.{IsBalanced, show-IsBalanced}
use rustc_codegen_c.Prelude.Outcome.{Outcome, ok}
use rustc_codegen_c.CAst.Expr.{CExpr}
use rustc_codegen_c.CAst.Brackets.{LeavesBalanced, ItemsBalanced}
use rustc_codegen_c.CAst.Build.{var, index, field}
use rustc_codegen_c.Types.Kind.{TypeRef, CTypeKind}
use rustc_codegen_c.Types.Store as Types
use rustc_codegen_c.Types.Store.{intern}
use rustc_codegen_c.Types.Interning.{get-eq-ok}
use rustc_codegen_c.Types.Total.{RefsBelow, refs_inside}
use rustc_codegen_c.Prelude.{get_elem?-lt}
use rustc_codegen_c.Values.Store.{ValueRef, CValueKind}
use rustc_codegen_c.Values.Store as Values
use rustc_codegen_c.Builder.State.{Builder}
use rustc_codegen_c.Builder.Queries.{element_of, element_type}
use rustc_codegen_c.Builder.Aggregate.{
  va_arg, extract_element, repeated, vector_splat, field_type, field_name, type_or, extract_value,
  coerce_field, is_undef, copy_aggregate, insert_value,
}
use rustc_codegen_c.Safe.Sound.{IsSound, HasType, HasValue, HasType-Grows, HasValue-Grows}
use rustc_codegen_c.Safe.Rules.{
  Done, IsValue, IsUnit, here, after_run, with_answer, with_info, with_type_of, with_text,
  with_type_text,
}
use rustc_codegen_c.Safe.Emit.{
  IsTypeOption, emit_safe, with_intern, with_new_temp, with_decl, new_temp_with_stmt_safe,
  coerce_ptr_int_safe,
}
use rustc_codegen_c.Safe.Memory.{declare_text-IsBalanced, emit_call_safe}

-- The kinds that a kind of the store names are in the store, and so is the type itself.
pub refs_of :
    {b : Builder} {ty : TypeRef} {kind : CTypeKind}
    → IsSound b
    → Types.get b.types ty ≡ ok kind
    → RefsBelow (length b.types.types) kind × HasType b ty
refs_of {b = b} {ty = ty} {kind = kind} s e =
    let g = get-eq-ok b.types ty e in
    let lt = get_elem?-lt b.types.types ty g in
    (refs_inside kind ty (length b.types.types) lt (s.types.refs kind ty g), lt)

-- The value has a type of the kind.
pub record HasKind (b : Builder) (v : ValueRef) (kind : CTypeKind) : Type 0 where
  pub ty : TypeRef
  pub typed : Values.get_type b.values v ≡ ok ty
  pub known : Types.get b.types ty ≡ ok kind

pub va_arg_safe :
    {b : Builder} {list : ValueRef} {ty : TypeRef}
    → IsSound b
    → HasValue b list
    → HasType b ty
    → Done b IsValue (va_arg list ty b)
unfolding va_arg
va_arg_safe s hl ht = with_text s _ hl λ l bl.
    with_type_text s _ ht λ t bt. new_temp_with_stmt_safe _ s ht (λ st. refl, (bl, (bt, tt)))

element_inside :
    (n : ℕ) (kind : CTypeKind) {el : TypeRef} → element_of kind ≡ ok el → RefsBelow n kind → el < n
element_inside n (CTypeKind.array element len) {el} e h = let p : element ≡ el = cc in rw (← p) h
element_inside n (CTypeKind.vector element len) {el} e h = let p : element ≡ el = cc in rw (← p) h
element_inside n _ e h = cc

-- On a sound builder, an element of an array or a vector of the store returns a value of the store
-- and leaves the builder sound.
pub extract_element_safe :
    {b : Builder} {vec idx : ValueRef} {kind : CTypeKind} {el : TypeRef}
    → IsSound b
    → HasValue b vec
    → HasValue b idx
    → HasKind b vec kind
    → element_of kind ≡ ok el
    → Done b IsValue (extract_element vec idx b)
unfolding extract_element element_type
extract_element_safe {b = b} {kind = kind} s hv hi k e =
    let inside = element_inside (length b.types.types) kind e (refs_of s k.known).0 in
    with_answer _ k.typed (
      rw (k.known, e)
        (with_text s _ hv λ v bv.
          with_text s _ hi
            λ i bi. new_temp_with_stmt_safe (index (var v) (var i)) s inside (bv, bi)))

repeated-ItemsBalanced : (n : ℕ) (e : CExpr) → LeavesBalanced e → ItemsBalanced (repeated n e)
repeated-ItemsBalanced zero e h = tt
repeated-ItemsBalanced (suc n) e h = (h, repeated-ItemsBalanced n e h)

pub vector_splat_safe :
    {b : Builder} (n : ℕ) {elt : ValueRef}
    → IsSound b
    → HasValue b elt
    → Done b IsValue (vector_splat n elt b)
unfolding vector_splat
vector_splat_safe n s h = with_type_of s _ h λ ty ht.
    with_intern (CTypeKind.vector ty n) s tt ht tt λ s' g hvec. with_type_text s' _ hvec λ t bt.
      with_text s' _ (HasValue-Grows g h)
        λ e be. new_temp_with_stmt_safe _ s' hvec (bt, repeated-ItemsBalanced n (var e) be)

-- The struct has a field of the number.
abbrev pub IndexFits : CTypeKind → ℕ → Type 0
IndexFits (CTypeKind.struct fields packed name) idx = idx < length fields
IndexFits _ idx = Unit

-- The type of a field of the store is in the store.
pub record FieldFound (b : Builder) (answer : Outcome (Option TypeRef)) : Type 0 where
  pub ft : Option TypeRef
  pub found : answer ≡ ok ft
  pub inside : IsTypeOption b ft

field_found :
    (b : Builder) (kind : CTypeKind) (idx : ℕ)
    → RefsBelow (length b.types.types) kind
    → IndexFits kind idx
    → FieldFound b (field_type kind idx)
field_found b (CTypeKind.struct fields packed name) idx h fits =
    let (ft, e) = get_elem?_total fields idx fits in
    record {
      ft = some ft;
      found = rw e refl;
      inside = All-get_elem? (λ f. f < length b.types.types) fields idx h e;
    }
field_found b _ idx h fits = record { ft = none; found = refl; inside = tt }

field_name-IsBalanced : (idx : ℕ) → IsBalanced (field_name idx)
field_name-IsBalanced idx = λ st. show-IsBalanced idx st

type_or_inside :
    (b : Builder) {ty : TypeRef} (ft : Option TypeRef)
    → HasType b ty
    → IsTypeOption b ft
    → HasType b (type_or ty ft)
type_or_inside b none h hf = h
type_or_inside b (some ft) h hf = hf

-- On a sound builder, a field of a value of the store, which its struct has, returns a value of the
-- store and leaves the builder sound.
pub extract_value_safe :
    {b : Builder} {agg : ValueRef} (idx : ℕ) {kind : CTypeKind}
    → IsSound b
    → HasValue b agg
    → HasKind b agg kind
    → IndexFits kind idx
    → Done b IsValue (extract_value agg idx b)
unfolding extract_value
extract_value_safe {b = b} idx {kind = kind} s hv k fits =
    let (refs, inside) = refs_of s k.known in
    let f = field_found b kind idx refs fits in
    with_answer _ k.typed (
      with_answer _ k.known (
        with_answer _ f.found (
          with_text s _ hv λ v bv.
            new_temp_with_stmt_safe (field (var v) (field_name idx)) s
              (type_or_inside b f.ft inside f.inside) (bv, field_name-IsBalanced idx))))

coerce_field_safe :
    {b : Builder} {elt : ValueRef} (ft : Option TypeRef)
    → IsSound b
    → HasValue b elt
    → IsTypeOption b ft
    → Done b IsValue (coerce_field elt ft b)
coerce_field_safe none s h hf = here s h
coerce_field_safe (some ft) s h hf = coerce_ptr_int_safe s h hf

copy_aggregate_safe :
    {b : Builder} {agg : ValueRef} (name : Text) (undefined : Bool)
    → IsSound b
    → HasValue b agg
    → IsBalanced name
    → Done b IsUnit (copy_aggregate agg name undefined b)
copy_aggregate_safe name true s h hn = emit_call_safe _ _ _ _ s (λ st. refl) hn (λ st. refl) hn
copy_aggregate_safe name false s h hn = with_text s _ h λ x bx. emit_safe _ s (hn, bx)

-- On a sound builder, a value of the store with another field, which its struct has, returns a
-- value of the store and leaves the builder sound.
pub insert_value_safe :
    {b : Builder} {agg elt : ValueRef} (idx : ℕ) {kind : CTypeKind}
    → IsSound b
    → HasValue b agg
    → HasValue b elt
    → HasKind b agg kind
    → IndexFits kind idx
    → Done b IsValue (insert_value agg elt idx b)
unfolding insert_value
insert_value_safe {b = b} idx {kind = kind} s hv he k fits =
    let (refs, inside) = refs_of s k.known in
    let f = field_found b kind idx refs fits in
    with_answer _ k.typed (
      with_answer _ k.known (
        with_answer _ f.found (
          after_run _ (coerce_field_safe f.ft s he f.inside) λ elt' b1 s1 g1 he'.
            with_new_temp s1 (HasType-Grows g1 inside) λ s2 g2 hr. with_text s2 _ hr λ name hn.
              with_text s2 _ (HasValue-Grows g2 he') λ e be.
                with_type_text s2 _ (HasType-Grows g2 (HasType-Grows g1 inside)) λ t bt.
                  let hagg = HasValue-Grows g2 (HasValue-Grows g1 hv) in
                  with_decl (fmt (t ∷ str " " ∷ name ∷ str ";" ∷ [])) s2
                    (declare_text-IsBalanced t name bt hn)
                    λ s3 g3. with_info s3 _ hagg λ info _.
                      after_run _ (copy_aggregate_safe name (is_undef info.kind) s3 hagg hn)
                        λ _ b4 s4 g4 _.
                          after_run _ (emit_safe _ s4 ((hn, field_name-IsBalanced idx), be))
                            λ _ b5 s5 g5 _. here s5 (HasValue-Grows g5 (HasValue-Grows g4 hr)))))
