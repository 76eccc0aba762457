-- ===== src/Safe/Convert.antt =====
-- src/builder.rs: conversions on a sound builder.
use rustc_codegen_c.Prelude.{
  ◌-◌, ◌^◌, Bool, true, false, Option, none, some, both_branches, refl, ◌==◌, leb, ltb,
}
use rustc_codegen_c.Prelude.Text.{Text, str}
use rustc_codegen_c.Prelude.Decimal.{show}
use rustc_codegen_c.Prelude.Brackets.{IsBalanced, scan_over, show-IsBalanced}
use rustc_codegen_c.CAst.Expr.{CExpr}
use rustc_codegen_c.CAst.Build.{lit}
use rustc_codegen_c.CAst.Build as Expr
use rustc_codegen_c.CAst.Brackets.{LeavesBalanced}
use rustc_codegen_c.Types.Kind.{TypeRef, CTypeKind}
use rustc_codegen_c.Values.Store.{ValueRef}
use rustc_codegen_c.Builder.State.{Builder}
use rustc_codegen_c.Builder.Convert as Convert
use rustc_codegen_c.Builder.Convert.{
  Conversion, cast_through, cast_by, signed_kind, sext_kind, intcast_signed, intcast, max_unsigned,
  saturated, fptoui_sat_to, signed_bounds, sign_shift, fptosi_sat_to, is_ptr, same_width, copy_bits,
  bitcast_kinds, bitcast,
}
use rustc_codegen_c.Safe.Sound.{IsSound, HasType, HasValue, HasType-Grows, HasValue-Grows}
use rustc_codegen_c.Safe.Rules.{
  Done, IsValue, after_run, with_type_of, with_kind_of, with_text, with_type_text,
}
use rustc_codegen_c.Safe.Emit.{
  IsTypeOption, with_intern, new_temp_with_stmt_safe, cast_safe, unsigned_type_safe,
}

-- The conversions.
pub data ConvertOp : Type 0 where
  trunc sext zext fptoui_sat fptosi_sat fptoui fptosi uitofp sitofp fptrunc fpext : ConvertOp
  ptrtoint inttoptr pointercast : ConvertOp

abbrev pub convert : ConvertOp → Conversion
convert ConvertOp.trunc = Convert.trunc
convert ConvertOp.sext = Convert.sext
convert ConvertOp.zext = Convert.zext
convert ConvertOp.fptoui_sat = Convert.fptoui_sat
convert ConvertOp.fptosi_sat = Convert.fptosi_sat
convert ConvertOp.fptoui = Convert.fptoui
convert ConvertOp.fptosi = Convert.fptosi
convert ConvertOp.uitofp = Convert.uitofp
convert ConvertOp.sitofp = Convert.sitofp
convert ConvertOp.fptrunc = Convert.fptrunc
convert ConvertOp.fpext = Convert.fpext
convert ConvertOp.ptrtoint = Convert.ptrtoint
convert ConvertOp.inttoptr = Convert.inttoptr
convert ConvertOp.pointercast = Convert.pointercast

cast_through_safe :
    {b : Builder} {v : ValueRef} {mid_ty dest_ty : TypeRef}
    → IsSound b
    → HasValue b v
    → HasType b mid_ty
    → HasType b dest_ty
    → Done b IsValue (cast_through v mid_ty dest_ty b)
cast_through_safe s hv hm hd = with_text s _ hv λ x bx.
    with_type_text s _ hm
      λ m bm. with_type_text s _ hd λ d bd. new_temp_with_stmt_safe _ s hd (bd, (bm, bx))

cast_by_safe :
    {b : Builder} {v : ValueRef} {dest_ty : TypeRef} (mid_ty : Option TypeRef)
    → IsSound b
    → HasValue b v
    → HasType b dest_ty
    → IsTypeOption b mid_ty
    → Done b IsValue (cast_by v dest_ty mid_ty b)
cast_by_safe none s hv hd hm = cast_safe s hv hd
cast_by_safe (some mid_ty) s hv hd hm = cast_through_safe s hv hm hd

zext_safe :
    {b : Builder} {v : ValueRef} {dest_ty : TypeRef}
    → IsSound b
    → HasValue b v
    → HasType b dest_ty
    → Done b IsValue (Convert.zext v dest_ty b) × Done b IsValue (Convert.uitofp v dest_ty b)
unfolding Convert.zext Convert.uitofp
zext_safe s hv hd = (
  with_type_of s _ hv λ ty ht.
      after_run _ (unsigned_type_safe s ht)
        λ ut b' s' g hu. cast_by_safe ut s' (HasValue-Grows g hv) (HasType-Grows g hd) hu,
  with_type_of s _ hv λ ty ht.
      after_run _ (unsigned_type_safe s ht)
        λ ut b' s' g hu. cast_by_safe ut s' (HasValue-Grows g hv) (HasType-Grows g hd) hu,
)

fptoui_safe :
    {b : Builder} {v : ValueRef} {dest_ty : TypeRef}
    → IsSound b
    → HasValue b v
    → HasType b dest_ty
    → Done b IsValue (Convert.fptoui v dest_ty b)
unfolding Convert.fptoui
fptoui_safe s hv hd =
    after_run _ (unsigned_type_safe s hd)
      λ ut b' s' g hu. cast_by_safe ut s' (HasValue-Grows g hv) (HasType-Grows g hd) hu

abbrev BoundBalanced : Option Text → Type 0
BoundBalanced none = Unit
BoundBalanced (some t) = IsBalanced t

max_unsigned-BoundBalanced : (kind : CTypeKind) → BoundBalanced (max_unsigned kind)
max_unsigned-BoundBalanced (CTypeKind.int bits signed) =
    both_branches BoundBalanced (ltb bits 128)
      (both_branches IsBalanced (bits == 64) (λ st. refl)
        λ st. scan_over (show (2 ^ bits - 1)) _ st (show-IsBalanced (2 ^ bits - 1)))
      tt
max_unsigned-BoundBalanced (CTypeKind.ptr_width signed) = λ st. refl
max_unsigned-BoundBalanced _ = tt

abbrev BoundsBalanced : Option (Text × Text) → Type 0
BoundsBalanced none = Unit
BoundsBalanced (some (low, high)) = IsBalanced low × IsBalanced high

signed_bounds-BoundsBalanced : (kind : CTypeKind) → BoundsBalanced (signed_bounds kind)
signed_bounds-BoundsBalanced (CTypeKind.int bits true) =
    both_branches BoundsBalanced (leb bits 64)
      (
        λ st. scan_over (show (2 ^ sign_shift bits)) _ st (show-IsBalanced (2 ^ sign_shift bits)),
        λ st.
            scan_over (show (2 ^ sign_shift bits - 1)) _ st
              (show-IsBalanced (2 ^ sign_shift bits - 1)),
      )
      tt
signed_bounds-BoundsBalanced (CTypeKind.ptr_width true) = (λ st. refl, λ st. refl)
signed_bounds-BoundsBalanced _ = tt

saturated-LeavesBalanced :
    (v dt low high : Text) (least : CExpr)
    → IsBalanced v
    → IsBalanced dt
    → IsBalanced low
    → LeavesBalanced least
    → IsBalanced high
    → LeavesBalanced (saturated v dt low least high)
saturated-LeavesBalanced v dt low high least hv hd hl hs hh =
    ((hv, hv), (hd, λ st. refl), ((hv, hl), hs, ((hv, hh), (hd, hh), (hd, hv))))

fptoui_sat_to_safe :
    {b : Builder} {v : ValueRef} {dest_ty : TypeRef} (x dt : Text) (bound : Option Text)
    → IsSound b
    → HasValue b v
    → HasType b dest_ty
    → IsBalanced x
    → IsBalanced dt
    → BoundBalanced bound
    → Done b IsValue (fptoui_sat_to v dest_ty x dt bound b)
fptoui_sat_to_safe x dt none s hv hd bx bd hb = cast_safe s hv hd
fptoui_sat_to_safe x dt (some high) s hv hd bx bd hb = new_temp_with_stmt_safe _ s hd (
    saturated-LeavesBalanced x dt (str "0.0") high (Expr.cast dt (lit (str "0"))) bx bd (λ st. refl)
      (bd, λ st. refl) hb)

fptosi_sat_to_safe :
    {b : Builder} {v : ValueRef} {dest_ty : TypeRef} (x dt : Text) (bounds : Option (Text × Text))
    → IsSound b
    → HasValue b v
    → HasType b dest_ty
    → IsBalanced x
    → IsBalanced dt
    → BoundsBalanced bounds
    → Done b IsValue (fptosi_sat_to v dest_ty x dt bounds b)
fptosi_sat_to_safe x dt none s hv hd bx bd hb = cast_safe s hv hd
fptosi_sat_to_safe x dt (some (low, high)) s hv hd bx bd (hl, hh) =
    new_temp_with_stmt_safe _ s hd
      (saturated-LeavesBalanced x dt low high (Expr.cast dt (lit low)) bx bd hl (bd, hl) hh)

saturating_safe :
    {b : Builder} {v : ValueRef} {dest_ty : TypeRef}
    → IsSound b
    → HasValue b v
    → HasType b dest_ty
    → Done b IsValue (Convert.fptoui_sat v dest_ty b)
      × Done b IsValue (Convert.fptosi_sat v dest_ty b)
unfolding Convert.fptoui_sat Convert.fptosi_sat
saturating_safe s hv hd = (
  with_text s _ hv λ x bx. with_type_text s _ hd λ d bd. with_kind_of s _ hd λ kind e _.
      fptoui_sat_to_safe x d (max_unsigned kind) s hv hd bx bd (max_unsigned-BoundBalanced kind),
  with_text s _ hv λ x bx. with_type_text s _ hd λ d bd. with_kind_of s _ hd λ kind e _.
      fptosi_sat_to_safe x d (signed_bounds kind) s hv hd bx bd (signed_bounds-BoundsBalanced kind),
)

-- On a sound builder, a conversion of a value of the store to a type of the store returns a value
-- of the store and leaves the builder sound.
pub convert_safe :
    {b : Builder} (op : ConvertOp) {v : ValueRef} {dest_ty : TypeRef}
    → IsSound b
    → HasValue b v
    → HasType b dest_ty
    → Done b IsValue (convert op v dest_ty b)
unfolding Convert.trunc Convert.sext Convert.fptosi Convert.sitofp Convert.fptrunc Convert.fpext
    Convert.ptrtoint Convert.inttoptr Convert.pointercast
convert_safe ConvertOp.zext s hv hd = (zext_safe s hv hd).0
convert_safe ConvertOp.uitofp s hv hd = (zext_safe s hv hd).1
convert_safe ConvertOp.fptoui s hv hd = fptoui_safe s hv hd
convert_safe ConvertOp.fptoui_sat s hv hd = (saturating_safe s hv hd).0
convert_safe ConvertOp.fptosi_sat s hv hd = (saturating_safe s hv hd).1
convert_safe ConvertOp.trunc s hv hd = cast_safe s hv hd
convert_safe ConvertOp.sext s hv hd = cast_safe s hv hd
convert_safe ConvertOp.fptosi s hv hd = cast_safe s hv hd
convert_safe ConvertOp.sitofp s hv hd = cast_safe s hv hd
convert_safe ConvertOp.fptrunc s hv hd = cast_safe s hv hd
convert_safe ConvertOp.fpext s hv hd = cast_safe s hv hd
convert_safe ConvertOp.ptrtoint s hv hd = cast_safe s hv hd
convert_safe ConvertOp.inttoptr s hv hd = cast_safe s hv hd
convert_safe ConvertOp.pointercast s hv hd = cast_safe s hv hd

sext_kind_safe :
    {b : Builder} {v : ValueRef} {dest_ty : TypeRef} (kind : CTypeKind)
    → IsSound b
    → HasValue b v
    → HasType b dest_ty
    → Done b IsValue (sext_kind v dest_ty (signed_kind kind) b)
sext_kind_safe (CTypeKind.int bits false) s hv hd =
    with_intern (CTypeKind.int bits true) s tt tt tt
      λ s' g ht. cast_through_safe s' (HasValue-Grows g hv) ht (HasType-Grows g hd)
sext_kind_safe (CTypeKind.ptr_width false) s hv hd =
    with_intern (CTypeKind.ptr_width true) s tt tt tt
      λ s' g ht. cast_through_safe s' (HasValue-Grows g hv) ht (HasType-Grows g hd)
sext_kind_safe _ s hv hd = cast_safe s hv hd

pub intcast_safe :
    {b : Builder} (is_signed : Bool) {v : ValueRef} {dest_ty : TypeRef}
    → IsSound b
    → HasValue b v
    → HasType b dest_ty
    → Done b IsValue (intcast v dest_ty is_signed b)
unfolding intcast
intcast_safe true s hv hd =
    with_type_of s _ hv λ ty ht. with_kind_of s _ ht λ kind e _. sext_kind_safe kind s hv hd
intcast_safe false s hv hd = (zext_safe s hv hd).0
