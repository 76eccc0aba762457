-- ===== src/Consts/Exact.antt =====
-- src/consts.rs, src/values.rs: a constant given by its bits is written with the value that its
-- type reads from the bits.
use rustc_codegen_c.Prelude.{ℕ, ◌+◌, ◌%◌, ◌^◌, ◌≤◌, ◌<◌, ◌≡◌, refl, true, arith}
use rustc_codegen_c.Prelude.Text.{Text}
use rustc_codegen_c.Prelude.Int.{ℤ, pos, negsuc, to_u128, IsI128}
use rustc_codegen_c.Prelude.Outcome.{Outcome, ok}
use rustc_codegen_c.Types.Kind.{TypeRef, int}
use rustc_codegen_c.Types.Store as Types
use rustc_codegen_c.Values.Store.{ValueRef, int_const, alloc}
use rustc_codegen_c.Values.Render.{render, render_fuel, render_kind, render_int_const}
use rustc_codegen_c.Values.Literal.{Spells, int_const-Spells}
use rustc_codegen_c.Values.Fresh.{HasRoom, get-alloc}
use rustc_codegen_c.Builder.State.{Builder}
use rustc_codegen_c.Consts.Signed.{IsSigned, sign_extend_to_i128, sign_extend_to_i128-IsSigned}
use rustc_codegen_c.Consts.Values.{const_uint_big, intern_value}
use native.Mathlib.Nat.{pow-le-pow_right}

IsSigned-IsI128 : (b : ℕ) (z : ℤ) → b < 128 → IsSigned b z → IsI128 z
IsSigned-IsI128 b (pos n) hb h =
    let le : b ≤ 127 = omega arith in
    let two : 0 < 2 = omega arith in
    let wide : 2 ^ b ≤ 2 ^ 127 = pow-le-pow_right two le in omega arith
IsSigned-IsI128 b (negsuc n) hb h =
    let le : b ≤ 127 = omega arith in
    let two : 0 < 2 = omega arith in
    let wide : 2 ^ b ≤ 2 ^ 127 = pow-le-pow_right two le in omega arith

-- What is left after a constant of `b + 1` bits is made: a value whose text is a C constant of a
-- signed number of these bits, which has the same bits as `u`.
pub record MakesConst (b : Builder) (width u : ℕ) (run : Outcome (ValueRef × Builder))
    : Type 0 where
  pub after : Builder
  pub val : ValueRef
  pub text : Text
  pub number : ℤ
  pub returns : run ≡ ok (val, after)
  pub written : render after.values val ≡ ok text
  pub spells : Spells text number
  pub signed : IsSigned width number
  pub bits : to_u128 number % 2 ^ (width + 1) ≡ u % 2 ^ (width + 1)

-- In a value store with room, for a type of the store that is a signed integer of 1 to 128 bits
-- and a `u` below 2^128, `const_uint_big` returns a value that is written as a C constant of a
-- number in the range of the type, and the number has the same bits as `u` in the width of the
-- type.
pub const_uint_big_makes :
    (b : Builder) (pointer_bits width u : ℕ) (t : TypeRef)
    → HasRoom b.values
    → Types.get b.types t ≡ ok (int (width + 1) true)
    → width < 128
    → u < 2 ^ 128
    → MakesConst b width u (const_uint_big pointer_bits t u b)
unfolding const_uint_big intern_value
const_uint_big_makes b pointer_bits width u t room hk hw hu =
    let z = sign_extend_to_i128 u (width + 1) in
    let (signed, bits) = sign_extend_to_i128-IsSigned u width hu hw in
    record {
      after = record b { values = (alloc b.values (int_const z) t).0 };
      val = (alloc b.values (int_const z) t).1;
      text = render_int_const z;
      number = z;
      returns = rw hk refl;
      written =
          unfold render render_fuel render_kind in
          rw (get-alloc b.values (int_const z) t room) refl;
      spells = int_const-Spells z (IsSigned-IsI128 width z hw signed);
      signed = signed;
      bits = bits;
    }
