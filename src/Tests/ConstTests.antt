-- ===== src/Tests/ConstTests.antt =====
-- src/consts.rs at concrete constants.
use rustc_codegen_c.Prelude.{◌+◌, ◌-◌, ◌^◌, ◌%◌, ◌≡◌, refl, true, arith}
use rustc_codegen_c.Prelude.Text.{str}
use rustc_codegen_c.Prelude.Int.{negsuc, to_u128}
use rustc_codegen_c.Prelude.Outcome.{ok}
use rustc_codegen_c.Types.Kind.{int}
use rustc_codegen_c.Types.Store as Types
use rustc_codegen_c.Module.Source.{new_module}
use rustc_codegen_c.Builder.State.{Builder}
use rustc_codegen_c.Consts.Signed.{IsSigned, sign_extend_to_i128, sign_extend_to_i128-IsSigned}
use rustc_codegen_c.Consts.Values.{const_uint_big}
use rustc_codegen_c.Consts.Exact.{MakesConst, const_uint_big_makes}
use rustc_codegen_c.Tests.Samples.{arrays, one_temp, one_temp-long}

abbrev const_builder : Builder
const_builder = record {
  types = arrays;
  values = one_temp;
  c_module = new_module (str "m");
  current_bb = 0;
  current_fn = str "f";
}

const_kind : Types.get const_builder.types 0 ≡ ok (int (31 + 1) true)
unfolding Types.get Types.intern Types.new rustc_codegen_c.Types.Kind.CTypeKind-discrete
const_kind = refl

-- The bits of all ones are -1.
all_ones : sign_extend_to_i128 (2 ^ 32 - 1) 32 ≡ negsuc 0
unfolding sign_extend_to_i128
all_ones = refl

sign_extend_to_i128-IsSigned_example :
    IsSigned 31 (sign_extend_to_i128 (2 ^ 32 - 1) (31 + 1))
    × (to_u128 (sign_extend_to_i128 (2 ^ 32 - 1) (31 + 1)) % 2 ^ (31 + 1)
        ≡ (2 ^ 32 - 1) % 2 ^ (31 + 1))
sign_extend_to_i128-IsSigned_example =
    sign_extend_to_i128-IsSigned (2 ^ 32 - 1) 31 (omega arith) (omega arith)

const_uint_big_makes_example :
    MakesConst const_builder 31 (2 ^ 32 - 1) (const_uint_big 64 0 (2 ^ 32 - 1) const_builder)
const_uint_big_makes_example =
    const_uint_big_makes const_builder 64 31 (2 ^ 32 - 1) 0 (rw one_temp-long (omega arith))
      const_kind (omega arith) (omega arith)
